-- ===== src/Search/Query/Range.antt =====
-- `translate_range` of crates/rsearch-search/src/query_dsl.rs for the time field. The rest of it, for
-- the other fields, takes the mapping's types from outside; an error is told apart by its kind.
pub mod Kept
use r_search.Base.{
  Bool, true, false, ◌&&◌, ◌||◌, List, [], ◌∷◌, Option, none, some, if◌then◌else◌, ℤ, leb_ℤ, ltb_ℤ,
}
use r_search.Search.Query.{
  Text, Json, object, Fields, no_fields, field, same_text, gt_key, gte_key, lt_key, lte_key,
  is_timestamp_alias, Times, parse_time_millis,
}

pub data Bound : Type 0 where
  unbounded : Bound
  included excluded : ℤ → Bound

pub record RangeBounds : Type 0 where
  pub lower : Bound
  pub upper : Bound

pub data RangeError : Type 0 where
  no_object no_field no_bounds bad_time bad_operator : RangeError

pub data RangeResult (A : Type 0) : Type 0 where
  ok : A → RangeResult A
  err : RangeError → RangeResult A

infixl 5 ◌>>=◌
abbrev pub ◌>>=◌ : {A B : Type 0} → RangeResult A → (A → RangeResult B) → RangeResult B
ok a >>= f = f a
err e >>= f = err e

-- The translated query: a range of times, or the operators on a field that is no time.
pub data RangeQuery : Type 0 where
  time_range : RangeBounds → RangeQuery
  field_range : Text → Fields → RangeQuery

-- `boost`, `format` and `time_zone`.
abbrev pub is_skipped : Text → Bool
is_skipped op =
    same_text op (98 ∷ 111 ∷ 111 ∷ 115 ∷ 116 ∷ [])
    || (same_text op (102 ∷ 111 ∷ 114 ∷ 109 ∷ 97 ∷ 116 ∷ [])
        || same_text op (116 ∷ 105 ∷ 109 ∷ 101 ∷ 95 ∷ 122 ∷ 111 ∷ 110 ∷ 101 ∷ []))

abbrev pub with_lower : (ℤ → Bound) → RangeBounds → Option ℤ → RangeResult RangeBounds
with_lower kind b none = err bad_time
with_lower kind b (some ms) = ok (record b { lower = kind ms })

abbrev pub with_upper : (ℤ → Bound) → RangeBounds → Option ℤ → RangeResult RangeBounds
with_upper kind b none = err bad_time
with_upper kind b (some ms) = ok (record b { upper = kind ms })

-- A round of the loop over the operators: a later bound takes the place of an earlier one. The
-- bound's time is read by `make_term`, when one of the four operators asks for it.
unfoldable pub set_bound : Text → Option ℤ → RangeBounds → RangeResult RangeBounds
set_bound op time b =
    if same_text op gte_key
    then with_lower included b time
    else if same_text op gt_key
    then with_lower excluded b time
    else if same_text op lte_key
    then with_upper included b time
    else if same_text op lt_key
    then with_upper excluded b time
    else if is_skipped op
    then ok b
    else err bad_operator

module _ (times : Times) where
  abbrev pub read_bounds : Fields → RangeBounds → RangeResult RangeBounds
  read_bounds no_fields b = ok b
  read_bounds (field op value ops) b =
      set_bound op (parse_time_millis times value) b >>= (λ c. read_bounds ops c)

  abbrev pub translate_bounds : Text → Json → RangeResult RangeQuery
  translate_bounds name (object ops) =
      if is_timestamp_alias name
      then read_bounds ops (record { lower = unbounded; upper = unbounded })
        >>= (λ b. ok (time_range b))
      else ok (field_range name ops)
  translate_bounds name bounds = err no_bounds

  -- Only the first field counts.
  abbrev pub translate_range : Json → RangeResult RangeQuery
  translate_range (object no_fields) = err no_field
  translate_range (object (field name bounds more)) = translate_bounds name bounds
  translate_range body = err no_object

-- Whether a time is in a translated range.
abbrev pub above : Bound → ℤ → Bool
above unbounded ts = true
above (included ms) ts = leb_ℤ ms ts
above (excluded ms) ts = ltb_ℤ ms ts

abbrev pub below : Bound → ℤ → Bool
below unbounded ts = true
below (included ms) ts = leb_ℤ ts ms
below (excluded ms) ts = ltb_ℤ ts ms

abbrev pub in_range : RangeBounds → ℤ → Bool
in_range b ts = above b.lower ts && below b.upper ts
