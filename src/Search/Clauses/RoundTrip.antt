-- ===== src/Search/Clauses/RoundTrip.antt =====
-- Clauses that are written out in full are read back.
use r_search.Base.{
  both, arith, ap, ◌++◌, ◌⊎◌, inl, inr, ◌&&◌, Bool-cases, ◌≡◌, refl, Bool, true, false, List, [],
  ◌∷◌, Option, none, some, All,
}
use r_search.Search.Query.{
  Json, Text, string, array, object, is_timestamp_alias, Items, no_items, item, Fields, no_fields,
  field,
}
use r_search.Search.Clauses.{
  SortMode, min, max, SortSpec, timestamp, fields, is_timestamp, is_none, all_timestamp, last_desc,
  SortField, ok, asc_text, desc_text, min_text, max_text, order_key, missing_key, unmapped_key,
  mode_key, is_no_field, parse_order, with_options, parse_field, parse_entries, spec_of, parse_spec,
}

abbrev pub order_text : Bool → Text
order_text true = desc_text
order_text false = asc_text

abbrev pub mode_text : SortMode → Text
mode_text min = min_text
mode_text max = max_text

abbrev pub missing_option : Option Json → Fields → Fields
missing_option none more = more
missing_option (some value) more = field missing_key value more

abbrev pub mode_option : Option SortMode → Fields → Fields
mode_option none more = more
mode_option (some mode) more = field mode_key (string (mode_text mode)) more

abbrev pub unmapped_option : Option Text → Fields → Fields
unmapped_option none more = more
unmapped_option (some ty) more = field unmapped_key (string ty) more

-- A clause with its options, in the order of their names.
abbrev pub clause_json : SortField → Json
clause_json f = object (
    field f.name
      (object (
        missing_option f.missing (
          mode_option f.mode (
            field order_key (string (order_text f.desc))
              (unmapped_option f.unmapped_type no_fields)))))
      no_fields)

options_return :
    (name : Text) (desc : Bool) (missing : Option Json) (mode : Option SortMode) (ty : Option Text)
    → with_options
        (record { name = name; desc = false; missing = none; unmapped_type = none; mode = none })
        (missing_option missing (
          mode_option mode
            (field order_key (string (order_text desc)) (unmapped_option ty no_fields))))
      ≡ ok (record { name = name; desc = desc; missing = missing; unmapped_type = ty; mode = mode })
unfolding parse_order
options_return name true none none none = refl
options_return name true none none (some ty) = refl
options_return name true none (some min) none = refl
options_return name true none (some min) (some ty) = refl
options_return name true none (some max) none = refl
options_return name true none (some max) (some ty) = refl
options_return name true (some v) none none = refl
options_return name true (some v) none (some ty) = refl
options_return name true (some v) (some min) none = refl
options_return name true (some v) (some min) (some ty) = refl
options_return name true (some v) (some max) none = refl
options_return name true (some v) (some max) (some ty) = refl
options_return name false none none none = refl
options_return name false none none (some ty) = refl
options_return name false none (some min) none = refl
options_return name false none (some min) (some ty) = refl
options_return name false none (some max) none = refl
options_return name false none (some max) (some ty) = refl
options_return name false (some v) none none = refl
options_return name false (some v) none (some ty) = refl
options_return name false (some v) (some min) none = refl
options_return name false (some v) (some min) (some ty) = refl
options_return name false (some v) (some max) none = refl
options_return name false (some v) (some max) (some ty) = refl

clause_returns :
    (f : SortField) → is_no_field f.name ≡ false → parse_field (clause_json f) ≡ ok (some f)
unfolding parse_field
clause_returns f h = rw (h, options_return f.name f.desc f.missing f.mode f.unmapped_type) refl

abbrev pub clauses_json : List SortField → Items
clauses_json [] = no_items
clauses_json (f ∷ fs) = item (clause_json f) (clauses_json fs)

entries_return :
    (fs : List SortField)
    → All (λ (f : SortField). is_no_field f.name ≡ false) fs
    → parse_entries (clauses_json fs) ≡ ok fs
entries_return [] h = refl
entries_return (f ∷ fs) (h, hs) = rw (clause_returns f h, entries_return fs hs) refl

-- A clause on the timestamp that says nothing of missing values.
abbrev pub IsPlainTime : SortField → Type 0
IsPlainTime f = (is_timestamp_alias f.name ≡ true) × (f.missing ≡ none)

-- What a request asks for by its clauses. Clauses on the time alone ask for the time, in the
-- direction of the last of them, or the latest first if there is none. When some clause is on
-- another field or says what a missing value counts as, all of them are asked for, in their order.
abbrev pub Asks : List SortField → SortSpec → Type 0
Asks fs (timestamp desc) =
    All IsPlainTime fs
    × (((fs ≡ []) × (desc ≡ true))
        ⊎ ((before : List SortField) × (last : SortField) × (fs ≡ before ++ last ∷ [])
            × (desc ≡ last.desc)))
Asks fs (fields gs) =
    (gs ≡ fs)
    × ((before after : List SortField) × (f : SortField) × (fs ≡ before ++ f ∷ after)
        × ¬ (IsPlainTime f))

is_none_lem : {A : Type 0} (o : Option A) → is_none o ≡ true → o ≡ none
is_none_lem none h = refl
is_none_lem (some a) h = absurd (grind arith)

plain-IsPlainTime : (f : SortField) → (is_timestamp f && is_none f.missing) ≡ true → IsPlainTime f
plain-IsPlainTime f h =
    let (e, m) = both (is_timestamp f) (is_none f.missing) h in (e, is_none_lem f.missing m)

not-IsPlainTime :
    (f : SortField) → (is_timestamp f && is_none f.missing) ≡ false → ¬ (IsPlainTime f)
not-IsPlainTime f h (e, m) = let h' : true ≡ false = rw (e, m) at h in absurd (grind arith)

all_plain : (fs : List SortField) → all_timestamp fs ≡ true → All IsPlainTime fs
all_plain [] h = tt
all_plain (f ∷ fs) h =
    let (e, es) = both (is_timestamp f && is_none f.missing) (all_timestamp fs) h in
    (plain-IsPlainTime f e, all_plain fs es)

some_other :
    (fs : List SortField)
    → all_timestamp fs ≡ false
    → (before after : List SortField) × (f : SortField) × (fs ≡ before ++ f ∷ after)
      × ¬ (IsPlainTime f)
some_other [] h = absurd (grind arith)
some_other (f ∷ fs) h = elim (Bool-cases (is_timestamp f && is_none f.missing)) [
  | inl e ↦
      let (before, after, g, split, other) = some_other fs (rw e at h) in
      (f ∷ before, after, g, ap (λ gs. f ∷ gs) split, other)
  | inr e ↦ ([], fs, f, refl, not-IsPlainTime f e)
]

last_direction :
    (desc : Bool) (fs : List SortField)
    → ((fs ≡ []) × (last_desc desc fs ≡ desc))
      ⊎ ((before : List SortField) × (last : SortField) × (fs ≡ before ++ last ∷ [])
          × (last_desc desc fs ≡ last.desc))
last_direction desc [] = inl (refl, refl)
last_direction desc (f ∷ fs) = elim (last_direction f.desc fs) [
  | inl (none_left, e) ↦ inr ([], f, ap (λ gs. f ∷ gs) none_left, e)
  | inr (before, last, split, e) ↦ inr (f ∷ before, last, ap (λ gs. f ∷ gs) split, e)
]

spec_of-Asks : (fs : List SortField) → Asks fs (spec_of fs)
spec_of-Asks fs = elim (Bool-cases (all_timestamp fs)) [
  | inl e ↦ rw e (all_plain fs e, last_direction true fs)
  | inr e ↦ rw e (refl, some_other fs e)
]

-- An array of clauses that are written out in full, none of them on _score or _doc, parses to a
-- sort by the timestamp just when all of them are on it and say nothing of missing values: in the
-- direction of the last clause, or the latest first when there is none. Else it parses to just
-- these clauses, in their order.
pub parse_spec-Asks :
    (fs : List SortField)
    → All (λ (f : SortField). is_no_field f.name ≡ false) fs
    → (spec : SortSpec) × (parse_spec (some (array (clauses_json fs))) ≡ ok spec) × Asks fs spec
unfolding parse_spec
parse_spec-Asks fs h = (spec_of fs, rw (entries_return fs h) refl, spec_of-Asks fs)
