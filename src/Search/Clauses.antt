-- ===== src/Search/Clauses.antt =====
-- The `sort` of a request: SortField and SortSpec of crates/rsearch-search/src/sort.rs. A text is its
-- bytes; an error is told apart by its kind, without the words of its message.
pub mod RoundTrip
mod Tests
use r_search.Base.{
  ℕ, ◌+◌, ◌≡◌, Bool, true, false, ◌&&◌, ◌||◌, List, [], ◌∷◌, map, Option, none, some, ltb, leb,
  if◌then◌else◌,
}
use r_search.Search.Query.{
  Json, Text, string, array, object, Items, no_items, item, Fields, no_fields, field, same_text,
  is_timestamp_alias,
}

pub data SortMode : Type 0 where
  min max : SortMode

pub record SortField : Type 0 where
  pub name : Text
  pub desc : Bool
  pub missing : Option Json
  pub unmapped_type : Option Text
  pub mode : Option SortMode

pub data SortError : Type 0 where
  several_fields bad_order bad_mode bad_option bad_spec bad_entry : SortError

pub data SortResult (A : Type 0) : Type 0 where
  ok : A → SortResult A
  err : SortError → SortResult A

infixl 5 ◌>>=◌
abbrev pub ◌>>=◌ : {A B : Type 0} → SortResult A → (A → SortResult B) → SortResult B
ok a >>= f = f a
err e >>= f = err e

abbrev pub to_ascii_lowercase : Text → Text
to_ascii_lowercase [] = []
to_ascii_lowercase (c ∷ cs) = (if leb 65 c && leb c 90 then c + 32 else c) ∷ to_ascii_lowercase cs

abbrev pub asc_text : Text
asc_text = 97 ∷ 115 ∷ 99 ∷ []

abbrev pub desc_text : Text
desc_text = 100 ∷ 101 ∷ 115 ∷ 99 ∷ []

abbrev pub min_text : Text
min_text = 109 ∷ 105 ∷ 110 ∷ []

abbrev pub max_text : Text
max_text = 109 ∷ 97 ∷ 120 ∷ []

abbrev pub order_key : Text
order_key = 111 ∷ 114 ∷ 100 ∷ 101 ∷ 114 ∷ []

abbrev pub missing_key : Text
missing_key = 109 ∷ 105 ∷ 115 ∷ 115 ∷ 105 ∷ 110 ∷ 103 ∷ []

-- `unmapped_type`.
abbrev pub unmapped_key : Text
unmapped_key = 117 ∷ 110 ∷ 109 ∷ 97 ∷ 112 ∷ 112 ∷ 101 ∷ 100 ∷ 95 ∷ 116 ∷ 121 ∷ 112 ∷ 101 ∷ []

abbrev pub mode_key : Text
mode_key = 109 ∷ 111 ∷ 100 ∷ 101 ∷ []

-- `_score` and `_doc`.
abbrev pub is_no_field : Text → Bool
is_no_field name =
    same_text name (95 ∷ 115 ∷ 99 ∷ 111 ∷ 114 ∷ 101 ∷ [])
    || same_text name (95 ∷ 100 ∷ 111 ∷ 99 ∷ [])

abbrev pub named : Text → Option SortField
named name =
    if is_no_field name
    then none
    else some
        (record { name = name; desc = false; missing = none; unmapped_type = none; mode = none })

abbrev pub is_timestamp : SortField → Bool
is_timestamp f = is_timestamp_alias f.name

unfoldable pub parse_order : Text → SortResult Bool
parse_order order =
    if same_text (to_ascii_lowercase order) asc_text
    then ok false
    else if same_text (to_ascii_lowercase order) desc_text
    then ok true
    else err bad_order

abbrev pub with_order : SortField → Json → SortResult SortField
with_order f (string order) = do desc ← parse_order order; ok (record f { desc = desc })
with_order f value = err bad_order

abbrev pub str_or_empty : Json → Text
str_or_empty (string s) = s
str_or_empty value = []

abbrev pub with_mode : SortField → Text → SortResult SortField
with_mode f s =
    if same_text s min_text
    then ok (record f { mode = some min })
    else if same_text s max_text
    then ok (record f { mode = some max })
    else err bad_mode

abbrev pub with_option : SortField → Text → Json → SortResult SortField
with_option f key value =
    if same_text key order_key
    then with_order f value
    else if same_text key missing_key
    then ok (record f { missing = some value })
    else if same_text key unmapped_key
    then ok (record f { unmapped_type = some (str_or_empty value) })
    else if same_text key mode_key
    then with_mode f (str_or_empty value)
    else err bad_option

abbrev pub with_options : SortField → Fields → SortResult SortField
with_options f no_fields = ok f
with_options f (field key value opts) = with_option f key value >>= (λ g. with_options g opts)

abbrev pub with_spec : SortField → Json → SortResult SortField
with_spec f (string order) = with_order f (string order)
with_spec f (object opts) = with_options f opts
with_spec f spec = err bad_spec

abbrev pub parsed_field : Option SortField → Json → SortResult (Option SortField)
parsed_field none spec = ok none
parsed_field (some f) spec = with_spec f spec >>= (λ g. ok (some g))

-- `SortField::parse`.
unfoldable pub parse_field : Json → SortResult (Option SortField)
parse_field (string name) = ok (named name)
parse_field (object no_fields) = ok none
parse_field (object (field name spec no_fields)) = parsed_field (named name) spec
parse_field (object (field name spec (field key value more))) = err several_fields
parse_field entry = err bad_entry

pub data SortSpec : Type 0 where
  timestamp : Bool → SortSpec
  fields : List SortField → SortSpec

abbrev pub push_field : Option SortField → List SortField → List SortField
push_field none fs = fs
push_field (some f) fs = f ∷ fs

abbrev pub parse_entries : Items → SortResult (List SortField)
parse_entries no_items = ok []
parse_entries (item entry items) =
    parse_field entry >>= (λ f. parse_entries items >>= (λ fs. ok (push_field f fs)))

abbrev pub is_none : {A : Type 0} → Option A → Bool
is_none none = true
is_none (some a) = false

abbrev pub all_timestamp : List SortField → Bool
all_timestamp [] = true
all_timestamp (f ∷ fs) = (is_timestamp f && is_none f.missing) && all_timestamp fs

abbrev pub last_desc : Bool → List SortField → Bool
last_desc desc [] = desc
last_desc desc (f ∷ fs) = last_desc f.desc fs

-- Clauses on the time alone sort by it, as the last one says.
abbrev pub spec_of : List SortField → SortSpec
spec_of fs = if all_timestamp fs then timestamp (last_desc true fs) else fields fs

abbrev pub parse_sort : Json → SortResult (List SortField)
parse_sort (array items) = parse_entries items
parse_sort single = parse_entries (item single no_items)

-- `SortSpec::parse`.
unfoldable pub parse_spec : Option Json → SortResult SortSpec
parse_spec none = ok (timestamp true)
parse_spec (some sort) = parse_sort sort >>= (λ fs. ok (spec_of fs))

abbrev pub timestamp_desc : SortSpec → Option Bool
timestamp_desc (timestamp desc) = some desc
timestamp_desc (fields fs) = none
