-- ===== src/Search/Paging.antt =====
-- The sort values that a hit reports, and the cursor that a request makes of them:
-- crates/rsearch-search/src/sort.rs. The texts of numbers, addresses and values are parameters.
pub mod RoundTrip
pub mod After
mod Tests
use r_search.Base.{
  ℕ, ◌+◌, ◌-◌, ◌^◌, ◌/◌, ◌≡◌, Bool, true, false, ◌||◌, List, [], ◌∷◌, ◌++◌, Option, none, some, ltb,
  ◌==◌, if◌then◌else◌, ℤ, pos, negsuc, leb_ℤ, Ordering, eq, cmp_ℤ, length, get_elem?,
}
use r_search.Search.Sort.{
  SortType, keyword_type, long_type, double_type, boolean_type, date_type, ip_type, SortValue,
  missing, str, int, float, boolean, ip, value_or_missing,
}
use r_search.Search.Query
use r_search.Search.Query.{
  Json, Text, same_text, null, bool, number, string, array, object, Times, parse_time_millis,
}
use r_search.Search.Collector.{ResolvedSort, FieldCursor}

abbrev pub same_int : ℤ → ℤ → Bool
same_int a b = elim (cmp_ℤ a b) [ eq ↦ true | _ ↦ false ]

abbrev pub i64_max : ℤ
i64_max = pos (2 ^ 63 - 1)

abbrev pub i64_min : ℤ
i64_min = negsuc (2 ^ 63 - 1)

abbrev pub i32_max : ℤ
i32_max = pos (2 ^ 31 - 1)

abbrev pub i32_min : ℤ
i32_min = negsuc (2 ^ 31 - 1)

abbrev pub max_safe_millis : ℕ
max_safe_millis = (2 ^ 63 - 1) / 1000000

-- `Infinity`.
abbrev pub infinity_text : Text
infinity_text = 73 ∷ 110 ∷ 102 ∷ 105 ∷ 110 ∷ 105 ∷ 116 ∷ 121 ∷ []

abbrev pub minus_infinity_text : Text
minus_infinity_text = 45 ∷ infinity_text

pub record Formats : Type 0 where
  pub as_f64 : ℤ → ℤ
  pub is_finite : ℤ → Bool
  pub whole_f64 : ℤ → Option ℤ
  pub parse_i64 : Text → Option ℤ
  pub parse_f64 : Text → Option ℤ
  pub parse_bool : Text → Option Bool
  pub parse_ip : Text → Option ℕ
  pub format_ip : ℕ → Text
  pub to_string : Json → Text
  pub times : Times

abbrev pub missing_json : SortType → Bool → Json
missing_json keyword_type null_is_max = null
missing_json ip_type null_is_max = null
missing_json long_type null_is_max = number (if null_is_max then i64_max else i64_min)
missing_json date_type null_is_max = number (if null_is_max then i64_max else i64_min)
missing_json double_type null_is_max =
    string (if null_is_max then infinity_text else minus_infinity_text)
missing_json boolean_type null_is_max = number (if null_is_max then i32_max else i32_min)

abbrev pub or_else {ℓ} : {A : Type ℓ} → Option A → Option A → Option A
or_else none second = second
or_else (some a) second = some a

abbrev pub with_value : {A : Type 0} → (A → SortValue) → Option A → Option SortValue
with_value f none = none
with_value f (some a) = some (f a)

-- The extremes stand for a missing value.
abbrev pub int_or_missing : ℤ → SortValue
int_or_missing n = if same_int n i64_max || same_int n i64_min then missing else int n

abbrev pub bool_of_int : ℤ → Option SortValue
bool_of_int n =
    if same_int n (pos 0)
    then some (boolean false)
    else if same_int n (pos 1)
    then some (boolean true)
    else if same_int n i32_max || same_int n i32_min
    then some missing
    else none

module _ (formats : Formats) where
  unfoldable pub to_json : SortValue → SortType → Bool → Json
  to_json missing ty null_is_max = missing_json ty null_is_max
  to_json (str s) ty null_is_max = string s
  to_json (int n) ty null_is_max = number n
  to_json (float f) ty null_is_max = if formats.is_finite f then Query.float f else null
  to_json (boolean b) ty null_is_max = number (if b then pos 1 else pos 0)
  to_json (ip a) ty null_is_max = string (formats.format_ip a)

  abbrev pub whole : Json → Option ℤ
  whole (number n) = some n
  whole (Query.float f) = formats.whole_f64 f
  whole value = none

  abbrev pub str_i64 : Json → Option ℤ
  str_i64 (string s) = formats.parse_i64 s
  str_i64 value = none

  abbrev pub parse_keyword : Json → SortValue
  parse_keyword (string s) = str s
  parse_keyword value = str (formats.to_string value)

  abbrev pub parse_double : Json → Option SortValue
  parse_double (number n) = some (float (formats.as_f64 n))
  parse_double (Query.float f) = some (float f)
  parse_double (string s) =
      if same_text s infinity_text || same_text s minus_infinity_text
      then some missing
      else with_value float (formats.parse_f64 s)
  parse_double value = none

  abbrev pub parse_boolean : Json → Option SortValue
  parse_boolean (bool b) = some (boolean b)
  parse_boolean (number n) = bool_of_int n
  parse_boolean (string s) = with_value boolean (formats.parse_bool s)
  parse_boolean value = none

  abbrev pub parse_address : Json → Option SortValue
  parse_address (string s) = with_value ip (formats.parse_ip s)
  parse_address value = none

  abbrev pub parse_typed : Json → SortType → Option SortValue
  parse_typed value keyword_type = some (parse_keyword value)
  parse_typed value long_type = with_value int_or_missing (or_else (whole value) (str_i64 value))
  parse_typed value date_type =
      with_value int_or_missing
        (or_else (whole value) (or_else (str_i64 value) (parse_time_millis formats.times value)))
  parse_typed value double_type = parse_double value
  parse_typed value boolean_type = parse_boolean value
  parse_typed value ip_type = parse_address value

  unfoldable pub parse_sort_value : Json → SortType → Option SortValue
  parse_sort_value null ty = some missing
  parse_sort_value value ty = parse_typed value ty

  abbrev pub hit_values_json : List ResolvedSort → List SortValue → List Json
  hit_values_json [] values = []
  hit_values_json (sort ∷ sorts) values =
      let (v, more) = value_or_missing values in
      to_json v sort.ty sort.null_is_max ∷ hit_values_json sorts more

  unfoldable pub hit_sort_json : List ResolvedSort → List SortValue → ℤ → ℤ → List Json
  hit_sort_json sorts values ts seq = hit_values_json sorts values ++ (number ts ∷ number seq ∷ [])

pub data CursorError : Type 0 where
  bad_length bad_value bad_timestamp bad_seq : CursorError

pub data CursorResult (A : Type 0) : Type 0 where
  ok : A → CursorResult A
  err : CursorError → CursorResult A

abbrev pub and_cons : SortValue → CursorResult (List SortValue) → CursorResult (List SortValue)
and_cons v (ok vs) = ok (v ∷ vs)
and_cons v (err e) = err e

abbrev pub tie_value : Option SortValue → Option ℤ
tie_value (some (int n)) = some n
tie_value (some missing) = some (negsuc 0)
tie_value v = none

abbrev pub clamp : ℤ → ℤ
clamp (pos n) = if ltb max_safe_millis n then pos max_safe_millis else pos n
clamp (negsuc n) = if ltb n max_safe_millis then negsuc n else negsuc (max_safe_millis - 1)

module _ (formats : Formats) where
  abbrev pub parse_values : List Json → List ResolvedSort → CursorResult (List SortValue)
  parse_values (v ∷ vs) (sort ∷ sorts) =
      let rest = parse_values vs sorts in
      elim (parse_sort_value formats v sort.ty) [ none ↦ err bad_value | some p ↦ and_cons p rest ]
  parse_values vs sorts = ok []

  -- A tiebreak value that is there must be an integer.
  abbrev pub parse_tie : CursorError → Option Json → CursorResult (Option ℤ)
  parse_tie e none = ok none
  parse_tie e (some v) = elim (tie_value (parse_sort_value formats v long_type)) [
    | none ↦ err e
    | some n ↦ ok (some n)
  ]

  abbrev pub clamped : Option ℤ → Option ℤ
  clamped none = none
  clamped (some ms) = some (clamp ms)

  abbrev pub with_seq :
      List SortValue → Option ℤ → CursorResult (Option ℤ) → CursorResult FieldCursor
  with_seq parsed ts (err e) = err e
  with_seq parsed ts (ok seq) =
      ok (record { values = parsed; timestamp_millis = clamped ts; seq = seq })

  abbrev pub with_timestamp :
      List SortValue → CursorResult (Option ℤ) → CursorResult (Option ℤ) → CursorResult FieldCursor
  with_timestamp parsed (err e) seq = err e
  with_timestamp parsed (ok ts) seq = with_seq parsed ts seq

  abbrev pub with_values :
      CursorResult (List SortValue)
      → CursorResult (Option ℤ)
      → CursorResult (Option ℤ)
      → CursorResult FieldCursor
  with_values (err e) ts seq = err e
  with_values (ok parsed) ts seq = with_timestamp parsed ts seq

  -- `FieldCursor::parse`.
  unfoldable pub parse_cursor : List Json → List ResolvedSort → CursorResult FieldCursor
  parse_cursor values resolved =
      let n = length resolved in
      if ltb (length values) n || ltb (n + 2) (length values)
      then err bad_length
      else with_values (parse_values values resolved) (parse_tie bad_timestamp (get_elem? values n))
          (parse_tie bad_seq (get_elem? values (n + 1)))
