-- ===== src/Search/Column.antt =====
-- The columns of a segment and the keys of its documents: SegKey and SegAccessor of
-- crates/rsearch-search/src/sort.rs. A column gives a document's values; a date column gives them in
-- milliseconds. A dictionary numbers a column's terms.
pub mod Laws
use r_search.Base.{
  ℕ, ◌+◌, ◌*◌, ◌-◌, ◌/◌, ◌^◌, min, ◌≡◌, Bool, true, false, List, [], ◌∷◌, Option, none, some,
  if◌then◌else◌, ℤ, Ordering, lt, eq, gt, compare, cmp_ℤ, cmp_Bool,
}
use r_search.Search.Sort.{SortValue, missing, str, int, float, boolean, ip}

pub data SegKey : Type 0 where
  missing_key : SegKey
  ord_key : ℕ → SegKey
  int_key float_key : ℤ → SegKey
  bool_key : Bool → SegKey
  ip_key : ℕ → SegKey

abbrev pub kind : SegKey → ℕ
kind missing_key = 0
kind (bool_key b) = 1
kind (int_key n) = 2
kind (float_key f) = 2
kind (ord_key o) = 3
kind (ip_key a) = 4

module _ (as_f64 : ℤ → ℤ) where
  unfoldable pub cmp_key : SegKey → SegKey → Bool → Ordering
  cmp_key missing_key missing_key null_is_max = eq
  cmp_key missing_key b null_is_max = if null_is_max then gt else lt
  cmp_key a missing_key null_is_max = if null_is_max then lt else gt
  cmp_key (ord_key a) (ord_key b) null_is_max = compare a b
  cmp_key (int_key a) (int_key b) null_is_max = cmp_ℤ a b
  cmp_key (float_key a) (float_key b) null_is_max = cmp_ℤ a b
  cmp_key (int_key a) (float_key b) null_is_max = cmp_ℤ (as_f64 a) b
  cmp_key (float_key a) (int_key b) null_is_max = cmp_ℤ a (as_f64 b)
  cmp_key (bool_key a) (bool_key b) null_is_max = cmp_Bool a b
  cmp_key (ip_key a) (ip_key b) null_is_max = compare a b
  cmp_key a b null_is_max = compare (kind a) (kind b)

-- A term of the dictionary, or the first one after the string.
pub data TermOrdHit : Type 0 where
  exact next : ℕ → TermOrdHit

-- An answer `none` is an error, or no such term.
pub record StrColumn : Type 0 where
  pub term_ords : ℕ → List ℕ
  pub term_ord_or_next : List ℕ → Option TermOrdHit
  pub ord_to_str : ℕ → Option (List ℕ)

pub data SegAccessor : Type 0 where
  no_column : SegAccessor
  str_column : StrColumn → SegAccessor
  int_column float_column date_column : (ℕ → List ℤ) → SegAccessor
  bool_column : (ℕ → List Bool) → SegAccessor
  ip_column : (ℕ → List ℕ) → SegAccessor

module _ {A : Type 0} (cmp : A → A → Ordering) where
  -- `max_by` takes the last of equal values, `min_by` the first.
  abbrev pub later_max : A → A → A
  later_max a b = elim (cmp a b) [ gt ↦ a | _ ↦ b ]

  abbrev pub first_min : A → A → A
  first_min a b = elim (cmp a b) [ gt ↦ b | _ ↦ a ]

  abbrev pub pick_from : Bool → A → List A → A
  pick_from desc a [] = a
  pick_from desc a (b ∷ bs) = pick_from desc (if desc then later_max a b else first_min a b) bs

  abbrev pub pick : List A → Bool → Option A
  pick [] desc = none
  pick (a ∷ bs) desc = some (pick_from desc a bs)

abbrev pub key_or_missing : {A : Type 0} → (A → SegKey) → Option A → SegKey
key_or_missing f none = missing_key
key_or_missing f (some a) = f a

-- The key of a term, of which a column has fewer than 2 ^ 63: between any two of them there is a place
-- for other strings.
abbrev pub term_key : ℕ → SegKey
term_key o = ord_key (o * 2 + 1)

unfoldable pub key : SegAccessor → ℕ → Bool → SegKey
key no_column doc desc = missing_key
key (str_column col) doc desc = key_or_missing term_key (pick compare (col.term_ords doc) desc)
key (int_column col) doc desc = key_or_missing int_key (pick cmp_ℤ (col doc) desc)
key (float_column col) doc desc = key_or_missing float_key (pick cmp_ℤ (col doc) desc)
key (bool_column col) doc desc = key_or_missing bool_key (pick cmp_Bool (col doc) desc)
key (date_column col) doc desc = key_or_missing int_key (pick cmp_ℤ (col doc) desc)
key (ip_column col) doc desc = key_or_missing ip_key (pick compare (col doc) desc)

-- `Next` saturates, at the largest `u64`.
abbrev pub hit_key : Option TermOrdHit → SegKey
hit_key (some (exact o)) = term_key o
hit_key (some (next o)) = ord_key (min (o * 2) (2 ^ 64 - 1))
hit_key none = ord_key 0

abbrev pub str_key : SegAccessor → List ℕ → SegKey
str_key (str_column col) s = hit_key (col.term_ord_or_next s)
str_key accessor s = ord_key 0

unfoldable pub key_for : SegAccessor → SortValue → SegKey
key_for accessor missing = missing_key
key_for accessor (str s) = str_key accessor s
key_for accessor (int n) = int_key n
key_for accessor (float f) = float_key f
key_for accessor (boolean b) = bool_key b
key_for accessor (ip a) = ip_key a

abbrev pub str_or_missing : Option (List ℕ) → SortValue
str_or_missing none = missing
str_or_missing (some s) = str s

abbrev pub term_of : SegAccessor → ℕ → SortValue
term_of (str_column col) o = str_or_missing (col.ord_to_str (o / 2))
term_of accessor o = missing

unfoldable pub materialize : SegAccessor → SegKey → SortValue
materialize accessor missing_key = missing
materialize accessor (ord_key o) = term_of accessor o
materialize accessor (int_key n) = int n
materialize accessor (float_key f) = float f
materialize accessor (bool_key b) = boolean b
materialize accessor (ip_key a) = ip a
