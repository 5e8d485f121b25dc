-- ===== src/Search/Sort.antt =====
-- The comparisons of crates/rsearch-search/src/sort.rs. A string is its bytes; an f64 is the i64 that
-- `total_cmp` compares in its place; an address is its 128-bit number. `as f64` is a parameter.
pub mod Laws
use r_search.Base.{
  ℕ, ◌≤◌, ◌<◌, ◌≡◌, Bool, true, false, List, [], ◌∷◌, Option, none, some, ltb, ◌==◌, if◌then◌else◌,
  ℤ, ◌≤ℤ◌, Ordering, lt, eq, gt, compare, or_then, reverse, cmp_ℤ, cmp_bytes, cmp_Bool,
}

pub data SortValue : Type 0 where
  missing : SortValue
  str : List ℕ → SortValue
  int float : ℤ → SortValue
  boolean : Bool → SortValue
  ip : ℕ → SortValue

pub data SortType : Type 0 where
  keyword_type long_type double_type boolean_type date_type ip_type : SortType

pub record FieldOrder : Type 0 where
  pub desc : Bool
  pub null_is_max : Bool

abbrev pub rank : SortValue → ℕ
rank missing = 0
rank (boolean b) = 1
rank (int n) = 2
rank (float f) = 2
rank (str s) = 3
rank (ip a) = 4

-- A document in result order: its values, timestamp and `_seq`.
pub record Key (V : Type 0) : Type 0 where
  pub values : List V
  pub ts : ℤ
  pub seq : ℤ

abbrev pub directed : FieldOrder → Ordering → Ordering
directed order natural = if order.desc then reverse natural else natural

abbrev pub value_or_missing : List SortValue → SortValue × List SortValue
value_or_missing [] = (missing, [])
value_or_missing (v ∷ vs) = (v, vs)

module _ (as_f64 : ℤ → ℤ) where
  unfoldable pub cmp_natural : SortValue → SortValue → Bool → Ordering
  cmp_natural missing missing null_is_max = eq
  cmp_natural missing b null_is_max = if null_is_max then gt else lt
  cmp_natural a missing null_is_max = if null_is_max then lt else gt
  cmp_natural (str a) (str b) null_is_max = cmp_bytes a b
  cmp_natural (int a) (int b) null_is_max = cmp_ℤ a b
  cmp_natural (float a) (float b) null_is_max = cmp_ℤ a b
  cmp_natural (int a) (float b) null_is_max = cmp_ℤ (as_f64 a) b
  cmp_natural (float a) (int b) null_is_max = cmp_ℤ a (as_f64 b)
  cmp_natural (boolean a) (boolean b) null_is_max = cmp_Bool a b
  cmp_natural (ip a) (ip b) null_is_max = compare a b
  cmp_natural a b null_is_max = compare (rank a) (rank b)

  -- The loop over the fields; a key that is too short reads as missing.
  abbrev pub cmp_values : List FieldOrder → List SortValue → List SortValue → Ordering
  cmp_values [] as_ bs = eq
  cmp_values (order ∷ orders) as_ bs =
      let (a, more_as) = value_or_missing as_ in
      let (b, more_bs) = value_or_missing bs in
      let rest = cmp_values orders more_as more_bs in
      or_then (directed order (cmp_natural a b order.null_is_max)) rest

  unfoldable pub cmp_hits : List FieldOrder → Key SortValue → Key SortValue → Ordering
  cmp_hits orders a b =
      or_then (cmp_values orders a.values b.values) (or_then (cmp_ℤ b.ts a.ts) (cmp_ℤ b.seq a.seq))
