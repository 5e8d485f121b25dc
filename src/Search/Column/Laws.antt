-- ===== src/Search/Column/Laws.antt =====
-- The keys of a segment's documents stand in the order of the values they give.
use r_search.Base.{
  ℕ, ◌+◌, ◌*◌, ◌-◌, ◌/◌, ◌^◌, ◌≤◌, ◌<◌, ◌≡◌, refl, sym, ap, ◌∙◌, Bool, List, [], ◌∷◌, Option, none,
  some, arith, ◌==◌, Bool-cases, inl, inr, if◌then◌else◌, ℤ, lt, eq, gt, compare, reverse,
  cmp_bytes, cmp_bytes-IsWeak, All,
}
use r_search.Search.Sort.{SortValue, missing, str, int, float, boolean, ip, cmp_natural}
use r_search.Search.Column.{
  SegKey, missing_key, ord_key, int_key, float_key, bool_key, ip_key, cmp_key, TermOrdHit, exact,
  next, StrColumn, SegAccessor, str_column, term_key, hit_key, key_for, materialize, str_or_missing,
}

-- A key as a value: an ordinal is a string of one byte.
abbrev pub as_value : SegKey → SortValue
as_value missing_key = missing
as_value (ord_key o) = str (o ∷ [])
as_value (int_key n) = int n
as_value (float_key f) = float f
as_value (bool_key b) = boolean b
as_value (ip_key a) = ip a

module _ (as_f64 : ℤ → ℤ) where
  pub cmp_key-as_value :
      (n : Bool) (a b : SegKey)
      → cmp_key as_f64 a b n ≡ cmp_natural as_f64 (as_value a) (as_value b) n
  unfolding cmp_key cmp_natural
  cmp_key-as_value n missing_key missing_key = refl
  cmp_key-as_value n (ord_key a) (ord_key b) = ground arith
  cmp_key-as_value n a b = ground arith

  pub cmp_natural-anti :
      (n : Bool) (a b : SortValue) → cmp_natural as_f64 b a n ≡ reverse (cmp_natural as_f64 a b n)
  unfolding cmp_natural
  cmp_natural-anti n (str a) (str b) = cmp_bytes-IsWeak.anti a b tt tt
  cmp_natural-anti n a b = ground arith

-- What the search of a string answers, in a dictionary of `count` terms.
abbrev pub Located : ℕ → (ℕ → List ℕ) → List ℕ → Option TermOrdHit → Type 0
Located count term s none = ⊥
Located count term s (some (exact o)) = (o < count) × (term o ≡ s)
Located count term s (some (next o)) =
    ((i : ℕ) → i < count → i < o → cmp_bytes (term i) s ≡ lt)
    × ((i : ℕ) → i < count → o ≤ i → cmp_bytes (term i) s ≡ gt)

-- A column whose terms ascend and whose dictionary finds them.
pub record Dictionary (col : StrColumn) : Type 0 where
  pub count : ℕ
  pub term : ℕ → List ℕ
  pub small : count < 2 ^ 63
  pub ascend : (i j : ℕ) → i < j → j < count → cmp_bytes (term i) (term j) ≡ lt
  pub found : (s : List ℕ) → Located count term s (col.term_ord_or_next s)
  pub shown : (i : ℕ) → i < count → col.ord_to_str i ≡ some (term i)
  pub valid : (doc : ℕ) → All (λ o. o < count) (col.term_ords doc)

abbrev pub Sound : SegAccessor → Type 0
Sound (str_column col) = Dictionary col
Sound accessor = Unit

-- The key of a term of the dictionary.
pub record IsTerm (count o : ℕ) : Type 0 where
  pub index : ℕ
  pub odd : o ≡ index * 2 + 1
  pub bound : index < count

-- A key that a document of the column may have.
abbrev pub DocKey : (a : SegAccessor) → Sound a → SegKey → Type 0
DocKey (str_column col) d missing_key = Unit
DocKey (str_column col) d (ord_key o) = IsTerm d.count o
DocKey (str_column col) d k = ⊥
DocKey a d (ord_key o) = ⊥
DocKey a d k = Unit

cmp_bytes_refl : (a : List ℕ) → cmp_bytes a a ≡ eq
cmp_bytes_refl [] = refl
cmp_bytes_refl (a ∷ xs) = ground (arith, cmp_bytes_refl xs)

terms_in_order :
    (col : StrColumn) (d : Dictionary col) (i j : ℕ)
    → i < d.count
    → j < d.count
    → compare (i * 2 + 1) (j * 2 + 1) ≡ cmp_bytes (d.term i) (d.term j)
terms_in_order col d i j h k = elim (Bool-cases (i == j)) [
  | inl e ↦ let same : j ≡ i = ground arith in rw (same, cmp_bytes_refl (d.term i)) (ground arith)
  | inr e ↦
      ground (arith, d.ascend i j, d.ascend j i, cmp_bytes-IsWeak.anti (d.term i) (d.term j) tt tt)
]

half_odd : (i : ℕ) → (i * 2 + 1) / 2 ≡ i
half_odd i = omega arith

hit_in_order :
    (col : StrColumn) (d : Dictionary col) (i : ℕ) (s : List ℕ) (hit : Option TermOrdHit)
    (as_f64 : ℤ → ℤ) (n : Bool)
    → i < d.count
    → Located d.count d.term s hit
    → cmp_key as_f64 (term_key i) (hit_key hit) n ≡ cmp_bytes (d.term i) s
unfolding cmp_key
hit_in_order col d i s none as_f64 n h l = absurd l
hit_in_order col d i s (some (exact o)) as_f64 n h (k, e) =
    terms_in_order col d i o h k ∙ ap (cmp_bytes (d.term i)) e
hit_in_order col d i s (some (next o)) as_f64 n h (before, after) =
    let small : i < 2 ^ 63 - 1 = omega (arith, d.small) in ground (arith, before i h, after i h)

hit_there :
    (as_f64 : ℤ → ℤ) (n : Bool) (hit : Option TermOrdHit)
    → cmp_key as_f64 missing_key (hit_key hit) n ≡ (if n then gt else lt)
unfolding cmp_key
hit_there as_f64 n none = refl
hit_there as_f64 n (some (exact o)) = refl
hit_there as_f64 n (some (next o)) = refl

materialize_term :
    (col : StrColumn) (d : Dictionary col) (o : ℕ) (h : IsTerm d.count o)
    → str_or_missing (col.ord_to_str (o / 2)) ≡ str (d.term h.index)
materialize_term col d o h =
    let half : o / 2 ≡ h.index = omega (arith, h.odd) in rw (half, d.shown h.index h.bound) refl

hit_of_term :
    (col : StrColumn) (d : Dictionary col) (i : ℕ) (hit : Option TermOrdHit)
    → i < d.count
    → Located d.count d.term (d.term i) hit
    → hit_key hit ≡ term_key i
hit_of_term col d i none h l = absurd l
hit_of_term col d i (some (exact o)) h (k, e) =
    let placed : compare (o * 2 + 1) (i * 2 + 1) ≡ eq =
      terms_in_order col d o i k h
      ∙ (ap (λ t. cmp_bytes t (d.term i)) e ∙ cmp_bytes_refl (d.term i)) in
    let same : o ≡ i = ground arith in ap term_key same
hit_of_term col d i (some (next o)) h (before, after) =
    absurd (ground (arith, before i h, after i h, cmp_bytes_refl (d.term i)))

-- In a column with a sound dictionary, the key of the value that a document's key stands for is
-- that key.
pub key_for-materialize :
    (a : SegAccessor) (s : Sound a) (k : SegKey) → DocKey a s k → key_for a (materialize a k) ≡ k
unfolding key_for materialize
key_for-materialize (str_column col) d missing_key h = refl
key_for-materialize (str_column col) d (ord_key o) h = rw (materialize_term col d o h) (
    hit_of_term col d h.index (col.term_ord_or_next (d.term h.index)) h.bound
      (d.found (d.term h.index))
    ∙ ap ord_key (sym h.odd))
key_for-materialize (str_column col) d k h = ground (arith, h)
key_for-materialize a d (ord_key o) h = absurd h
key_for-materialize a d k h = refl

-- A key and the value that a hit shows for it: a document's own, or the substitute.
pub data Shows (a : SegAccessor) (s : Sound a) (sub : Option SortValue)
    : SegKey → SortValue → Type 0 where
  own : (k : SegKey) → DocKey a s k → Shows a s sub k (materialize a k)
  substituted : (u : SortValue) → sub ≡ some u → Shows a s sub (key_for a u) u

module _ (as_f64 : ℤ → ℤ) where
  -- A document's key compares with the key of any value as the values do.
  pub key_in_order :
      (a : SegAccessor) (s : Sound a) (k : SegKey) (v : SortValue) (n : Bool)
      → DocKey a s k
      → cmp_key as_f64 k (key_for a v) n ≡ cmp_natural as_f64 (materialize a k) v n
  unfolding cmp_key cmp_natural key_for materialize
  key_in_order (str_column col) d missing_key missing n h = refl
  key_in_order (str_column col) d missing_key (str s) n h =
      hit_there as_f64 n (col.term_ord_or_next s)
  key_in_order (str_column col) d missing_key v n h = refl
  key_in_order (str_column col) d (ord_key o) (str s) n h =
      rw (materialize_term col d o h, h.odd)
        (hit_in_order col d h.index s (col.term_ord_or_next s) as_f64 n h.bound (d.found s))
  key_in_order (str_column col) d (ord_key o) v n h = rw (materialize_term col d o h) refl
  key_in_order (str_column col) d k v n h = ground (arith, h)
  key_in_order a d (ord_key o) v n h = ground (arith, h)
  key_in_order a d k v n h = ground arith

  natural_refl : (n : Bool) (v : SortValue) → cmp_natural as_f64 v v n ≡ eq
  unfolding cmp_natural
  natural_refl n (str s) = cmp_bytes_refl s
  natural_refl n v = ground arith

  key_refl : (n : Bool) (k : SegKey) → cmp_key as_f64 k k n ≡ eq
  key_refl n k = cmp_key-as_value as_f64 n k k ∙ natural_refl n (as_value k)

  key_anti : (n : Bool) (a b : SegKey) → cmp_key as_f64 b a n ≡ reverse (cmp_key as_f64 a b n)
  key_anti n a b =
      cmp_key-as_value as_f64 n b a
      ∙ (cmp_natural-anti as_f64 n (as_value a) (as_value b)
          ∙ ap reverse (sym (cmp_key-as_value as_f64 n a b)))

  pub Shows-order :
      (a : SegAccessor) (s : Sound a) (sub : Option SortValue) (j k : SegKey) (u v : SortValue)
      (n : Bool)
      → Shows a s sub j u
      → Shows a s sub k v
      → cmp_key as_f64 j k n ≡ cmp_natural as_f64 u v n
  Shows-order a s sub j k u v n (own _ p) (own _ q) =
      ap (λ r. cmp_key as_f64 j r n) (sym (key_for-materialize a s k q)) ∙ key_in_order a s j v n p
  Shows-order a s sub j k u v n (own _ p) (substituted _ e) = key_in_order a s j v n p
  Shows-order a s sub j k u v n (substituted _ e) (own _ q) =
      key_anti n k j ∙ (ap reverse (key_in_order a s k u n q) ∙ sym (cmp_natural-anti as_f64 n v u))
  Shows-order a s sub j k u v n (substituted _ e) (substituted _ f) =
      let same : u ≡ v = grind arith in rw same (key_refl n (key_for a v) ∙ sym (natural_refl n v))
