-- ===== src/Search/Sort/Laws.antt =====
-- The order of hits ranks them, when no field holds integers beside floats.
use r_search.Base.{
  ℕ, ◌≡◌, refl, Bool, true, false, List, [], ◌∷◌, arith, if◌then◌else◌, ℤ, pos, Ordering, compare,
  or_then, reverse, cmp_ℤ, cmp_bytes, IsWeak, Any, compare-IsWeak, cmp_ℤ-IsWeak, cmp_bytes-IsWeak,
  or_then-IsWeak, reverse-IsWeak, IsWeak-agree, newest-IsWeak, IsWeak-on,
}
use r_search.Search.Sort.{
  SortValue, missing, str, int, float, boolean, ip, FieldOrder, rank, Key, directed,
  value_or_missing, cmp_natural, cmp_values, cmp_hits,
}

-- A value that may stand in a field of floats, or in one without.
abbrev pub Fits : Bool → SortValue → Type 0
Fits true (int n) = ⊥
Fits false (float f) = ⊥
Fits b v = Unit

-- A value as its place among the kinds, its number and its bytes.
place : Bool → SortValue → ℕ
place n missing = if n then 5 else 0
place n v = rank v

number : SortValue → ℤ
number (int n) = n
number (float f) = f
number (boolean true) = pos 1
number (ip a) = pos a
number v = pos 0

text : SortValue → List ℕ
text (str s) = s
text v = []

by_parts : Bool → SortValue → SortValue → Ordering
by_parts n a b =
    or_then (compare (place n a) (place n b))
      (or_then (cmp_ℤ (number a) (number b)) (cmp_bytes (text a) (text b)))

-- Each value fits its field's flag.
abbrev pub Fitting : List FieldOrder → List Bool → List SortValue → Type 0
Fitting [] flags vs = Unit
Fitting (order ∷ orders) [] vs = ⊥
Fitting (order ∷ orders) (f ∷ flags) vs =
    Fits f (value_or_missing vs).0 × Fitting orders flags (value_or_missing vs).1

abbrev pub FittingKey : List FieldOrder → List Bool → Key SortValue → Type 0
FittingKey orders flags k = Fitting orders flags k.values

module _ (as_f64 : ℤ → ℤ) where
  cmp_natural-parts :
      (n f : Bool) (a b : SortValue)
      → Fits f a
      → Fits f b
      → cmp_natural as_f64 a b n ≡ by_parts n a b
  unfolding cmp_natural by_parts place number text
  cmp_natural-parts true f missing missing p q = refl
  cmp_natural-parts false f missing missing p q = refl
  cmp_natural-parts n f (str a) (str b) p q = refl
  cmp_natural-parts n f (int a) (int b) p q = ground arith
  cmp_natural-parts n f (float a) (float b) p q = ground arith
  cmp_natural-parts n true (int a) b p q = absurd p
  cmp_natural-parts n true a (int b) p q = absurd q
  cmp_natural-parts n false (float a) b p q = absurd p
  cmp_natural-parts n false a (float b) p q = absurd q
  cmp_natural-parts n f (boolean a) (boolean b) p q = ground arith
  cmp_natural-parts n f (ip a) (ip b) p q = ground arith
  cmp_natural-parts n f a b p q = ground arith

  pub cmp_natural-IsWeak : (n f : Bool) → IsWeak (Fits f) (λ a b. cmp_natural as_f64 a b n)
  unfolding by_parts
  cmp_natural-IsWeak n f =
      IsWeak-agree (Fits f) (λ a b. cmp_natural as_f64 a b n) (by_parts n) (cmp_natural-parts n f)
        (or_then-IsWeak (Fits f) (λ a b. compare (place n a) (place n b)) _
          (IsWeak-on (Fits f) Any compare (place n) (λ a p. tt) compare-IsWeak)
          (or_then-IsWeak (Fits f) (λ a b. cmp_ℤ (number a) (number b))
            (λ a b. cmp_bytes (text a) (text b))
            (IsWeak-on (Fits f) Any cmp_ℤ number (λ a p. tt) cmp_ℤ-IsWeak)
            (IsWeak-on (Fits f) Any cmp_bytes text (λ a p. tt) cmp_bytes-IsWeak)))

  turned : Bool → Bool → SortValue → SortValue → Ordering
  turned desc n a b = if desc then reverse (cmp_natural as_f64 a b n) else cmp_natural as_f64 a b n

  turned-IsWeak : (desc n f : Bool) → IsWeak (Fits f) (turned desc n)
  unfolding turned
  turned-IsWeak true n f =
      reverse-IsWeak (Fits f) (λ a b. cmp_natural as_f64 a b n) (cmp_natural-IsWeak n f)
  turned-IsWeak false n f = cmp_natural-IsWeak n f

  directed-IsWeak :
      (order : FieldOrder) (f : Bool)
      → IsWeak (Fits f) (λ a b. directed order (cmp_natural as_f64 a b order.null_is_max))
  unfolding turned
  directed-IsWeak order f = turned-IsWeak order.desc order.null_is_max f

  cmp_values-IsWeak :
      (orders : List FieldOrder) (flags : List Bool)
      → IsWeak (Fitting orders flags) (cmp_values as_f64 orders)
  cmp_values-IsWeak [] flags = record {
    anti = λ a b p q. refl;
    same = λ a b c p q r h. refl;
    trans = λ a b c p q r h k. h;
  }
  cmp_values-IsWeak (order ∷ orders) [] = record {
    anti = λ a b p q. absurd p;
    same = λ a b c p q r h. absurd p;
    trans = λ a b c p q r h k. absurd p;
  }
  cmp_values-IsWeak (order ∷ orders) (f ∷ flags) =
      or_then-IsWeak (Fitting (order ∷ orders) (f ∷ flags)) _ _
        (IsWeak-on (Fitting (order ∷ orders) (f ∷ flags)) (Fits f)
          (λ a b. directed order (cmp_natural as_f64 a b order.null_is_max))
          (λ vs. (value_or_missing vs).0) (λ vs p. p.0) (directed-IsWeak order f))
        (IsWeak-on (Fitting (order ∷ orders) (f ∷ flags)) (Fitting orders flags)
          (cmp_values as_f64 orders) (λ vs. (value_or_missing vs).1) (λ vs p. p.1)
          (cmp_values-IsWeak orders flags))

  -- For keys whose values fit the flags of their fields, no field with integers beside floats,
  -- cmp_hits ranks: swapping the keys reverses it, equal keys compare alike with every third, and
  -- before is transitive.
  pub cmp_hits-IsWeak :
      (orders : List FieldOrder) (flags : List Bool)
      → IsWeak (FittingKey orders flags) (cmp_hits as_f64 orders)
  unfolding cmp_hits
  cmp_hits-IsWeak orders flags =
      let P = FittingKey orders flags in
      or_then-IsWeak P (λ a b. cmp_values as_f64 orders a.values b.values) _
        (IsWeak-on P (Fitting orders flags) (cmp_values as_f64 orders) (λ k. k.values) (λ k p. p)
          (cmp_values-IsWeak orders flags))
        (or_then-IsWeak P (λ a b. cmp_ℤ b.ts a.ts) (λ a b. cmp_ℤ b.seq a.seq)
          (IsWeak-on P Any (λ x y. cmp_ℤ y x) (λ k. k.ts) (λ k p. tt) newest-IsWeak)
          (IsWeak-on P Any (λ x y. cmp_ℤ y x) (λ k. k.seq) (λ k p. tt) newest-IsWeak))
