-- ===== src/Base/Lists.antt =====
-- Lists measured and indexed by native numbers, under the library's names.
use Prim.Native.Nat.{ℕ, zero, suc, ◌+◌, ◌-◌, ◌≤◌, min}
use mathlib.Core.Path.{◌≡◌, refl, sym, ap}
use mathlib.Core.Bool.{Bool, true, false}
use mathlib.Core.List.{List, [], ◌∷◌, ◌++◌}
use mathlib.Core.Option.{Option, none, some}
use native.Mathlib.Omega.{arith}

module _ {ℓ} {A : Type ℓ} where
  abbrev pub length : List A → ℕ
  length [] = 0
  length (x ∷ xs) = suc (length xs)

  abbrev pub get_elem? : List A → ℕ → Option A
  get_elem? [] i = none
  get_elem? (x ∷ xs) zero = some x
  get_elem? (x ∷ xs) (suc i) = get_elem? xs i

  abbrev pub take : ℕ → List A → List A
  take zero xs = []
  take (suc n) [] = []
  take (suc n) (x ∷ xs) = x ∷ take n xs

  abbrev pub drop : ℕ → List A → List A
  drop zero xs = xs
  drop (suc n) [] = []
  drop (suc n) (x ∷ xs) = drop n xs

module _ {ℓ} {A : Type ℓ} where
  -- `&xs[from..to]`, for a range in bounds.
  abbrev pub slice : List A → ℕ → ℕ → List A
  slice xs from to = take (to - from) (drop from xs)

  pub length-append : (xs ys : List A) → length (xs ++ ys) ≡ length xs + length ys
  length-append [] ys = omega arith
  length-append (x ∷ xs) ys = omega (arith, length-append xs ys)

  pub length-take : (n : ℕ) (xs : List A) → length (take n xs) ≡ min n (length xs)
  length-take zero xs = omega arith
  length-take (suc n) [] = omega arith
  length-take (suc n) (x ∷ xs) = omega (arith, length-take n xs)

  pub length-drop : (n : ℕ) (xs : List A) → length (drop n xs) ≡ length xs - n
  length-drop zero xs = omega arith
  length-drop (suc n) [] = omega arith
  length-drop (suc n) (x ∷ xs) = omega (arith, length-drop n xs)

  pub take-append-drop : (n : ℕ) (xs : List A) → take n xs ++ drop n xs ≡ xs
  take-append-drop zero xs = refl
  take-append-drop (suc n) [] = refl
  take-append-drop (suc n) (x ∷ xs) = rw (take-append-drop n xs)

  pub take-append_left : (k : ℕ) (xs ys : List A) → length xs ≡ k → take k (xs ++ ys) ≡ xs
  take-append_left zero [] ys e = refl
  take-append_left (suc k) [] ys e = absurd (omega arith)
  take-append_left zero (x ∷ xs) ys e = absurd (omega arith)
  take-append_left (suc k) (x ∷ xs) ys e =
      ap (λ zs. x ∷ zs) (take-append_left k xs ys (omega arith))

  pub drop-append_left : (k : ℕ) (xs ys : List A) → length xs ≡ k → drop k (xs ++ ys) ≡ ys
  drop-append_left zero [] ys e = refl
  drop-append_left (suc k) [] ys e = absurd (omega arith)
  drop-append_left zero (x ∷ xs) ys e = absurd (omega arith)
  drop-append_left (suc k) (x ∷ xs) ys e = drop-append_left k xs ys (omega arith)

  -- Dropping past a prefix drops the remainder from what follows it.
  pub drop_past : (k j : ℕ) (xs ys : List A) → k ≡ length xs + j → drop k (xs ++ ys) ≡ drop j ys
  drop_past k j [] ys e = let e' : k ≡ j = omega arith in rw e'
  drop_past zero j (x ∷ xs) ys e = absurd (omega arith)
  drop_past (suc k) j (x ∷ xs) ys e = drop_past k j xs ys (omega arith)

  pub take_all : (k : ℕ) (xs : List A) → length xs ≤ k → take k xs ≡ xs
  take_all zero [] h = refl
  take_all zero (x ∷ xs) h = absurd (omega arith)
  take_all (suc k) [] h = refl
  take_all (suc k) (x ∷ xs) h = ap (λ zs. x ∷ zs) (take_all k xs (omega arith))

  pub take-take : (i j : ℕ) (xs : List A) → i ≤ j → take i (take j xs) ≡ take i xs
  take-take zero j xs h = refl
  take-take (suc i) zero xs h = absurd (omega arith)
  take-take (suc i) (suc j) [] h = refl
  take-take (suc i) (suc j) (x ∷ xs) h = ap (λ zs. x ∷ zs) (take-take i j xs (omega arith))

  pub drop-drop : (i j : ℕ) (xs : List A) → drop j (drop i xs) ≡ drop (i + j) xs
  drop-drop zero j xs = let e : 0 + j ≡ j = omega arith in rw e
  drop-drop (suc i) zero [] = let e : suc i + 0 ≡ suc i = omega arith in rw e
  drop-drop (suc i) (suc j) [] = let e : suc i + suc j ≡ suc (i + suc j) = omega arith in rw e
  drop-drop (suc i) j (x ∷ xs) =
      let e : suc i + j ≡ suc (i + j) = omega arith in rw e (drop-drop i j xs)

  pub take-drop-split : (i j : ℕ) (xs : List A) → take i xs ++ take j (drop i xs) ≡ take (i + j) xs
  take-drop-split zero j xs = let e : 0 + j ≡ j = omega arith in rw e
  take-drop-split (suc i) zero [] = let e : suc i + 0 ≡ suc i = omega arith in rw e
  take-drop-split (suc i) (suc j) [] = let e : suc i + suc j ≡ suc (i + suc j) = omega arith in rw e
  take-drop-split (suc i) j (x ∷ xs) =
      let e : suc i + j ≡ suc (i + j) = omega arith in
      rw e (ap (λ zs. x ∷ zs) (take-drop-split i j xs))

-- A predicate on every element computes to a tuple, which the tactics read and build.
abbrev pub All {ℓ κ} : {A : Type ℓ} → (A → Type κ) → List A → Type κ
All P [] = Unit
All P (x ∷ xs) = P x × All P xs

module _ {ℓ κ} {A : Type ℓ} (P : A → Type κ) where
  pub All-append : (xs ys : List A) → All P xs → All P ys → All P (xs ++ ys)
  All-append [] ys hx hy = hy
  All-append (x ∷ xs) ys (px, hx) hy = (px, All-append xs ys hx hy)

  pub All-take : (n : ℕ) (xs : List A) → All P xs → All P (take n xs)
  All-take zero xs h = tt
  All-take (suc n) [] h = tt
  All-take (suc n) (x ∷ xs) (px, h) = (px, All-take n xs h)

  pub All-drop : (n : ℕ) (xs : List A) → All P xs → All P (drop n xs)
  All-drop zero xs h = h
  All-drop (suc n) [] h = tt
  All-drop (suc n) (x ∷ xs) (px, h) = All-drop n xs h

module _ {ℓ} {A : Type ℓ} (p : A → Bool) where
  -- `iter().filter(p)`, by a Boolean test.
  abbrev pub filter : List A → List A
  filter [] = []
  filter (x ∷ xs) = let rest = filter xs in elim (p x) [ true ↦ x ∷ rest | false ↦ rest ]

module _ {ℓ} {A : Type ℓ} where
  pub take-drop-swap : (i j : ℕ) (xs : List A) → drop i (take (i + j) xs) ≡ take j (drop i xs)
  take-drop-swap zero j xs = let e : 0 + j ≡ j = omega arith in rw e
  take-drop-swap (suc i) zero [] = let e : suc i + 0 ≡ suc i = omega arith in rw e
  take-drop-swap (suc i) (suc j) [] = let e : suc i + suc j ≡ suc (i + suc j) = omega arith in rw e
  take-drop-swap (suc i) j (x ∷ xs) =
      let e : suc i + j ≡ suc (i + j) = omega arith in rw e (take-drop-swap i j xs)

  -- A slice of a slice is a slice.
  pub slice-slice :
      (from to i j : ℕ) (xs : List A)
      → i ≤ j
      → from + j ≤ to
      → slice (slice xs from to) i j ≡ slice xs (from + i) (from + j)
  slice-slice from to i j xs h k =
      let n = to - from in
      let split : n ≡ i + (n - i) = omega arith in
      let width : from + j - (from + i) ≡ j - i = omega arith in
      rw split (
        rw (take-drop-swap i (n - i) (drop from xs), drop-drop from i xs, width)
          (take-take (j - i) (n - i) (drop (from + i) xs) (omega arith)))

  -- Two adjoining slices make one.
  pub slice-append-slice :
      (a b c : ℕ) (xs : List A) → a ≤ b → b ≤ c → slice xs a b ++ slice xs b c ≡ slice xs a c
  slice-append-slice a b c xs h k =
      let there : b ≡ a + (b - a) = omega arith in
      let whole : c - a ≡ (b - a) + (c - b) = omega arith in
      let rest : drop b xs ≡ drop (b - a) (drop a xs) =
        rw (drop-drop a (b - a) xs) (ap (λ (n : ℕ). drop n xs) there) in
      rw (rest, whole) (take-drop-split (b - a) (c - b) (drop a xs))

  pub length-slice : (a b : ℕ) (xs : List A) → a ≤ b → b ≤ length xs → length (slice xs a b) ≡ b - a
  length-slice a b xs h k = omega (arith, length-take (b - a) (drop a xs), length-drop a xs)

  pub take-nil : (k : ℕ) → take {A = A} k [] ≡ []
  take-nil zero = refl
  take-nil (suc k) = refl

  pub drop-take : (i n : ℕ) (xs : List A) → drop i (take n xs) ≡ take (n - i) (drop i xs)
  drop-take zero n xs = let e : n - 0 ≡ n = omega arith in rw e
  drop-take (suc i) zero xs = let e : 0 - suc i ≡ 0 = omega arith in rw e
  drop-take (suc i) (suc n) [] = sym (take-nil (suc n - suc i))
  drop-take (suc i) (suc n) (x ∷ xs) =
      let e : suc n - suc i ≡ n - i = omega arith in rw e (drop-take i n xs)

  pub take-take-min : (i n : ℕ) (xs : List A) → take i (take n xs) ≡ take (min i n) xs
  take-take-min zero n xs = let e : min 0 n ≡ 0 = omega arith in rw e
  take-take-min (suc i) zero xs = let e : min (suc i) 0 ≡ 0 = omega arith in rw e
  take-take-min (suc i) (suc n) [] =
      let e : min (suc i) (suc n) ≡ suc (min i n) = omega arith in rw e
  take-take-min (suc i) (suc n) (x ∷ xs) =
      let e : min (suc i) (suc n) ≡ suc (min i n) = omega arith in
      rw e (ap (λ zs. x ∷ zs) (take-take-min i n xs))
