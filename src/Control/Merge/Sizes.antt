-- ===== src/Control/Merge/Sizes.antt =====
-- Sorted sizes: what is the same in every order, and what a threshold leaves of them.
use r_search.Base.{
  ℕ, zero, suc, ◌+◌, ◌≤◌, ◌<◌, ◌≡◌, refl, inl, inr, max, true, List, [], ◌∷◌, map, some, arith, ltb,
  if◌then◌else◌, Bool-cases, All, get_elem?, filter,
}
use r_search.Control.Merge.{SplitRecord, sum, insert_desc, sort_desc}
use r_search.Control.Merge.Take.{bytes_of}

-- Descending sizes, from `top` on.
abbrev pub Desc : ℕ → List ℕ → Type 0
Desc top [] = Unit
Desc top (x ∷ xs) = (x ≤ top) × Desc x xs

insert_desc-Desc : (x top : ℕ) (xs : List ℕ) → x ≤ top → Desc top xs → Desc top (insert_desc x xs)
insert_desc-Desc x top [] h d = omega arith
insert_desc-Desc x top (y ∷ ys) h (k, d) = elim (Bool-cases (ltb x y)) [
  | inl e ↦ rw e (k, insert_desc-Desc x y ys (ground arith) d)
  | inr e ↦ rw e (h, (ground arith, d))
]

pub sort_desc-Desc : (top : ℕ) (xs : List ℕ) → All (λ x. x ≤ top) xs → Desc top (sort_desc xs)
sort_desc-Desc top [] h = tt
sort_desc-Desc top (x ∷ xs) (h, hs) =
    insert_desc-Desc x top (sort_desc xs) h (sort_desc-Desc top xs hs)

-- The sum, the greatest and the number of the sizes below a threshold: the same in every order.
abbrev pub below : ℕ → List ℕ → ℕ
below t [] = 0
below t (x ∷ xs) = (if ltb x t then x else 0) + below t xs

abbrev pub top_below : ℕ → List ℕ → ℕ
top_below t [] = 0
top_below t (x ∷ xs) = max (if ltb x t then x else 0) (top_below t xs)

abbrev pub count_below : ℕ → List ℕ → ℕ
count_below t [] = 0
count_below t (x ∷ xs) = (if ltb x t then 1 else 0) + count_below t xs

abbrev pub Same : ℕ → List ℕ → List ℕ → Type 0
Same t xs ys =
    (below t xs ≡ below t ys)
    × (top_below t xs ≡ top_below t ys)
    × (count_below t xs ≡ count_below t ys)

Same-insert_desc : (t x : ℕ) (xs : List ℕ) → Same t (insert_desc x xs) (x ∷ xs)
Same-insert_desc t x [] = (refl, refl, refl)
Same-insert_desc t x (y ∷ ys) = elim (Bool-cases (ltb x y)) [
  | inl e ↦ let (a, b, c) = Same-insert_desc t x ys in rw e (omega arith, omega arith, omega arith)
  | inr e ↦ rw e (refl, refl, refl)
]

pub Same-sort_desc : (t : ℕ) (xs : List ℕ) → Same t (sort_desc xs) xs
Same-sort_desc t [] = (refl, refl, refl)
Same-sort_desc t (x ∷ xs) =
    let (a, b, c) = Same-insert_desc t x (sort_desc xs) in
    let (a', b', c') = Same-sort_desc t xs in (omega arith, omega arith, omega arith)

pub bytes-filter :
    (t : ℕ) (group : List SplitRecord)
    → bytes_of (filter (λ s. ltb s.size_bytes t) group) ≡ below t (map (λ s. s.size_bytes) group)
bytes-filter t [] = refl
bytes-filter t (s ∷ group) = elim (Bool-cases (ltb s.size_bytes t)) [
  | inl e ↦ rw (e, filter) (omega (arith, bytes-filter t group))
  | inr e ↦ rw (e, filter) (omega (arith, bytes-filter t group))
]

-- Below a bound on every size, `below` is the whole sum and the first size the greatest.
pub below_all :
    (t top : ℕ) (xs : List ℕ)
    → top < t
    → Desc top xs
    → (below t xs ≡ sum xs) × (top_below t xs ≤ top)
below_all t top [] h d = (refl, omega arith)
below_all t top (x ∷ xs) h (k, d) =
    let (a, b) = below_all t x xs (omega arith) d in
    let e : ltb x t ≡ true = ground arith in rw e (omega arith, omega arith)

pub get_elem?-le : (top k t : ℕ) (xs : List ℕ) → Desc top xs → get_elem? xs k ≡ some t → t ≤ top
get_elem?-le top k t [] d e = absurd (grind arith)
get_elem?-le top zero t (x ∷ xs) (h, d) e = ground arith
get_elem?-le top (suc k) t (x ∷ xs) (h, d) e = omega (arith, get_elem?-le x k t xs d e)
