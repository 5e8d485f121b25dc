-- ===== src/Search/TopK/Images.antt =====
-- A map that keeps the comparisons keeps the sorted order.
use r_search.Base.{
  ℕ, zero, suc, ◌≡◌, refl, ap, ◌∙◌, inl, inr, List, [], ◌∷◌, map, arith, Bool-cases, Ordering,
  is_lt, take, All,
}
use r_search.Search.TopK.{insert_by, insert_all, sort_by}

module _ {A B : Type 0} (f : A → B) where
  pub take-map : (n : ℕ) (xs : List A) → take n (map f xs) ≡ map f (take n xs)
  take-map zero xs = refl
  take-map (suc n) [] = refl
  take-map (suc n) (x ∷ xs) = ap (λ ys. f x ∷ ys) (take-map n xs)

  pub All-map {κ μ} :
      (P : A → Type κ) (Q : B → Type μ) (xs : List A)
      → ((a : A) → P a → Q (f a))
      → All P xs
      → All Q (map f xs)
  All-map P Q [] h all = tt
  All-map P Q (x ∷ xs) h (p, all) = (h x p, All-map P Q xs h all)

module _ {A B : Type 0} (P : A → Type 0) (f : A → B) (cmp : A → A → Ordering)
    (cmp_image : B → B → Ordering)
    (agree : (a b : A) → P a → P b → cmp_image (f a) (f b) ≡ cmp a b) where
  map-insert_by :
      (x : A) (ys : List A)
      → P x
      → All P ys
      → map f (insert_by cmp x ys) ≡ insert_by cmp_image (f x) (map f ys)
  unfolding insert_by
  map-insert_by x [] p all = refl
  map-insert_by x (y ∷ ys) p (q, all) = elim (Bool-cases (is_lt (cmp x y))) [
    | inl e ↦ rw (agree x y p q, e) refl
    | inr e ↦ rw (agree x y p q, e) (ap (λ zs. f y ∷ zs) (map-insert_by x ys p all))
  ]

  All-inserted : (x : A) (ys : List A) → P x → All P ys → All P (insert_by cmp x ys)
  unfolding insert_by
  All-inserted x [] p all = (p, tt)
  All-inserted x (y ∷ ys) p (q, all) = ground (arith, All-inserted x ys)

  map-insert_all :
      (sorted xs : List A)
      → All P sorted
      → All P xs
      → map f (insert_all cmp sorted xs) ≡ insert_all cmp_image (map f sorted) (map f xs)
  map-insert_all sorted [] p q = refl
  map-insert_all sorted (x ∷ xs) p (q, qs) =
      map-insert_all (insert_by cmp x sorted) xs (All-inserted x sorted q p) qs
      ∙ ap (λ ys. insert_all cmp_image ys (map f xs)) (map-insert_by x sorted q p)

  pub map-sort_by : (xs : List A) → All P xs → map f (sort_by cmp xs) ≡ sort_by cmp_image (map f xs)
  map-sort_by xs all = map-insert_all [] xs tt all
