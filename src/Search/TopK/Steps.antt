-- ===== src/Search/TopK/Steps.antt =====
-- The bounded heap holds the first entries of the sorted whole.
use mathlib.Core.Path.{subst}
use r_search.Base.{
  ℕ, zero, suc, ◌≤◌, ◌<◌, ◌≡◌, refl, sym, ap, ◌∙◌, inl, inr, true, false, List, [], ◌∷◌, none, some,
  arith, ltb, Bool-cases, Option-cases, Ordering, is_lt, IsWeak, length, take, All, length-take,
  take-take, take_all, All-take,
}
use r_search.Search.TopK.{last, init, insert_by, insert_all, offer, offer_all, Sorted}

module _ {A : Type 0} (P : A → Type 0) (cmp : A → A → Ordering) (v : IsWeak P cmp) where
  asym : (a b : A) → P a → P b → is_lt (cmp a b) ≡ true → is_lt (cmp b a) ≡ false
  asym a b p q h = ground (arith, v.anti a b p q)

  -- What comes before an entry comes before all that do not come before that entry.
  jump :
      (a b c : A)
      → P a
      → P b
      → P c
      → is_lt (cmp a b) ≡ true
      → is_lt (cmp c b) ≡ false
      → is_lt (cmp a c) ≡ true
  jump a b c p q r h k = ground (
    arith,
    v.anti b c q r,
    v.anti a b p q,
    v.anti a c p r,
    v.same b c a q r p,
    v.trans a b c p q r,
  )

  All-jump :
      (x y : A) (ys : List A)
      → P x
      → P y
      → All P ys
      → is_lt (cmp x y) ≡ true
      → All (λ z. is_lt (cmp z y) ≡ false) ys
      → All (λ z. is_lt (cmp z x) ≡ false) ys
  All-jump x y [] p q all h s = tt
  All-jump x y (z ∷ zs) p q (r, all) h (k, s) =
      (asym x z p r (jump x y z p q r h k), All-jump x y zs p q all h s)

  pub All-insert_by {κ} :
      (Q : A → Type κ) (x : A) (ys : List A) → Q x → All Q ys → All Q (insert_by cmp x ys)
  unfolding insert_by
  All-insert_by Q x [] p all = (p, tt)
  All-insert_by Q x (y ∷ ys) p (q, all) = elim (Bool-cases (is_lt (cmp x y))) [
    | inl e ↦ rw (e, insert_by) (p, (q, all))
    | inr e ↦ rw (e, insert_by) (q, All-insert_by Q x ys p all)
  ]

  pub insert_by-Sorted :
      (x : A) (ys : List A) → P x → All P ys → Sorted cmp ys → Sorted cmp (insert_by cmp x ys)
  unfolding insert_by
  insert_by-Sorted x [] p all s = (tt, tt)
  insert_by-Sorted x (y ∷ ys) p (q, all) (k, s) = elim (Bool-cases (is_lt (cmp x y))) [
    | inl e ↦ rw (e, insert_by) ((asym x y p q e, All-jump x y ys p q all e k), (k, s))
    | inr e ↦
        rw (e, insert_by)
          (All-insert_by (λ z. is_lt (cmp z y) ≡ false) x ys e k, insert_by-Sorted x ys p all s)
  ]

  All-past :
      (x y : A) (ys : List A)
      → P x
      → P y
      → All P ys
      → is_lt (cmp x y) ≡ true
      → All (λ z. is_lt (cmp z y) ≡ false) ys
      → All (λ z. is_lt (cmp x z) ≡ true) ys
  All-past x y [] p q all h s = tt
  All-past x y (z ∷ zs) p q (r, all) h (k, s) = (jump x y z p q r h k, All-past x y zs p q all h s)

  All-last : (Q : A → Type 0) (xs : List A) (top : A) → All Q xs → last xs ≡ some top → Q top
  All-last Q [] top all e = absurd (grind arith)
  All-last Q (x ∷ []) top (q, all) e =
      subst (λ o. elim o as (λ x. Type 0) [ none ↦ Unit | some a ↦ Q a ]) e q
  All-last Q (x ∷ y ∷ xs) top (q, all) e = All-last Q (y ∷ xs) top all e

  init-take : (y : A) (ys : List A) → init (y ∷ ys) ≡ take (length ys) (y ∷ ys)
  init-take y [] = refl
  init-take y (z ∷ zs) = ap (λ r. y ∷ r) (init-take z zs)

  insert_front :
      (m : ℕ) (x y : A) (ys : List A)
      → is_lt (cmp x y) ≡ true
      → insert_by cmp x (take m (y ∷ ys)) ≡ x ∷ take m (y ∷ ys)
  unfolding insert_by
  insert_front zero x y ys h = refl
  insert_front (suc m) x y ys h = rw h refl

  -- A full heap, to which an entry comes that is before its first one.
  offer_front :
      (m : ℕ) (x y : A) (ys : List A)
      → P x
      → P y
      → All P ys
      → is_lt (cmp x y) ≡ true
      → All (λ z. is_lt (cmp z y) ≡ false) ys
      → length ys ≤ m
      → offer cmp (suc m) (y ∷ ys) x ≡ x ∷ take m (y ∷ ys)
  unfolding offer insert_by
  offer_front m x y ys p q all h s k = elim (Bool-cases (ltb (suc (length ys)) (suc m))) [
    | inl e ↦ rw (e, h) (ap (λ r. x ∷ r) (sym (take_all m (y ∷ ys) (ground arith))))
    | inr e ↦ elim (Option-cases (last (y ∷ ys))) [
      | inl none_there ↦ absurd (last-none y ys none_there)
      | inr (top, there) ↦
          let past : is_lt (cmp x top) ≡ true =
            All-last (λ z. is_lt (cmp x z) ≡ true) (y ∷ ys) top (h, All-past x y ys p q all h s)
              there in
          rw (e, there, past)
            (let full : length ys ≡ m = ground arith in
              ap (insert_by cmp x) (init-take y ys ∙ ap (λ n. take n (y ∷ ys)) full)
              ∙ insert_front m x y ys h)
    ]
  ]
    where
      last-none : (y : A) (ys : List A) → last (y ∷ ys) ≡ none → ⊥
      last-none y [] e = grind arith
      last-none y (z ∷ zs) e = last-none z zs e

  -- An entry that is not before the first one is offered to the others.
  offer_later :
      (m : ℕ) (x y : A) (ys : List A)
      → is_lt (cmp x y) ≡ false
      → 0 < m
      → offer cmp (suc m) (y ∷ ys) x ≡ y ∷ offer cmp m ys x
  unfolding offer insert_by
  offer_later m x y [] h k = elim (Bool-cases (ltb 0 m)) [
    | inl e ↦ let e' : ltb 1 (suc m) ≡ true = ground arith in rw (e, e', h)
    | inr e ↦ absurd (ground arith)
  ]
  offer_later m x y (z ∷ zs) h k = elim (Bool-cases (ltb (length (z ∷ zs)) m)) [
    | inl e ↦ let e' : ltb (length (y ∷ z ∷ zs)) (suc m) ≡ true = ground arith in rw (e, e', h)
    | inr e ↦
        let e' : ltb (length (y ∷ z ∷ zs)) (suc m) ≡ false = ground arith in
        elim (Option-cases (last (z ∷ zs))) [
          | inl f ↦ rw (e, e', f)
          | inr (top, f) ↦ elim (Bool-cases (is_lt (cmp x top))) [
            | inl g ↦ rw (e, e', f, g, h)
            | inr g ↦ rw (e, e', f, g)
          ]
        ]
  ]

  offer_empty : (m : ℕ) (x : A) → offer cmp (suc m) [] x ≡ x ∷ take m []
  unfolding offer insert_by
  offer_empty zero x = refl
  offer_empty (suc m) x = let e : ltb 0 (suc (suc m)) ≡ true = ground arith in rw e refl

  offer_single : (x y : A) → is_lt (cmp x y) ≡ false → offer cmp 1 (y ∷ []) x ≡ y ∷ []
  unfolding offer
  offer_single x y e = rw e refl

  take-cons-take : (m : ℕ) (y : A) (ys : List A) → take m (y ∷ take m ys) ≡ take m (y ∷ ys)
  take-cons-take zero y ys = refl
  take-cons-take (suc m) y ys = ap (λ r. y ∷ r) (take-take m (suc m) ys (omega arith))

  -- The heap of the first entries, after one more entry.
  pub offer_lem :
      (limit : ℕ) (x : A) (ys : List A)
      → 0 < limit
      → P x
      → All P ys
      → Sorted cmp ys
      → offer cmp limit (take limit ys) x ≡ take limit (insert_by cmp x ys)
  unfolding insert_by
  offer_lem zero x ys h p all s = absurd (omega arith)
  offer_lem (suc m) x [] h p all s = offer_empty m x
  offer_lem (suc m) x (y ∷ ys) h p (q, all) (k, s) = elim (Bool-cases (is_lt (cmp x y))) [
    | inl e ↦
        rw (e, insert_by)
          (offer_front m x y (take m ys) p q (All-take P m ys all) e
              (All-take (λ z. is_lt (cmp z y) ≡ false) m ys k) (omega (arith, length-take m ys))
            ∙ ap (λ r. x ∷ r) (take-cons-take m y ys))
    | inr e ↦
        rw (e, insert_by)
          (elim (Bool-cases (ltb 0 m)) [
            | inl g ↦
                let pos_m : 0 < m = ground arith in
                offer_later m x y (take m ys) e pos_m
                ∙ ap (λ r. y ∷ r) (offer_lem m x ys pos_m p all s)
            | inr g ↦ let zero_m : m ≡ 0 = ground arith in rw zero_m (offer_single x y e)
          ])
  ]

  -- For a comparison that ranks the entries and a positive limit, a bounded heap that holds the
  -- first entries of a sorted list holds, after any entries, the first entries of that list with
  -- the entries sorted in.
  pub offer_all_lem :
      (limit : ℕ) (xs sorted : List A)
      → 0 < limit
      → All P xs
      → All P sorted
      → Sorted cmp sorted
      → offer_all cmp limit (take limit sorted) xs ≡ take limit (insert_all cmp sorted xs)
  offer_all_lem limit [] sorted h p q s = refl
  offer_all_lem limit (x ∷ xs) sorted h (p, ps) q s =
      ap (λ heap. offer_all cmp limit heap xs) (offer_lem limit x sorted h p q s)
      ∙ offer_all_lem limit xs (insert_by cmp x sorted) h ps (All-insert_by P x sorted p q)
          (insert_by-Sorted x sorted p q s)
