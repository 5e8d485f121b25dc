-- ===== src/Search/TopK/Merge.antt =====
-- Merging the first entries of the parts gives the first entries of the whole.
use r_search.Base.{
  ℕ, zero, suc, ◌<◌, ◌≡◌, refl, sym, ap, ◌∙◌, inl, inr, false, List, [], ◌∷◌, ◌++◌, map, arith,
  if◌then◌else◌, Bool-cases, Ordering, eq, is_lt, IsWeak, take, All, All-append, take-take,
  All-take,
}
use r_search.Search.TopK.{insert_by, insert_all, sort_by, offer_all, Sorted}
use r_search.Search.TopK.Steps.{All-insert_by, insert_by-Sorted, offer_all_lem}

abbrev pub concat {ℓ} : {A : Type ℓ} → List (List A) → List A
concat [] = []
concat (xs ∷ xss) = xs ++ concat xss

module _ {A : Type 0} (P : A → Type 0) (cmp : A → A → Ordering) (v : IsWeak P cmp)
    (one : (a b : A) → P a → P b → cmp a b ≡ eq → a ≡ b) where
  insert_pair :
      (x y : A) (zs : List A)
      → P x
      → P y
      → (if is_lt (cmp x y) then x ∷ y ∷ zs else y ∷ x ∷ zs)
        ≡ (if is_lt (cmp y x) then y ∷ x ∷ zs else x ∷ y ∷ zs)
  insert_pair x y zs p q = ground (arith, v.anti x y p q, one x y p q)

  insert_by_comm :
      (x y : A) (zs : List A)
      → P x
      → P y
      → All P zs
      → insert_by cmp x (insert_by cmp y zs) ≡ insert_by cmp y (insert_by cmp x zs)
  unfolding insert_by
  insert_by_comm x y [] p q all = insert_pair x y [] p q
  insert_by_comm x y (z ∷ zs) p q (r, all) = ground (
    arith,
    insert_by_comm x y zs p q all,
    v.anti x y p q,
    one x y p q,
    v.trans x y z p q r,
    v.trans y x z q p r,
  )

  All-insert_all : (ss xs : List A) → All P ss → All P xs → All P (insert_all cmp ss xs)
  All-insert_all ss [] p q = p
  All-insert_all ss (x ∷ xs) p (q, qs) =
      All-insert_all (insert_by cmp x ss) xs (All-insert_by P cmp v P x ss q p) qs

  insert_all-Sorted :
      (ss xs : List A) → All P ss → All P xs → Sorted cmp ss → Sorted cmp (insert_all cmp ss xs)
  insert_all-Sorted ss [] p q s = s
  insert_all-Sorted ss (x ∷ xs) p (q, qs) s =
      insert_all-Sorted (insert_by cmp x ss) xs (All-insert_by P cmp v P x ss q p) qs
        (insert_by-Sorted P cmp v x ss q p s)

  insert_by-insert_all :
      (x : A) (ss xs : List A)
      → P x
      → All P ss
      → All P xs
      → insert_by cmp x (insert_all cmp ss xs) ≡ insert_all cmp (insert_by cmp x ss) xs
  insert_by-insert_all x ss [] p q r = refl
  insert_by-insert_all x ss (y ∷ ys) p q (r, rs) =
      insert_by-insert_all x (insert_by cmp y ss) ys p (All-insert_by P cmp v P y ss r q) rs
      ∙ ap (λ l. insert_all cmp l ys) (insert_by_comm x y ss p r q)

  -- The order in which two lists go in does not matter.
  insert_all-swap :
      (ss xs ys : List A)
      → All P ss
      → All P xs
      → All P ys
      → insert_all cmp (insert_all cmp ss xs) ys ≡ insert_all cmp (insert_all cmp ss ys) xs
  insert_all-swap ss xs [] r p q = refl
  insert_all-swap ss xs (y ∷ ys) r p (q, qs) =
      ap (λ l. insert_all cmp l ys) (insert_by-insert_all y ss xs q r p)
      ∙ insert_all-swap (insert_by cmp y ss) xs ys (All-insert_by P cmp v P y ss q r) p qs

  insert_least :
      (y : A) (ys : List A)
      → P y
      → All P ys
      → All (λ z. is_lt (cmp z y) ≡ false) ys
      → insert_by cmp y ys ≡ y ∷ ys
  unfolding insert_by
  insert_least y [] p q s = refl
  insert_least y (z ∷ zs) p (q, qs) (k, s) = elim (Bool-cases (is_lt (cmp y z))) [
    | inl e ↦ rw e
    | inr e ↦
        let same : z ≡ y = one z y q p (ground (arith, v.anti y z p q)) in
        rw (e, same) (ap (λ r. y ∷ r) (insert_least y zs p qs s))
  ]

  -- A sorted list is its own sort.
  sort_by-Sorted : (ys : List A) → All P ys → Sorted cmp ys → sort_by cmp ys ≡ ys
  sort_by-Sorted [] p s = refl
  sort_by-Sorted (y ∷ ys) (p, q) (k, s) =
      sym (insert_by-insert_all y [] ys p tt q)
      ∙ (ap (insert_by cmp y) (sort_by-Sorted ys q s) ∙ insert_least y ys p q k)

  take-Sorted : (n : ℕ) (ys : List A) → Sorted cmp ys → Sorted cmp (take n ys)
  take-Sorted zero ys s = tt
  take-Sorted (suc n) [] s = tt
  take-Sorted (suc n) (y ∷ ys) (k, s) =
      (All-take (λ z. is_lt (cmp z y) ≡ false) n ys k, take-Sorted n ys s)

  module _ (limit : ℕ) (some_limit : 0 < limit) where
    abbrev pub top : List A → List A
    top xs = take limit (sort_by cmp xs)

    -- Into a sorted list, the first entries of a part do as the part.
    take-insert_top :
        (acc xs : List A)
        → All P acc
        → All P xs
        → Sorted cmp acc
        → take limit (insert_all cmp acc (top xs)) ≡ take limit (insert_all cmp acc xs)
    take-insert_top acc xs p q s =
        let sorted = insert_all-Sorted [] xs tt q tt in
        let sorted_all = All-insert_all [] xs tt q in
        let tops = All-take P limit (sort_by cmp xs) sorted_all in
        let acc_id = sort_by-Sorted acc p s in
        let top_id = sort_by-Sorted (top xs) tops (take-Sorted limit (sort_by cmp xs) sorted) in
        ap (λ l. take limit (insert_all cmp l (top xs))) (sym acc_id)
        ∙ (ap (take limit) (insert_all-swap [] acc (top xs) tt p tops)
            ∙ (ap (λ l. take limit (insert_all cmp l acc)) top_id
                ∙ (sym (
                      offer_all_lem P cmp v limit acc (top xs) some_limit p tops
                        (take-Sorted limit (sort_by cmp xs) sorted))
                    ∙ (ap (λ l. offer_all cmp limit l acc)
                          (take-take limit limit (sort_by cmp xs) (omega arith))
                        ∙ (offer_all_lem P cmp v limit acc (sort_by cmp xs) some_limit p sorted_all
                              sorted
                            ∙ (ap (take limit) (insert_all-swap [] xs acc tt q p)
                                ∙ ap (λ l. take limit (insert_all cmp l xs)) acc_id))))))

    insert_all-append :
        (acc xs ys : List A)
        → insert_all cmp acc (xs ++ ys) ≡ insert_all cmp (insert_all cmp acc xs) ys
    insert_all-append acc [] ys = refl
    insert_all-append acc (x ∷ xs) ys = insert_all-append (insert_by cmp x acc) xs ys

    -- Two sorted lists with the same first entries keep them the same.
    same_tops :
        (a b ys : List A)
        → All P a
        → All P b
        → All P ys
        → Sorted cmp a
        → Sorted cmp b
        → take limit a ≡ take limit b
        → take limit (insert_all cmp a ys) ≡ take limit (insert_all cmp b ys)
    same_tops a b ys p q r s t e =
        sym (offer_all_lem P cmp v limit ys a some_limit r p s)
        ∙ (ap (λ l. offer_all cmp limit l ys) e ∙ offer_all_lem P cmp v limit ys b some_limit r q t)

    All-concat : (parts : List (List A)) → All (All P) parts → All P (concat parts)
    All-concat [] h = tt
    All-concat (xs ∷ parts) (h, hs) = All-append P xs (concat parts) h (All-concat parts hs)

    merge_into :
        (acc : List A) (parts : List (List A))
        → All P acc
        → Sorted cmp acc
        → All (All P) parts
        → take limit (insert_all cmp acc (concat (map top parts)))
          ≡ take limit (insert_all cmp acc (concat parts))
    merge_into acc [] p s h = refl
    merge_into acc (xs ∷ parts) p s (h, hs) =
        let tops = All-take P limit (sort_by cmp xs) (All-insert_all [] xs tt h) in
        ap (take limit) (insert_all-append acc (top xs) (concat (map top parts)))
        ∙ (merge_into (insert_all cmp acc (top xs)) parts (All-insert_all acc (top xs) p tops)
              (insert_all-Sorted acc (top xs) p tops s) hs
            ∙ (same_tops (insert_all cmp acc (top xs)) (insert_all cmp acc xs) (concat parts)
                  (All-insert_all acc (top xs) p tops) (All-insert_all acc xs p h)
                  (All-concat parts hs) (insert_all-Sorted acc (top xs) p tops s)
                  (insert_all-Sorted acc xs p h s) (take-insert_top acc xs p h s)
                ∙ ap (take limit) (sym (insert_all-append acc xs (concat parts)))))

    pub merge_tops :
        (parts : List (List A))
        → All (All P) parts
        → top (concat (map top parts)) ≡ top (concat parts)
    merge_tops parts h = merge_into [] parts tt tt h
