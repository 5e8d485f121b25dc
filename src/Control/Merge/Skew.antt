-- ===== src/Control/Merge/Skew.antt =====
-- What the skew filter leaves.
use mathlib.Core.Path.{subst}
use r_search.Base.{
  ℕ, suc, ◌+◌, ◌-◌, ◌*◌, ◌^◌, ◌%◌, ◌≤◌, ◌<◌, ◌≡◌, refl, ap, sym, ◌∙◌, ◌⊎◌, inl, inr, min, max, true,
  false, List, [], ◌∷◌, map, some, arith, ltb, ◌==◌, if◌then◌else◌, Bool-cases, All, length,
  get_elem?, filter,
}
use r_search.Control.Merge.{
  outweighs, SplitRecord, i64_max, merge_skew_factor, sum, insert_desc, sort_desc, cut_loop,
  merge_candidates,
}
use r_search.Control.Merge.Take.{bytes_of}
use r_search.Control.Merge.Sizes.{
  Desc, sort_desc-Desc, below, top_below, count_below, Same, Same-sort_desc, bytes-filter,
  below_all, get_elem?-le,
}

-- Of the sizes below `t`, none outweighs the others, or there is at most one.
abbrev Settled : ℕ → List ℕ → Type 0
Settled t sizes =
    (top_below t sizes ≤ merge_skew_factor * (below t sizes - top_below t sizes))
    ⊎ (count_below t sizes ≤ 1)

-- The answer `n` of the loop over sorted sizes below `t0`: with none cut they are settled; else `n`
-- is past the size `t`, which outweighs those below it, and they are settled.
abbrev CutOk : ℕ → ℕ → ℕ → List ℕ → ℕ → Type 0
CutOk i cut t0 sizes n =
    ((n ≡ cut) × Settled t0 sizes)
    ⊎ ((k t : ℕ) × (n ≡ i + suc k)
        × (get_elem? sizes k ≡ some t)
        × (merge_skew_factor * below t sizes < t)
        × Settled t sizes)

-- A size that is not below `t` leads a list without effect.
Same-skip : (t x : ℕ) (xs : List ℕ) → t ≤ x → Same t (x ∷ xs) xs
Same-skip t x xs h =
    let e : ltb x t ≡ false = ground arith in rw e (omega arith, omega arith, omega arith)

Settled-Same : (t : ℕ) (xs ys : List ℕ) → Same t xs ys → Settled t ys → Settled t xs
Settled-Same t xs ys (a, b, c) (inl h) = inl (rw (a, b) h)
Settled-Same t xs ys (a, b, c) (inr h) = inr (rw c h)

-- A sum that an i64 holds does not wrap.
outweighs_exact :
    (size : ℕ) (sizes : List ℕ)
    → sum sizes ≤ i64_max
    → outweighs size sizes ≡ ltb (min i64_max (merge_skew_factor * sum sizes)) size
unfolding outweighs
outweighs_exact size sizes h = let e : sum sizes % 2 ^ 64 ≡ sum sizes = omega arith in ground arith

cut_loop-CutOk :
    (i cut t0 top : ℕ) (sizes : List ℕ)
    → top < t0
    → sum sizes ≤ i64_max
    → Desc top sizes
    → CutOk i cut t0 sizes (cut_loop i cut sizes)
unfolding cut_loop
cut_loop-CutOk i cut t0 top [] h m d = inl (refl, inr (omega arith))
cut_loop-CutOk i cut t0 top (x ∷ []) h m d = inl (refl, inr (ground arith))
cut_loop-CutOk i cut t0 top (x ∷ y ∷ ys) h m (k, d) =
    let exact = outweighs_exact x (y ∷ ys) (omega arith) in
    elim (Bool-cases (outweighs x (y ∷ ys))) [
      | inl e ↦ rw e (
          later (sym exact ∙ e) (
            cut_loop-CutOk (i + 1) (i + 1) x y (y ∷ ys) (ground arith) (omega arith)
              (omega arith, d.1)))
      | inr e ↦
          let (a, b) = below_all t0 x (y ∷ ys) (omega arith) d in
          let c : ltb x t0 ≡ true = ground arith in
          let light = sym exact ∙ e in rw e (inl (refl, inl (rw c (ground arith))))
    ]
  where
    later :
        ltb (min i64_max (merge_skew_factor * sum (y ∷ ys))) x ≡ true
        → CutOk (i + 1) (i + 1) x (y ∷ ys) (cut_loop (i + 1) (i + 1) (y ∷ ys))
        → CutOk i cut t0 (x ∷ y ∷ ys) (cut_loop (i + 1) (i + 1) (y ∷ ys))
    later e (inl (n, s)) =
        let same = Same-skip x x (y ∷ ys) (omega arith) in
        let all = below_all x y (y ∷ ys) (ground arith) (omega arith, d.1) in
        inr (0, x, omega arith, refl, ground arith, Settled-Same x (x ∷ y ∷ ys) (y ∷ ys) same s)
    later e (inr (j, t, n, g, f, s)) =
        let low = get_elem?-le y j t (y ∷ ys) (omega arith, d.1) g in
        let same = Same-skip t x (y ∷ ys) (omega arith) in
        inr (
          suc j,
          t,
          omega arith,
          g,
          omega (arith, same.0),
          Settled-Same t (x ∷ y ∷ ys) (y ∷ ys) same s,
        )

abbrev sizes_of : List SplitRecord → List ℕ
sizes_of group = map (λ s. s.size_bytes) group

abbrev chosen : ℕ → List SplitRecord → List SplitRecord
chosen t group = filter (λ s. ltb s.size_bytes t) group

length-chosen :
    (t : ℕ) (group : List SplitRecord) → length (chosen t group) ≡ count_below t (sizes_of group)
length-chosen t [] = refl
length-chosen t (s ∷ group) = elim (Bool-cases (ltb s.size_bytes t)) [
  | inl e ↦ rw (e, filter) (omega (arith, length-chosen t group))
  | inr e ↦ rw (e, filter) (omega (arith, length-chosen t group))
]

chosen-All :
    (P : SplitRecord → Type 0) (t bound : ℕ) (group : List SplitRecord)
    → top_below t (sizes_of group) ≤ bound
    → ((s : SplitRecord) → s.size_bytes ≤ bound → P s)
    → All P (chosen t group)
chosen-All P t bound [] h f = tt
chosen-All P t bound (s ∷ group) h f = elim (Bool-cases (ltb s.size_bytes t)) [
  | inl e ↦
      let h' =
        subst (λ b. max (if b then s.size_bytes else 0) (top_below t (sizes_of group)) ≤ bound) e
          h in
      rw (e, filter) (f s (omega arith), chosen-All P t bound group (omega arith) f)
  | inr e ↦
      let h' =
        subst (λ b. max (if b then s.size_bytes else 0) (top_below t (sizes_of group)) ≤ bound) e
          h in
      rw (e, filter) (chosen-All P t bound group (omega arith) f)
]

All-group :
    (P : SplitRecord → Type 0) (group : List SplitRecord) → ((s : SplitRecord) → P s) → All P group
All-group P [] f = tt
All-group P (s ∷ group) f = (f s, All-group P group f)

-- The survivors of the filter by the threshold `t`: what is dropped outweighs all of them together,
-- and none of them outweighs the others, unless there is at most one.
abbrev pub IsCut : List SplitRecord → ℕ → List SplitRecord → Type 0
IsCut group t candidates =
    (candidates ≡ filter (λ s. ltb s.size_bytes t) group)
    × All (λ s. (s.size_bytes < t) ⊎ (merge_skew_factor * bytes_of candidates < s.size_bytes)) group
    × (All (λ s. s.size_bytes ≤ merge_skew_factor * (bytes_of candidates - s.size_bytes)) candidates
        ⊎ (length candidates ≤ 1))

Settled-chosen :
    (t : ℕ) (group : List SplitRecord)
    → Settled t (sort_desc (sizes_of group))
    → All
        (λ s. s.size_bytes ≤ merge_skew_factor * (bytes_of (chosen t group) - s.size_bytes))
        (chosen t group)
      ⊎ (length (chosen t group) ≤ 1)
Settled-chosen t group (inl h) =
    let (a, b, c) = Same-sort_desc t (sizes_of group) in
    inl (
      chosen-All
        (λ s. s.size_bytes ≤ merge_skew_factor * (bytes_of (chosen t group) - s.size_bytes)) t
        (top_below t (sizes_of group)) group (omega arith)
        (λ s k. omega (arith, bytes-filter t group)))
Settled-chosen t group (inr h) =
    let (a, b, c) = Same-sort_desc t (sizes_of group) in inr (omega (arith, length-chosen t group))

chosen_whole :
    (t : ℕ) (group : List SplitRecord) → All (λ s. s.size_bytes < t) group → chosen t group ≡ group
chosen_whole t [] h = refl
chosen_whole t (s ∷ group) (h, hs) =
    let e : ltb s.size_bytes t ≡ true = ground arith in
    rw (e, filter) (ap (λ g. s ∷ g) (chosen_whole t group hs))

-- Sizes that together fit an i64 fit it one by one, and their sum is the same in every order.
sizes_of-All :
    (group : List SplitRecord)
    → bytes_of group ≤ i64_max
    → All (λ x. x ≤ i64_max) (sizes_of group) × All (λ s. s.size_bytes < suc i64_max) group
sizes_of-All [] h = (tt, tt)
sizes_of-All (s ∷ group) h =
    let (a, b) = sizes_of-All group (omega arith) in ((omega arith, a), (omega arith, b))

sum-insert_desc : (x : ℕ) (xs : List ℕ) → sum (insert_desc x xs) ≡ x + sum xs
sum-insert_desc x [] = refl
sum-insert_desc x (y ∷ ys) = ground (arith, sum-insert_desc x ys)

sum-sort_desc : (group : List SplitRecord) → sum (sort_desc (sizes_of group)) ≡ bytes_of group
sum-sort_desc [] = refl
sum-sort_desc (s ∷ group) =
    omega (arith, sum-sort_desc group, sum-insert_desc s.size_bytes (sort_desc (sizes_of group)))

-- For a group whose sizes together fit an i64, so that no sum wraps, the merge candidates are the
-- splits below a threshold, in order; each split left out weighs more than ten times all
-- candidates together, and no candidate weighs more than ten times the other candidates, unless
-- there is at most one.
pub merge_candidates-IsCut :
    (group : List SplitRecord)
    → bytes_of group ≤ i64_max
    → (t : ℕ) × IsCut group t (merge_candidates group)
unfolding merge_candidates
merge_candidates-IsCut group h =
    let by_size = sort_desc (sizes_of group) in
    let (small, fits) = sizes_of-All group h in
    let total : sum by_size ≤ i64_max = omega (arith, sum-sort_desc group) in
    let sorted = sort_desc-Desc i64_max (sizes_of group) small in
    elim (cut_loop-CutOk 0 0 (suc i64_max) i64_max by_size (omega arith) total sorted) [
      | inl (n, s) ↦ (
        suc i64_max,
        rw n (
            subst (IsCut group (suc i64_max)) (chosen_whole (suc i64_max) group fits)
              (refl, All-left (suc i64_max) group fits, Settled-chosen (suc i64_max) group s)),
      )
      | inr (k, t, n, g, f, s) ↦
          let n' : cut_loop 0 0 by_size ≡ suc k = omega arith in
          let back : suc k - 1 ≡ k = omega arith in
          let some_cut : (suc k == 0) ≡ false = ground arith in
          (
            t,
            rw (n', some_cut, back, g)
                (refl, All-group _ group (weighed t f), Settled-chosen t group s),
          )
    ]
  where
    All-left :
        (t : ℕ) (all : List SplitRecord)
        → All (λ s. s.size_bytes < t) all
        → All
            (λ s.
              (s.size_bytes < t) ⊎ (merge_skew_factor * bytes_of (chosen t group) < s.size_bytes))
            all
    All-left t [] a = tt
    All-left t (s ∷ all) (a, rest) = (inl a, All-left t all rest)

    weighed :
        (t : ℕ)
        → merge_skew_factor * below t (sort_desc (sizes_of group)) < t
        → (s : SplitRecord)
        → (s.size_bytes < t) ⊎ (merge_skew_factor * bytes_of (chosen t group) < s.size_bytes)
    weighed t f s =
        let (a, b, c) = Same-sort_desc t (sizes_of group) in
        elim (Bool-cases (ltb s.size_bytes t)) [
          | inl e ↦ inl (ground arith)
          | inr e ↦ inr (ground (arith, bytes-filter t group))
        ]
