-- ===== src/Control/Merge/Select.antt =====
-- The rotation over the streams that have a merge group.
use mathlib.Core.Path.{subst}
use r_search.Base.{
  ℕ, suc, ◌+◌, ◌≤◌, ◌<◌, ◌≡◌, refl, ◌⊎◌, inl, inr, false, List, [], ◌∷◌, ◌++◌, Option, none, some,
  arith, ltb, leb, ◌==◌, ==_refl, if◌then◌else◌, Bool-cases, Option-cases, get_elem?, All, TreeMap,
  lookup, Keys, Keys-mono, Keys-insert, lookup_below,
}
use r_search.Control.Merge.{
  SplitRecord, merge_candidates, merge_take, push, group_by_stream, eligible_of, position,
  select_merge_group,
}

abbrev Groups : Type 0
Groups = TreeMap (List SplitRecord)

Keys-push :
    (hi : ℕ) (split : SplitRecord) (m : Groups)
    → split.stream_id < hi
    → Keys 0 hi m
    → Keys 0 hi (push split m)
Keys-push hi split m h s = elim (Option-cases (lookup split.stream_id m)) [
  | inl e ↦ rw (e, push) (Keys-insert 0 hi split.stream_id (split ∷ []) m (omega arith) h s)
  | inr (g, e) ↦
      rw (e, push) (Keys-insert 0 hi split.stream_id (g ++ split ∷ []) m (omega arith) h s)
]

Keys-group_by_stream :
    (hi : ℕ) (m : Groups) (small : List SplitRecord)
    → All (λ s. s.stream_id < hi) small
    → Keys 0 hi m
    → Keys 0 hi (group_by_stream m small)
Keys-group_by_stream hi m [] h s = s
Keys-group_by_stream hi m (split ∷ small) (h, hs) s =
    Keys-group_by_stream hi (push split m) small hs (Keys-push hi split m h s)

Keys-eligible_of :
    (target max_group lo hi : ℕ) (m : Groups)
    → Keys lo hi m
    → Keys lo hi (eligible_of target max_group m)
unfolding eligible_of
Keys-eligible_of target max_group lo hi [] s = tt
Keys-eligible_of target max_group lo hi ((id, group) ∷ m) (low, high, s) =
    let rest = Keys-eligible_of target max_group (suc id) hi m s in
    elim (Bool-cases (leb 2 (merge_take (merge_candidates group) target max_group))) [
      | inl e ↦ rw (e, eligible_of) (low, high, rest)
      | inr e ↦
          rw (e, eligible_of)
            (Keys-mono (suc id) lo hi hi (eligible_of target max_group m) (omega arith)
              (omega arith) rest)
    ]

least :
    (lo hi j : ℕ) (h : List SplitRecord) (m : Groups) → Keys lo hi m → lookup j m ≡ some h → lo ≤ j
least lo hi j h m s e = elim (Bool-cases (ltb j lo)) [
  | inl f ↦ absurd (grind (arith, lookup_below j lo hi m (ground arith) s))
  | inr f ↦ ground arith
]

-- What `position` finds: the first stream past the cursor, or that there is none.
abbrev Found : ℕ → ℕ → Groups → Option ℕ → Type 0
Found after i m none = (j : ℕ) (h : List SplitRecord) → lookup j m ≡ some h → j ≤ after
Found after i m (some n) =
    (k id : ℕ) × (g : List SplitRecord) × (n ≡ i + k)
    × (get_elem? m k ≡ some (id, g))
    × (lookup id m ≡ some g)
    × (after < id)
    × ((j : ℕ) (h : List SplitRecord) → lookup j m ≡ some h → after < j → id ≤ j)

position-Found :
    (after i lo hi : ℕ) (m : Groups)
    → Keys lo hi m
    → Found after i m (position (λ e. ltb after e.0) i m)
position-Found after i lo hi [] s = λ j h e. absurd (grind arith)
position-Found after i lo hi ((id, g) ∷ m) (low, high, s) = elim (Bool-cases (ltb after id)) [
  | inl e ↦ rw e (
    0,
    id,
    g,
    omega arith,
    refl,
    rw (==_refl id),
    ground arith,
    λ j h f past. least id hi j h ((id, g) ∷ m) (omega arith, high, s) f,
  )
  | inr e ↦ rw e (
      later (ground arith) (position (λ e. ltb after e.0) (i + 1) m)
        (position-Found after (i + 1) (suc id) hi m s))
]
  where
    later : id ≤ after → (o : Option ℕ) → Found after (i + 1) m o → Found after i ((id, g) ∷ m) o
    later p none f = λ j h x. elim (Bool-cases (id == j)) [
      | inl e ↦ ground arith
      | inr e ↦ f j h (subst (λ b. (if b then some g else lookup j m) ≡ some h) e x)
    ]
    later p (some n) (k, id', g', a, b, c, d, z) = (
      suc k,
      id',
      g',
      omega arith,
      b,
      let other : (id == id') ≡ false = ground arith in rw other c,
      d,
      λ j h x past. elim (Bool-cases (id == j)) [
        | inl e ↦ absurd (ground arith)
        | inr e ↦ z j h (subst (λ b. (if b then some g else lookup j m) ≡ some h) e x) past
      ],
    )

-- The next group in the rotation: the eligible stream of least id past `after`, or of least id when
-- none is past it; no group only if no stream is eligible.
abbrev pub IsNext : ℕ → Groups → Option (ℕ × List SplitRecord) → Type 0
IsNext after eligible none = eligible ≡ []
IsNext after eligible (some (id, group)) =
    (lookup id eligible ≡ some group)
    × (((after < id)
          × ((j : ℕ) (h : List SplitRecord) → lookup j eligible ≡ some h → after < j → id ≤ j))
        ⊎ ((j : ℕ) (h : List SplitRecord) → lookup j eligible ≡ some h → (j ≤ after) × (id ≤ j)))

pick_lem :
    (after hi : ℕ) (m : Groups) (o : Option ℕ)
    → Keys 0 hi m
    → Found after 0 m o
    → IsNext after m (get_elem? m (elim o as (λ x. ℕ) [ none ↦ 0 | some i ↦ i ]))
pick_lem after hi [] none s f = refl
pick_lem after hi ((id, g) ∷ m) none s f = (
  rw (==_refl id),
  inr (λ j h x. (f j h x, least id hi j h ((id, g) ∷ m) (omega arith, s.1, s.2) x)),
)
pick_lem after hi m (some n) s (k, id, g, a, b, c, d, z) =
    let same : n ≡ k = omega arith in rw (same, b) (c, inl (d, z))

-- For stream ids below some bound, the choice is the group of the eligible stream with the least
-- id past the cursor, or of the eligible stream with the least id when none is past it; no group
-- is chosen only if no stream is eligible.
pub select_merge_group-IsNext :
    (small : List SplitRecord) (target_bytes max_group after_stream hi : ℕ)
    → All (λ s. s.stream_id < hi) small
    → IsNext after_stream
        (eligible_of target_bytes max_group (group_by_stream [] small))
        (select_merge_group small target_bytes max_group after_stream)
unfolding select_merge_group
select_merge_group-IsNext small target_bytes max_group after_stream hi h =
    let eligible = eligible_of target_bytes max_group (group_by_stream [] small) in
    let keys =
      Keys-eligible_of target_bytes max_group 0 hi (group_by_stream [] small)
        (Keys-group_by_stream hi [] small h tt) in
    pick_lem after_stream hi eligible (position (λ e. ltb after_stream e.0) 0 eligible) keys
      (position-Found after_stream 0 0 hi eligible keys)
