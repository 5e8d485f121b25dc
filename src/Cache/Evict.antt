-- ===== src/Cache/Evict.antt =====
-- The loop of evictions: it ends within the budget, or with nothing but the block just written.
use mathlib.Core.Path.{subst}
use r_search.Base.{
  ℕ, zero, suc, ◌+◌, ◌-◌, ◌≤◌, ◌<◌, ◌≡◌, refl, sym, ap, ◌∙◌, ◌⊎◌, inl, inr, List, [], ◌∷◌, ◌++◌,
  Option, some, arith, ltb, ◌==◌, ==_iff, ==_refl, Bool-cases, Option-cases, length, TreeMap,
  lookup, remove, lookup-insert, lookup-remove, Keys,
}
use r_search.Cache.{DiskState, insert_entry, Evicted, evicted, panicked, evict_loop, insert_block}
use r_search.Cache.Mirror.{IsMirror, drop-IsMirror, insert_entry-IsMirror}

-- The bookkeeping after an insertion of `key`: in order, with the block as the newest, and within
-- the budget unless nothing else is held.
abbrev pub Settles : ℕ → ℕ → Evicted → Type 0
Settles max_bytes key panicked = ⊥
Settles max_bytes key (evicted state victims) =
    IsMirror state
    × ((size : ℕ) × (lookup key state.entries ≡ some (size, state.tick)))
    × ((state.total_bytes ≤ max_bytes)
        ⊎ ((k : ℕ) (e : ℕ × ℕ) → lookup k state.entries ≡ some e → k ≡ key))

length-remove : (k : ℕ) (m : TreeMap ℕ) → length (remove k m) ≤ length m
length-remove k [] = omega arith
length-remove k ((j, v) ∷ m) = ground (arith, length-remove k m)

map-cases : (m : TreeMap ℕ) → (m ≡ []) ⊎ ((t v : ℕ) × (rest : TreeMap ℕ) × (m ≡ (t, v) ∷ rest))
map-cases [] = inl refl
map-cases ((t, v) ∷ rest) = inr (t, v, rest, refl)

none_past : (lo hi : ℕ) (m : TreeMap ℕ) → hi ≤ lo → Keys lo hi m → m ≡ []
none_past lo hi [] h s = refl
none_past lo hi ((j, v) ∷ m) h (low, high, s) = absurd (omega arith)

module _ (max_bytes key : ℕ) where
  abbrev of_parts : TreeMap (ℕ × ℕ) → TreeMap ℕ → ℕ → ℕ → DiskState
  of_parts entries by_tick total tick = record {
    entries = entries;
    by_tick = by_tick;
    total_bytes = total;
    tick = tick;
  }

  -- When the oldest block is the newest one, it is the only one.
  oldest_newest :
      (entries : TreeMap (ℕ × ℕ)) (size t total tick : ℕ) (rest : TreeMap ℕ)
      → IsMirror (of_parts entries ((t, key) ∷ rest) total tick)
      → lookup key entries ≡ some (size, tick)
      → (rest ≡ []) × ((k : ℕ) (e : ℕ × ℕ) → lookup k entries ≡ some e → k ≡ key)
  oldest_newest entries size t total tick rest v e =
      let (s, e') = v.back t key (rw (==_refl t)) in
      let newest : tick ≡ t = same_tick s (sym e ∙ e') in
      let empty = none_past (suc t) (suc tick) rest (omega arith) v.ticks.2 in
      (
        empty,
        λ k x h.
            only k x
              (ap (λ (r : TreeMap ℕ). lookup x.1 ((t, key) ∷ r)) (sym empty) ∙ v.forth k x.0 x.1 h),
      )
    where
      same_tick : (s : ℕ) → ◌≡◌ {A = Option (ℕ × ℕ)} (some (size, tick)) (some (s, t)) → tick ≡ t
      same_tick s h = grind arith

      only : (k : ℕ) (x : ℕ × ℕ) → lookup x.1 ((t, key) ∷ []) ≡ some k → k ≡ key
      only k x h = grind arith

  evict_loop-Settles :
      (fuel size : ℕ) (victims : List ℕ) (entries : TreeMap (ℕ × ℕ)) (by_tick : TreeMap ℕ)
      (total tick : ℕ)
      → length by_tick < fuel
      → IsMirror (of_parts entries by_tick total tick)
      → lookup key entries ≡ some (size, tick)
      → Settles max_bytes key
          (evict_loop fuel max_bytes key victims (of_parts entries by_tick total tick))
  unfolding evict_loop
  evict_loop-Settles zero size victims entries by_tick total tick f v e = absurd (omega arith)
  evict_loop-Settles (suc fuel) size victims entries [] total tick f v e =
      absurd (grind (arith, v.forth key size tick e))
  evict_loop-Settles (suc fuel) size victims entries ((t, victim) ∷ rest) total tick f v e =
      elim (Bool-cases (ltb max_bytes total)) [
        | inr fits ↦ rw (fits, evict_loop) (v, (size, e), inl (ground arith))
        | inl over ↦ elim (Bool-cases (victim == key)) [
          | inl same ↦
              (let vk = (==_iff victim key).0 same in
                let (empty, only) =
                  oldest_newest entries size t total tick rest
                    (subst (λ x. IsMirror (of_parts entries ((t, x) ∷ rest) total tick)) vk v) e in
                let mirror =
                  subst (λ r. IsMirror (of_parts entries ((t, victim) ∷ r) total tick)) empty v in
                rw (over, same, ==_refl t, empty, evict_loop) (mirror, (size, e), inr only))
          | inr other ↦
              let (s, e') = v.back t victim (rw (==_refl t)) in
              let dropped =
                drop-IsMirror (of_parts entries ((t, victim) ∷ rest) total tick) v victim s t e' in
              let kept : lookup key (remove victim entries) ≡ some (size, tick) =
                rw (lookup-remove victim key entries, other) e in
              rw (over, other, e', evict_loop)
                (evict_loop-Settles fuel size (victims ++ victim ∷ []) (remove victim entries)
                  (remove t ((t, victim) ∷ rest)) (total - s) tick
                  (rw (==_refl t) (omega (arith, length-remove t rest))) dropped kept)
        ]
      ]

  insert_entry_newest :
      (size : ℕ) (state : DiskState)
      → lookup key (insert_entry key size state).entries
        ≡ some (size, (insert_entry key size state).tick)
  unfolding insert_entry
  insert_entry_newest size state = elim (Option-cases (lookup key state.entries)) [
    | inl e ↦
        rw (e, insert_entry)
          (ground (arith, lookup-insert key key (size, state.tick + 1) state.entries))
    | inr (old, e) ↦
        rw (e, insert_entry)
          (ground (arith, lookup-insert key key (size, state.tick + 1) state.entries))
  ]

  -- From bookkeeping in which entries and by_tick mirror each other and total_bytes is the sum of
  -- the sizes, the insertion of a block never panics and ends in such bookkeeping, with the block
  -- held at the newest tick, and within the byte budget unless no other block is held.
  pub insert_block-Settles :
      (size : ℕ) (state : DiskState)
      → IsMirror state
      → Settles max_bytes key (insert_block max_bytes key size state)
  unfolding insert_block
  insert_block-Settles size state v =
      let grown = insert_entry key size state in
      evict_loop-Settles (suc (length grown.by_tick)) size [] grown.entries grown.by_tick
        grown.total_bytes grown.tick (omega arith) (insert_entry-IsMirror state v key size)
        (insert_entry_newest size state)
