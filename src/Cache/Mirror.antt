-- ===== src/Cache/Mirror.antt =====
-- `entries` and `by_tick` mirror each other, and `total_bytes` is the sum of the sizes.
use mathlib.Core.Path.{subst}
use r_search.Base.{
  ℕ, suc, ◌+◌, ◌-◌, ◌<◌, ◌≡◌, refl, sym, ap, ◌∙◌, inl, inr, max, true, false, [], ◌∷◌, none, some,
  arith, ltb, ◌==◌, Bool-cases, Option-cases, ==_iff, TreeMap, lookup, insert, remove, modify,
  lookup-insert, lookup-remove, Keys, Keys-mono, Keys-insert, Keys-remove, lookup_below,
  lookup_above,
}
use r_search.Cache.{DiskState, touch, forget, insert_entry}

abbrev pub sizes : TreeMap (ℕ × ℕ) → ℕ
sizes [] = 0
sizes ((k, e) ∷ m) = e.0 + sizes m

remove_absent :
    (k lo hi : ℕ) (m : TreeMap (ℕ × ℕ)) → k < lo → Keys lo hi m → sizes (remove k m) ≡ sizes m
remove_absent k lo hi [] h s = refl
remove_absent k lo hi ((j, e) ∷ m) h (low, high, s) =
    ground (arith, remove_absent k (suc j) hi m (omega arith) s)

pub sizes-remove :
    (k lo hi : ℕ) (e : ℕ × ℕ) (m : TreeMap (ℕ × ℕ))
    → Keys lo hi m
    → lookup k m ≡ some e
    → sizes (remove k m) + e.0 ≡ sizes m
sizes-remove k lo hi e [] s h = absurd (grind arith)
sizes-remove k lo hi e ((j, e') ∷ m) (low, high, s) h = elim (Bool-cases (j == k)) [
  | inl f ↦ ground (arith, remove_absent k (suc j) hi m (ground arith) s)
  | inr f ↦ ground (arith, sizes-remove k (suc j) hi e m s (ground arith))
]

pub sizes-insert :
    (k lo hi : ℕ) (e : ℕ × ℕ) (m : TreeMap (ℕ × ℕ))
    → Keys lo hi m
    → sizes (insert k e m) + (elim (lookup k m) [ none ↦ 0 | some old ↦ old.0 ]) ≡ sizes m + e.0
sizes-insert k lo hi e [] s = omega arith
sizes-insert k lo hi e ((j, e') ∷ m) (low, high, s) =
    ground
      (arith, sizes-insert k (suc j) hi e m s, λ (h : k < suc j). lookup_below k (suc j) hi m h s)

remove_front : (k lo hi : ℕ) (m : TreeMap (ℕ × ℕ)) → k < lo → Keys lo hi m → remove k m ≡ m
remove_front k lo hi [] h s = refl
remove_front k lo hi ((j, e) ∷ m) h (low, high, s) =
    let f : (j == k) ≡ false = ground arith in
    rw f (ap (λ r. (j, e) ∷ r) (remove_front k (suc j) hi m (omega arith) s))

modify_front :
    (k lo hi : ℕ) (f : (ℕ × ℕ) → ℕ × ℕ) (m : TreeMap (ℕ × ℕ))
    → k < lo
    → Keys lo hi m
    → modify k f m ≡ m
modify_front k lo hi f [] h s = refl
modify_front k lo hi f ((j, e) ∷ m) h (low, high, s) =
    let g : (j == k) ≡ false = ground arith in
    rw g (ap (λ r. (j, e) ∷ r) (modify_front k (suc j) hi f m (omega arith) s))

insert_front :
    (k lo hi : ℕ) (e : ℕ × ℕ) (m : TreeMap (ℕ × ℕ))
    → k < lo
    → Keys lo hi m
    → insert k e m ≡ (k, e) ∷ m
insert_front k lo hi e [] h s = refl
insert_front k lo hi e ((j, e') ∷ m) h (low, high, s) =
    let f : ltb k j ≡ true = ground arith in rw f

-- A new value for a key, as an insertion into the map without it.
insert-remove :
    (k lo hi : ℕ) (e : ℕ × ℕ) (m : TreeMap (ℕ × ℕ))
    → Keys lo hi m
    → insert k e (remove k m) ≡ insert k e m
insert-remove k lo hi e [] s = refl
insert-remove k lo hi e ((j, e') ∷ m) (low, high, s) = elim (Bool-cases (j == k)) [
  | inl f ↦
      let g : ltb k j ≡ false = ground arith in
      rw (f, g, remove_front k (suc j) hi m (ground arith) s)
        (insert_front k (suc j) hi e m (ground arith) s)
  | inr f ↦ elim (Bool-cases (ltb k j)) [
    | inl g ↦ rw (f, remove_front k (suc j) hi m (ground arith) s, g)
    | inr g ↦ rw (f, g, f) (ap (λ r. (j, e') ∷ r) (insert-remove k (suc j) hi e m s))
  ]
]

modify-insert :
    (k lo hi : ℕ) (f : (ℕ × ℕ) → ℕ × ℕ) (e : ℕ × ℕ) (m : TreeMap (ℕ × ℕ))
    → Keys lo hi m
    → lookup k m ≡ some e
    → modify k f m ≡ insert k (f e) m
modify-insert k lo hi f e [] s h = absurd (grind arith)
modify-insert k lo hi f e ((j, e') ∷ m) (low, high, s) h = elim (Bool-cases (j == k)) [
  | inl g ↦
      let same : j ≡ k = ground arith in
      let least : ltb k j ≡ false = ground arith in
      let there : e' ≡ e = grind arith in
      rw (g, least, there, same)
        (ap (λ r. (k, f e) ∷ r) (modify_front k (suc j) hi f m (ground arith) s))
  | inr g ↦
      let there : lookup k m ≡ some e = grind arith in
      let above : ltb k j ≡ false = elim (Bool-cases (ltb k j)) [
        | inl z ↦ absurd (grind (arith, lookup_below k (suc j) hi m (ground arith) s))
        | inr z ↦ z
      ] in
      rw (g, above) (ap (λ r. (j, e') ∷ r) (modify-insert k (suc j) hi f e m s there))
]

-- The invariant of the disk tier's bookkeeping.
pub record IsMirror (state : DiskState) : Type 0 where
  pub bound : ℕ
  pub keys : Keys 0 bound state.entries
  pub ticks : Keys 0 (suc state.tick) state.by_tick
  pub forth : (k s t : ℕ) → lookup k state.entries ≡ some (s, t) → lookup t state.by_tick ≡ some k
  pub back :
      (t k : ℕ) → lookup t state.by_tick ≡ some k → (s : ℕ) × (lookup k state.entries ≡ some (s, t))
  pub total : state.total_bytes ≡ sizes state.entries

module _ (state : DiskState) (v : IsMirror state) where
  -- No tick is above the counter.
  fresh_tick : lookup (suc state.tick) state.by_tick ≡ none
  fresh_tick = lookup_above (suc state.tick) 0 (suc state.tick) state.by_tick (omega arith) v.ticks

  -- Dropping a block from both maps, with its size, keeps the mirror.
  pub drop-IsMirror :
      (key size tick : ℕ)
      → lookup key state.entries ≡ some (size, tick)
      → IsMirror (record state {
        entries = remove key state.entries;
        by_tick = remove tick state.by_tick;
        total_bytes = state.total_bytes - size;
      })
  drop-IsMirror key size tick e = record {
    bound = v.bound;
    keys = Keys-remove 0 v.bound key state.entries v.keys;
    ticks = Keys-remove 0 (suc state.tick) tick state.by_tick v.ticks;
    forth = λ k s t h. elim (Bool-cases (key == k)) [
      | inl f ↦ absurd (grind (arith, lookup-remove key k state.entries))
      | inr f ↦
          let e' : lookup k state.entries ≡ some (s, t) =
            grind (arith, lookup-remove key k state.entries) in
          elim (Bool-cases (tick == t)) [
            | inl g ↦ absurd (grind (arith, v.forth k s t e', v.forth key size tick e))
            | inr g ↦ grind (arith, v.forth k s t e', lookup-remove tick t state.by_tick)
          ]
    ];
    back = λ t k h. elim (Bool-cases (tick == t)) [
      | inl f ↦ absurd (grind (arith, lookup-remove tick t state.by_tick))
      | inr f ↦
          let h' : lookup t state.by_tick ≡ some k =
            grind (arith, lookup-remove tick t state.by_tick) in
          let (s, e') = v.back t k h' in
          elim (Bool-cases (key == k)) [
            | inl g ↦ absurd (grind arith)
            | inr g ↦ (s, grind (arith, lookup-remove key k state.entries))
          ]
    ];
    total = omega (arith, v.total, sizes-remove key 0 v.bound (size, tick) state.entries v.keys e);
  }

  -- Forgetting any block, held or not, keeps entries and by_tick mirrors of each other and
  -- total_bytes the sum of the sizes.
  pub forget-IsMirror : (key : ℕ) → IsMirror (forget key state)
  unfolding forget
  forget-IsMirror key = elim (Option-cases (lookup key state.entries)) [
    | inl e ↦ rw (e, forget) v
    | inr (entry, e) ↦ rw (e, forget) (drop-IsMirror key entry.0 entry.1 e)
  ]

  -- A new tick for an absent block of any size.
  add-IsMirror :
      (key size : ℕ)
      → lookup key state.entries ≡ none
      → IsMirror (record {
        entries = insert key (size, state.tick + 1) state.entries;
        by_tick = insert (state.tick + 1) key state.by_tick;
        total_bytes = state.total_bytes + size;
        tick = state.tick + 1;
      })
  add-IsMirror key size e = record {
    bound = max v.bound (suc key);
    keys =
        Keys-insert 0 (max v.bound (suc key)) key (size, state.tick + 1) state.entries (omega arith)
          (omega arith)
          (Keys-mono 0 0 v.bound (max v.bound (suc key)) state.entries (omega arith) (omega arith)
            v.keys);
    ticks =
        Keys-insert 0 (suc (state.tick + 1)) (state.tick + 1) key state.by_tick (omega arith)
          (omega arith)
          (Keys-mono 0 0 (suc state.tick) (suc (state.tick + 1)) state.by_tick (omega arith)
            (omega arith) v.ticks);
    forth = λ k s t h. elim (Bool-cases (key == k)) [
      | inl f ↦ grind (
        arith,
        lookup-insert key k (size, state.tick + 1) state.entries,
        lookup-insert (state.tick + 1) t key state.by_tick,
      )
      | inr f ↦
          let e' : lookup k state.entries ≡ some (s, t) =
            grind (arith, lookup-insert key k (size, state.tick + 1) state.entries) in
          elim (Bool-cases (state.tick + 1 == t)) [
            | inl g ↦
                let same : t ≡ suc state.tick = ground arith in
                absurd (
                  grind
                    (arith, v.forth k s t e', fresh_tick, ap (λ n. lookup n state.by_tick) same))
            | inr g ↦
                grind (arith, v.forth k s t e', lookup-insert (state.tick + 1) t key state.by_tick)
          ]
    ];
    back = λ t k h. elim (Bool-cases (state.tick + 1 == t)) [
      | inl f ↦ (
        size,
        grind (
          arith,
          lookup-insert key k (size, state.tick + 1) state.entries,
          lookup-insert (state.tick + 1) t key state.by_tick,
        ),
      )
      | inr f ↦
          let h' : lookup t state.by_tick ≡ some k =
            grind (arith, lookup-insert (state.tick + 1) t key state.by_tick) in
          let (s, e') = v.back t k h' in
          elim (Bool-cases (key == k)) [
            | inl g ↦ absurd (grind (arith, ap (λ n. lookup n state.entries) ((==_iff key k).0 g)))
            | inr g ↦ (s, grind (arith, lookup-insert key k (size, state.tick + 1) state.entries))
          ]
    ];
    total =
        grind
          (arith, v.total, sizes-insert key 0 v.bound (size, state.tick + 1) state.entries v.keys);
  }

module _ (state : DiskState) (v : IsMirror state) where
  -- A touch of any block, held or not, keeps entries and by_tick mirrors of each other and
  -- total_bytes the sum of the sizes.
  pub touch-IsMirror : (key : ℕ) → IsMirror (touch key state).0
  unfolding touch
  touch-IsMirror key = elim (Option-cases (lookup key state.entries)) [
    | inl e ↦
        rw (e, touch)
          (record {
            bound = v.bound;
            keys = v.keys;
            ticks =
                Keys-mono 0 0 (suc state.tick) (suc (state.tick + 1)) state.by_tick (omega arith)
                  (omega arith) v.ticks;
            forth = v.forth;
            back = v.back;
            total = v.total;
          })
    | inr (entry, e) ↦
        let dropped = drop-IsMirror state v key entry.0 entry.1 e in
        let gone : lookup key (remove key state.entries) ≡ none =
          ground (arith, lookup-remove key key state.entries) in
        let added = add-IsMirror _ dropped key entry.0 gone in
        let same_entries : insert key (entry.0, state.tick + 1) (remove key state.entries)
            ≡ modify key (λ x. (x.0, state.tick + 1)) state.entries =
          insert-remove key 0 v.bound (entry.0, state.tick + 1) state.entries v.keys
          ∙ sym (
              modify-insert key 0 v.bound (λ x. (x.0, state.tick + 1)) entry state.entries v.keys
                e) in
        let same_total : state.total_bytes - entry.0 + entry.0 ≡ state.total_bytes =
          omega (arith, v.total, sizes-remove key 0 v.bound entry state.entries v.keys e) in
        rw (e, touch)
          (subst {A = TreeMap (ℕ × ℕ) × ℕ}
            (λ x. IsMirror (record {
              entries = x.0;
              by_tick = insert (state.tick + 1) key (remove entry.1 state.by_tick);
              total_bytes = x.1;
              tick = state.tick + 1;
            }))
            (λ i. (same_entries i, same_total i)) added)
  ]

  pub insert_entry-IsMirror : (key size : ℕ) → IsMirror (insert_entry key size state)
  unfolding insert_entry
  insert_entry-IsMirror key size = elim (Option-cases (lookup key state.entries)) [
    | inl e ↦ rw (e, insert_entry) (add-IsMirror state v key size e)
    | inr (entry, e) ↦
        let dropped = drop-IsMirror state v key entry.0 entry.1 e in
        let gone : lookup key (remove key state.entries) ≡ none =
          ground (arith, lookup-remove key key state.entries) in
        let added = add-IsMirror _ dropped key size gone in
        rw (e, insert_entry)
          (subst
            (λ m. IsMirror (record {
              entries = m;
              by_tick = insert (state.tick + 1) key (remove entry.1 state.by_tick);
              total_bytes = state.total_bytes - entry.0 + size;
              tick = state.tick + 1;
            }))
            (insert-remove key 0 v.bound (size, state.tick + 1) state.entries v.keys) added)
  ]
