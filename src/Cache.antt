-- ===== src/Cache.antt =====
-- The disk tier of the block cache in crates/rsearch-index/src/cache.rs: its bookkeeping under the
-- lock. A block key, compared for equality only, is a number; so is a tick.
pub mod Mirror
pub mod Evict
mod Tests
use r_search.Base.{
  ℕ, zero, suc, ◌+◌, ◌-◌, Bool, true, false, List, [], ◌∷◌, ◌++◌, Option, none, some, ltb, ◌==◌,
  if◌then◌else◌, length, TreeMap, lookup, insert, remove, modify,
}

-- `entries` has each block's size and last tick; `by_tick` has the block of each last tick.
pub record DiskState : Type 0 where
  pub entries : TreeMap (ℕ × ℕ)
  pub by_tick : TreeMap ℕ
  pub total_bytes : ℕ
  pub tick : ℕ

unfoldable pub touch : ℕ → DiskState → DiskState × Bool
touch key state =
    let tick = state.tick + 1 in
    elim (lookup key state.entries) [
      | none ↦ (record state { tick = tick }, false)
      | some entry ↦ (
        record state {
          tick = tick;
          entries = modify key (λ e. (e.0, tick)) state.entries;
          by_tick = insert tick key (remove entry.1 state.by_tick);
        },
        true,
      )
    ]

unfoldable pub forget : ℕ → DiskState → DiskState
forget key state = elim (lookup key state.entries) [
  | none ↦ state
  | some entry ↦ record state {
    entries = remove key state.entries;
    total_bytes = state.total_bytes - entry.0;
    by_tick = remove entry.1 state.by_tick;
  }
]

-- The block's entry before the loop of evictions.
unfoldable pub insert_entry : ℕ → ℕ → DiskState → DiskState
insert_entry key size state =
    let tick = state.tick + 1 in
    let entries = insert key (size, tick) state.entries in
    elim (lookup key state.entries) [
      | none ↦ record {
        entries = entries;
        by_tick = insert tick key state.by_tick;
        total_bytes = state.total_bytes + size;
        tick = tick;
      }
      | some old ↦ record {
        entries = entries;
        by_tick = insert tick key (remove old.1 state.by_tick);
        total_bytes = state.total_bytes - old.0 + size;
        tick = tick;
      }
    ]

pub data Evicted : Type 0 where
  evicted : DiskState → List ℕ → Evicted
  panicked : Evicted

-- The loop of evictions past the budget, with the victims so far; a round drops a block or ends.
unfoldable pub evict_loop : ℕ → ℕ → ℕ → List ℕ → DiskState → Evicted
evict_loop zero max_bytes key victims state = evicted state victims
evict_loop (suc fuel) max_bytes key victims state =
    if ltb max_bytes state.total_bytes
    then elim state.by_tick [
      | [] ↦ evicted state victims
      | (victim_tick, victim) ∷ rest ↦
          let by_tick = remove victim_tick state.by_tick in
          if victim == key
          then evicted (record state { by_tick = insert victim_tick victim by_tick }) victims
          else elim (lookup victim state.entries) [
            | none ↦ panicked
            | some entry ↦ evict_loop fuel max_bytes key (victims ++ victim ∷ []) (record state {
              entries = remove victim state.entries;
              by_tick = by_tick;
              total_bytes = state.total_bytes - entry.0;
            })
          ]
    ]
    else evicted state victims

-- The part of `insert` under the lock; the loop has as many rounds as there are ticks, at most.
unfoldable pub insert_block : ℕ → ℕ → ℕ → DiskState → Evicted
insert_block max_bytes key size state =
    let grown = insert_entry key size state in
    evict_loop (suc (length grown.by_tick)) max_bytes key [] grown
