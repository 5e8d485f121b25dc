-- ===== src/Split/Directory/Read.antt =====
-- `DirectoryInner::read` of crates/rsearch-index/src/storage_directory.rs over a block cache. Other
-- readers enter as an environment: which blocks they have claimed in each pass, and what they do to
-- the cache before the next one.
pub mod Assemble
pub mod Span
pub mod Slots
pub mod Correct
pub mod Progress
pub mod Returns
use r_search.Base.{
  ℕ, zero, suc, ◌+◌, ◌-◌, ◌*◌, ◌/◌, ◌^◌, ◌≤◌, ◌<◌, ◌≡◌, min, Bool, true, false, ◌&&◌, ◌||◌, not,
  List, [], ◌∷◌, ◌++◌, Option, none, some, ltb, leb, ◌==◌, if◌then◌else◌, length, take, drop, slice,
  filter,
}
use r_search.Split.Directory.{
  Bytes, FileSpan, IoError, invalid_input, Io, ok, err, block_len, Store, fetch,
}

-- `get_block` and `put_block` at the blocks of one file, over the cache's state.
pub record BlockCache : Type 1 where
  pub State : Type 0
  pub get_block : ℕ → ℕ → State → Option Bytes × State
  pub put_block : ℕ → Bytes → State → State

abbrev pub Slots : Type 0
Slots = List (Option Bytes)

abbrev pub no_read : ℕ
no_read = 2 ^ 64 - 1

unfoldable pub continues_sequential_read : ℕ → ℕ → Bool
continues_sequential_read last_block first =
    not (last_block == no_read) && (first == last_block || first == last_block + 1)

abbrev pub empty_slots : ℕ → Slots
empty_slots zero = []
empty_slots (suc n) = none ∷ empty_slots n

abbrev pub set_slot : ℕ → Bytes → Slots → Slots
set_slot i b [] = []
set_slot zero b (o ∷ slots) = some b ∷ slots
set_slot (suc i) b (o ∷ slots) = o ∷ set_slot i b slots

-- The fetched blocks inside `first..=last` go to their slots; read-ahead blocks do not.
unfoldable pub place : ℕ → ℕ → List (ℕ × Bytes) → Slots → Slots
place first last [] slots = slots
place first last ((index, b) ∷ ps) slots =
    place first last ps
      (if leb first index && leb index last then set_slot (index - first) b slots else slots)

abbrev pub unwrap_all : Slots → Option (List Bytes)
unwrap_all [] = some []
unwrap_all (none ∷ slots) = none
unwrap_all (some b ∷ slots) = elim (unwrap_all slots) [ none ↦ none | some bs ↦ some (b ∷ bs) ]

-- The loop over the blocks that copies the wanted part of each.
unfoldable pub copy_out : ℕ → ℕ → ℕ → ℕ → List Bytes → Bytes
copy_out start end block_size index [] = []
copy_out start end block_size index (b ∷ bs) =
    let block_start = index * block_size in
    slice b (start - block_start) (min (end - block_start) (length b))
    ++ copy_out start end block_size (index + 1) bs

unfoldable pub assemble : ℕ → ℕ → ℕ → ℕ → List Bytes → Bytes
assemble start end block_size first (only ∷ []) =
    let from = start - first * block_size in slice only from (from + (end - start))
assemble start end block_size first blocks = copy_out start end block_size first blocks

pub data Outcome (S : Type 0) : Type 0 where
  done : Bytes → ℕ → S → Outcome S
  failed : IoError → Outcome S
  panicked : Outcome S
  waiting : Outcome S

module _ (cache : BlockCache) (get_range : Store) (span : FileSpan) (block_size : ℕ) where
  open cache use {State, get_block, put_block}

  -- One pass over the slots: what the cache has is filled in, the rest is missing.
  unfoldable pub load : ℕ → Slots → State → Slots × List ℕ × State
  load index [] s = ([], [], s)
  load index (some b ∷ slots) s =
      let (filled, missing, s') = load (index + 1) slots s in (some b ∷ filled, missing, s')
  load index (none ∷ slots) s =
      let (got, s1) = get_block index (block_len span.len block_size index) s in
      let (filled, missing, s2) = load (index + 1) slots s1 in
      elim got [
        | some b ↦ (some b ∷ filled, missing, s2)
        | none ↦ (none ∷ filled, index ∷ missing, s2)
      ]

  abbrev pub put_all : List (ℕ × Bytes) → State → State
  put_all [] s = s
  put_all ((index, b) ∷ ps) s = put_all ps (put_block index b s)

  -- The claimed blocks are fetched and stored; with no claim nothing is read.
  unfoldable pub fetch_mine : List ℕ → ℕ → State → Io (List (ℕ × Bytes) × State)
  fetch_mine [] readahead s = ok ([], s)
  fetch_mine (i ∷ is) readahead s = elim (fetch get_range span block_size (i ∷ is) readahead) [
    | err e ↦ err e
    | ok ps ↦ ok (ps, put_all ps s)
  ]

  -- The loop, by passes. Blocks that others claimed are awaited until the next pass.
  unfoldable pub read_loop :
      (ℕ → ℕ → Bool)
      → (ℕ → State → State)
      → ℕ
      → ℕ
      → ℕ
      → ℕ
      → ℕ
      → Slots
      → State
      → Option (Io (Slots × State))
  read_loop busy meanwhile first last readahead zero pass slots s = none
  read_loop busy meanwhile first last readahead (suc fuel) pass slots s =
      let (filled, missing, s1) = load first slots s in
      elim missing [
        | [] ↦ some (ok (filled, s1))
        | m ∷ ms ↦ elim (fetch_mine (filter (λ i. not (busy pass i)) (m ∷ ms)) readahead s1) [
          | err e ↦ some (err e)
          | ok (ps, s2) ↦
              read_loop busy meanwhile first last readahead fuel (pass + 1)
                (place first last ps filled) (meanwhile pass s2)
        ]
      ]

  -- What follows the loop: the blocks are unwrapped and the wanted range is copied.
  unfoldable pub finish_read : ℕ → ℕ → Option (Io (Slots × State)) → Outcome State
  finish_read start end none = waiting
  finish_read start end (some (err e)) = failed e
  finish_read start end (some (ok (slots, s))) = elim (unwrap_all slots) [
    | none ↦ panicked
    | some blocks ↦
        done (assemble start end block_size (start / block_size) blocks) ((end - 1) / block_size) s
  ]

  -- `read(start..end)` with the handle's `last_block`.
  unfoldable pub read :
      (ℕ → ℕ → Bool) → (ℕ → State → State) → ℕ → ℕ → ℕ → ℕ → ℕ → State → Outcome State
  read busy meanwhile fuel readahead_blocks last_block start end s =
      if ltb end start || ltb span.len end
      then failed invalid_input
      else if start == end
      then done [] last_block s
      else let first = start / block_size in
        let last = (end - 1) / block_size in
        let readahead =
          if ltb 0 readahead_blocks && continues_sequential_read last_block first
          then readahead_blocks
          else 0 in
        finish_read start end
          (read_loop busy meanwhile first last readahead fuel 0 (empty_slots (last - first + 1)) s)
