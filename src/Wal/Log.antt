-- ===== src/Wal/Log.antt =====
-- The segments of crates/rsearch-ingest/src/wal.rs and the operations of `Wal`. The directory is a
-- map from segment numbers to files; a file has its content, the buffered writer's part included,
-- and the length that the last `sync_data` covered. File operations succeed; u64 counters do not
-- reach 2^64. `append_batch` is cut where it releases its lock: `write_phase`, `finish`, `commit`.
pub mod Counts
pub mod Victims
pub mod Batches
pub mod Calls
pub mod Confirm
pub mod History
pub mod Open
pub mod Durable
pub mod Race
use mathlib.Core.List.{foldl}
use r_search.Base.{
  ℕ, zero, suc, ◌+◌, ◌-◌, Bool, true, false, ◌&&◌, List, [], ◌∷◌, ◌++◌, map, Option, none, some,
  ltb, leb, ◌==◌, if◌then◌else◌, length, filter, TreeMap, lookup, insert, remove, modify, max,
}
use r_search.Wal.Frame.{
  Bytes, External, WalItem, WalRecord, too_long, frame, payload_len, count_records, replay_segment,
}

pub record SegmentState : Type 0 where
  pub outstanding : ℕ
  pub sealed : Bool

pub record SegmentFile : Type 0 where
  pub content : Bytes
  pub durable : ℕ

pub record Wal : Type 0 where
  pub max_segment_bytes : ℕ
  pub current_seq : ℕ
  pub current_len : ℕ
  pub segments : TreeMap SegmentState
  pub written : ℕ
  pub synced : ℕ
  pub disk : TreeMap SegmentFile

pub data AppendError : Type 0 where
  item_too_long current_untracked : AppendError

-- The local variables of `append_batch` beside the log.
pub record Batch : Type 0 where
  pub wal : Wal
  pub sealed : List ℕ
  pub victims : List ℕ
  pub positions : List ℕ

-- What `append_batch` carries out of its locked block.
pub record Ticket : Type 0 where
  pub fd : ℕ
  pub gen : ℕ
  pub sealed : List ℕ
  pub victims : List ℕ
  pub positions : List ℕ

-- `create(true).append(true)`: a file that is there keeps its content.
unfoldable pub open_append : ℕ → TreeMap SegmentFile → TreeMap SegmentFile
open_append seq disk = elim (lookup seq disk) [
  | none ↦ insert seq (record { content = []; durable = 0 }) disk
  | some file ↦ disk
]

unfoldable pub sync_file : TreeMap SegmentFile → ℕ → TreeMap SegmentFile
sync_file disk seq = modify seq (λ file. record file { durable = length file.content }) disk

abbrev pub unlink : TreeMap SegmentFile → ℕ → TreeMap SegmentFile
unlink disk seq = remove seq disk

abbrev pub is_confirmed : ℕ × SegmentState → Bool
is_confirmed (seq, s) = s.sealed && s.outstanding == 0

abbrev pub confirmed_seqs : TreeMap SegmentState → List ℕ
confirmed_seqs segments = map (λ e. e.0) (filter is_confirmed segments)

-- The segments left, and the paths to unlink.
unfoldable pub collect_confirmed : TreeMap SegmentState → TreeMap SegmentState × List ℕ
collect_confirmed segments =
    let seqs = confirmed_seqs segments in (foldl (λ m seq. remove seq m) segments seqs, seqs)

-- The log after the rotation, the sealed file and the segments to unlink.
unfoldable pub rotate : Wal → Wal × ℕ × List ℕ
rotate w =
    let old_seq = w.current_seq in
    let new_seq = old_seq + 1 in
    let marked = modify old_seq (λ s. record s { sealed = true }) w.segments in
    let tracked = insert new_seq (record { outstanding = 0; sealed = false }) marked in
    let (segments, victims) = collect_confirmed tracked in
    (
      record w {
        current_seq = new_seq;
        current_len = 0;
        segments = segments;
        disk = open_append new_seq w.disk;
      },
      old_seq,
      victims,
    )

-- The size test at the head of a round.
unfoldable pub maybe_rotate : Batch → Batch
maybe_rotate b =
    if leb b.wal.max_segment_bytes b.wal.current_len
    then (let (wal, old, gc) = rotate b.wal in
        record b { wal = wal; sealed = b.sealed ++ old ∷ []; victims = b.victims ++ gc })
    else b

-- The writes of one record, and its entry in the counts.
unfoldable pub write_item : External → WalItem → Batch → Batch × Option AppendError
write_item ext item b =
    let w = b.wal in
    let seq = w.current_seq in
    let grown = record w {
      disk = modify seq (λ file. record file { content = file.content ++ frame ext item }) w.disk;
      current_len = w.current_len + (8 + payload_len item);
    } in
    elim (lookup seq w.segments) [
      | none ↦ (record b { wal = grown }, some current_untracked)
      | some s ↦ (
        record b {
          wal = record grown {
            segments = modify seq (λ s. record s { outstanding = s.outstanding + 1 }) w.segments;
          };
          positions = b.positions ++ seq ∷ [];
        },
        none,
      )
    ]

-- One round of the loop over the items.
unfoldable pub append_item : External → WalItem → Batch → Batch × Option AppendError
append_item ext item b =
    let b' = maybe_rotate b in
    if too_long item then (b', some item_too_long) else write_item ext item b'

unfoldable pub append_items : External → List WalItem → Batch → Batch × Option AppendError
append_items ext [] b = (b, none)
append_items ext (item ∷ items) b =
    let (b', e) = append_item ext item b in
    elim e [ none ↦ append_items ext items b' | some error ↦ (b', some error) ]

abbrev pub start_batch : Wal → Batch
start_batch w = record { wal = w; sealed = []; victims = []; positions = [] }

pub data Written : Type 0 where
  ok : Ticket → Written
  err : AppendError → Written

-- The block under the writer lock. A failing item returns at once, with what was done so far.
unfoldable pub write_phase : External → List WalItem → Wal → Wal × Written
write_phase ext items w =
    let (b, e) = append_items ext items (start_batch w) in
    elim e [
      | some error ↦ (b.wal, err error)
      | none ↦
          let gen = b.wal.written + length items in
          (
            record b.wal { written = gen },
            ok (record {
              fd = b.wal.current_seq;
              gen = gen;
              sealed = b.sealed;
              victims = b.victims;
              positions = b.positions;
            }),
          )
    ]

-- Sync the rotated-out segments, then unlink the exhausted ones.
unfoldable pub finish : Ticket → Wal → Wal
finish t w = record w { disk = foldl unlink (foldl sync_file w.disk t.sealed) t.victims }

-- The group commit.
unfoldable pub commit : Ticket → Wal → Wal
commit t w =
    if ltb w.synced t.gen
    then record w { disk = sync_file w.disk t.fd; synced = max w.synced w.written }
    else w

pub data Appended : Type 0 where
  acked : List ℕ → Appended
  failed : AppendError → Appended

abbrev pub after_lock : Wal × Written → Wal × Appended
after_lock (w, err e) = (w, failed e)
after_lock (w, ok t) = (commit t (finish t w), acked t.positions)

-- `append_batch` with no other thread between its phases.
unfoldable pub append_batch : External → List WalItem → Wal → Wal × Appended
append_batch ext items w = after_lock (write_phase ext items w)

abbrev pub confirm_one : TreeMap SegmentState → ℕ → TreeMap SegmentState
confirm_one segments seq = modify seq (λ s. record s { outstanding = s.outstanding - 1 }) segments

unfoldable pub confirm : List ℕ → Wal → Wal
confirm positions w =
    let (segments, victims) = collect_confirmed (foldl confirm_one w.segments positions) in
    record w { segments = segments; disk = foldl unlink w.disk victims }

abbrev pub segment_count : Wal → ℕ
segment_count w = length w.segments

unfoldable pub total : TreeMap SegmentState → ℕ
total [] = 0
total ((seq, s) ∷ m) = s.outstanding + total m

abbrev pub outstanding : Wal → ℕ
outstanding w = total w.segments

-- The counting pass over the files of the directory, in order of their numbers.
unfoldable pub recount : External → TreeMap SegmentFile → TreeMap SegmentState
recount ext [] = []
recount ext ((seq, file) ∷ disk) =
    (seq, record { outstanding = count_records ext file.content; sealed = true }) ∷ recount ext disk

unfoldable pub next_seq : TreeMap SegmentFile → ℕ
next_seq [] = 0
next_seq ((seq, file) ∷ []) = seq + 1
next_seq (first ∷ second ∷ disk) = next_seq (second ∷ disk)

-- `Wal::open` and the records that its replay yields.
unfoldable pub open_wal : External → ℕ → TreeMap SegmentFile → Wal
open_wal ext max_bytes disk =
    let current = next_seq disk in
    record {
      max_segment_bytes = max_bytes;
      current_seq = current;
      current_len = 0;
      segments = insert current (record { outstanding = 0; sealed = false }) (recount ext disk);
      written = 0;
      synced = 0;
      disk = open_append current disk;
    }

unfoldable pub replay : External → (ℕ → ℕ → Bytes) → TreeMap SegmentFile → List WalRecord
replay ext fresh [] = []
replay ext fresh ((seq, file) ∷ disk) =
    replay_segment ext seq (fresh seq) file.content ++ replay ext fresh disk
