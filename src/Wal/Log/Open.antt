-- ===== src/Wal/Log/Open.antt =====
-- `Wal::open` on the segment files of an earlier run.
use mathlib.Core.Option
use r_search.Base.{
  ap, true, ◌==◌, if◌then◌else◌, some, inl, inr, Bool-cases, lookup_above, ℕ, suc, ◌+◌, ◌≡◌, refl,
  false, [], ◌∷◌, none, arith, ==_refl, length, length-append, TreeMap, lookup, insert,
  lookup-insert, Keys, Keys-mono, Keys-insert,
}
use r_search.Wal.Frame.{Bytes, External, replay_segment}
use r_search.Wal.Frame.Replay.{count-replay}
use r_search.Wal.Log.{
  Wal, open_append, SegmentState, SegmentFile, total, outstanding, recount, next_seq, open_wal,
  replay,
}
use r_search.Wal.Log.Counts.{IsSound, lookup-open_append}

-- The file numbers ascend, as `sort_unstable` leaves them.
abbrev pub IsSorted : TreeMap SegmentFile → Type 0
IsSorted disk = (hi : ℕ) × Keys 0 hi disk

Keys-recount :
    (ext : External) (lo hi : ℕ) (disk : TreeMap SegmentFile)
    → Keys lo hi disk
    → Keys lo hi (recount ext disk)
unfolding recount
Keys-recount ext lo hi [] k = tt
Keys-recount ext lo hi ((seq, file) ∷ disk) (low, high, k) =
    (low, high, Keys-recount ext (suc seq) hi disk k)

Keys-next_seq :
    (lo hi : ℕ) (disk : TreeMap SegmentFile) → Keys lo hi disk → Keys lo (next_seq disk) disk
unfolding next_seq
Keys-next_seq lo hi [] k = tt
Keys-next_seq lo hi ((seq, file) ∷ []) (low, high, k) = (low, omega arith, tt)
Keys-next_seq lo hi ((seq, file) ∷ (next, g) ∷ disk) (low, high, k) =
    let (l, h, r) = Keys-next_seq (suc seq) hi ((next, g) ∷ disk) k in (low, omega arith, (l, h, r))

-- What an opened log tracks of an old file: a sealed segment, with the records that its replay
-- yields unconfirmed.
abbrev pub sealed_state : External → (ℕ → Bytes) → ℕ → SegmentFile → SegmentState
sealed_state ext fresh seg file = record {
  outstanding = length (replay_segment ext seg fresh file.content);
  sealed = true;
}

lookup-recount :
    (ext : External) (fresh : ℕ → Bytes) (seg : ℕ) (disk : TreeMap SegmentFile)
    → lookup seg (recount ext disk) ≡ Option.map (sealed_state ext fresh seg) (lookup seg disk)
unfolding recount
lookup-recount ext fresh seg [] = refl
lookup-recount ext fresh seg ((seq, file) ∷ disk) = elim (Bool-cases (seq == seg)) [
  | inl e ↦
      let same : seq ≡ seg = ground arith in
      let counted = count-replay ext (suc (length file.content)) seg fresh file.content in
      rw e (ap (λ (n : ℕ). some (record { outstanding = n; sealed = true })) counted)
  | inr e ↦ rw e (lookup-recount ext fresh seg disk)
]

-- The opened log `w` of the files `disk`: a sound one whose current segment is new, empty and past
-- every file; the old files are as they were, each a sealed segment.
pub record IsOpened (ext : External) (fresh : ℕ → Bytes) (disk : TreeMap SegmentFile) (w : Wal)
    : Type 0 where
  pub sound : IsSound w
  pub past : Keys 0 w.current_seq disk
  pub files :
      (seg : ℕ)
      → lookup seg w.disk ≡ (
          if w.current_seq == seg
          then some (record { content = []; durable = 0 })
          else lookup seg disk)
  pub tracked :
      (seg : ℕ)
      → lookup seg w.segments ≡ (
          if w.current_seq == seg
          then some (record { outstanding = 0; sealed = false })
          else Option.map (sealed_state ext fresh seg) (lookup seg disk))
  pub fresh_len : w.current_len ≡ 0

total-insert :
    (lo hi : ℕ) (s : SegmentState) (m : TreeMap SegmentState)
    → Keys lo hi m
    → total (insert hi s m) ≡ total m + s.outstanding
unfolding total
total-insert lo hi s [] k = omega arith
total-insert lo hi s ((seq, v) ∷ m) (low, high, k) = ground (arith, total-insert (suc seq) hi s m k)

total-recount :
    (ext : External) (fresh : ℕ → ℕ → Bytes) (disk : TreeMap SegmentFile)
    → total (recount ext disk) ≡ length (replay ext fresh disk)
unfolding total recount replay
total-recount ext fresh [] = refl
total-recount ext fresh ((seq, file) ∷ disk) = omega (
  arith,
  total-recount ext fresh disk,
  count-replay ext (suc (length file.content)) seq (fresh seq) file.content,
  length-append (replay_segment ext seq (fresh seq) file.content) (replay ext fresh disk),
)

lookup-open_append_new :
    (seq seg : ℕ) (disk : TreeMap SegmentFile)
    → lookup seq disk ≡ none
    → lookup seg (open_append seq disk)
      ≡ (if seq == seg then some (record { content = []; durable = 0 }) else lookup seg disk)
unfolding open_append
lookup-open_append_new seq seg disk h =
    rw (h, open_append) (lookup-insert seq seg (record { content = []; durable = 0 }) disk)

module _ (ext : External) (max_bytes : ℕ) (disk : TreeMap SegmentFile)
    (sorted : IsSorted disk) where
  Keys-recount_all : Keys 0 (next_seq disk) (recount ext disk)
  Keys-recount_all = Keys-recount ext 0 _ disk (Keys-next_seq 0 sorted.0 disk sorted.1)

  all_past : Keys 0 (next_seq disk) disk
  all_past = Keys-next_seq 0 sorted.0 disk sorted.1

  -- For segment files in ascending order, the opened log is sound; its current segment is open,
  -- empty, with an empty file, and its number is past every old file; every old file is as it was,
  -- and is a sealed segment whose unconfirmed count is the number of records that its replay
  -- yields.
  pub open_wal-IsOpened :
      (fresh : ℕ → Bytes) → IsOpened ext fresh disk (open_wal ext max_bytes disk)
  unfolding open_wal
  open_wal-IsOpened fresh =
      let current = next_seq disk in
      let tracked = λ (seg : ℕ).
        lookup-insert current seg (record { outstanding = 0; sealed = false }) (recount ext disk) in
      record {
        sound = record {
          keys = Keys-insert 0 _ current _ (recount ext disk) (omega arith) (omega arith) (
              Keys-mono 0 0 current (current + 1) (recount ext disk) (omega arith) (omega arith)
                Keys-recount_all);
          current = (
            record { outstanding = 0; sealed = false },
            rw (lookup-insert current current _ (recount ext disk), ==_refl),
            refl,
          );
          stored = λ seg h.
              let (other, absent) = lookup-open_append current seg disk h in
              ground (arith, other, tracked seg, lookup-recount ext fresh seg disk, absent);
        };
        past = all_past;
        files = λ seg.
            lookup-open_append_new current seg disk
              (lookup_above current 0 current disk (omega arith) all_past);
        tracked = λ seg. rw (tracked seg, lookup-recount ext fresh seg disk);
        fresh_len = refl;
      }

  -- For segment files in ascending order, the number of unconfirmed records that an opened log
  -- reports is the number of records that its replay yields.
  pub outstanding-open_wal :
      (fresh : ℕ → ℕ → Bytes)
      → outstanding (open_wal ext max_bytes disk) ≡ length (replay ext fresh disk)
  unfolding open_wal
  outstanding-open_wal fresh = omega (
    arith,
    total-insert 0 (next_seq disk) (record { outstanding = 0; sealed = false }) (recount ext disk)
        Keys-recount_all,
    total-recount ext fresh disk,
  )
