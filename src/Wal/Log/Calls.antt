-- ===== src/Wal/Log/Calls.antt =====
-- One call of `append_batch`, in all its outcomes.
use r_search.Base.{
  ◌^◌, ◌<◌, [], true, false, All, ◌++◌, ◌∷◌, max, ℕ, ◌+◌, ◌≡◌, ap, ◌∙◌, inl, inr, List, none, some,
  arith, ltb, Bool-cases, Option-cases, length, count,
}
use r_search.Wal.Frame.{External, WalItem, too_long}
use r_search.Wal.Log.{
  Wal, Batch, Ticket, AppendError, item_too_long, ok, err, Appended, acked, failed, append_items,
  maybe_rotate, start_batch, write_phase, finish, commit, after_lock, append_batch,
}
use r_search.Wal.Log.Batches.{
  append_items-Counted, append_items_positions, append_items_short, append_items-Refusal,
}
use r_search.Wal.Log.Victims.{append_items-AllGone, finish-IsSound, sync-IsSound}
use r_search.Wal.Log.Counts.{outstanding_at, IsSound, Counted}

-- The lengths of the stream and of the id are below 2 ^ 15.
abbrev pub IsShort : WalItem → Type 0
IsShort item = (length item.stream < 2 ^ 15) × (length item.id < 2 ^ 15)

too_long-IsShort : (item : WalItem) → too_long item ≡ false → IsShort item
unfolding too_long
too_long-IsShort item h = ground arith

too_long-not_IsShort : (item : WalItem) → too_long item ≡ true → ¬ (IsShort item)
unfolding too_long
too_long-not_IsShort item h s = ground (arith, s.0, s.1)

All-IsShort : (items : List WalItem) → All (λ i. too_long i ≡ false) items → All IsShort items
All-IsShort [] h = tt
All-IsShort (item ∷ items) (h, hs) = (too_long-IsShort item h, All-IsShort items hs)

-- The effect of a successful `append_batch` from `w` to `w'` with positions `ps`.
pub record Acks (w w' : Wal) (items : List WalItem) (ps : List ℕ) : Type 0 where
  pub sound : IsSound w'
  pub short : All IsShort items
  pub each : length ps ≡ length items
  pub counted :
      (seg : ℕ) → outstanding_at seg w'.segments ≡ outstanding_at seg w.segments + count seg ps

-- The effect of a refused call: the items before the first one that is too long are written just as
-- they would be alone, and stay counted, at positions that no caller is given.
pub record Refuses (ext : External) (w w' : Wal) (items : List WalItem) (e : AppendError)
    : Type 0 where
  pub sound : IsSound w'
  pub reason : e ≡ item_too_long
  pub before : List WalItem
  pub item : WalItem
  pub after : List WalItem
  pub split : items ≡ before ++ item ∷ after
  pub short : All IsShort before
  pub long : ¬ (IsShort item)
  pub ran : (append_items ext before (start_batch w)).1 ≡ none
  pub stopped : w' ≡ (maybe_rotate (append_items ext before (start_batch w)).0).wal
  pub lost : List ℕ
  pub positions : lost ≡ (append_items ext before (start_batch w)).0.positions
  pub each : length lost ≡ length before
  pub counted :
      (seg : ℕ) → outstanding_at seg w'.segments ≡ outstanding_at seg w.segments + count seg lost

commit-IsSound : (t : Ticket) (w : Wal) → IsSound w → IsSound (commit t w)
unfolding commit
commit-IsSound t w v = elim (Bool-cases (ltb w.synced t.gen)) [
  | inl e ↦ rw (e, commit) (sync-IsSound t.fd (max w.synced w.written) w v)
  | inr e ↦ rw (e, commit) v
]

segments-commit : (t : Ticket) (w : Wal) → (commit t w).segments ≡ w.segments
unfolding commit
segments-commit t w = ground arith

maybe_rotate_positions : (b : Batch) → (maybe_rotate b).positions ≡ b.positions
unfolding maybe_rotate
maybe_rotate_positions b = ground arith

module _ (ext : External) (items : List WalItem) (w : Wal) (v : IsSound w) where
  abbrev pub batch : Batch
  batch = (append_items ext items (start_batch w)).0

  abbrev pub unlocked : Wal
  unlocked = record batch.wal { written = batch.wal.written + length items }

  abbrev pub ticket : Ticket
  ticket = record {
    fd = batch.wal.current_seq;
    gen = batch.wal.written + length items;
    sealed = batch.sealed;
    victims = batch.victims;
    positions = batch.positions;
  }

  batch-Counted : Counted (start_batch w) batch
  batch-Counted = (append_items-Counted ext items (start_batch w) v).0

  unlocked-IsSound : IsSound unlocked
  unlocked-IsSound = record {
    keys = batch-Counted.sound.keys;
    current = batch-Counted.sound.current;
    stored = batch-Counted.sound.stored;
  }

  finish_ticket-IsSound : IsSound (finish ticket unlocked)
  finish_ticket-IsSound =
      finish-IsSound ticket unlocked unlocked-IsSound
        (append_items-AllGone ext items (start_batch w) v (λ seg h. cc))

  abbrev pub Outcome : Wal → Appended → Type 0
  Outcome w' (acked ps) = Acks w w' items ps
  Outcome w' (failed e) = Refuses ext w w' items e

  write_phase-ok :
      (append_items ext items (start_batch w)).1 ≡ none
      → write_phase ext items w ≡ (unlocked, ok ticket)
  unfolding write_phase
  write_phase-ok e = rw (e, write_phase)

  pub append_batch-acked :
      (append_items ext items (start_batch w)).1 ≡ none
      → append_batch ext items w ≡ (commit ticket (finish ticket unlocked), acked batch.positions)
  unfolding append_batch
  append_batch-acked e = ap after_lock (write_phase-ok e)

  write_phase-err :
      (error : AppendError)
      → (append_items ext items (start_batch w)).1 ≡ some error
      → write_phase ext items w ≡ (batch.wal, err error)
  unfolding write_phase
  write_phase-err error e = rw (e, write_phase)

  pub append_batch-failed :
      (error : AppendError)
      → (append_items ext items (start_batch w)).1 ≡ some error
      → append_batch ext items w ≡ (batch.wal, failed error)
  unfolding append_batch
  append_batch-failed error e = ap after_lock (write_phase-err error e)

  pub acks :
      (append_items ext items (start_batch w)).1 ≡ none
      → Acks w (commit ticket (finish ticket unlocked)) items batch.positions
  unfolding finish
  acks e = record {
    sound = commit-IsSound ticket (finish ticket unlocked) finish_ticket-IsSound;
    short = All-IsShort items (append_items_short ext items (start_batch w) v e);
    each = omega (arith, append_items_positions ext items (start_batch w) e);
    counted = λ seg.
        rw (segments-commit ticket (finish ticket unlocked))
          (omega (arith, batch-Counted.balance seg));
  }

  refuses :
      (error : AppendError)
      → (append_items ext items (start_batch w)).1 ≡ some error
      → Refuses ext w batch.wal items error
  refuses error e =
      let r = append_items-Refusal ext items (start_batch w) error v e in
      let before = (append_items ext r.before (start_batch w)).0 in
      let same : batch.positions ≡ before.positions =
        ap (λ (b : Batch). b.positions) r.stopped ∙ maybe_rotate_positions before in
      record {
        sound = batch-Counted.sound;
        reason = r.reason;
        before = r.before;
        item = r.item;
        after = r.after;
        split = r.split;
        short = All-IsShort r.before r.short;
        long = too_long-not_IsShort r.item r.long;
        ran = r.ran;
        stopped = ap (λ (b : Batch). b.wal) r.stopped;
        lost = batch.positions;
        positions = same;
        each =
            ap length same
            ∙ omega (arith, append_items_positions ext r.before (start_batch w) r.ran);
        counted = λ seg. omega (arith, batch-Counted.balance seg);
      }

  -- From a sound log, every call of append_batch leaves a sound log. An item is too long when its
  -- stream or id has 2 ^ 15 bytes or more. An acknowledged call has no such item, returns one
  -- position per item and raises the count of each segment by its positions there. A call that
  -- fails is refused for the first item that is too long: it leaves the log as the items before it
  -- alone leave it, rotated if the segment is full, and these stay counted, one position each.
  pub append_batch_outcome : Outcome (append_batch ext items w).0 (append_batch ext items w).1
  append_batch_outcome = elim (Option-cases (append_items ext items (start_batch w)).1) [
    | inl e ↦ rw (append_batch-acked e) (acks e)
    | inr (error, e) ↦ rw (append_batch-failed error e) (refuses error e)
  ]
