-- ===== src/Wal/Log/History.antt =====
-- Any history of calls of `append_batch` and `confirm`: what is unconfirmed is counted, and what is
-- counted is on disk.
use mathlib.Core.Path.{subst}
use r_search.Base.{
  ℕ, ◌+◌, ◌≤◌, ◌<◌, ◌≡◌, ◌≢◌, List, [], ◌++◌, none, arith, lookup, count, count-append,
}
use r_search.Wal.Frame.{External, WalItem}
use r_search.Wal.Log.{Wal, AppendError, acked, failed, append_batch, confirm}
use r_search.Wal.Log.Calls.{Acks, Refuses, Outcome, append_batch_outcome}
use r_search.Wal.Log.Confirm.{outstanding_at-confirm, confirm-IsSound}
use r_search.Wal.Log.Counts.{outstanding_at, IsSound}

-- A log that calls of the two operations lead to, with the positions that were acknowledged and
-- are not confirmed. A client confirms positions that it was given.
pub data History (ext : External) : Wal → List ℕ → Type 0 where
  start : {w : Wal} → IsSound w → History ext w []
  append :
      {w : Wal} {pending ps : List ℕ} (items : List WalItem)
      → History ext w pending
      → (append_batch ext items w).1 ≡ acked ps
      → History ext (append_batch ext items w).0 (ps ++ pending)
  refuse :
      {w : Wal} {pending : List ℕ} {e : AppendError} (items : List WalItem)
      → History ext w pending
      → (append_batch ext items w).1 ≡ failed e
      → History ext (append_batch ext items w).0 pending
  settle :
      {w : Wal} {pending : List ℕ} (ps rest : List ℕ)
      → History ext w pending
      → ((seg : ℕ) → count seg pending ≡ count seg ps + count seg rest)
      → History ext (confirm ps w) rest

-- Every unconfirmed record is counted in its segment.
pub record Covers (w : Wal) (pending : List ℕ) : Type 0 where
  pub sound : IsSound w
  pub counted : (seg : ℕ) → count seg pending ≤ outstanding_at seg w.segments

pub History-Covers :
    {ext : External} {w : Wal} {pending : List ℕ} → History ext w pending → Covers w pending
History-Covers (start v) = record { sound = v; counted = λ seg. omega arith }
History-Covers {ext} (append {w} {pending} {ps} items h e) =
    let c = History-Covers h in
    let a : Acks w (append_batch ext items w).0 items ps =
      subst (Outcome ext items w c.sound (append_batch ext items w).0) e
        (append_batch_outcome ext items w c.sound) in
    record {
      sound = a.sound;
      counted = λ seg. omega (arith, c.counted seg, a.counted seg, count-append seg ps pending);
    }
History-Covers {ext} (refuse {w = w} {pending = pending} {e = error} items h e) =
    let c = History-Covers h in
    let a : Refuses ext w (append_batch ext items w).0 items error =
      subst (Outcome ext items w c.sound (append_batch ext items w).0) e
        (append_batch_outcome ext items w c.sound) in
    record { sound = a.sound; counted = λ seg. omega (arith, c.counted seg, a.counted seg) }
History-Covers (settle {w} {pending} ps rest h e) =
    let c = History-Covers h in
    record {
      sound = confirm-IsSound ps w c.sound;
      counted = λ seg. omega (arith, c.counted seg, e seg, outstanding_at-confirm ps w c.sound seg);
    }

-- From a sound log, after any sequence of acknowledged append_batch calls and of confirms of
-- positions that were handed out, a segment with a record that is acknowledged and not confirmed
-- still has its file.
pub pending_on_disk :
    {ext : External} {w : Wal} {pending : List ℕ} (seg : ℕ)
    → History ext w pending
    → 0 < count seg pending
    → lookup seg w.disk ≢ none
pending_on_disk {w = w} seg h some_pending gone =
    let c = History-Covers h in
    let untracked = c.sound.stored seg gone in
    let none_left : outstanding_at seg w.segments ≡ 0 = rw untracked in omega (arith, c.counted seg)
