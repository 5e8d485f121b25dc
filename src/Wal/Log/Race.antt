-- ===== src/Wal/Log/Race.antt =====
-- The group commit with a second appender between the phases of the first.
use r_search.Base.{◌<◌, ◌≡◌, ◌≢◌, List, arith, length, lookup, lookup-modify}
use r_search.Wal.Frame.{External, WalItem}
use r_search.Wal.Log.Durable.{append_items-SameCounters}
use r_search.Wal.Log.{Wal, Ticket, ok, start_batch, write_phase, finish, commit, sync_file}

write_phase_gen :
    (ext : External) (items : List WalItem) (w w' : Wal) (t : Ticket)
    → write_phase ext items w ≡ (w', ok t)
    → w'.written ≡ t.gen
unfolding write_phase
write_phase_gen ext items w w' t e = ground (arith, e)

write_phase_synced :
    (ext : External) (items : List WalItem) (w w' : Wal) (t : Ticket)
    → write_phase ext items w ≡ (w', ok t)
    → w'.synced ≡ w.synced
unfolding write_phase
write_phase_synced ext items w w' t e =
    ground (arith, e, append_items-SameCounters ext items (start_batch w))

module _ (ext : External) (items : List WalItem) (w w' : Wal) (a b : Ticket) where
  -- If an appender B writes after appender A took its ticket and before its records count as
  -- synced, B ends in another segment than A, and A runs the group commit before B, then B's
  -- commit does nothing and the segment with B's last records keeps the synced length that it had
  -- before both commits.
  pub commit_skips_rotated :
      w.synced < a.gen
      → write_phase ext items w ≡ (w', ok b)
      → b.fd ≢ a.fd
      → (commit b (commit a (finish b w')) ≡ commit a (finish b w'))
        × (lookup b.fd (commit b (commit a (finish b w'))).disk ≡ lookup b.fd (finish b w').disk)
  unfolding commit finish sync_file
  commit_skips_rotated h e other = ground (
    arith,
    write_phase_gen ext items w w' b e,
    write_phase_synced ext items w w' b e,
    lookup-modify a.fd b.fd (λ f. record f { durable = length f.content }) (finish b w').disk,
  )
