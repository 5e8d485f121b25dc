-- ===== src/Wal/Log/Victims.antt =====
-- The segments that a batch unlinks are tracked no more, so an unlink never takes a counted file.
use mathlib.Core.List.{foldl}
use r_search.Base.{
  ℕ, ◌+◌, ◌≤◌, ◌≡◌, ◌∙◌, inl, inr, true, List, [], ◌∷◌, ◌++◌, none, arith, Bool-cases, Option-cases,
  leb, length, TreeMap, lookup, lookup-modify, lookup_above, contains, contains-append,
  lookup-remove_all,
}
use r_search.Wal.Frame.{External, WalItem, too_long}
use r_search.Wal.Log.{
  SegmentFile, Wal, Batch, Ticket, collect_confirmed, rotate, maybe_rotate, write_item, append_item,
  append_items, finish, sync_file,
}
use r_search.Wal.Log.Counts.{
  IsSound, contains-confirmed_seqs, lookup-collect_confirmed, tracked, Keys-tracked, lookup-tracked,
  maybe_rotate-Counted,
}
use r_search.Wal.Log.Batches.{append_item-Counted}

-- Untracked for good: the number is not above the current one, and numbers only grow.
abbrev pub IsGone : ℕ → Wal → Type 0
IsGone seg w = (seg ≤ w.current_seq) × (lookup seg w.segments ≡ none)

abbrev pub AllGone : Batch → Type 0
AllGone b = (seg : ℕ) → contains seg b.victims ≡ true → IsGone seg b.wal

-- A rotation keeps what is gone gone, and its own victims are gone.
module _ (w : Wal) (v : IsSound w) (seg : ℕ) where
  rotate-IsGone : IsGone seg w → IsGone seg (rotate w).0
  unfolding rotate
  rotate-IsGone (low, absent) = (
    omega arith,
    rw (lookup-collect_confirmed seg 0 _ (tracked w v) (Keys-tracked w v)) (
        ground (
          arith,
          absent,
          lookup-tracked w v seg,
          lookup-modify w.current_seq seg (λ s. record s { sealed = true }) w.segments,
        )),
  )

  rotate_victims : contains seg (rotate w).2 ≡ true → IsGone seg (rotate w).0
  unfolding rotate collect_confirmed
  rotate_victims h =
      let c = contains-confirmed_seqs seg 0 _ (tracked w v) (Keys-tracked w v) in
      let gone : lookup seg (rotate w).0.segments ≡ none =
        lookup-collect_confirmed seg 0 _ (tracked w v) (Keys-tracked w v) ∙ ground (arith, c, h) in
      let above = lookup_above seg 0 (w.current_seq + 1 + 1) (tracked w v) in
      (ground (arith, c, h, λ (g : w.current_seq + 1 + 1 ≤ seg). above g (Keys-tracked w v)), gone)

maybe_rotate-AllGone : (b : Batch) → IsSound b.wal → AllGone b → AllGone (maybe_rotate b)
unfolding maybe_rotate
maybe_rotate-AllGone b v g seg h =
    elim (Bool-cases (leb b.wal.max_segment_bytes b.wal.current_len)) [
      | inl e ↦
          let h' : contains seg (b.victims ++ (rotate b.wal).2) ≡ true =
            rw (e, maybe_rotate) at h in
          elim (Bool-cases (contains seg b.victims)) [
            | inl old ↦ rw (e, maybe_rotate) (rotate-IsGone b.wal v seg (g seg old))
            | inr new ↦
                rw (e, maybe_rotate)
                  (rotate_victims b.wal v seg
                    (ground (arith, h', new, contains-append seg b.victims (rotate b.wal).2)))
          ]
      | inr e ↦ rw (e, maybe_rotate) (g seg (rw (e, maybe_rotate) at h))
    ]

write_item-AllGone :
    (ext : External) (item : WalItem) (b : Batch)
    → IsSound b.wal
    → AllGone b
    → AllGone (write_item ext item b).0
unfolding write_item
write_item-AllGone ext item b v g seg h =
    let (s, e, open_) = v.current in
    let h' : contains seg b.victims ≡ true = rw (e, write_item) at h in
    let (low, absent) = g seg h' in
    rw (e, write_item)
      (
        low,
        ground (
          arith,
          absent,
          lookup-modify b.wal.current_seq seg (λ s. record s { outstanding = s.outstanding + 1 })
              b.wal.segments,
        ),
      )

append_item-AllGone :
    (ext : External) (item : WalItem) (b : Batch)
    → IsSound b.wal
    → AllGone b
    → AllGone (append_item ext item b).0
unfolding append_item
append_item-AllGone ext item b v g =
    let turned = maybe_rotate-AllGone b v g in
    elim (Bool-cases (too_long item)) [
      | inl e ↦ rw (e, append_item) turned
      | inr e ↦
          rw (e, append_item)
            (write_item-AllGone ext item (maybe_rotate b) (maybe_rotate-Counted b v).sound turned)
    ]

pub append_items-AllGone :
    (ext : External) (items : List WalItem) (b : Batch)
    → IsSound b.wal
    → AllGone b
    → AllGone (append_items ext items b).0
unfolding append_items
append_items-AllGone ext [] b v g = g
append_items-AllGone ext (item ∷ items) b v g =
    let turned = append_item-AllGone ext item b v g in
    elim (Option-cases (append_item ext item b).1) [
      | inl e ↦
          rw (e, append_items)
            (append_items-AllGone ext items (append_item ext item b).0
              (append_item-Counted ext item b v).0.sound turned)
      | inr (error, e) ↦ rw (e, append_items) turned
    ]

lookup-sync_file :
    (seg seq : ℕ) (disk : TreeMap SegmentFile)
    → lookup seg (sync_file disk seq) ≡ none
    → lookup seg disk ≡ none
unfolding sync_file
lookup-sync_file seg seq disk h =
    ground (arith, h, lookup-modify seq seg (λ f. record f { durable = length f.content }) disk)

lookup-sync_all :
    (seg : ℕ) (seqs : List ℕ) (disk : TreeMap SegmentFile)
    → lookup seg (foldl sync_file disk seqs) ≡ none
    → lookup seg disk ≡ none
lookup-sync_all seg [] disk h = h
lookup-sync_all seg (seq ∷ seqs) disk h =
    lookup-sync_file seg seq disk (lookup-sync_all seg seqs (sync_file disk seq) h)

-- Syncing and unlinking after the lock keeps the log sound, if the victims are gone.
pub finish-IsSound :
    (t : Ticket) (w : Wal)
    → IsSound w
    → ((seg : ℕ) → contains seg t.victims ≡ true → IsGone seg w)
    → IsSound (finish t w)
unfolding finish
finish-IsSound t w v g = record {
  keys = v.keys;
  current = v.current;
  stored = λ seg h. elim (Bool-cases (contains seg t.victims)) [
    | inl gone ↦ (g seg gone).1
    | inr kept ↦ v.stored seg (
        lookup-sync_all seg t.sealed w.disk (
          ground
            (arith, h, kept, lookup-remove_all seg t.victims (foldl sync_file w.disk t.sealed))))
  ];
}

pub sync-IsSound :
    (seq synced : ℕ) (w : Wal)
    → IsSound w
    → IsSound (record w { disk = sync_file w.disk seq; synced = synced })
sync-IsSound seq synced w v = record {
  keys = v.keys;
  current = v.current;
  stored = λ seg h. v.stored seg (lookup-sync_file seg seq w.disk h);
}
