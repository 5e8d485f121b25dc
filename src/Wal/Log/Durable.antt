-- ===== src/Wal/Log/Durable.antt =====
-- What `append_batch` has synced when it returns.
use mathlib.Core.List.{foldl}
use r_search.Base.{
  ℕ, ◌+◌, ◌≤◌, ◌<◌, ◌≡◌, refl, sym, ap, ◌∙◌, ◌≢◌, inl, inr, ◌⊎◌, true, List, [], ◌∷◌, Option, none,
  some, arith, ltb, lt→ltb, Bool-cases, Option-cases, length, TreeMap, lookup, lookup-remove,
  lookup-modify, count, contains, contains-append,
}
use r_search.Wal.Frame.{External, WalItem}
use r_search.Wal.Log.{
  SegmentFile, Wal, Batch, acked, failed, rotate, maybe_rotate, write_item, append_item,
  append_items, start_batch, finish, commit, append_batch, sync_file, unlink,
}
use r_search.Wal.Log.Counts.{IsSound, count_of}
use r_search.Wal.Log.Calls.{batch, ticket, unlocked, append_batch-acked, append_batch-failed, acks}

-- The file, if it is there, is synced to its end.
abbrev pub Flushed : Option SegmentFile → Type 0
Flushed none = Unit
Flushed (some file) = file.durable ≡ length file.content

sync_file-Flushed :
    (seg seq : ℕ) (disk : TreeMap SegmentFile)
    → ((seq ≡ seg) ⊎ Flushed (lookup seg disk))
    → Flushed (lookup seg (sync_file disk seq))
unfolding sync_file
sync_file-Flushed seg seq disk h =
    rw (lookup-modify seq seg (λ f. record f { durable = length f.content }) disk) (ground arith)

sync_all-Flushed :
    (seg : ℕ) (seqs : List ℕ) (disk : TreeMap SegmentFile)
    → ((contains seg seqs ≡ true) ⊎ Flushed (lookup seg disk))
    → Flushed (lookup seg (foldl sync_file disk seqs))
sync_all-Flushed seg [] disk (inl h) = cc
sync_all-Flushed seg [] disk (inr h) = h
sync_all-Flushed seg (seq ∷ seqs) disk h =
    sync_all-Flushed seg seqs (sync_file disk seq) (elim (Bool-cases (contains seg seqs)) [
      | inl e ↦ inl e
      | inr e ↦ inr (sync_file-Flushed seg seq disk (ground arith))
    ])

unlink_all-Flushed :
    (seg : ℕ) (seqs : List ℕ) (disk : TreeMap SegmentFile)
    → Flushed (lookup seg disk)
    → Flushed (lookup seg (foldl unlink disk seqs))
unlink_all-Flushed seg [] disk h = h
unlink_all-Flushed seg (seq ∷ seqs) disk h =
    unlink_all-Flushed seg seqs (unlink disk seq) (rw (lookup-remove seq seg disk) (ground arith))

-- Each position returned so far lies in a sealed segment of this batch or in the current one.
abbrev Placed : Batch → Type 0
Placed b =
    (seg : ℕ)
    → contains seg b.positions ≡ true
    → (contains seg b.sealed ≡ true) ⊎ (seg ≡ b.wal.current_seq)

append_item-Placed :
    (ext : External) (item : WalItem) (b : Batch) → Placed b → Placed (append_item ext item b).0
unfolding append_item maybe_rotate write_item rotate
append_item-Placed ext item b p seg h = ground (
  arith,
  h,
  p seg,
  contains-append seg b.sealed (b.wal.current_seq ∷ []),
  contains-append seg b.positions (b.wal.current_seq ∷ []),
  contains-append seg b.positions ((b.wal.current_seq + 1) ∷ []),
)

append_items-Placed :
    (ext : External) (items : List WalItem) (b : Batch)
    → Placed b
    → Placed (append_items ext items b).0
unfolding append_items
append_items-Placed ext [] b p = p
append_items-Placed ext (item ∷ items) b p =
    let one = append_item-Placed ext item b p in
    elim (Option-cases (append_item ext item b).1) [
      | inl e ↦ rw (e, append_items) (append_items-Placed ext items (append_item ext item b).0 one)
      | inr (error, e) ↦ rw (e, append_items) one
    ]

-- The loop does not touch the two counters of the group commit.
abbrev pub SameCounters : Wal → Wal → Type 0
SameCounters w w' = (w'.written ≡ w.written) × (w'.synced ≡ w.synced)

append_item-SameCounters :
    (ext : External) (item : WalItem) (b : Batch)
    → SameCounters b.wal (append_item ext item b).0.wal
unfolding append_item maybe_rotate write_item rotate
append_item-SameCounters ext item b = ground arith

pub append_items-SameCounters :
    (ext : External) (items : List WalItem) (b : Batch)
    → SameCounters b.wal (append_items ext items b).0.wal
unfolding append_items
append_items-SameCounters ext [] b = (refl, refl)
append_items-SameCounters ext (item ∷ items) b =
    let (one, two) = append_item-SameCounters ext item b in
    elim (Option-cases (append_item ext item b).1) [
      | inl e ↦
          let (three, four) = append_items-SameCounters ext items (append_item ext item b).0 in
          rw (e, append_items) (three ∙ one, four ∙ two)
      | inr (error, e) ↦ rw (e, append_items) (one, two)
    ]

count_pos : (seg : ℕ) (ps : List ℕ) → contains seg ps ≡ true → 0 < count seg ps
count_pos seg [] h = cc
count_pos seg (p ∷ ps) h = ground (arith, count_pos seg ps)

module _ (ext : External) (items : List WalItem) (w : Wal) (v : IsSound w) where
  abbrev done : Wal
  done = finish (ticket ext items w v) (unlocked ext items w v)

  module _ (fresh : w.synced ≤ w.written) (some_item : items ≢ []) where
    nonempty : (xs : List WalItem) → xs ≢ [] → 0 < length xs
    nonempty [] h = absurd (h refl)
    nonempty (x ∷ xs) h = omega arith

    behind : ltb done.synced (ticket ext items w v).gen ≡ true
    unfolding finish
    behind =
        let (a, b) = append_items-SameCounters ext items (start_batch w) in
        lt→ltb _ _ (omega (arith, a, b, nonempty items some_item))

    sealed-Flushed :
        (seg : ℕ)
        → contains seg (batch ext items w v).sealed ≡ true
        → Flushed (lookup seg done.disk)
    unfolding finish
    sealed-Flushed seg h =
        unlink_all-Flushed seg (batch ext items w v).victims _
          (sync_all-Flushed seg (batch ext items w v).sealed (batch ext items w v).wal.disk (inl h))

    flushed :
        (seg : ℕ)
        → contains seg (batch ext items w v).positions ≡ true
        → Flushed (lookup seg (commit (ticket ext items w v) done).disk)
    unfolding commit
    flushed seg h =
        rw (behind, commit)
          (sync_file-Flushed seg (batch ext items w v).wal.current_seq done.disk
            (elim (append_items-Placed ext items (start_batch w) (λ s g. cc) seg h) [
              | inl sealed ↦ inr (sealed-Flushed seg sealed)
              | inr current ↦ inl (sym current)
            ]))

    -- When append_batch acknowledges a nonempty batch and no other thread runs between its phases,
    -- every segment that holds a record of the batch is on disk and synced to its end. The log is
    -- sound before the call, and its counter of synced records is at most that of written ones.
    pub append_batch_durable :
        (ps : List ℕ) (seg : ℕ)
        → (append_batch ext items w).1 ≡ acked ps
        → contains seg ps ≡ true
        → (file : SegmentFile) × (lookup seg (append_batch ext items w).0.disk ≡ some file)
          × (file.durable ≡ length file.content)
    append_batch_durable ps seg e h =
        elim (Option-cases (append_items ext items (start_batch w)).1) [
          | inl fine ↦
              let done_eq = append_batch-acked ext items w v fine in
              let a = acks ext items w v fine in
              let same : ps ≡ (batch ext items w v).positions =
                (let e' : acked (batch ext items w v).positions ≡ acked ps = rw done_eq at e in
                  cc) in
              let held : contains seg (batch ext items w v).positions ≡ true = rw (← same) h in
              let disk = (commit (ticket ext items w v) done).disk in
              rw done_eq (elim (Option-cases (lookup seg disk)) [
                | inl gone ↦ absurd (
                    let none_left = ap count_of (a.sound.stored seg gone) in
                    omega (
                      arith,
                      none_left,
                      a.counted seg,
                      count_pos seg (batch ext items w v).positions held,
                    ))
                | inr (file, there) ↦ (file, there, let f = flushed seg held in rw there at f)
              ])
          | inr (error, bad) ↦ absurd (
              let h' : failed error ≡ acked ps =
                rw (append_batch-failed ext items w v error bad) at e in
              cc)
        ]
