-- ===== src/Wal/Log/Counts.antt =====
-- The bookkeeping of the log: what each operation does to the count of every segment, and that a
-- segment with an unconfirmed record keeps its file.
use r_search.Base.{
  ==_refl, ℕ, suc, ◌+◌, ◌<◌, ◌≡◌, refl, ◌∙◌, ◌≢◌, inl, inr, Bool, true, false, [], ◌∷◌, ◌++◌,
  Option, none, some, arith, leb, ◌==◌, if◌then◌else◌, Bool-cases, TreeMap, lookup, insert, modify,
  lookup-insert, lookup-modify, Keys, Keys-mono, Keys-insert, Keys-modify, Keys-remove_all,
  lookup_below, lookup_above, count, count-append, contains, lookup-remove_all,
}
use r_search.Wal.Frame.{External, WalItem, frame}
use r_search.Wal.Log.{
  SegmentState, SegmentFile, Wal, Batch, open_append, is_confirmed, confirmed_seqs,
  collect_confirmed, rotate, maybe_rotate, write_item,
}

abbrev pub count_of : Option SegmentState → ℕ
count_of none = 0
count_of (some s) = s.outstanding

-- The unconfirmed records of segment `seg`; 0 when it is not tracked.
abbrev pub outstanding_at : ℕ → TreeMap SegmentState → ℕ
outstanding_at seg segments = count_of (lookup seg segments)

abbrev pub is_victim : ℕ → Option SegmentState → Bool
is_victim seg none = false
is_victim seg (some s) = is_confirmed (seg, s)

pub contains-confirmed_seqs :
    (seg lo hi : ℕ) (m : TreeMap SegmentState)
    → Keys lo hi m
    → contains seg (confirmed_seqs m) ≡ is_victim seg (lookup seg m)
contains-confirmed_seqs seg lo hi [] k = refl
contains-confirmed_seqs seg lo hi ((i, s) ∷ m) (low, high, k) = ground (
  arith,
  contains-confirmed_seqs seg (suc i) hi m k,
  λ (h : seg < suc i). lookup_below seg (suc i) hi m h k,
)

abbrev unless {ℓ} : {A : Type ℓ} → Bool → Option A → Option A
unless b o = if b then none else o

-- Exactly the sealed segments without an unconfirmed record go.
pub lookup-collect_confirmed :
    (seg lo hi : ℕ) (m : TreeMap SegmentState)
    → Keys lo hi m
    → lookup seg (collect_confirmed m).0
      ≡ (if is_victim seg (lookup seg m) then none else lookup seg m)
unfolding collect_confirmed
lookup-collect_confirmed seg lo hi m k =
    rw (lookup-remove_all seg (confirmed_seqs m) m, contains-confirmed_seqs seg lo hi m k)

pub outstanding_at-collect_confirmed :
    (seg lo hi : ℕ) (m : TreeMap SegmentState)
    → Keys lo hi m
    → outstanding_at seg (collect_confirmed m).0 ≡ outstanding_at seg m
outstanding_at-collect_confirmed seg lo hi m k =
    rw (lookup-collect_confirmed seg lo hi m k) (ground arith)

-- The current segment is tracked and open, no higher number is in use, and every tracked segment
-- has its file.
pub record IsSound (w : Wal) : Type 0 where
  pub keys : Keys 0 (w.current_seq + 1) w.segments
  pub current : (s : SegmentState) × (lookup w.current_seq w.segments ≡ some s) × (s.sealed ≡ false)
  pub stored : (seg : ℕ) → lookup seg w.disk ≡ none → lookup seg w.segments ≡ none

pub lookup-open_append :
    (seq seg : ℕ) (disk : TreeMap SegmentFile)
    → lookup seg (open_append seq disk) ≡ none
    → (seq ≢ seg) × (lookup seg disk ≡ none)
unfolding open_append
lookup-open_append seq seg disk h =
    ground (arith, lookup-insert seq seg (record { content = []; durable = 0 }) disk)

module _ (w : Wal) (v : IsSound w) where
  abbrev pub marked : TreeMap SegmentState
  marked = modify w.current_seq (λ s. record s { sealed = true }) w.segments

  abbrev pub tracked : TreeMap SegmentState
  tracked = insert (w.current_seq + 1) (record { outstanding = 0; sealed = false }) marked

  pub Keys-tracked : Keys 0 (w.current_seq + 1 + 1) tracked
  Keys-tracked = Keys-insert 0 _ (w.current_seq + 1) _ marked (omega arith) (omega arith) (
      Keys-modify 0 _ w.current_seq _ w.segments (
        Keys-mono 0 0 (w.current_seq + 1) (w.current_seq + 1 + 1) w.segments (omega arith)
          (omega arith) v.keys))

  pub lookup-tracked :
      (seg : ℕ)
      → lookup seg tracked ≡ (
          if w.current_seq + 1 == seg
          then some (record { outstanding = 0; sealed = false })
          else lookup seg marked)
  lookup-tracked seg = lookup-insert (w.current_seq + 1) seg _ marked

  pub rotate-IsSound : IsSound (rotate w).0
  unfolding rotate
  rotate-IsSound = record {
    keys =
        unfold collect_confirmed in
        Keys-remove_all 0 _ (confirmed_seqs tracked) tracked Keys-tracked;
    current = (
      record { outstanding = 0; sealed = false },
      rw (
        lookup-collect_confirmed (w.current_seq + 1) 0 _ tracked Keys-tracked,
        lookup-tracked (w.current_seq + 1),
        ==_refl,
      ),
      refl,
    );
    stored = λ seg h.
        let (other, absent) = lookup-open_append (w.current_seq + 1) seg w.disk h in
        rw (lookup-collect_confirmed seg 0 _ tracked Keys-tracked) (
          ground (
            arith,
            lookup-tracked seg,
            lookup-modify w.current_seq seg (λ s. record s { sealed = true }) w.segments,
            v.stored seg absent,
          ));
  }

  pub outstanding_at-rotate :
      (seg : ℕ) → outstanding_at seg (rotate w).0.segments ≡ outstanding_at seg w.segments
  unfolding rotate
  outstanding_at-rotate seg =
      outstanding_at-collect_confirmed seg 0 _ tracked Keys-tracked
      ∙ ground (
        arith,
        lookup-tracked seg,
        lookup-modify w.current_seq seg (λ s. record s { sealed = true }) w.segments,
        lookup_above (w.current_seq + 1) 0 (w.current_seq + 1) w.segments (omega arith) v.keys,
      )

-- From `b` to `b'` the log stays sound, and each segment's count grows by the positions added.
pub record Counted (b b' : Batch) : Type 0 where
  pub sound : IsSound b'.wal
  pub balance :
      (seg : ℕ)
      → outstanding_at seg b'.wal.segments + count seg b.positions
        ≡ outstanding_at seg b.wal.segments + count seg b'.positions

pub Counted-trans : {a b c : Batch} → Counted a b → Counted b c → Counted a c
Counted-trans p q = record {
  sound = q.sound;
  balance = λ seg. omega (arith, p.balance seg, q.balance seg);
}

pub maybe_rotate-Counted : (b : Batch) → IsSound b.wal → Counted b (maybe_rotate b)
unfolding maybe_rotate
maybe_rotate-Counted b v = elim (Bool-cases (leb b.wal.max_segment_bytes b.wal.current_len)) [
  | inl e ↦
      rw (e, maybe_rotate)
        (record {
          sound = rotate-IsSound b.wal v;
          balance = λ seg. omega (arith, outstanding_at-rotate b.wal v seg);
        })
  | inr e ↦ rw (e, maybe_rotate) (record { sound = v; balance = λ seg. refl })
]

module _ (ext : External) (item : WalItem) (b : Batch) (v : IsSound b.wal) where
  pub write_item-Counted : ((write_item ext item b).1 ≡ none) × Counted b (write_item ext item b).0
  unfolding write_item
  write_item-Counted =
      let w = b.wal in
      let (s, e, open_) = v.current in
      rw (e, write_item)
        (
          refl,
          record {
            sound = record {
              keys = Keys-modify 0 _ w.current_seq _ w.segments v.keys;
              current = (
                record s { outstanding = s.outstanding + 1 },
                rw (lookup-modify w.current_seq w.current_seq _ w.segments, ==_refl, e),
                open_,
              );
              stored = λ seg h. ground (
                arith,
                h,
                lookup-modify w.current_seq seg
                    (λ f. record f { content = f.content ++ frame ext item }) w.disk,
                lookup-modify w.current_seq seg (λ s. record s { outstanding = s.outstanding + 1 })
                    w.segments,
                v.stored seg,
              );
            };
            balance = λ seg. ground (
              arith,
              e,
              lookup-modify w.current_seq seg (λ s. record s { outstanding = s.outstanding + 1 })
                  w.segments,
              count-append seg b.positions (w.current_seq ∷ []),
            );
          },
        )
