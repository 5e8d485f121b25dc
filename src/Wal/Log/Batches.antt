-- ===== src/Wal/Log/Batches.antt =====
-- The loop of `append_batch` over its items: the counts it leaves, and the positions it returns.
use r_search.Base.{
  sym, ap, true, false, All, ◌++◌, suc, ◌+◌, ◌≡◌, refl, ◌∙◌, ◌≢◌, inl, inr, List, [], ◌∷◌, none,
  some, arith, Bool-cases, Option-cases, length, length-append,
}
use r_search.Wal.Frame.{External, WalItem, too_long}
use r_search.Wal.Log.{
  Batch, AppendError, item_too_long, current_untracked, maybe_rotate, write_item, append_item,
  append_items,
}
use r_search.Wal.Log.Counts.{
  IsSound, Counted, Counted-trans, maybe_rotate-Counted, write_item-Counted,
}

-- A round either refuses the item or writes it; the current segment is never untracked.
pub append_item-Counted :
    (ext : External) (item : WalItem) (b : Batch)
    → IsSound b.wal
    → Counted b (append_item ext item b).0 × ((append_item ext item b).1 ≢ some current_untracked)
unfolding append_item
append_item-Counted ext item b v =
    let r = maybe_rotate-Counted b v in
    elim (Bool-cases (too_long item)) [
      | inl e ↦ rw (e, append_item) (r, λ h. cc)
      | inr e ↦
          let (fine, w) = write_item-Counted ext item (maybe_rotate b) r.sound in
          rw (e, append_item) (Counted-trans r w, λ h. cc)
    ]

pub append_items-Counted :
    (ext : External) (items : List WalItem) (b : Batch)
    → IsSound b.wal
    → Counted b (append_items ext items b).0
      × ((append_items ext items b).1 ≢ some current_untracked)
unfolding append_items
append_items-Counted ext [] b v = (record { sound = v; balance = λ seg. refl }, λ h. cc)
append_items-Counted ext (item ∷ items) b v =
    let (one, tracked) = append_item-Counted ext item b v in
    elim (Option-cases (append_item ext item b).1) [
      | inl e ↦
          let (rest, still) = append_items-Counted ext items (append_item ext item b).0 one.sound in
          rw (e, append_items) (Counted-trans one rest, still)
      | inr (error, e) ↦ rw (e, append_items) (one, λ h. tracked (e ∙ h))
    ]

append_item_positions :
    (ext : External) (item : WalItem) (b : Batch)
    → (append_item ext item b).1 ≡ none
    → length (append_item ext item b).0.positions ≡ suc (length b.positions)
unfolding append_item write_item maybe_rotate
append_item_positions ext item b h = ground (
  arith,
  h,
  length-append b.positions (b.wal.current_seq ∷ []),
  length-append b.positions ((maybe_rotate b).wal.current_seq ∷ []),
)

-- A call that succeeds returns a position for each item.
pub append_items_positions :
    (ext : External) (items : List WalItem) (b : Batch)
    → (append_items ext items b).1 ≡ none
    → length (append_items ext items b).0.positions ≡ length b.positions + length items
unfolding append_items
append_items_positions ext [] b h = omega arith
append_items_positions ext (item ∷ items) b h = elim (Option-cases (append_item ext item b).1) [
  | inl e ↦
      let rest =
        append_items_positions ext items (append_item ext item b).0 (rw (e, append_items) at h) in
      rw (e, append_items) (omega (arith, rest, append_item_positions ext item b e))
  | inr (error, e) ↦ let h' : some error ≡ none = rw (e, append_items) at h in cc
]

append_items_step :
    (ext : External) (item : WalItem) (items : List WalItem) (b : Batch)
    → (append_item ext item b).1 ≡ none
    → append_items ext (item ∷ items) b ≡ append_items ext items (append_item ext item b).0
unfolding append_items
append_items_step ext item items b e = rw (e, append_items) refl

-- In a sound log an item is written unless it is too long.
append_item_fine :
    (ext : External) (item : WalItem) (b : Batch)
    → IsSound b.wal
    → too_long item ≡ false
    → (append_item ext item b).1 ≡ none
unfolding append_item
append_item_fine ext item b v e =
    rw (e, append_item)
      (write_item-Counted ext item (maybe_rotate b) (maybe_rotate-Counted b v).sound).0

append_item_refused :
    (ext : External) (item : WalItem) (b : Batch)
    → too_long item ≡ true
    → append_item ext item b ≡ (maybe_rotate b, some item_too_long)
unfolding append_item
append_item_refused ext item b e = rw (e, append_item) refl

-- The first item that is too long, and the batch after those before it.
pub record Refusal (ext : External) (items : List WalItem) (b b' : Batch) (error : AppendError)
    : Type 0 where
  pub reason : error ≡ item_too_long
  pub before : List WalItem
  pub item : WalItem
  pub after : List WalItem
  pub split : items ≡ before ++ item ∷ after
  pub short : All (λ i. too_long i ≡ false) before
  pub long : too_long item ≡ true
  pub ran : (append_items ext before b).1 ≡ none
  pub stopped : b' ≡ maybe_rotate (append_items ext before b).0

refused_at_once :
    (ext : External) (item : WalItem) (items : List WalItem) (b : Batch)
    → too_long item ≡ true
    → append_items ext (item ∷ items) b ≡ (maybe_rotate b, some item_too_long)
unfolding append_items
refused_at_once ext item items b e =
    let one = append_item_refused ext item b e in
    rw (ap (λ r. r.1) one, append_items) (ap (λ r. (r.0, some item_too_long)) one)

Refusal-cons :
    (ext : External) (item : WalItem) (items : List WalItem) (b b' : Batch) (error : AppendError)
    → too_long item ≡ false
    → (append_item ext item b).1 ≡ none
    → Refusal ext items (append_item ext item b).0 b' error
    → Refusal ext (item ∷ items) b b' error
Refusal-cons ext item items b b' error short e r =
    let step = append_items_step ext item r.before b e in
    record {
      reason = r.reason;
      before = item ∷ r.before;
      item = r.item;
      after = r.after;
      split = ap (λ is. item ∷ is) r.split;
      short = (short, r.short);
      long = r.long;
      ran = rw step r.ran;
      stopped = rw step r.stopped;
    }

pub append_items-Refusal :
    (ext : External) (items : List WalItem) (b : Batch) (error : AppendError)
    → IsSound b.wal
    → (append_items ext items b).1 ≡ some error
    → Refusal ext items b (append_items ext items b).0 error
unfolding append_items
append_items-Refusal ext [] b error v h = absurd (grind arith)
append_items-Refusal ext (item ∷ items) b error v h = elim (Bool-cases (too_long item)) [
  | inl e ↦
      let at_once = refused_at_once ext item items b e in
      let same : some item_too_long ≡ some error = sym (ap (λ r. r.1) at_once) ∙ h in
      record {
        reason = cc;
        before = [];
        item = item;
        after = items;
        split = refl;
        short = tt;
        long = e;
        ran = refl;
        stopped = ap (λ r. r.0) at_once;
      }
  | inr e ↦
      let fine = append_item_fine ext item b v e in
      let step = append_items_step ext item items b fine in
      let one = (append_item-Counted ext item b v).0 in
      let rest =
        append_items-Refusal ext items (append_item ext item b).0 error one.sound
          (sym (ap (λ r. r.1) step) ∙ h) in
      rw step (Refusal-cons ext item items b _ error e fine rest)
]

-- A call that succeeds had no item that is too long.
pub append_items_short :
    (ext : External) (items : List WalItem) (b : Batch)
    → IsSound b.wal
    → (append_items ext items b).1 ≡ none
    → All (λ i. too_long i ≡ false) items
append_items_short ext [] b v h = tt
append_items_short ext (item ∷ items) b v h = elim (Bool-cases (too_long item)) [
  | inl e ↦
      let same : some item_too_long ≡ none =
        sym (ap (λ r. r.1) (refused_at_once ext item items b e)) ∙ h in
      absurd (grind arith)
  | inr e ↦
      let fine = append_item_fine ext item b v e in
      let step = append_items_step ext item items b fine in
      (
        e,
        append_items_short ext items (append_item ext item b).0
            (append_item-Counted ext item b v).0.sound (sym (ap (λ r. r.1) step) ∙ h),
      )
]
