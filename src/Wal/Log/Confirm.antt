-- ===== src/Wal/Log/Confirm.antt =====
-- `confirm`: the counts it lowers, and the files it may unlink.
use mathlib.Core.List.{foldl}
use mathlib.Core.Option
use r_search.Base.{
  ℕ, ◌+◌, ◌-◌, ◌≡◌, refl, ◌∙◌, inl, inr, Bool, false, List, [], ◌∷◌, Option, some, arith, ◌==◌,
  if◌then◌else◌, Option-cases, TreeMap, lookup, lookup-modify, Keys, Keys-modify, Keys-remove_all,
  count, lookup-remove_all,
}
use r_search.Wal.Log.{SegmentState, Wal, confirmed_seqs, collect_confirmed, confirm_one, confirm}
use r_search.Wal.Log.Counts.{
  outstanding_at, IsSound, lookup-collect_confirmed, outstanding_at-collect_confirmed,
}

-- A confirmed position leaves its count, down to 0 at least; the log stays sound.
lookup-confirm_one :
    (seg seq : ℕ) (m : TreeMap SegmentState)
    → outstanding_at seg (confirm_one m seq)
      ≡ (if seq == seg then outstanding_at seg m - 1 else outstanding_at seg m)
lookup-confirm_one seg seq m =
    ground (arith, lookup-modify seq seg (λ s. record s { outstanding = s.outstanding - 1 }) m)

outstanding_at-confirm_all :
    (seg : ℕ) (ps : List ℕ) (m : TreeMap SegmentState)
    → outstanding_at seg (foldl confirm_one m ps) ≡ outstanding_at seg m - count seg ps
outstanding_at-confirm_all seg [] m = omega arith
outstanding_at-confirm_all seg (p ∷ ps) m =
    ground (arith, outstanding_at-confirm_all seg ps (confirm_one m p), lookup-confirm_one seg p m)

Keys-confirm_all :
    (hi : ℕ) (ps : List ℕ) (m : TreeMap SegmentState)
    → Keys 0 hi m
    → Keys 0 hi (foldl confirm_one m ps)
Keys-confirm_all hi [] m k = k
Keys-confirm_all hi (p ∷ ps) m k =
    Keys-confirm_all hi ps (confirm_one m p) (Keys-modify 0 hi p _ m k)

-- `confirm` changes no flag and tracks nothing new.
abbrev sealed_of : Option SegmentState → Option Bool
sealed_of = Option.map (λ s. s.sealed)

lookup-confirm_all :
    (seg : ℕ) (ps : List ℕ) (m : TreeMap SegmentState)
    → sealed_of (lookup seg (foldl confirm_one m ps)) ≡ sealed_of (lookup seg m)
lookup-confirm_all seg [] m = refl
lookup-confirm_all seg (p ∷ ps) m =
    lookup-confirm_all seg ps (confirm_one m p)
    ∙ ground (arith, lookup-modify p seg (λ s. record s { outstanding = s.outstanding - 1 }) m)

module _ (ps : List ℕ) (w : Wal) (v : IsSound w) where
  abbrev lowered : TreeMap SegmentState
  lowered = foldl confirm_one w.segments ps

  Keys-lowered : Keys 0 (w.current_seq + 1) lowered
  Keys-lowered = Keys-confirm_all _ ps w.segments v.keys

  pub outstanding_at-confirm :
      (seg : ℕ)
      → outstanding_at seg (confirm ps w).segments ≡ outstanding_at seg w.segments - count seg ps
  unfolding confirm
  outstanding_at-confirm seg =
      outstanding_at-collect_confirmed seg 0 _ lowered Keys-lowered
      ∙ outstanding_at-confirm_all seg ps w.segments

  same_flag : sealed_of (lookup w.current_seq lowered) ≡ sealed_of (lookup w.current_seq w.segments)
  same_flag = lookup-confirm_all w.current_seq ps w.segments

  current-lowered :
      (s : SegmentState) × (lookup w.current_seq lowered ≡ some s) × (s.sealed ≡ false)
  current-lowered =
      let (s, e, open_) = v.current in
      elim (Option-cases (lookup w.current_seq lowered)) [
        | inl gone ↦ absurd (ground (arith, gone, e, same_flag))
        | inr (s', e') ↦ (s', e', ground (arith, e, e', open_, same_flag))
      ]

  pub confirm-IsSound : IsSound (confirm ps w)
  unfolding confirm
  confirm-IsSound = record {
    keys =
        unfold collect_confirmed in
        Keys-remove_all 0 _ (confirmed_seqs lowered) lowered Keys-lowered;
    current =
        (let (s, e, open_) = current-lowered in
          (
            s,
            rw (lookup-collect_confirmed w.current_seq 0 _ lowered Keys-lowered, e, open_),
            open_,
          ));
    stored = λ seg h.
        unfold collect_confirmed in
        rw (lookup-remove_all seg (confirmed_seqs lowered) lowered) (
          ground (
            arith,
            h,
            lookup-remove_all seg (confirmed_seqs lowered) w.disk,
            lookup-confirm_all seg ps w.segments,
            v.stored seg,
          ));
  }
