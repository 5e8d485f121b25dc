-- ===== src/Exclusions/Growth.antt =====
-- A list of tombstones that grows is applied in parts, as at once; the lists of a set stay in order.
use mathlib.Core.Path.{subst}
use r_search.Base.{
  ℕ, ◌<◌, ◌≡◌, refl, sym, ◌∙◌, true, List, [], ◌∷◌, ◌++◌, map, arith, ◌==◌, Bool-cases, inl, inr, ℤ,
  leb_ℤ, ltb_ℤ, compare, Any, compare-IsWeak, All,
}
use r_search.Search.TopK.{sort_by, insert_by, insert_all, Sorted}
use r_search.Search.TopK.Steps.{insert_by-Sorted}
use r_search.Exclusions.{
  Tombstone, ExclusionSet, SplitReader, dedup_from, dedup, merge_docs, extend_segments, extended,
  total_of, additions, pending_of, last_seq, apply_pending, apply_tombstones, empty, no_docs,
}
use r_search.Exclusions.Apply.{IsApplied, IsSplit, through, apply_tombstones-IsApplied}

-- By `seq`, none twice.
abbrev pub Ascending : List Tombstone → Type 0
Ascending [] = Unit
Ascending (t ∷ ts) = All (λ u. ltb_ℤ t.seq u.seq ≡ true) ts × Ascending ts

-- The mark lies between the one tombstones and the others.
abbrev Between : ℤ → List Tombstone → List Tombstone → Type 0
Between mark ts more =
    All (λ t. leb_ℤ t.seq mark ≡ true) ts × All (λ u. ltb_ℤ mark u.seq ≡ true) more

through-Between :
    (mark : ℤ) (ts more : List Tombstone) → Between mark ts more → through mark (ts ++ more) ≡ ts
through-Between mark [] [] h = refl
through-Between mark [] (u ∷ more) (h, (k, ks)) = ground arith
through-Between mark (t ∷ ts) more ((h, hs), k) = rw (h, through-Between mark ts more (hs, k)) refl

last-Between :
    (t : Tombstone) (ts more : List Tombstone)
    → Ascending (t ∷ (ts ++ more))
    → Between (last_seq t ts) (t ∷ ts) more
last-Between t [] more (h, a) = ((ground arith, tt), h)
last-Between t (u ∷ us) more ((h, hs), a) =
    let ((low, lows), high) = last-Between u us more a in ((ground arith, (low, lows)), high)

pending-last :
    (mark : ℤ) (t : Tombstone) (ts : List Tombstone) (p : Tombstone) (ps : List Tombstone)
    → pending_of mark (t ∷ ts) ≡ p ∷ ps
    → last_seq p ps ≡ last_seq t ts
pending-last mark t [] p ps e = ground arith
pending-last mark t (u ∷ us) p ps e = elim (Bool-cases (leb_ℤ t.seq mark)) [
  | inl f ↦ pending-last mark u us p ps (ground arith)
  | inr f ↦ ground arith
]

pending-none :
    (mark : ℤ) (ts : List Tombstone)
    → pending_of mark ts ≡ []
    → All (λ t. leb_ℤ t.seq mark ≡ true) ts
pending-none mark [] e = tt
pending-none mark (t ∷ ts) e = ground (arith, pending-none mark ts)

marked :
    (split : SplitReader) (set : ExclusionSet) (p : Tombstone) (ps : List Tombstone)
    → (apply_pending split set (p ∷ ps)).applied_through ≡ last_seq p ps
unfolding extended
marked split set p ps = elim (Bool-cases split.has_ids) [ inl e ↦ rw e refl | inr e ↦ rw e refl ]

mark-Between :
    (split : SplitReader) (set : ExclusionSet) (ts more pending : List Tombstone)
    → Ascending (ts ++ more)
    → All (λ u. ltb_ℤ set.applied_through u.seq ≡ true) more
    → pending_of set.applied_through ts ≡ pending
    → Between (apply_pending split set pending).applied_through ts more
mark-Between split set ts more [] a h e = (pending-none set.applied_through ts e, h)
mark-Between split set [] more (p ∷ ps) a h e = absurd (grind arith)
mark-Between split set (t ∷ ts) more (p ∷ ps) a h e =
    subst (λ mark. Between mark (t ∷ ts) more)
      (sym (marked split set p ps ∙ pending-last set.applied_through t ts p ps e))
      (last-Between t ts more a)

-- For tombstones in ascending order, of which those that come later are past the set's mark, a set
-- that matches the tombstones through its mark, extended by a list and then by the list that it
-- has grown to, excludes in each segment just what the whole list hides.
pub apply_twice-IsApplied :
    (split : SplitReader) (set : ExclusionSet) (ts more : List Tombstone)
    → IsSplit split
    → IsApplied split (through set.applied_through ts) set
    → Ascending (ts ++ more)
    → All (λ u. ltb_ℤ set.applied_through u.seq ≡ true) more
    → IsApplied split
        (ts ++ more)
        (apply_tombstones split (apply_tombstones split set ts) (ts ++ more))
unfolding apply_tombstones
apply_twice-IsApplied split set ts more s m a h =
    let between = mark-Between split set ts more (pending_of set.applied_through ts) a h refl in
    let first = apply_tombstones split set ts in
    apply_tombstones-IsApplied split (ts ++ more) first s (
      subst (λ vs. IsApplied split vs first)
        (sym (through-Between first.applied_through ts more between))
        (apply_tombstones-IsApplied split ts set s m))

-- In order, none twice.
abbrev pub Strict : List ℕ → Type 0
Strict [] = Unit
Strict (d ∷ ds) = All (λ e. d < e) ds × Strict ds

All-above : (d e : ℕ) (ds : List ℕ) → d < e → All (λ x. e < x) ds → All (λ x. d < x) ds
All-above d e [] h all = tt
All-above d e (x ∷ ds) h (k, all) = (omega arith, All-above d e ds h all)

dedup_from-Strict : (d : ℕ) (ds : List ℕ) → Sorted compare (d ∷ ds) → Strict (d ∷ dedup_from d ds)
dedup_from-Strict d [] s = (tt, tt)
dedup_from-Strict d (e ∷ ds) ((h, hs), s) = elim (Bool-cases (e == d)) [
  | inl f ↦
      let same : e ≡ d = ground arith in
      rw (f, same) (subst (λ x. Strict (x ∷ dedup_from x ds)) same (dedup_from-Strict e ds s))
  | inr f ↦ rw f (
      let (above, strict) = dedup_from-Strict e ds s in
      let below : d < e = ground arith in
      ((below, All-above d e (dedup_from e ds) below above), (above, strict)))
]

All-Any : (ds : List ℕ) → All Any ds
All-Any [] = tt
All-Any (d ∷ ds) = (tt, All-Any ds)

insert_all-ordered :
    (ss ds : List ℕ) → Sorted compare ss → Sorted compare (insert_all compare ss ds)
insert_all-ordered ss [] s = s
insert_all-ordered ss (d ∷ ds) s =
    insert_all-ordered (insert_by compare d ss) ds
      (insert_by-Sorted Any compare compare-IsWeak d ss tt (All-Any ss) s)

merge_docs-Strict : (docs added : List ℕ) → Strict docs → Strict (merge_docs docs added)
unfolding merge_docs
merge_docs-Strict docs [] s = s
merge_docs-Strict docs (a ∷ added) s =
    deduped (sort_by compare (docs ++ (a ∷ added))) (insert_all-ordered [] (docs ++ (a ∷ added)) tt)
  where
    deduped : (ds : List ℕ) → Sorted compare ds → Strict (dedup ds)
    deduped [] h = tt
    deduped (d ∷ ds) h = dedup_from-Strict d ds h

-- The lists are strictly ascending, and counted.
pub record IsTidy (set : ExclusionSet) : Type 0 where
  pub strict : All Strict set.per_segment
  pub counted : set.total ≡ total_of set.per_segment

extend-Strict : (per adds : List (List ℕ)) → All Strict per → All Strict (extend_segments per adds)
extend-Strict [] adds h = tt
extend-Strict (docs ∷ per) [] (h, hs) = (merge_docs-Strict docs [] h, extend-Strict per [] hs)
extend-Strict (docs ∷ per) (added ∷ adds) (h, hs) =
    (merge_docs-Strict docs added h, extend-Strict per adds hs)

extended-IsTidy :
    (set : ExclusionSet) (adds : List (List ℕ)) (mark : ℤ)
    → IsTidy set
    → IsTidy (extended set adds mark)
unfolding extended
extended-IsTidy set adds mark h = record {
  strict = extend-Strict set.per_segment adds h.strict;
  counted = refl;
}

-- Applying tombstones keeps every list of a set strictly ascending and its total the number of the
-- excluded documents.
pub apply_tombstones-IsTidy :
    (split : SplitReader) (ts : List Tombstone) (set : ExclusionSet)
    → IsTidy set
    → IsTidy (apply_tombstones split set ts)
unfolding apply_tombstones
apply_tombstones-IsTidy split ts set h = tidy (pending_of set.applied_through ts)
  where
    tidy : (us : List Tombstone) → IsTidy (apply_pending split set us)
    tidy [] = h
    tidy (u ∷ us) = elim (Bool-cases split.has_ids) [
      | inl e ↦ rw e (
          extended-IsTidy set (map (additions split.seq_min (u ∷ us)) split.segments)
            (last_seq u us) h)
      | inr e ↦ rw e (extended-IsTidy set [] (last_seq u us) h)
    ]

no_docs-IsTidy : (ids : List ℕ) → All Strict (no_docs ids) × (total_of (no_docs ids) ≡ 0)
no_docs-IsTidy [] = (tt, refl)
no_docs-IsTidy (id ∷ ids) = let (h, e) = no_docs-IsTidy ids in ((tt, h), omega (arith, e))

pub empty-IsTidy : (ids : List ℕ) → IsTidy (empty ids)
unfolding empty
empty-IsTidy ids = record { strict = (no_docs-IsTidy ids).0; counted = sym (no_docs-IsTidy ids).1 }
