-- ===== src/Exclusions/Apply.antt =====
-- A set after the tombstones excludes what they hide.
use mathlib.Core.Path.{subst}
use r_search.Base.{
  ℕ, zero, suc, ◌≡◌, refl, sym, ap, ◌∙◌, Bool, true, false, ◌||◌, List, [], ◌∷◌, ◌++◌, append-nil,
  map, Option, none, some, arith, if◌then◌else◌, Bool-cases, inl, inr, ℤ, leb_ℤ, contains,
  get_elem?, All,
}
use r_search.Exclusions.{
  Tombstone, ExclusionSet, Segment, SplitReader, docs_at, is_excluded, merge_docs, extend_segments,
  extended, additions, pending_of, apply_pending, apply_tombstones,
}
use r_search.Exclusions.Docs.{
  contains-merge_docs, hidden_by, hidden_by-append, Bounded, contains-additions,
}

-- The lists of a set are those of the documents that the tombstones hide, segment by segment.
abbrev pub Matches : List Tombstone → List Segment → List (List ℕ) → Type 0
Matches ts [] [] = Unit
Matches ts [] (docs ∷ per) = ⊥
Matches ts (segment ∷ segments) [] = ⊥
Matches ts (segment ∷ segments) (docs ∷ per) =
    ((doc : ℕ) → contains doc docs ≡ hidden_by segment ts doc) × Matches ts segments per

-- What is known of a split: its bound, and that without ids it has no postings.
pub record IsSplit (split : SplitReader) : Type 0 where
  pub bounded : All (Bounded split.seq_min) split.segments
  pub legacy :
      split.has_ids ≡ false
      → All (λ (segment : Segment). (id : List ℕ) → segment.postings id ≡ none) split.segments

-- The tombstones up to the partition point.
abbrev pub through : ℤ → List Tombstone → List Tombstone
through applied [] = []
through applied (t ∷ ts) =
    let rest = through applied ts in if leb_ℤ t.seq applied then t ∷ rest else []

through-pending :
    (applied : ℤ) (ts : List Tombstone) → through applied ts ++ pending_of applied ts ≡ ts
through-pending applied [] = refl
through-pending applied (t ∷ ts) = ground (arith, through-pending applied ts)

extend-Matches :
    (ts us : List Tombstone) (segments : List Segment) (per : List (List ℕ)) (seq_min : Option ℤ)
    → All (Bounded seq_min) segments
    → Matches ts segments per
    → Matches (ts ++ us) segments (extend_segments per (map (additions seq_min us) segments))
extend-Matches ts us [] [] seq_min b m = tt
extend-Matches ts us [] (docs ∷ per) seq_min b m = absurd m
extend-Matches ts us (segment ∷ segments) [] seq_min b m = absurd m
extend-Matches ts us (segment ∷ segments) (docs ∷ per) seq_min (b, bs) (m, ms) = (
  λ doc.
      contains-merge_docs doc docs (additions seq_min us segment)
      ∙ (rw (m doc, contains-additions segment seq_min us doc b) refl
          ∙ sym (hidden_by-append segment ts us doc)),
  extend-Matches ts us segments per seq_min bs ms,
)

hidden_none :
    (segment : Segment) (us : List Tombstone) (doc : ℕ)
    → ((id : List ℕ) → segment.postings id ≡ none)
    → hidden_by segment us doc ≡ false
hidden_none segment [] doc h = refl
hidden_none segment (u ∷ us) doc h = rw (h u.doc_id, hidden_none segment us doc h) refl

legacy-Matches :
    (ts us : List Tombstone) (segments : List Segment) (per : List (List ℕ))
    → All (λ (segment : Segment). (id : List ℕ) → segment.postings id ≡ none) segments
    → Matches ts segments per
    → Matches (ts ++ us) segments (extend_segments per [])
unfolding merge_docs
legacy-Matches ts us [] [] h m = tt
legacy-Matches ts us [] (docs ∷ per) h m = absurd m
legacy-Matches ts us (segment ∷ segments) [] h m = absurd m
legacy-Matches ts us (segment ∷ segments) (docs ∷ per) (h, hs) (m, ms) = (
  λ doc.
      m doc
      ∙ sym (
          hidden_by-append segment ts us doc
          ∙ rw (hidden_none segment us doc h) (or_false (hidden_by segment ts doc))),
  legacy-Matches ts us segments per hs ms,
)
  where
    or_false : (b : Bool) → (b || false) ≡ b
    or_false true = refl
    or_false false = refl

-- A set that excludes what the tombstones up to its mark hide.
abbrev pub IsApplied : SplitReader → List Tombstone → ExclusionSet → Type 0
IsApplied split ts set = Matches ts split.segments set.per_segment

apply_pending-IsApplied :
    (split : SplitReader) (ts us : List Tombstone) (set : ExclusionSet)
    → IsSplit split
    → IsApplied split ts set
    → IsApplied split (ts ++ us) (apply_pending split set us)
unfolding extended
apply_pending-IsApplied split ts [] set s m =
    subst (λ vs. IsApplied split vs set) (sym (append-nil ts)) m
apply_pending-IsApplied split ts (u ∷ us) set s m = elim (Bool-cases split.has_ids) [
  | inl e ↦
      rw e (extend-Matches ts (u ∷ us) split.segments set.per_segment split.seq_min s.bounded m)
  | inr e ↦ rw e (legacy-Matches ts (u ∷ us) split.segments set.per_segment (s.legacy e) m)
]

-- A set that matches the tombstones through its mark excludes, after apply_tombstones, just the
-- documents that the whole list hides, in each segment, for a split whose lowest seq bounds its
-- documents and which has no postings when it has no ids.
pub apply_tombstones-IsApplied :
    (split : SplitReader) (ts : List Tombstone) (set : ExclusionSet)
    → IsSplit split
    → IsApplied split (through set.applied_through ts) set
    → IsApplied split ts (apply_tombstones split set ts)
unfolding apply_tombstones
apply_tombstones-IsApplied split ts set s m =
    subst (λ vs. IsApplied split vs (apply_tombstones split set ts))
      (through-pending set.applied_through ts)
      (apply_pending-IsApplied split (through set.applied_through ts)
        (pending_of set.applied_through ts) set s m)

-- A document is excluded as the tombstones hide it.
pub is_excluded_lem :
    (split : SplitReader) (ts : List Tombstone) (set : ExclusionSet) (ord doc : ℕ)
    (segment : Segment)
    → IsApplied split ts set
    → get_elem? split.segments ord ≡ some segment
    → is_excluded set ord doc ≡ hidden_by segment ts doc
unfolding is_excluded
is_excluded_lem split ts set ord doc segment m e = at split.segments set.per_segment ord m e
  where
    at :
        (segments : List Segment) (per : List (List ℕ)) (ord : ℕ)
        → Matches ts segments per
        → get_elem? segments ord ≡ some segment
        → contains doc (docs_at per (some ord)) ≡ hidden_by segment ts doc
    at [] per ord m e = absurd (grind arith)
    at (s ∷ segments) [] ord m e = absurd m
    at (s ∷ segments) (docs ∷ per) zero (m, ms) e =
        let same : s ≡ segment = grind arith in m doc ∙ ap (λ t. hidden_by t ts doc) same
    at (s ∷ segments) (docs ∷ per) (suc ord) (m, ms) e = at segments per ord ms e
