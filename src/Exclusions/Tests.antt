-- ===== src/Exclusions/Tests.antt =====
-- Runs of the application of tombstones, and the theorems at them.
use r_search.Base.{◌≡◌, refl, true, [], ◌∷◌, ◌++◌, none, some, arith, ◌==◌, if◌then◌else◌, pos}
use r_search.Exclusions.{Tombstone, Segment, SplitReader, empty, is_excluded, apply_tombstones}
use r_search.Exclusions.Docs.{hidden_by}
use r_search.Exclusions.Apply.{IsApplied, IsSplit, apply_tombstones-IsApplied, is_excluded_lem}
use r_search.Exclusions.Growth.{
  IsTidy, empty-IsTidy, apply_tombstones-IsTidy, apply_twice-IsApplied,
}
use r_search.Exclusions.Walk.{
  SortedDocSet, walk_of, seek, ahead, from_target, seek_lem, drain, drain_lem,
}

-- One segment: the documents 3 and 7 have the id "x", with the `_seq` 3 and 7.
abbrev one_segment : Segment
one_segment = record {
  postings = λ id. elim id [ [] ↦ none | c ∷ cs ↦ if c == 120 then some (3 ∷ 7 ∷ []) else none ];
  seq_column = λ doc. some (pos doc);
}

abbrev one_split : SplitReader
one_split = record { has_ids = true; seq_min = none; segments = one_segment ∷ [] }

abbrev before_five : Tombstone
before_five = record { seq = pos 1; doc_id = 120 ∷ []; before_seq = pos 5 }

abbrev before_nine : Tombstone
before_nine = record { seq = pos 2; doc_id = 120 ∷ []; before_seq = pos 9 }

one_split-IsSplit : IsSplit one_split
one_split-IsSplit = record { bounded = (tt, tt); legacy = λ e. absurd (grind arith) }

empty-IsApplied : IsApplied one_split [] (empty (40 ∷ []))
unfolding empty
empty-IsApplied = (λ doc. refl, tt)

apply_tombstones-IsApplied_example :
    IsApplied one_split
      (before_five ∷ before_nine ∷ [])
      (apply_tombstones one_split (empty (40 ∷ [])) (before_five ∷ before_nine ∷ []))
unfolding empty
apply_tombstones-IsApplied_example =
    apply_tombstones-IsApplied one_split (before_five ∷ before_nine ∷ []) (empty (40 ∷ []))
      one_split-IsSplit empty-IsApplied

is_excluded_lem_example :
    is_excluded (apply_tombstones one_split (empty (40 ∷ [])) (before_five ∷ before_nine ∷ [])) 0 7
    ≡ hidden_by one_segment (before_five ∷ before_nine ∷ []) 7
is_excluded_lem_example =
    is_excluded_lem one_split (before_five ∷ before_nine ∷ [])
      (apply_tombstones one_split (empty (40 ∷ [])) (before_five ∷ before_nine ∷ [])) 0 7
      one_segment apply_tombstones-IsApplied_example refl

apply_twice-IsApplied_example : IsApplied one_split ((before_five ∷ []) ++ (before_nine ∷ [])) (
    apply_tombstones one_split
      (apply_tombstones one_split (empty (40 ∷ [])) (before_five ∷ []))
      ((before_five ∷ []) ++ (before_nine ∷ [])))
unfolding empty
apply_twice-IsApplied_example =
    apply_twice-IsApplied one_split (empty (40 ∷ [])) (before_five ∷ []) (before_nine ∷ [])
      one_split-IsSplit empty-IsApplied ((refl, tt), (tt, tt)) (refl, tt)

apply_tombstones-IsTidy_example :
    IsTidy (apply_tombstones one_split (empty (40 ∷ [])) (before_five ∷ []))
apply_tombstones-IsTidy_example =
    apply_tombstones-IsTidy one_split (before_five ∷ []) (empty (40 ∷ [])) (empty-IsTidy (40 ∷ []))

abbrev three_docs : SortedDocSet
three_docs = walk_of (3 ∷ 7 ∷ 9 ∷ [])

seek_lem_example : ahead (seek three_docs 5) ≡ from_target 5 (ahead three_docs)
seek_lem_example =
    seek_lem three_docs 5 ((omega arith, (omega arith, tt)), ((omega arith, tt), (tt, tt)))
      (omega arith)

drain_lem_example : drain 100 4 three_docs ≡ ahead three_docs
drain_lem_example =
    drain_lem 100 4 three_docs (omega arith, (omega arith, (omega arith, tt))) (omega arith)
      (omega arith)
