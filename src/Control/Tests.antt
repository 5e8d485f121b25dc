-- ===== src/Control/Tests.antt =====
-- Runs of the merge choice, and the theorems at them.
use r_search.Base.{ℕ, ◌+◌, ◌^◌, ◌≡◌, refl, List, [], ◌∷◌, some, arith}
use r_search.Control.Merge.{
  SplitRecord, outweighs, cut_loop, merge_candidates, take_loop, merge_take, eligible_of,
  group_by_stream, select_merge_group,
}
use r_search.Control.Merge.Skew.{IsCut, merge_candidates-IsCut}
use r_search.Control.Merge.Select.{IsNext, select_merge_group-IsNext}
use r_search.Control.Merge.Take.{IsTake, merge_take-IsTake}

abbrev split : ℕ → ℕ → ℕ → SplitRecord
split id stream size = record { id = id; stream_id = stream; size_bytes = size }

abbrev skewed : List SplitRecord
skewed = split 1 1 5 ∷ split 2 1 9000 ∷ split 3 1 7 ∷ split 4 1 200 ∷ []

skewed_candidates : merge_candidates skewed ≡ split 1 1 5 ∷ split 3 1 7 ∷ []
unfolding merge_candidates cut_loop outweighs
skewed_candidates = refl

-- Five sizes of which each fits an i64 and the sums of the later ones do not: they wrap, and
-- three sizes are cut although none dominates.
wrapping :
    cut_loop 0 0 ((2 ^ 62 + 4) ∷ (2 ^ 62 + 3) ∷ (2 ^ 62 + 2) ∷ (2 ^ 62 + 1) ∷ (2 ^ 62) ∷ []) ≡ 3
unfolding cut_loop outweighs
wrapping = refl

merge_candidates-IsCut_example : (t : ℕ) × IsCut skewed t (merge_candidates skewed)
merge_candidates-IsCut_example = merge_candidates-IsCut skewed (omega arith)

two_taken : merge_take skewed 9000 10 ≡ 2
unfolding merge_take take_loop
two_taken = refl

merge_take-IsTake_example : IsTake skewed 9000 10 (merge_take skewed 9000 10)
merge_take-IsTake_example = merge_take-IsTake skewed 9000 10 (omega arith) (omega arith)

-- Stream 2 follows stream 1; after stream 2 the choice wraps.
abbrev two_streams : List SplitRecord
two_streams = split 1 2 5 ∷ split 2 1 6 ∷ split 3 2 7 ∷ split 4 1 8 ∷ []

next_stream : select_merge_group two_streams 100 10 1 ≡ some (2, split 1 2 5 ∷ split 3 2 7 ∷ [])
unfolding select_merge_group eligible_of merge_candidates cut_loop outweighs merge_take take_loop
next_stream = refl

wrapped : select_merge_group two_streams 100 10 2 ≡ some (1, split 2 1 6 ∷ split 4 1 8 ∷ [])
unfolding select_merge_group eligible_of merge_candidates cut_loop outweighs merge_take take_loop
wrapped = refl

select_merge_group-IsNext_example :
    IsNext 1
      (eligible_of 100 10 (group_by_stream [] two_streams))
      (select_merge_group two_streams 100 10 1)
select_merge_group-IsNext_example = select_merge_group-IsNext two_streams 100 10 1 3 (omega arith)
