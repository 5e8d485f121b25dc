-- ===== src/Split/Tests.antt =====
-- Runs of the bundled reads on a small object, and the theorems at it.
use r_search.Base.{
  ℕ, ◌≤◌, ◌<◌, ◌≡◌, refl, inl, inr, Bool, true, false, List, [], ◌∷◌, Option, none, some, arith,
  leb, ◌==◌, if◌then◌else◌, Bool-cases, All, slice,
}
use r_search.Split.Directory.{
  Bytes, FileSpan, ok, Store, div_ceil, chunks_of, chunk_blocks, cut_runs, cut_run, extend_last,
  add_run, pieces, fetch_chunk, fetch_chunks, fetch,
}
use r_search.Split.Directory.Chunks.{Fits, asked, covered, chunks_of_lem}
use r_search.Split.Directory.Fetch.{block, AreBlocks, has_index, IsHonest, file_of, fetch-Fetched}
use r_search.Split.Directory.Read.{
  BlockCache, continues_sequential_read, done, load, place, copy_out, assemble, read_loop,
  fetch_mine, finish_read, read,
}
use r_search.Split.Directory.Read.Correct.{IsTrueBlock, KeepsTruth, IsRead, read-IsRead}
use r_search.Split.Directory.Read.Progress.{Answers}
use r_search.Split.Directory.Read.Returns.{read_returns}

-- A cache that keeps every block.
abbrev find : ℕ → List (ℕ × Bytes) → Option Bytes
find i [] = none
find i ((j, b) ∷ s) = let rest = find i s in if i == j then some b else rest

abbrev toy : BlockCache
toy = record {
  State = List (ℕ × Bytes);
  get_block = λ index len s. (find index s, s);
  put_block = λ index b s. (index, b) ∷ s;
}

abbrev object : Bytes
object = 9 ∷ 1 ∷ 2 ∷ 3 ∷ 4 ∷ 5 ∷ 9 ∷ []

abbrev span : FileSpan
span = record { offset = 1; len = 5 }

abbrev store : Store
store from to = if leb to 7 then some (slice object from to) else none

store-IsHonest : IsHonest object span 2 store
store-IsHonest from to got e = ground arith

store-Answers : Answers object store
store-Answers from to h k = rw (le_7 to k) refl
  where
    le_7 : (n : ℕ) → n ≤ 7 → leb n 7 ≡ true
    le_7 n h = ground arith

abbrev Kept : List (ℕ × Bytes) → Type 0
Kept = AreBlocks (file_of object span 2 store) 2

find-True :
    (i : ℕ) (s : List (ℕ × Bytes)) → Kept s → IsTrueBlock toy object span 2 store i (find i s)
find-True i [] h = tt
find-True i ((j, c) ∷ s) (h, t) = elim (Bool-cases (i == j)) [
  | inl e ↦ let same : i ≡ j = ground arith in rw e (rw same h)
  | inr e ↦ rw e (find-True i s t)
]

toy-KeepsTruth : KeepsTruth toy object span 2 store Kept
toy-KeepsTruth = (λ i n s h. (find-True i s h, h), λ i s h. (refl, h))

both_inside : All (λ i. i < div_ceil 5 2) (0 ∷ 2 ∷ [])
unfolding div_ceil
both_inside = omega arith

chunks_of_lem_example :
    All (Fits (div_ceil 5 2)) (chunks_of 5 2 1 (0 ∷ 2 ∷ []))
    × (asked 2 (0 ∷ 2 ∷ []) ≡ true → covered 2 (chunks_of 5 2 1 (0 ∷ 2 ∷ [])) ≡ true)
chunks_of_lem_example = chunks_of_lem 5 2 1 2 (0 ∷ 2 ∷ []) both_inside

abbrev fetched : List (ℕ × Bytes)
fetched = (0, 1 ∷ 2 ∷ []) ∷ (2, 5 ∷ []) ∷ []

two_fetched : fetch store span 2 (0 ∷ 2 ∷ []) 1 ≡ ok fetched
unfolding fetch fetch_chunks fetch_chunk chunks_of chunk_blocks cut_runs cut_run extend_last add_run
    div_ceil pieces
two_fetched = refl

fetch-Fetched_example :
    AreBlocks (file_of object span 2 store) 2 fetched
    × ((j : ℕ) → asked j (0 ∷ 2 ∷ []) ≡ true → has_index j fetched ≡ true)
fetch-Fetched_example =
    fetch-Fetched object span 2 store (omega arith) (omega arith) store-IsHonest (0 ∷ 2 ∷ []) 1
      fetched both_inside two_fetched

-- Another reader holds block 1 in the first pass and has put it into the cache by the second.
abbrev held : ℕ → ℕ → Bool
held pass i = if pass == 0 then i == 1 else false

abbrev put_1 : ℕ → List (ℕ × Bytes) → List (ℕ × Bytes)
put_1 pass s = (1, block (file_of object span 2 store) 2 1) ∷ s

waited :
    read toy store span 2 held put_1 3 0 0 1 5 []
    ≡ done (2 ∷ 3 ∷ 4 ∷ 5 ∷ []) 2 ((1, 3 ∷ 4 ∷ []) ∷ (2, 5 ∷ []) ∷ (0, 1 ∷ 2 ∷ []) ∷ [])
unfolding read read_loop load place fetch_mine finish_read assemble copy_out
    continues_sequential_read fetch fetch_chunks fetch_chunk chunks_of chunk_blocks cut_runs cut_run
    extend_last add_run div_ceil pieces
waited = refl

read-IsRead_example :
    IsRead toy object span 2 store
      (omega arith)
      (omega arith)
      store-IsHonest
      Kept
      toy-KeepsTruth
      held
      put_1
      (λ p s h. (refl, h))
      1
      5
      (read toy store span 2 held put_1 3 0 0 1 5 [])
read-IsRead_example =
    read-IsRead toy object span 2 store (omega arith) (omega arith) store-IsHonest Kept
      toy-KeepsTruth held put_1 (λ p s h. (refl, h)) 3 0 0 1 5 [] tt

read_returns_example :
    (last : ℕ) × (s : List (ℕ × Bytes)) × (read toy store span 2 (λ p i. false) put_1 2 0 0 1 5 []
      ≡ done (2 ∷ 3 ∷ 4 ∷ 5 ∷ []) last s)
read_returns_example =
    read_returns toy object span 2 store (omega arith) (omega arith) store-IsHonest store-Answers
      Kept toy-KeepsTruth put_1 (λ p s h. (refl, h)) 0 0 0 1 5 [] tt (omega arith) (omega arith)
