-- ===== src/Split/Directory.antt =====
-- Reads of a bundled file in crates/rsearch-index/src/storage_directory.rs. Sizes and offsets are
-- u64 that do not overflow. The block cache is an interface; the object store is a function.
pub mod Chunks
pub mod Fetch
pub mod Read
use mathlib.Core.List.{foldl}
use r_search.Base.{
  ℕ, zero, suc, ◌+◌, ◌-◌, ◌*◌, ◌/◌, ◌%◌, ◌^◌, ◌≤◌, ◌<◌, ◌≡◌, min, max, Bool, true, false, ◌&&◌,
  ◌||◌, not, List, [], ◌∷◌, ◌++◌, Option, none, some, ltb, leb, ◌==◌, if◌then◌else◌, length, take,
  drop, slice,
}

abbrev pub Bytes : Type 0
Bytes = List ℕ

pub record FileSpan : Type 0 where
  pub offset : ℕ
  pub len : ℕ

pub record Range : Type 0 where
  pub start : ℕ
  pub end : ℕ

pub data IoError : Type 0 where
  invalid_input storage_failed unexpected_eof : IoError

pub data Io {ℓ} (A : Type ℓ) : Type ℓ where
  ok : A → Io A
  err : IoError → Io A

infixl 5 ◌>>=◌
abbrev pub ◌>>=◌ {ℓ κ} : {A : Type ℓ} {B : Type κ} → Io A → (A → Io B) → Io B
ok a >>= f = f a
err e >>= f = err e

abbrev pub block_len : ℕ → ℕ → ℕ → ℕ
block_len len block_size index = min (len - index * block_size) block_size

-- `len.div_ceil(block_size)`.
unfoldable pub div_ceil : ℕ → ℕ → ℕ
div_ceil a b = if a % b == 0 then a / b else a / b + 1

abbrev pub fetch_chunk_bytes : ℕ
fetch_chunk_bytes = 8 * 2 ^ 20

unfoldable pub chunk_blocks : ℕ → ℕ
chunk_blocks block_size = max (fetch_chunk_bytes / block_size) 1

-- A round of the loop over the indices: the last run grows, or a new one begins.
unfoldable pub add_run : List Range → ℕ → List Range
add_run [] index = record { start = index; end = index + 1 } ∷ []
add_run (run ∷ []) index =
    if run.end == index
    then record { start = run.start; end = run.end + 1 } ∷ []
    else run ∷ record { start = index; end = index + 1 } ∷ []
add_run (run ∷ next ∷ runs) index = run ∷ add_run (next ∷ runs) index

abbrev pub runs_of : List ℕ → List Range
runs_of = foldl add_run []

-- Read-ahead past the last run.
unfoldable pub extend_last : ℕ → ℕ → List Range → List Range
extend_last readahead total [] = []
extend_last readahead total (run ∷ []) =
    record { start = run.start; end = min (run.end + readahead) total } ∷ []
extend_last readahead total (run ∷ next ∷ runs) = run ∷ extend_last readahead total (next ∷ runs)

-- `(start..end).step_by(step)`, each start with its chunk; a run has `end - start` rounds at most.
unfoldable pub cut_run : ℕ → ℕ → ℕ → ℕ → List Range
cut_run zero step start end = []
cut_run (suc fuel) step start end =
    let rest = cut_run fuel step (start + step) end in
    if ltb start end then record { start = start; end = min (start + step) end } ∷ rest else []

unfoldable pub cut_runs : ℕ → List Range → List Range
cut_runs step [] = []
cut_runs step (run ∷ runs) =
    cut_run (run.end - run.start) step run.start run.end ++ cut_runs step runs

unfoldable pub chunks_of : ℕ → ℕ → ℕ → List ℕ → List Range
chunks_of len block_size readahead indices =
    cut_runs (chunk_blocks block_size)
      (extend_last readahead (div_ceil len block_size) (runs_of indices))

-- `data.chunks(block_size)`, with the index of each piece.
unfoldable pub pieces : ℕ → ℕ → ℕ → Bytes → List (ℕ × Bytes)
pieces zero block_size index data_ = []
pieces (suc fuel) block_size index [] = []
pieces (suc fuel) block_size index (b ∷ bs) =
    (index, take block_size (b ∷ bs))
    ∷ pieces fuel block_size (index + 1) (drop block_size (b ∷ bs))

-- The object store's `get_range`, for the object of the split; `none` is its error.
abbrev pub Store : Type 0
Store = ℕ → ℕ → Option Bytes

unfoldable pub fetch_chunk : Store → FileSpan → ℕ → Range → Io (List (ℕ × Bytes))
fetch_chunk get_range span block_size chunk =
    let from = chunk.start * block_size in
    let to = min (chunk.end * block_size) span.len in
    elim (get_range (span.offset + from) (span.offset + to)) [
      | none ↦ err storage_failed
      | some got ↦
          if length got == to - from
          then ok (pieces (length got) block_size chunk.start got)
          else err unexpected_eof
    ]

-- The chunks in order; the first error is the result.
unfoldable pub fetch_chunks : Store → FileSpan → ℕ → List Range → Io (List (ℕ × Bytes))
fetch_chunks get_range span block_size [] = ok []
fetch_chunks get_range span block_size (chunk ∷ chunks) = do
  first ← fetch_chunk get_range span block_size chunk
  rest ← fetch_chunks get_range span block_size chunks
  ok (first ++ rest)

unfoldable pub fetch : Store → FileSpan → ℕ → List ℕ → ℕ → Io (List (ℕ × Bytes))
fetch get_range span block_size indices readahead =
    fetch_chunks get_range span block_size (chunks_of span.len block_size readahead indices)
