-- ===== src/Split/Directory/Fetch.antt =====
-- A fetch returns true blocks of the file, among them every claimed one.
use mathlib.Core.Path.{subst}
use native.Mathlib.Nat.{div-add-mod}
use r_search.Base.{
  ℕ, zero, suc, ◌+◌, ◌-◌, ◌*◌, ◌/◌, ◌≤◌, ◌<◌, ◌≡◌, refl, sym, ap, ◌∙◌, inl, inr, min, Bool, true,
  false, List, [], ◌∷◌, ◌++◌, some, arith, ltb, leb, ◌==◌, if◌then◌else◌, Bool-cases, ltb→lt,
  ltb→le, Option-cases, All, All-append, length, take, drop, slice, length-slice, length-take,
  length-drop, drop-take, take-take-min, drop-drop, slice-slice,
}
use r_search.Split.Directory.{
  Bytes, FileSpan, Range, Io, ok, err, ◌>>=◌, div_ceil, block_len, chunks_of, pieces, Store,
  fetch_chunk, fetch_chunks, fetch,
}
use r_search.Split.Directory.Chunks.{in_range, covered, Fits, asked, chunks_of_lem}

-- Block `index` of a file.
abbrev pub block : Bytes → ℕ → ℕ → Bytes
block file block_size index =
    take (block_len (length file) block_size index) (drop (index * block_size) file)

-- Each entry is the block that its index names.
abbrev pub AreBlocks : Bytes → ℕ → List (ℕ × Bytes) → Type 0
AreBlocks file block_size = All (λ p. p.1 ≡ block file block_size p.0)

abbrev pub has_index : ℕ → List (ℕ × Bytes) → Bool
has_index j [] = false
has_index j ((i, b) ∷ ps) = let rest = has_index j ps in if i == j then true else rest

has_index-append :
    (j : ℕ) (ps qs : List (ℕ × Bytes))
    → has_index j (ps ++ qs) ≡ (if has_index j ps then true else has_index j qs)
has_index-append j [] qs = refl
has_index-append j (p ∷ ps) qs = ground (arith, has_index-append j ps qs)

pieces_step :
    (fuel block_size index : ℕ) (bytes : Bytes)
    → 0 < length bytes
    → pieces (suc fuel) block_size index bytes
      ≡ (index, take block_size bytes) ∷ pieces fuel block_size (index + 1) (drop block_size bytes)
unfolding pieces
pieces_step fuel block_size index [] h = absurd (omega arith)
pieces_step fuel block_size index (b ∷ bs) h = refl

pieces_nil : (fuel block_size index : ℕ) → pieces fuel block_size index [] ≡ []
unfolding pieces
pieces_nil zero block_size index = refl
pieces_nil (suc fuel) block_size index = refl

module _ (file : Bytes) (block_size : ℕ) (positive : 0 < block_size) where
  abbrev len : ℕ
  len = length file

  -- The bytes of a chunk that starts at block `start`.
  abbrev chunk_end : ℕ → ℕ
  chunk_end end = min (end * block_size) len

  mul_suc_le : (s e : ℕ) → s < e → s * block_size + block_size ≤ e * block_size
  mul_suc_le s e h = grind arith

  -- A block below the ceiling starts inside the file.
  block_starts : (s e : ℕ) → s < e → e ≤ div_ceil len block_size → s * block_size < len
  unfolding div_ceil
  block_starts s e h k = grind (
    arith,
    div-add-mod len block_size,
    mul_suc_le s (len / block_size),
    mul_suc_le s (suc (len / block_size)),
  )

  abbrev chunk_bytes : ℕ → ℕ → Bytes
  chunk_bytes s e = slice file (s * block_size) (chunk_end e)

  first_piece :
      (s e : ℕ)
      → s < e
      → e ≤ div_ceil len block_size
      → take block_size (chunk_bytes s e) ≡ block file block_size s
  first_piece s e h k =
      let inside = block_starts s e h k in
      let room = mul_suc_le s e h in
      let n : min block_size (chunk_end e - s * block_size)
          ≡ min (len - s * block_size) block_size =
        omega arith in
      take-take-min block_size (chunk_end e - s * block_size) (drop (s * block_size) file) ∙ rw n

  other_pieces : (s e : ℕ) → drop block_size (chunk_bytes s e) ≡ chunk_bytes (s + 1) e
  other_pieces s e =
      let at : s * block_size + block_size ≡ (s + 1) * block_size = omega arith in
      let n : chunk_end e - s * block_size - block_size ≡ chunk_end e - (s + 1) * block_size =
        omega arith in
      drop-take block_size (chunk_end e - s * block_size) (drop (s * block_size) file)
      ∙ rw (drop-drop (s * block_size) block_size file, n, at)

  chunk_empty : (s e : ℕ) → e ≤ s → chunk_bytes s e ≡ []
  chunk_empty s e h = let n : chunk_end e - s * block_size ≡ 0 = grind arith in rw n

  length-chunk_bytes : (s e : ℕ) → length (chunk_bytes s e) ≡ chunk_end e - s * block_size
  length-chunk_bytes s e = omega (
    arith,
    length-take (chunk_end e - s * block_size) (drop (s * block_size) file),
    length-drop (s * block_size) file,
  )

  chunk_pos : (s e : ℕ) → s < e → e ≤ div_ceil len block_size → 0 < length (chunk_bytes s e)
  chunk_pos s e h k =
      let inside = block_starts s e h k in
      let room = mul_suc_le s e h in omega (arith, length-chunk_bytes s e)

  abbrev PiecesOk : ℕ → ℕ → ℕ → List (ℕ × Bytes) → Type 0
  PiecesOk s e j ps =
      AreBlocks file block_size ps × (has_index j ps ≡ (if leb s j then ltb j e else false))

  no_pieces : (fuel s e j : ℕ) → e ≤ s → PiecesOk s e j (pieces fuel block_size s (chunk_bytes s e))
  no_pieces fuel s e j h = rw (chunk_empty s e h, pieces_nil) (tt, ground arith)

  -- The pieces of a chunk are its blocks, each once.
  pub pieces_lem :
      (fuel s e j : ℕ)
      → e ≤ div_ceil len block_size
      → length (chunk_bytes s e) ≤ fuel
      → PiecesOk s e j (pieces fuel block_size s (chunk_bytes s e))
  pieces_lem zero s e j k f = elim (Bool-cases (ltb s e)) [
    | inl h ↦ absurd (omega (arith, chunk_pos s e (ltb→lt s e h) k))
    | inr h ↦ no_pieces zero s e j (ltb→le s e h)
  ]
  pieces_lem (suc fuel) s e j k f = elim (Bool-cases (ltb s e)) [
    | inl h' ↦
        let h : s < e = ltb→lt s e h' in
        let size = length-chunk_bytes s e in
        let size' = length-chunk_bytes (s + 1) e in
        let at : (s + 1) * block_size ≡ s * block_size + block_size = omega arith in
        let (all, has) = pieces_lem fuel (s + 1) e j k (omega arith) in
        rw (pieces_step fuel block_size s (chunk_bytes s e) (chunk_pos s e h k), other_pieces s e)
          ((first_piece s e h k, all), ground (arith, has, h))
    | inr h ↦ no_pieces (suc fuel) s e j (ltb→le s e h)
  ]

-- The object in the store, and where the file lies in it.
module _ (object : Bytes) (span : FileSpan) (block_size : ℕ) (get_range : Store) where
  abbrev pub file_of : Bytes
  file_of = slice object span.offset (span.offset + span.len)

  -- What a read of the store must be when it succeeds.
  abbrev pub IsHonest : Type 0
  IsHonest = (from to : ℕ) (got : Bytes) → get_range from to ≡ some got → got ≡ slice object from to

  module _ (positive : 0 < block_size) (fits : span.offset + span.len ≤ length object)
      (honest : IsHonest) where
    pub length-file_of : length file_of ≡ span.len
    length-file_of =
        omega (arith, length-slice span.offset (span.offset + span.len) object (omega arith) fits)

    fetched_bytes :
        (chunk : Range) (got : Bytes)
        → chunk.start < chunk.end
        → chunk.end ≤ div_ceil span.len block_size
        → get_range
            (span.offset + chunk.start * block_size)
            (span.offset + min (chunk.end * block_size) span.len)
          ≡ some got
        → got ≡ chunk_bytes file_of block_size positive chunk.start chunk.end
    fetched_bytes chunk got h k e =
        let inside =
          block_starts file_of block_size positive chunk.start chunk.end h (rw length-file_of k) in
        let room = mul_suc_le file_of block_size positive chunk.start chunk.end h in
        rw (honest _ _ got e, length-file_of)
          (sym (
            slice-slice span.offset (span.offset + span.len) (chunk.start * block_size)
              (min (chunk.end * block_size) span.len) object (omega (arith, length-file_of))
              (omega arith)))

    -- What a successful fetch of the chunks returns.
    abbrev pub Fetched : (ℕ → Bool) → Io (List (ℕ × Bytes)) → Type 0
    Fetched want (err e) = Unit
    Fetched want (ok ps) = AreBlocks file_of block_size ps × ((j : ℕ) → has_index j ps ≡ want j)

    fetch_chunk-Fetched :
        (chunk : Range)
        → Fits (div_ceil span.len block_size) chunk
        → Fetched (λ j. in_range j chunk) (fetch_chunk get_range span block_size chunk)
    unfolding fetch_chunk
    fetch_chunk-Fetched chunk (h, k) =
        let from = chunk.start * block_size in
        let to = min (chunk.end * block_size) span.len in
        elim (Option-cases (get_range (span.offset + from) (span.offset + to))) [
          | inl e ↦ rw (e, fetch_chunk) tt
          | inr (got, e) ↦ elim (Bool-cases (length got == to - from)) [
            | inl f ↦
                let same = fetched_bytes chunk got h k e in
                let parts = λ (j : ℕ).
                  pieces_lem file_of block_size positive (length got) chunk.start chunk.end j
                    (rw length-file_of k) (omega (arith, ap length same)) in
                rw (e, fetch_chunk, f)
                  (
                    rw (ap (pieces (length got) block_size chunk.start) same) (parts 0).0,
                    λ j. rw (ap (pieces (length got) block_size chunk.start) same) (parts j).1,
                  )
            | inr f ↦ rw (e, fetch_chunk, f) tt
          ]
        ]

    fetch_chunks-Fetched :
        (chunks : List Range)
        → All (Fits (div_ceil span.len block_size)) chunks
        → Fetched (λ j. covered j chunks) (fetch_chunks get_range span block_size chunks)
    unfolding fetch_chunks
    fetch_chunks-Fetched [] f = (tt, λ j. refl)
    fetch_chunks-Fetched (chunk ∷ chunks) (f, g) =
        join_Fetched chunk chunks _ _ (fetch_chunk-Fetched chunk f) (fetch_chunks-Fetched chunks g)
      where
        join_Fetched :
            (chunk : Range) (chunks : List Range) (a b : Io (List (ℕ × Bytes)))
            → Fetched (λ j. in_range j chunk) a
            → Fetched (λ j. covered j chunks) b
            → Fetched (λ j. covered j (chunk ∷ chunks)) (a >>= λ p. b >>= λ q. ok (p ++ q))
        join_Fetched chunk chunks (err e) b x y = tt
        join_Fetched chunk chunks (ok p) (err e) x y = tt
        join_Fetched chunk chunks (ok p) (ok q) (x, hx) (y, hy) =
            (All-append _ p q x y, λ j. ground (arith, has_index-append j p q, hx j, hy j))

    -- With a positive block size, a file inside the object and claimed blocks inside the file, a
    -- fetch from an honest store that succeeds returns only true blocks of the file, each under
    -- its index, and among them every claimed block.
    pub fetch-Fetched :
        (indices : List ℕ) (readahead : ℕ) (ps : List (ℕ × Bytes))
        → All (λ i. i < div_ceil span.len block_size) indices
        → fetch get_range span block_size indices readahead ≡ ok ps
        → AreBlocks file_of block_size ps
          × ((j : ℕ) → asked j indices ≡ true → has_index j ps ≡ true)
    unfolding fetch
    fetch-Fetched indices readahead ps inside e =
        let all =
          subst (Fetched (λ j. covered j (chunks_of span.len block_size readahead indices))) e (
            fetch_chunks-Fetched (chunks_of span.len block_size readahead indices)
              (chunks_of_lem span.len block_size readahead 0 indices inside).0) in
        (all.0, λ j h. all.1 j ∙ (chunks_of_lem span.len block_size readahead j indices inside).1 h)
