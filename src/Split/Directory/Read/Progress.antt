-- ===== src/Split/Directory/Read/Progress.antt =====
-- A read that no other reader disturbs, over a store that answers: two passes are enough.
use native.Mathlib.Nat.{div-add-mod}
use r_search.Base.{
  ℕ, zero, suc, ◌+◌, ◌-◌, ◌*◌, ◌/◌, ◌≤◌, ◌<◌, ◌≡◌, refl, ap, ◌⊎◌, inl, inr, min, true, ◌&&◌, List,
  [], ◌∷◌, ◌++◌, none, some, arith, leb, ◌==◌, Bool-cases, All, length, slice, filter, length-slice,
}
use r_search.Split.Directory.{
  Bytes, FileSpan, Range, Io, ok, Store, div_ceil, pieces, chunks_of, fetch_chunk, fetch_chunks,
  fetch,
}
use r_search.Split.Directory.Chunks.{Fits, asked, chunks_of_lem}
use r_search.Split.Directory.Fetch.{has_index}
use r_search.Split.Directory.Read.{BlockCache, Slots, set_slot, place, load}
use r_search.Split.Directory.Read.Slots.{holes, length-set_slot}

-- A store that answers every range inside the object.
abbrev pub Answers : Bytes → Store → Type 0
Answers object get_range =
    (from to : ℕ) → from ≤ to → to ≤ length object → get_range from to ≡ some (slice object from to)

abbrev Succeeds : {A : Type 0} → Io A → Type 0
Succeeds {A} x = (a : A) × (x ≡ ok a)

mul_lt : (a b c : ℕ) → a < b → a * c + c ≤ b * c
mul_lt a b c h = grind arith

module _ (object : Bytes) (span : FileSpan) (block_size : ℕ) (get_range : Store)
    (positive : 0 < block_size) (fits : span.offset + span.len ≤ length object)
    (answers : Answers object get_range) where
  chunk_starts : (s e : ℕ) → s < e → e ≤ div_ceil span.len block_size → s * block_size ≤ span.len
  unfolding div_ceil
  chunk_starts s e h k = grind (
    arith,
    div-add-mod span.len block_size,
    mul_lt s e block_size,
    mul_lt s (suc (span.len / block_size)) block_size,
  )

  fetch_chunk-Succeeds :
      (chunk : Range)
      → Fits (div_ceil span.len block_size) chunk
      → Succeeds (fetch_chunk get_range span block_size chunk)
  unfolding fetch_chunk
  fetch_chunk-Succeeds chunk (h, k) =
      let from = chunk.start * block_size in
      let to = min (chunk.end * block_size) span.len in
      let low = chunk_starts chunk.start chunk.end h k in
      let room = mul_lt chunk.start chunk.end block_size h in
      let got = slice object (span.offset + from) (span.offset + to) in
      let n : (length got == to - from) ≡ true = ground (
        arith,
        length-slice (span.offset + from) (span.offset + to) object (omega arith) (omega arith),
      ) in
      (
        pieces (length got) block_size chunk.start got,
        rw
            (
              answers (span.offset + from) (span.offset + to) (omega arith) (omega arith),
              fetch_chunk,
              n,
            )
            refl,
      )

  fetch_chunks-Succeeds :
      (chunks : List Range)
      → All (Fits (div_ceil span.len block_size)) chunks
      → Succeeds (fetch_chunks get_range span block_size chunks)
  unfolding fetch_chunks
  fetch_chunks-Succeeds [] f = ([], refl)
  fetch_chunks-Succeeds (chunk ∷ chunks) (f, g) =
      let (a, x) = fetch_chunk-Succeeds chunk f in
      let (b, y) = fetch_chunks-Succeeds chunks g in (a ++ b, rw (x, y, fetch_chunks) refl)

  pub fetch-Succeeds :
      (indices : List ℕ) (readahead : ℕ)
      → All (λ i. i < div_ceil span.len block_size) indices
      → Succeeds (fetch get_range span block_size indices readahead)
  unfolding fetch
  fetch-Succeeds indices readahead inside =
      fetch_chunks-Succeeds (chunks_of span.len block_size readahead indices)
        (chunks_of_lem span.len block_size readahead 0 indices inside).0

-- Every empty slot is in the list.
abbrev pub HolesIn : ℕ → List (ℕ × Bytes) → Slots → Type 0
HolesIn index ps slots = All (λ j. has_index j ps ≡ true) (holes index slots)

-- An entry whose index is no empty slot can be left out.
HolesIn-later :
    (index k : ℕ) (b : Bytes) (ps : List (ℕ × Bytes)) (slots : Slots)
    → (k < index) ⊎ (index + length slots ≤ k)
    → HolesIn index ((k, b) ∷ ps) slots
    → HolesIn index ps slots
HolesIn-later index k b ps [] o h = tt
HolesIn-later index k b ps (none ∷ slots) o (h, t) =
    (ground arith, HolesIn-later (index + 1) k b ps slots (omega arith) t)
HolesIn-later index k b ps (some c ∷ slots) o t =
    HolesIn-later (index + 1) k b ps slots (omega arith) t

HolesIn-set_slot :
    (index i k : ℕ) (b : Bytes) (ps : List (ℕ × Bytes)) (slots : Slots)
    → k ≡ index + i
    → HolesIn index ((k, b) ∷ ps) slots
    → HolesIn index ps (set_slot i b slots)
HolesIn-set_slot index i k b ps [] e h = tt
HolesIn-set_slot index zero k b ps (none ∷ slots) e (h, t) =
    HolesIn-later (index + 1) k b ps slots (omega arith) t
HolesIn-set_slot index zero k b ps (some c ∷ slots) e t =
    HolesIn-later (index + 1) k b ps slots (omega arith) t
HolesIn-set_slot index (suc i) k b ps (none ∷ slots) e (h, t) =
    (ground arith, HolesIn-set_slot (index + 1) i k b ps slots (omega arith) t)
HolesIn-set_slot index (suc i) k b ps (some c ∷ slots) e t =
    HolesIn-set_slot (index + 1) i k b ps slots (omega arith) t

no_holes : (index : ℕ) (slots : Slots) → HolesIn index [] slots → holes index slots ≡ []
no_holes index [] h = refl
no_holes index (none ∷ slots) (h, t) = absurd (grind arith)
no_holes index (some b ∷ slots) h = no_holes (index + 1) slots h

-- Placing blocks for every hole fills all slots.
pub place_full :
    (first last : ℕ) (ps : List (ℕ × Bytes)) (slots : Slots)
    → first + length slots ≡ last + 1
    → HolesIn first ps slots
    → holes first (place first last ps slots) ≡ []
unfolding place
place_full first last [] slots n h = no_holes first slots h
place_full first last ((i, b) ∷ ps) slots n h = elim (Bool-cases (leb first i && leb i last)) [
  | inl e ↦ rw e (
      place_full first last ps (set_slot (i - first) b slots)
        (omega (arith, length-set_slot (i - first) b slots))
        (HolesIn-set_slot first (i - first) i b ps slots (ground arith) h))
  | inr e ↦
      rw e (place_full first last ps slots n (HolesIn-later first i b ps slots (ground arith) h))
]

asked_later : (j i : ℕ) (is : List ℕ) → asked j is ≡ true → asked j (i ∷ is) ≡ true
asked_later j i is h = ground arith

pub All-asked : (P : ℕ → Type 0) (is : List ℕ) → ((j : ℕ) → asked j is ≡ true → P j) → All P is
All-asked P [] f = tt
All-asked P (i ∷ is) f = (f i (ground arith), All-asked P is (λ j h. f j (asked_later j i is h)))

pub filter_all : (is : List ℕ) → filter (λ i. true) is ≡ is
filter_all [] = refl
filter_all (i ∷ is) = ap (λ js. i ∷ js) (filter_all is)

module _ (cache : BlockCache) (get_range : Store) (span : FileSpan) (block_size : ℕ) where
  open cache use {State}

  -- Full slots are all that a pass looks at.
  pub load_full :
      (index : ℕ) (slots : Slots) (s : State)
      → holes index slots ≡ []
      → load cache get_range span block_size index slots s ≡ (slots, [], s)
  unfolding load
  load_full index [] s h = refl
  load_full index (none ∷ slots) s h = absurd (grind arith)
  load_full index (some b ∷ slots) s h = rw (load_full (index + 1) slots s h) refl
