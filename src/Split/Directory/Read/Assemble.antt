-- ===== src/Split/Directory/Read/Assemble.antt =====
-- Copying the wanted parts of true blocks gives the wanted range.
use native.Mathlib.Nat.{div-add-mod, mod-lt}
use r_search.Base.{
  ℕ, ◌+◌, ◌-◌, ◌*◌, ◌/◌, ◌≤◌, ◌<◌, ◌≡◌, sym, ap, ◌∙◌, min, max, List, [], ◌∷◌, ◌++◌, arith,
  append-nil, length, take, drop, slice, length-take, length-drop, slice-slice, slice-append-slice,
}
use r_search.Split.Directory.{Bytes, block_len}
use r_search.Split.Directory.Fetch.{block}
use r_search.Split.Directory.Read.{copy_out, assemble}

-- A list of the blocks of `file` from `index` on.
abbrev pub BlocksFrom : Bytes → ℕ → ℕ → List Bytes → Type 0
BlocksFrom file block_size index [] = Unit
BlocksFrom file block_size index (b ∷ bs) =
    (b ≡ block file block_size index) × BlocksFrom file block_size (index + 1) bs

module _ (file : Bytes) (block_size : ℕ) (positive : 0 < block_size) where
  length-block : (i : ℕ) → length (block file block_size i) ≡ block_len (length file) block_size i
  length-block i = omega (
    arith,
    length-take (min (length file - i * block_size) block_size) (drop (i * block_size) file),
    length-drop (i * block_size) file,
  )

  block-slice :
      (i x y : ℕ)
      → x ≤ y
      → y ≤ block_len (length file) block_size i
      → slice (block file block_size i) x y ≡ slice file (i * block_size + x) (i * block_size + y)
  block-slice i x y h k =
      let n = block_len (length file) block_size i in
      let e : i * block_size + n - i * block_size ≡ n = omega arith in
      ap (λ (m : ℕ). slice (take m (drop (i * block_size) file)) x y) (sym e)
      ∙ slice-slice (i * block_size) (i * block_size + n) x y file h (omega arith)

  module _ (start end : ℕ) (inside : end ≤ length file) where
    -- The part that is copied from block `i`.
    part :
        (i to : ℕ)
        → start < i * block_size + block_size
        → max start (i * block_size) ≤ to
        → to ≡ min end (i * block_size + block_size)
        → slice
            (block file block_size i)
            (start - i * block_size)
            (min (end - i * block_size) (length (block file block_size i)))
          ≡ slice file (max start (i * block_size)) to
    part i to h k e =
        let x : i * block_size + (start - i * block_size) ≡ max start (i * block_size) =
          omega arith in
        let w : min (end - i * block_size) (length (block file block_size i))
            ≡ to - i * block_size =
          omega (arith, length-block i) in
        let y : i * block_size + (to - i * block_size) ≡ to = omega arith in
        rw w (
          rw (
            block-slice i (start - i * block_size) (to - i * block_size) (omega arith)
                (omega (arith, w, length-block i)),
            x,
            y,
          ))

    copy_out_lem :
        (i : ℕ) (b : Bytes) (bs : List Bytes)
        → BlocksFrom file block_size i (b ∷ bs)
        → start < end
        → start < i * block_size + block_size
        → (i + length bs) * block_size < end
        → end ≤ (i + length bs) * block_size + block_size
        → copy_out start end block_size i (b ∷ bs) ≡ slice file (max start (i * block_size)) end
    unfolding copy_out
    copy_out_lem i b [] (e, t) o h k m =
        rw e (append-nil _ ∙ part i end h (omega arith) (omega arith))
    copy_out_lem i b (c ∷ cs) (e, t) o h k m =
        let mid = i * block_size + block_size in
        let next : (i + 1) * block_size ≡ mid = omega arith in
        let more : length cs * block_size + mid < end = omega arith in
        rw e (
          rw (part i mid h (omega arith) (omega arith)) (
            ap (λ (r : Bytes). slice file (max start (i * block_size)) mid ++ r)
              (copy_out_lem (i + 1) c cs t o (omega arith) (omega arith) (omega arith))
            ∙ glue))
      where
        glue :
            slice file (max start (i * block_size)) (i * block_size + block_size)
              ++ slice file (max start ((i + 1) * block_size)) end
            ≡ slice file (max start (i * block_size)) end
        glue =
            let at : max start ((i + 1) * block_size) ≡ i * block_size + block_size = omega arith in
            rw at (
              slice-append-slice (max start (i * block_size)) (i * block_size + block_size) end file
                (omega arith) (omega arith))

    around :
        (x : ℕ) → (x / block_size * block_size ≤ x) × (x < x / block_size * block_size + block_size)
    around x = grind (arith, div-add-mod x block_size, mod-lt x positive)

    -- The whole of `assemble`, one block or several.
    pub assemble_lem :
        (bs : List Bytes)
        → BlocksFrom file block_size (start / block_size) bs
        → start < end
        → length bs ≡ (end - 1) / block_size - start / block_size + 1
        → assemble start end block_size (start / block_size) bs ≡ slice file start end
    unfolding assemble
    assemble_lem [] t o n = absurd (omega arith)
    assemble_lem (only ∷ []) (e, t) o n =
        let first = start / block_size in
        let (low, below) = around start in
        let (low', below') = around (end - 1) in
        let same : (end - 1) / block_size * block_size ≤ first * block_size = grind arith in
        let at : first * block_size + (start - first * block_size) ≡ start = omega arith in
        let to : first * block_size + (start - first * block_size + (end - start)) ≡ end =
          omega arith in
        rw e (
          rw (
            block-slice first (start - first * block_size)
                (start - first * block_size + (end - start)) (omega arith) (omega arith),
            at,
            to,
          ))
    assemble_lem (b ∷ c ∷ cs) t o n =
        let first = start / block_size in
        let (low, below) = around start in
        let (low', below') = around (end - 1) in
        let last : first + length (c ∷ cs) ≡ (end - 1) / block_size = omega arith in
        let at : max start (first * block_size) ≡ start = omega arith in
        copy_out_lem first b (c ∷ cs) t o (omega arith) (rw last (omega arith))
          (rw last (omega arith))
        ∙ rw at
