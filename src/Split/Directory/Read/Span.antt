-- ===== src/Split/Directory/Read/Span.antt =====
-- The blocks of a nonempty range inside a file.
use native.Mathlib.Nat.{div-add-mod, mod-lt}
use r_search.Base.{ℕ, suc, ◌+◌, ◌-◌, ◌*◌, ◌/◌, ◌≤◌, ◌<◌, arith}
use r_search.Split.Directory.{div_ceil}

mul_le : (a b c : ℕ) → a ≤ b → a * c ≤ b * c
mul_le a b c h = grind arith

module _ (block_size : ℕ) (positive : 0 < block_size) where
  pub div_le : (a b : ℕ) → a ≤ b → a / block_size ≤ b / block_size
  div_le a b h = grind (
    arith,
    div-add-mod a block_size,
    div-add-mod b block_size,
    mod-lt a positive,
    mod-lt b positive,
    mul_le (suc (b / block_size)) (a / block_size) block_size,
  )

  below_ceil : (a len : ℕ) → a < len → a / block_size < div_ceil len block_size
  unfolding div_ceil
  below_ceil a len h = grind (
    arith,
    div-add-mod a block_size,
    div-add-mod len block_size,
    mod-lt a positive,
    mod-lt len positive,
    mul_le (len / block_size) (a / block_size) block_size,
    mul_le (suc (len / block_size)) (a / block_size) block_size,
  )

  pub wanted_blocks :
      (start end len : ℕ)
      → start < end
      → end ≤ len
      → start / block_size + ((end - 1) / block_size - start / block_size + 1)
        ≤ div_ceil len block_size
  wanted_blocks start end len h k =
      omega (arith, div_le start (end - 1) (omega arith), below_ceil (end - 1) len (omega arith))
