-- ===== src/Split/Directory/Chunks.antt =====
-- The requests of one fetch: they cover the claimed blocks and stay inside the file.
use mathlib.Core.List.{foldl}
use r_search.Base.{
  ℕ, zero, suc, ◌+◌, ◌-◌, ◌*◌, ◌/◌, ◌^◌, ◌≤◌, ◌<◌, ◌≡◌, refl, ◌∙◌, max, Bool, true, false, List, [],
  ◌∷◌, ◌++◌, arith, ltb, leb, ◌==◌, if◌then◌else◌, All, All-append,
}
use r_search.Split.Directory.{
  Range, div_ceil, chunk_blocks, add_run, runs_of, extend_last, cut_run, cut_runs, chunks_of,
}

abbrev pub in_range : ℕ → Range → Bool
in_range j r = if leb r.start j then ltb j r.end else false

-- Whether block `j` lies in one of the ranges.
abbrev pub covered : ℕ → List Range → Bool
covered j [] = false
covered j (r ∷ rs) = let rest = covered j rs in if in_range j r then true else rest

-- Nonempty ranges below `total`.
abbrev pub Fits : ℕ → Range → Type 0
Fits total r = (r.start < r.end) × (r.end ≤ total)

covered-append :
    (j : ℕ) (rs qs : List Range)
    → covered j (rs ++ qs) ≡ (if covered j rs then true else covered j qs)
covered-append j [] qs = refl
covered-append j (r ∷ rs) qs = ground (arith, covered-append j rs qs)

add_run-Fits :
    (total index : ℕ) (rs : List Range)
    → index < total
    → All (Fits total) rs
    → All (Fits total) (add_run rs index)
unfolding add_run
add_run-Fits total index [] h f = omega arith
add_run-Fits total index (r ∷ []) h f = ground arith
add_run-Fits total index (r ∷ q ∷ rs) h (f, g) = (f, add_run-Fits total index (q ∷ rs) h g)

covered-add_run :
    (total j index : ℕ) (rs : List Range)
    → All (Fits total) rs
    → covered j (add_run rs index) ≡ (if j == index then true else covered j rs)
unfolding add_run
covered-add_run total j index [] f = ground arith
covered-add_run total j index (r ∷ []) f = ground arith
covered-add_run total j index (r ∷ q ∷ rs) (f, g) =
    ground (arith, covered-add_run total j index (q ∷ rs) g)

abbrev pub asked : ℕ → List ℕ → Bool
asked j [] = false
asked j (i ∷ is) = let rest = asked j is in if j == i then true else rest

runs-fold :
    (total j : ℕ) (indices : List ℕ) (rs : List Range)
    → All (λ i. i < total) indices
    → All (Fits total) rs
    → All (Fits total) (foldl add_run rs indices)
      × (covered j (foldl add_run rs indices) ≡ (if covered j rs then true else asked j indices))
runs-fold total j [] rs h f = (f, ground arith)
runs-fold total j (i ∷ is) rs (hi, h) f =
    let (fits, eq) = runs-fold total j is (add_run rs i) h (add_run-Fits total i rs hi f) in
    (fits, ground (arith, eq, covered-add_run total j i rs f))

extend_last-Fits :
    (readahead total : ℕ) (rs : List Range)
    → All (Fits total) rs
    → All (Fits total) (extend_last readahead total rs)
unfolding extend_last
extend_last-Fits readahead total [] f = tt
extend_last-Fits readahead total (r ∷ []) f = omega arith
extend_last-Fits readahead total (r ∷ q ∷ rs) (f, g) =
    (f, extend_last-Fits readahead total (q ∷ rs) g)

covered-extend_last :
    (readahead total j : ℕ) (rs : List Range)
    → All (Fits total) rs
    → covered j rs ≡ true
    → covered j (extend_last readahead total rs) ≡ true
unfolding extend_last
covered-extend_last readahead total j [] f h = h
covered-extend_last readahead total j (r ∷ []) f h = ground arith
covered-extend_last readahead total j (r ∷ q ∷ rs) (f, g) h =
    ground (arith, covered-extend_last readahead total j (q ∷ rs) g)

cut_run-Fits :
    (fuel step start end total : ℕ)
    → 0 < step
    → end ≤ total
    → All (Fits total) (cut_run fuel step start end)
unfolding cut_run
cut_run-Fits zero step start end total s h = tt
cut_run-Fits (suc fuel) step start end total s h =
    ground (arith, cut_run-Fits fuel step (start + step) end total s h)

-- Cutting loses no block and adds none.
covered-cut_run :
    (fuel step start end j : ℕ)
    → 0 < step
    → end ≤ start + fuel
    → covered j (cut_run fuel step start end) ≡ (if leb start j then ltb j end else false)
unfolding cut_run
covered-cut_run zero step start end j s h = ground arith
covered-cut_run (suc fuel) step start end j s h =
    ground (arith, covered-cut_run fuel step (start + step) end j s (omega arith))

cut_runs-Fits :
    (step total : ℕ) (rs : List Range)
    → 0 < step
    → All (Fits total) rs
    → All (Fits total) (cut_runs step rs)
unfolding cut_runs
cut_runs-Fits step total [] s f = tt
cut_runs-Fits step total (r ∷ rs) s (f, g) =
    All-append (Fits total) _ (cut_runs step rs)
      (cut_run-Fits (r.end - r.start) step r.start r.end total s f.1)
      (cut_runs-Fits step total rs s g)

covered-cut_runs :
    (step j : ℕ) (rs : List Range) → 0 < step → covered j (cut_runs step rs) ≡ covered j rs
unfolding cut_runs
covered-cut_runs step j [] s = refl
covered-cut_runs step j (r ∷ rs) s = ground (
  arith,
  covered-append j (cut_run (r.end - r.start) step r.start r.end) (cut_runs step rs),
  covered-cut_run (r.end - r.start) step r.start r.end j s (omega arith),
  covered-cut_runs step j rs s,
)

module _ (len block_size readahead j : ℕ) (indices : List ℕ)
    (inside : All (λ i. i < div_ceil len block_size) indices) where
  -- For claimed blocks inside the file, the requests of a fetch are nonempty and stay inside the
  -- file, and each claimed block lies in one of them.
  pub chunks_of_lem :
      All (Fits (div_ceil len block_size)) (chunks_of len block_size readahead indices)
      × (asked j indices ≡ true → covered j (chunks_of len block_size readahead indices) ≡ true)
  unfolding chunks_of chunk_blocks
  chunks_of_lem =
      let total = div_ceil len block_size in
      let (fits, eq) = runs-fold total j indices [] inside tt in
      let step : 0 < max (8 * 2 ^ 20 / block_size) 1 = omega arith in
      (
        cut_runs-Fits _ total _ step (extend_last-Fits readahead total (runs_of indices) fits),
        λ h.
            covered-cut_runs _ j _ step
            ∙ covered-extend_last readahead total j (runs_of indices) fits (eq ∙ h),
      )
