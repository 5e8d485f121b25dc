-- ===== src/Split/Directory/Read/Correct.antt =====
-- A read over a truthful cache and an honest store: what it returns, whatever other readers do.
use mathlib.Core.Path.{subst}
use r_search.Base.{
  ℕ, zero, suc, ◌+◌, ◌-◌, ◌/◌, ◌≤◌, ◌<◌, ◌≡◌, refl, sym, ap, ◌∙◌, ◌⊎◌, inl, inr, Bool, ◌&&◌, ◌||◌,
  not, List, [], ◌∷◌, Option, none, some, arith, ltb, ◌==◌, if◌then◌else◌, Bool-cases, Option-cases,
  All, length, slice, filter,
}
use r_search.Split.Directory.{
  Bytes, FileSpan, IoError, Io, ok, err, block_len, Store, div_ceil, fetch,
}
use r_search.Split.Directory.Fetch.{
  block, AreBlocks, IsHonest, file_of, length-file_of, fetch-Fetched,
}
use r_search.Split.Directory.Read.{
  BlockCache, Slots, empty_slots, place, continues_sequential_read, Outcome, done, failed, panicked,
  waiting, load, put_all, fetch_mine, read_loop, finish_read, read,
}
use r_search.Split.Directory.Read.Assemble.{assemble_lem}
use r_search.Split.Directory.Read.Span.{wanted_blocks}
use r_search.Split.Directory.Read.Slots.{
  holes, TrueSlots, length-empty_slots, length-place, empty_slots-True, place-True,
  unwrap_all-Blocks, holes-below, All-filter,
}

pub Io-cases : {A : Type 0} (x : Io A) → ((e : IoError) × (x ≡ err e)) ⊎ ((a : A) × (x ≡ ok a))
Io-cases (err e) = inl (e, refl)
Io-cases (ok a) = inr (a, refl)

pub List-cases : (xs : List ℕ) → (xs ≡ []) ⊎ ((y : ℕ) × (ys : List ℕ) × (xs ≡ y ∷ ys))
List-cases [] = inl refl
List-cases (x ∷ xs) = inr (x, xs, refl)

module _ (cache : BlockCache) (object : Bytes) (span : FileSpan) (block_size : ℕ)
    (get_range : Store) where
  open cache use {State, get_block, put_block}

  abbrev file : Bytes
  file = file_of object span block_size get_range

  abbrev pub IsTrueBlock : ℕ → Option Bytes → Type 0
  IsTrueBlock index none = Unit
  IsTrueBlock index (some b) = b ≡ block file block_size index

  -- A predicate on the cache's states that its operations keep and that makes every hit true.
  abbrev pub KeepsTruth : (State → Type 0) → Type 0
  KeepsTruth Truth =
      ((index len : ℕ) (s : State)
        → Truth s
        → IsTrueBlock index (get_block index len s).0 × Truth (get_block index len s).1)
      × ((index : ℕ) (s : State)
          → Truth s
          → Truth (put_block index (block file block_size index) s))

  module _ (positive : 0 < block_size) (fits : span.offset + span.len ≤ length object)
      (honest : IsHonest object span block_size get_range) (Truth : State → Type 0)
      (keeps : KeepsTruth Truth) where
    abbrev pub Loaded : ℕ → Slots → (Slots × List ℕ × State) → Type 0
    Loaded index slots (filled, missing, s) =
        TrueSlots file block_size index filled
        × Truth s
        × (missing ≡ holes index filled)
        × (length filled ≡ length slots)

    pub load_lem :
        (index : ℕ) (slots : Slots) (s : State)
        → TrueSlots file block_size index slots
        → Truth s
        → Loaded index slots (load cache get_range span block_size index slots s)
    unfolding load
    load_lem index [] s t h = (tt, h, refl, refl)
    load_lem index (some b ∷ slots) s (e, t) h =
        let (u, k, m, n) = load_lem (index + 1) slots s t h in ((e, u), k, m, ap suc n)
    load_lem index (none ∷ slots) s t h =
        let n = block_len span.len block_size index in
        let (hit, kept) = keeps.0 index n s h in
        let (u, k, m, e) = load_lem (index + 1) slots (get_block index n s).1 t kept in
        elim (Option-cases (get_block index n s).0) [
          | inl f ↦ rw (f, load, Loaded) (u, k, ap (λ is. index ∷ is) m, ap suc e)
          | inr (b, f) ↦ rw (f, load, Loaded) ((subst (IsTrueBlock index) f hit, u), k, m, ap suc e)
        ]

    put_all-Truth :
        (ps : List (ℕ × Bytes)) (s : State)
        → AreBlocks file block_size ps
        → Truth s
        → Truth (put_all cache get_range span block_size ps s)
    put_all-Truth [] s a h = h
    put_all-Truth ((i, b) ∷ ps) s (e, a) h =
        put_all-Truth ps (put_block i b s) a (rw e (keeps.1 i s h))

    abbrev Mine : Io (List (ℕ × Bytes) × State) → Type 0
    Mine (err e) = Unit
    Mine (ok (ps, s)) = AreBlocks file block_size ps × Truth s

    fetch_mine-Mine :
        (is : List ℕ) (readahead : ℕ) (s : State)
        → All (λ i. i < div_ceil span.len block_size) is
        → Truth s
        → Mine (fetch_mine cache get_range span block_size is readahead s)
    unfolding fetch_mine
    fetch_mine-Mine [] readahead s f h = (tt, h)
    fetch_mine-Mine (i ∷ is) readahead s f h =
        elim (Io-cases (fetch get_range span block_size (i ∷ is) readahead)) [
          | inl (e, f') ↦ rw (f', Mine) tt
          | inr (ps, f') ↦
              let a =
                (fetch-Fetched object span block_size get_range positive fits honest (i ∷ is)
                  readahead ps f f').0 in
              rw (f', Mine) (a, put_all-Truth ps s a h)
        ]

    abbrev Looped : ℕ → ℕ → Option (Io (Slots × State)) → Type 0
    Looped first n none = Unit
    Looped first n (some (err e)) = Unit
    Looped first n (some (ok (slots, s))) =
        TrueSlots file block_size first slots
        × Truth s
        × (holes first slots ≡ [])
        × (length slots ≡ n)

    module _ (busy : ℕ → ℕ → Bool) (meanwhile : ℕ → State → State)
        (others : (pass : ℕ) (s : State) → Truth s → Truth (meanwhile pass s)) where
      read_loop_lem :
          (first last readahead fuel pass : ℕ) (slots : Slots) (s : State)
          → first + length slots ≤ div_ceil span.len block_size
          → TrueSlots file block_size first slots
          → Truth s
          → Looped first (length slots) (
              read_loop cache get_range span block_size busy meanwhile first last readahead fuel
                pass slots s)
      unfolding read_loop
      read_loop_lem first last readahead zero pass slots s b t h = tt
      read_loop_lem first last readahead (suc fuel) pass slots s b t h =
          let l = load cache get_range span block_size first slots s in
          let (u, k, m, n) = load_lem first slots s t h in
          elim (List-cases l.1) [
            | inl e ↦ rw (e, Looped) (u, k, sym m ∙ e, n)
            | inr (i, is, e) ↦
                let wanted = filter (λ i. not (busy pass i)) (i ∷ is) in
                let below =
                  subst (All (λ i. i < div_ceil span.len block_size)) (sym m ∙ e)
                    (holes-below first (div_ceil span.len block_size) l.0 (omega (arith, n))) in
                let mine =
                  fetch_mine-Mine wanted readahead l.2
                    (All-filter (div_ceil span.len block_size) (λ i. not (busy pass i)) (i ∷ is)
                      below)
                    k in
                elim (Io-cases (fetch_mine cache get_range span block_size wanted readahead l.2)) [
                  | inl (x, f) ↦ rw (e, f, Looped) tt
                  | inr ((ps, s2), f) ↦
                      let (a, z) = subst Mine f mine in
                      let same = length-place first last ps l.0 ∙ n in
                      rw (e, f, Looped)
                        (subst
                          (λ c. Looped first c (
                            read_loop cache get_range span block_size busy meanwhile first last
                              readahead fuel (pass + 1) (place first last ps l.0)
                              (meanwhile pass s2)))
                          same
                          (read_loop_lem first last readahead fuel (pass + 1)
                            (place first last ps l.0) (meanwhile pass s2) (omega (arith, same))
                            (place-True file block_size first last ps l.0 a u) (others pass s2 z)))
                ]
          ]

      abbrev Finished : ℕ → ℕ → Outcome State → Type 0
      Finished start end (done data_ last s) =
          (data_ ≡ slice file start end) × (last ≡ (end - 1) / block_size) × Truth s
      Finished start end (failed e) = Unit
      Finished start end panicked = ⊥
      Finished start end waiting = Unit

      finish_read_lem :
          (start end : ℕ) (result : Option (Io (Slots × State)))
          → start < end
          → end ≤ span.len
          → Looped (start / block_size) ((end - 1) / block_size - start / block_size + 1) result
          → Finished start end (finish_read cache get_range span block_size start end result)
      unfolding finish_read
      finish_read_lem start end none o p l = tt
      finish_read_lem start end (some (err e)) o p l = tt
      finish_read_lem start end (some (ok (slots, s))) o p (t, h, full, n) =
          let (bs, u, blocks, m) =
            unwrap_all-Blocks file block_size (start / block_size) slots t full in
          let inside : end ≤ length file =
            omega (arith, length-file_of object span block_size get_range positive fits honest) in
          rw (u, Finished)
            (assemble_lem file block_size positive start end inside bs blocks o (m ∙ n), refl, h)

      abbrev pub IsRead : ℕ → ℕ → Outcome State → Type 0
      IsRead start end (done data_ last s) =
          (start ≤ end) × (end ≤ span.len) × (data_ ≡ slice file start end) × Truth s
      IsRead start end (failed e) = Unit
      IsRead start end panicked = ⊥
      IsRead start end waiting = Unit

      Finished-IsRead :
          (start end : ℕ) (result : Outcome State)
          → start ≤ end
          → end ≤ span.len
          → Finished start end result
          → IsRead start end result
      Finished-IsRead start end (done data_ last s) h k (e, f, t) = (h, k, e, t)
      Finished-IsRead start end (failed e) h k f = tt
      Finished-IsRead start end panicked h k f = f
      Finished-IsRead start end waiting h k f = tt

      -- With a positive block size and a file inside the object, over a truthful cache and an
      -- honest store, and whatever truth-keeping steps other readers take, a read never panics on
      -- a missing block; one that completes was asked for a range inside the file, returns exactly
      -- its bytes and leaves the cache truthful.
      pub read-IsRead :
          (fuel readahead_blocks last_block start end : ℕ) (s : State)
          → Truth s
          → IsRead start end (
              read cache get_range span block_size busy meanwhile fuel readahead_blocks last_block
                start end s)
      unfolding read
      read-IsRead fuel readahead_blocks last_block start end s h =
          elim (Bool-cases (ltb end start || ltb span.len end)) [
            | inl e ↦ rw (e, IsRead) tt
            | inr e ↦
                let o : start ≤ end = ground arith in
                let p : end ≤ span.len = ground arith in
                elim (Bool-cases (start == end)) [
                  | inl f ↦
                      let n : end - start ≡ 0 = ground arith in
                      rw (e, f, IsRead) (o, p, rw n refl, h)
                  | inr f ↦
                      let n = (end - 1) / block_size - start / block_size + 1 in
                      let ahead =
                        if ltb 0 readahead_blocks
                          && continues_sequential_read last_block (start / block_size)
                        then readahead_blocks
                        else 0 in
                      let l : start < end = ground arith in
                      let result =
                        read_loop cache get_range span block_size busy meanwhile
                          (start / block_size) ((end - 1) / block_size) ahead fuel 0 (empty_slots n)
                          s in
                      let loop =
                        read_loop_lem (start / block_size) ((end - 1) / block_size) ahead fuel 0
                          (empty_slots n) s
                          (rw (length-empty_slots n)
                            (wanted_blocks block_size positive start end span.len l p))
                          (empty_slots-True file block_size (start / block_size) n) h in
                      rw (e, f, IsRead)
                        (Finished-IsRead start end _ o p (
                          finish_read_lem start end _ l p (
                            subst (λ c. Looped (start / block_size) c result) (length-empty_slots n)
                              loop)))
                ]
          ]
