-- ===== src/Split/Directory/Read/Returns.antt =====
-- A read that shares no block with another one returns its range.
use mathlib.Core.Path.{subst}
use r_search.Base.{
  ℕ, suc, ◌+◌, ◌-◌, ◌/◌, ◌≤◌, ◌<◌, ◌≡◌, refl, sym, ap, ◌∙◌, inl, inr, true, false, ◌&&◌, ◌||◌, List,
  [], ◌∷◌, Option, none, some, arith, ltb, ◌==◌, if◌then◌else◌, Bool-cases, Option-cases, All,
  length, slice,
}
use r_search.Split.Directory.{Bytes, FileSpan, Io, ok, Store, div_ceil}
use r_search.Split.Directory.Fetch.{has_index, IsHonest, file_of, fetch-Fetched}
use r_search.Split.Directory.Read.{
  BlockCache, Slots, empty_slots, unwrap_all, assemble, place, continues_sequential_read, Outcome,
  done, panicked, load, put_all, fetch_mine, read_loop, finish_read, read,
}
use r_search.Split.Directory.Read.Slots.{
  holes, TrueSlots, length-empty_slots, empty_slots-True, holes-below,
}
use r_search.Split.Directory.Read.Span.{div_le, wanted_blocks}
use r_search.Split.Directory.Read.Correct.{KeepsTruth, List-cases, load_lem, IsRead, read-IsRead}
use r_search.Split.Directory.Read.Progress.{
  Answers, fetch-Succeeds, place_full, All-asked, filter_all, load_full,
}

module _ (cache : BlockCache) (object : Bytes) (span : FileSpan) (block_size : ℕ)
    (get_range : Store) where
  open cache use {State}

  module _ (positive : 0 < block_size) (fits : span.offset + span.len ≤ length object)
      (honest : IsHonest object span block_size get_range) (answers : Answers object get_range)
      (Truth : State → Type 0) (keeps : KeepsTruth cache object span block_size get_range Truth)
      (meanwhile : ℕ → State → State) where
    abbrev Returned : Option (Io (Slots × State)) → Type 0
    Returned result = (slots : Slots) × (s : State) × (result ≡ some (ok (slots, s)))

    fetch_mine-full :
        (i : ℕ) (is : List ℕ) (readahead : ℕ) (s : State)
        → All (λ j. j < div_ceil span.len block_size) (i ∷ is)
        → (ps : List (ℕ × Bytes)) × (fetch_mine cache get_range span block_size (i ∷ is) readahead s
            ≡ ok (ps, put_all cache get_range span block_size ps s))
          × All (λ j. has_index j ps ≡ true) (i ∷ is)
    unfolding fetch_mine
    fetch_mine-full i is readahead s below =
        let (ps, e) =
          fetch-Succeeds object span block_size get_range positive fits answers (i ∷ is) readahead
            below in
        let has =
          (fetch-Fetched object span block_size get_range positive fits honest (i ∷ is) readahead ps
            below e).1 in
        (ps, rw (e, fetch_mine) refl, All-asked (λ j. has_index j ps ≡ true) (i ∷ is) has)

    two_passes :
        (first last readahead fuel i : ℕ) (is : List ℕ) (ps : List (ℕ × Bytes)) (slots : Slots)
        (s s2 : State)
        → (load cache get_range span block_size first slots s).1 ≡ i ∷ is
        → fetch_mine cache get_range span block_size
            (i ∷ is)
            readahead
            (load cache get_range span block_size first slots s).2
          ≡ ok (ps, s2)
        → holes first (place first last ps (load cache get_range span block_size first slots s).0)
          ≡ []
        → read_loop cache get_range span block_size
            (λ p j. false)
            meanwhile
            first
            last
            readahead
            (suc (suc fuel))
            0
            slots
            s
          ≡ some (
              ok (
                place first last ps (load cache get_range span block_size first slots s).0,
                meanwhile 0 s2,
              ))
    unfolding read_loop
    two_passes first last readahead fuel i is ps slots s s2 e f full =
        let filled = place first last ps (load cache get_range span block_size first slots s).0 in
        let again = load_full cache get_range span block_size first filled (meanwhile 0 s2) full in
        rw (e, read_loop, filter_all is, f, ap (λ l. l.1) again)
          (ap (λ l. some (ok (l.0, l.2))) again)

    read_loop-Returned :
        (first last readahead fuel : ℕ) (slots : Slots) (s : State)
        → first + length slots ≡ last + 1
        → last < div_ceil span.len block_size
        → Truth s
        → TrueSlots (file_of object span block_size get_range) block_size first slots
        → Returned (
            read_loop cache get_range span block_size
              (λ p i. false)
              meanwhile
              first
              last
              readahead
              (suc (suc fuel))
              0
              slots
              s)
    unfolding read_loop
    read_loop-Returned first last readahead fuel slots s n b h t =
        let l = load cache get_range span block_size first slots s in
        let (u, k, m, z) =
          load_lem cache object span block_size get_range positive fits honest Truth keeps first
            slots s t h in
        elim (List-cases l.1) [
          | inl e ↦ (l.0, l.2, rw (e, read_loop) refl)
          | inr (i, is, e) ↦
              let below =
                subst (All (λ j. j < div_ceil span.len block_size)) (sym m ∙ e)
                  (holes-below first (div_ceil span.len block_size) l.0 (omega (arith, z))) in
              let (ps, f, has) = fetch_mine-full i is readahead l.2 below in
              let has' = subst (All (λ j. has_index j ps ≡ true)) (sym e ∙ m) has in
              let full = place_full first last ps l.0 (omega (arith, z)) has' in
              (
                place first last ps l.0,
                meanwhile 0 (put_all cache get_range span block_size ps l.2),
                two_passes first last readahead fuel i is ps slots s
                    (put_all cache get_range span block_size ps l.2) e f full,
              )
        ]

    read_loop_of :
        (last_block readahead_blocks start end fuel : ℕ) (s : State)
        → start < end
        → end ≤ span.len
        → Truth s
        → Returned (
            read_loop cache get_range span block_size
              (λ p i. false)
              meanwhile
              (start / block_size)
              ((end - 1) / block_size)
              (if ltb 0 readahead_blocks
                  && continues_sequential_read last_block (start / block_size)
                then readahead_blocks
                else 0)
              (suc (suc fuel))
              0
              (empty_slots ((end - 1) / block_size - start / block_size + 1))
              s)
    read_loop_of last_block readahead_blocks start end fuel s l p h =
        let n = (end - 1) / block_size - start / block_size + 1 in
        let room = wanted_blocks block_size positive start end span.len l p in
        let order = div_le block_size positive start (end - 1) (omega arith) in
        read_loop-Returned (start / block_size) ((end - 1) / block_size) _ fuel (empty_slots n) s
          (omega (arith, length-empty_slots n)) (omega arith) h
          (empty_slots-True (file_of object span block_size get_range) block_size
            (start / block_size) n)

    -- A finished read is no panic, so it is the wanted range.
    finished :
        (others : (pass : ℕ) (s : State) → Truth s → Truth (meanwhile pass s)) (start end : ℕ)
        (slots : Slots) (s : State)
        → IsRead cache object span block_size get_range positive fits honest Truth keeps
            (λ p i. false)
            meanwhile
            others
            start
            end
            (finish_read cache get_range span block_size start end (some (ok (slots, s))))
        → (last : ℕ) × (s' : State) × (finish_read cache get_range span block_size start end
              (some (ok (slots, s)))
            ≡ done (slice (file_of object span block_size get_range) start end) last s')
    unfolding finish_read
    finished others start end slots s good = elim (Option-cases (unwrap_all slots)) [
      | inl e ↦ absurd (
          subst
            (λ o.
              IsRead cache object span block_size get_range positive fits honest Truth keeps
                (λ p i. false) meanwhile others start end (unwrapped o))
            e good)
      | inr (bs, e) ↦
          let (o, p, d, h) =
            subst
              (λ o.
                IsRead cache object span block_size get_range positive fits honest Truth keeps
                  (λ p i. false) meanwhile others start end (unwrapped o))
              e good in
          (
            (end - 1) / block_size,
            s,
            rw (e, finish_read) (ap (λ b. done b ((end - 1) / block_size) s) d),
          )
    ]
      where
        unwrapped : Option (List Bytes) → Outcome State
        unwrapped o = elim o [
          | none ↦ panicked
          | some blocks ↦
              done (assemble start end block_size (start / block_size) blocks)
                ((end - 1) / block_size) s
        ]

    -- With a positive block size and a file inside the object, a read of a range inside the file,
    -- over a truthful cache and an honest store that answers every range of the object, with no
    -- block claimed by another reader, completes within two passes and returns exactly the bytes
    -- of the range.
    pub read_returns :
        (others : (pass : ℕ) (s : State) → Truth s → Truth (meanwhile pass s))
        (fuel readahead_blocks last_block start end : ℕ) (s : State)
        → Truth s
        → start ≤ end
        → end ≤ span.len
        → (last : ℕ) × (s' : State) × (read cache get_range span block_size
              (λ p i. false)
              meanwhile
              (suc (suc fuel))
              readahead_blocks
              last_block
              start
              end
              s
            ≡ done (slice (file_of object span block_size get_range) start end) last s')
    unfolding read finish_read
    read_returns others fuel readahead_blocks last_block start end s h o p =
        elim (Bool-cases (start == end)) [
          | inl f ↦
              let n : end - start ≡ 0 = ground arith in
              (last_block, s, rw (outside, f, read, n) refl)
          | inr f ↦
              let l : start < end = ground arith in
              let (slots, s', e) =
                read_loop_of last_block readahead_blocks start end fuel s l p h in
              let whole : read cache get_range span block_size (λ p i. false) meanwhile
                    (suc (suc fuel)) readahead_blocks last_block start end s
                  ≡ finish_read cache get_range span block_size start end (some (ok (slots, s'))) =
                rw (outside, f, read, e) refl in
              let good =
                read-IsRead cache object span block_size get_range positive fits honest Truth keeps
                  (λ p i. false) meanwhile others (suc (suc fuel)) readahead_blocks last_block start
                  end s h in
              let (last, s'', d) = finished others start end slots s' (
                subst
                  (IsRead cache object span block_size get_range positive fits honest Truth keeps
                    (λ p i. false) meanwhile others start end)
                  whole good) in
              (last, s'', whole ∙ d)
        ]
      where
        outside : ltb end start || ltb span.len end ≡ false
        outside = ground arith
