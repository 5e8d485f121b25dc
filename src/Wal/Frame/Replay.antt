-- ===== src/Wal/Frame/Replay.antt =====
-- Replaying a whole segment.
use r_search.Base.{
  ℕ, zero, suc, ◌≤◌, ◌<◌, ◌≡◌, refl, ap, sym, ◌∙◌, List, [], ◌∷◌, ◌++◌, map, append_assoc, none,
  arith, inl, inr, Option-cases, All, length, take, take-take, length-append, length-take,
  length-drop, from_le,
}
use r_search.Wal.Frame.{
  Bytes, External, WalItem, payload, frame, advance, replay_loop, count_loop, replay_segment,
}
use r_search.Wal.Frame.RoundTrip.{
  IsWritable, record_of, advance-frame, to_record-payload, frame_header,
}
use r_search.Wal.Frame.Soundness.{advance-Accepted}

-- What `append_batch` writes for a run of items.
abbrev pub frames : External → List WalItem → Bytes
frames ext [] = []
frames ext (item ∷ items) = frame ext item ++ frames ext items

-- The records that the replay yields are as many as the counting pass of `open` counted.
pub count-replay :
    (ext : External) (fuel segment : ℕ) (fresh : ℕ → Bytes) (file : Bytes)
    → count_loop ext fuel file ≡ length (replay_loop ext fuel segment fresh file)
unfolding count_loop replay_loop
count-replay ext zero segment fresh file = refl
count-replay ext (suc fuel) segment fresh file = elim (Option-cases (advance ext file)) [
  | inl e ↦ rw (e, count_loop, replay_loop)
  | inr ((buf, layout, rest), e) ↦
      rw (e, count_loop, replay_loop) (ap suc (count-replay ext fuel segment fresh rest))
]

-- A record cut short is no record.
torn_frame :
    (ext : External) (item : WalItem) (k : ℕ)
    → IsWritable ext item
    → k < length (frame ext item)
    → advance ext (take k (frame ext item)) ≡ none
torn_frame ext item k w h =
    let file = take k (frame ext item) in
    elim (Option-cases (advance ext file)) [
      | inl e ↦ e
      | inr ((buf, layout, rest), e) ↦
          let a = advance-Accepted ext file buf rest e in
          let (len, size) = frame_header ext item w in
          let long : 8 ≤ length file = a.header in
          let reach : 4 ≤ k = omega (arith, length-take k (frame ext item)) in
          let same : length buf ≡ length (payload item) =
            sym a.len_matches ∙ ap from_le (take-take 4 k (frame ext item) reach) ∙ len in
          absurd (
            omega (
              arith,
              length-take k (frame ext item),
              length-drop 8 file,
              ap length a.split,
              length-append buf rest,
            ))
    ]

module _ (ext : External) (segment : ℕ) (fresh : ℕ → Bytes) where
  replay-frames :
      (fuel : ℕ) (items : List WalItem) (tail : Bytes)
      → All (IsWritable ext) items
      → advance ext tail ≡ none
      → length items < fuel
      → replay_loop ext fuel segment fresh (frames ext items ++ tail)
        ≡ map (λ item. record_of item segment) items
  unfolding replay_loop
  replay-frames zero items tail w e h = absurd (omega arith)
  replay-frames (suc fuel) [] tail w e h = rw (e, replay_loop)
  replay-frames (suc fuel) (item ∷ items) tail (w, ws) e h =
      rw
        (
          append_assoc (frame ext item) (frames ext items) tail,
          advance-frame ext item w (frames ext items ++ tail),
          replay_loop,
        )
        (rw (to_record-payload ext item w) (rw (replay-frames fuel items tail ws e (omega arith))))

  length-frames :
      (items : List WalItem) → All (IsWritable ext) items → length items ≤ length (frames ext items)
  length-frames [] ws = omega arith
  length-frames (item ∷ items) (w, ws) = omega (
    arith,
    length-append (frame ext item) (frames ext items),
    (frame_header ext item w).1,
    length-frames items ws,
  )

  -- A segment file that holds the frames of writable items and then a proper prefix of one more
  -- frame replays to exactly those items, in order.
  pub replay_torn :
      (items : List WalItem) (last : WalItem) (k : ℕ)
      → All (IsWritable ext) items
      → IsWritable ext last
      → k < length (frame ext last)
      → replay_segment ext segment fresh (frames ext items ++ take k (frame ext last))
        ≡ map (λ item. record_of item segment) items
  replay_torn items last k ws w h =
      replay-frames _ items (take k (frame ext last)) ws (torn_frame ext last k w h) (
        omega (
          arith,
          length-frames items ws,
          length-append (frames ext items) (take k (frame ext last)),
        ))
