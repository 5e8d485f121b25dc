-- ===== src/Wal/Frame/Exhaust.antt =====
-- Replaying a segment file stops only where no record stands.
use mathlib.Core.Path.{subst}
use r_search.Base.{
  ℕ, zero, suc, ◌<◌, ◌≡◌, refl, ap, ◌∙◌, ◌++◌, append_assoc, List, [], ◌∷◌, none, some, arith, inl,
  inr, Option-cases, length, le_bytes, AreBytes, All-drop,
}
use r_search.Wal.Frame.{
  Bytes, External, WalRecord, parse_layout, RecordLayout, to_record, advance, replay_loop,
  replay_segment,
}
use r_search.Wal.Frame.Soundness.{advance-Accepted, advance_sound, advance_shrinks}

-- Payloads one after another, each behind its length and its checksum.
abbrev pub framed : External → List Bytes → Bytes
framed ext [] = []
framed ext (buf ∷ bufs) =
    le_bytes 4 (length buf) ++ (le_bytes 4 (ext.crc32 buf) ++ (buf ++ framed ext bufs))

-- The records are the payloads' own, in order.
abbrev pub AreRecords : External → ℕ → List Bytes → List WalRecord → Type 0
AreRecords ext segment [] [] = Unit
AreRecords ext segment (buf ∷ bufs) (r ∷ rs) =
    ((layout : RecordLayout) × (id : Bytes) × (parse_layout buf ≡ some layout)
      × (r ≡ to_record ext buf layout segment id))
    × AreRecords ext segment bufs rs
AreRecords ext segment bufs rs = ⊥

-- What replaying `file` to the records `rs` leaves unread: no record.
abbrev pub Exhausts : External → ℕ → Bytes → List WalRecord → Type 0
Exhausts ext segment file rs =
    (bufs : List Bytes) × (rest : Bytes) × (file ≡ framed ext bufs ++ rest)
    × (advance ext rest ≡ none)
    × AreRecords ext segment bufs rs

AreBytes-right : (xs ys : Bytes) → AreBytes (xs ++ ys) → AreBytes ys
AreBytes-right [] ys h = h
AreBytes-right (x ∷ xs) ys (hx, h) = AreBytes-right xs ys h

grouped : (a b c d e : Bytes) → a ++ (b ++ (c ++ (d ++ e))) ≡ (a ++ (b ++ (c ++ d))) ++ e
grouped a b c d e =
    rw (append_assoc a (b ++ (c ++ d)) e, append_assoc b (c ++ d) e, append_assoc c d e) refl

loop-Exhausts :
    (ext : External) (fuel segment : ℕ) (fresh : ℕ → Bytes) (file : Bytes)
    → AreBytes file
    → length file < fuel
    → Exhausts ext segment file (replay_loop ext fuel segment fresh file)
unfolding replay_loop
loop-Exhausts ext zero segment fresh file bytes h = absurd (omega arith)
loop-Exhausts ext (suc fuel) segment fresh file bytes h = elim (Option-cases (advance ext file)) [
  | inl e ↦ rw (e, replay_loop) ([], file, refl, e, tt)
  | inr ((buf, layout, rest), e) ↦
      let a = advance-Accepted ext file buf rest e in
      let (split, inside) = advance_sound ext file buf rest bytes e in
      let rest_bytes = AreBytes-right buf rest (subst AreBytes a.split (All-drop _ 8 file bytes)) in
      let (bufs, unread, parts, stop, records) =
        loop-Exhausts ext fuel segment fresh rest rest_bytes
          (omega (arith, advance_shrinks ext file buf rest e)) in
      rw (e, replay_loop)
        (
          buf ∷ bufs,
          unread,
          split
              ∙ ap (λ r. le_bytes 4 (length buf) ++ (le_bytes 4 (ext.crc32 buf) ++ (buf ++ r)))
                  parts
              ∙ grouped (le_bytes 4 (length buf)) (le_bytes 4 (ext.crc32 buf)) buf (framed ext bufs)
                  unread,
          stop,
          ((layout, fresh (length file), a.parsed, refl), records),
        )
]

-- A file of bytes is payloads one after another, each behind its length and its checksum, and a
-- rest where no record stands; replaying the file gives exactly the records that these payloads
-- parse to, in order.
pub replay_segment-Exhausts :
    (ext : External) (segment : ℕ) (fresh : ℕ → Bytes) (file : Bytes)
    → AreBytes file
    → Exhausts ext segment file (replay_segment ext segment fresh file)
replay_segment-Exhausts ext segment fresh file bytes =
    loop-Exhausts ext (suc (length file)) segment fresh file bytes (omega arith)
