-- ===== src/Wal/Frame/Soundness.antt =====
-- What `SegmentCursor::advance` accepts, for any bytes on disk.
use r_search.Base.{
  drop-drop, length-append, ℕ, ◌+◌, ◌≤◌, ◌≡◌, sym, ap, ◌∙◌, ◌++◌, Option, none, some, arith, length,
  drop, slice, length-take, length-drop, take-append-drop, le_bytes, from_le, AreBytes,
  le_bytes-from_le, All-take, All-drop,
}
use r_search.Wal.Frame.{Bytes, External, RecordLayout, parse_identity, parse_layout, advance}

-- Every range that `record` slices lies in the buffer, in order.
abbrev pub IdInBounds : Bytes → ℕ → Option (ℕ × ℕ) → ℕ → Type 0
IdInBounds buf stream_end none doc_start = doc_start ≡ stream_end
IdInBounds buf stream_end (some (from, to)) doc_start =
    (from ≡ stream_end + 2) × (from ≤ to) × (doc_start ≡ to + 8)

pub record InBounds (buf : Bytes) (layout : RecordLayout) : Type 0 where
  pub stream_starts : layout.stream.0 ≡ 2
  pub stream_ends : 2 ≤ layout.stream.1
  pub id_follows : IdInBounds buf layout.stream.1 layout.id layout.doc_start
  pub doc_in : layout.doc_start ≤ length buf

pub parse_layout-InBounds :
    (buf : Bytes) {layout : RecordLayout} → parse_layout buf ≡ some layout → InBounds buf layout
unfolding parse_layout parse_identity
parse_layout-InBounds buf h = ground arith

two_bytes : {buf : Bytes} {layout : RecordLayout} → InBounds buf layout → 2 ≤ length buf
two_bytes {buf} {layout} b = grind (arith, b.stream_ends, b.id_follows, b.doc_in)

-- What an accepted record says of the file: its header describes the payload exactly.
pub record Accepted (ext : External) (file buf : Bytes) (layout : RecordLayout) (rest : Bytes)
    : Type 0 where
  pub split : drop 8 file ≡ buf ++ rest
  pub header : 8 ≤ length file
  pub len_matches : from_le (slice file 0 4) ≡ length buf
  pub crc_matches : from_le (slice file 4 8) ≡ ext.crc32 buf
  pub parsed : parse_layout buf ≡ some layout

-- A file with a header is its two header fields and the rest.
header_parts :
    (file : Bytes) → 8 ≤ length file → file ≡ slice file 0 4 ++ (slice file 4 8 ++ drop 8 file)
header_parts file h =
    let e : drop 8 file ≡ drop 4 (drop 4 file) = sym (drop-drop 4 4 file) in
    rw (e, take-append-drop 4 (drop 4 file), take-append-drop 4 file)

field_bytes : (bs : Bytes) → AreBytes bs → length bs ≡ 4 → le_bytes 4 (from_le bs) ≡ bs
field_bytes bs h e = rw (← e) (le_bytes-from_le bs h)

module _ (ext : External) (file buf rest : Bytes) {layout : RecordLayout} where
  pub advance-Accepted :
      advance ext file ≡ some (buf, layout, rest) → Accepted ext file buf layout rest
  unfolding advance
  advance-Accepted h =
      let n = from_le (slice file 0 4) in
      let body = drop 8 file in ground (arith, take-append-drop n body, length-take n body)

  -- A record takes at least ten bytes of the file.
  pub advance_shrinks : advance ext file ≡ some (buf, layout, rest) → length rest + 10 ≤ length file
  advance_shrinks h =
      let a = advance-Accepted h in
      let b = parse_layout-InBounds buf a.parsed in
      omega (arith, length-drop 8 file, length-append buf rest, ap length a.split, two_bytes b)

  -- When the replay accepts a record of a file of bytes, the file is that record's length,
  -- checksum and payload followed by the rest, and every range that the record is sliced by lies
  -- inside the payload.
  pub advance_sound :
      AreBytes file
      → advance ext file ≡ some (buf, layout, rest)
      → (file ≡ le_bytes 4 (length buf) ++ (le_bytes 4 (ext.crc32 buf) ++ (buf ++ rest)))
        × InBounds buf layout
  advance_sound bytes h =
      let a = advance-Accepted h in
      let size : 8 ≤ length file = a.header in
      let low =
        field_bytes (slice file 0 4) (All-take _ 4 _ (All-drop _ 0 file bytes))
          (omega (arith, length-take 4 file)) in
      let high =
        field_bytes (slice file 4 8) (All-take _ 4 _ (All-drop _ 4 file bytes))
          (omega (arith, length-take 4 (drop 4 file), length-drop 4 file)) in
      (
        header_parts file a.header ∙ cc (low, high, a.split, a.len_matches, a.crc_matches),
        parse_layout-InBounds buf a.parsed,
      )
