-- ===== src/Wal/Frame/RoundTrip.antt =====
-- An appended item is read back as it was written.
use r_search.Base.{
  sym, ==_refl, le→ltb, ◌≤◌, ℕ, ◌+◌, ◌-◌, ◌%◌, ◌^◌, ◌≤◌, ◌<◌, ◌≡◌, refl, sym, ap, ◌∙◌, true, ◌++◌,
  append_assoc, some, arith, le→ltb, length, drop, slice, length-append, take-append_left,
  drop_past, drop-append_left, InI64, to_bits, of_bits, of_bits-to_bits, to_bits-lt, le_bytes,
  from_le, length-le_bytes, from_le-le_bytes,
}
use r_search.Wal.Frame.{
  Bytes, External, WalItem, WalRecord, RecordLayout, flag_bit, has_flag, clear_flag, len_field,
  id_len_field, payload_len, payload, frame, parse_identity, parse_layout, advance, to_record,
  record_id,
}

-- What the Rust types and the test of `append_batch` give: the lengths fit, the strings are UTF-8.
pub record IsWritable (ext : External) (item : WalItem) : Type 0 where
  pub stream_fits : length item.stream < flag_bit
  pub id_fits : length item.id < flag_bit
  pub seq_fits : InI64 item.seq
  pub payload_fits : payload_len item < 2 ^ 32
  pub stream_text : ext.lossy item.stream ≡ item.stream
  pub id_text : ext.lossy item.id ≡ item.id

slice_front : (k : ℕ) (xs ys : Bytes) → length xs ≡ k → slice (xs ++ ys) 0 k ≡ xs
slice_front k xs ys e = let e' : k - 0 ≡ k = omega arith in rw e' (take-append_left k xs ys e)

slice_past :
    (from to i j : ℕ) (xs ys : Bytes)
    → from ≡ length xs + i
    → to ≡ length xs + j
    → slice (xs ++ ys) from to ≡ slice ys i j
slice_past from to i j xs ys e f =
    let d : to - from ≡ j - i = omega arith in rw (d, drop_past from i xs ys e)

-- The parts of a payload `a ++ (b ++ (c ++ (d ++ (e ++ f))))` whose first two are known to stand in
-- front, by the offsets at which `advance` looks.
module _ (a b c d e f : Bytes) (la : length a ≡ 2) (lc : length c ≡ 2) (le : length e ≡ 8) where
  abbrev buf : Bytes
  buf = a ++ (b ++ (c ++ (d ++ (e ++ f))))

  abbrev id_at : ℕ
  id_at = 2 + length b

  part_a : slice buf 0 2 ≡ a
  part_a = slice_front 2 a _ la

  part_b : slice buf 2 id_at ≡ b
  part_b =
      slice_past 2 id_at 0 (length b) a _ (omega arith) (omega arith)
      ∙ slice_front (length b) b _ refl

  part_c : slice buf id_at (id_at + 2) ≡ c
  part_c =
      slice_past id_at (id_at + 2) (length b) (length b + 2) a _ (omega arith) (omega arith)
      ∙ slice_past (length b) (length b + 2) 0 2 b _ (omega arith) (omega arith)
      ∙ slice_front 2 c _ lc

  past_c :
      (from to i j : ℕ)
      → from ≡ id_at + 2 + i
      → to ≡ id_at + 2 + j
      → slice buf from to ≡ slice (d ++ (e ++ f)) i j
  past_c from to i j p q =
      slice_past from to (length b + 2 + i) (length b + 2 + j) a _ (omega arith) (omega arith)
      ∙ slice_past (length b + 2 + i) (length b + 2 + j) (2 + i) (2 + j) b _ (omega arith)
          (omega arith)
      ∙ slice_past (2 + i) (2 + j) i j c _ (omega arith) (omega arith)

  part_d : slice buf (id_at + 2) (id_at + 2 + length d) ≡ d
  part_d = past_c _ _ 0 (length d) (omega arith) (omega arith) ∙ slice_front (length d) d _ refl

  part_e : slice buf (id_at + 2 + length d) (id_at + 2 + length d + 8) ≡ e
  part_e =
      past_c _ _ (length d) (length d + 8) (omega arith) (omega arith)
      ∙ slice_past (length d) (length d + 8) 0 8 d _ (omega arith) (omega arith)
      ∙ slice_front 8 e f le

  part_f : drop (id_at + 2 + length d + 8) buf ≡ f
  part_f =
      drop_past (id_at + 2 + length d + 8) (length b + 2 + length d + 8) a _ (omega arith)
      ∙ drop_past (length b + 2 + length d + 8) (2 + length d + 8) b _ (omega arith)
      ∙ drop_past (2 + length d + 8) (length d + 8) c _ (omega arith)
      ∙ drop_past (length d + 8) 8 d _ (omega arith)
      ∙ drop-append_left 8 e f le

module _ (item : WalItem) where
  pub length-payload : length (payload item) ≡ payload_len item
  unfolding payload payload_len
  length-payload = omega (
    arith,
    length-append (le_bytes 2 (len_field item)) _,
    length-append item.stream (
        le_bytes 2 (id_len_field item) ++ (item.id ++ (le_bytes 8 (to_bits item.seq) ++ item.doc))),
    length-append (le_bytes 2 (id_len_field item))
        (item.id ++ (le_bytes 8 (to_bits item.seq) ++ item.doc)),
    length-append item.id (le_bytes 8 (to_bits item.seq) ++ item.doc),
    length-append (le_bytes 8 (to_bits item.seq)) item.doc,
    length-le_bytes 2 (len_field item),
    length-le_bytes 2 (id_len_field item),
    length-le_bytes 8 (to_bits item.seq),
  )

module _ (ext : External) (item : WalItem) (w : IsWritable ext item) where
  field_bits :
      (clear_flag (len_field item) ≡ length item.stream)
      × (has_flag (len_field item) ≡ true)
      × (len_field item < 256 ^ 2)
  unfolding len_field
  field_bits = ground arith

  id_field_bits :
      (clear_flag (id_len_field item) ≡ length item.id)
      × (has_flag (id_len_field item) ≡ item.tombstone)
      × (id_len_field item < 256 ^ 2)
  unfolding id_len_field
  id_field_bits = ground arith

  -- The layout that `advance` must find in the payload of `item`.
  abbrev layout_of : RecordLayout
  layout_of = record {
    stream = (2, 2 + length item.stream);
    id = some (2 + length item.stream + 2, 2 + length item.stream + 2 + length item.id);
    seq = item.seq;
    tombstone = item.tombstone;
    doc_start = 2 + length item.stream + 2 + length item.id + 8;
  }

  -- What `advance` finds at each of its offsets.
  field_read : from_le (slice (payload item) 0 2) ≡ len_field item
  unfolding payload
  field_read =
      ap from_le (
        part_a (le_bytes 2 (len_field item)) _ _ _ _ _ (length-le_bytes 2 _) (length-le_bytes 2 _)
          (length-le_bytes 8 _))
      ∙ from_le-le_bytes 2 _ field_bits.2

  stream_read : slice (payload item) 2 (2 + length item.stream) ≡ item.stream
  unfolding payload
  stream_read =
      part_b _ item.stream _ _ _ _ (length-le_bytes 2 _) (length-le_bytes 2 (id_len_field item))
        (length-le_bytes 8 (to_bits item.seq))

  id_field_read :
      from_le (slice (payload item) (2 + length item.stream) (2 + length item.stream + 2))
      ≡ id_len_field item
  unfolding payload
  id_field_read =
      ap from_le (
        part_c _ item.stream _ _ _ _ (length-le_bytes 2 (len_field item))
          (length-le_bytes 2 (id_len_field item)) (length-le_bytes 8 (to_bits item.seq)))
      ∙ from_le-le_bytes 2 _ id_field_bits.2

  abbrev id_start : ℕ
  id_start = 2 + length item.stream + 2

  id_read : slice (payload item) id_start (id_start + length item.id) ≡ item.id
  unfolding payload
  id_read =
      part_d _ item.stream _ item.id _ _ (length-le_bytes 2 (len_field item))
        (length-le_bytes 2 (id_len_field item)) (length-le_bytes 8 (to_bits item.seq))

  seq_read :
      of_bits
        (from_le (slice (payload item) (id_start + length item.id) (id_start + length item.id + 8)))
      ≡ item.seq
  unfolding payload
  seq_read =
      ap (λ (bs : Bytes). of_bits (from_le bs))
        (part_e _ item.stream _ item.id _ _ (length-le_bytes 2 (len_field item))
          (length-le_bytes 2 (id_len_field item)) (length-le_bytes 8 (to_bits item.seq)))
      ∙ ap of_bits (from_le-le_bytes 8 _ (to_bits-lt item.seq w.seq_fits))
      ∙ of_bits-to_bits item.seq w.seq_fits

  doc_read : drop (id_start + length item.id + 8) (payload item) ≡ item.doc
  unfolding payload
  doc_read =
      part_f _ item.stream _ item.id _ _ (length-le_bytes 2 (len_field item))
        (length-le_bytes 2 (id_len_field item)) (length-le_bytes 8 (to_bits item.seq))

  parse_layout-payload : parse_layout (payload item) ≡ some layout_of
  unfolding parse_layout parse_identity payload_len
  parse_layout-payload =
      ground
        (arith, field_read, field_bits, id_field_read, id_field_bits, seq_read, length-payload item)

-- `advance` accepts a header that describes the payload behind it.
module _ (ext : External) (file buf rest : Bytes) {layout : RecordLayout} where
  pub advance_accepts :
      8 ≤ length file
      → 2 ≤ length buf
      → from_le (slice file 0 4) ≡ length buf
      → from_le (slice file 4 8) ≡ ext.crc32 buf
      → drop 8 file ≡ buf ++ rest
      → parse_layout buf ≡ some layout
      → advance ext file ≡ some (buf, layout, rest)
  unfolding advance
  advance_accepts h two len crc body parsed =
      let front = take-append_left (length buf) buf rest refl in
      let back = drop-append_left (length buf) buf rest refl in
      rw (len, crc, body, front, back, parsed, le→ltb _ _ h, le→ltb _ _ two, ==_refl)
        (rw (le→ltb (length (buf ++ rest)) (length buf) (omega (arith, length-append buf rest))))

-- The record that `item` comes back as from segment `segment`.
abbrev pub record_of : WalItem → ℕ → WalRecord
record_of item segment = record {
  stream = item.stream;
  id = item.id;
  seq = item.seq;
  tombstone = item.tombstone;
  doc = item.doc;
  segment = segment;
}

module _ (ext : External) (item : WalItem) (w : IsWritable ext item) where
  pub to_record-payload :
      (segment : ℕ) (fresh : Bytes)
      → to_record ext (payload item) (layout_of ext item w) segment fresh ≡ record_of item segment
  unfolding to_record record_id
  to_record-payload segment fresh = ground (
    arith,
    stream_read ext item w,
    id_read ext item w,
    doc_read ext item w,
    w.stream_text,
    w.id_text,
    ap ext.lossy (stream_read ext item w),
    ap ext.lossy (id_read ext item w),
  )

  abbrev len_bytes : Bytes
  len_bytes = le_bytes 4 (payload_len item % 2 ^ 32)

  abbrev crc_bytes : Bytes
  crc_bytes = le_bytes 4 (ext.crc32 (payload item))

  frame-append :
      (rest : Bytes) → frame ext item ++ rest ≡ len_bytes ++ (crc_bytes ++ (payload item ++ rest))
  unfolding frame
  frame-append rest = simp append_assoc

  pub advance-frame :
      (rest : Bytes)
      → advance ext (frame ext item ++ rest) ≡ some (payload item, layout_of ext item w, rest)
  advance-frame rest =
      let la : length len_bytes ≡ 4 = length-le_bytes 4 _ in
      let lc : length crc_bytes ≡ 4 = length-le_bytes 4 _ in
      let size : length (payload item) ≡ payload_len item = length-payload item in
      let body = payload item ++ rest in
      let fits : payload_len item < 2 ^ 32 = w.payload_fits in
      let large : 2 ≤ payload_len item = unfold payload_len in omega arith in
      let small : payload_len item % 2 ^ 32 ≡ payload_len item = omega arith in
      rw (frame-append rest) (
        advance_accepts ext (len_bytes ++ (crc_bytes ++ body)) (payload item) rest
          (omega (arith, length-append len_bytes (crc_bytes ++ body), length-append crc_bytes body))
          (omega arith)
          (ap from_le (slice_front 4 len_bytes (crc_bytes ++ body) la)
            ∙ from_le-le_bytes 4 (payload_len item % 2 ^ 32) (omega arith)
            ∙ small
            ∙ sym size)
          (ap from_le (
              slice_past 4 8 0 4 len_bytes (crc_bytes ++ body) (omega arith) (omega arith)
              ∙ slice_front 4 crc_bytes body lc)
            ∙ from_le-le_bytes 4 (ext.crc32 (payload item)) (ext.crc32-lt (payload item)))
          (drop_past 8 4 len_bytes (crc_bytes ++ body) (omega arith)
            ∙ drop-append_left 4 crc_bytes body lc)
          (parse_layout-payload ext item w))

  pub frame_header :
      (from_le (slice (frame ext item) 0 4) ≡ length (payload item))
      × (length (frame ext item) ≡ 8 + length (payload item))
  unfolding frame
  frame_header =
      let la : length len_bytes ≡ 4 = length-le_bytes 4 _ in
      let lc : length crc_bytes ≡ 4 = length-le_bytes 4 _ in
      let size : length (payload item) ≡ payload_len item = length-payload item in
      let fits : payload_len item < 2 ^ 32 = w.payload_fits in
      (
        ap from_le (slice_front 4 len_bytes (crc_bytes ++ payload item) la)
            ∙ from_le-le_bytes 4 (payload_len item % 2 ^ 32) (omega arith)
            ∙ omega arith,
        omega (
          arith,
          length-append len_bytes (crc_bytes ++ payload item),
          length-append crc_bytes (payload item),
        ),
      )
