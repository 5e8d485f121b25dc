-- ===== src/Wal/Frame.antt =====
-- Records of crates/rsearch-ingest/src/wal.rs: what `append_batch` writes for an item, and what
-- `SegmentCursor` and `WalReplay` read back. A file is the list of its bytes; a string is the list
-- of its UTF-8 bytes. Flags are bits of a u16: `n | 0x8000`, `n & !0x8000` and `n & 0x8000` are
-- written by the arithmetic of the top bit.
pub mod RoundTrip
pub mod Soundness
pub mod Replay
pub mod Exhaust
use r_search.Base.{
  ℕ, zero, suc, ◌+◌, ◌-◌, ◌%◌, ◌^◌, ◌<◌, ◌≡◌, Bool, true, false, ◌||◌, List, [], ◌∷◌, ◌++◌, Option,
  none, some, ltb, leb, ◌==◌, if◌then◌else◌, ◌>>=◌, length, take, drop, slice, ℤ, pos, to_bits,
  of_bits, le_bytes, from_le,
}

abbrev pub Bytes : Type 0
Bytes = List ℕ

-- Crates that the log calls: `crc32fast::hash` (its streaming hasher gives the hash of the
-- concatenation) and `String::from_utf8_lossy`.
pub record External : Type 0 where
  pub crc32 : Bytes → ℕ
  pub crc32-lt : (b : Bytes) → crc32 b < 2 ^ 32
  pub lossy : Bytes → Bytes

pub record WalItem : Type 0 where
  pub stream : Bytes
  pub id : Bytes
  pub seq : ℤ
  pub tombstone : Bool
  pub doc : Bytes

pub record WalRecord : Type 0 where
  pub stream : Bytes
  pub id : Bytes
  pub seq : ℤ
  pub tombstone : Bool
  pub doc : Bytes
  pub segment : ℕ

pub record RecordLayout : Type 0 where
  pub stream : ℕ × ℕ
  pub id : Option (ℕ × ℕ)
  pub seq : ℤ
  pub tombstone : Bool
  pub doc_start : ℕ

-- V2_FLAG and TOMBSTONE_FLAG.
abbrev pub flag_bit : ℕ
flag_bit = 2 ^ 15

abbrev pub has_flag : ℕ → Bool
has_flag n = leb flag_bit n

abbrev pub set_flag : ℕ → ℕ
set_flag n = if has_flag n then n else n + flag_bit

abbrev pub clear_flag : ℕ → ℕ
clear_flag n = n % flag_bit

-- The test that refuses an item.
unfoldable pub too_long : WalItem → Bool
too_long item = leb flag_bit (length item.stream) || leb flag_bit (length item.id)

unfoldable pub len_field : WalItem → ℕ
len_field item = set_flag (length item.stream % 2 ^ 16)

unfoldable pub id_len_field : WalItem → ℕ
id_len_field item = let n = length item.id % 2 ^ 16 in if item.tombstone then set_flag n else n

unfoldable pub payload_len : WalItem → ℕ
payload_len item = 2 + length item.stream + 2 + length item.id + 8 + length item.doc

-- The slices that are hashed and written, in order.
unfoldable pub payload : WalItem → Bytes
payload item =
    le_bytes 2 (len_field item)
    ++ (item.stream
        ++ (le_bytes 2 (id_len_field item)
            ++ (item.id ++ (le_bytes 8 (to_bits item.seq) ++ item.doc))))

-- The header and the payload.
unfoldable pub frame : External → WalItem → Bytes
frame ext item =
    le_bytes 4 (payload_len item % 2 ^ 32)
    ++ (le_bytes 4 (ext.crc32 (payload item)) ++ payload item)

-- `advance` behind the v2 flag: the id, its flag and the sequence number, from offset `at`.
unfoldable pub parse_identity : Bytes → ℕ → ℕ → Option RecordLayout
parse_identity buf stream_len at =
    if ltb (length buf) (at + 2)
    then none
    else let id_field = from_le (slice buf at (at + 2)) in
      let id_len = clear_flag id_field in
      let from = at + 2 in
      let end = from + id_len in
      if ltb (length buf) (end + 8)
      then none
      else some (record {
        stream = (2, 2 + stream_len);
        id = some (from, end);
        seq = of_bits (from_le (slice buf end (end + 8)));
        tombstone = has_flag id_field;
        doc_start = end + 8;
      })

-- `advance` from the payload on.
unfoldable pub parse_layout : Bytes → Option RecordLayout
parse_layout buf =
    let field = from_le (slice buf 0 2) in
    let stream_len = clear_flag field in
    if ltb (length buf) (2 + stream_len)
    then none
    else if has_flag field
    then parse_identity buf stream_len (2 + stream_len)
    else some (record {
      stream = (2, 2 + stream_len);
      id = none;
      seq = pos 0;
      tombstone = false;
      doc_start = 2 + stream_len;
    })

-- `SegmentCursor::advance`: the payload buffer, its layout, and what is left of the file.
unfoldable pub advance : External → Bytes → Option (Bytes × RecordLayout × Bytes)
advance ext file =
    if ltb (length file) 8
    then none
    else let len = from_le (slice file 0 4) in
      let crc = from_le (slice file 4 8) in
      let rest = drop 8 file in
      if ltb len 2
      then none
      else if ltb (length rest) len
      then none
      else if ext.crc32 (take len rest) == crc
      then (do layout ← parse_layout (take len rest); some (take len rest, layout, drop len rest))
      else none

-- The id bytes: `fresh` is the generated id of a record that has none.
unfoldable pub record_id : External → Bytes → Bytes → Option (ℕ × ℕ) → Bytes
record_id ext buf fresh none = fresh
record_id ext buf fresh (some (from, to)) = ext.lossy (slice buf from to)

-- `SegmentCursor::record`.
unfoldable pub to_record : External → Bytes → RecordLayout → ℕ → Bytes → WalRecord
to_record ext buf layout segment fresh = record {
  stream = ext.lossy (slice buf layout.stream.0 layout.stream.1);
  id = record_id ext buf fresh layout.id;
  seq = layout.seq;
  tombstone = layout.tombstone;
  doc = drop layout.doc_start buf;
  segment = segment;
}

-- `WalReplay::next` over one segment until `advance` fails. `fresh` gives the generated id of the
-- record that starts with so many bytes left.
unfoldable pub replay_loop : External → ℕ → ℕ → (ℕ → Bytes) → Bytes → List WalRecord
replay_loop ext zero segment fresh file = []
replay_loop ext (suc fuel) segment fresh file = elim (advance ext file) [
  | none ↦ []
  | some (buf, layout, rest) ↦
      to_record ext buf layout segment (fresh (length file))
      ∷ replay_loop ext fuel segment fresh rest
]

-- The counting pass of `Wal::open`.
unfoldable pub count_loop : External → ℕ → Bytes → ℕ
count_loop ext zero file = 0
count_loop ext (suc fuel) file = elim (advance ext file) [
  | none ↦ 0
  | some (buf, layout, rest) ↦ suc (count_loop ext fuel rest)
]

-- A record takes a byte at least, so the length of the file bounds the rounds.
abbrev pub replay_segment : External → ℕ → (ℕ → Bytes) → Bytes → List WalRecord
replay_segment ext segment fresh file = replay_loop ext (suc (length file)) segment fresh file

abbrev pub count_records : External → Bytes → ℕ
count_records ext file = count_loop ext (suc (length file)) file
