-- ===== src/Split/Bundle.antt =====
-- The split object: crates/rsearch-index/src/split_file.rs, and the opening of its footer in
-- crates/rsearch-index/src/reader.rs. A directory is the list of its entries and a file its bytes; the
-- JSON of the footer is a parameter.
pub mod RoundTrip
mod Tests
use r_search.Base.{
  ℕ, ◌+◌, ◌-◌, ◌^◌, ◌≡◌, Bool, true, false, ◌&&◌, not, List, [], ◌∷◌, ◌++◌, Option, none, some, ltb,
  ◌==◌, if◌then◌else◌, Ordering, lt, eq, gt, cmp_bytes, ℤ, length, take, drop, slice, filter,
  le_bytes, from_le,
}
use r_search.Split.Directory.{Bytes, FileSpan}
use r_search.Search.TopK.{sort_by}

-- `RSPLIT01`.
abbrev pub split_magic : Bytes
split_magic = 82 ∷ 83 ∷ 80 ∷ 76 ∷ 73 ∷ 84 ∷ 48 ∷ 49 ∷ []

abbrev pub footer_tail_len : ℕ
footer_tail_len = 16

pub record SplitMeta (Value DynamicFields : Type 0) : Type 0 where
  pub split_id : Bytes
  pub stream : Bytes
  pub doc_count : ℕ
  pub time_start_millis : ℤ
  pub time_end_millis : ℤ
  pub mapping : Value
  pub schema_version : ℕ
  pub seq_min : Option ℤ
  pub seq_max : Option ℤ
  pub dynamic_fields : Option DynamicFields

-- A map by name, in the order of the names.
abbrev pub SpanMap : Type 0
SpanMap = List (Bytes × FileSpan)

abbrev pub same_name : Bytes → Bytes → Bool
same_name a b = elim (cmp_bytes a b) [ eq ↦ true | _ ↦ false ]

abbrev pub get_span : Bytes → SpanMap → Option FileSpan
get_span name [] = none
get_span name ((n, span) ∷ files) =
    let rest = get_span name files in if same_name n name then some span else rest

abbrev pub insert_span : Bytes → FileSpan → SpanMap → SpanMap
insert_span name span [] = (name, span) ∷ []
insert_span name span ((n, s) ∷ files) =
    let rest = insert_span name span files in
    elim (cmp_bytes name n) [
      | lt ↦ (name, span) ∷ (n, s) ∷ files
      | eq ↦ (name, span) ∷ files
      | gt ↦ (n, s) ∷ rest
    ]

pub record BundleMeta (S : Type 0) : Type 0 where
  pub files : SpanMap
  pub split : S

pub record DirEntry : Type 0 where
  pub name : Bytes
  pub is_file : Bool
  pub contents : Bytes

pub data IndexError : Type 0 where
  not_serialized too_small bad_tail_len bad_magic bad_meta_len bad_meta : IndexError

pub data IndexResult (A : Type 0) : Type 0 where
  ok : A → IndexResult A
  err : IndexError → IndexResult A

abbrev pub same_bytes : Bytes → Bytes → Bool
same_bytes = same_name

abbrev pub ends_with : Bytes → Bytes → Bool
ends_with suffix name = same_bytes (drop (length name - length suffix) name) suffix

-- `.lock`.
abbrev pub lock_suffix : Bytes
lock_suffix = 46 ∷ 108 ∷ 111 ∷ 99 ∷ 107 ∷ []

abbrev pub is_bundled : DirEntry → Bool
is_bundled e = e.is_file && not (ends_with lock_suffix e.name)

abbrev pub cmp_entry : DirEntry → DirEntry → Ordering
cmp_entry a b = cmp_bytes a.name b.name

unfoldable pub bundled : List DirEntry → List DirEntry
bundled dir = sort_by cmp_entry (filter is_bundled dir)

-- The loop over the names: what is written, and the spans.
abbrev pub copy_files : List DirEntry → Bytes → SpanMap → Bytes × SpanMap
copy_files [] out files = (out, files)
copy_files (e ∷ es) out files =
    copy_files es (out ++ e.contents)
      (insert_span e.name (record { offset = length out; len = length e.contents }) files)

unfoldable pub footer : Bytes → Bytes
footer meta_json = meta_json ++ (le_bytes 8 (length meta_json) ++ split_magic)

unfoldable pub parse_footer_tail : Bytes → IndexResult ℕ
parse_footer_tail tail =
    if not (length tail == footer_tail_len)
    then err bad_tail_len
    else if not (same_bytes (slice tail 8 16) split_magic)
    then err bad_magic
    else ok (from_le (slice tail 0 8))

module _ {S : Type 0} (to_vec : BundleMeta S → Option Bytes) where
  abbrev pub finish_bundle :
      Bytes → BundleMeta S → Option Bytes → IndexResult (Bytes × BundleMeta S)
  finish_bundle out meta none = err not_serialized
  finish_bundle out meta (some meta_json) = ok (out ++ footer meta_json, meta)

  unfoldable pub write_bundle : List DirEntry → S → IndexResult (Bytes × BundleMeta S)
  write_bundle dir split =
      let (out, files) = copy_files (bundled dir) [] [] in
      let meta : BundleMeta S = record { files = files; split = split } in
      finish_bundle out meta (to_vec meta)

module _ {S : Type 0} (from_slice : Bytes → Option (BundleMeta S)) where
  abbrev pub parsed : Option (BundleMeta S) → IndexResult (BundleMeta S)
  parsed none = err bad_meta
  parsed (some meta) = ok meta

  abbrev pub parse_meta : Bytes → IndexResult (BundleMeta S)
  parse_meta meta_json = parsed (from_slice meta_json)

  abbrev pub read_meta : Bytes → ℕ → IndexResult ℕ → IndexResult (BundleMeta S)
  read_meta object size (err e) = err e
  read_meta object size (ok meta_len) =
      if ltb (size - footer_tail_len) meta_len
      then err bad_meta_len
      else let meta_start = size - footer_tail_len - meta_len in
        parse_meta (slice object meta_start (meta_start + meta_len))

  -- What `open_with` reads of the stored object before it opens the index.
  unfoldable pub open_footer : Bytes → IndexResult (BundleMeta S)
  open_footer object =
      let size = length object in
      if ltb size footer_tail_len
      then err too_small
      else read_meta object size (parse_footer_tail (slice object (size - footer_tail_len) size))
