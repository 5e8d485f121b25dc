-- ===== src/Split/Bundle/RoundTrip.antt =====
-- A split that is written opens with its metadata, and its spans hold its files.
use mathlib.Core.Path.{subst}
use r_search.Base.{
  ℕ, zero, suc, ◌+◌, ◌-◌, ◌^◌, ◌≤◌, ◌<◌, ◌≡◌, refl, sym, ap, ◌∙◌, true, false, List, [], ◌∷◌, ◌++◌,
  append_assoc, Option, some, arith, ltb, ◌==◌, if◌then◌else◌, cmp_bytes-IsWeak, length, slice,
  take_all, All, length-append, take-append_left, drop-append_left, length-le_bytes,
  from_le-le_bytes, le_bytes,
}
use r_search.Split.Directory.{Bytes, FileSpan}
use r_search.Split.Bundle.{
  split_magic, SpanMap, same_name, get_span, insert_span, BundleMeta, DirEntry, ok, bundled,
  copy_files, footer, parse_footer_tail, finish_bundle, write_bundle, open_footer,
}

-- A slice after a prefix, of the length of the part that it spans.
slice-middle :
    (xs ys zs : Bytes) (i : ℕ) → i ≡ length xs → slice (xs ++ (ys ++ zs)) i (i + length ys) ≡ ys
slice-middle xs ys zs i e =
    let width : i + length ys - i ≡ length ys = omega arith in
    rw (width, drop-append_left i xs (ys ++ zs) (sym e)) (take-append_left (length ys) ys zs refl)

abbrev tail_of : Bytes → Bytes
tail_of meta_json = le_bytes 8 (length meta_json) ++ split_magic

length-tail_of : (meta_json : Bytes) → length (tail_of meta_json) ≡ 16
length-tail_of meta_json = omega (
  arith,
  length-append (le_bytes 8 (length meta_json)) split_magic,
  length-le_bytes 8 (length meta_json),
)

tail_parses :
    (meta_json : Bytes)
    → length meta_json < 2 ^ 64
    → parse_footer_tail (tail_of meta_json) ≡ ok (length meta_json)
unfolding parse_footer_tail
tail_parses meta_json h =
    let bytes = le_bytes 8 (length meta_json) in
    let eight : length bytes ≡ 8 = length-le_bytes 8 (length meta_json) in
    let sixteen : (length (tail_of meta_json) == 16) ≡ true =
      ground (arith, length-tail_of meta_json) in
    rw
      (
        sixteen,
        drop-append_left 8 bytes split_magic eight,
        take-append_left 8 bytes split_magic eight,
        from_le-le_bytes 8 (length meta_json) (omega arith),
      )
      refl

last_slice :
    (xs ts : Bytes)
    → length ts ≡ 16
    → slice (xs ++ ts) (length (xs ++ ts) - 16) (length (xs ++ ts)) ≡ ts
last_slice xs ts e =
    let start : length (xs ++ ts) - 16 ≡ length xs = omega (arith, length-append xs ts) in
    let width : length (xs ++ ts) - length xs ≡ length ts = omega (arith, length-append xs ts) in
    rw (start, width, drop-append_left (length xs) xs ts refl)
      (take_all (length ts) ts (omega arith))

tail_slice :
    (out meta_json : Bytes)
    → slice
        (out ++ (meta_json ++ tail_of meta_json))
        (length (out ++ (meta_json ++ tail_of meta_json)) - 16)
        (length (out ++ (meta_json ++ tail_of meta_json)))
      ≡ tail_of meta_json
tail_slice out meta_json =
    subst (λ zs. slice zs (length zs - 16) (length zs) ≡ tail_of meta_json)
      (append_assoc out meta_json (tail_of meta_json))
      (last_slice (out ++ meta_json) (tail_of meta_json) (length-tail_of meta_json))

module _ {S : Type 0} (from_slice : Bytes → Option (BundleMeta S)) where
  -- The footer behind any files is read back.
  open_footer-footer :
      (out meta_json : Bytes) (meta : BundleMeta S)
      → length meta_json < 2 ^ 64
      → from_slice meta_json ≡ some meta
      → open_footer from_slice (out ++ footer meta_json) ≡ ok meta
  unfolding open_footer footer
  open_footer-footer out meta_json meta h e =
      let object = out ++ (meta_json ++ tail_of meta_json) in
      let sixteen = length-tail_of meta_json in
      let size : length object ≡ length out + (length meta_json + 16) = omega (
        arith,
        length-append out (meta_json ++ tail_of meta_json),
        length-append meta_json (tail_of meta_json),
      ) in
      let large : ltb (length object) 16 ≡ false = ground arith in
      let tail : slice object (length object - 16) (length object) ≡ tail_of meta_json =
        tail_slice out meta_json in
      let fits : ltb (length object - 16) (length meta_json) ≡ false = ground arith in
      let start : length object - 16 - length meta_json ≡ length out = omega arith in
      rw
        (
          large,
          tail,
          tail_parses meta_json h,
          fits,
          start,
          slice-middle out meta_json (tail_of meta_json) (length out) refl,
          e,
        )
        refl

same_name_refl : (a : Bytes) → same_name a a ≡ true
same_name_refl [] = refl
same_name_refl (a ∷ xs) = ground (arith, same_name_refl xs)

get_span-insert_span :
    (j k : Bytes) (span : FileSpan) (files : SpanMap)
    → get_span j (insert_span k span files)
      ≡ (if same_name k j then some span else get_span j files)
get_span-insert_span j k span [] = refl
get_span-insert_span j k span ((n, s) ∷ files) = ground (
  arith,
  get_span-insert_span j k span files,
  cmp_bytes-IsWeak.same k n j tt tt tt,
  cmp_bytes-IsWeak.same k j n tt tt tt,
  cmp_bytes-IsWeak.anti n j tt tt,
)

-- The file of an entry is where its span says.
pub record Held (out : Bytes) (files : SpanMap) (e : DirEntry) : Type 0 where
  pub span : FileSpan
  pub there : get_span e.name files ≡ some span
  pub within : span.offset + span.len ≤ length out
  pub contents : slice out span.offset (span.offset + span.len) ≡ e.contents

-- The spans of the entries, in what is written.
abbrev pub Holds : Bytes → SpanMap → List DirEntry → Type 0
Holds out files = All (Held out files)

-- No two entries have a name in common.
abbrev pub Distinct : List DirEntry → Type 0
Distinct [] = Unit
Distinct (e ∷ es) = All (λ f. same_name f.name e.name ≡ false) es × Distinct es

slice-append_left : (xs ys : Bytes) (i j : ℕ) → j ≤ length xs → slice (xs ++ ys) i j ≡ slice xs i j
slice-append_left [] ys i j h = let none_left : j - i ≡ 0 = omega arith in rw none_left
slice-append_left (x ∷ xs) ys zero zero h = refl
slice-append_left (x ∷ xs) ys zero (suc j) h =
    let width : suc j - 0 ≡ suc (j - 0) = omega arith in
    rw width (ap (λ zs. x ∷ zs) (slice-append_left xs ys 0 j (omega arith)))
slice-append_left (x ∷ xs) ys (suc i) zero h =
    let none_left : 0 - suc i ≡ 0 = omega arith in rw none_left
slice-append_left (x ∷ xs) ys (suc i) (suc j) h =
    let width : suc j - suc i ≡ j - i = omega arith in
    rw width (slice-append_left xs ys i j (omega arith))

-- A later file keeps what is held.
Held-copy :
    (out : Bytes) (files : SpanMap) (e f : DirEntry)
    → same_name f.name e.name ≡ false
    → Held out files e
    → Held
        (out ++ f.contents)
        (insert_span f.name (record { offset = length out; len = length f.contents }) files)
        e
Held-copy out files e f apart h = record {
  span = h.span;
  there =
      get_span-insert_span e.name f.name (record { offset = length out; len = length f.contents })
        files
      ∙ rw apart h.there;
  within = omega (arith, length-append out f.contents, h.within);
  contents =
      slice-append_left out f.contents h.span.offset (h.span.offset + h.span.len) h.within
      ∙ h.contents;
}

Held-copied :
    (out : Bytes) (files : SpanMap) (f : DirEntry)
    → Held
        (out ++ f.contents)
        (insert_span f.name (record { offset = length out; len = length f.contents }) files)
        f
Held-copied out files f = record {
  span = record { offset = length out; len = length f.contents };
  there =
      get_span-insert_span f.name f.name (record { offset = length out; len = length f.contents })
        files
      ∙ rw (same_name_refl f.name) refl;
  within = omega (arith, length-append out f.contents);
  contents =
      let width : length out + length f.contents - length out ≡ length f.contents = omega arith in
      rw (width, drop-append_left (length out) out f.contents refl)
        (take_all (length f.contents) f.contents (omega arith));
}

Holds-copy :
    (out : Bytes) (files : SpanMap) (es : List DirEntry) (f : DirEntry)
    → All (λ e. same_name f.name e.name ≡ false) es
    → Holds out files es
    → Holds
        (out ++ f.contents)
        (insert_span f.name (record { offset = length out; len = length f.contents }) files)
        es
Holds-copy out files [] f apart h = tt
Holds-copy out files (e ∷ es) f (a, apart) (h, hs) =
    (Held-copy out files e f a h, Holds-copy out files es f apart hs)

-- Done entries and those to come, none of a name with another.
Apart : List DirEntry → List DirEntry → Type 0
Apart done es = All (λ f. All (λ e. same_name f.name e.name ≡ false) done) es

Apart-add :
    (done es : List DirEntry) (f : DirEntry)
    → All (λ g. same_name g.name f.name ≡ false) es
    → Apart done es
    → Apart (f ∷ done) es
unfolding Apart
Apart-add done [] f new all = tt
Apart-add done (g ∷ es) f (n, new) (a, all) = ((n, a), Apart-add done es f new all)

Apart-none : (es : List DirEntry) → Apart [] es
unfolding Apart
Apart-none [] = tt
Apart-none (f ∷ es) = (tt, Apart-none es)

copy_files-Holds :
    (es done : List DirEntry) (out : Bytes) (files : SpanMap)
    → Holds out files done
    → Apart done es
    → Distinct es
    → Holds (copy_files es out files).0 (copy_files es out files).1 done
      × Holds (copy_files es out files).0 (copy_files es out files).1 es
unfolding Apart
copy_files-Holds [] done out files h apart d = (h, tt)
copy_files-Holds (f ∷ es) done out files h (a, apart) (new, d) =
    let span : FileSpan = record { offset = length out; len = length f.contents } in
    let ((mine, old), rest) =
      copy_files-Holds es (f ∷ done) (out ++ f.contents) (insert_span f.name span files)
        (Held-copied out files f, Holds-copy out files done f a h) (Apart-add done es f new apart)
        d in
    (old, (mine, rest))

-- What an object in storage gives back: its metadata, and each file's bytes.
pub record Restores {S : Type 0} (from_slice : Bytes → Option (BundleMeta S)) (dir : List DirEntry)
    (split : S) (object : Bytes) (meta : BundleMeta S) : Type 0 where
  pub opens : open_footer from_slice object ≡ ok meta
  pub described : meta.split ≡ split
  pub files : Holds object meta.files (bundled dir)

Held-append :
    (out more : Bytes) (files : SpanMap) (e : DirEntry)
    → Held out files e
    → Held (out ++ more) files e
Held-append out more files e h = record {
  span = h.span;
  there = h.there;
  within = omega (arith, length-append out more, h.within);
  contents =
      slice-append_left out more h.span.offset (h.span.offset + h.span.len) h.within ∙ h.contents;
}

Holds-append :
    (out more : Bytes) (files : SpanMap) (es : List DirEntry)
    → Holds out files es
    → Holds (out ++ more) files es
Holds-append out more files [] h = tt
Holds-append out more files (e ∷ es) (h, hs) =
    (Held-append out more files e h, Holds-append out more files es hs)

module _ {S : Type 0} (to_vec : BundleMeta S → Option Bytes)
    (from_slice : Bytes → Option (BundleMeta S)) where
  -- The JSON of metadata, which parses back and whose length is a u64.
  pub record Json (meta : BundleMeta S) : Type 0 where
    pub bytes : Bytes
    pub written : to_vec meta ≡ some bytes
    pub parses : from_slice bytes ≡ some meta
    pub short : length bytes < 2 ^ 64

  -- When no two bundled files share a name and the metadata's JSON parses back and is shorter than
  -- 2 ^ 64, write_bundle returns an object whose footer opens to the returned metadata, and in
  -- which the span of every bundled file holds exactly its bytes.
  pub write_bundle-Restores :
      (dir : List DirEntry) (split : S)
      → Json (record { files = (copy_files (bundled dir) [] []).1; split = split })
      → Distinct (bundled dir)
      → (object : Bytes) × ((meta : BundleMeta S) × ((write_bundle to_vec dir split
              ≡ ok (object, meta))
            × Restores from_slice dir split object meta))
  unfolding write_bundle
  write_bundle-Restores dir split j d =
      let (out, files) = copy_files (bundled dir) [] [] in
      let meta : BundleMeta S = record { files = files; split = split } in
      let (old, held) = copy_files-Holds (bundled dir) [] [] [] tt (Apart-none (bundled dir)) d in
      (
        out ++ footer j.bytes,
        (
          meta,
          (
            ap (finish_bundle to_vec out meta) j.written,
            record {
              opens = open_footer-footer from_slice out j.bytes meta j.short j.parses;
              described = refl;
              files = Holds-append out (footer j.bytes) files (bundled dir) held;
            },
          ),
        ),
      )
