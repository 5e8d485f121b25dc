-- ===== src/Split/Bundle/Tests.antt =====
-- A run of the bundle's writing.
use r_search.Base.{ℕ, ◌≡◌, refl, true, List, [], ◌∷◌, Option, none, some, arith}
use r_search.Split.Directory.{Bytes}
use r_search.Search.TopK.{insert_by}
use r_search.Split.Bundle.{SpanMap, BundleMeta, DirEntry, ok, bundled, write_bundle}
use r_search.Split.Bundle.RoundTrip.{Restores, write_bundle-Restores}

-- A directory of two files and a lock file; the JSON of its split's metadata is a byte.
abbrev dir_of_two : List DirEntry
dir_of_two =
    record { name = 98 ∷ []; is_file = true; contents = 7 ∷ 8 ∷ [] }
    ∷ record { name = 120 ∷ 46 ∷ 108 ∷ 111 ∷ 99 ∷ 107 ∷ []; is_file = true; contents = 9 ∷ [] }
    ∷ record { name = 97 ∷ []; is_file = true; contents = 5 ∷ [] }
    ∷ []

abbrev spans_of_two : SpanMap
spans_of_two =
    (97 ∷ [], record { offset = 0; len = 1 }) ∷ (98 ∷ [], record { offset = 1; len = 2 }) ∷ []

abbrev two_meta : BundleMeta ℕ
two_meta = record { files = spans_of_two; split = 4 }

abbrev one_byte : BundleMeta ℕ → Option Bytes
one_byte meta = some (meta.split ∷ [])

abbrev parse_byte : Bytes → Option (BundleMeta ℕ)
parse_byte [] = none
parse_byte (b ∷ bs) = some (record { files = spans_of_two; split = b })

write_bundle-Restores_example :
    (object : Bytes) × ((meta : BundleMeta ℕ) × ((write_bundle one_byte dir_of_two 4
          ≡ ok (object, meta))
        × Restores parse_byte dir_of_two 4 object meta))
unfolding bundled insert_by
write_bundle-Restores_example =
    write_bundle-Restores one_byte parse_byte dir_of_two 4
      (record { bytes = 4 ∷ []; written = refl; parses = refl; short = omega arith })
      ((refl, tt), (tt, tt))
