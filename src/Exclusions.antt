-- ===== src/Exclusions.antt =====
-- Tombstones applied to a split: crates/rsearch-index/src/exclusions.rs. A segment is its postings by
-- `_id` and its `_seq` column, which answer without errors; the id field is there unless the split is a
-- legacy one. A segment's id is a number, and so is a document's.
pub mod Docs
pub mod Apply
pub mod Growth
pub mod Walk
mod Tests
use r_search.Base.{
  ℕ, zero, suc, ◌+◌, ◌-◌, ◌^◌, min, ◌≡◌, Bool, true, false, ◌&&◌, ◌||◌, not, List, [], ◌∷◌, ◌++◌,
  map, Option, none, some, ltb, ◌==◌, if◌then◌else◌, ℤ, pos, leb_ℤ, ltb_ℤ, compare, length,
  get_elem?, drop, filter, contains,
}
use r_search.Search.TopK.{sort_by}
use r_search.Search.TopK.Merge.{concat}

pub record Tombstone : Type 0 where
  pub seq : ℤ
  pub doc_id : List ℕ
  pub before_seq : ℤ

pub record ExclusionSet : Type 0 where
  pub applied_through : ℤ
  pub per_segment : List (List ℕ)
  pub ordinals : List (ℕ × ℕ)
  pub total : ℕ

abbrev pub ordinals_from : ℕ → List ℕ → List (ℕ × ℕ)
ordinals_from ord [] = []
ordinals_from ord (id ∷ ids) = (id, ord) ∷ ordinals_from (suc ord) ids

abbrev pub no_docs : List ℕ → List (List ℕ)
no_docs = map (λ id. [])

unfoldable pub empty : List ℕ → ExclusionSet
empty segment_ids = record {
  applied_through = pos 0;
  per_segment = no_docs segment_ids;
  ordinals = ordinals_from 0 segment_ids;
  total = 0;
}

abbrev pub ordinal_of : ℕ → List (ℕ × ℕ) → Option ℕ
ordinal_of id [] = none
ordinal_of id ((i, ord) ∷ more) =
    let rest = ordinal_of id more in if i == id then some ord else rest

abbrev pub docs_at : List (List ℕ) → Option ℕ → List ℕ
docs_at per_segment none = []
docs_at per_segment (some ord) = elim (get_elem? per_segment ord) [ none ↦ [] | some docs ↦ docs ]

abbrev pub for_segment : ExclusionSet → ℕ → List ℕ
for_segment set id = docs_at set.per_segment (ordinal_of id set.ordinals)

abbrev pub is_empty : ExclusionSet → Bool
is_empty set = set.total == 0

-- The binary search of a sorted slice.
unfoldable pub is_excluded : ExclusionSet → ℕ → ℕ → Bool
is_excluded set segment_ord doc = contains doc (docs_at set.per_segment (some segment_ord))

abbrev pub dedup_from : ℕ → List ℕ → List ℕ
dedup_from d [] = []
dedup_from d (e ∷ es) = let rest = dedup_from e es in if e == d then rest else e ∷ rest

-- `dedup` keeps the first of equal neighbours.
abbrev pub dedup : List ℕ → List ℕ
dedup [] = []
dedup (d ∷ ds) = d ∷ dedup_from d ds

unfoldable pub merge_docs : List ℕ → List ℕ → List ℕ
merge_docs existing [] = existing
merge_docs existing (d ∷ added) = dedup (sort_by compare (existing ++ (d ∷ added)))

abbrev pub extend_segments : List (List ℕ) → List (List ℕ) → List (List ℕ)
extend_segments [] additions = []
extend_segments (docs ∷ per) [] = merge_docs docs [] ∷ extend_segments per []
extend_segments (docs ∷ per) (added ∷ additions) =
    merge_docs docs added ∷ extend_segments per additions

abbrev pub total_of : List (List ℕ) → ℕ
total_of [] = 0
total_of (docs ∷ per) = length docs + total_of per

unfoldable pub extended : ExclusionSet → List (List ℕ) → ℤ → ExclusionSet
extended set additions applied_through =
    let per : List (List ℕ) = extend_segments set.per_segment additions in
    record {
      applied_through = applied_through;
      per_segment = per;
      ordinals = set.ordinals;
      total = total_of per;
    }

pub record Segment : Type 0 where
  pub postings : List ℕ → Option (List ℕ)
  pub seq_column : ℕ → Option ℤ

abbrev pub is_older : Option ℤ → ℤ → Bool
is_older none before_seq = false
is_older (some seq) before_seq = ltb_ℤ seq before_seq

abbrev pub docs_of : Option (List ℕ) → List ℕ
docs_of none = []
docs_of (some docs) = docs

-- Nothing in the split is older than the bound.
abbrev pub is_past : Option ℤ → Tombstone → Bool
is_past none t = false
is_past (some seq_min) t = leb_ℤ t.before_seq seq_min

abbrev pub additions_of : Segment → Option ℤ → Tombstone → List ℕ
additions_of segment seq_min t =
    let found : List ℕ =
      filter (λ doc. is_older (segment.seq_column doc) t.before_seq)
        (docs_of (segment.postings t.doc_id)) in
    if is_past seq_min t then [] else found

abbrev pub additions : Option ℤ → List Tombstone → Segment → List ℕ
additions seq_min pending segment = concat (map (additions_of segment seq_min) pending)

-- The tombstones from the partition point on.
abbrev pub pending_of : ℤ → List Tombstone → List Tombstone
pending_of applied [] = []
pending_of applied (t ∷ ts) =
    let rest = pending_of applied ts in if leb_ℤ t.seq applied then rest else t ∷ ts

abbrev pub last_seq : Tombstone → List Tombstone → ℤ
last_seq t [] = t.seq
last_seq t (u ∷ us) = last_seq u us

pub record SplitReader : Type 0 where
  pub has_ids : Bool
  pub seq_min : Option ℤ
  pub segments : List Segment

abbrev pub apply_pending : SplitReader → ExclusionSet → List Tombstone → ExclusionSet
apply_pending split current [] = current
apply_pending split current (t ∷ ts) =
    if split.has_ids
    then extended current (map (additions split.seq_min (t ∷ ts)) split.segments) (last_seq t ts)
    else extended current [] (last_seq t ts)

-- The set that is returned is the one in the slot.
unfoldable pub apply_tombstones : SplitReader → ExclusionSet → List Tombstone → ExclusionSet
apply_tombstones split current ts =
    apply_pending split current (pending_of current.applied_through ts)

unfoldable pub seed_applied_through : ExclusionSet → ℤ → ExclusionSet
seed_applied_through slot applied_through =
    if (leb_ℤ slot.applied_through (pos 0) && leb_ℤ (pos 0) slot.applied_through)
      && (is_empty slot && ltb_ℤ (pos 0) applied_through)
    then record slot { applied_through = applied_through; total = 0 }
    else slot
