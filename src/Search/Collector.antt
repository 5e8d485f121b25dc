-- ===== src/Search/Collector.antt =====
-- The collection of a page of hits in one segment and the merge of the segments' pages: the collector
-- of crates/rsearch-search/src/sort.rs. The lists of keys, clauses and substitutes have one entry for each
-- field, as `for_segment` makes them; the model reads a key that is not there, where the source would
-- panic, as missing.
pub mod Order
pub mod Shown
pub mod Cursor
pub mod Distinct
pub mod Heap
pub mod Pages
use r_search.Base.{
  ℕ, ◌+◌, max, ◌≡◌, Bool, true, false, List, [], ◌∷◌, ◌++◌, map, Option, none, some, ltb, ◌==◌,
  if◌then◌else◌, ℤ, pos, negsuc, Ordering, lt, eq, gt, compare, or_then, cmp_ℤ, length, take,
  filter,
}
use r_search.Search.Sort.{SortType, SortValue, missing, FieldOrder, Key, directed, cmp_hits}
use r_search.Search.Column.{
  SegKey, missing_key, ord_key, int_key, float_key, bool_key, ip_key, SegAccessor, cmp_key, key,
  key_for, materialize,
}
use r_search.Search.TopK.{offer, sort_by}
use r_search.Search.TopK.Merge.{concat}

-- A clause, without its name and the place of its values.
pub record ResolvedSort : Type 0 where
  pub ty : SortType
  pub desc : Bool
  pub use_max : Bool
  pub null_is_max : Bool
  pub substitute : Option SortValue

abbrev pub order : ResolvedSort → FieldOrder
order sort = record { desc = sort.desc; null_is_max = sort.null_is_max }

pub record FieldCursor : Type 0 where
  pub values : List SortValue
  pub timestamp_millis : Option ℤ
  pub seq : Option ℤ

pub record FieldSortPlan : Type 0 where
  pub fields : List ResolvedSort
  pub cursor : Option FieldCursor

abbrev pub orders : FieldSortPlan → List FieldOrder
orders plan = map order plan.fields

-- `FieldSortCollector::new`: a page has room for a hit.
abbrev pub page_limit : ℕ → ℕ
page_limit limit = max limit 1

pub record Ranked : Type 0 where
  pub keys : List SegKey
  pub ts : ℤ
  pub seq : ℤ
  pub doc : ℕ

abbrev pub first_key : List SegKey → SegKey × List SegKey
first_key [] = (missing_key, [])
first_key (k ∷ ks) = (k, ks)

-- The cursor in a segment's keys.
pub record SegCursor : Type 0 where
  pub keys : List SegKey
  pub ts : Option ℤ
  pub seq : Option ℤ

pub record SegmentCollector : Type 0 where
  pub accessors : List SegAccessor
  pub plan : FieldSortPlan
  pub cursor : Option SegCursor
  pub substitutes : List (Option SegKey)
  pub ts : ℕ → Option ℤ
  pub seq : ℕ → Option ℤ
  pub segment_ord : ℕ
  pub limit : ℕ
  pub heap : List Ranked

pub record DocAddress : Type 0 where
  pub segment_ord : ℕ
  pub doc_id : ℕ

pub record SortedHit : Type 0 where
  pub key : Key SortValue
  pub doc : DocAddress

abbrev pub substitute_key : SegAccessor → Option SortValue → Option SegKey
substitute_key accessor none = none
substitute_key accessor (some v) = some (key_for accessor v)

abbrev pub substitute_keys : List SegAccessor → List ResolvedSort → List (Option SegKey)
substitute_keys [] sorts = []
substitute_keys (a ∷ accessors) [] = []
substitute_keys (a ∷ accessors) (sort ∷ sorts) =
    substitute_key a sort.substitute ∷ substitute_keys accessors sorts

abbrev pub cursor_keys : List SegAccessor → List SortValue → List SegKey
cursor_keys [] values = []
cursor_keys (a ∷ accessors) [] = []
cursor_keys (a ∷ accessors) (v ∷ values) = key_for a v ∷ cursor_keys accessors values

abbrev pub seg_cursor : List SegAccessor → Option FieldCursor → Option SegCursor
seg_cursor accessors none = none
seg_cursor accessors (some c) =
    some (record { keys = cursor_keys accessors c.values; ts = c.timestamp_millis; seq = c.seq })

-- A segment is its accessors, its two tiebreak columns and its ordinal.
unfoldable pub for_segment :
    FieldSortPlan → ℕ → List SegAccessor → (ℕ → Option ℤ) → (ℕ → Option ℤ) → ℕ → SegmentCollector
for_segment plan limit accessors ts seq ord = record {
  accessors = accessors;
  plan = plan;
  cursor = seg_cursor accessors plan.cursor;
  substitutes = substitute_keys accessors plan.fields;
  ts = ts;
  seq = seq;
  segment_ord = ord;
  limit = limit;
  heap = [];
}

abbrev pub or_substitute : SegKey → Option SegKey → SegKey
or_substitute missing_key (some sub) = sub
or_substitute key substitute = key

unfoldable pub keys_of :
    List SegAccessor → List ResolvedSort → List (Option SegKey) → ℕ → List SegKey
keys_of [] sorts subs doc = []
keys_of (a ∷ accessors) [] subs doc = []
keys_of (a ∷ accessors) (sort ∷ sorts) [] doc = []
keys_of (a ∷ accessors) (sort ∷ sorts) (sub ∷ subs) doc =
    or_substitute (key a doc sort.use_max) sub ∷ keys_of accessors sorts subs doc

abbrev pub keys_for : SegmentCollector → ℕ → List SegKey
keys_for c doc = keys_of c.accessors c.plan.fields c.substitutes doc

abbrev pub or_default : ℤ → Option ℤ → ℤ
or_default d none = d
or_default d (some n) = n

unfoldable pub ranked_of : SegmentCollector → ℕ → Ranked
ranked_of c doc = record {
  keys = keys_for c doc;
  ts = or_default (pos 0) (c.ts doc);
  seq = or_default (negsuc 0) (c.seq doc);
  doc = doc;
}

abbrev pub cmp_address : DocAddress → DocAddress → Ordering
cmp_address a b = or_then (compare a.segment_ord b.segment_ord) (compare a.doc_id b.doc_id)

module _ (as_f64 : ℤ → ℤ) where
  abbrev pub cmp_keys : List FieldOrder → List SegKey → List SegKey → Ordering
  cmp_keys [] as_ bs = eq
  cmp_keys (o ∷ os) as_ bs =
      let (a, more_as) = first_key as_ in
      let (b, more_bs) = first_key bs in
      let rest = cmp_keys os more_as more_bs in
      or_then (directed o (cmp_key as_f64 a b o.null_is_max)) rest

  unfoldable pub cmp_ranked : List FieldOrder → Ranked → Ranked → Ordering
  cmp_ranked os a b =
      or_then (cmp_keys os a.keys b.keys)
        (or_then (cmp_ℤ b.ts a.ts) (or_then (cmp_ℤ b.seq a.seq) (compare a.doc b.doc)))

  -- The tiebreak: a later timestamp first, then a larger `_seq`.
  abbrev pub after_seq : Ranked → Option ℤ → Bool
  after_seq r none = false
  after_seq r (some cursor_seq) = elim (cmp_ℤ r.seq cursor_seq) [ lt ↦ true | _ ↦ false ]

  abbrev pub after_ts : Ranked → Option ℤ → Option ℤ → Bool
  after_ts r none seq = false
  after_ts r (some cursor_ts) seq = elim (cmp_ℤ cursor_ts r.ts) [
    | lt ↦ false
    | gt ↦ true
    | eq ↦ after_seq r seq
  ]

  unfoldable pub after_cursor : List FieldOrder → Option SegCursor → Ranked → Bool
  after_cursor os none r = true
  after_cursor os (some c) r = elim (cmp_keys os r.keys c.keys) [
    | lt ↦ false
    | gt ↦ true
    | eq ↦ after_ts r c.ts c.seq
  ]

  unfoldable pub collect : SegmentCollector → ℕ → SegmentCollector
  collect c doc =
      let ranked = ranked_of c doc in
      if after_cursor (orders c.plan) c.cursor ranked
      then record c { heap = offer (cmp_ranked (orders c.plan)) c.limit c.heap ranked }
      else c

  abbrev pub collect_all : SegmentCollector → List ℕ → SegmentCollector
  collect_all c [] = c
  collect_all c (doc ∷ docs) = collect_all (collect c doc) docs

  unfoldable pub cmp_sorted : List FieldOrder → SortedHit → SortedHit → Ordering
  cmp_sorted os a b = or_then (cmp_hits as_f64 os a.key b.key) (cmp_address a.doc b.doc)

  unfoldable pub merge_fruits : FieldSortPlan → ℕ → List (List SortedHit) → List SortedHit
  merge_fruits plan limit fruits = take limit (sort_by (cmp_sorted (orders plan)) (concat fruits))

abbrev pub or_value : Option SortValue → SortValue
or_value none = missing
or_value (some v) = v

-- `f64`'s own equality, which is not that of `total_cmp`.
module _ (f64_eq : ℤ → ℤ → Bool) where
  abbrev pub same_key : SegKey → SegKey → Bool
  same_key missing_key missing_key = true
  same_key (ord_key a) (ord_key b) = a == b
  same_key (int_key a) (int_key b) = elim (cmp_ℤ a b) [ eq ↦ true | _ ↦ false ]
  same_key (float_key a) (float_key b) = f64_eq a b
  same_key (bool_key true) (bool_key true) = true
  same_key (bool_key false) (bool_key false) = true
  same_key (ip_key a) (ip_key b) = a == b
  same_key a b = false

  abbrev pub is_substitute : Option SegKey → SegKey → Bool
  is_substitute none k = false
  is_substitute (some s) k = same_key s k

  unfoldable pub hit_values :
      List SegKey → List SegAccessor → List ResolvedSort → List (Option SegKey) → List SortValue
  hit_values (k ∷ ks) (a ∷ accessors) (sort ∷ sorts) (sub ∷ subs) =
      (if is_substitute sub k then or_value sort.substitute else materialize a k)
      ∷ hit_values ks accessors sorts subs
  hit_values ks accessors sorts subs = []

  unfoldable pub hit_of : SegmentCollector → Ranked → SortedHit
  hit_of c r = record {
    key = record {
      values = hit_values r.keys c.accessors c.plan.fields c.substitutes;
      ts = r.ts;
      seq = r.seq;
    };
    doc = record { segment_ord = c.segment_ord; doc_id = r.doc };
  }

  -- The heap is in result order already.
  abbrev pub harvest : SegmentCollector → List SortedHit
  harvest c = map (hit_of c) c.heap
