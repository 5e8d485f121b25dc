-- ===== src/Control/Merge.antt =====
-- The choice of a merge group in crates/rsearch-server/src/control.rs. Sizes and stream ids, which
-- are never negative, are ℕ; i64's saturation and the wrap of its sums, as in the release build, are
-- written out.
pub mod Sizes
pub mod Skew
pub mod Take
pub mod Select
use r_search.Base.{
  ℕ, zero, suc, ◌+◌, ◌-◌, ◌*◌, ◌^◌, ◌%◌, ◌≤◌, ◌<◌, ◌≡◌, min, Bool, true, false, List, [], ◌∷◌, ◌++◌,
  map, Option, none, some, ltb, leb, ◌==◌, if◌then◌else◌, length, take, get_elem?, filter, TreeMap,
  lookup, insert,
}

pub record SplitRecord : Type 0 where
  pub id : ℕ
  pub stream_id : ℕ
  pub size_bytes : ℕ

abbrev pub i64_max : ℕ
i64_max = 2 ^ 63 - 1

abbrev pub merge_skew_factor : ℕ
merge_skew_factor = 10

abbrev pub sum : List ℕ → ℕ
sum [] = 0
sum (x ∷ xs) = x + sum xs

-- `sort_unstable_by_key(|size| Reverse(*size))`: on numbers every sort gives one list.
abbrev pub insert_desc : ℕ → List ℕ → List ℕ
insert_desc x [] = x ∷ []
insert_desc x (y ∷ ys) = let rest = insert_desc x ys in if ltb x y then y ∷ rest else x ∷ y ∷ ys

abbrev pub sort_desc : List ℕ → List ℕ
sort_desc [] = []
sort_desc (x ∷ xs) = insert_desc x (sort_desc xs)

-- `size > rest.saturating_mul(MERGE_SKEW_FACTOR)`, where `rest` is the sum of the sizes after it,
-- which wraps in i64: a negative one is below every size.
unfoldable pub outweighs : ℕ → List ℕ → Bool
outweighs size sizes =
    let rest = sum sizes % 2 ^ 64 in
    if ltb rest (2 ^ 63) then ltb (min i64_max (merge_skew_factor * rest)) size else true

-- The loop over the ranks `i` of the sorted sizes, all but the last, with the cut so far.
unfoldable pub cut_loop : ℕ → ℕ → List ℕ → ℕ
cut_loop i cut [] = cut
cut_loop i cut (size ∷ []) = cut
cut_loop i cut (size ∷ next ∷ sizes) =
    let further = cut_loop (i + 1) (i + 1) (next ∷ sizes) in
    if outweighs size (next ∷ sizes) then further else cut

unfoldable pub merge_candidates : List SplitRecord → List SplitRecord
merge_candidates group =
    let by_size = sort_desc (map (λ s. s.size_bytes) group) in
    let cut = cut_loop 0 0 by_size in
    if cut == 0 then group else elim (get_elem? by_size (cut - 1)) [
      | none ↦ group
      | some threshold ↦ filter (λ s. ltb s.size_bytes threshold) group
    ]

-- The loop of `merge_take`: the position past the split that reaches the target.
unfoldable pub take_loop : ℕ → ℕ → ℕ → List SplitRecord → Option ℕ
take_loop target_bytes i sum [] = none
take_loop target_bytes i sum (split ∷ group) =
    let sum' = min i64_max (sum + split.size_bytes) in
    let further = take_loop target_bytes (i + 1) sum' group in
    if leb target_bytes sum' then some (i + 1) else further

unfoldable pub merge_take : List SplitRecord → ℕ → ℕ → ℕ
merge_take group target_bytes max_group = elim (take_loop target_bytes 0 0 (take max_group group)) [
  | none ↦ min (length group) max_group
  | some n ↦ n
]

-- `by_stream.entry(split.stream_id).or_default().push(split)`.
abbrev pub push : SplitRecord → TreeMap (List SplitRecord) → TreeMap (List SplitRecord)
push split by_stream = elim (lookup split.stream_id by_stream) [
  | none ↦ insert split.stream_id (split ∷ []) by_stream
  | some group ↦ insert split.stream_id (group ++ split ∷ []) by_stream
]

abbrev pub group_by_stream :
    TreeMap (List SplitRecord) → List SplitRecord → TreeMap (List SplitRecord)
group_by_stream by_stream [] = by_stream
group_by_stream by_stream (split ∷ small) = group_by_stream (push split by_stream) small

-- The `filter_map` over the streams.
unfoldable pub eligible_of : ℕ → ℕ → TreeMap (List SplitRecord) → TreeMap (List SplitRecord)
eligible_of target_bytes max_group [] = []
eligible_of target_bytes max_group ((id, group) ∷ streams) =
    let candidates = merge_candidates group in
    let n = merge_take candidates target_bytes max_group in
    let rest = eligible_of target_bytes max_group streams in
    if leb 2 n then (id, take n candidates) ∷ rest else rest

abbrev pub position {ℓ} : {A : Type ℓ} → (A → Bool) → ℕ → List A → Option ℕ
position p i [] = none
position p i (x ∷ xs) = let rest = position p (i + 1) xs in if p x then some i else rest

unfoldable pub select_merge_group : List SplitRecord → ℕ → ℕ → ℕ → Option (ℕ × List SplitRecord)
select_merge_group small target_bytes max_group after_stream =
    let eligible = eligible_of target_bytes max_group (group_by_stream [] small) in
    let pick : ℕ = elim (position (λ e. ltb after_stream e.0) 0 eligible) [
      | none ↦ 0
      | some i ↦ i
    ] in
    get_elem? eligible pick
