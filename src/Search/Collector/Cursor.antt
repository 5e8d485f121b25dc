-- ===== src/Search/Collector/Cursor.antt =====
-- The documents past a cursor are those whose hits come later in result order.
use r_search.Base.{
  ℕ, ◌≡◌, refl, sym, ap, ◌∙◌, Bool, true, false, List, [], ◌∷◌, map, Option, none, some, arith, ℤ,
  Ordering, lt, eq, gt, or_then, reverse, is_lt, cmp_ℤ, length, All,
}
use r_search.Search.Sort.{SortValue, FieldOrder, Key, value_or_missing, cmp_values, cmp_hits}
use r_search.Search.Column.{SegKey, missing_key, SegAccessor, key}
use r_search.Search.Column.Laws.{Sound, key_in_order, cmp_natural-anti}
use r_search.Search.Collector.{
  ResolvedSort, order, FieldCursor, FieldSortPlan, orders, SegmentCollector, for_segment, ranked_of,
  substitute_keys, cursor_keys, seg_cursor, or_substitute, keys_of, cmp_keys, after_cursor,
  hit_values, hit_of,
}
use r_search.Search.Collector.Shown.{key-DocKey}

-- A cursor with both tiebreak values.
abbrev pub full_cursor : Key SortValue → FieldCursor
full_cursor k = record { values = k.values; timestamp_millis = some k.ts; seq = some k.seq }

module _ (as_f64 : ℤ → ℤ) (f64_eq : ℤ → ℤ → Bool) where
  values_anti :
      (os : List FieldOrder) (as_ bs : List SortValue)
      → cmp_values as_f64 os bs as_ ≡ reverse (cmp_values as_f64 os as_ bs)
  values_anti [] as_ bs = refl
  values_anti (o ∷ os) as_ bs =
      let (a, more_as) = value_or_missing as_ in
      let (b, more_bs) = value_or_missing bs in
      ground (arith, values_anti os more_as more_bs, cmp_natural-anti as_f64 o.null_is_max a b)

  or_substitute-none : (k : SegKey) → or_substitute k none ≡ k
  or_substitute-none missing_key = refl
  or_substitute-none k = refl

  cursor_order :
      (accessors : List SegAccessor) (sorts : List ResolvedSort) (vs : List SortValue) (doc : ℕ)
      → All Sound accessors
      → All (λ sort. sort.substitute ≡ none) sorts
      → length accessors ≡ length sorts
      → length vs ≡ length sorts
      → cmp_keys as_f64
          (map order sorts)
          (keys_of accessors sorts (substitute_keys accessors sorts) doc)
          (cursor_keys accessors vs)
        ≡ cmp_values as_f64
            (map order sorts)
            (hit_values f64_eq
              (keys_of accessors sorts (substitute_keys accessors sorts) doc)
              accessors
              sorts
              (substitute_keys accessors sorts))
            vs
  unfolding keys_of hit_values
  cursor_order [] [] [] doc s p h k = refl
  cursor_order [] [] (v ∷ vs) doc s p h k = absurd (omega arith)
  cursor_order [] (sort ∷ sorts) vs doc s p h k = absurd (omega arith)
  cursor_order (a ∷ accessors) [] vs doc s p h k = absurd (omega arith)
  cursor_order (a ∷ accessors) (sort ∷ sorts) [] doc s p h k = absurd (omega arith)
  cursor_order (a ∷ accessors) (sort ∷ sorts) (v ∷ vs) doc (s, ss) (p, ps) h k =
      rw
        (
          cursor_order accessors sorts vs doc ss ps (omega arith) (omega arith),
          p,
          or_substitute-none (key a doc sort.use_max),
          key_in_order as_f64 a s (key a doc sort.use_max) v sort.null_is_max
              (key-DocKey a s doc sort.use_max),
        )
        refl

  abbrev past : Key SortValue → Key SortValue → Ordering → Bool
  past k r n = elim n [
    | lt ↦ false
    | gt ↦ true
    | eq ↦ elim (cmp_ℤ k.ts r.ts) [
      | lt ↦ false
      | gt ↦ true
      | eq ↦ elim (cmp_ℤ r.seq k.seq) [ lt ↦ true | _ ↦ false ]
    ]
  ]

  past_order :
      (k r : Key SortValue) (n : Ordering)
      → past k r n ≡ is_lt (or_then (reverse n) (or_then (cmp_ℤ r.ts k.ts) (cmp_ℤ r.seq k.seq)))
  past_order k r n = ground arith

  module _ (plan : FieldSortPlan) (limit : ℕ) (accessors : List SegAccessor) (ts seq : ℕ → Option ℤ)
      (ord : ℕ) where
    abbrev opened : SegmentCollector
    opened = for_segment plan limit accessors ts seq ord

    -- With a cursor that carries both tiebreak values and fields without substitutes, over sound
    -- columns, a document counts as past the cursor exactly when the cursor's values, timestamp
    -- and seq come before those of its hit in result order.
    pub after_cursor_lem :
        (k : Key SortValue) (doc : ℕ)
        → plan.cursor ≡ some (full_cursor k)
        → All Sound accessors
        → All (λ sort. sort.substitute ≡ none) plan.fields
        → length accessors ≡ length plan.fields
        → length k.values ≡ length plan.fields
        → after_cursor as_f64
            (orders plan)
            (for_segment plan limit accessors ts seq ord).cursor
            (ranked_of (for_segment plan limit accessors ts seq ord) doc)
          ≡ is_lt (
              cmp_hits as_f64
                (orders plan)
                k
                (hit_of f64_eq
                  (for_segment plan limit accessors ts seq ord)
                  (ranked_of (for_segment plan limit accessors ts seq ord) doc)).key)
    unfolding after_cursor cmp_hits hit_of ranked_of for_segment
    after_cursor_lem k doc e s p h j =
        let shown = (hit_of f64_eq opened (ranked_of opened doc)).key in
        ap (λ c. after_cursor as_f64 (orders plan) (seg_cursor accessors c) (ranked_of opened doc))
          e
        ∙ (ap (past k shown) (cursor_order accessors plan.fields k.values doc s p h j)
            ∙ (past_order k shown (cmp_values as_f64 (orders plan) shown.values k.values)
                ∙ ap
                    (λ n. is_lt (or_then n (or_then (cmp_ℤ shown.ts k.ts) (cmp_ℤ shown.seq k.seq))))
                    (sym (values_anti (orders plan) shown.values k.values))))
