-- ===== src/Search/Collector/Pages.antt =====
-- A segment's page is the first hits past the cursor, and the merge of the pages those of the whole.
use r_search.Base.{
  ℕ, ◌<◌, ◌≡◌, refl, sym, ap, ◌∙◌, Bool, List, [], ◌∷◌, map, arith, ℤ, Ordering, eq, compare,
  or_then, IsWeak, IsWeak-agree, IsWeak-on, length, take, take-nil, All, suc,
}
use r_search.Search.Sort.{cmp_hits}
use r_search.Search.Column.Laws.{Sound}
use r_search.Search.TopK.{offer_all, sort_by}
use r_search.Search.TopK.Steps.{offer_all_lem}
use r_search.Search.TopK.Merge.{concat, merge_tops}
use r_search.Search.TopK.Images.{take-map, map-sort_by, All-map}
use r_search.Search.Collector.{
  ResolvedSort, order, FieldSortPlan, orders, Ranked, SegmentCollector, SortedHit, for_segment,
  ranked_of, cmp_ranked, after_cursor, collect_all, cmp_sorted, merge_fruits, hit_of, harvest,
}
use r_search.Search.Collector.Order.{FittingHit, cmp_sorted-IsWeak}
use r_search.Search.Collector.Distinct.{cmp_sorted-one, length-hit_values}
use r_search.Search.Collector.Shown.{Plain, shown_order}
use r_search.Search.Collector.Heap.{Segment, candidates, with_heap, collect_all_lem, All-filter}

abbrev pub fresh : FieldSortPlan → ℕ → Segment → SegmentCollector
fresh plan limit seg = for_segment plan limit seg.accessors seg.ts seg.seq seg.ord

-- The hits in result order, cut to the page.
abbrev pub first_hits : (ℤ → ℤ) → FieldSortPlan → ℕ → List SortedHit → List SortedHit
first_hits as_f64 plan limit hits = take limit (sort_by (cmp_sorted as_f64 (orders plan)) hits)

module _ (as_f64 : ℤ → ℤ) (f64_eq : ℤ → ℤ → Bool) (plan : FieldSortPlan) (limit : ℕ) where
  abbrev pub segment_page : Segment → List SortedHit
  segment_page seg = harvest f64_eq (collect_all as_f64 (fresh plan limit seg) seg.docs)

  -- The hits of the segment past the cursor.
  abbrev pub hits_past : Segment → List SortedHit
  hits_past seg =
      map (hit_of f64_eq (fresh plan limit seg)) (candidates as_f64 (fresh plan limit seg) seg.docs)

module _ (as_f64 : ℤ → ℤ) (f64_eq : ℤ → ℤ → Bool) (plan : FieldSortPlan) (limit : ℕ)
    (flags : List Bool) where
  -- A hit with a value for each field, of the field's kind.
  abbrev pub Whole : SortedHit → Type 0
  Whole h = FittingHit (orders plan) flags h × (length h.key.values ≡ length plan.fields)

  -- The columns and substitutes of a segment, and the values of its documents.
  pub record IsReadable (seg : Segment) : Type 0 where
    pub sound : All Sound seg.accessors
    pub plain : All (λ sort. Plain f64_eq sort.substitute) plan.fields
    pub aligned : length seg.accessors ≡ length plan.fields
    pub typed :
        All
          (λ doc.
            FittingHit
              (orders plan)
              flags
              (hit_of f64_eq (fresh plan limit seg) (ranked_of (fresh plan limit seg) doc)))
          seg.docs

  -- A document of the segment, and its hit.
  abbrev Held : Segment → Ranked → Type 0
  Held seg r =
      (r ≡ ranked_of (fresh plan limit seg) r.doc) × Whole (hit_of f64_eq (fresh plan limit seg) r)

  compare_refl : (n : ℕ) → compare n n ≡ eq
  compare_refl n = ground arith

  tie_last :
      (a b c d : Ordering)
      → or_then (or_then a (or_then b c)) (or_then eq d) ≡ or_then a (or_then b (or_then c d))
  tie_last a b c d = ground arith

  docs_agree :
      (seg : Segment) (h : IsReadable seg) (d e : ℕ)
      → cmp_sorted as_f64
          (orders plan)
          (hit_of f64_eq (fresh plan limit seg) (ranked_of (fresh plan limit seg) d))
          (hit_of f64_eq (fresh plan limit seg) (ranked_of (fresh plan limit seg) e))
        ≡ cmp_ranked as_f64
            (orders plan)
            (ranked_of (fresh plan limit seg) d)
            (ranked_of (fresh plan limit seg) e)
  unfolding cmp_sorted cmp_ranked cmp_hits hit_of ranked_of for_segment
  docs_agree seg h d e =
      rw
        (
          compare_refl seg.ord,
          sym (shown_order as_f64 f64_eq seg.accessors plan.fields d e h.sound h.plain h.aligned),
        )
        (search tie_last)

  Held-agree :
      (seg : Segment) (h : IsReadable seg) (a b : Ranked)
      → Held seg a
      → Held seg b
      → cmp_sorted as_f64
          (orders plan)
          (hit_of f64_eq (fresh plan limit seg) a)
          (hit_of f64_eq (fresh plan limit seg) b)
        ≡ cmp_ranked as_f64 (orders plan) a b
  Held-agree seg h a b (p, _) (q, _) =
      ap
        (λ r.
          cmp_sorted as_f64 (orders plan) (hit_of f64_eq (fresh plan limit seg) r)
            (hit_of f64_eq (fresh plan limit seg) b))
        p
      ∙ (ap
            (λ r.
              cmp_sorted as_f64 (orders plan)
                (hit_of f64_eq (fresh plan limit seg) (ranked_of (fresh plan limit seg) a.doc))
                (hit_of f64_eq (fresh plan limit seg) r))
            q
          ∙ (docs_agree seg h a.doc b.doc
              ∙ (ap
                    (λ r.
                      cmp_ranked as_f64 (orders plan) r (ranked_of (fresh plan limit seg) b.doc))
                    (sym p)
                  ∙ ap (λ r. cmp_ranked as_f64 (orders plan) a r) (sym q))))

  docs-Held :
      (seg : Segment) (h : IsReadable seg)
      → All (Held seg) (map (ranked_of (fresh plan limit seg)) seg.docs)
  unfolding ranked_of hit_of for_segment
  docs-Held seg h =
      All-map (ranked_of (fresh plan limit seg))
        (λ doc.
          FittingHit (orders plan) flags
            (hit_of f64_eq (fresh plan limit seg) (ranked_of (fresh plan limit seg) doc)))
        (Held seg) seg.docs
        (λ doc fits.
          (refl, (fits, length-hit_values f64_eq seg.accessors plan.fields doc h.aligned)))
        h.typed

  candidates-Held :
      (seg : Segment) (h : IsReadable seg)
      → All (Held seg) (candidates as_f64 (fresh plan limit seg) seg.docs)
  candidates-Held seg h =
      All-filter
        (after_cursor as_f64 (orders (fresh plan limit seg).plan) (fresh plan limit seg).cursor)
        (Held seg) (map (ranked_of (fresh plan limit seg)) seg.docs) (docs-Held seg h)

  Held-IsWeak :
      (seg : Segment) (h : IsReadable seg) → IsWeak (Held seg) (cmp_ranked as_f64 (orders plan))
  Held-IsWeak seg h =
      IsWeak-agree (Held seg) (cmp_ranked as_f64 (orders plan))
        (λ a b.
          cmp_sorted as_f64 (orders plan) (hit_of f64_eq (fresh plan limit seg) a)
            (hit_of f64_eq (fresh plan limit seg) b))
        (λ a b p q. sym (Held-agree seg h a b p q))
        (IsWeak-on (Held seg) (FittingHit (orders plan) flags) (cmp_sorted as_f64 (orders plan))
          (hit_of f64_eq (fresh plan limit seg)) (λ a p. p.1.0)
          (cmp_sorted-IsWeak as_f64 (orders plan) flags))

  harvest_heap :
      (c : SegmentCollector) (rs : List Ranked)
      → harvest f64_eq (with_heap as_f64 c rs)
        ≡ map (hit_of f64_eq c) (offer_all (cmp_ranked as_f64 (orders c.plan)) c.limit c.heap rs)
  unfolding hit_of
  harvest_heap c rs = refl

  -- The page of a segment is its first hits past the cursor.
  pub segment_page_lem :
      (seg : Segment)
      → 0 < limit
      → IsReadable seg
      → segment_page as_f64 f64_eq plan limit seg
        ≡ first_hits as_f64 plan limit (hits_past as_f64 f64_eq plan limit seg)
  unfolding for_segment
  segment_page_lem seg pos_limit h =
      let P = Held seg in
      let cmp = cmp_ranked as_f64 (orders plan) in
      let c = fresh plan limit seg in
      let rs = candidates as_f64 c seg.docs in
      let held = candidates-Held seg h in
      ap (harvest f64_eq) (collect_all_lem as_f64 c seg.docs)
      ∙ (harvest_heap c rs
          ∙ (ap (λ heap. map (hit_of f64_eq c) (offer_all cmp limit heap rs)) (sym (take-nil limit))
              ∙ (ap (map (hit_of f64_eq c))
                    (offer_all_lem P cmp (Held-IsWeak seg h) limit rs [] pos_limit held tt tt)
                  ∙ (sym (take-map (hit_of f64_eq c) limit (sort_by cmp rs))
                      ∙ ap (take limit) (
                          map-sort_by P (hit_of f64_eq c) cmp (cmp_sorted as_f64 (orders plan))
                            (Held-agree seg h) rs held)))))

  one : (a b : SortedHit) → Whole a → Whole b → cmp_sorted as_f64 (orders plan) a b ≡ eq → a ≡ b
  one a b (p, h) (q, k) =
      cmp_sorted-one as_f64 (orders plan) flags a b p q (h ∙ length_orders plan.fields)
        (k ∙ length_orders plan.fields)
    where
      length_orders : (sorts : List ResolvedSort) → length sorts ≡ length (map order sorts)
      length_orders [] = refl
      length_orders (sort ∷ sorts) = ap (λ (n : ℕ). suc n) (length_orders sorts)

  Whole-IsWeak : IsWeak Whole (cmp_sorted as_f64 (orders plan))
  Whole-IsWeak =
      IsWeak-on Whole (FittingHit (orders plan) flags) (cmp_sorted as_f64 (orders plan)) (λ h. h)
        (λ h p. p.0) (cmp_sorted-IsWeak as_f64 (orders plan) flags)

  hits-Whole :
      (segs : List Segment)
      → All IsReadable segs
      → All (All Whole) (map (hits_past as_f64 f64_eq plan limit) segs)
  hits-Whole segs all =
      All-map (hits_past as_f64 f64_eq plan limit) IsReadable (All Whole) segs
        (λ seg h.
          All-map (hit_of f64_eq (fresh plan limit seg)) (Held seg) Whole
            (candidates as_f64 (fresh plan limit seg) seg.docs) (λ r p. p.1)
            (candidates-Held seg h))
        all

  pages_lem :
      (segs : List Segment)
      → 0 < limit
      → All IsReadable segs
      → map (segment_page as_f64 f64_eq plan limit) segs
        ≡ map (first_hits as_f64 plan limit) (map (hits_past as_f64 f64_eq plan limit) segs)
  pages_lem [] h all = refl
  pages_lem (seg ∷ segs) h (r, all) = rw (segment_page_lem seg h r, pages_lem segs h all) refl

  -- For a positive limit, over segments whose dictionaries ascend and find their terms, with
  -- substitutes that are neither a float zero nor no number, and documents whose values fit the
  -- flags of their fields, the merge of the pages that the segments collect is the page of one
  -- sort: the first hits, in result order, of all documents past the cursor in all segments.
  pub merge_fruits_lem :
      (segs : List Segment)
      → 0 < limit
      → All IsReadable segs
      → merge_fruits as_f64 plan limit (map (segment_page as_f64 f64_eq plan limit) segs)
        ≡ first_hits as_f64 plan limit (concat (map (hits_past as_f64 f64_eq plan limit) segs))
  unfolding merge_fruits
  merge_fruits_lem segs h all =
      ap (λ parts. first_hits as_f64 plan limit (concat parts)) (pages_lem segs h all)
      ∙ merge_tops Whole (cmp_sorted as_f64 (orders plan)) Whole-IsWeak one limit h
          (map (hits_past as_f64 f64_eq plan limit) segs) (hits-Whole segs all)
