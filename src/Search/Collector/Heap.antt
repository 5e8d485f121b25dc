-- ===== src/Search/Collector/Heap.antt =====
-- The heap of a segment after its documents.
use mathlib.Core.Path.{subst}
use r_search.Base.{
  ℕ, ◌≡◌, refl, sym, ap, ◌∙◌, Bool, true, false, List, [], ◌∷◌, map, Option, Bool-cases, inl, inr,
  ℤ, filter, All,
}
use r_search.Search.Column.{SegAccessor}
use r_search.Search.TopK.{offer, offer_all}
use r_search.Search.Collector.{
  orders, Ranked, SegmentCollector, ranked_of, cmp_ranked, after_cursor, collect, collect_all,
}

-- The documents of a segment that match, with what the collector reads of them.
pub record Segment : Type 0 where
  pub accessors : List SegAccessor
  pub ts : ℕ → Option ℤ
  pub seq : ℕ → Option ℤ
  pub ord : ℕ
  pub docs : List ℕ

module _ {A : Type 0} (p : A → Bool) where
  filter_in : (x : A) (xs : List A) → p x ≡ true → filter p (x ∷ xs) ≡ x ∷ filter p xs
  filter_in x xs e = rw (filter, e) refl

  filter_out : (x : A) (xs : List A) → p x ≡ false → filter p (x ∷ xs) ≡ filter p xs
  filter_out x xs e = rw (filter, e) refl

  pub All-filter {κ} : (Q : A → Type κ) (xs : List A) → All Q xs → All Q (filter p xs)
  All-filter Q [] all = tt
  All-filter Q (x ∷ xs) (q, all) = elim (Bool-cases (p x)) [
    | inl e ↦ subst (All Q) (sym (filter_in x xs e)) (q, All-filter Q xs all)
    | inr e ↦ subst (All Q) (sym (filter_out x xs e)) (All-filter Q xs all)
  ]

module _ (as_f64 : ℤ → ℤ) where
  -- The documents past the cursor.
  abbrev pub candidates : SegmentCollector → List ℕ → List Ranked
  candidates c docs = filter (after_cursor as_f64 (orders c.plan) c.cursor) (map (ranked_of c) docs)

  ranked_heap :
      (c : SegmentCollector) (heap : List Ranked) (docs : List ℕ)
      → map (ranked_of (record c { heap = heap })) docs ≡ map (ranked_of c) docs
  unfolding ranked_of
  ranked_heap c heap docs = refl

  collected :
      (c : SegmentCollector) (doc : ℕ)
      → after_cursor as_f64 (orders c.plan) c.cursor (ranked_of c doc) ≡ true
      → collect as_f64 c doc ≡ record c {
        heap = offer (cmp_ranked as_f64 (orders c.plan)) c.limit c.heap (ranked_of c doc);
      }
  unfolding collect
  collected c doc e = rw e refl

  skipped :
      (c : SegmentCollector) (doc : ℕ)
      → after_cursor as_f64 (orders c.plan) c.cursor (ranked_of c doc) ≡ false
      → collect as_f64 c doc ≡ c
  unfolding collect
  skipped c doc e = rw e refl

  -- The heap after the documents.
  abbrev pub with_heap : SegmentCollector → List Ranked → SegmentCollector
  with_heap c rs = record c {
    heap = offer_all (cmp_ranked as_f64 (orders c.plan)) c.limit c.heap rs;
  }

  pub collect_all_lem :
      (c : SegmentCollector) (docs : List ℕ)
      → collect_all as_f64 c docs ≡ with_heap c (candidates c docs)
  unfolding collect
  collect_all_lem c [] = refl
  collect_all_lem c (doc ∷ docs) =
      let past = after_cursor as_f64 (orders c.plan) c.cursor in
      elim (Bool-cases (past (ranked_of c doc))) [
        | inl e ↦
            let heap = offer (cmp_ranked as_f64 (orders c.plan)) c.limit c.heap (ranked_of c doc) in
            ap (λ d. collect_all as_f64 d docs) (collected c doc e)
            ∙ (collect_all_lem (record c { heap = heap }) docs
                ∙ (ap (λ rs. with_heap c (ranked_of c doc ∷ filter past rs))
                      (ranked_heap c heap docs)
                    ∙ ap (with_heap c)
                        (sym (filter_in past (ranked_of c doc) (map (ranked_of c) docs) e))))
        | inr e ↦
            ap (λ d. collect_all as_f64 d docs) (skipped c doc e)
            ∙ (collect_all_lem c docs
                ∙ ap (with_heap c)
                    (sym (filter_out past (ranked_of c doc) (map (ranked_of c) docs) e)))
      ]
