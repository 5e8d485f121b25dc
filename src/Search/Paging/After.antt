-- ===== src/Search/Paging/After.antt =====
-- The page after a hit, from the sort values that the hit reports.
use r_search.Base.{
  ℕ, suc, ◌≡◌, refl, ap, ◌∙◌, Bool, List, [], ◌∷◌, Option, none, some, ℤ, is_lt, length, All,
}
use r_search.Search.Sort.{SortValue, Key, cmp_hits}
use r_search.Search.Column.{SegAccessor}
use r_search.Search.Column.Laws.{Sound}
use r_search.Search.Collector.{
  ResolvedSort, FieldCursor, FieldSortPlan, orders, for_segment, ranked_of, after_cursor, hit_of,
}
use r_search.Search.Collector.Cursor.{after_cursor_lem}
use r_search.Search.Paging.{Formats, hit_sort_json, CursorResult, ok, err, parse_cursor}
use r_search.Search.Paging.RoundTrip.{Proper, Safe, AllReported, parse_cursor-hit_sort_json}

abbrev pub cursor_of : CursorResult FieldCursor → Option FieldCursor
cursor_of (err e) = none
cursor_of (ok c) = some c

module _ (formats : Formats) where
  length-AllReported :
      (sorts : List ResolvedSort) (vs : List SortValue)
      → AllReported formats sorts vs
      → length vs ≡ length sorts
  length-AllReported [] [] h = refl
  length-AllReported [] (v ∷ vs) h = absurd h
  length-AllReported (sort ∷ sorts) [] h = absurd h
  length-AllReported (sort ∷ sorts) (v ∷ vs) (r, rs) = ap suc (length-AllReported sorts vs rs)

  module _ (as_f64 : ℤ → ℤ) (f64_eq : ℤ → ℤ → Bool) (plan : FieldSortPlan) (limit : ℕ)
      (accessors : List SegAccessor) (ts seq : ℕ → Option ℤ) (ord : ℕ) where
    -- With the cursor that the reported sort values of a hit parse to, under the conditions of
    -- that round trip, over sound columns and fields without substitutes, a document counts as
    -- past the cursor exactly when the hit comes before it in result order.
    pub after_hit :
        (k : Key SortValue) (doc : ℕ)
        → plan.cursor
          ≡ cursor_of (
              parse_cursor formats
                (hit_sort_json formats plan.fields k.values k.ts k.seq)
                plan.fields)
        → AllReported formats plan.fields k.values
        → Safe k.ts
        → Proper k.seq
        → All Sound accessors
        → All (λ (sort : ResolvedSort). sort.substitute ≡ none) plan.fields
        → length accessors ≡ length plan.fields
        → after_cursor as_f64
            (orders plan)
            (for_segment plan limit accessors ts seq ord).cursor
            (ranked_of (for_segment plan limit accessors ts seq ord) doc)
          ≡ is_lt (
              cmp_hits as_f64
                (orders plan)
                k
                (hit_of f64_eq
                  (for_segment plan limit accessors ts seq ord)
                  (ranked_of (for_segment plan limit accessors ts seq ord) doc)).key)
    after_hit k doc e reported safe proper sound plain aligned =
        after_cursor_lem as_f64 f64_eq plan limit accessors ts seq ord k doc
          (e
            ∙ ap cursor_of (
                parse_cursor-hit_sort_json formats plan.fields k.values k.ts k.seq reported safe
                  proper))
          sound plain aligned (length-AllReported plan.fields k.values reported)
