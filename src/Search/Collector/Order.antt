-- ===== src/Search/Collector/Order.antt =====
-- The order of a segment's documents, and the order of the hits that they become.
use r_search.Base.{Bool, List, ℤ, compare, IsWeak, Any, compare-IsWeak, or_then-IsWeak, IsWeak-on}
use r_search.Search.Sort.{FieldOrder, cmp_hits}
use r_search.Search.Sort.Laws.{FittingKey, cmp_hits-IsWeak}
use r_search.Search.Collector.{DocAddress, SortedHit, cmp_address, cmp_sorted}

abbrev pub FittingHit : List FieldOrder → List Bool → SortedHit → Type 0
FittingHit os flags h = FittingKey os flags h.key

module _ (as_f64 : ℤ → ℤ) where
  cmp_address-IsWeak : IsWeak Any (cmp_address)
  cmp_address-IsWeak =
      or_then-IsWeak Any (λ a b. compare a.segment_ord b.segment_ord)
        (λ a b. compare a.doc_id b.doc_id)
        (IsWeak-on Any Any compare (λ (a : DocAddress). a.segment_ord) (λ a p. tt) compare-IsWeak)
        (IsWeak-on Any Any compare (λ (a : DocAddress). a.doc_id) (λ a p. tt) compare-IsWeak)

  pub cmp_sorted-IsWeak :
      (os : List FieldOrder) (flags : List Bool)
      → IsWeak (FittingHit os flags) (cmp_sorted as_f64 os)
  unfolding cmp_sorted
  cmp_sorted-IsWeak os flags =
      let P = FittingHit os flags in
      or_then-IsWeak P (λ a b. cmp_hits as_f64 os a.key b.key) (λ a b. cmp_address a.doc b.doc)
        (IsWeak-on P (FittingKey os flags) (cmp_hits as_f64 os) (λ h. h.key) (λ h p. p)
          (cmp_hits-IsWeak as_f64 os flags))
        (IsWeak-on P Any (cmp_address) (λ h. h.doc) (λ h p. tt) cmp_address-IsWeak)
