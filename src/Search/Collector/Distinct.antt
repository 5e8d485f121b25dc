-- ===== src/Search/Collector/Distinct.antt =====
-- Hits that compare equal are equal.
use r_search.Base.{
  ℕ, ◌≡◌, refl, sym, ap, ◌∙◌, Bool, true, false, List, [], ◌∷◌, arith, ℤ, pos, negsuc, Ordering, lt,
  eq, gt, compare, or_then, cmp_ℤ, cmp_bytes, length,
}
use r_search.Search.Sort.{
  SortValue, str, int, float, FieldOrder, directed, cmp_natural, cmp_values, cmp_hits,
}
use r_search.Search.Sort.Laws.{Fits, Fitting}
use r_search.Search.Column.{SegAccessor}
use r_search.Search.Collector.{
  ResolvedSort, SortedHit, cmp_address, cmp_sorted, substitute_keys, keys_of, hit_values,
}

pub cmp_bytes-eq : (a b : List ℕ) → cmp_bytes a b ≡ eq → a ≡ b
cmp_bytes-eq [] [] h = refl
cmp_bytes-eq [] (b ∷ bs) h = absurd (grind arith)
cmp_bytes-eq (a ∷ xs) [] h = absurd (grind arith)
cmp_bytes-eq (a ∷ xs) (b ∷ bs) h = ground (arith, cmp_bytes-eq xs bs)

cmp_ℤ-eq : (a b : ℤ) → cmp_ℤ a b ≡ eq → a ≡ b
cmp_ℤ-eq (pos a) (pos b) h = ground arith
cmp_ℤ-eq (pos a) (negsuc b) h = absurd (ground arith)
cmp_ℤ-eq (negsuc a) (pos b) h = absurd (ground arith)
cmp_ℤ-eq (negsuc a) (negsuc b) h = ground arith

or_then-eq : (a b : Ordering) → or_then a b ≡ eq → (a ≡ eq) × (b ≡ eq)
or_then-eq lt b h = absurd (grind arith)
or_then-eq eq b h = (refl, h)
or_then-eq gt b h = absurd (grind arith)

directed-eq : (o : FieldOrder) (n : Ordering) → directed o n ≡ eq → n ≡ eq
directed-eq o n h = ground arith

module _ (as_f64 : ℤ → ℤ) where
  natural_one :
      (n f : Bool) (a b : SortValue) → Fits f a → Fits f b → cmp_natural as_f64 a b n ≡ eq → a ≡ b
  unfolding cmp_natural
  natural_one n f (str a) (str b) p q h = ap str (cmp_bytes-eq a b h)
  natural_one n f (int a) (int b) p q h = ap int (cmp_ℤ-eq a b h)
  natural_one n f (float a) (float b) p q h = ap float (cmp_ℤ-eq a b h)
  natural_one n true (int a) b p q h = absurd p
  natural_one n true a (int b) p q h = absurd q
  natural_one n false (float a) b p q h = absurd p
  natural_one n false a (float b) p q h = absurd q
  natural_one n f a b p q h = ground arith

  values_one :
      (os : List FieldOrder) (flags : List Bool) (as_ bs : List SortValue)
      → Fitting os flags as_
      → Fitting os flags bs
      → length as_ ≡ length os
      → length bs ≡ length os
      → cmp_values as_f64 os as_ bs ≡ eq
      → as_ ≡ bs
  values_one [] flags [] [] p q h k e = refl
  values_one [] flags (a ∷ as_) bs p q h k e = absurd (omega arith)
  values_one [] flags [] (b ∷ bs) p q h k e = absurd (omega arith)
  values_one (o ∷ os) [] as_ bs p q h k e = absurd p
  values_one (o ∷ os) (f ∷ flags) [] bs p q h k e = absurd (omega arith)
  values_one (o ∷ os) (f ∷ flags) (a ∷ as_) [] p q h k e = absurd (omega arith)
  values_one (o ∷ os) (f ∷ flags) (a ∷ as_) (b ∷ bs) (p, ps) (q, qs) h k e =
      let (first, rest) =
        or_then-eq (directed o (cmp_natural as_f64 a b o.null_is_max)) (cmp_values as_f64 os as_ bs)
          e in
      let same = natural_one o.null_is_max f a b p q (directed-eq o _ first) in
      ap (λ x. x ∷ as_) same
      ∙ ap (λ xs. b ∷ xs) (values_one os flags as_ bs ps qs (omega arith) (omega arith) rest)

  pub cmp_sorted-one :
      (os : List FieldOrder) (flags : List Bool) (a b : SortedHit)
      → Fitting os flags a.key.values
      → Fitting os flags b.key.values
      → length a.key.values ≡ length os
      → length b.key.values ≡ length os
      → cmp_sorted as_f64 os a b ≡ eq
      → a ≡ b
  unfolding cmp_sorted cmp_hits
  cmp_sorted-one os flags a b p q h k e =
      let (same_key, same_doc) =
        or_then-eq (cmp_hits as_f64 os a.key b.key) (cmp_address a.doc b.doc) e in
      let (same_values, same_tie) =
        or_then-eq (cmp_values as_f64 os a.key.values b.key.values) _ same_key in
      let (ts, seq) = or_then-eq (cmp_ℤ b.key.ts a.key.ts) (cmp_ℤ b.key.seq a.key.seq) same_tie in
      let (ord, doc) =
        or_then-eq (compare a.doc.segment_ord b.doc.segment_ord) (compare a.doc.doc_id b.doc.doc_id)
          same_doc in
      let values = values_one os flags a.key.values b.key.values p q h k same_values in
      let e_ts = sym (cmp_ℤ-eq b.key.ts a.key.ts ts) in
      let e_seq = sym (cmp_ℤ-eq b.key.seq a.key.seq seq) in
      let e_ord : a.doc.segment_ord ≡ b.doc.segment_ord = ground arith in
      let e_doc : a.doc.doc_id ≡ b.doc.doc_id = ground arith in
      λ i. record {
        key = record { values = values i; ts = e_ts i; seq = e_seq i };
        doc = record { segment_ord = e_ord i; doc_id = e_doc i };
      }

pub length-hit_values :
    (f64_eq : ℤ → ℤ → Bool) (accessors : List SegAccessor) (sorts : List ResolvedSort) (doc : ℕ)
    → length accessors ≡ length sorts
    → length (
        hit_values f64_eq
          (keys_of accessors sorts (substitute_keys accessors sorts) doc)
          accessors
          sorts
          (substitute_keys accessors sorts))
      ≡ length sorts
unfolding keys_of hit_values
length-hit_values f64_eq [] [] doc h = refl
length-hit_values f64_eq [] (sort ∷ sorts) doc h = absurd (omega arith)
length-hit_values f64_eq (a ∷ accessors) [] doc h = absurd (omega arith)
length-hit_values f64_eq (a ∷ accessors) (sort ∷ sorts) doc h =
    omega (arith, length-hit_values f64_eq accessors sorts doc (omega arith))
