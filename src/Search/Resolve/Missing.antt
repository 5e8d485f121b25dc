-- ===== src/Search/Resolve/Missing.antt =====
-- Where a resolved clause puts the documents without a value.
use r_search.Base.{
  ◌≡◌, refl, sym, ap, ◌∙◌, Bool, true, false, not, Option, none, some, arith, if◌then◌else◌, ℤ, lt,
  gt,
}
use r_search.Search.Sort.{
  FieldOrder, SortType, SortValue, missing, str, int, float, boolean, ip, directed, cmp_natural,
}
use r_search.Search.Query.{Json, string, same_text}
use r_search.Search.Clauses.{SortField}
use r_search.Search.Collector.{ResolvedSort, order}
use r_search.Search.Paging.{Formats}
use r_search.Search.Resolve.{
  SortTarget, ResolveResult, ok, err, Stream, text_last, text_first, target_of, missing_of,
  resolved, resolve_typed, resolve_field,
}

-- `some true` for `_first`, `some false` for `_last` or nothing, `none` for a substitute.
abbrev pub place_of : Option Json → Option Bool
place_of none = some false
place_of (some (string s)) =
    if same_text s text_last then some false else if same_text s text_first then some true else none
place_of (some value) = none

abbrev pub is_missing : SortValue → Bool
is_missing missing = true
is_missing v = false

natural_missing :
    (as_f64 : ℤ → ℤ) (v : SortValue) (n : Bool)
    → is_missing v ≡ false
    → cmp_natural as_f64 missing v n ≡ (if n then gt else lt)
unfolding cmp_natural
natural_missing as_f64 missing n h = absurd (grind arith)
natural_missing as_f64 (str s) n h = refl
natural_missing as_f64 (int m) n h = refl
natural_missing as_f64 (float f) n h = refl
natural_missing as_f64 (boolean b) n h = refl
natural_missing as_f64 (ip a) n h = refl

abbrev null_max_of : Bool → Bool → Bool
null_max_of desc first = if first then desc else not desc

abbrev placed_order : Bool → Bool → FieldOrder
placed_order desc first = record { desc = desc; null_is_max = null_max_of desc first }

placed :
    (as_f64 : ℤ → ℤ) (desc first : Bool) (v : SortValue)
    → is_missing v ≡ false
    → directed (placed_order desc first) (cmp_natural as_f64 missing v (null_max_of desc first))
      ≡ (if first then lt else gt)
placed as_f64 true true v h = rw (natural_missing as_f64 v true h) refl
placed as_f64 true false v h = rw (natural_missing as_f64 v false h) refl
placed as_f64 false true v h = rw (natural_missing as_f64 v false h) refl
placed as_f64 false false v h = rw (natural_missing as_f64 v true h) refl

module _ (formats : Formats) where
  missing_of_place :
      (desc first : Bool) (ty : SortType) (m : Option Json)
      → place_of m ≡ some first
      → missing_of formats desc ty m ≡ ok (null_max_of desc first, none)
  missing_of_place desc first ty none e = ground arith
  missing_of_place desc first ty (some (string s)) e = ground arith
  missing_of_place desc first ty (some value) e = absurd (grind arith)

  abbrev order_in : FieldOrder → ResolveResult (SortTarget × ResolvedSort) → FieldOrder
  order_in d (err e) = d
  order_in d (ok (t, r)) = order r

  typed_order :
      (f : SortField) (first : Bool) (x : ResolveResult (SortTarget × SortType)) (t : SortTarget)
      (r : ResolvedSort)
      → place_of f.missing ≡ some first
      → resolve_typed formats f x ≡ ok (t, r)
      → placed_order f.desc first ≡ order r
  typed_order f first (err e) t r h k = absurd (grind arith)
  typed_order f first (ok (target, ty)) t r h k =
      ap (λ y. order_in (placed_order f.desc first) (resolved formats f target ty y))
        (sym (missing_of_place f.desc first ty f.missing h))
      ∙ ap (order_in (placed_order f.desc first)) k

  -- When a clause is resolved whose missing is _first, _last or not given, a document without a
  -- value comes before every value under _first and after every value otherwise, in both
  -- directions and for every type of the field.
  pub resolve_field_lem :
      (as_f64 : ℤ → ℤ) (stream : Stream) (f : SortField) (first : Bool) (t : SortTarget)
      (r : ResolvedSort) (v : SortValue)
      → resolve_field formats stream f ≡ ok (t, r)
      → place_of f.missing ≡ some first
      → is_missing v ≡ false
      → directed (order r) (cmp_natural as_f64 missing v (order r).null_is_max)
        ≡ (if first then lt else gt)
  unfolding resolve_field
  resolve_field_lem as_f64 stream f first t r v e h k =
      ap (λ (o : FieldOrder). directed o (cmp_natural as_f64 missing v o.null_is_max))
        (sym (typed_order f first (target_of stream f) t r h e))
      ∙ placed as_f64 f.desc first v k
