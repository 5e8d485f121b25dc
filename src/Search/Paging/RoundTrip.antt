-- ===== src/Search/Paging/RoundTrip.antt =====
-- A hit's sort values make the cursor that stands at the hit.
use r_search.Base.{
  ℕ, zero, suc, ◌+◌, ◌≤◌, ◌≡◌, refl, ap, Bool, true, false, ◌||◌, List, [], ◌∷◌, ◌++◌, some, arith,
  ltb, ℤ, pos, negsuc, pos_part, neg_part, length, length-append, get_elem?,
}
use r_search.Search.Sort.{
  SortType, keyword_type, long_type, double_type, boolean_type, date_type, ip_type, SortValue,
  missing, str, int, float, boolean, ip,
}
use r_search.Search.Query.{Json, number}
use r_search.Search.Collector.{ResolvedSort}
use r_search.Search.Paging.{
  same_int, i64_max, i64_min, max_safe_millis, Formats, to_json, parse_sort_value, hit_values_json,
  hit_sort_json, ok, bad_timestamp, bad_seq, parse_values, parse_tie, clamp, parse_cursor,
}

-- An integer that does not stand for a missing value.
abbrev pub Proper : ℤ → Type 0
Proper n = (same_int n i64_max || same_int n i64_min) ≡ false

module _ (formats : Formats) where
  -- A value of the field's type that its JSON keeps.
  abbrev pub Reported : SortType → SortValue → Type 0
  Reported ty missing = Unit
  Reported keyword_type (str s) = Unit
  Reported long_type (int n) = Proper n
  Reported date_type (int n) = Proper n
  Reported double_type (float f) = formats.is_finite f ≡ true
  Reported boolean_type (boolean b) = Unit
  Reported ip_type (ip a) = formats.parse_ip (formats.format_ip a) ≡ some a
  Reported ty v = ⊥

  abbrev pub AllReported : List ResolvedSort → List SortValue → Type 0
  AllReported [] [] = Unit
  AllReported [] (v ∷ vs) = ⊥
  AllReported (sort ∷ sorts) [] = ⊥
  AllReported (sort ∷ sorts) (v ∷ vs) = Reported sort.ty v × AllReported sorts vs

  parse-to_json :
      (ty : SortType) (v : SortValue) (n : Bool)
      → Reported ty v
      → parse_sort_value formats (to_json formats v ty n) ty ≡ some v
  unfolding parse_sort_value to_json
  parse-to_json keyword_type missing n h = refl
  parse-to_json ip_type missing n h = refl
  parse-to_json long_type missing true h = refl
  parse-to_json long_type missing false h = refl
  parse-to_json date_type missing true h = refl
  parse-to_json date_type missing false h = refl
  parse-to_json double_type missing true h = refl
  parse-to_json double_type missing false h = refl
  parse-to_json boolean_type missing true h = refl
  parse-to_json boolean_type missing false h = refl
  parse-to_json keyword_type (str s) n h = refl
  parse-to_json long_type (int m) n h = rw h refl
  parse-to_json date_type (int m) n h = rw h refl
  parse-to_json double_type (float f) n h = rw h refl
  parse-to_json boolean_type (boolean true) n h = refl
  parse-to_json boolean_type (boolean false) n h = refl
  parse-to_json ip_type (ip a) n h = rw h refl
  parse-to_json ty v n h = ground (arith, h)

  values_return :
      (sorts : List ResolvedSort) (vs : List SortValue) (tail : List Json)
      → AllReported sorts vs
      → parse_values formats (hit_values_json formats sorts vs ++ tail) sorts ≡ ok vs
  unfolding parse_sort_value to_json
  values_return [] [] [] h = refl
  values_return [] [] (t ∷ tail) h = refl
  values_return [] (v ∷ vs) tail h = absurd h
  values_return (sort ∷ sorts) [] tail h = absurd h
  values_return (sort ∷ sorts) (v ∷ vs) tail (r, rs) =
      rw (parse-to_json sort.ty v sort.null_is_max r, values_return sorts vs tail rs) refl

  length-hit_values_json :
      (sorts : List ResolvedSort) (vs : List SortValue)
      → length (hit_values_json formats sorts vs) ≡ length sorts
  length-hit_values_json [] vs = refl
  length-hit_values_json (sort ∷ sorts) [] = ap suc (length-hit_values_json sorts [])
  length-hit_values_json (sort ∷ sorts) (v ∷ vs) = ap suc (length-hit_values_json sorts vs)

  tie_returns : (e : _) (n : ℤ) → Proper n → parse_tie formats e (some (number n)) ≡ ok (some n)
  unfolding parse_sort_value
  tie_returns e n h = rw (parse_tie, h) refl

get_elem?-append :
    {A : Type 0} (xs ys : List A) (k i : ℕ)
    → k ≡ length xs + i
    → get_elem? (xs ++ ys) k ≡ get_elem? ys i
get_elem?-append [] ys k i e = let same : k ≡ i = omega arith in rw same
get_elem?-append (x ∷ xs) ys zero i e = absurd (omega arith)
get_elem?-append (x ∷ xs) ys (suc k) i e = get_elem?-append xs ys k i (omega arith)

-- Milliseconds that the clamp leaves.
abbrev pub Safe : ℤ → Type 0
Safe n = (pos_part n ≤ max_safe_millis) × (neg_part n ≤ max_safe_millis)

clamp-Safe : (n : ℤ) → Safe n → clamp n ≡ n
clamp-Safe (pos n) h = ground arith
clamp-Safe (negsuc n) h = ground arith

Safe-Proper : (n : ℤ) → Safe n → Proper n
Safe-Proper (pos n) h = ground arith
Safe-Proper (negsuc n) h = ground arith

-- For one value of the sort's type per field, no integer of them an extreme of i64, no float
-- without JSON and no address that its text does not return, with a timestamp within
-- max_safe_millis and a seq that is no extreme, the sort values that a hit reports parse to the
-- cursor with just these values, timestamp and seq.
pub parse_cursor-hit_sort_json :
    (formats : Formats) (sorts : List ResolvedSort) (vs : List SortValue) (ts seq : ℤ)
    → AllReported formats sorts vs
    → Safe ts
    → Proper seq
    → parse_cursor formats (hit_sort_json formats sorts vs ts seq) sorts
      ≡ ok (record { values = vs; timestamp_millis = some ts; seq = some seq })
unfolding parse_cursor hit_sort_json
parse_cursor-hit_sort_json formats sorts vs ts seq h safe proper =
    let shown = hit_values_json formats sorts vs in
    let tail = number ts ∷ number seq ∷ [] in
    let n : length shown ≡ length sorts = length-hit_values_json formats sorts vs in
    let size : length (shown ++ tail) ≡ length sorts + 2 =
      omega (arith, length-append shown tail) in
    let fits : (ltb (length (shown ++ tail)) (length sorts)
          || ltb (length sorts + 2) (length (shown ++ tail)))
        ≡ false =
      ground arith in
    let at_ts : get_elem? (shown ++ tail) (length sorts) ≡ some (number ts) =
      get_elem?-append shown tail (length sorts) 0 (omega arith) in
    let at_seq : get_elem? (shown ++ tail) (length sorts + 1) ≡ some (number seq) =
      get_elem?-append shown tail (length sorts + 1) 1 (omega arith) in
    rw
      (
        fits,
        values_return formats sorts vs tail h,
        at_ts,
        at_seq,
        tie_returns formats bad_timestamp ts (Safe-Proper ts safe),
        tie_returns formats bad_seq seq proper,
        clamp-Safe ts safe,
      )
      refl
