-- ===== src/Search/Tests.antt =====
-- Runs of the searches' models at concrete inputs.
use r_search.Base.{
  ℕ, ◌≡◌, refl, Bool, true, false, List, [], ◌∷◌, map, none, some, arith, if◌then◌else◌, ◌==◌, ℤ,
  pos, negsuc, Ordering, lt, eq, gt, compare, is_lt, cmp_ℤ, cmp_bytes, IsWeak, compare-IsWeak, Any,
  take,
}
use r_search.Search.Sort.{keyword_type, SortValue, str, FieldOrder, Key, cmp_hits}
use r_search.Search.Sort.Laws.{FittingKey, cmp_hits-IsWeak}
use r_search.Search.TopK.{insert_all, offer_all}
use r_search.Search.TopK.Steps.{offer_all_lem}
use r_search.Search.TopK.Merge.{concat}
use r_search.Search.Column.{
  ord_key, TermOrdHit, exact, next, StrColumn, str_column, key, key_for, materialize,
}
use r_search.Search.Column.Laws.{Located, Dictionary, key_for-materialize}
use r_search.Search.Collector.{
  ResolvedSort, FieldSortPlan, orders, SegmentCollector, for_segment, hit_values, ranked_of,
  keys_of, after_cursor, merge_fruits, hit_of,
}
use r_search.Search.Collector.Distinct.{cmp_bytes-eq}
use r_search.Search.Collector.Heap.{Segment}
use r_search.Search.Collector.Pages.{
  segment_page, hits_past, first_hits, IsReadable, merge_fruits_lem,
}
use r_search.Search.Collector.Cursor.{full_cursor, after_cursor_lem}

abbrev as_is : ℤ → ℤ
as_is n = n

abbrev same_ℤ : ℤ → ℤ → Bool
same_ℤ a b = elim (cmp_ℤ a b) [ eq ↦ true | _ ↦ false ]

-- A field of integers, descending, the missing values last.
abbrev newest : FieldOrder
newest = record { desc = true; null_is_max = false }

cmp_hits-IsWeak_example :
    IsWeak (FittingKey (newest ∷ []) (false ∷ [])) (cmp_hits as_is (newest ∷ []))
cmp_hits-IsWeak_example = cmp_hits-IsWeak as_is (newest ∷ []) (false ∷ [])

offer_all_lem_example :
    offer_all compare 2 (take 2 []) (5 ∷ 3 ∷ 9 ∷ 1 ∷ [])
    ≡ take 2 (insert_all compare [] (5 ∷ 3 ∷ 9 ∷ 1 ∷ []))
offer_all_lem_example =
    offer_all_lem Any compare compare-IsWeak 2 (5 ∷ 3 ∷ 9 ∷ 1 ∷ []) [] (omega arith)
      (tt, (tt, (tt, (tt, tt)))) tt tt

-- A dictionary of the one term "a"; the first document holds it.
abbrev placed : Ordering → TermOrdHit
placed eq = exact 0
placed gt = next 0
placed lt = next 1

abbrev letters : StrColumn
letters = record {
  term_ords = λ doc. if doc == 0 then 0 ∷ [] else [];
  term_ord_or_next = λ s. some (placed (cmp_bytes (97 ∷ []) s));
  ord_to_str = λ o. some (97 ∷ []);
}

letters-Located :
    (s : List ℕ) (o : Ordering)
    → cmp_bytes (97 ∷ []) s ≡ o
    → Located 1 (λ i. 97 ∷ []) s (some (placed o))
letters-Located s eq e = (omega arith, cmp_bytes-eq (97 ∷ []) s e)
letters-Located s gt e = (λ i h k. absurd (omega arith), λ i h k. e)
letters-Located s lt e = (λ i h k. e, λ i h k. absurd (omega arith))

letters-Dictionary : Dictionary letters
letters-Dictionary = record {
  count = 1;
  term = λ i. 97 ∷ [];
  small = omega arith;
  ascend = λ i j h k. absurd (omega arith);
  found = λ s. letters-Located s (cmp_bytes (97 ∷ []) s) refl;
  shown = λ i h. refl;
  valid = λ doc. ground arith;
}

key_for-materialize_example :
    key_for (str_column letters) (materialize (str_column letters) (ord_key 1)) ≡ ord_key 1
unfolding letters-Dictionary
key_for-materialize_example =
    key_for-materialize (str_column letters) letters-Dictionary (ord_key 1)
      (record { index = 0; odd = refl; bound = omega arith })

-- The letters, ascending, the missing ones as "b"; and a plan without substitutes past "a".
abbrev by_letter : ResolvedSort
by_letter = record {
  ty = keyword_type;
  desc = false;
  use_max = false;
  null_is_max = true;
  substitute = some (str (98 ∷ []));
}

abbrev lettered : FieldSortPlan
lettered = record { fields = by_letter ∷ []; cursor = none }

abbrev two_docs : ℕ → Segment
two_docs ord = record {
  accessors = str_column letters ∷ [];
  ts = λ doc. some (pos doc);
  seq = λ doc. none;
  ord = ord;
  docs = 1 ∷ 0 ∷ [];
}

two_docs-IsReadable : (ord : ℕ) → IsReadable as_is same_ℤ lettered 3 (false ∷ []) (two_docs ord)
unfolding hit_of hit_values ranked_of for_segment keys_of key key_for materialize
two_docs-IsReadable ord = record {
  sound = (letters-Dictionary, tt);
  plain = (tt, tt);
  aligned = refl;
  typed = ((tt, tt), ((tt, tt), tt));
}

merge_fruits_lem_example :
    merge_fruits as_is lettered 3
      (map (segment_page as_is same_ℤ lettered 3) (two_docs 0 ∷ two_docs 1 ∷ []))
    ≡ first_hits as_is lettered 3
        (concat (map (hits_past as_is same_ℤ lettered 3) (two_docs 0 ∷ two_docs 1 ∷ [])))
merge_fruits_lem_example =
    merge_fruits_lem as_is same_ℤ lettered 3 (false ∷ []) (two_docs 0 ∷ two_docs 1 ∷ [])
      (omega arith) (two_docs-IsReadable 0, (two_docs-IsReadable 1, tt))

abbrev past_a : Key SortValue
past_a = record { values = str (97 ∷ []) ∷ []; ts = pos 0; seq = negsuc 0 }

abbrev next_page : FieldSortPlan
next_page = record {
  fields = record by_letter { substitute = none } ∷ [];
  cursor = some (full_cursor past_a);
}

abbrev next_segment : SegmentCollector
next_segment =
    for_segment next_page 3 (str_column letters ∷ []) (λ doc. some (pos doc)) (λ doc. none) 0

after_cursor_lem_example :
    after_cursor as_is (orders next_page) next_segment.cursor (ranked_of next_segment 1)
    ≡ is_lt (
        cmp_hits as_is
          (orders next_page)
          past_a
          (hit_of same_ℤ next_segment (ranked_of next_segment 1)).key)
after_cursor_lem_example =
    after_cursor_lem as_is same_ℤ next_page 3 (str_column letters ∷ []) (λ doc. some (pos doc))
      (λ doc. none) 0 past_a 1 refl (letters-Dictionary, tt) (refl, tt) refl refl
