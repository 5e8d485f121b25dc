-- ===== src/Search/Paging/Tests.antt =====
-- The cursor of a hit, at a concrete hit.
use r_search.Base.{is_lt, ◌≡◌, refl, true, false, [], ◌∷◌, none, some, arith, pos, negsuc}
use r_search.Search.Sort.{SortValue, Key, cmp_hits, int, keyword_type, long_type, missing, str}
use r_search.Search.Column.{int_column}
use r_search.Search.Collector.{
  ResolvedSort, FieldSortPlan, SegmentCollector, orders, for_segment, ranked_of, after_cursor,
  hit_of,
}
use r_search.Search.Paging.After.{cursor_of, after_hit}
use r_search.Search.Paging.{Formats, hit_sort_json, ok, parse_cursor}
use r_search.Search.Paging.RoundTrip.{parse_cursor-hit_sort_json}

abbrev plain_formats : Formats
plain_formats = record {
  as_f64 = λ n. n;
  is_finite = λ f. true;
  whole_f64 = λ f. none;
  parse_i64 = λ s. none;
  parse_f64 = λ s. none;
  parse_bool = λ s. none;
  parse_ip = λ s. none;
  format_ip = λ a. [];
  to_string = λ value. [];
  times = record {
    now = none;
    parse_date_string = λ s. none;
    epoch_to_millis = λ n. n;
    seconds_to_millis = λ f. none;
  };
}

abbrev a_name : ResolvedSort
a_name = record {
  ty = keyword_type;
  desc = false;
  use_max = false;
  null_is_max = true;
  substitute = none;
}

abbrev a_size : ResolvedSort
a_size = record {
  ty = long_type;
  desc = true;
  use_max = true;
  null_is_max = false;
  substitute = none;
}

parse_cursor-hit_sort_json_example :
    parse_cursor plain_formats
      (hit_sort_json plain_formats
        (a_name ∷ a_size ∷ [])
        (str (97 ∷ []) ∷ missing ∷ [])
        (pos 70)
        (negsuc 0))
      (a_name ∷ a_size ∷ [])
    ≡ ok (record {
      values = str (97 ∷ []) ∷ missing ∷ [];
      timestamp_millis = some (pos 70);
      seq = some (negsuc 0);
    })
parse_cursor-hit_sort_json_example =
    parse_cursor-hit_sort_json plain_formats (a_name ∷ a_size ∷ []) (str (97 ∷ []) ∷ missing ∷ [])
      (pos 70) (negsuc 0) (tt, (tt, tt)) (omega arith, omega arith) refl

-- The hit of the value 4 at the time 70, in a page by size, and the document 1 of a segment.
abbrev at_four : Key SortValue
at_four = record { values = int (pos 4) ∷ []; ts = pos 70; seq = pos 9 }

abbrev page_after_four : FieldSortPlan
page_after_four = record {
  fields = a_size ∷ [];
  cursor = cursor_of (
      parse_cursor plain_formats
        (hit_sort_json plain_formats (a_size ∷ []) (int (pos 4) ∷ []) (pos 70) (pos 9))
        (a_size ∷ []));
}

abbrev by_doc : SegmentCollector
by_doc =
    for_segment page_after_four 5 (int_column (λ doc. pos doc ∷ []) ∷ []) (λ doc. none)
      (λ doc. none) 0

after_hit_example :
    after_cursor (λ n. n) (orders page_after_four) by_doc.cursor (ranked_of by_doc 1)
    ≡ is_lt (
        cmp_hits
          (λ n. n)
          (orders page_after_four)
          at_four
          (hit_of (λ a b. true) by_doc (ranked_of by_doc 1)).key)
after_hit_example =
    after_hit plain_formats (λ n. n) (λ a b. true) page_after_four 5
      (int_column (λ doc. pos doc ∷ []) ∷ []) (λ doc. none) (λ doc. none) 0 at_four 1 refl
      (refl, tt) (omega arith, omega arith) refl (tt, tt) (refl, tt) refl
