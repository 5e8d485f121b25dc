-- ===== src/Search/Resolve/Tests.antt =====
-- A clause that is resolved against a small stream.
use r_search.Base.{◌≡◌, refl, true, [], ◌∷◌, none, some, pos, lt}
use r_search.Search.Sort.{long_type, missing, int, directed, cmp_natural}
use r_search.Search.Query.{string}
use r_search.Search.Clauses.{SortField}
use r_search.Search.Collector.{ResolvedSort, order}
use r_search.Search.Paging.{Formats}
use r_search.Search.Resolve.{Stream, long_field, mapped, text_first, target_of, resolve_field}
use r_search.Search.Resolve.Missing.{resolve_field_lem}

abbrev no_formats : Formats
no_formats = record {
  as_f64 = λ n. n;
  is_finite = λ f. true;
  whole_f64 = λ f. none;
  parse_i64 = λ s. none;
  parse_f64 = λ s. none;
  parse_bool = λ s. none;
  parse_ip = λ s. none;
  format_ip = λ a. [];
  to_string = λ value. [];
  times = record {
    now = none;
    parse_date_string = λ s. none;
    epoch_to_millis = λ n. n;
    seconds_to_millis = λ f. none;
  };
}

abbrev sized : Stream
sized = record {
  mapping = λ name. elim name [ [] ↦ none | c ∷ cs ↦ some long_field ];
  dynamic = λ name. none;
}

-- By size, the largest first, the documents without one before all.
abbrev by_size_first : SortField
by_size_first = record {
  name = 115 ∷ [];
  desc = true;
  missing = some (string text_first);
  unmapped_type = none;
  mode = none;
}

abbrev size_resolved : ResolvedSort
size_resolved = record {
  ty = long_type;
  desc = true;
  use_max = true;
  null_is_max = true;
  substitute = none;
}

resolve_field_lem_example :
    directed
      (order size_resolved)
      (cmp_natural (λ n. n) missing (int (pos 4)) (order size_resolved).null_is_max)
    ≡ lt
unfolding resolve_field target_of
resolve_field_lem_example =
    resolve_field_lem no_formats (λ n. n) sized by_size_first true (mapped (115 ∷ [])) size_resolved
      (int (pos 4)) refl refl refl
