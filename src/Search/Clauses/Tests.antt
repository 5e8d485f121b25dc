-- ===== src/Search/Clauses/Tests.antt =====
-- Requests sorted by clauses, and the theorem at one.
use r_search.Base.{◌≡◌, refl, true, false, [], ◌∷◌, none, some}
use r_search.Search.Query.{null, array, timestamp_text}
use r_search.Search.Clauses.{
  max, SortField, SortSpec, ok, timestamp, fields, parse_spec, parse_field, parse_order,
}
use r_search.Search.Clauses.RoundTrip.{clauses_json, Asks, parse_spec-Asks}

abbrev by_size : SortField
by_size = record {
  name = 115 ∷ [];
  desc = true;
  missing = some null;
  unmapped_type = none;
  mode = some max;
}

abbrev by_name : SortField
by_name = record {
  name = 110 ∷ [];
  desc = false;
  missing = none;
  unmapped_type = some (120 ∷ []);
  mode = none;
}

-- The last clause on the time says the direction.
abbrev oldest_first : SortField
oldest_first = record {
  name = timestamp_text;
  desc = false;
  missing = none;
  unmapped_type = none;
  mode = none;
}

abbrev latest_first : SortField
latest_first = record oldest_first { name = 64 ∷ timestamp_text; desc = true }

parse_spec-Asks_example :
    (spec : SortSpec) × (parse_spec (some (array (clauses_json (latest_first ∷ oldest_first ∷ []))))
      ≡ ok spec)
    × Asks (latest_first ∷ oldest_first ∷ []) spec
parse_spec-Asks_example = parse_spec-Asks (latest_first ∷ oldest_first ∷ []) (refl, (refl, tt))

by_time :
    parse_spec (some (array (clauses_json (latest_first ∷ oldest_first ∷ []))))
    ≡ ok (timestamp false)
unfolding parse_spec parse_field parse_order
by_time = refl

-- A missing value on the time keeps every clause.
abbrev missing_first : SortField
missing_first = record oldest_first { missing = some null }

by_clauses :
    parse_spec (some (array (clauses_json (missing_first ∷ by_size ∷ by_name ∷ []))))
    ≡ ok (fields (missing_first ∷ by_size ∷ by_name ∷ []))
unfolding parse_spec parse_field parse_order
by_clauses = refl
