-- ===== src/Search/Query/Tests.antt =====
-- A query of two clauses, and the theorem at it.
use r_search.Base.{◌≡◌, refl, true, [], ◌∷◌, none, some, pos}
use r_search.Search.Query.{
  Text, gt_key, string, Json, number, array, object, no_items, item, no_fields, field, range_key,
  bool_key, must_key, gte_key, lt_key, timestamp_text, Times, parse_time_millis, scan_time_bounds,
  extract_time_bounds,
}
use r_search.Search.Query.Range.{err, bad_operator, set_bound, translate_range}
use r_search.Search.Query.Matches.{Answers, matches}

abbrev plain_times : Times
plain_times = record {
  now = none;
  parse_date_string = λ s. none;
  epoch_to_millis = λ n. n;
  seconds_to_millis = λ f. none;
}

abbrev format_key : Text
format_key = 102 ∷ 111 ∷ 114 ∷ 109 ∷ 97 ∷ 116 ∷ []

-- Times from 5 on and below 9, with a `format`, which must hold, and a `term`.
abbrev from_five : Json
from_five = object (
    field range_key
      (object (
        field timestamp_text
          (object (
            field format_key (string (109 ∷ []))
              (field gte_key (number (pos 5)) (field lt_key (number (pos 9)) no_fields))))
          no_fields))
      no_fields)

abbrev both_clauses : Json
both_clauses = object (
    field bool_key
      (object (
        field must_key
          (array
            (item from_five (item (object (field (116 ∷ []) (number (pos 1)) no_fields)) no_items)))
          no_fields))
      no_fields)

abbrev at_seven : Answers
at_seven = record {
  ts = pos 7;
  leaf = λ kind body. true;
  other_range = λ name ops. true;
  soft = λ body. true;
}

both_bounds :
    extract_time_bounds plain_times both_clauses
    ≡ record { start = some (pos 5); end = some (pos 9) }
unfolding scan_time_bounds parse_time_millis
both_bounds = refl

-- Two lower bounds: the translated range keeps the last, the pruning the stronger one.
abbrev two_lower : Json
two_lower = object (
    field range_key
      (object (
        field timestamp_text
          (object (field gt_key (number (pos 9)) (field gte_key (number (pos 5)) no_fields)))
          no_fields))
      no_fields)

matches-two_lower : matches plain_times at_seven two_lower ≡ true
unfolding matches parse_time_millis set_bound
matches-two_lower = refl

two_lower_pruned :
    extract_time_bounds plain_times two_lower ≡ record { start = some (pos 9); end = none }
unfolding scan_time_bounds parse_time_millis
two_lower_pruned = refl

-- A document is not matched by a range with an operator that is not known.
unknown_operator :
    translate_range plain_times
      (object (field timestamp_text (object (field bool_key (number (pos 5)) no_fields)) no_fields))
    ≡ err bad_operator
unfolding parse_time_millis set_bound
unknown_operator = refl
