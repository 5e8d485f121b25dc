-- ===== src/Search/Query/Matches.antt =====
-- What it means that a document matches a query, and which queries are well formed.
use r_search.Base.{
  leb, ◌≡◌, Bool, true, false, ◌&&◌, ◌||◌, not, Option, none, some, if◌then◌else◌, ℤ, leb_ℤ,
}
use r_search.Search.Query.{
  Text, Json, array, object, Items, no_items, item, Fields, no_fields, field, same_text, range_key,
  bool_key, must_key, filter_key, is_timestamp_alias, Times, TimeBounds, is_lower, is_upper,
}
use r_search.Search.Query.Range.{
  RangeResult, ok, err, RangeQuery, time_range, field_range, translate_range, in_range,
}
use r_search.Search.Query.Range.Kept.{count_ops}

-- What a query asks of a document: its time, the answers of the other kinds of queries, of ranges on
-- other fields, and of the clauses `should` and `must_not`.
pub record Answers : Type 0 where
  pub ts : ℤ
  pub leaf : Text → Json → Bool
  pub other_range : Text → Fields → Bool
  pub soft : Fields → Bool

module _ (times : Times) (doc : Answers) where
  -- A translated range compares times; one on another field is the document's to answer.
  abbrev pub query_holds : RangeQuery → Bool
  query_holds (time_range b) = in_range b doc.ts
  query_holds (field_range name ops) = doc.other_range name ops

  -- A range that is refused matches nothing.
  abbrev pub result_holds : RangeResult RangeQuery → Bool
  result_holds (ok query) = query_holds query
  result_holds (err e) = false

  abbrev pub range_holds : Json → Bool
  range_holds body = result_holds (translate_range times body)

  -- The document matches: an object of one field, by the field's kind; an array asks for all.
  unfoldable mutual
    pub matches : Json → Bool
    matches (object (field kind body no_fields)) =
        if same_text kind bool_key
        then bool_holds body
        else if same_text kind range_key
        then range_holds body
        else doc.leaf kind body
    matches (array items) = items_hold items
    matches value = false

    pub bool_holds : Json → Bool
    bool_holds (object body) =
        clause_holds body must_key && (clause_holds body filter_key && doc.soft body)
    bool_holds value = false

    pub clause_holds : Fields → Text → Bool
    clause_holds no_fields name = true
    clause_holds (field key value more) name =
        if same_text key name then matches value else clause_holds more name

    pub items_hold : Items → Bool
    items_hold no_items = true
    items_hold (item value items) = matches value && items_hold items

  abbrev pub AtLeast : Option ℤ → Type 0
  AtLeast none = Unit
  AtLeast (some s) = leb_ℤ s doc.ts ≡ true

  abbrev pub AtMost : Option ℤ → Type 0
  AtMost none = Unit
  AtMost (some e) = leb_ℤ doc.ts e ≡ true

  -- The document's time is within the bounds.
  abbrev pub Within : TimeBounds → Type 0
  Within b = AtLeast b.start × AtMost b.end

-- No field `range` or `bool` anywhere.
unfoldable mutual
  pub plain : Json → Bool
  plain (object fs) = plain_fields fs
  plain (array items) = plain_items items
  plain value = true

  pub plain_fields : Fields → Bool
  plain_fields no_fields = true
  plain_fields (field key value more) =
      not (same_text key range_key || same_text key bool_key) && (plain value && plain_fields more)

  pub plain_items : Items → Bool
  plain_items no_items = true
  plain_items (item value items) = plain value && plain_items items

abbrev pub no_time : Fields → Bool
no_time no_fields = true
no_time (field name bounds more) = not (is_timestamp_alias name) && no_time more

-- One of gte and gt at most, and one of lte and lt.
abbrev pub one_each : Json → Bool
one_each (object ops) = leb (count_ops is_lower ops) 1 && leb (count_ops is_upper ops) 1
one_each bounds = true

abbrev pub plain_range : Json → Bool
plain_range (object (field name bounds more)) =
    (if is_timestamp_alias name then one_each bounds else true) && no_time more
plain_range body = true

-- Only queries hold the fields `range` and `bool`. A range bounds a time once from each side, and
-- has no time after its first field.
unfoldable mutual
  pub well_formed : Json → Bool
  well_formed (object (field kind body no_fields)) =
      if same_text kind bool_key
      then well_formed_bool body
      else plain body && (if same_text kind range_key then plain_range body else true)
  well_formed (array items) = well_formed_items items
  well_formed value = true

  pub well_formed_bool : Json → Bool
  well_formed_bool (object body) =
      well_formed_clause body must_key && well_formed_clause body filter_key
  well_formed_bool value = true

  pub well_formed_clause : Fields → Text → Bool
  well_formed_clause no_fields name = true
  well_formed_clause (field key value more) name =
      if same_text key name then well_formed value else well_formed_clause more name

  pub well_formed_items : Items → Bool
  well_formed_items no_items = true
  well_formed_items (item value items) = well_formed value && well_formed_items items
