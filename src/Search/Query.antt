-- ===== src/Search/Query.antt =====
-- The time bounds that a query gives, for the pruning of splits: crates/rsearch-search/src/query_dsl.rs.
-- A string is its bytes; a number is an i64 or else a float, by the bits that stand for it. The clock, the
-- grammar of dates, the unit of an epoch and the floats' arithmetic are parameters.
pub mod Range
pub mod Matches
pub mod Plain
pub mod Bounds
mod Tests
use r_search.Base.{
  ℕ, ◌≡◌, Bool, true, false, ◌&&◌, ◌||◌, not, List, [], ◌∷◌, Option, none, some, if◌then◌else◌, ℤ,
  leb_ℤ, ltb_ℤ, Ordering, lt, eq, gt, cmp_bytes,
}

abbrev pub Text : Type 0
Text = List ℕ

mutual
  pub data Json : Type 0 where
    null : Json
    bool : Bool → Json
    number float : ℤ → Json
    string : Text → Json
    array : Items → Json
    object : Fields → Json

  pub data Items : Type 0 where
    no_items : Items
    item : Json → Items → Items

  pub data Fields : Type 0 where
    no_fields : Fields
    field : Text → Json → Fields → Fields

abbrev pub same_text : Text → Text → Bool
same_text a b = elim (cmp_bytes a b) [ eq ↦ true | _ ↦ false ]

abbrev pub now_text : Text
now_text = 110 ∷ 111 ∷ 119 ∷ []

abbrev pub range_key : Text
range_key = 114 ∷ 97 ∷ 110 ∷ 103 ∷ 101 ∷ []

abbrev pub bool_key : Text
bool_key = 98 ∷ 111 ∷ 111 ∷ 108 ∷ []

abbrev pub must_key : Text
must_key = 109 ∷ 117 ∷ 115 ∷ 116 ∷ []

abbrev pub filter_key : Text
filter_key = 102 ∷ 105 ∷ 108 ∷ 116 ∷ 101 ∷ 114 ∷ []

abbrev pub gt_key : Text
gt_key = 103 ∷ 116 ∷ []

abbrev pub gte_key : Text
gte_key = 103 ∷ 116 ∷ 101 ∷ []

abbrev pub lt_key : Text
lt_key = 108 ∷ 116 ∷ []

abbrev pub lte_key : Text
lte_key = 108 ∷ 116 ∷ 101 ∷ []

-- `timestamp`, which `@` or `_` may precede.
abbrev pub timestamp_text : Text
timestamp_text = 116 ∷ 105 ∷ 109 ∷ 101 ∷ 115 ∷ 116 ∷ 97 ∷ 109 ∷ 112 ∷ []

abbrev pub is_timestamp_alias : Text → Bool
is_timestamp_alias name =
    same_text name (64 ∷ timestamp_text)
    || (same_text name timestamp_text || same_text name (95 ∷ timestamp_text))

-- What the parsing of a time takes from outside.
pub record Times : Type 0 where
  pub now : Option ℤ
  pub parse_date_string : Text → Option ℤ
  pub epoch_to_millis : ℤ → ℤ
  pub seconds_to_millis : ℤ → Option ℤ

unfoldable pub parse_time_millis : Times → Json → Option ℤ
parse_time_millis times (string s) =
    if same_text s now_text then times.now else times.parse_date_string s
parse_time_millis times (number n) = some (times.epoch_to_millis n)
parse_time_millis times (float f) = times.seconds_to_millis f
parse_time_millis times value = none

pub record TimeBounds : Type 0 where
  pub start : Option ℤ
  pub end : Option ℤ

abbrev pub later : Option ℤ → ℤ → ℤ
later none ms = ms
later (some s) ms = if leb_ℤ s ms then ms else s

abbrev pub earlier : Option ℤ → ℤ → ℤ
earlier none ms = ms
earlier (some e) ms = if leb_ℤ ms e then ms else e

abbrev pub is_lower : Text → Bool
is_lower op = same_text op gte_key || same_text op gt_key

abbrev pub is_upper : Text → Bool
is_upper op = same_text op lte_key || same_text op lt_key

abbrev pub add_bound : Text → Option ℤ → TimeBounds → TimeBounds
add_bound op none b = b
add_bound op (some ms) b =
    if is_lower op
    then record b { start = some (later b.start ms) }
    else if is_upper op
    then record b { end = some (earlier b.end ms) }
    else b

module _ (times : Times) where
  abbrev pub scan_ops : Fields → TimeBounds → TimeBounds
  scan_ops no_fields b = b
  scan_ops (field op value ops) b = scan_ops ops (add_bound op (parse_time_millis times value) b)

  abbrev pub scan_object : Json → TimeBounds → TimeBounds
  scan_object (object ops) b = scan_ops ops b
  scan_object value b = b

  -- The loop over the fields of a range.
  abbrev pub scan_range : Fields → TimeBounds → TimeBounds
  scan_range no_fields b = b
  scan_range (field name bounds more) b =
      scan_range more (if is_timestamp_alias name then scan_object bounds b else b)

  abbrev pub range_of : Json → TimeBounds → TimeBounds
  range_of (object range) b = scan_range range b
  range_of value b = b

  abbrev pub scan_ranges : Fields → TimeBounds → TimeBounds
  scan_ranges no_fields b = b
  scan_ranges (field key value more) b =
      let rest = scan_ranges more b in if same_text key range_key then range_of value b else rest

abbrev pub is_object : Json → Bool
is_object (object fs) = true
is_object value = false

abbrev pub has_bool : Fields → Bool
has_bool no_fields = false
has_bool (field key value more) =
    let rest = has_bool more in if same_text key bool_key then is_object value else rest

module _ (times : Times) where
  unfoldable mutual
    pub scan_time_bounds : Json → TimeBounds → TimeBounds
    scan_time_bounds (object fs) b =
        if has_bool fs
        then scan_bool fs (scan_ranges times fs b)
        else scan_fields fs (scan_ranges times fs b)
    scan_time_bounds (array items) b = scan_items items b
    scan_time_bounds value b = b

    pub scan_items : Items → TimeBounds → TimeBounds
    scan_items no_items b = b
    scan_items (item value items) b = scan_items items (scan_time_bounds value b)

    pub scan_fields : Fields → TimeBounds → TimeBounds
    scan_fields no_fields b = b
    scan_fields (field key value more) b = scan_fields more (scan_time_bounds value b)

    pub scan_bool : Fields → TimeBounds → TimeBounds
    scan_bool no_fields b = b
    scan_bool (field key value more) b =
        if same_text key bool_key then scan_body value b else scan_bool more b

    -- Only the clauses that all must hold.
    pub scan_body : Json → TimeBounds → TimeBounds
    scan_body (object body) b = scan_clause body filter_key (scan_clause body must_key b)
    scan_body value b = b

    pub scan_clause : Fields → Text → TimeBounds → TimeBounds
    scan_clause no_fields name b = b
    scan_clause (field key value more) name b =
        if same_text key name then scan_time_bounds value b else scan_clause more name b

  abbrev pub extract_time_bounds : Json → TimeBounds
  extract_time_bounds query = scan_time_bounds query (record { start = none; end = none })
