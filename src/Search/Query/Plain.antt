-- ===== src/Search/Query/Plain.antt =====
-- A value that holds no query gives no bounds.
use r_search.Base.{both, ◌≡◌, refl, ap, ◌∙◌, Bool, true, false, ◌&&◌, ◌||◌, not, arith}
use r_search.Search.Query.{
  Json, array, object, Items, no_items, item, Fields, no_fields, field, same_text, range_key,
  bool_key, Times, TimeBounds, scan_ranges, has_bool, scan_time_bounds, scan_items, scan_fields,
}
use r_search.Search.Query.Matches.{plain, plain_fields, plain_items}

neither : (a b : Bool) → not (a || b) ≡ true → (a ≡ false) × (b ≡ false)
neither false false h = (refl, refl)
neither false true h = absurd (grind arith)
neither true b h = absurd (grind arith)

module _ (times : Times) where
  plain-ranges :
      (fs : Fields) (b : TimeBounds)
      → plain_fields fs ≡ true
      → (scan_ranges times fs b ≡ b) × (has_bool fs ≡ false)
  unfolding plain_fields
  plain-ranges no_fields b h = (refl, refl)
  plain-ranges (field key value more) b h =
      let (keys, rest) =
        both (not (same_text key range_key || same_text key bool_key))
          (plain value && plain_fields more) h in
      let (no_range, no_bool) = neither (same_text key range_key) (same_text key bool_key) keys in
      rw (no_range, no_bool) (plain-ranges more b (both (plain value) (plain_fields more) rest).1)

  mutual
    unfolding plain scan_time_bounds

    pub scan-plain : (v : Json) (b : TimeBounds) → plain v ≡ true → scan_time_bounds times v b ≡ b
    scan-plain (object fs) b h =
        let (ranges, no_bool) = plain-ranges fs b h in
        rw (no_bool, ranges) (scan-plain_fields fs b h)
    scan-plain (array items) b h = scan-plain_items items b h
    scan-plain v b h = refl

    scan-plain_fields :
        (fs : Fields) (b : TimeBounds) → plain_fields fs ≡ true → scan_fields times fs b ≡ b
    scan-plain_fields no_fields b h = refl
    scan-plain_fields (field key value more) b h =
        let (keys, rest) =
          both (not (same_text key range_key || same_text key bool_key))
            (plain value && plain_fields more) h in
        let (p, ps) = both (plain value) (plain_fields more) rest in
        ap (scan_fields times more) (scan-plain value b p) ∙ scan-plain_fields more b ps

    scan-plain_items :
        (items : Items) (b : TimeBounds) → plain_items items ≡ true → scan_items times items b ≡ b
    scan-plain_items no_items b h = refl
    scan-plain_items (item value items) b h =
        let (p, ps) = both (plain value) (plain_items items) h in
        ap (scan_items times items) (scan-plain value b p) ∙ scan-plain_items items b ps
