-- ===== src/Search/Query/Bounds.antt =====
-- The bounds of a query do not exclude a document that it matches.
use mathlib.Core.Path.{subst}
use r_search.Base.{
  sym, leb, both, ◌≡◌, refl, Bool, true, false, ◌&&◌, not, Option, none, some, arith, if◌then◌else◌,
  Bool-cases, inl, inr, ℤ, leb_ℤ, cmp_bytes-IsWeak,
}
use r_search.Search.Query.{
  Text, Json, array, object, Items, no_items, item, Fields, no_fields, field, same_text, range_key,
  bool_key, must_key, filter_key, is_timestamp_alias, Times, parse_time_millis, TimeBounds, later,
  earlier, is_lower, is_upper, add_bound, scan_ops, scan_object, scan_range, range_of, is_object,
  scan_time_bounds, scan_items, scan_body, scan_clause,
}
use r_search.Search.Query.Range.{
  RangeBounds, unbounded, RangeResult, ok, err, ◌>>=◌, time_range, read_bounds, translate_bounds,
  in_range,
}
use r_search.Search.Query.Range.Kept.{count_ops, bound_holds, ops_hold, bounds_kept}
use r_search.Search.Query.Matches.{
  Answers, result_holds, range_holds, matches, bool_holds, clause_holds, items_hold, AtLeast,
  AtMost, Within, plain, no_time, one_each, plain_range, well_formed, well_formed_bool,
  well_formed_clause, well_formed_items,
}
use r_search.Search.Query.Plain.{scan-plain}

if_true : (c x y : Bool) → c ≡ true → (if c then x else y) ≡ true → x ≡ true
if_true c x y e h = ground arith

if_false : (c x y : Bool) → c ≡ false → (if c then x else y) ≡ true → y ≡ true
if_false c x y e h = ground arith

module _ (times : Times) where
  module _ (doc : Answers) where
    later-AtLeast :
        (s : Option ℤ) (ms : ℤ)
        → AtLeast times doc s
        → leb_ℤ ms doc.ts ≡ true
        → leb_ℤ (later s ms) doc.ts ≡ true
    later-AtLeast none ms h k = k
    later-AtLeast (some s) ms h k = ground arith

    earlier-AtMost :
        (e : Option ℤ) (ms : ℤ)
        → AtMost times doc e
        → leb_ℤ doc.ts ms ≡ true
        → leb_ℤ doc.ts (earlier e ms) ≡ true
    earlier-AtMost none ms h k = k
    earlier-AtMost (some e) ms h k = ground arith

    add_bound-Within :
        (op : Text) (o : Option ℤ) (b : TimeBounds)
        → bound_holds doc.ts (is_lower op) (is_upper op) o ≡ true
        → Within times doc b
        → Within times doc (add_bound op o b)
    add_bound-Within op none b h w = w
    add_bound-Within op (some ms) b h (low, high) = elim (Bool-cases (is_lower op)) [
      | inl e ↦ rw e (later-AtLeast b.start ms low (if_true (is_lower op) _ _ e h), high)
      | inr e ↦
          let h' = if_false (is_lower op) _ _ e h in
          elim (Bool-cases (is_upper op)) [
            | inl f ↦ rw (e, f) (low, earlier-AtMost b.end ms high (if_true (is_upper op) _ _ f h'))
            | inr f ↦ rw (e, f) (low, high)
          ]
    ]

    scan_ops-Within :
        (ops : Fields) (b : TimeBounds)
        → ops_hold times doc.ts ops ≡ true
        → Within times doc b
        → Within times doc (scan_ops times ops b)
    scan_ops-Within no_fields b h w = w
    scan_ops-Within (field op value ops) b h w =
        let time = parse_time_millis times value in
        let (k, ks) =
          both (bound_holds doc.ts (is_lower op) (is_upper op) time) (ops_hold times doc.ts ops)
            h in
        scan_ops-Within ops (add_bound op time b) ks (add_bound-Within op time b k w)

    scan_no_time : (fs : Fields) (b : TimeBounds) → no_time fs ≡ true → scan_range times fs b ≡ b
    scan_no_time no_fields b h = refl
    scan_no_time (field name bounds more) b h =
        let (other, others) = both (not (is_timestamp_alias name)) (no_time more) h in
        let e : is_timestamp_alias name ≡ false = ground arith in rw e (scan_no_time more b others)

    -- The translated range of times holds for the document.
    time_holds :
        (r : RangeResult RangeBounds)
        → result_holds times doc (r >>= (λ c. ok (time_range c))) ≡ true
        → (c : RangeBounds) × (r ≡ ok c) × (in_range c doc.ts ≡ true)
    time_holds (ok c) h = (c, refl, h)
    time_holds (err e) h = absurd (grind arith)

    time-Within :
        (bounds : Json) (name : Text) (b : TimeBounds)
        → is_timestamp_alias name ≡ true
        → result_holds times doc (translate_bounds times name bounds) ≡ true
        → one_each bounds ≡ true
        → Within times doc b
        → Within times doc (scan_object times bounds b)
    time-Within (object ops) name b e h f w =
        let start : RangeBounds = record { lower = unbounded; upper = unbounded } in
        let (c, read, inside) = time_holds (read_bounds times ops start) (rw e at h) in
        let (low, up) = both (leb (count_ops is_lower ops) 1) (leb (count_ops is_upper ops) 1) f in
        scan_ops-Within ops b
          (bounds_kept times doc.ts ops start c (ground arith) (ground arith) read inside) w
    time-Within bounds name b e h f w = w

    first-Within :
        (alias : Bool) (bounds : Json) (b : TimeBounds)
        → (alias ≡ true → Within times doc (scan_object times bounds b))
        → Within times doc b
        → Within times doc (if alias then scan_object times bounds b else b)
    first-Within true bounds b h w = h refl
    first-Within false bounds b h w = w

    range_of-Within :
        (body : Json) (b : TimeBounds)
        → range_holds times doc body ≡ true
        → plain_range body ≡ true
        → Within times doc b
        → Within times doc (range_of times body b)
    range_of-Within (object no_fields) b h f w = w
    range_of-Within (object (field name bounds more)) b h f w =
        let (sides, others) =
          both (if is_timestamp_alias name then one_each bounds else true) (no_time more) f in
        subst (Within times doc)
          (sym (
            scan_no_time more (if is_timestamp_alias name then scan_object times bounds b else b)
              others))
          (first-Within (is_timestamp_alias name) bounds b
            (λ e. time-Within bounds name b e h (if_true (is_timestamp_alias name) _ _ e sides) w)
            w)
    range_of-Within body b h f w = absurd (grind arith)

    not_range : (kind : Text) → same_text kind bool_key ≡ true → same_text kind range_key ≡ false
    not_range kind h = ground (arith, cmp_bytes-IsWeak.same kind bool_key range_key tt tt tt)

    mutual
      unfolding matches well_formed scan_time_bounds

      pub scan_time_bounds-Within :
          (q : Json) (b : TimeBounds)
          → matches times doc q ≡ true
          → well_formed q ≡ true
          → Within times doc b
          → Within times doc (scan_time_bounds times q b)
      scan_time_bounds-Within (object no_fields) b h f w = absurd (grind arith)
      scan_time_bounds-Within (object (field kind body (field k v more))) b h f w =
          absurd (grind arith)
      scan_time_bounds-Within (object (field kind body no_fields)) b h f w =
          elim (Bool-cases (same_text kind bool_key)) [
            | inl e ↦
                let (obj, within) =
                  scan_body-Within body b (if_true (same_text kind bool_key) _ _ e h)
                    (if_true (same_text kind bool_key) _ _ e f) w in
                rw (e, not_range kind e, obj) within
            | inr e ↦
                let (p, range) =
                  both (plain body) (if same_text kind range_key then plain_range body else true)
                    (if_false (same_text kind bool_key) _ _ e f) in
                elim (Bool-cases (same_text kind range_key)) [
                  | inl r ↦
                      let holds =
                        if_true (same_text kind range_key) _ _ r
                          (if_false (same_text kind bool_key) _ _ e h) in
                      let single = if_true (same_text kind range_key) _ _ r range in
                      rw (e, r, scan-plain times body (range_of times body b) p)
                        (range_of-Within body b holds single w)
                  | inr r ↦ rw (e, r, scan-plain times body b p) w
                ]
          ]
      scan_time_bounds-Within (array items) b h f w = scan_items-Within items b h f w
      scan_time_bounds-Within q b h f w = w

      scan_items-Within :
          (items : Items) (b : TimeBounds)
          → items_hold times doc items ≡ true
          → well_formed_items items ≡ true
          → Within times doc b
          → Within times doc (scan_items times items b)
      scan_items-Within no_items b h f w = w
      scan_items-Within (item value items) b h f w =
          let (k, ks) = both (matches times doc value) (items_hold times doc items) h in
          let (g, gs) = both (well_formed value) (well_formed_items items) f in
          scan_items-Within items (scan_time_bounds times value b) ks gs
            (scan_time_bounds-Within value b k g w)

      scan_body-Within :
          (body : Json) (b : TimeBounds)
          → bool_holds times doc body ≡ true
          → well_formed_bool body ≡ true
          → Within times doc b
          → (is_object body ≡ true) × Within times doc (scan_body times body b)
      scan_body-Within (object body) b h f w =
          let (must, rest) =
            both (clause_holds times doc body must_key)
              (clause_holds times doc body filter_key && doc.soft body) h in
          let (filters, soft) =
            both (clause_holds times doc body filter_key) (doc.soft body) rest in
          let (g, gs) =
            both (well_formed_clause body must_key) (well_formed_clause body filter_key) f in
          (
            refl,
            scan_clause-Within body filter_key (scan_clause times body must_key b) filters gs
                (scan_clause-Within body must_key b must g w),
          )
      scan_body-Within body b h f w = absurd (grind arith)

      scan_clause-Within :
          (body : Fields) (name : Text) (b : TimeBounds)
          → clause_holds times doc body name ≡ true
          → well_formed_clause body name ≡ true
          → Within times doc b
          → Within times doc (scan_clause times body name b)
      scan_clause-Within no_fields name b h f w = w
      scan_clause-Within (field key value more) name b h f w =
          elim (Bool-cases (same_text key name)) [
            | inl e ↦ rw e (
                scan_time_bounds-Within value b (if_true (same_text key name) _ _ e h)
                  (if_true (same_text key name) _ _ e f) w)
            | inr e ↦ rw e (
                scan_clause-Within more name b (if_false (same_text key name) _ _ e h)
                  (if_false (same_text key name) _ _ e f) w)
          ]
