-- ===== src/Search/Query/Range/Kept.antt =====
-- With one lower and one upper bound at most, the translated range keeps every bound.
use mathlib.Core.Path.{subst}
use r_search.Base.{
  pos, both, ℕ, ◌+◌, ◌≤◌, ◌≡◌, refl, ap, sym, ◌∙◌, Bool, true, false, ◌&&◌, ◌||◌, Option, none,
  some, arith, if◌then◌else◌, ℤ, leb_ℤ,
}
use r_search.Search.Query.{
  Text, Fields, no_fields, field, same_text, gt_key, gte_key, lt_key, lte_key, Times,
  parse_time_millis, is_lower, is_upper,
}
use r_search.Search.Query.Range.{
  with_lower, with_upper, bad_operator, included, excluded, RangeBounds, RangeResult, ok, err,
  ◌>>=◌, is_skipped, set_bound, read_bounds, above, below, in_range,
}

-- How many operators of a range pass a test.
abbrev pub count_ops : (Text → Bool) → Fields → ℕ
count_ops p no_fields = 0
count_ops p (field op value ops) = (if p op then 1 else 0) + count_ops p ops

-- What a bound asks of a time, strict or not; `low` and `up` say which kind it is.
abbrev pub bound_holds : ℤ → Bool → Bool → Option ℤ → Bool
bound_holds ts low up none = true
bound_holds ts low up (some ms) = if low then leb_ℤ ms ts else if up then leb_ℤ ts ms else true

abbrev pub ops_hold : Times → ℤ → Fields → Bool
ops_hold times ts no_fields = true
ops_hold times ts (field op value ops) =
    bound_holds ts (is_lower op) (is_upper op) (parse_time_millis times value)
    && ops_hold times ts ops

bind_ok :
    {A B : Type 0} (r : RangeResult A) (f : A → RangeResult B) (b : B)
    → (r >>= f) ≡ ok b
    → (a : A) × (r ≡ ok a) × (f a ≡ ok b)
bind_ok (ok a) f b h = (a, refl, h)
bind_ok (err e) f b h = absurd (grind arith)

-- What a round does: it sets the lower or the upper bound, or neither.
data Round (ts : ℤ) (time : Option ℤ) (b c : RangeBounds) : Bool → Bool → Type 0 where
  sets_lower :
      {up : Bool}
      → (above c.lower ts ≡ true → bound_holds ts true up time ≡ true)
      → c.upper ≡ b.upper
      → Round ts time b c true up
  sets_upper :
      (below c.upper ts ≡ true → bound_holds ts false true time ≡ true)
      → c.lower ≡ b.lower
      → Round ts time b c false true
  skips : c ≡ b → Round ts time b c false false

ok_injective : {A : Type 0} (a b : A) → RangeResult.ok a ≡ ok b → a ≡ b
ok_injective a b h = cc

module _ (ts : ℤ) (b c : RangeBounds) where
  lower_included :
      (up : Bool) (time : Option ℤ) → with_lower included b time ≡ ok c → Round ts time b c true up
  lower_included up none h = absurd (grind arith)
  lower_included up (some ms) h =
      subst (λ c. Round ts (some ms) b c true up) (ok_injective _ c h) (sets_lower (λ k. k) refl)

  lower_excluded :
      (up : Bool) (time : Option ℤ) → with_lower excluded b time ≡ ok c → Round ts time b c true up
  lower_excluded up none h = absurd (grind arith)
  lower_excluded up (some ms) h =
      subst (λ c. Round ts (some ms) b c true up) (ok_injective _ c h)
        (sets_lower (λ k. ground arith) refl)

  upper_included :
      (time : Option ℤ) → with_upper included b time ≡ ok c → Round ts time b c false true
  upper_included none h = absurd (grind arith)
  upper_included (some ms) h =
      subst (λ c. Round ts (some ms) b c false true) (ok_injective _ c h) (sets_upper (λ k. k) refl)

  upper_excluded :
      (time : Option ℤ) → with_upper excluded b time ≡ ok c → Round ts time b c false true
  upper_excluded none h = absurd (grind arith)
  upper_excluded (some ms) h =
      subst (λ c. Round ts (some ms) b c false true) (ok_injective _ c h)
        (sets_upper (λ k. ground arith) refl)

  neither_set :
      (time : Option ℤ) (skip : Bool)
      → (if skip then ok b else err bad_operator) ≡ ok c
      → Round ts time b c false false
  neither_set time true h = skips (sym (ok_injective b c h))
  neither_set time false h = absurd (grind arith)

  choice-Round :
      (time : Option ℤ) (gte gt lte lt skip : Bool)
      → (if gte
          then with_lower included b time
          else if gt
          then with_lower excluded b time
          else if lte
          then with_upper included b time
          else if lt
          then with_upper excluded b time
          else if skip
          then ok b
          else err bad_operator)
        ≡ ok c
      → Round ts time b c (gte || gt) (lte || lt)
  choice-Round time true gt lte lt skip h = lower_included (lte || lt) time h
  choice-Round time false true lte lt skip h = lower_excluded (lte || lt) time h
  choice-Round time false false true lt skip h = upper_included time h
  choice-Round time false false false true skip h = upper_excluded time h
  choice-Round time false false false false skip h = neither_set time skip h

  set_bound-Round :
      (op : Text) (time : Option ℤ)
      → set_bound op time b ≡ ok c
      → Round ts time b c (is_lower op) (is_upper op)
  unfolding set_bound
  set_bound-Round op time h =
      choice-Round time (same_text op gte_key) (same_text op gt_key) (same_text op lte_key)
        (same_text op lt_key) (is_skipped op) h

Round-lower_kept :
    {ts : ℤ} {time : Option ℤ} {b c : RangeBounds} {low up : Bool}
    → Round ts time b c low up
    → low ≡ false
    → c.lower ≡ b.lower
Round-lower_kept (sets_lower f e) h = absurd (grind arith)
Round-lower_kept (sets_upper f e) h = e
Round-lower_kept (skips e) h = ap (λ (r : RangeBounds). r.lower) e

Round-upper_kept :
    {ts : ℤ} {time : Option ℤ} {b c : RangeBounds} {low up : Bool}
    → Round ts time b c low up
    → up ≡ false
    → c.upper ≡ b.upper
Round-upper_kept (sets_lower f e) h = e
Round-upper_kept (sets_upper f e) h = absurd (grind arith)
Round-upper_kept (skips e) h = ap (λ (r : RangeBounds). r.upper) e

bound_free : (ts : ℤ) (time : Option ℤ) → bound_holds ts false false time ≡ true
bound_free ts none = refl
bound_free ts (some ms) = refl

Round-holds :
    {ts : ℤ} {time : Option ℤ} {b c : RangeBounds} {low up : Bool}
    → Round ts time b c low up
    → (low ≡ true → above c.lower ts ≡ true)
    → (up ≡ true → below c.upper ts ≡ true)
    → bound_holds ts low up time ≡ true
Round-holds (sets_lower f e) low up = f (low refl)
Round-holds (sets_upper f e) low up = f (up refl)
Round-holds {ts} {time} (skips e) low up = bound_free ts time

no_more : (p : Bool) (n : ℕ) → (if p then 1 else 0) + n ≡ 0 → (p ≡ false) × (n ≡ 0)
no_more true n h = absurd (omega arith)
no_more false n h = (refl, omega arith)

-- A range without a lower bound leaves the lower one as it was, and so with the upper one.
module _ (times : Times) where
  kept_lower :
      (ops : Fields) (b c : RangeBounds)
      → count_ops is_lower ops ≡ 0
      → read_bounds times ops b ≡ ok c
      → c.lower ≡ b.lower
  kept_lower no_fields b c n h = ap (λ (r : RangeBounds). r.lower) (sym (ok_injective b c h))
  kept_lower (field op value ops) b c n h =
      let time = parse_time_millis times value in
      let (m, first, rest) = bind_ok (set_bound op time b) (read_bounds times ops) c h in
      let (low, none_left) = no_more (is_lower op) (count_ops is_lower ops) n in
      kept_lower ops m c none_left rest
      ∙ Round-lower_kept (set_bound-Round (pos 0) b m op time first) low

  kept_upper :
      (ops : Fields) (b c : RangeBounds)
      → count_ops is_upper ops ≡ 0
      → read_bounds times ops b ≡ ok c
      → c.upper ≡ b.upper
  kept_upper no_fields b c n h = ap (λ (r : RangeBounds). r.upper) (sym (ok_injective b c h))
  kept_upper (field op value ops) b c n h =
      let time = parse_time_millis times value in
      let (m, first, rest) = bind_ok (set_bound op time b) (read_bounds times ops) c h in
      let (up, none_left) = no_more (is_upper op) (count_ops is_upper ops) n in
      kept_upper ops m c none_left rest
      ∙ Round-upper_kept (set_bound-Round (pos 0) b m op time first) up

  -- Of a range with one bound of each side at most, every bound holds in the translated range.
  pub bounds_kept :
      (ts : ℤ) (ops : Fields) (b c : RangeBounds)
      → count_ops is_lower ops ≤ 1
      → count_ops is_upper ops ≤ 1
      → read_bounds times ops b ≡ ok c
      → in_range c ts ≡ true
      → ops_hold times ts ops ≡ true
  bounds_kept ts no_fields b c l u h k = refl
  bounds_kept ts (field op value ops) b c l u h k =
      let time = parse_time_millis times value in
      let (m, first, rest) = bind_ok (set_bound op time b) (read_bounds times ops) c h in
      let (low, high) = both (above c.lower ts) (below c.upper ts) k in
      let round = set_bound-Round ts b m op time first in
      let here =
        Round-holds round
          (λ e. rw (sym (kept_lower ops m c (last_one (is_lower op) _ l e) rest)) low)
          (λ e. rw (sym (kept_upper ops m c (last_one (is_upper op) _ u e) rest)) high) in
      rw here (bounds_kept ts ops m c (omega arith) (omega arith) rest k)
    where
      last_one : (p : Bool) (n : ℕ) → (if p then 1 else 0) + n ≤ 1 → p ≡ true → n ≡ 0
      last_one true n h e = omega arith
      last_one false n h e = absurd (grind arith)
