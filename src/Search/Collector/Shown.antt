-- ===== src/Search/Collector/Shown.antt =====
-- The values of a hit show the keys of its document.
use mathlib.Core.Path.{subst}
use r_search.Base.{
  ℕ, ◌<◌, ◌≡◌, refl, sym, Bool, true, false, List, [], ◌∷◌, map, Option, none, some, arith,
  if◌then◌else◌, Bool-cases, Option-cases, inl, inr, ℤ, Ordering, eq, compare, cmp_ℤ, cmp_Bool,
  length, All,
}
use r_search.Search.Sort.{SortValue, str, float, cmp_values}
use r_search.Search.Column.{
  SegKey, missing_key, float_key, SegAccessor, no_column, str_column, int_column, float_column,
  date_column, bool_column, ip_column, later_max, first_min, pick_from, pick, key_or_missing,
  term_key, TermOrdHit, exact, next, hit_key, key, key_for, materialize,
}
use r_search.Search.Column.Laws.{Sound, Dictionary, DocKey, Shows, own, substituted, Shows-order}
use r_search.Search.Collector.{
  ResolvedSort, order, substitute_key, substitute_keys, or_substitute, keys_of, cmp_keys, same_key,
  is_substitute, or_value, hit_values,
}

module _ {A : Type 0} (P : A → Type 0) (cmp : A → A → Ordering) where
  All-pick_from : (desc : Bool) (a : A) (bs : List A) → P a → All P bs → P (pick_from cmp desc a bs)
  All-pick_from desc a [] p all = p
  All-pick_from true a (b ∷ bs) p (q, all) =
      All-pick_from true (later_max cmp a b) bs (ground (arith, p, q)) all
  All-pick_from false a (b ∷ bs) p (q, all) =
      All-pick_from false (first_min cmp a b) bs (ground (arith, p, q)) all

term_of_pick :
    (col : _) (d : Dictionary col) (os : List ℕ) (desc : Bool)
    → All (λ o. o < d.count) os
    → DocKey (str_column col) d (key_or_missing term_key (pick compare os desc))
term_of_pick col d [] desc all = tt
term_of_pick col d (o ∷ os) desc (p, all) = record {
  index = pick_from compare desc o os;
  odd = refl;
  bound = All-pick_from (λ i. i < d.count) compare desc o os p all;
}

pub key-DocKey :
    (a : SegAccessor) (s : Sound a) (doc : ℕ) (desc : Bool) → DocKey a s (key a doc desc)
unfolding key
key-DocKey no_column s doc desc = tt
key-DocKey (str_column col) d doc desc = term_of_pick col d (col.term_ords doc) desc (d.valid doc)
key-DocKey (int_column col) s doc desc = elim (Option-cases (pick cmp_ℤ (col doc) desc)) [
  | inl e ↦ rw e tt
  | inr (x, e) ↦ rw e tt
]
key-DocKey (float_column col) s doc desc = elim (Option-cases (pick cmp_ℤ (col doc) desc)) [
  | inl e ↦ rw e tt
  | inr (x, e) ↦ rw e tt
]
key-DocKey (date_column col) s doc desc = elim (Option-cases (pick cmp_ℤ (col doc) desc)) [
  | inl e ↦ rw e tt
  | inr (x, e) ↦ rw e tt
]
key-DocKey (bool_column col) s doc desc = elim (Option-cases (pick cmp_Bool (col doc) desc)) [
  | inl e ↦ rw e tt
  | inr (x, e) ↦ rw e tt
]
key-DocKey (ip_column col) s doc desc = elim (Option-cases (pick compare (col doc) desc)) [
  | inl e ↦ rw e tt
  | inr (x, e) ↦ rw e tt
]

module _ (f64_eq : ℤ → ℤ → Bool) where
  -- A float substitute is neither a zero nor no number: `==` finds it alone.
  abbrev pub Plain : Option SortValue → Type 0
  Plain (some (float f)) = (x : ℤ) → f64_eq f x ≡ elim (cmp_ℤ f x) [ eq ↦ true | _ ↦ false ]
  Plain sub = Unit

  abbrev PlainKey : SegKey → Type 0
  PlainKey (float_key f) = (x : ℤ) → f64_eq f x ≡ elim (cmp_ℤ f x) [ eq ↦ true | _ ↦ false ]
  PlainKey k = Unit

  hit-PlainKey : (hit : Option TermOrdHit) → PlainKey (hit_key hit)
  hit-PlainKey none = tt
  hit-PlainKey (some (exact o)) = tt
  hit-PlainKey (some (next o)) = tt

  key_for-PlainKey : (a : SegAccessor) (u : SortValue) → Plain (some u) → PlainKey (key_for a u)
  unfolding key_for
  key_for-PlainKey (str_column col) (str s) h = hit-PlainKey (col.term_ord_or_next s)
  key_for-PlainKey a (str s) h = tt
  key_for-PlainKey a u h = h

  same_key-eq : (j k : SegKey) → PlainKey j → same_key f64_eq j k ≡ true → k ≡ j
  same_key-eq (float_key f) (float_key x) h e = ground (arith, h x)
  same_key-eq j k h e = ground arith

  same_key_refl : (k : SegKey) → PlainKey k → same_key f64_eq k k ≡ true
  same_key_refl (float_key f) h = ground (arith, h f)
  same_key_refl k h = ground arith

  -- The key of a field, and what the hit shows of it.
  field_Shows :
      (a : SegAccessor) (s : Sound a) (sub : Option SortValue) (k : SegKey)
      → Plain sub
      → DocKey a s k
      → Shows a s sub (or_substitute k (substitute_key a sub)) (
          if is_substitute f64_eq (substitute_key a sub) (or_substitute k (substitute_key a sub))
          then or_value sub
          else materialize a (or_substitute k (substitute_key a sub)))
  field_Shows a s none missing_key h d = own missing_key d
  field_Shows a s none k h d = own k d
  field_Shows a s (some u) missing_key h d =
      rw (same_key_refl (key_for a u) (key_for-PlainKey a u h)) (substituted u refl)
  field_Shows a s (some u) k h d = elim (Bool-cases (same_key f64_eq (key_for a u) k)) [
    | inl e ↦
        let same : k ≡ key_for a u = same_key-eq (key_for a u) k (key_for-PlainKey a u h) e in
        rw e (subst (λ j. Shows a s (some u) j u) (sym same) (substituted u refl))
    | inr e ↦ rw e (own k d)
  ]

module _ (as_f64 : ℤ → ℤ) (f64_eq : ℤ → ℤ → Bool) where
  -- Two documents compare by their keys as their hits by the values shown.
  pub shown_order :
      (accessors : List SegAccessor) (sorts : List ResolvedSort) (d e : ℕ)
      → All Sound accessors
      → All (λ sort. Plain f64_eq sort.substitute) sorts
      → length accessors ≡ length sorts
      → cmp_keys as_f64
          (map order sorts)
          (keys_of accessors sorts (substitute_keys accessors sorts) d)
          (keys_of accessors sorts (substitute_keys accessors sorts) e)
        ≡ cmp_values as_f64
            (map order sorts)
            (hit_values f64_eq
              (keys_of accessors sorts (substitute_keys accessors sorts) d)
              accessors
              sorts
              (substitute_keys accessors sorts))
            (hit_values f64_eq
              (keys_of accessors sorts (substitute_keys accessors sorts) e)
              accessors
              sorts
              (substitute_keys accessors sorts))
  unfolding keys_of hit_values
  shown_order [] [] d e s p h = refl
  shown_order [] (sort ∷ sorts) d e s p h = absurd (omega arith)
  shown_order (a ∷ accessors) [] d e s p h = absurd (omega arith)
  shown_order (a ∷ accessors) (sort ∷ sorts) d e (s, ss) (p, ps) h =
      rw
        (
          shown_order accessors sorts d e ss ps (omega arith),
          Shows-order as_f64 a s sort.substitute _ _ _ _ sort.null_is_max
              (field_Shows f64_eq a s sort.substitute (key a d sort.use_max) p
                (key-DocKey a s d sort.use_max))
              (field_Shows f64_eq a s sort.substitute (key a e sort.use_max) p
                (key-DocKey a s e sort.use_max)),
        )
        refl
