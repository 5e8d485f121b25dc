-- ===== src/Exclusions/Walk.antt =====
-- The walk over a sorted list of documents: SortedDocSet. The number that stands for the end is a
-- parameter.
use r_search.Base.{
  ℕ, zero, suc, ◌+◌, ◌-◌, ◌≤◌, ◌<◌, ◌≡◌, refl, sym, ap, ◌∙◌, min, Bool, true, false, List, [], ◌∷◌,
  Option, none, some, arith, ltb, ◌==◌, if◌then◌else◌, Bool-cases, Option-cases, inl, inr, length,
  get_elem?, drop, drop-drop, All,
}
use r_search.Exclusions.Growth.{Strict}

pub record SortedDocSet : Type 0 where
  pub docs : List ℕ
  pub cursor : ℕ

abbrev pub walk_of : List ℕ → SortedDocSet
walk_of docs = record { docs = docs; cursor = 0 }

abbrev pub or_end : ℕ → Option ℕ → ℕ
or_end terminated none = terminated
or_end terminated (some d) = d

module _ (terminated : ℕ) where
  abbrev pub doc : SortedDocSet → ℕ
  doc w = or_end terminated (get_elem? w.docs w.cursor)

  abbrev pub advance : SortedDocSet → SortedDocSet
  advance w = record w { cursor = min (w.cursor + 1) (length w.docs) }

-- The first place where the test fails, on a list where it fails from some place on.
abbrev pub partition_point : (ℕ → Bool) → List ℕ → ℕ
partition_point p [] = 0
partition_point p (d ∷ ds) = let rest = partition_point p ds in if p d then suc rest else 0

abbrev pub seek : SortedDocSet → ℕ → SortedDocSet
seek w target = record w {
  cursor =
      w.cursor + partition_point (λ d. ltb d target) (drop (min w.cursor (length w.docs)) w.docs);
}

abbrev pub size_hint : SortedDocSet → ℕ
size_hint w = length w.docs - w.cursor

-- The documents that the walk has before it.
abbrev pub ahead : SortedDocSet → List ℕ
ahead w = drop w.cursor w.docs

-- Those from the target on.
abbrev pub from_target : ℕ → List ℕ → List ℕ
from_target target [] = []
from_target target (d ∷ ds) =
    let rest = from_target target ds in if ltb d target then rest else d ∷ rest

drop-Strict : (n : ℕ) (docs : List ℕ) → Strict docs → Strict (drop n docs)
drop-Strict zero docs s = s
drop-Strict (suc n) [] s = tt
drop-Strict (suc n) (d ∷ docs) (h, s) = drop-Strict n docs s

from_target-All : (target : ℕ) (ds : List ℕ) → All (λ e. target ≤ e) ds → from_target target ds ≡ ds
from_target-All target [] h = refl
from_target-All target (d ∷ ds) (h, hs) = ground (arith, from_target-All target ds hs)

weaken : (target d : ℕ) (ds : List ℕ) → target ≤ d → All (λ e. d < e) ds → All (λ e. target ≤ e) ds
weaken target d [] h all = tt
weaken target d (e ∷ ds) h (k, all) = (omega arith, weaken target d ds h all)

drop-partition_point :
    (target : ℕ) (ds : List ℕ)
    → Strict ds
    → drop (partition_point (λ d. ltb d target) ds) ds ≡ from_target target ds
drop-partition_point target [] s = refl
drop-partition_point target (d ∷ ds) (h, s) = elim (Bool-cases (ltb d target)) [
  | inl e ↦ rw e (drop-partition_point target ds s)
  | inr e ↦
      rw e
        (ap (λ es. d ∷ es) (sym (from_target-All target ds (weaken target d ds (ground arith) h))))
]

-- From a cursor within a strictly ascending list, seek leaves ahead exactly the documents ahead
-- that are not below the target.
pub seek_lem :
    (w : SortedDocSet) (target : ℕ)
    → Strict w.docs
    → w.cursor ≤ length w.docs
    → ahead (seek w target) ≡ from_target target (ahead w)
seek_lem w target s h =
    let here : min w.cursor (length w.docs) ≡ w.cursor = omega arith in
    rw here (
      sym (drop-drop w.cursor _ w.docs)
      ∙ drop-partition_point target (ahead w) (drop-Strict w.cursor w.docs s))

-- The documents that `advance` gives, until the end.
abbrev pub drain : ℕ → ℕ → SortedDocSet → List ℕ
drain terminated zero w = []
drain terminated (suc fuel) w =
    let rest = drain terminated fuel (advance terminated w) in
    if doc terminated w == terminated then [] else doc terminated w ∷ rest

drop-none : (n : ℕ) (docs : List ℕ) → get_elem? docs n ≡ none → drop n docs ≡ []
drop-none zero [] e = refl
drop-none zero (d ∷ docs) e = absurd (grind arith)
drop-none (suc n) [] e = refl
drop-none (suc n) (d ∷ docs) e = drop-none n docs e

drop-some :
    (bound n : ℕ) (docs : List ℕ) (d : ℕ)
    → All (λ e. e < bound) docs
    → get_elem? docs n ≡ some d
    → (d < bound) × ((n < length docs) × (drop n docs ≡ d ∷ drop (suc n) docs))
drop-some bound n [] d h e = absurd (grind arith)
drop-some bound zero (c ∷ docs) d (h, hs) e =
    let same : c ≡ d = grind arith in (omega arith, (omega arith, ap (λ x. x ∷ docs) same))
drop-some bound (suc n) (c ∷ docs) d (h, hs) e =
    let (below, (inside, rest)) = drop-some bound n docs d hs e in (below, (omega arith, rest))

-- Advancing from a cursor within the list, for documents below the end mark and with fuel for
-- those ahead, gives the documents ahead, each once and in order, and then the end.
pub drain_lem :
    (terminated fuel : ℕ) (w : SortedDocSet)
    → All (λ d. d < terminated) w.docs
    → length w.docs < w.cursor + fuel
    → w.cursor ≤ length w.docs
    → drain terminated fuel w ≡ ahead w
drain_lem terminated zero w h k c = absurd (omega arith)
drain_lem terminated (suc fuel) w h k c = elim (Option-cases (get_elem? w.docs w.cursor)) [
  | inl e ↦
      let over : (terminated == terminated) ≡ true = ground arith in
      rw (e, over) (sym (drop-none w.cursor w.docs e))
  | inr (d, e) ↦
      let (below, (inside, split)) = drop-some terminated w.cursor w.docs d h e in
      let more : (d == terminated) ≡ false = ground arith in
      let step : min (w.cursor + 1) (length w.docs) ≡ suc w.cursor = omega arith in
      rw (e, more)
        (ap (λ es. d ∷ es)
            (drain_lem terminated fuel (advance terminated w) h (omega arith) (omega arith))
          ∙ (ap (λ n. d ∷ drop n w.docs) step ∙ sym split))
]
