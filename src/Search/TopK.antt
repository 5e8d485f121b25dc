-- ===== src/Search/TopK.antt =====
-- A bounded heap and a truncated sort, over any comparison. A binary heap is the list that
-- `into_sorted_vec` returns: `peek` reads its last entry and `pop` drops it.
pub mod Steps
pub mod Merge
pub mod Images
use r_search.Base.{
  ℕ, zero, suc, ◌+◌, ◌≤◌, ◌<◌, ◌≡◌, Bool, true, false, List, [], ◌∷◌, ◌++◌, Option, none, some, ltb,
  if◌then◌else◌, Ordering, is_lt, length, take, All,
}

abbrev pub last {ℓ} : {A : Type ℓ} → List A → Option A
last [] = none
last (x ∷ []) = some x
last (x ∷ y ∷ xs) = last (y ∷ xs)

abbrev pub init {ℓ} : {A : Type ℓ} → List A → List A
init [] = []
init (x ∷ []) = []
init (x ∷ y ∷ xs) = x ∷ init (y ∷ xs)

module _ {A : Type 0} (cmp : A → A → Ordering) where
  -- Into a sorted list, after what is equal.
  unfoldable pub insert_by : A → List A → List A
  insert_by x [] = x ∷ []
  insert_by x (y ∷ ys) =
      let rest = insert_by x ys in if is_lt (cmp x y) then x ∷ y ∷ ys else y ∷ rest

  -- `sort_by`, which is stable.
  abbrev pub insert_all : List A → List A → List A
  insert_all sorted [] = sorted
  insert_all sorted (x ∷ xs) = insert_all (insert_by x sorted) xs

  abbrev pub sort_by : List A → List A
  sort_by = insert_all []

  -- A round of the collection: the entry goes in, or replaces the last one.
  unfoldable pub offer : ℕ → List A → A → List A
  offer limit heap x = if ltb (length heap) limit then insert_by x heap else elim (last heap) [
    | none ↦ heap
    | some top ↦ if is_lt (cmp x top) then insert_by x (init heap) else heap
  ]

  abbrev pub offer_all : ℕ → List A → List A → List A
  offer_all limit heap [] = heap
  offer_all limit heap (x ∷ xs) = offer_all limit (offer limit heap x) xs

  -- No later entry comes before an earlier one.
  abbrev pub Sorted : List A → Type 0
  Sorted [] = Unit
  Sorted (y ∷ ys) = All (λ z. is_lt (cmp z y) ≡ false) ys × Sorted ys
