-- ===== src/Base/Maps.antt =====
-- `BTreeMap<u64, V>` as an association list in ascending key order.
use Prim.Native.Nat.{ℕ, suc, ◌+◌, ◌≤◌, ◌<◌}
use mathlib.Core.Path.{◌≡◌, refl}
use mathlib.Core.Bool.{Bool, true, false}
use mathlib.Core.Option
use mathlib.Core.Option.{Option, none, some}
use mathlib.Core.List.{List, [], ◌∷◌, ◌++◌, foldl}
use native.Mathlib.Omega.{arith}
use r_search.Base.Tests.{ltb, ◌==◌, if◌then◌else◌}

abbrev pub TreeMap {ℓ} : Type ℓ → Type ℓ
TreeMap V = List (ℕ × V)

module _ {ℓ} {V : Type ℓ} where
  abbrev pub lookup : ℕ → TreeMap V → Option V
  lookup k [] = none
  lookup k ((j, v) ∷ m) = if j == k then some v else lookup k m

  -- `insert`: a present key keeps its place, an absent one goes in order.
  abbrev pub insert : ℕ → V → TreeMap V → TreeMap V
  insert k v [] = (k, v) ∷ []
  insert k v ((j, w) ∷ m) =
      let rest = insert k v m in
      if ltb k j then (k, v) ∷ (j, w) ∷ m else if j == k then (k, v) ∷ m else (j, w) ∷ rest

  abbrev pub remove : ℕ → TreeMap V → TreeMap V
  remove k [] = []
  remove k ((j, v) ∷ m) = let rest = remove k m in if j == k then rest else (j, v) ∷ rest

  -- `get_mut(k)` followed by a write through the reference.
  abbrev pub modify : ℕ → (V → V) → TreeMap V → TreeMap V
  modify k f [] = []
  modify k f ((j, v) ∷ m) =
      let rest = modify k f m in if j == k then (j, f v) ∷ rest else (j, v) ∷ rest

  pub lookup-insert :
      (k j : ℕ) (v : V) (m : TreeMap V)
      → lookup j (insert k v m) ≡ (if k == j then some v else lookup j m)
  lookup-insert k j v [] = refl
  lookup-insert k j v ((i, w) ∷ m) = ground (arith, lookup-insert k j v m)

  pub lookup-remove :
      (k j : ℕ) (m : TreeMap V) → lookup j (remove k m) ≡ (if k == j then none else lookup j m)
  lookup-remove k j [] = ground arith
  lookup-remove k j ((i, w) ∷ m) = ground (arith, lookup-remove k j m)

  pub lookup-modify :
      (k j : ℕ) (f : V → V) (m : TreeMap V)
      → lookup j (modify k f m) ≡ (if k == j then Option.map f (lookup j m) else lookup j m)
  lookup-modify k j f [] = ground arith
  lookup-modify k j f ((i, w) ∷ m) = ground (arith, lookup-modify k j f m)

  -- The keys ascend from `lo` on and stay below `hi`.
  abbrev pub Keys : ℕ → ℕ → TreeMap V → Type 0
  Keys lo hi [] = Unit
  Keys lo hi ((k, v) ∷ m) = (lo ≤ k) × (k < hi) × Keys (suc k) hi m

  pub Keys-mono :
      (lo lo' hi hi' : ℕ) (m : TreeMap V) → lo' ≤ lo → hi ≤ hi' → Keys lo hi m → Keys lo' hi' m
  Keys-mono lo lo' hi hi' [] h k s = tt
  Keys-mono lo lo' hi hi' ((i, w) ∷ m) h k (low, high, s) =
      (omega arith, omega arith, Keys-mono (suc i) (suc i) hi hi' m (omega arith) k s)

  pub Keys-insert :
      (lo hi k : ℕ) (v : V) (m : TreeMap V)
      → lo ≤ k
      → k < hi
      → Keys lo hi m
      → Keys lo hi (insert k v m)
  Keys-insert lo hi k v [] h g s = (h, g, tt)
  Keys-insert lo hi k v ((i, w) ∷ m) h g (low, high, s) =
      ground (arith, Keys-insert (suc i) hi k v m, Keys-mono (suc i) (suc k) hi hi m)

  pub Keys-modify :
      (lo hi k : ℕ) (f : V → V) (m : TreeMap V) → Keys lo hi m → Keys lo hi (modify k f m)
  Keys-modify lo hi k f [] s = tt
  Keys-modify lo hi k f ((i, w) ∷ m) (low, high, s) = ground (arith, Keys-modify (suc i) hi k f m s)

  pub Keys-remove : (lo hi k : ℕ) (m : TreeMap V) → Keys lo hi m → Keys lo hi (remove k m)
  Keys-remove lo hi k [] s = tt
  Keys-remove lo hi k ((i, w) ∷ m) (low, high, s) =
      ground (arith, Keys-remove (suc i) hi k m s, Keys-mono (suc i) lo hi hi (remove k m))

  pub lookup_below : (j lo hi : ℕ) (m : TreeMap V) → j < lo → Keys lo hi m → lookup j m ≡ none
  lookup_below j lo hi [] h s = refl
  lookup_below j lo hi ((i, w) ∷ m) h (low, high, s) =
      ground (arith, lookup_below j (suc i) hi m (omega arith) s)

  pub lookup_above : (j lo hi : ℕ) (m : TreeMap V) → hi ≤ j → Keys lo hi m → lookup j m ≡ none
  lookup_above j lo hi [] h s = refl
  lookup_above j lo hi ((i, w) ∷ m) h (low, high, s) =
      ground (arith, lookup_above j (suc i) hi m h s)

-- How often `a` stands in a list.
abbrev pub count : ℕ → List ℕ → ℕ
count a [] = 0
count a (b ∷ bs) = let rest = count a bs in if b == a then suc rest else rest

pub count-append : (a : ℕ) (xs ys : List ℕ) → count a (xs ++ ys) ≡ count a xs + count a ys
count-append a [] ys = omega arith
count-append a (x ∷ xs) ys = ground (arith, count-append a xs ys)

abbrev pub contains : ℕ → List ℕ → Bool
contains a [] = false
contains a (b ∷ bs) = let rest = contains a bs in if b == a then true else rest

module _ {ℓ} {V : Type ℓ} where
  abbrev pub remove_all : TreeMap V → List ℕ → TreeMap V
  remove_all = foldl (λ m k. remove k m)

  pub lookup-remove_all :
      (j : ℕ) (ks : List ℕ) (m : TreeMap V)
      → lookup j (remove_all m ks) ≡ (if contains j ks then none else lookup j m)
  lookup-remove_all j [] m = refl
  lookup-remove_all j (k ∷ ks) m =
      rw (lookup-remove_all j ks (remove k m)) (ground (arith, lookup-remove k j m))

  pub Keys-remove_all :
      (lo hi : ℕ) (ks : List ℕ) (m : TreeMap V) → Keys lo hi m → Keys lo hi (remove_all m ks)
  Keys-remove_all lo hi [] m s = s
  Keys-remove_all lo hi (k ∷ ks) m s =
      Keys-remove_all lo hi ks (remove k m) (Keys-remove lo hi k m s)

pub contains-append :
    (a : ℕ) (xs ys : List ℕ)
    → contains a (xs ++ ys) ≡ (if contains a xs then true else contains a ys)
contains-append a [] ys = refl
contains-append a (x ∷ xs) ys = ground (arith, contains-append a xs ys)
