-- ===== src/Split/Directory/Read/Slots.antt =====
-- The slots of one read: what a pass over the cache and a fetch put into them.
use r_search.Base.{
  ℕ, zero, suc, ◌+◌, ◌-◌, ◌≤◌, ◌<◌, ◌≡◌, refl, sym, ap, ◌∙◌, inl, inr, Bool, ◌&&◌, List, [], ◌∷◌,
  none, some, arith, leb, Bool-cases, All, length, filter,
}
use r_search.Split.Directory.{Bytes}
use r_search.Split.Directory.Fetch.{block, AreBlocks}
use r_search.Split.Directory.Read.{Slots, empty_slots, set_slot, place, unwrap_all}
use r_search.Split.Directory.Read.Assemble.{BlocksFrom}

-- The indices of the empty slots.
abbrev pub holes : ℕ → Slots → List ℕ
holes index [] = []
holes index (none ∷ slots) = index ∷ holes (index + 1) slots
holes index (some b ∷ slots) = holes (index + 1) slots

abbrev pub TrueSlots : Bytes → ℕ → ℕ → Slots → Type 0
TrueSlots file block_size index [] = Unit
TrueSlots file block_size index (none ∷ slots) = TrueSlots file block_size (index + 1) slots
TrueSlots file block_size index (some b ∷ slots) =
    (b ≡ block file block_size index) × TrueSlots file block_size (index + 1) slots

pub length-empty_slots : (n : ℕ) → length (empty_slots n) ≡ n
length-empty_slots zero = refl
length-empty_slots (suc n) = ap suc (length-empty_slots n)

pub length-set_slot :
    (i : ℕ) (b : Bytes) (slots : Slots) → length (set_slot i b slots) ≡ length slots
length-set_slot i b [] = refl
length-set_slot zero b (o ∷ slots) = refl
length-set_slot (suc i) b (o ∷ slots) = ap suc (length-set_slot i b slots)

pub length-place :
    (first last : ℕ) (ps : List (ℕ × Bytes)) (slots : Slots)
    → length (place first last ps slots) ≡ length slots
unfolding place
length-place first last [] slots = refl
length-place first last ((i, b) ∷ ps) slots = elim (Bool-cases (leb first i && leb i last)) [
  | inl e ↦ rw e (
      length-place first last ps (set_slot (i - first) b slots)
      ∙ length-set_slot (i - first) b slots)
  | inr e ↦ rw e (length-place first last ps slots)
]

module _ (file : Bytes) (block_size : ℕ) where
  pub empty_slots-True : (index n : ℕ) → TrueSlots file block_size index (empty_slots n)
  empty_slots-True index zero = tt
  empty_slots-True index (suc n) = empty_slots-True (index + 1) n

  set_slot-True :
      (index i j : ℕ) (b : Bytes) (slots : Slots)
      → j ≡ index + i
      → b ≡ block file block_size j
      → TrueSlots file block_size index slots
      → TrueSlots file block_size index (set_slot i b slots)
  set_slot-True index i j b [] e h t = t
  set_slot-True index zero j b (none ∷ slots) e h t =
      let e' : j ≡ index = omega arith in (rw (sym e') h, t)
  set_slot-True index zero j b (some c ∷ slots) e h (u, t) =
      let e' : j ≡ index = omega arith in (rw (sym e') h, t)
  set_slot-True index (suc i) j b (none ∷ slots) e h t =
      set_slot-True (index + 1) i j b slots (omega arith) h t
  set_slot-True index (suc i) j b (some c ∷ slots) e h (u, t) =
      (u, set_slot-True (index + 1) i j b slots (omega arith) h t)

  pub place-True :
      (first last : ℕ) (ps : List (ℕ × Bytes)) (slots : Slots)
      → AreBlocks file block_size ps
      → TrueSlots file block_size first slots
      → TrueSlots file block_size first (place first last ps slots)
  unfolding place
  place-True first last [] slots a t = t
  place-True first last ((i, b) ∷ ps) slots (h, a) t =
      elim (Bool-cases (leb first i && leb i last)) [
        | inl e ↦ rw e (
            place-True first last ps (set_slot (i - first) b slots) a
              (set_slot-True first (i - first) i b slots (ground arith) h t))
        | inr e ↦ rw e (place-True first last ps slots a t)
      ]

  -- Full slots unwrap to the blocks in order.
  pub unwrap_all-Blocks :
      (index : ℕ) (slots : Slots)
      → TrueSlots file block_size index slots
      → holes index slots ≡ []
      → (bs : List Bytes) × (unwrap_all slots ≡ some bs)
        × BlocksFrom file block_size index bs
        × (length bs ≡ length slots)
  unwrap_all-Blocks index [] t h = ([], refl, tt, refl)
  unwrap_all-Blocks index (none ∷ slots) t h = absurd (grind arith)
  unwrap_all-Blocks index (some b ∷ slots) (e, t) h =
      let (bs, u, blocks, n) = unwrap_all-Blocks (index + 1) slots t h in
      (b ∷ bs, rw u, (e, blocks), ap suc n)

-- The holes lie in the range that the slots stand for.
pub holes-below :
    (index total : ℕ) (slots : Slots)
    → index + length slots ≤ total
    → All (λ i. i < total) (holes index slots)
holes-below index total [] h = tt
holes-below index total (none ∷ slots) h =
    (omega arith, holes-below (index + 1) total slots (omega arith))
holes-below index total (some b ∷ slots) h = holes-below (index + 1) total slots (omega arith)

pub All-filter :
    (total : ℕ) (p : ℕ → Bool) (is : List ℕ)
    → All (λ i. i < total) is
    → All (λ i. i < total) (filter p is)
All-filter total p [] h = tt
All-filter total p (i ∷ is) (h, hs) = elim (Bool-cases (p i)) [
  | inl e ↦ rw (e, All) (h, All-filter total p is hs)
  | inr e ↦ rw (e, All) (All-filter total p is hs)
]
