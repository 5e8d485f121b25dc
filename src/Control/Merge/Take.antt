-- ===== src/Control/Merge/Take.antt =====
-- The prefix that `merge_take` chooses.
use r_search.Base.{
  ℕ, zero, suc, ◌+◌, ◌-◌, ◌≤◌, ◌<◌, ◌≡◌, refl, ◌⊎◌, inl, inr, min, List, [], ◌∷◌, map, Option, none,
  some, arith, leb, Bool-cases, length, take, length-take, take-take, ap,
}
use r_search.Control.Merge.{SplitRecord, i64_max, sum, take_loop, merge_take}

abbrev pub bytes_of : List SplitRecord → ℕ
bytes_of group = sum (map (λ s. s.size_bytes) group)

-- What the loop's answer means from position `i` with `total` summed: the target is reached by the
-- chosen prefix and by no shorter one, or it is not reached.
abbrev Reaches : ℕ → ℕ → ℕ → List SplitRecord → Option ℕ → Type 0
Reaches target i total group none = total + bytes_of group < target
Reaches target i total group (some n) =
    (k : ℕ) × (n ≡ i + suc k)
    × (k < length group)
    × (target ≤ total + bytes_of (take (suc k) group))
    × (total + bytes_of (take k group) < target)

take_loop_lem :
    (target i total : ℕ) (group : List SplitRecord)
    → target ≤ i64_max
    → total < target
    → Reaches target i total group (take_loop target i total group)
unfolding take_loop
take_loop_lem target i total [] h t = omega arith
take_loop_lem target i total (s ∷ group) h t =
    elim (Bool-cases (leb target (min i64_max (total + s.size_bytes)))) [
      | inl e ↦ rw e (0, omega arith, omega arith, ground arith, omega arith)
      | inr e ↦
          let exact : min i64_max (total + s.size_bytes) ≡ total + s.size_bytes = ground arith in
          let more = take_loop_lem target (i + 1) (total + s.size_bytes) group h (ground arith) in
          rw (e, exact) (later (take_loop target (i + 1) (total + s.size_bytes) group) more)
    ]
  where
    later :
        (o : Option ℕ)
        → Reaches target (i + 1) (total + s.size_bytes) group o
        → Reaches target i total (s ∷ group) o
    later none r = omega arith
    later (some n) (k, a, b, c, d) = (suc k, omega arith, omega arith, omega arith, omega arith)

bytes-take_le :
    (i j : ℕ) (group : List SplitRecord) → i ≤ j → bytes_of (take i group) ≤ bytes_of (take j group)
bytes-take_le zero j group h = omega arith
bytes-take_le (suc i) zero group h = absurd (omega arith)
bytes-take_le (suc i) (suc j) [] h = omega arith
bytes-take_le (suc i) (suc j) (s ∷ group) h = omega (arith, bytes-take_le i j group (omega arith))

-- `n` splits are enough: at most `max_group`, none too many for the target, and as many as it needs.
abbrev pub IsTake : List SplitRecord → ℕ → ℕ → ℕ → Type 0
IsTake group target_bytes max_group n =
    (n ≤ min (length group) max_group)
    × (bytes_of (take (n - 1) group) < target_bytes)
    × (target_bytes ≤ bytes_of (take n group) ⊎ (n ≡ min (length group) max_group))

-- For a positive target that an i64 holds, the chosen prefix of a merge group is within the group
-- and max_group, stays below the target without its last split, and reaches the target unless the
-- whole group or max_group splits are chosen.
pub merge_take-IsTake :
    (group : List SplitRecord) (target_bytes max_group : ℕ)
    → 0 < target_bytes
    → target_bytes ≤ i64_max
    → IsTake group target_bytes max_group (merge_take group target_bytes max_group)
unfolding merge_take
merge_take-IsTake group target_bytes max_group p h =
    chosen (take_loop target_bytes 0 0 (take max_group group))
      (take_loop_lem target_bytes 0 0 (take max_group group) h p)
  where
    chosen :
        (o : Option ℕ)
        → Reaches target_bytes 0 0 (take max_group group) o
        → IsTake group target_bytes max_group
            (elim o [ none ↦ min (length group) max_group | some n ↦ n ])
    chosen none r = (
      omega arith,
      omega (
        arith,
        bytes-take_le (min (length group) max_group - 1) max_group group (omega arith),
        r,
      ),
      inr refl,
    )
    chosen (some n) (k, e, room, c, d) =
        let size = length-take max_group group in
        let n' : n ≡ suc k = omega arith in
        let shorter : suc k - 1 ≡ k = omega arith in
        rw (n', shorter)
          (
            omega (arith, size),
            omega (arith, ap bytes_of (take-take k max_group group (omega (arith, size)))),
            inl (
                omega
                  (arith, ap bytes_of (take-take (suc k) max_group group (omega (arith, size))))),
          )
