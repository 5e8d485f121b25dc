-- ===== src/Storage/Replicated/Reads.antt =====
-- A read of an object that the local root does not hold.
use mathlib.Core.Path.{subst}
use r_search.Base.{
  ℕ, ◌≡◌, refl, sym, ap, ◌⊎◌, inl, inr, not, List, [], ◌∷◌, ◌++◌, none, some, ◌==◌, Option-cases,
  All, filter,
}
use r_search.Storage.Replicated.{
  Bytes, PeerNode, StorageError, not_found, StorageResult, ok, err, Env, ReplicatedStorage,
  try_holders, get,
}

-- A holder without an address, or one whose read fails.
abbrev pub IsUnanswered : Env → PeerNode → Type 0
IsUnanswered env holder =
    (holder.address ≡ none)
    ⊎ ((address : ℕ) × (e : StorageError) × (holder.address ≡ some address)
        × (env.client_get address ≡ err e))

-- The answer of the first holder that answers, or an error when none does.
abbrev pub IsFirstAnswer : Env → List PeerNode → StorageResult Bytes → Type 0
IsFirstAnswer env holders (err e) = All (IsUnanswered env) holders
IsFirstAnswer env holders (ok bytes) =
    (before : List PeerNode) × (holder : PeerNode) × (after : List PeerNode) × (address : ℕ)
    × (holders ≡ before ++ holder ∷ after)
    × All (IsUnanswered env) before
    × (holder.address ≡ some address)
    × (env.client_get address ≡ ok bytes)

result-cases :
    (x : StorageResult Bytes) → ((e : StorageError) × (x ≡ err e)) ⊎ ((b : Bytes) × (x ≡ ok b))
result-cases (err e) = inl (e, refl)
result-cases (ok b) = inr (b, refl)

past :
    (env : Env) (holder : PeerNode) (holders : List PeerNode) (result : StorageResult Bytes)
    → IsUnanswered env holder
    → IsFirstAnswer env holders result
    → IsFirstAnswer env (holder ∷ holders) result
past env holder holders (err e) u f = (u, f)
past env holder holders (ok bytes) u (before, h, after, address, split, all, a, c) =
    (holder ∷ before, h, after, address, ap (λ l. holder ∷ l) split, (u, all), a, c)

no_address :
    (env : Env) (last : StorageError) (holder : PeerNode) (holders : List PeerNode)
    → holder.address ≡ none
    → try_holders env last (holder ∷ holders) ≡ try_holders env last holders
unfolding try_holders
no_address env last holder holders e = rw e refl

answered :
    (env : Env) (last : StorageError) (holder : PeerNode) (holders : List PeerNode) (address : ℕ)
    (answer : StorageResult Bytes)
    → holder.address ≡ some address
    → env.client_get address ≡ answer
    → try_holders env last (holder ∷ holders)
      ≡ elim answer [ ok bytes ↦ ok bytes | err e ↦ try_holders env e holders ]
unfolding try_holders
answered env last holder holders address answer e f = rw (e, f) refl

try_holders-IsFirstAnswer :
    (env : Env) (last : StorageError) (holders : List PeerNode)
    → IsFirstAnswer env holders (try_holders env last holders)
unfolding try_holders
try_holders-IsFirstAnswer env last [] = tt
try_holders-IsFirstAnswer env last (holder ∷ holders) = elim (Option-cases holder.address) [
  | inl e ↦
      subst (IsFirstAnswer env (holder ∷ holders)) (sym (no_address env last holder holders e)) (
        past env holder holders (try_holders env last holders) (inl e)
          (try_holders-IsFirstAnswer env last holders))
  | inr (address, e) ↦ elim (result-cases (env.client_get address)) [
    | inl (x, f) ↦
        subst (IsFirstAnswer env (holder ∷ holders))
          (sym (answered env last holder holders address (err x) e f))
          (past env holder holders (try_holders env x holders) (inr (address, x, e, f))
            (try_holders-IsFirstAnswer env x holders))
    | inr (b, f) ↦
        subst (IsFirstAnswer env (holder ∷ holders))
          (sym (answered env last holder holders address (ok b) e f))
          ([], holder, holders, address, refl, tt, e, f)
  ]
]

-- A read of an object that the local root does not hold answers with the bytes of the first live
-- holder, other than this node and with an address, whose read succeeds, and fails only if none of
-- them succeeds.
pub get-IsFirstAnswer :
    (self : ReplicatedStorage) (env : Env) (holders : List PeerNode)
    → env.get_local ≡ err not_found
    → env.live_holders ≡ ok holders
    → IsFirstAnswer env (filter (λ n. not (n.id == self.node_id)) holders) (get self env)
unfolding get try_holders
get-IsFirstAnswer self env holders e f =
    subst (IsFirstAnswer env (filter (λ n. not (n.id == self.node_id)) holders)) (sym same)
      (try_holders-IsFirstAnswer env not_found (filter (λ n. not (n.id == self.node_id)) holders))
  where
    same :
        get self env ≡ try_holders env not_found (filter (λ n. not (n.id == self.node_id)) holders)
    same = rw (e, f, get) refl
