-- ===== src/Storage/Replicated/Quorum.antt =====
-- When a replicated write succeeds, and what it leaves behind when it does not.
use mathlib.Core.Path.{subst}
use r_search.Base.{
  ℕ, suc, ◌+◌, ◌-◌, ◌≤◌, ◌<◌, ◌≡◌, refl, sym, ap, ◌∙◌, ◌⊎◌, inl, inr, Bool, true, false, List, [],
  ◌∷◌, ◌++◌, append_assoc, append-nil, none, some, arith, ltb, leb, ◌==◌, if◌then◌else◌, Bool-cases,
  All, length, take, drop, lookup, lookup-insert, lookup-remove,
}
use r_search.Storage.Replicated.{
  Bytes, PeerNode, Target, StorageError, not_found, backend, StorageResult, ok, err, Push, landed,
  failed, join_error, Env, Cluster, ReplicatedStorage, quorum_of, spawned, land, await_quorum,
  drop_local, drop_peer, drop_peers, drop_rows, fan_out, add_row, put,
}

-- The peers whose push landed.
abbrev pub landed_of : List (Target × Push) → List Target
landed_of [] = []
landed_of ((peer, landed) ∷ pushes) = peer ∷ landed_of pushes
landed_of ((peer, failed) ∷ pushes) = landed_of pushes
landed_of ((peer, join_error) ∷ pushes) = landed_of pushes

abbrev pub land_all : Bytes → List Target → Cluster → Cluster
land_all object [] c = c
land_all object (peer ∷ peers) c = land_all object peers (land object peer c)

-- What the loop has done after the first `n` pushes.
abbrev Awaited :
    Bytes
    → ℕ
    → ℕ
    → List Target
    → List (Target × Push)
    → Cluster
    → (ℕ × List Target × List (Target × Push) × Cluster)
    → Type 0
Awaited object quorum copies pushed pushes c (copies', pushed', running, c') =
    (n : ℕ) × (copies' ≡ copies + length (landed_of (take n pushes)))
    × (pushed' ≡ pushed ++ landed_of (take n pushes))
    × (running ≡ drop n pushes)
    × (c' ≡ land_all object (landed_of (take n pushes)) c)
    × ((quorum ≤ copies') ⊎ (take n pushes ≡ pushes))

longer :
    (quorum copies n : ℕ) (push : Target × Push) (pushes : List (Target × Push))
    → (quorum ≤ copies) ⊎ (take n pushes ≡ pushes)
    → (quorum ≤ copies) ⊎ (take (suc n) (push ∷ pushes) ≡ push ∷ pushes)
longer quorum copies n push pushes (inl h) = inl h
longer quorum copies n push pushes (inr h) = inr (ap (λ t. push ∷ t) h)

await_quorum_lem :
    (object : Bytes) (quorum copies : ℕ) (pushed : List Target) (pushes : List (Target × Push))
    (c : Cluster)
    → Awaited object quorum copies pushed pushes c
        (await_quorum object quorum copies pushed pushes c)
unfolding await_quorum
await_quorum_lem object quorum copies pushed [] c =
    (0, omega arith, sym (append-nil pushed), refl, refl, inr refl)
await_quorum_lem object quorum copies pushed ((peer, landed) ∷ pushes) c =
    elim (Bool-cases (ltb copies quorum)) [
      | inr e ↦ rw e (0, omega arith, sym (append-nil pushed), refl, refl, inl (ground arith))
      | inl e ↦
          let (n, a, b, r, s, q) =
            await_quorum_lem object quorum (copies + 1) (pushed ++ peer ∷ []) pushes
              (land object peer c) in
          rw e (
            suc n,
            omega arith,
            b ∙ append_assoc pushed (peer ∷ []) (landed_of (take n pushes)),
            r,
            s,
            longer quorum _ n (peer, landed) pushes q,
          )
    ]
await_quorum_lem object quorum copies pushed ((peer, failed) ∷ pushes) c =
    elim (Bool-cases (ltb copies quorum)) [
      | inr e ↦ rw e (0, omega arith, sym (append-nil pushed), refl, refl, inl (ground arith))
      | inl e ↦
          let (n, a, b, r, s, q) = await_quorum_lem object quorum copies pushed pushes c in
          rw e (suc n, omega arith, b, r, s, longer quorum _ n (peer, failed) pushes q)
    ]
await_quorum_lem object quorum copies pushed ((peer, join_error) ∷ pushes) c =
    elim (Bool-cases (ltb copies quorum)) [
      | inr e ↦ rw e (0, omega arith, sym (append-nil pushed), refl, refl, inl (ground arith))
      | inl e ↦
          let (n, a, b, r, s, q) = await_quorum_lem object quorum copies pushed pushes c in
          rw e (suc n, omega arith, b, r, s, longer quorum _ n (peer, join_error) pushes q)
    ]

-- A write of `object` that holds the quorum: the local copy and the landed pushes among the first
-- `n` to end, each with its row, are at least the quorum; the other pushes still run.
abbrev pub Acked :
    ReplicatedStorage
    → Env
    → Bytes
    → List PeerNode
    → Cluster
    → List (Target × Push)
    → Cluster
    → Type 0
Acked self env object targets c running c' =
    (n : ℕ) × (running ≡ drop n (env.ended (spawned targets)))
    × (c' ≡ land_all object (landed_of (take n (env.ended (spawned targets)))) c)
    × (quorum_of self ≤ 1 + length (landed_of (take n (env.ended (spawned targets)))))

-- A write that misses it: the pushes have all ended, too few landed, and what they left is dropped.
abbrev pub RolledBack :
    ReplicatedStorage → Env → Bytes → List PeerNode → Cluster → ℕ → Cluster → Type 0
RolledBack self env object targets c copies c' =
    (copies ≡ 1 + length (landed_of (env.ended (spawned targets))))
    × (copies < quorum_of self)
    × (c'
        ≡ drop_rows env (
            drop_peers env (landed_of (env.ended (spawned targets)))
              (drop_local env (land_all object (landed_of (env.ended (spawned targets))) c))))

abbrev pub FannedOut :
    ReplicatedStorage
    → Env
    → Bytes
    → List PeerNode
    → Cluster
    → (StorageResult Unit × List (Target × Push) × Cluster)
    → Type 0
FannedOut self env object targets c (ok u, running, c') = Acked self env object targets c running c'
FannedOut self env object targets c (err not_found, running, c') = ⊥
FannedOut self env object targets c (err (backend copies), running, c') =
    (running ≡ []) × RolledBack self env object targets c copies c'

fan_out-FannedOut :
    (self : ReplicatedStorage) (env : Env) (object : Bytes) (targets : List PeerNode) (c : Cluster)
    → env.write_targets ≡ ok targets
    → 1 < self.replication_factor
    → FannedOut self env object targets c (fan_out self env object c)
unfolding fan_out
fan_out-FannedOut self env object targets c h f =
    let few : (self.replication_factor - 1 == 0) ≡ false = ground arith in
    let pushes = env.ended (spawned targets) in
    let (n, a, b, r, s, q) = await_quorum_lem object (quorum_of self) 1 [] pushes c in
    elim (Bool-cases
      (leb (quorum_of self) (await_quorum object (quorum_of self) 1 [] pushes c).0)) [
        | inl e ↦ rw (few, h, fan_out, e, FannedOut) (n, r, s, ground arith)
        | inr e ↦
            let all : take n pushes ≡ pushes = elim q [
              | inl k ↦ absurd (ground arith)
              | inr k ↦ k
            ] in
            let copies = await_quorum object (quorum_of self) 1 [] pushes c in
            let landed_all : landed_of (take n pushes) ≡ landed_of pushes = ap landed_of all in
            let count = ap (λ l. 1 + length l) landed_all in
            rw (few, h, fan_out, e, FannedOut)
              (
                refl,
                (
                  a ∙ count,
                  ground arith,
                  ap (λ l. drop_rows env (drop_peers env l (drop_local env copies.3)))
                        (b ∙ landed_all)
                      ∙ ap
                          (λ k.
                            drop_rows env (drop_peers env (landed_of pushes) (drop_local env k)))
                          (s ∙ ap (λ l. land_all object l c) landed_all),
                ),
              )
      ]

-- Whether a peer is in the list.
abbrev pub has_peer : ℕ → List Target → Bool
has_peer id [] = false
has_peer id (peer ∷ peers) = let rest = has_peer id peers in if peer.id == id then true else rest

lookup-land_all :
    (object : Bytes) (id : ℕ) (peers : List Target) (c : Cluster)
    → lookup id (land_all object peers c).peers
      ≡ (if has_peer id peers then some object else lookup id c.peers)
lookup-land_all object id [] c = refl
lookup-land_all object id (peer ∷ peers) c = ground (
  arith,
  lookup-land_all object id peers (land object peer c),
  lookup-insert peer.id id object c.peers,
)

local-land_all :
    (object : Bytes) (peers : List Target) (c : Cluster) → (land_all object peers c).local ≡ c.local
local-land_all object [] c = refl
local-land_all object (peer ∷ peers) c = local-land_all object peers (land object peer c)

All-landed :
    (P : ℕ → Type 0) (peers : List Target)
    → ((id : ℕ) → has_peer id peers ≡ true → P id)
    → All (λ p. P p.id) peers
All-landed P [] f = tt
All-landed P (peer ∷ peers) f =
    (f peer.id (ground arith), All-landed P peers (λ id h. f id (ground arith)))

-- Every copy on a peer of the list is dropped, when the peers answer.
module _ (env : Env) (answers : (address : ℕ) → env.client_delete address ≡ ok tt) where
  drop_peer_lem :
      (id : ℕ) (peer : Target) (c : Cluster)
      → ((drop_peer env peer c).local ≡ c.local)
        × (lookup id (drop_peer env peer c).peers
            ≡ (if peer.id == id then none else lookup id c.peers))
  drop_peer_lem id peer c =
      rw (answers peer.address, drop_peer) (refl, lookup-remove peer.id id c.peers)

  drop_peers_lem :
      (id : ℕ) (peers : List Target) (c : Cluster)
      → ((drop_peers env peers c).local ≡ c.local)
        × (lookup id (drop_peers env peers c).peers
            ≡ (if has_peer id peers then none else lookup id c.peers))
  drop_peers_lem id [] c = (refl, refl)
  drop_peers_lem id (peer ∷ peers) c =
      let (a, b) = drop_peer_lem id peer c in
      let (a', b') = drop_peers_lem id peers (drop_peer env peer c) in
      (a' ∙ a, ground (arith, b, b'))

module _ (self : ReplicatedStorage) (env : Env) (object : Bytes) (targets : List PeerNode)
    (c : Cluster) (many : 1 < self.replication_factor) (found : env.write_targets ≡ ok targets)
    (stored : env.put_local ≡ ok tt) (recorded : env.record_row ≡ ok tt) where
  abbrev written : Cluster
  written = add_row self (record c { local = some object })

  put-FannedOut : FannedOut self env object targets written (put self env object c)
  unfolding put fan_out
  put-FannedOut =
      rw (stored, recorded) (fan_out-FannedOut self env object targets written found many)

  -- With a replication factor above one, a local write and its row that succeed and targets that
  -- are found, an acknowledged put leaves the object in the local root and on every peer whose
  -- push landed among the first n to end, for some n; those pushes and the local copy number at
  -- least the write quorum.
  pub put_acked :
      (running : List (Target × Push)) (c' : Cluster)
      → put self env object c ≡ (ok tt, running, c')
      → (c'.local ≡ some object)
        × (n : ℕ) × All
            (λ p. lookup p.id c'.peers ≡ some object)
            (landed_of (take n (env.ended (spawned targets))))
        × (quorum_of self ≤ 1 + length (landed_of (take n (env.ended (spawned targets)))))
  put_acked running c' e =
      let (n, r, s, q) = subst (FannedOut self env object targets written) e put-FannedOut in
      let pushed = landed_of (take n (env.ended (spawned targets))) in
      (
        ap (λ k. k.local) s ∙ local-land_all object pushed written,
        n,
        All-landed (λ id. lookup id c'.peers ≡ some object) pushed
            (λ id h.
              ap (λ k. lookup id k.peers) s
              ∙ (lookup-land_all object id pushed written ∙ rw h refl)),
        q,
      )

  -- With a replication factor above one, a local write and its row that succeed, targets that are
  -- found and deletes that are answered, a put that misses the write quorum leaves no local copy,
  -- no placement row and no copy on any peer where a push landed; other peers are as before.
  pub put_rolled_back :
      (deleted : env.delete_local ≡ ok tt) (cleared : env.remove_rows ≡ ok tt)
      (answers : (address : ℕ) → env.client_delete address ≡ ok tt) (error : StorageError)
      (running : List (Target × Push)) (c' : Cluster) (id : ℕ)
      → put self env object c ≡ (err error, running, c')
      → (c'.local ≡ none)
        × (c'.rows ≡ [])
        × (running ≡ [])
        × (lookup id c'.peers ≡ (
            if has_peer id (landed_of (env.ended (spawned targets)))
            then none
            else lookup id c.peers))
  put_rolled_back deleted cleared answers not_found running c' id e =
      absurd (subst (FannedOut self env object targets written) e put-FannedOut)
  put_rolled_back deleted cleared answers (backend copies) running c' id e =
      let (r, (n, few, s)) = subst (FannedOut self env object targets written) e put-FannedOut in
      let pushed = landed_of (env.ended (spawned targets)) in
      let (a, b) =
        drop_peers_lem env answers id pushed (drop_local env (land_all object pushed written)) in
      let dropped = drop_peers env pushed (drop_local env (land_all object pushed written)) in
      let end : c' ≡ record dropped { rows = [] } = s ∙ no_rows dropped in
      let gone : drop_local env (land_all object pushed written)
          ≡ record (land_all object pushed written) { local = none } =
        no_local (land_all object pushed written) in
      (
        ap (λ k. k.local) end ∙ (a ∙ ap (λ k. k.local) gone),
        ap (λ k. k.rows) end,
        r,
        ap (λ k. lookup id k.peers) end
            ∙ (b
                ∙ ground (
                  arith,
                  ap (λ k. lookup id k.peers) gone,
                  lookup-land_all object id pushed written,
                )),
      )
    where
      no_rows : (k : Cluster) → drop_rows env k ≡ record k { rows = [] }
      no_rows k = rw (cleared, drop_rows) refl

      no_local : (k : Cluster) → drop_local env k ≡ record k { local = none }
      no_local k = rw (deleted, drop_local) refl
