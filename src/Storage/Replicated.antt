-- ===== src/Storage/Replicated.antt =====
-- The replicated store of crates/rsearch-storage/src/replicated.rs, at one key. The local root, the
-- placement tracker and the peers' HTTP client answer as an environment says.
pub mod Quorum
pub mod Reads
use r_search.Base.{
  ℕ, zero, suc, ◌+◌, ◌-◌, ◌≤◌, ◌<◌, ◌≡◌, min, max, Bool, true, false, not, List, [], ◌∷◌, ◌++◌,
  Option, none, some, ltb, leb, ◌==◌, if◌then◌else◌, length, filter, TreeMap, lookup, insert,
  remove,
}

abbrev pub Bytes : Type 0
Bytes = List ℕ

pub record PeerNode : Type 0 where
  pub id : ℕ
  pub address : Option ℕ

-- A peer that can be reached.
pub record Target : Type 0 where
  pub id : ℕ
  pub address : ℕ

pub data StorageError : Type 0 where
  not_found : StorageError
  backend : ℕ → StorageError

pub data StorageResult (A : Type 0) : Type 0 where
  ok : A → StorageResult A
  err : StorageError → StorageResult A

-- How a spawned push ends: with its answer, or with a task that failed.
pub data Push : Type 0 where
  landed failed join_error : Push

-- What the parts that the store calls answer.
pub record Env : Type 0 where
  pub put_local : StorageResult Unit
  pub size_local : StorageResult ℕ
  pub get_local : StorageResult Bytes
  pub delete_local : StorageResult Unit
  pub record_row : StorageResult Unit
  pub remove_rows : StorageResult Unit
  pub size_row : StorageResult (Option ℕ)
  pub write_targets : StorageResult (List PeerNode)
  pub live_holders : StorageResult (List PeerNode)
  -- The pushes in the order in which they end.
  pub ended : List Target → List (Target × Push)
  -- The peer at an address.
  pub client_get : ℕ → StorageResult Bytes
  pub client_delete : ℕ → StorageResult Unit

-- The copies of the object and its placement rows.
pub record Cluster : Type 0 where
  pub local : Option Bytes
  pub peers : TreeMap Bytes
  pub rows : List ℕ

pub record ReplicatedStorage : Type 0 where
  pub node_id : ℕ
  pub replication_factor : ℕ
  pub write_quorum : ℕ

abbrev pub quorum_of : ReplicatedStorage → ℕ
quorum_of self = max (min self.write_quorum self.replication_factor) 1

-- The pushes are spawned for the targets with an address.
abbrev pub spawned : List PeerNode → List Target
spawned [] = []
spawned (target ∷ targets) = elim target.address [
  | none ↦ spawned targets
  | some address ↦ record { id = target.id; address = address } ∷ spawned targets
]

-- A push that lands leaves the copy on its peer, whose handler records the row.
abbrev pub land : Bytes → Target → Cluster → Cluster
land object peer c = record c {
  peers = insert peer.id object c.peers;
  rows = c.rows ++ peer.id ∷ [];
}

-- The loop that awaits pushes until the quorum holds: copies, the peers pushed to, the pushes that
-- still run, and the cluster.
unfoldable pub await_quorum :
    Bytes
    → ℕ
    → ℕ
    → List Target
    → List (Target × Push)
    → Cluster
    → ℕ × List Target × List (Target × Push) × Cluster
await_quorum object quorum copies pushed [] c = (copies, pushed, [], c)
await_quorum object quorum copies pushed ((peer, push) ∷ pushes) c =
    let count : ℕ = elim push [ landed ↦ copies + 1 | _ ↦ copies ] in
    let done : List Target = elim push [ landed ↦ pushed ++ peer ∷ [] | _ ↦ pushed ] in
    let after : Cluster = elim push [ landed ↦ land object peer c | _ ↦ c ] in
    let further = await_quorum object quorum count done pushes after in
    if ltb copies quorum then further else (copies, pushed, (peer, push) ∷ pushes, c)

abbrev pub drop_local : Env → Cluster → Cluster
drop_local env c = elim env.delete_local [ ok u ↦ record c { local = none } | err e ↦ c ]

-- A peer's DELETE handler drops the file and its row.
abbrev pub drop_peer : Env → Target → Cluster → Cluster
drop_peer env peer c = elim (env.client_delete peer.address) [
  | ok u ↦ record c {
    peers = remove peer.id c.peers;
    rows = filter (λ n. not (n == peer.id)) c.rows;
  }
  | err e ↦ c
]

abbrev pub drop_peers : Env → List Target → Cluster → Cluster
drop_peers env [] c = c
drop_peers env (peer ∷ peers) c = drop_peers env peers (drop_peer env peer c)

abbrev pub drop_rows : Env → Cluster → Cluster
drop_rows env c = elim env.remove_rows [ ok u ↦ record c { rows = [] } | err e ↦ c ]

-- The result, the pushes that still run, and the cluster.
unfoldable pub fan_out :
    ReplicatedStorage → Env → Bytes → Cluster → StorageResult Unit × List (Target × Push) × Cluster
fan_out self env object c =
    let needed = self.replication_factor - 1 in
    let quorum = quorum_of self in
    let targets : StorageResult (List PeerNode) =
      if needed == 0 then ok [] else env.write_targets in
    elim targets [
      | err e ↦ (err e, [], c)
      | ok peers ↦
          let (copies, pushed, running, c1) =
            await_quorum object quorum 1 [] (env.ended (spawned peers)) c in
          if leb quorum copies
          then (ok tt, running, c1)
          else (err (backend copies), [], drop_rows env (drop_peers env pushed (drop_local env c1)))
    ]

abbrev pub add_row : ReplicatedStorage → Cluster → Cluster
add_row self c = record c { rows = c.rows ++ self.node_id ∷ [] }

unfoldable pub put :
    ReplicatedStorage → Env → Bytes → Cluster → StorageResult Unit × List (Target × Push) × Cluster
put self env object c = elim env.put_local [
  | err e ↦ (err e, [], c)
  | ok u ↦
      let c1 = record c { local = some object } in
      elim env.record_row [
        | err e ↦ (err e, [], drop_local env c1)
        | ok v ↦ fan_out self env object (add_row self c1)
      ]
]

unfoldable pub put_file :
    ReplicatedStorage → Env → Bytes → Cluster → StorageResult Unit × List (Target × Push) × Cluster
put_file self env object c = elim env.put_local [
  | err e ↦ (err e, [], c)
  | ok u ↦
      let c1 = record c { local = some object } in
      elim env.size_local [
        | err e ↦ (err e, [], c1)
        | ok size ↦ elim env.record_row [
          | err e ↦ (err e, [], drop_local env c1)
          | ok v ↦ fan_out self env object (add_row self c1)
        ]
      ]
]

abbrev pub remote_holders : ReplicatedStorage → Env → StorageResult (List PeerNode)
remote_holders self env = elim env.live_holders [
  | err e ↦ err e
  | ok holders ↦ ok (filter (λ n. not (n.id == self.node_id)) holders)
]

-- The loop over the holders, with the last error.
unfoldable pub try_holders : Env → StorageError → List PeerNode → StorageResult Bytes
try_holders env last [] = err last
try_holders env last (holder ∷ holders) = elim holder.address [
  | none ↦ try_holders env last holders
  | some address ↦
      let answer = env.client_get address in
      elim answer [ ok bytes ↦ ok bytes | err e ↦ try_holders env e holders ]
]

-- `get`, and `get_range` with ranged reads as the environment's.
unfoldable pub get : ReplicatedStorage → Env → StorageResult Bytes
get self env = elim env.get_local [
  | ok bytes ↦ ok bytes
  | err (backend m) ↦ err (backend m)
  | err not_found ↦ elim (remote_holders self env) [
    | err e ↦ err e
    | ok holders ↦ try_holders env not_found holders
  ]
]

unfoldable pub size : ReplicatedStorage → Env → StorageResult ℕ
size self env = elim env.size_local [
  | ok n ↦ ok n
  | err (backend m) ↦ err (backend m)
  | err not_found ↦ elim env.size_row [
    | err e ↦ err e
    | ok (some n) ↦ ok n
    | ok none ↦ err not_found
  ]
]

unfoldable pub delete : ReplicatedStorage → Env → Cluster → StorageResult Unit × Cluster
delete self env c = elim (remote_holders self env) [
  | err e ↦ (err e, c)
  | ok holders ↦
      let c1 = drop_peers env (spawned holders) c in
      elim env.delete_local [
        | err e ↦ (err e, c1)
        | ok u ↦
            let c2 = record c1 { local = none } in
            elim env.remove_rows [ err e ↦ (err e, c2) | ok v ↦ (ok tt, record c2 { rows = [] }) ]
      ]
]
