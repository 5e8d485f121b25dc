-- ===== src/Storage/Tests.antt =====
-- Runs of the replicated store over three peers.
use r_search.Base.{
  ℕ, ◌+◌, ◌≤◌, ◌≡◌, refl, not, List, [], ◌∷◌, none, some, arith, ◌==◌, if◌then◌else◌, All, length,
  take, filter, lookup,
}
use r_search.Storage.Replicated.{
  PeerNode, Target, not_found, backend, ok, err, Push, landed, failed, Env, Cluster,
  ReplicatedStorage, quorum_of, await_quorum, fan_out, put, get, spawned,
}
use r_search.Storage.Replicated.Quorum.{has_peer, landed_of, put_acked, put_rolled_back}
use r_search.Storage.Replicated.Reads.{IsFirstAnswer, get-IsFirstAnswer}

abbrev node : ReplicatedStorage
node = record { node_id = 1; replication_factor = 3; write_quorum = 2 }

abbrev peers : List PeerNode
peers = record { id = 2; address = some 20 } ∷ record { id = 3; address = some 30 } ∷ []

-- The first push fails; whether the second lands is a parameter.
abbrev end_as : Push → List Target → List (Target × Push)
end_as push [] = []
end_as push (a ∷ []) = (a, failed) ∷ []
end_as push (a ∷ b ∷ rest) = (a, failed) ∷ (b, push) ∷ []

abbrev toy : Push → Env
toy push = record {
  put_local = ok tt;
  size_local = ok 1;
  get_local = err not_found;
  delete_local = ok tt;
  record_row = ok tt;
  remove_rows = ok tt;
  size_row = ok none;
  write_targets = ok peers;
  live_holders = ok peers;
  ended = end_as push;
  client_get = λ a. if a == 20 then err (backend 0) else ok (7 ∷ []);
  client_delete = λ a. ok tt;
}

abbrev empty : Cluster
empty = record { local = none; peers = []; rows = [] }

abbrev after_ack : Cluster
after_ack = record { local = some (7 ∷ []); peers = (3, 7 ∷ []) ∷ []; rows = 1 ∷ 3 ∷ [] }

acked : put node (toy landed) (7 ∷ []) empty ≡ (ok tt, [], after_ack)
unfolding put fan_out await_quorum
acked = refl

put_acked_example :
    (after_ack.local ≡ some (7 ∷ []))
    × (n : ℕ) × All
        (λ p. lookup p.id after_ack.peers ≡ some (7 ∷ []))
        (landed_of (take n ((toy landed).ended (spawned peers))))
    × (quorum_of node ≤ 1 + length (landed_of (take n ((toy landed).ended (spawned peers)))))
put_acked_example =
    put_acked node (toy landed) (7 ∷ []) peers empty (omega arith) refl refl refl [] after_ack acked

rolled_back : put node (toy failed) (7 ∷ []) empty ≡ (err (backend 1), [], empty)
unfolding put fan_out await_quorum
rolled_back = refl

put_rolled_back_example :
    (empty.local ≡ none)
    × (empty.rows ≡ [])
    × (end_as failed [] ≡ [])
    × (lookup 3 empty.peers ≡ (
        if has_peer 3 (landed_of ((toy failed).ended (spawned peers)))
        then none
        else lookup 3 empty.peers))
put_rolled_back_example =
    put_rolled_back node (toy failed) (7 ∷ []) peers empty (omega arith) refl refl refl refl refl
      (λ a. refl) (backend 1) [] empty 3 rolled_back

get-IsFirstAnswer_example :
    IsFirstAnswer (toy landed) (filter (λ n. not (n.id == 1)) peers) (get node (toy landed))
get-IsFirstAnswer_example = get-IsFirstAnswer node (toy landed) peers refl refl
