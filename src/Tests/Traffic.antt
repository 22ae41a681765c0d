-- ===== src/Tests/Traffic.antt =====
-- A peer whose interface restarts once, and a fold over a user and a peer that nobody has.
use angry_box.Model.Base.{Counters}
use angry_box.Prelude.{or_else, String, ◌≡◌, refl, [], ◌∷◌, true, List}
use angry_box.Model.Panel.{User}
use angry_box.Store.{Disk, holds, new_store_file, update, query, ok}
use angry_box.Store.Users.{list_users, save_user, get_user}
use angry_box.Traffic.{Folding, fold_awg_traffic, last_of}
use angry_box.Traffic.Snapshot.{latest, fold_awg_traffic-last_of}
use angry_box.Samples.{user, blank_metrics}
use angry_box.Model.Panel.{NodeMetrics}

traffic : Unit {0}
unfolding fold_awg_traffic list_users save_user get_user update query
traffic = tt

abbrev peer : User
peer = record (user "u") { awg_public_key = "k"; awg_rx_bytes = 5; created_at = 1 }

abbrev disk : Disk
disk = record {
  content = holds (record new_store_file { users = peer ∷ [] });
  writable = λ sf. true;
}

abbrev current : List (String × Counters)
current = ("x", (3, 3)) ∷ ("k", (7, 2)) ∷ []

abbrev before : NodeMetrics
before = record blank_metrics { awg_peer_transfer = ("k", (4, 2)) ∷ [] }

abbrev folding : Folding
folding = fold_awg_traffic (λ bytes nanoseconds. bytes) 9 current before disk

fold_tests :
    (folding.updated ≡ 1)
    × (folding.transfer ≡ ("k", (7, 2)) ∷ ("x", (3, 3)) ∷ [])
    × (get_user "u" folding.disk ≡ ok (record peer { awg_rx_bytes = 8; awg_traffic_at = 9 }))
unfolding traffic
fold_tests = (refl, refl, refl)

readable : list_users disk ≡ ok (peer ∷ [])
unfolding traffic
readable = refl

fold_awg_traffic-last_of_example :
    last_of "k" folding.transfer
    ≡ or_else (latest "k" current) (last_of "k" before.awg_peer_transfer)
fold_awg_traffic-last_of_example =
    fold_awg_traffic-last_of (λ bytes nanoseconds. bytes) 9 current before disk (peer ∷ []) "k"
      readable
