-- ===== src/Traffic/Snapshot.antt =====
-- The snapshot of counters that a fold leaves for the next one.
use angry_box.Prelude.{
  ℕ, ◌≡◌, refl, ap, ◌∙◌, String, ◌&&◌, List, [], ◌∷◌, Option, none, some, ◌=s◌, =s_iff, ◌==◌,
  if◌then◌else◌, or_else, arith, Bool-cases, inl, inr,
}
use angry_box.Model.Base.{Time, Counters}
use angry_box.Model.Panel.{User, NodeMetrics}
use angry_box.Store.{Result, ok, err, Disk}
use angry_box.Store.Users.{list_users, save_user}
use angry_box.Traffic.{
  last_of, remember, delta, user_by_pub, counted, Folding, count_saved, credit, fold_peer,
  fold_peers, fold_read, fold_awg_traffic,
}

-- The last of the readings of a peer in one fold.
abbrev pub latest : String → List (String × Counters) → Option Counters
latest peer [] = none
latest peer ((p, c) ∷ cs) = or_else (latest peer cs) (if p =s peer then some c else none)

last_of-remember :
    (k p : String) (c : Counters) (xs : List (String × Counters))
    → last_of k (remember p c xs) ≡ (if p =s k then some c else last_of k xs)
last_of-remember k p c [] = refl
last_of-remember k p c ((q, d) ∷ xs) =
    ground (arith, =s_iff q p, =s_iff q k, =s_iff p k, last_of-remember k p c xs)

transfer-count_saved :
    (f : Folding) (r : Result (Unit {0}) × Disk) → (count_saved f r).transfer ≡ f.transfer
transfer-count_saved f (ok u, d) = refl
transfer-count_saved f (err e, d) = refl

transfer-credit :
    (rate : ℕ → ℕ → ℕ) (now : Time) (d : Counters) (o : Option User) (f : Folding)
    → (credit rate now d o f).transfer ≡ f.transfer
transfer-credit rate now d none f = refl
transfer-credit rate now d (some u) f =
    transfer-count_saved f (save_user (counted rate now d u) now f.disk)

transfer-fold_peer :
    (rate : ℕ → ℕ → ℕ) (now : Time) (users : List User) (p : String) (c : Counters) (f : Folding)
    → (fold_peer rate now users (p, c) f).transfer ≡ remember p c f.transfer
transfer-fold_peer rate now users p c f =
    let d = delta (last_of p f.transfer) c in
    elim (Bool-cases (d.0 == 0 && d.1 == 0)) [
      | inl still ↦ rw still refl
      | inr grown ↦ rw grown (
          transfer-credit rate now d (user_by_pub p users)
            (record f { transfer = remember p c f.transfer }))
    ]

last_of-fold_peers :
    (rate : ℕ → ℕ → ℕ) (now : Time) (users : List User) (cs : List (String × Counters))
    (f : Folding) (k : String)
    → last_of k (fold_peers rate now users cs f).transfer
      ≡ or_else (latest k cs) (last_of k f.transfer)
last_of-fold_peers rate now users [] f k = refl
last_of-fold_peers rate now users ((p, c) ∷ cs) f k =
    let rest = last_of-fold_peers rate now users cs (fold_peer rate now users (p, c) f) k in
    let here =
      ap (last_of k) (transfer-fold_peer rate now users p c f)
      ∙ last_of-remember k p c f.transfer in
    rest ∙ ap (or_else (latest k cs)) here ∙ nested (latest k cs)
  where
    nested :
        (o : Option Counters)
        → or_else o (if p =s k then some c else last_of k f.transfer)
          ≡ or_else (or_else o (if p =s k then some c else none)) (last_of k f.transfer)
    nested (some x) = refl
    nested none = elim (Bool-cases (p =s k)) [ inl same ↦ rw same refl | inr other ↦ rw other refl ]

-- Where the users can be read, the snapshot after a fold, with which the next fold compares, holds for every peer
-- the last of its readings in this fold, or else what it held before, whether or not the user could be saved.
pub fold_awg_traffic-last_of :
    (rate : ℕ → ℕ → ℕ) (now : Time) (current : List (String × Counters)) (m : NodeMetrics)
    (d : Disk) (users : List User) (k : String)
    → list_users d ≡ ok users
    → last_of k (fold_awg_traffic rate now current m d).transfer
      ≡ or_else (latest k current) (last_of k m.awg_peer_transfer)
unfolding fold_awg_traffic
fold_awg_traffic-last_of rate now current m d users k read =
    let start : Folding = record { updated = 0; transfer = m.awg_peer_transfer; disk = d } in
    ap (λ r. last_of k (fold_read rate now r current start).transfer) read
    ∙ last_of-fold_peers rate now users current start k
