-- ===== src/Traffic.antt =====
-- internal/chain/awgtraffic.go: the counters of the AWG peers of a node, folded into the totals of the users.
-- A Go map of counters is a list of pairs; bytes are counted without the bound of 64 bits. The rates, which are
-- quotients of floats, are given by `rate`, from the bytes and the nanoseconds.
pub mod Sessions
pub mod Snapshot
use angry_box.Prelude.{
  ℕ, suc, ◌+◌, ◌-◌, String, Bool, true, false, not, ◌&&◌, ◌||◌, List, [], ◌∷◌, ◌++◌, Option, none,
  some, ◌=s◌, ◌==◌, ltb, if◌then◌else◌, or_else,
}
use angry_box.Model.Base.{Time, Counters}
use angry_box.Model.Panel.{User, NodeMetrics}
use angry_box.Store.{Result, ok, err, Disk}
use angry_box.Store.Users.{list_users, save_user}

-- `m.AWGPeerTransfer[pub]`
abbrev pub last_of : String → List (String × Counters) → Option Counters
last_of peer [] = none
last_of peer ((p, c) ∷ rest) = if p =s peer then some c else last_of peer rest

-- `m.AWGPeerTransfer[pub] = cur`
abbrev pub remember : String → Counters → List (String × Counters) → List (String × Counters)
remember peer c [] = (peer, c) ∷ []
remember peer c ((p, d) ∷ rest) = if p =s peer then (p, c) ∷ rest else (p, d) ∷ remember peer c rest

-- The switch of the loop: what was added since the last counters.
abbrev pub delta : Option Counters → Counters → Counters
delta none cur = cur
delta (some last) cur =
    if ltb cur.0 last.0 || ltb cur.1 last.1 then cur else (cur.0 - last.0, cur.1 - last.1)

-- `byPub[pub]`: the last of the users with the key, where the key is not empty.
abbrev pub user_by_pub : String → List User → Option User
user_by_pub peer [] = none
user_by_pub peer (u ∷ us) =
    let later = user_by_pub peer us in
    or_else later
      (if not (u.awg_public_key =s "") && u.awg_public_key =s peer then some u else none)

-- The user with the new bytes; the rates only where an earlier time is known and has passed.
abbrev pub counted : (ℕ → ℕ → ℕ) → Time → Counters → User → User
counted rate now d u =
    if u.awg_traffic_at == 0 || not (ltb u.awg_traffic_at now)
    then record u {
      awg_rx_bytes = u.awg_rx_bytes + d.0;
      awg_tx_bytes = u.awg_tx_bytes + d.1;
      awg_traffic_at = now;
    }
    else record u {
      awg_rx_rate = rate d.0 (now - u.awg_traffic_at);
      awg_tx_rate = rate d.1 (now - u.awg_traffic_at);
      awg_rx_bytes = u.awg_rx_bytes + d.0;
      awg_tx_bytes = u.awg_tx_bytes + d.1;
      awg_traffic_at = now;
    }

-- `updated`, the snapshot and the disk.
pub record Folding : Type 0 where
  pub updated : ℕ
  pub transfer : List (String × Counters)
  pub disk : Disk

abbrev pub count_saved : Folding → Result (Unit {0}) × Disk → Folding
count_saved f (ok u, d) = record f { updated = suc f.updated; disk = d }
count_saved f (err e, d) = record f { disk = d }

abbrev pub credit : (ℕ → ℕ → ℕ) → Time → Counters → Option User → Folding → Folding
credit rate now d none f = f
credit rate now d (some u) f = count_saved f (save_user (counted rate now d u) now f.disk)

-- The body of the loop.
abbrev pub fold_peer : (ℕ → ℕ → ℕ) → Time → List User → String × Counters → Folding → Folding
fold_peer rate now users (peer, cur) f =
    let d = delta (last_of peer f.transfer) cur in
    let next = record f { transfer = remember peer cur f.transfer } in
    if d.0 == 0 && d.1 == 0 then next else credit rate now d (user_by_pub peer users) next

abbrev pub fold_peers :
    (ℕ → ℕ → ℕ) → Time → List User → List (String × Counters) → Folding → Folding
fold_peers rate now users [] f = f
fold_peers rate now users (c ∷ cs) f = fold_peers rate now users cs (fold_peer rate now users c f)

abbrev pub fold_read :
    (ℕ → ℕ → ℕ) → Time → Result (List User) → List (String × Counters) → Folding → Folding
fold_read rate now (err e) current f = f
fold_read rate now (ok users) current f = fold_peers rate now users current f

-- `FoldAWGTraffic`
unfoldable pub fold_awg_traffic :
    (ℕ → ℕ → ℕ) → Time → List (String × Counters) → NodeMetrics → Disk → Folding
fold_awg_traffic rate now current m d =
    fold_read rate now (list_users d) current
      (record { updated = 0; transfer = m.awg_peer_transfer; disk = d })
