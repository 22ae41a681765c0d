-- ===== src/Relocate.antt =====
-- internal/chain/autorelocate.go: whether a node that is down moves onto a spare, and onto which.
-- The clock reading is the argument `now`. A duration is an `int64` of nanoseconds.
pub mod Move
pub mod Spares
pub mod Due
pub mod Consumption
use angry_box.Prelude.{
  ℕ, zero, suc, ◌-◌, ◌*◌, ◌%◌, ◌^◌, min, String, Bool, true, false, not, ◌||◌, ◌&&◌, List, [], ◌∷◌,
  Option, none, some, ◌=s◌, ltb, leb, if◌then◌else◌, is_empty,
}
use angry_box.Prelude.Int.{ℤ, pos, negsuc, ltb_ℤ}
use angry_box.Model.Base.{Time, is_zero, AutoRelocateConfig}
use angry_box.Model.Panel.{NodeInfo, PanelSettings}
use angry_box.Model.Chain.{Chain}
use angry_box.Store.{StoreError, host_not_found, Result, ok, err, Disk, M}
use angry_box.Store.Hosts.{delete_host}
use angry_box.Store.Chains.{get_chains_for_node}
use angry_box.Store.Nodes.{get_node_info, list_node_infos, delete_node_info}
use angry_box.Store.Settings.{get_settings}

-- `time.Hour`
abbrev pub hour : ℕ
hour = 3600000000000

-- The 64 bits of a product of two positive numbers, read with their sign.
abbrev pub signed_64 : ℕ → ℤ
signed_64 n =
    if ltb (n % 2 ^ 64) (2 ^ 63) then pos (n % 2 ^ 64) else negsuc (2 ^ 64 - 1 - n % 2 ^ 64)

-- `now.Sub(t)`, which stops at the ends of the range.
abbrev pub time_sub : Time → Time → ℤ
time_sub now t =
    if leb t now then pos (min (now - t) (2 ^ 63 - 1)) else negsuc (min (t - now - 1) (2 ^ 63 - 1))

-- The cooldown: six hours where no positive number of hours is set.
abbrev pub cooldown_of : ℤ → ℤ
cooldown_of (pos zero) = pos (6 * hour)
cooldown_of (pos (suc h)) = signed_64 (suc h * hour)
cooldown_of (negsuc h) = pos (6 * hour)

-- The reasons for leaving the node where it is.
pub data Reason : Type 0 where
  settings_error node_error spare_error : StoreError → Reason
  disabled_global is_spare disabled_node cooldown no_spare : Reason

pub data Decision : Type 0 where
  skip : Reason → Decision
  go : (spare : NodeInfo) → Decision

abbrev pub unless_used :
    NodeInfo → Result (Option NodeInfo) → Result (List Chain) → Result (Option NodeInfo)
unless_used n rest (ok []) = ok (some n)
unless_used n rest (ok (c ∷ cs)) = rest
unless_used n rest (err e) = err e

-- The loop of `PickSpare`.
abbrev pub spare_among : Disk → String → List NodeInfo → Result (Option NodeInfo)
spare_among d exclude [] = ok none
spare_among d exclude (n ∷ ns) =
    let rest = spare_among d exclude ns in
    if not n.spare || n.host.id =s exclude
    then rest
    else if not (is_empty n.inbounds)
    then rest
    else unless_used n rest (get_chains_for_node n.host.id d)

abbrev pub spare_of : Disk → String → Result (List NodeInfo) → Result (Option NodeInfo)
spare_of d exclude (ok ns) = spare_among d exclude ns
spare_of d exclude (err e) = err e

-- `PickSpare`
unfoldable pub pick_spare : String → Disk → Result (Option NodeInfo)
pick_spare exclude d = spare_of d exclude (list_node_infos d)

-- `!last.IsZero() && now.Sub(last) < cooldown`
abbrev pub is_cooling : ℤ → Time → Time → Bool
is_cooling hours last now = not (is_zero last) && ltb_ℤ (time_sub now last) (cooldown_of hours)

abbrev pub decide_spare : Result (Option NodeInfo) → Decision
decide_spare (err e) = skip (spare_error e)
decide_spare (ok none) = skip no_spare
decide_spare (ok (some s)) = go s

abbrev pub decide_node :
    AutoRelocateConfig → Time → Result (Option NodeInfo) → Result NodeInfo → Decision
decide_node cfg now picked (err e) = skip (node_error e)
decide_node cfg now picked (ok node) =
    if node.spare
    then skip is_spare
    else if not node.auto_relocate
    then skip disabled_node
    else if is_cooling cfg.cooldown_hours node.last_auto_relocate_at now
    then skip cooldown
    else decide_spare picked

abbrev pub decide_config :
    Time → Result (Option NodeInfo) → Result NodeInfo → Option AutoRelocateConfig → Decision
decide_config now picked node none = skip disabled_global
decide_config now picked node (some cfg) =
    if cfg.enabled then decide_node cfg now picked node else skip disabled_global

abbrev pub decide :
    Time → Result (Option NodeInfo) → Result NodeInfo → Result PanelSettings → Decision
decide now picked node (err e) = skip (settings_error e)
decide now picked node (ok s) = decide_config now picked node s.auto_relocate

-- `AutoRelocateDecision`
unfoldable pub auto_relocate_decision : Disk → String → Time → Decision
auto_relocate_decision d id now = decide now (pick_spare id d) (get_node_info id d) (get_settings d)

-- A host that is not there is as good as deleted.
abbrev pub unless_missing : Result (Unit {0}) × Disk → Result (Unit {0}) × Disk
unless_missing (err (host_not_found id), d) = (ok tt, d)
unless_missing (r, d) = (r, d)

abbrev pub then_delete_host : String → Result (Unit {0}) × Disk → Result (Unit {0}) × Disk
then_delete_host id (ok tt, d) = unless_missing (delete_host id d)
then_delete_host id (err e, d) = (err e, d)

-- `ConsumeSpare`
unfoldable pub consume_spare : String → M (Unit {0})
consume_spare id d = then_delete_host id (delete_node_info id d)
