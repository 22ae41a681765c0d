-- ===== src/Store/Utilities.antt =====
-- internal/chain/store_utilities.go: the installed parts of a node, kept in its node record.
pub mod Staleness
use angry_box.Prelude.{
  ℕ, ◌+◌, String, Bool, false, not, ◌||◌, List, Option, none, some, ◌==◌, ◌=s◌, ltb, if◌then◌else◌,
  find_by, upsert,
}
use angry_box.Model.Base.{UtilityState}
use angry_box.Model.Panel.{NodeInfo}
use angry_box.Store.Nodes.{get_node_info, save_node_info, info_or_empty, with_info_id}
use angry_box.Store.{utility_unnamed, Result, ok, err, Disk, M, get_revision}

abbrev pub utility_name : UtilityState → String
utility_name u = u.name

-- `FindUtility`
abbrev pub find_utility : List UtilityState → String → Option UtilityState
find_utility us name = find_by utility_name name us

abbrev pub utility_in : String → Result NodeInfo → Option UtilityState
utility_in name (ok info) = find_utility info.utilities name
utility_in name (err e) = none

-- `GetUtilityState`: every error of the lookup reads as "never touched".
unfoldable pub get_utility_state : String → String → Disk → Option UtilityState
unfolding get_node_info
get_utility_state node name d = utility_in name (get_node_info node d)

abbrev pub with_utility : UtilityState → NodeInfo → NodeInfo
with_utility u info = record info { utilities = upsert utility_name u info.utilities }

-- `SetUtilityState`
unfoldable pub set_utility_state : String → UtilityState → M (Unit {0})
unfolding get_node_info save_node_info
set_utility_state node u d =
    if u.name =s ""
    then (err utility_unnamed, d)
    else save_node_info (with_utility u (with_info_id node (info_or_empty (get_node_info node d))))
        d

abbrev pub stale_at : ℕ → Option UtilityState → Bool
stale_at now none = false
stale_at now (some u) =
    if not u.installed || u.revision == 0 then false else ltb (u.revision + 1) now

-- `UtilityIsStale`
unfoldable pub utility_is_stale : String → String → Disk → Bool
unfolding get_utility_state
utility_is_stale node name d = stale_at (get_revision d) (get_utility_state node name d)
