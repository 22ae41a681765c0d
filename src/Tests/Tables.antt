-- ===== src/Tests/Tables.antt =====
-- The store's handlers on a disk with three hosts, one chain and three rules.
use angry_box.Store.Machine.{Handler, run, exec}
use angry_box.Store.Utilities.Staleness.{fresh_iff-unchanged}
use angry_box.Model.Chain.{ChainNode}
use angry_box.Store.Chains.Resolve.{AllResolved, resolve_nodes-AllResolved}
use angry_box.Prelude.{◌≡◌, refl, List, [], ◌∷◌, keep, ◌↔◌, arith, true, false, ℕ, String}
use angry_box.Prelude.Int.{pos}
use angry_box.Model.Base.{RouteRule, UtilityState}
use angry_box.Model.Levels.{all_nodes, set_all_nodes}
use angry_box.Store.{ok, err, update, query, Disk, host_referenced, get_revision}
use angry_box.Store.Hosts.{save_host, get_host, delete_host}
use angry_box.Store.Hosts.Laws.{IsGone, delete_host-IsGone}
use angry_box.Store.Users.{save_user, get_user}
use angry_box.Store.Routes.{list_route_rules_for_node, sink}
use angry_box.Store.Routes.Sorting.{IsOrdered, has_priority, list_rules-IsOrdered}
use angry_box.Store.Chains.{resolve_nodes, resolve_all, delete_chain}
use angry_box.Store.Nodes.{get_node_info, save_node_info}
use angry_box.Store.Utilities.{set_utility_state, get_utility_state, utility_is_stale}
use angry_box.Samples.{host, rule, disk, node, two_levels}

store : Unit {0}
unfolding save_host get_host delete_host update query save_user get_user list_route_rules_for_node
    resolve_nodes resolve_all all_nodes delete_chain get_node_info save_node_info set_utility_state
    get_utility_state sink
store = tt

abbrev moved : String → String → ChainNode
moved id addr = record (node id) { addr = addr; user = "root"; key_path = "/k" }

abbrev freed : Disk
freed = (delete_chain "c" disk).1

deletion_tests :
    ((delete_host "a" disk).0 ≡ err (host_referenced "a" "c")) × ((delete_host "a" freed).0 ≡ ok tt)
unfolding store
deletion_tests = (refl, refl)

delete_host-IsGone_example : IsGone "a" "b" freed (delete_host "a" freed).1
unfolding store
delete_host-IsGone_example = delete_host-IsGone "a" "b" freed (delete_host "a" freed).1 refl

abbrev sorted : List RouteRule
sorted = rule "r2" (pos 1) ∷ rule "r1" (pos 5) ∷ rule "r3" (pos 5) ∷ []

list_rules-IsOrdered_example :
    IsOrdered sorted
    × (keep (has_priority (pos 5)) sorted ≡ rule "r1" (pos 5) ∷ rule "r3" (pos 5) ∷ [])
unfolding store
list_rules-IsOrdered_example = list_rules-IsOrdered "a" (pos 5) disk _ sorted refl refl

abbrev resolved : List ChainNode
resolved = moved "a" "198.51.100.1" ∷ moved "b" "198.51.100.2" ∷ moved "e" "198.51.100.3" ∷ []

resolve_nodes-AllResolved_example :
    AllResolved disk (all_nodes two_levels) resolved
    × (all_nodes (set_all_nodes resolved two_levels) ≡ resolved)
unfolding store
resolve_nodes-AllResolved_example = resolve_nodes-AllResolved two_levels disk resolved refl

abbrev tool : ℕ → UtilityState
tool revision = record {
  name = "sing-box";
  installed = true;
  version = "1.12";
  installed_at = 3;
  revision = revision;
  status = "ok";
}

abbrev pushed : Disk
pushed = (set_utility_state "a" (tool 7) disk).1

staleness_tests :
    (get_revision pushed ≡ 8)
    × (utility_is_stale "a" "sing-box" pushed ≡ false)
    × (utility_is_stale "a" "sing-box" (save_host (host "n" "203.0.113.9") pushed).1 ≡ true)
unfolding store utility_is_stale
staleness_tests = (refl, refl, refl)

abbrev later : List Handler
later = Handler.save_host (host "n" "203.0.113.9") ∷ Handler.delete_host "q" ∷ []

fresh_iff-unchanged_example :
    (utility_is_stale "a" "sing-box" (run later pushed) ≡ false) ↔ (run later pushed ≡ pushed)
unfolding store run exec
fresh_iff-unchanged_example =
    fresh_iff-unchanged "a" (tool 7) disk pushed later refl refl refl (λ e. omega (arith, e)) refl
