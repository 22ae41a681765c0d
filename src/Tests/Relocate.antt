-- ===== src/Tests/Relocate.antt =====
-- A pool with one free spare, one spare that carries users, and a node that may be relocated.
use angry_box.Store.Laws.{ok-injective}
use angry_box.Prelude.{
  sym, ap, ◌∙◌, arith, leb, ◌+◌, ◌≡◌, ◌↔◌, refl, ◌*◌, String, true, [], ◌∷◌, some, first, false,
}
use angry_box.Prelude.Int.{pos}
use angry_box.Model.Base.{AutoRelocateConfig}
use angry_box.Model.Panel.{NodeInfo, PanelSettings}
use angry_box.Store.{ok, StoreFile, Disk, holds, new_store_file, write_failed}
use angry_box.Store.Nodes.{
  empty_node_info, with_info_id, hosted, get_node_info, list_node_infos, delete_node_info,
}
use angry_box.Store.Hosts.{delete_host}
use angry_box.Store.Settings.{get_settings}
use angry_box.Store.Chains.{get_chains_for_node, list_chains}
use angry_box.Store.{query, update}
use angry_box.Model.Levels.{all_nodes}
use angry_box.Relocate.{hour, skip, go, cooldown, pick_spare, auto_relocate_decision, consume_spare}
use angry_box.Relocate.Spares.{is_eligible, pick_spare-first}
use angry_box.Relocate.Due.{IsDue, IsShort, decision-IsDue}
use angry_box.Prelude.Text.{trim_space}
use angry_box.Store.Hosts.{get_host, save_host}
use angry_box.Store.Nodes.{save_node_info}
use angry_box.Store.Chains.{save_chain}
use angry_box.Relocate.Move.{Target, refused, is_moved, trimmed, relocate_node, failed}
use angry_box.Relocate.Move.Directories.{HasMoved, relocate_node-HasMoved}
use angry_box.Samples.{host, two_levels, blank_settings}

relocation : Unit {0}
unfolding auto_relocate_decision pick_spare consume_spare get_node_info list_node_infos get_settings
    get_chains_for_node list_chains query update delete_node_info delete_host all_nodes
relocation = tt

abbrev spare : String → NodeInfo
spare id = record (with_info_id id empty_node_info) { spare = true }

abbrev failing : NodeInfo
failing = record (with_info_id "q" empty_node_info) {
  auto_relocate = true;
  last_auto_relocate_at = hour;
}

abbrev config : AutoRelocateConfig
config = record { enabled = true; cooldown_hours = pos 0 }

abbrev settings : PanelSettings
settings = record blank_settings { metrics_interval = pos 15; auto_relocate = some config }

-- The spare "a" is in a chain; "s" and "t" are free.
abbrev file : StoreFile
file = record new_store_file {
  hosts = host "q" "q:22" ∷ host "a" "a:22" ∷ host "s" "s:22" ∷ host "t" "t:22" ∷ [];
  chains = two_levels ∷ [];
  settings = some settings;
  node_infos = failing ∷ spare "a" ∷ spare "s" ∷ spare "t" ∷ [];
}

abbrev pool : Disk
pool = record { content = holds file; writable = λ sf. true }

decision_tests :
    (auto_relocate_decision pool "q" (8 * hour) ≡ go (spare "s"))
    × (auto_relocate_decision pool "q" (6 * hour) ≡ skip cooldown)
unfolding relocation
decision_tests = (refl, refl)

pick_spare-first_example : pick_spare "q" pool ≡ ok (first (is_eligible "q" file) (hosted file))
pick_spare-first_example = pick_spare-first "q" pool file refl

some_injective : {a b : AutoRelocateConfig} → some a ≡ some b → a ≡ b
some_injective e = cc

pool-IsShort : IsShort pool
unfolding relocation
pool-IsShort s c read set =
    let same : settings ≡ s = ok-injective read in
    let one : some config ≡ some c = ap (λ x. x.auto_relocate) same ∙ set in
    let own : config ≡ c = some_injective one in rw (sym own) (omega arith)

decision-IsDue_example :
    (auto_relocate_decision pool "q" (8 * hour) ≡ go (spare "s"))
    ↔ IsDue file pool "q" (8 * hour) (spare "s")
decision-IsDue_example = decision-IsDue file pool "q" (8 * hour) (spare "s") refl pool-IsShort

-- The node "q" moves; the blank address is refused.
abbrev target : Target
target = record { new_addr = " 192.0.2.7:22 "; new_user = ""; new_key_path = "" }

move_tests :
    (is_moved (relocate_node "q" target pool).0 ≡ true)
    × (relocate_node "q" (record target { new_addr = " " }) pool ≡ (refused, pool))
    × (is_moved (relocate_node "q" target (record pool { writable = λ sf. false })).0 ≡ false)
unfolding relocation relocate_node trim_space get_host save_host save_node_info save_chain
move_tests = (refl, refl, refl)

-- The first write succeeds, and no other one.
abbrev filling : Disk
filling = record pool { writable = λ f. leb f.revision (file.revision + 1) }

filling_test : (relocate_node "q" target filling).0 ≡ failed write_failed
unfolding relocation relocate_node trim_space get_host save_host save_node_info save_chain
filling_test = refl

relocate_node-HasMoved_example :
    HasMoved "q" (trimmed target) filling (relocate_node "q" target filling)
relocate_node-HasMoved_example = relocate_node-HasMoved "q" target filling
