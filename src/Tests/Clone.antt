-- ===== src/Tests/Clone.antt =====
-- The clone of a node with two AmneziaWG inbounds, and of a node of a chain.
use angry_box.Prelude.{leb, if◌then◌else◌, ◌=s◌, true, false, ◌≡◌, refl, ℕ, String, none}
use angry_box.Model.Panel.{NodeInbound}
use angry_box.Samples.{host, blank_inbound, disk}
use angry_box.Clone.{CloneTarget, clone_node, trimmed, exists, failed}
use angry_box.Clone.Identity.{InboundIdentity, NodeIdentity, collect_awg_server_subnets}
use angry_box.Clone.Kept.{is_cloned}
use angry_box.Clone.Kept.Hosts.{HasCloned, clone_node-HasCloned}
use angry_box.Store.{write_failed, Disk, query, update}
use angry_box.Store.Chains.{save_chain, get_chains_for_node}
use angry_box.Model.Levels.{all_nodes}
use angry_box.Store.Hosts.{get_host, save_host}
use angry_box.Store.Nodes.{save_node_info, get_node_info, empty_node_info}
use angry_box.Store.Nodes.Rows.{inbounds_at}
use angry_box.Prelude.Text.{trim_space}

abbrev drawn : ℕ → InboundIdentity
drawn i = record {
  uuid = "u";
  tag = none;
  reality = none;
  short_id = "";
  obfs_password = "";
  wireguard = none;
  certificate = none;
}

abbrev drawn_node : String → NodeIdentity
drawn_node name = record {
  transit_key = none;
  transit_short_id = "";
  transit_uuid = "t";
  server_keys = none;
  client_keys = none;
  exit_keys = none;
}

abbrev target : CloneTarget
target = record { new_id = "c"; new_addr = "9.9.9.9"; new_user = "root"; new_key_path = "k" }

abbrev awg : NodeInbound
awg = record blank_inbound { protocol = "awg" }

-- The disk with a record for the node "b".
abbrev recorded : Disk
recorded = (save_node_info (record empty_node_info { host = host "b" "198.51.100.2" }) disk).1

clone_tests :
    (is_cloned (clone_node drawn drawn_node "b" target recorded).0 ≡ true)
    × ((clone_node drawn drawn_node "b" (record target { new_id = "a" }) recorded).0 ≡ exists)
    × (is_cloned (clone_node drawn drawn_node "b" target disk).0 ≡ false)
unfolding clone_node trim_space get_host save_host save_node_info get_node_info save_chain
    collect_awg_server_subnets query update get_chains_for_node all_nodes
clone_tests = (refl, refl, refl)

-- The first write of the clone succeeds, and no other one.
abbrev filling : Disk
filling = record recorded { writable = λ f. leb f.revision 9 }

filling_test : (clone_node drawn drawn_node "b" target filling).0 ≡ failed write_failed
unfolding clone_node trim_space get_host save_host save_node_info get_node_info save_chain
    collect_awg_server_subnets query update get_chains_for_node all_nodes
filling_test = refl

clone_node-HasCloned_example :
    HasCloned "b" (trimmed target) filling (clone_node drawn drawn_node "b" target filling)
    × ((j : String)
        → inbounds_at j (clone_node drawn drawn_node "b" target filling).1 ≡ (
            if (trimmed target).new_id =s j
            then inbounds_at j (clone_node drawn drawn_node "b" target filling).1
            else inbounds_at j filling))
clone_node-HasCloned_example = clone_node-HasCloned drawn drawn_node "b" target filling
