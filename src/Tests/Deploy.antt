-- ===== src/Tests/Deploy.antt =====
-- A profile of mtproxy on node "a", which is asked for on node "b"; node "e" is known as a host only, and its chain
-- names nothing.
use angry_box.Prelude.{
  All, ◌⊎◌, ◌==◌, ◌&&◌, ◌≡◌, refl, String, true, false, List, [], ◌∷◌, none, ◌=s◌, ◌||◌,
  if◌then◌else◌,
}
use angry_box.Model.Panel.{NodeInbound, NodeInfo}
use angry_box.Model.Chain.{InboundProfile}
use angry_box.Model.Levels.{all_nodes}
use angry_box.Store.{StoreFile, Disk, holds, new_store_file, query, update}
use angry_box.Store.Hosts.{get_host}
use angry_box.Store.Nodes.{empty_node_info, with_info_id, get_node_info, save_node_info}
use angry_box.Store.Chains.{list_chains}
use angry_box.Store.Profiles.{from_profile, profile_nodes}
use angry_box.Awg.{effective_awg_version, is_awg3_family}
use angry_box.Awg.Presets.{ConnectionPreset, PresetTable}
use angry_box.Awg.Material.{Generators}
use angry_box.Awg.Material.Stable.{no_packets}
use angry_box.Deploy.Inbounds.{Minted, inbound_port_conflict, sync_inbound, build_profile_inbound}
use angry_box.Deploy.{
  no_changes, Deploying, Outcome, going, stopped, preflight, removal, refresh, addition,
  chain_referencing_profile_on, apply_profile_to_nodes, is_in, affected_nodes,
}
use angry_box.Deploy.Kept.{credentials, sync_inbound-credentials}
use angry_box.Deploy.Others.{others_at}
use angry_box.Deploy.Others.Untouched.{disk_after, others_at-apply_profile_to_nodes}
use angry_box.Deploy.Refusal.{StopsUntouched, apply_profile_to_nodes-refused}
use angry_box.Deploy.Completion.{apply_profile_to_nodes-completes}
use angry_box.Deploy.Marks.{carries}
use angry_box.Deploy.Placement.Exact.{is_referenced, apply_profile_to_nodes-exact}
use angry_box.Deploy.Unsaved.{HasKey, refresh-unsaved}
use angry_box.Samples.{host, blank_inbound, two_levels}

deployment : Unit {0}
unfolding apply_profile_to_nodes preflight removal refresh addition chain_referencing_profile_on
    inbound_port_conflict sync_inbound build_profile_inbound profile_nodes list_chains get_node_info
    save_node_info get_host query update all_nodes
deployment = tt

abbrev pub blank_profile : InboundProfile
blank_profile = record {
  id = "p";
  name = "";
  protocol = "mtproxy";
  port = 8443;
  obfuscation = "";
  awg_cps_capture_domain = "";
  awg_cps_mimicry = "";
  awg_cps_level = 0;
  awg_cps_i1 = "";
  awg_cps_i2 = "";
  awg_cps_i3 = "";
  awg_cps_i4 = "";
  awg_cps_i5 = "";
  awg_h1 = "";
  awg_h2 = "";
  awg_h3 = "";
  awg_h4 = "";
  awg_cps_captured_domain = "";
  awg_cps_capture_failed_domain = "";
  awg_version = "";
  awg3_mode = false;
  awg3_header_protection_key = "";
  awg3_content_padding_addition = "";
  awg3_rekey_after_time = "";
  mieru_transport = "";
  server_name = "";
  created_at = 0;
}

abbrev pub plain_preset : ConnectionPreset
plain_preset = record {
  name = "plain";
  protocol = "awg";
  description = "";
  awg = none;
  cps_level = 2;
  awg_mimicry = "quic";
}

abbrev pub presets : PresetTable
presets = record { get_preset = λ name. none; default_preset = plain_preset }

abbrev pub generators : String → Generators
generators drawn = record {
  obfs = λ level mimicry version.
      if level == 0 || mimicry =s "none"
      then no_packets
      else record no_packets { i1 = drawn; h1 = drawn };
  awg3 = record {
    header_protection_key = drawn;
    content_padding_addition = "1-20";
    rekey_after_time = "90-130";
  };
}

abbrev mint : NodeInfo → Minted
mint ni = record {
  wireguard = none;
  hop = none;
  hop_public_key = none;
  self_signed = none;
  stable_uuid = "";
}

abbrev inbound : String → NodeInbound
inbound profile = record blank_inbound { protocol = "mtproxy"; profile_id = profile; port = 8443 }

abbrev info : String → List NodeInbound → NodeInfo
info id ibs = record (with_info_id id empty_node_info) { inbounds = ibs }

abbrev file : StoreFile
file = record new_store_file {
  hosts = host "a" "198.51.100.1" ∷ host "b" "198.51.100.2" ∷ host "e" "198.51.100.3" ∷ [];
  node_infos =
      info "a" (inbound "p" ∷ inbound "q" ∷ [])
      ∷ info "b" (record (inbound "q") { port = 443 } ∷ [])
      ∷ [];
  chains = two_levels ∷ [];
}

abbrev disk : Disk
disk = record { content = holds file; writable = λ sf. true }

abbrev report : Outcome → List String
report (going s) = affected_nodes s.result
report (stopped e s) = "stopped" ∷ []

deploy_tests :
    (report
        (apply_profile_to_nodes presets (generators "x") mint blank_profile ("b" ∷ "e" ∷ []) disk)
      ≡ "b" ∷ "e" ∷ "a" ∷ [])
    × (report (
          apply_profile_to_nodes presets (generators "x") mint blank_profile ("a" ∷ "zz" ∷ []) disk)
        ≡ "stopped" ∷ [])
unfolding deployment affected_nodes
deploy_tests = (refl, refl)

abbrev done : Deploying
done = record {
  result = record {
    added = "b" ∷ [];
    removed = "a" ∷ [];
    updated = [];
    blocked = [];
    users_lost_on = [];
  };
  targets =
      info "b" (
        record (inbound "q") { port = 443 }
        ∷ record (inbound "p") { source = "standalone"; tag = "p" }
        ∷ [])
      ∷ [];
  disk = record {
    content = holds (record file {
      revision = 2;
      node_infos =
          info "a" (inbound "q" ∷ [])
          ∷ info "b" (
              record (inbound "q") { port = 443 }
              ∷ record (inbound "p") { source = "standalone"; tag = "p" }
              ∷ [])
          ∷ [];
    });
    writable = λ sf. true;
  };
}

others_at-apply_profile_to_nodes_example :
    others_at blank_profile "a" (
      disk_after
        (apply_profile_to_nodes presets (generators "x") mint blank_profile ("b" ∷ []) disk))
    ≡ others_at blank_profile "a" disk
others_at-apply_profile_to_nodes_example =
    others_at-apply_profile_to_nodes presets (generators "x") mint blank_profile ("b" ∷ []) disk "a"

apply_profile_to_nodes-refused_example :
    StopsUntouched disk
      (apply_profile_to_nodes presets (generators "x") mint blank_profile ("a" ∷ "zz" ∷ []) disk)
unfolding deployment
apply_profile_to_nodes-refused_example =
    apply_profile_to_nodes-refused presets (generators "x") mint blank_profile ("a" ∷ "zz" ∷ [])
      disk "zz" refl refl refl

apply_profile_to_nodes-completes_example :
    (s : Deploying) × (apply_profile_to_nodes presets
        (generators "x")
        mint
        blank_profile
        ("a" ∷ "b" ∷ "e" ∷ [])
        disk
      ≡ going s)
unfolding deployment
apply_profile_to_nodes-completes_example =
    apply_profile_to_nodes-completes presets (generators "x") mint blank_profile
      ("a" ∷ "b" ∷ "e" ∷ []) disk ((λ f. refl), (file, refl)) (refl, (refl, (refl, tt)))
      (λ ni. (record (inbound "p") { source = "standalone"; tag = "p" }, refl))

apply_profile_to_nodes-exact_example :
    carries "p" "b" done.disk
    ≡ (is_in "b" ("b" ∷ []) || carries "p" "b" disk && is_referenced "p" "b" disk)
unfolding deployment
apply_profile_to_nodes-exact_example =
    apply_profile_to_nodes-exact presets (generators "x") mint blank_profile ("b" ∷ []) disk file
      done "b" refl (refl, (refl, tt)) refl

sync_inbound-credentials_example :
    (credentials (sync_inbound presets (generators "x") blank_profile (inbound "p")).0
      ≡ credentials (inbound "p"))
    × ((from_profile "p" (inbound "p") ≡ true)
        ⊎ ((sync_inbound presets (generators "x") blank_profile (inbound "p")).0 ≡ inbound "p"))
sync_inbound-credentials_example =
    sync_inbound-credentials presets (generators "x") blank_profile (inbound "p")

abbrev third : InboundProfile
third = record blank_profile {
  protocol = "awg";
  awg_version = "3";
  awg3_header_protection_key = "k";
}

abbrev old_inbound : NodeInbound
old_inbound = record (inbound "p") {
  protocol = "awg";
  awg_version = "2";
  awg_cps_i1 = "i";
  awg_h1 = "h";
}

abbrev old_node : NodeInfo
old_node = record (with_info_id "a" empty_node_info) { inbounds = old_inbound ∷ [] }

abbrev kept_state : Deploying
kept_state = record {
  result = no_changes;
  targets = [];
  disk = record {
    content = holds (record new_store_file { node_infos = old_node ∷ [] });
    writable = λ sf. true;
  };
}

refresh-unsaved_example :
    All (λ ib. HasKey third (sync_inbound presets (generators "x") third ib).0) (old_inbound ∷ [])
    × (refresh presets (generators "x") mint third ("a" ∷ []) "a" kept_state ≡ going kept_state)
unfolding deployment is_awg3_family effective_awg_version
refresh-unsaved_example =
    refresh-unsaved presets (generators "x") mint third ("a" ∷ []) "a" kept_state old_node refl refl
      refl (refl, tt)
