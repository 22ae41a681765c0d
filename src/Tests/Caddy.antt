-- ===== src/Tests/Caddy.antt =====
-- A node behind caddy with a naive inbound on 443, an AWG inbound on 443, Reality on 8443, a second naive
-- inbound and one that belongs to a chain.
use angry_box.Prelude.{
  ◌=s◌, ◌≡◌, ℕ, refl, String, List, [], ◌∷◌, true, false, map, some, none, get_elem?,
}
use angry_box.Prelude.Text.{trim_space}
use angry_box.Model.Base.{UtilityState}
use angry_box.Model.Panel.{NodeInbound, NodeInfo}
use angry_box.Store.Nodes.{empty_node_info}
use angry_box.Caddy.{
  udp_only_inbound, stays, remap_inbound_ports, caddy_evict_port, caddy_mode, native_ports,
}
use angry_box.Caddy.Remap.{AllPlaced, remap_inbound_ports-ends}
use angry_box.Caddy.Ports.{remap_inbound_ports_unique}
use angry_box.Caddy.Plan.{
  CaddyPlan, Fronted, is_chain_sourced_inbound, sni_subdomain, caddy_sans, build_caddy_plan,
  caddy_fronted_hosts, ports_or_empty, required_utilities_for_protocol, missing_utilities,
  validate_utility_deps, shares_port, needs_utilities,
}
use angry_box.Caddy.Plan.Routes.{route_of, build_caddy_plan-fronted}
use angry_box.Caddy.Plan.Hosts.{caddy_fronted_hosts_unique}
use angry_box.Samples.{blank_inbound}

caddy : Unit {0}
unfolding udp_only_inbound stays remap_inbound_ports caddy_evict_port caddy_mode
    is_chain_sourced_inbound sni_subdomain caddy_sans build_caddy_plan caddy_fronted_hosts
    required_utilities_for_protocol missing_utilities validate_utility_deps trim_space
caddy = tt

abbrev inbound : String → ℕ → NodeInbound
inbound protocol port = record blank_inbound { protocol = protocol; port = port }

abbrev installed : String → UtilityState
installed name = record {
  name = name;
  installed = true;
  version = "";
  installed_at = 0;
  revision = 1;
  status = "";
}

abbrev inbounds : List NodeInbound
inbounds =
    inbound "naive" 443
    ∷ inbound "awg" 443
    ∷ inbound "vless-reality" 8443
    ∷ inbound "naive" 11001
    ∷ record (inbound "trusttunnel" 80) { source = "chain:c" }
    ∷ []

abbrev info : NodeInfo
info = record empty_node_info {
  inbounds = inbounds;
  tls_domain = " n.example ";
  utilities = installed "acme" ∷ installed "caddy" ∷ [];
}

abbrev ports : List ℕ
ports = 11000 ∷ 443 ∷ 11002 ∷ 11001 ∷ 11003 ∷ []

port_tests :
    (remap_inbound_ports inbounds ≡ some ports)
    × (caddy_evict_port 443 ≡ 12443)
    × (caddy_evict_port 8444 ≡ 8444)
unfolding caddy
port_tests = (refl, refl, refl)

plan_tests :
    (map (λ (f : Fronted). f.host) (caddy_fronted_hosts info)
      ≡ "naive.n.example" ∷ "naive-1.n.example" ∷ [])
    × (validate_utility_deps (some info) "mtproxy" 443 ≡ some (shares_port 443))
    × (validate_utility_deps (some (record info { utilities = installed "acme" ∷ [] })) "naive" 443
        ≡ some (needs_utilities "naive" ("caddy" ∷ [])))
    × (validate_utility_deps none "awg" 443 ≡ none)
unfolding caddy
plan_tests = (refl, refl, refl, refl)

remap_inbound_ports-ends_example :
    (ps : List ℕ) × (remap_inbound_ports inbounds ≡ some ps)
    × AllPlaced (native_ports inbounds) inbounds ps
remap_inbound_ports-ends_example = remap_inbound_ports-ends inbounds

reality_moves : stays (inbound "vless-reality" 8443) ≡ false
unfolding caddy
reality_moves = refl

remap_inbound_ports_unique_example : ◌≡◌ {A = ℕ} 2 2
remap_inbound_ports_unique_example =
    remap_inbound_ports_unique inbounds ports 2 2 (inbound "vless-reality" 8443) 11002 port_tests.0
      refl reality_moves refl refl

caddy_mode_info : caddy_mode info ≡ true
unfolding caddy
caddy_mode_info = refl

build_caddy_plan-fronted_example :
    (plan : CaddyPlan) × (build_caddy_plan info 3 ≡ some plan)
    × (plan.sni_routes
        ≡ map (route_of (ports_or_empty (remap_inbound_ports inbounds))) (caddy_fronted_hosts info))
build_caddy_plan-fronted_example = build_caddy_plan-fronted info 3 caddy_mode_info

second_host :
    get_elem? (caddy_fronted_hosts info) 1 ≡ some (record { index = 3; host = "naive-1.n.example" })
unfolding caddy
second_host = refl

caddy_fronted_hosts_unique_example : ◌≡◌ {A = ℕ} 1 1
caddy_fronted_hosts_unique_example =
    caddy_fronted_hosts_unique info 1 1 (record { index = 3; host = "naive-1.n.example" })
      (record { index = 3; host = "naive-1.n.example" }) second_host second_host refl

named : (trim_space info.tls_domain =s "") ≡ false
unfolding caddy
named = refl

accepted : validate_utility_deps (some info) "naive" 443 ≡ none
unfolding caddy
accepted = refl
