-- ===== src/Caddy/Plan.antt =====
-- The routes of a node behind caddy (internal/chain/utilities.go), and what a protocol needs installed
-- (internal/chain/utilitydeps.go).
pub mod Routes
pub mod Hosts
pub mod Deps
use angry_box.Prelude.{
  ℕ, zero, suc, ◌+◌, ◌≡◌, String, Bool, true, false, not, ◌&&◌, ◌||◌, List, [], ◌∷◌, map, Option,
  none, some, ◌==◌, ◌=s◌, if◌then◌else◌, length, get_elem?, keep, is_empty, ◌++◌,
}
use angry_box.Prelude.Decimal.{decimal, ◌+s◌}
use angry_box.Prelude.Text.{has_prefix, trim_space}
use angry_box.Model.Panel.{NodeInbound, NodeInfo}
use angry_box.Caddy.{
  remap_inbound_ports, caddy_mode, panel_relay_port, caddy_owned_ports, has_port, utility_installed,
}

-- `TLSUtilityProtocols`
abbrev pub tls_utility_protocols : String → Bool
tls_utility_protocols proto = proto =s "naive" || proto =s "trusttunnel"

-- `IsChainSourcedInbound` of internal/chain/inbound_source.go
unfoldable pub is_chain_sourced_inbound : NodeInbound → Bool
is_chain_sourced_inbound ib = has_prefix ib.source "chain:"

-- `seen[proto]++`
abbrev pub count_up : (String → ℕ) → String → String → ℕ
count_up seen proto p = if p =s proto then suc (seen p) else seen p

-- The label that `sniSubdomain` returns; `count_up` is what it does to `seen`.
unfoldable pub sni_subdomain : (String → ℕ) → String → String
sni_subdomain seen proto = if seen proto == 0 then proto else proto +s "-" +s decimal (seen proto)

pub record SniRoute : Type 0 where
  pub host : String
  pub port : ℕ

pub record CaddyPlan : Type 0 where
  pub domain : String
  pub relay_port : ℕ
  pub reality_port : ℕ
  pub sni_routes : List SniRoute
  pub revision : ℕ

-- `CaddySANs`
unfoldable pub caddy_sans : CaddyPlan → List String
caddy_sans p = p.domain ∷ ("panel." +s p.domain) ∷ map (λ (r : SniRoute). r.host) p.sni_routes

-- What the loop of `BuildCaddyPlan` keeps: the plan, and how often each protocol was seen.
pub record Building : Type 0 where
  pub plan : CaddyPlan
  pub seen : String → ℕ

-- `ports[i]` of a map, 0 where there is none.
abbrev pub port_at : Option ℕ → ℕ
port_at none = 0
port_at (some p) = p

-- `plan.SNIRoutes = append(plan.SNIRoutes, …)`
abbrev pub add_route : String → ℕ → Building → Building
add_route proto port b = record {
  plan = record b.plan {
    sni_routes =
        b.plan.sni_routes
        ++ record { host = sni_subdomain b.seen proto +s "." +s b.plan.domain; port = port } ∷ [];
  };
  seen = count_up b.seen proto;
}

-- The body of the loop of `BuildCaddyPlan`.
abbrev pub plan_inbound : ℕ → NodeInbound → Building → Building
plan_inbound port ib b =
    if is_chain_sourced_inbound ib
    then b
    else if ib.protocol =s "vless-reality"
    then (if b.plan.reality_port == 0
        then record b { plan = record b.plan { reality_port = port } }
        else b)
    else if tls_utility_protocols ib.protocol
    then add_route ib.protocol port b
    else b

abbrev pub plan_inbounds : List ℕ → ℕ → List NodeInbound → Building → Building
plan_inbounds ports i [] b = b
plan_inbounds ports i (ib ∷ ibs) b =
    plan_inbounds ports (suc i) ibs (plan_inbound (port_at (get_elem? ports i)) ib b)

abbrev pub first_plan : String → ℕ → Building
first_plan domain revision = record {
  plan = record {
    domain = domain;
    relay_port = panel_relay_port;
    reality_port = 0;
    sni_routes = [];
    revision = revision;
  };
  seen = λ proto. 0;
}

abbrev pub ports_or_empty : Option (List ℕ) → List ℕ
ports_or_empty none = []
ports_or_empty (some ps) = ps

-- `BuildCaddyPlan`; `none` is its error, that the node has no TLS domain.
unfoldable pub build_caddy_plan : NodeInfo → ℕ → Option CaddyPlan
build_caddy_plan info revision =
    if trim_space info.tls_domain =s ""
    then none
    else some
        (plan_inbounds (ports_or_empty (remap_inbound_ports info.inbounds)) 0 info.inbounds
          (first_plan (trim_space info.tls_domain) revision)).plan

-- `res[i] = host`
pub record Fronted : Type 0 where
  pub index : ℕ
  pub host : String

abbrev pub is_fronted : NodeInbound → Bool
is_fronted ib = not (is_chain_sourced_inbound ib || not (tls_utility_protocols ib.protocol))

-- The loop of `CaddyFrontedHosts`.
abbrev pub fronted_from : String → ℕ → List NodeInbound → (String → ℕ) → List Fronted
fronted_from domain i [] seen = []
fronted_from domain i (ib ∷ ibs) seen =
    let rest =
      fronted_from domain (suc i) ibs (if is_fronted ib then count_up seen ib.protocol else seen) in
    if is_fronted ib
    then record { index = i; host = sni_subdomain seen ib.protocol +s "." +s domain } ∷ rest
    else rest

-- `CaddyFrontedHosts`
unfoldable pub caddy_fronted_hosts : NodeInfo → List Fronted
caddy_fronted_hosts info =
    if not (caddy_mode info)
    then []
    else fronted_from (trim_space info.tls_domain) 0 info.inbounds (λ proto. 0)

-- The errors of `ValidateUtilityDeps`.
pub data DepsError : Type 0 where
  needs_domain : String → DepsError
  shares_port : ℕ → DepsError
  needs_utilities : String → List String → DepsError

-- `protocolUtilityDeps`, `RequiredUtilitiesForProtocol`
unfoldable pub required_utilities_for_protocol : String → List String
required_utilities_for_protocol proto =
    if proto =s "naive"
    then "caddy" ∷ "acme" ∷ []
    else if proto =s "trusttunnel"
    then "caddy" ∷ "acme" ∷ []
    else []

abbrev pub not_installed : NodeInfo → List String → List String
not_installed info req = keep (λ name. not (utility_installed info name)) req

-- `MissingUtilities`; `none` is a node that has no record.
unfoldable pub missing_utilities : Option NodeInfo → String → List String
missing_utilities none proto = required_utilities_for_protocol proto
missing_utilities (some info) proto = not_installed info (required_utilities_for_protocol proto)

abbrev pub has_domain : Option NodeInfo → Bool
has_domain none = false
has_domain (some info) = not (info.tls_domain =s "")

abbrev pub missing_error : String → List String → Option DepsError
missing_error proto missing =
    if is_empty missing then none else some (needs_utilities proto missing)

-- `ValidateUtilityDeps`; `none` is that the action may go on.
unfoldable pub validate_utility_deps : Option NodeInfo → String → ℕ → Option DepsError
validate_utility_deps info proto port =
    let req = required_utilities_for_protocol proto in
    if not (has_domain info)
    then (if is_empty req then none else some (needs_domain proto))
    else if proto =s "mtproxy" && has_port caddy_owned_ports port
    then some (shares_port port)
    else if is_empty req
    then none
    else missing_error proto (missing_utilities info proto)
