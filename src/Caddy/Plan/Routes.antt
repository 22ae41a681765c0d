-- ===== src/Caddy/Plan/Routes.antt =====
-- The routes of the plan against the host names that links are built with.
use angry_box.Prelude.{
  ℕ, suc, ◌≡◌, refl, sym, ap, ◌∙◌, String, true, false, List, [], ◌∷◌, ◌++◌, map, some, ◌=s◌,
  =s_iff, get_elem?, Bool-cases, inl, inr, arith,
}
use angry_box.Prelude.Text.{trim_space}
use angry_box.Prelude.Decimal.{◌+s◌}
use angry_box.Model.Panel.{NodeInbound, NodeInfo}
use angry_box.Caddy.{remap_inbound_ports, caddy_mode}
use angry_box.Caddy.Plan.{
  SniRoute, CaddyPlan, Building, port_at, add_route, plan_inbound, plan_inbounds, first_plan,
  ports_or_empty, build_caddy_plan, Fronted, is_fronted, fronted_from, caddy_fronted_hosts,
  count_up, sni_subdomain, tls_utility_protocols,
}

-- The route to a fronted host.
abbrev pub route_of : List ℕ → Fronted → SniRoute
route_of ports f = record { host = f.host; port = port_at (get_elem? ports f.index) }

append_assoc : (xs ys zs : List SniRoute) → (xs ++ ys) ++ zs ≡ xs ++ (ys ++ zs)
append_assoc [] ys zs = refl
append_assoc (x ∷ xs) ys zs = ap (λ r. x ∷ r) (append_assoc xs ys zs)

append-nil : (xs : List SniRoute) → xs ++ [] ≡ xs
append-nil [] = refl
append-nil (x ∷ xs) = ap (λ r. x ∷ r) (append-nil xs)

reality_not_tls :
    (proto : String) → (proto =s "vless-reality") ≡ true → tls_utility_protocols proto ≡ false
reality_not_tls proto h = ap tls_utility_protocols ((=s_iff proto "vless-reality").0 h)

-- An inbound that is not fronted changes neither the routes nor what was seen.
plan_inbound-other :
    (port : ℕ) (ib : NodeInbound) (b : Building)
    → is_fronted ib ≡ false
    → ((plan_inbound port ib b).plan.sni_routes ≡ b.plan.sni_routes)
      × ((plan_inbound port ib b).plan.domain ≡ b.plan.domain)
      × ((plan_inbound port ib b).seen ≡ b.seen)
plan_inbound-other port ib b h = (ground (arith, h), ground (arith, h), ground (arith, h))

plan_inbound-fronted :
    (port : ℕ) (ib : NodeInbound) (b : Building)
    → is_fronted ib ≡ true
    → plan_inbound port ib b ≡ add_route ib.protocol port b
plan_inbound-fronted port ib b h = ground (arith, h, reality_not_tls ib.protocol)

plan_inbounds-routes :
    (ports : List ℕ) (i : ℕ) (ibs : List NodeInbound) (b : Building)
    → (plan_inbounds ports i ibs b).plan.sni_routes
      ≡ b.plan.sni_routes ++ map (route_of ports) (fronted_from b.plan.domain i ibs b.seen)
plan_inbounds-routes ports i [] b = sym (append-nil b.plan.sni_routes)
plan_inbounds-routes ports i (ib ∷ ibs) b = elim (Bool-cases (is_fronted ib)) [
  | inl fronted ↦
      let next = add_route ib.protocol (port_at (get_elem? ports i)) b in
      let route : SniRoute = record {
        host = sni_subdomain b.seen ib.protocol +s "." +s b.plan.domain;
        port = port_at (get_elem? ports i);
      } in
      rw fronted (
        ap (λ (n : Building). (plan_inbounds ports (suc i) ibs n).plan.sni_routes)
          (plan_inbound-fronted (port_at (get_elem? ports i)) ib b fronted)
        ∙ plan_inbounds-routes ports (suc i) ibs next
        ∙ append_assoc b.plan.sni_routes (route ∷ []) (
            map (route_of ports)
              (fronted_from b.plan.domain (suc i) ibs (count_up b.seen ib.protocol))))
  | inr other ↦
      let next = plan_inbound (port_at (get_elem? ports i)) ib b in
      let (routes, domain, seen) = plan_inbound-other (port_at (get_elem? ports i)) ib b other in
      rw other (
        plan_inbounds-routes ports (suc i) ibs next
        ∙ ap (λ r. r ++ map (route_of ports) (fronted_from next.plan.domain (suc i) ibs next.seen))
            routes
        ∙ ap (λ d. b.plan.sni_routes ++ map (route_of ports) (fronted_from d (suc i) ibs next.seen))
            domain
        ∙ ap
            (λ f.
              b.plan.sni_routes ++ map (route_of ports) (fronted_from b.plan.domain (suc i) ibs f))
            seen)
]

caddy_mode-named :
    (info : NodeInfo) → caddy_mode info ≡ true → (trim_space info.tls_domain =s "") ≡ false
unfolding caddy_mode
caddy_mode-named info mode = ground (arith, mode)

-- On a node in caddy mode the plan is built, and its routes are the host names that client links use, in
-- their order, each to the port that `RemapInboundPorts` gives its inbound.
pub build_caddy_plan-fronted :
    (info : NodeInfo) (revision : ℕ)
    → caddy_mode info ≡ true
    → (plan : CaddyPlan) × (build_caddy_plan info revision ≡ some plan)
      × (plan.sni_routes
          ≡ map
              (route_of (ports_or_empty (remap_inbound_ports info.inbounds)))
              (caddy_fronted_hosts info))
unfolding build_caddy_plan caddy_fronted_hosts
build_caddy_plan-fronted info revision mode =
    let ports = ports_or_empty (remap_inbound_ports info.inbounds) in
    let named : (trim_space info.tls_domain =s "") ≡ false = caddy_mode-named info mode in
    let start = first_plan (trim_space info.tls_domain) revision in
    (
      (plan_inbounds ports 0 info.inbounds start).plan,
      rw named refl,
      rw mode (plan_inbounds-routes ports 0 info.inbounds start),
    )
