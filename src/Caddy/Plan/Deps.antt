-- ===== src/Caddy/Plan/Deps.antt =====
-- What `ValidateUtilityDeps` guarantees of the inbounds that it lets through.
use angry_box.Prelude.{
  ℕ, ◌≡◌, String, true, false, [], ◌∷◌, none, some, ◌=s◌, =s_iff, Bool-cases, inl, inr, arith, ap,
}
use angry_box.Prelude.Text.{trim_space}
use angry_box.Model.Panel.{NodeInfo}
use angry_box.Caddy.{caddy_mode, utility_installed}
use angry_box.Caddy.Plan.{
  tls_utility_protocols, required_utilities_for_protocol, not_installed, missing_utilities,
  missing_error, validate_utility_deps,
}

required-tls :
    (proto : String)
    → tls_utility_protocols proto ≡ true
    → required_utilities_for_protocol proto ≡ "caddy" ∷ "acme" ∷ []
unfolding required_utilities_for_protocol
required-tls proto h = ground (arith, h)

not_mtproxy : (proto : String) → tls_utility_protocols proto ≡ true → (proto =s "mtproxy") ≡ false
not_mtproxy proto h = elim (Bool-cases (proto =s "mtproxy")) [
  | inr other ↦ other
  | inl same ↦
      absurd (ground (arith, ap tls_utility_protocols ((=s_iff proto "mtproxy").0 same), h))
]

none_missing :
    (info : NodeInfo) (proto : String)
    → missing_error proto (not_installed info ("caddy" ∷ "acme" ∷ [])) ≡ none
    → (utility_installed info "caddy" ≡ true) × (utility_installed info "acme" ≡ true)
none_missing info proto h = elim (Bool-cases (utility_installed info "caddy")) [
  | inr absent ↦ absurd (ground (arith, absent, h))
  | inl caddy ↦ elim (Bool-cases (utility_installed info "acme")) [
    | inr absent ↦ absurd (ground (arith, absent, caddy, h))
    | inl acme ↦ (caddy, acme)
  ]
]

validated :
    (info : NodeInfo) (proto : String) (port : ℕ)
    → tls_utility_protocols proto ≡ true
    → validate_utility_deps (some info) proto port ≡ none
    → missing_error proto (not_installed info ("caddy" ∷ "acme" ∷ [])) ≡ none
unfolding validate_utility_deps missing_utilities
validated info proto port tls h = elim (Bool-cases (info.tls_domain =s "")) [
  | inl blank ↦ absurd (let e = rw (required-tls proto tls, blank) at h in cc)
  | inr set ↦ rw (required-tls proto tls, set, not_mtproxy proto tls) at h
]

-- A node that takes a naive or trusttunnel inbound has caddy and acme installed, and runs in caddy mode
-- unless its domain is blank.
pub validate_utility_deps-caddy_mode :
    (info : NodeInfo) (proto : String) (port : ℕ)
    → tls_utility_protocols proto ≡ true
    → (trim_space info.tls_domain =s "") ≡ false
    → validate_utility_deps (some info) proto port ≡ none
    → (utility_installed info "caddy" ≡ true)
      × (utility_installed info "acme" ≡ true)
      × (caddy_mode info ≡ true)
unfolding validate_utility_deps missing_utilities caddy_mode
validate_utility_deps-caddy_mode info proto port tls named h =
    let (caddy, acme) = none_missing info proto (validated info proto port tls h) in
    (caddy, acme, ground (arith, named, caddy))
