-- ===== src/Caddy.antt =====
-- The ports and host names of a node behind the caddy router: internal/chain/utilities.go.
-- Caddy owns five ports; an inbound on one of them moves to the first free port from 11000 on, a listener
-- that cannot be fronted to the range from 12000 on, and protocols with TLS get a host name each.

pub mod Remap
pub mod Placed
pub mod Ports
pub mod Plan
use angry_box.Prelude.{
  ℕ, zero, suc, ◌+◌, ◌%◌, ◌≤◌, ◌<◌, ◌≡◌, ◌≢◌, String, Bool, true, false, not, ◌&&◌, ◌||◌, List, [],
  ◌∷◌, ◌++◌, map, Option, none, some, ◌==◌, ◌=s◌, if◌then◌else◌, any, length, get_elem?, keep,
  is_empty,
}
use angry_box.Prelude.Decimal.{decimal, ◌+s◌}
use angry_box.Prelude.Text.{has_prefix, trim_space, equal_fold}
use angry_box.Prelude.Free.{first_free}
use angry_box.Model.Base.{UtilityState}
use angry_box.Model.Panel.{NodeInbound, NodeInfo}
use angry_box.Store.Utilities.{find_utility}

-- `CaddyInternalHTTPPort`, `CaddyInternalHTTPSPort`, `PanelRelayPort`
abbrev pub panel_relay_port : ℕ
panel_relay_port = 8900

-- `caddyOwnedPorts`
abbrev pub caddy_owned_ports : List ℕ
caddy_owned_ports = 80 ∷ 443 ∷ 8080 ∷ 8443 ∷ panel_relay_port ∷ []

abbrev pub has_port : List ℕ → ℕ → Bool
has_port ports p = any (λ q. p == q) ports

-- `udpOnlyInbound`
unfoldable pub udp_only_inbound : NodeInbound → Bool
udp_only_inbound ib =
    if ib.protocol =s "awg"
    then true
    else ib.protocol =s "mieru" && equal_fold ib.mieru_transport "UDP"

-- The inbounds that keep their port.
unfoldable pub stays : NodeInbound → Bool
unfolding udp_only_inbound
stays ib = udp_only_inbound ib || not (has_port caddy_owned_ports ib.port)

abbrev pub native_ports : List NodeInbound → List ℕ
native_ports ibs = map (λ (ib : NodeInbound). ib.port) ibs

-- `next` and `taken` of the loop.
pub record Slots : Type 0 where
  pub next : ℕ
  pub taken : List ℕ

-- The test of the inner loop: the port is owned by caddy, native, or taken.
abbrev pub is_busy : List ℕ → List ℕ → ℕ → Bool
is_busy native taken p = has_port caddy_owned_ports p || has_port native p || has_port taken p

abbrev pub slot : List ℕ → Slots → Option ℕ → Option (ℕ × Slots)
slot native s none = none
slot native s (some p) = some (p, record { next = p; taken = p ∷ s.taken })

-- The body of the loop for one inbound: its port, and the state after it. `rounds` bounds the loop that
-- counts `next` up.
abbrev pub place : ℕ → List ℕ → Slots → NodeInbound → Option (ℕ × Slots)
place rounds native s ib =
    if stays ib
    then some (ib.port, s)
    else slot native s (first_free rounds (is_busy native s.taken) s.next)

abbrev pub and_then : Option (ℕ × Slots) → (Slots → Option (List ℕ)) → Option (List ℕ)
and_then none k = none
and_then (some (p, s)) k = map_cons p (k s)
  where
    map_cons : ℕ → Option (List ℕ) → Option (List ℕ)
    map_cons q none = none
    map_cons q (some qs) = some (q ∷ qs)

abbrev pub place_all : ℕ → List ℕ → List NodeInbound → Slots → Option (List ℕ)
place_all rounds native [] s = some []
place_all rounds native (ib ∷ ibs) s =
    and_then (place rounds native s ib) (place_all rounds native ibs)

-- `RemapInboundPorts`, the port of each inbound by its index. Five ports are caddy's, and every inbound has
-- a port of its own and is given at most one, so these rounds suffice (`remap_inbound_ports-ends`).
unfoldable pub remap_inbound_ports : List NodeInbound → Option (List ℕ)
remap_inbound_ports ibs =
    place_all (6 + length ibs + length ibs) (native_ports ibs) ibs
      (record { next = 11000; taken = [] })

-- `CaddyEvictPort`
unfoldable pub caddy_evict_port : ℕ → ℕ
caddy_evict_port port = if not (has_port caddy_owned_ports port) then port else 12000 + port % 1000

abbrev pub is_installed : Option UtilityState → Bool
is_installed none = false
is_installed (some u) = u.installed

-- `NodeInfo.UtilityInstalled`
abbrev pub utility_installed : NodeInfo → String → Bool
utility_installed info name = is_installed (find_utility info.utilities name)

-- `CaddyMode`
unfoldable pub caddy_mode : NodeInfo → Bool
caddy_mode info = not (trim_space info.tls_domain =s "") && utility_installed info "caddy"
