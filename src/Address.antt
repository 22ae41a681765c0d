-- ===== src/Address.antt =====
-- The tunnel addresses of internal/chain/cryptogen.go: peers get the first free host of a /24 network,
-- AWG servers the first free network of 10.8.0.0/16.
pub mod Keys
pub mod Networks
pub mod Allocation
use Prim.Native.Char.{code}
use Prim.Native.String
use angry_box.Prelude.{
  ℕ, suc, ◌+◌, String, Bool, true, false, not, ◌&&◌, ◌||◌, List, [], ◌∷◌, ◌++◌, map, Option, none,
  some, ◌==◌, ◌=s◌, if◌then◌else◌, any, keep,
}
use angry_box.Prelude.Decimal.{decimal, ◌+s◌}
use angry_box.Prelude.Free.{first_free}
use angry_box.Model.Panel.{User, NodeInbound, NodeInfo}

-- `awgIPKey`: the address up to the first slash.
unfoldable pub awg_ip_key : String → String
awg_ip_key String.[] = ""
awg_ip_key (String.◌∷◌ c s) =
    let rest = awg_ip_key s in if code c == 47 then "" else String.◌∷◌ c rest

abbrev pub cons_first : String → List String → List String
cons_first c [] = c ∷ []
cons_first c (s ∷ ss) = (c +s s) ∷ ss

-- `strings.Split(a, ".")`
unfoldable pub split_dots : String → List String
split_dots String.[] = "" ∷ []
split_dots (String.◌∷◌ c s) =
    let rest = split_dots s in if code c == 46 then "" ∷ rest else cons_first (String.◌∷◌ c "") rest

abbrev pub three_parts : List String → String
three_parts [] = "10.8.0"
three_parts (a ∷ []) = "10.8.0"
three_parts (a ∷ b ∷ []) = "10.8.0"
three_parts (a ∷ b ∷ c ∷ ss) = a +s "." +s b +s "." +s c

-- `awgServerPrefix`
unfoldable pub awg_server_prefix : String → String
awg_server_prefix addr = three_parts (split_dots (awg_ip_key addr))

-- `fmt.Sprintf("%s.%d/32", prefix, host)`
abbrev pub host_ip : String → ℕ → String
host_ip prefix host = prefix +s "." +s decimal host +s "/32"

-- `occupied[awgIPKey(ip)]`
abbrev pub is_occupied : List String → String → ℕ → Bool
is_occupied taken prefix host =
    any (λ a. awg_ip_key (host_ip prefix host) =s a) (map awg_ip_key taken)

abbrev pub ip_or_none : String → Option ℕ → String
ip_or_none prefix none = ""
ip_or_none prefix (some host) = host_ip prefix host

-- `allocateAWGPeerIPInSubnet`, and `allocateAWGHostIP`, which has the same text: hosts 2 to 254.
unfoldable pub allocate_awg_host_ip : String → List String → String
allocate_awg_host_ip prefix taken = ip_or_none prefix (first_free 253 (is_occupied taken prefix) 2)

-- `allocateAWGPeerIP`, `allocateAWGTransitIP`, `allocateAWGExitIP`
abbrev pub allocate_awg_peer_ip : List String → String
allocate_awg_peer_ip taken = allocate_awg_host_ip "10.8.0" taken

abbrev pub allocate_awg_transit_ip : List String → String
allocate_awg_transit_ip taken = allocate_awg_host_ip "10.9.0" taken

abbrev pub allocate_awg_exit_ip : List String → String
allocate_awg_exit_ip taken = allocate_awg_host_ip "10.10.0" taken

-- `fmt.Sprintf("10.8.%d", sub)`
abbrev pub subnet_prefix : ℕ → String
subnet_prefix sub = "10.8." +s decimal sub

abbrev pub is_subnet_used : List String → ℕ → Bool
is_subnet_used taken sub = any (λ p. subnet_prefix sub =s p) (map awg_server_prefix taken)

abbrev pub server_or_default : Option ℕ → String
server_or_default none = "10.8.0.1/24"
server_or_default (some sub) = subnet_prefix sub +s ".1/24"

-- `allocateAWGServerSubnet`: networks 1 to 250, and the default where all are used.
unfoldable pub allocate_awg_server_subnet : List String → String
allocate_awg_server_subnet taken = server_or_default (first_free 250 (is_subnet_used taken) 1)

abbrev pub or_default_prefix : String → String
or_default_prefix prefix = if prefix =s "" then "10.8.0" else prefix

-- `EnsureUserAWGAddressPrefix`
unfoldable pub ensure_user_awg_address_prefix : User → List String → String → User
ensure_user_awg_address_prefix u existing prefix =
    if not (u.awg_address =s "")
    then u
    else if not (any (λ p. p =s "awg") u.protocols)
    then u
    else record u { awg_address = allocate_awg_host_ip (or_default_prefix prefix) existing }

-- `EnsureUserAWGAddress`
abbrev pub ensure_user_awg_address : User → List String → User
ensure_user_awg_address u existing = ensure_user_awg_address_prefix u existing "10.8.0"

-- `awgSubnetsInUseOnNode` of internal/chain/profile_deploy.go
abbrev pub is_awg : NodeInbound → Bool
is_awg ib = ib.protocol =s "awg"

abbrev pub has_server_address : NodeInbound → Bool
has_server_address ib = is_awg ib && not (ib.awg_server_address =s "")

abbrev pub uses_default : NodeInbound → Bool
uses_default ib = is_awg ib && ib.awg_server_address =s ""

unfoldable pub awg_subnets_in_use_on_node : NodeInfo → List String
awg_subnets_in_use_on_node ni =
    let explicit =
      map (λ (ib : NodeInbound). ib.awg_server_address) (keep has_server_address ni.inbounds) in
    if any uses_default ni.inbounds then explicit ++ "10.8.0.1/24" ∷ [] else explicit
