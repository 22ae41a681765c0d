-- ===== src/Tests/Address.antt =====
-- A network with two peers, and a node with two AWG inbounds.
use angry_box.Prelude.{◌≡◌, ◌≤◌, ℕ, refl, String, List, [], ◌∷◌, false, map, ◌=s◌, any, arith}
use angry_box.Address.{
  awg_ip_key, split_dots, awg_server_prefix, host_ip, allocate_awg_host_ip, allocate_awg_peer_ip,
  allocate_awg_server_subnet,
}
use angry_box.Address.Allocation.{allocate_awg_host_ip-free}

addresses : Unit {0}
unfolding awg_ip_key split_dots awg_server_prefix allocate_awg_host_ip allocate_awg_server_subnet
addresses = tt

abbrev peers : List String
peers = "10.8.0.2/32" ∷ "10.8.0.4" ∷ "10.8.0.3/32" ∷ []

abbrev servers : List String
servers = "10.8.1.1/24" ∷ "" ∷ "10.8.2.1/24" ∷ []

allocation_tests :
    (allocate_awg_peer_ip peers ≡ "10.8.0.5/32")
    × (allocate_awg_server_subnet servers ≡ "10.8.3.1/24")
    × (awg_server_prefix "10.8" ≡ "10.8.0")
    × (awg_server_prefix "10.8.7.1/24" ≡ "10.8.7")
unfolding addresses
allocation_tests = (refl, refl, refl, refl)

allocate_awg_host_ip-free_example :
    (host : ℕ) × (allocate_awg_host_ip "10.8.0" peers ≡ host_ip "10.8.0" host)
    × (2 ≤ host)
    × (host ≤ 254)
    × (any (λ a. awg_ip_key (host_ip "10.8.0" host) =s a) (map awg_ip_key peers) ≡ false)
allocate_awg_host_ip-free_example = allocate_awg_host_ip-free "10.8.0" peers refl (omega arith)
