-- ===== src/Address/Allocation.antt =====
-- What the allocators of internal/chain/cryptogen.go promise: while the network has a free host they
-- find one, and the address they give belongs to nobody else.
use angry_box.Prelude.{
  ℕ, ◌≤◌, ◌<◌, ◌≡◌, ap, String, false, List, map, length, length-map, ◌=s◌, =s_iff, any, arith,
}
use angry_box.Prelude.Decimal.{◌+s◌}
use angry_box.Prelude.Free.{first_free-some, first_free-found}
use angry_box.Address.{
  awg_ip_key, awg_server_prefix, host_ip, is_occupied, ip_or_none, allocate_awg_host_ip,
  subnet_prefix, is_subnet_used, server_or_default, allocate_awg_server_subnet,
}
use angry_box.Address.Keys.{has_slash, awg_ip_key-host_ip_inj, subnet_prefix_inj}

-- Where fewer than 253 addresses are taken, the allocator ends with an address of its network: a host from
-- 2 to 254 whose key is the key of no address taken.
pub allocate_awg_host_ip-free :
    (prefix : String) (taken : List String)
    → has_slash prefix ≡ false
    → length taken < 253
    → (host : ℕ) × (allocate_awg_host_ip prefix taken ≡ host_ip prefix host)
      × (2 ≤ host)
      × (host ≤ 254)
      × (any (λ a. awg_ip_key (host_ip prefix host) =s a) (map awg_ip_key taken) ≡ false)
unfolding allocate_awg_host_ip
allocate_awg_host_ip-free prefix taken h lt =
    let (host, e) =
      first_free-found (λ a b. a =s b) =s_iff (λ i. awg_ip_key (host_ip prefix i)) 253 2
        (map awg_ip_key taken)
        (λ i j less le same.
          let eq = awg_ip_key-host_ip_inj prefix i j h same in omega (arith, less, eq))
        (rw (length-map awg_ip_key taken) lt) in
    let (low, high, free) = first_free-some 253 (is_occupied taken prefix) 2 host e in
    (host, ap (ip_or_none prefix) e, low, omega (arith, high), free)

-- Where fewer than 250 server networks are taken, the network given is 10.8.X.0/24 with X from 1 to 250,
-- and no address taken lies in it.
pub allocate_awg_server_subnet-free :
    (taken : List String)
    → length taken < 250
    → (sub : ℕ) × (allocate_awg_server_subnet taken ≡ subnet_prefix sub +s ".1/24")
      × (1 ≤ sub)
      × (sub ≤ 250)
      × (any (λ p. subnet_prefix sub =s p) (map awg_server_prefix taken) ≡ false)
unfolding allocate_awg_server_subnet
allocate_awg_server_subnet-free taken lt =
    let (sub, e) =
      first_free-found (λ a b. a =s b) =s_iff subnet_prefix 250 1 (map awg_server_prefix taken)
        (λ i j less le same. let eq = subnet_prefix_inj i j same in omega (arith, less, eq))
        (rw (length-map awg_server_prefix taken) lt) in
    let (low, high, free) = first_free-some 250 (is_subnet_used taken) 1 sub e in
    (sub, ap server_or_default e, low, omega (arith, high), free)
