-- ===== src/Tests/Sync.antt =====
-- An interface that can hold two peers, and configurations of two users.
use mathlib.Core.Path.{subst}
use angry_box.Prelude.Decimal.{◌+s◌}
use angry_box.Prelude.{
  not, ◌⊎◌, sym, ◌≡◌, refl, ap, inl, inr, String, Bool, true, false, [], ◌∷◌, map, Option, none,
  some, arith, ◌=s◌, =s_iff, if◌then◌else◌, keep, Bool-cases,
}
use angry_box.Prelude.Text.{trim_space}
use angry_box.Awg.Conf.{AwgServerConfParams, interface_lines, peer_lines, render_server_awg_conf}
use angry_box.Awg.Split.{split_lines, split_awg_conf}
use angry_box.Awg.Split.Roundtrip.{shown, has_key, split_awg_conf-render_server_awg_conf}
use angry_box.Awg.Split.Preshared.{rekeyed, split_awg_conf-rekeyed}
use angry_box.Awg.Split.{join_lines}
use angry_box.Awg.Sync.{
  Node, IsInterface, contains, set_all, remove_all, sync_awg_peers, try_peer_sync,
}
use angry_box.Awg.Sync.Wanted.{wanted_or}
use angry_box.Awg.Sync.Exact.{try_peer_sync-render}

abbrev key : String
key = "K1234567"

abbrev other_key : String
other_key = "K7654321"

-- A peer that had the addresses has none left.
abbrev without : String → Option String → Option String
without a none = none
without a (some b) = if a =s b then some "" else some b

abbrev listed : Option String → Option String → String
listed none none = ""
listed none (some b) = other_key
listed (some a) none = key
listed (some a) (some b) = key +s "\n" +s other_key

abbrev Pair : Type 0
Pair = Option String × Option String

abbrev peer_of : Pair → String → Option String
peer_of (x, y) k = if k =s key then x else if k =s other_key then y else none

abbrev set_in : String → String → Pair → Bool × Pair
set_in k a (x, y) =
    if k =s key
    then (true, (some a, without a y))
    else if k =s other_key
    then (true, (without a x, some a))
    else (false, (x, y))

abbrev removed_in : String → Pair → Pair
removed_in k (x, y) = if k =s key then (none, y) else if k =s other_key then (x, none) else (x, y)

abbrev two_peers : Node
two_peers = record {
  State = Pair;
  is_active = λ s. some "active";
  conf = λ s. some "[Interface]\nAddress = 10.8.0.1/24\nPrivateKey = P\nMTU = 1420\n";
  show_peers = λ s. some (listed s.0 s.1);
  set_peer = set_in;
  remove_peer = λ k s. (true, removed_in k s);
  map_order = λ ks. ks;
}

without-kept :
    (a : String) (o : Option String)
    → ((b : String) → o ≡ some b → not (a =s b) ≡ true)
    → without a o ≡ o
without-kept a none h = refl
without-kept a (some b) h = ground (arith, h b refl)

-- Which of the two peers a command that succeeds has set.
set_cases :
    (k a : String) (x y : Option String) (s' : Pair)
    → ◌≡◌ {A = Bool × Pair} (set_in k a (x, y)) (true, s')
    → ((k =s key) ≡ true) × (s' ≡ (some a, without a y))
      ⊎ ((k =s key) ≡ false) × ((k =s other_key) ≡ true) × (s' ≡ (without a x, some a))
set_cases k a x y s' h = elim (Bool-cases (k =s key)) [
  | inl one ↦
      let e : ◌≡◌ {A = Bool × Pair} (true, (some a, without a y)) (true, s') = rw one at h in
      inl (one, sym (ap (λ (r : Bool × Pair). r.1) e))
  | inr not_one ↦ elim (Bool-cases (k =s other_key)) [
    | inl two ↦
        let e : ◌≡◌ {A = Bool × Pair} (true, (without a x, some a)) (true, s') =
          rw (not_one, two) at h in
        inr (not_one, two, sym (ap (λ (r : Bool × Pair). r.1) e))
    | inr miss ↦
        let e : ◌≡◌ {A = Bool × Pair} (false, (x, y)) (true, s') = rw (not_one, miss) at h in
        absurd (cc (ap (λ (r : Bool × Pair). r.0) e))
  ]
]

two_sets :
    (k a : String) (s s' : Pair)
    → ◌≡◌ {A = Bool × Pair} (set_in k a s) (true, s')
    → peer_of s' k ≡ some a
two_sets k a (x, y) s' h = elim (set_cases k a x y s' h) [
  | inl (one, e) ↦ rw (e, one) refl
  | inr (not_one, two, e) ↦ rw (e, not_one, two) refl
]

two_spares :
    (k a j : String) (s s' : Pair)
    → ◌≡◌ {A = Bool × Pair} (set_in k a s) (true, s')
    → (k =s j) ≡ false
    → ((b : String) → peer_of s j ≡ some b → not (a =s b) ≡ true)
    → peer_of s' j ≡ peer_of s j
two_spares k a j (x, y) s' h other off = elim (set_cases k a x y s' h) [
  | inl (one, e) ↦
      let not_one : (j =s key) ≡ false =
        ground (arith, =s_iff k key, =s_iff j key, =s_iff k j, one, other) in
      elim (Bool-cases (j =s other_key)) [
        | inl two ↦
            rw (e, not_one, two) (without-kept a y (λ b there. off b (rw (not_one, two) there)))
        | inr miss ↦ rw (e, not_one, miss) refl
      ]
  | inr (k_not_one, two, e) ↦
      let not_two : (j =s other_key) ≡ false =
        ground (arith, =s_iff k other_key, =s_iff j other_key, =s_iff k j, two, other) in
      elim (Bool-cases (j =s key)) [
        | inl one ↦ rw (e, one) (without-kept a x (λ b there. off b (rw one there)))
        | inr miss ↦ rw (e, miss, not_two) refl
      ]
]

two_removes :
    (k j : String) (s s' : Pair)
    → ◌≡◌ {A = Bool × Pair} (true, removed_in k s) (true, s')
    → peer_of s' j ≡ (if k =s j then none else peer_of s j)
two_removes k j (x, y) s' h =
    let now : removed_in k (x, y) ≡ s' = ap (λ (r : Bool × Pair). r.1) h in
    rw (← now) (elim (Bool-cases (k =s key)) [
      | inl one ↦ rw one (ground (arith, =s_iff k key, =s_iff j key, =s_iff k j, one))
      | inr not_one ↦ elim (Bool-cases (k =s other_key)) [
        | inl two ↦
            rw (not_one, two)
              (ground (
                arith,
                =s_iff k key,
                =s_iff j key,
                =s_iff k j,
                =s_iff k other_key,
                =s_iff j other_key,
                two,
                not_one,
              ))
        | inr miss ↦
            rw (not_one, miss)
              (ground (
                arith,
                =s_iff k key,
                =s_iff j key,
                =s_iff k j,
                =s_iff k other_key,
                =s_iff j other_key,
                miss,
                not_one,
              ))
      ]
    ])

two_shows :
    (x y : Option String) (k a : String)
    → peer_of (x, y) k ≡ some a
    → contains k (map trim_space (split_lines (listed x y))) ≡ true
unfolding trim_space
two_shows none none k a there = ground (arith, there)
two_shows none (some b) k a there = ground (arith, there, =s_iff k other_key, =s_iff other_key k)
two_shows (some b) none k a there = ground (arith, there, =s_iff k key, =s_iff key k)
two_shows (some b) (some c) k a there =
    ground (arith, there, =s_iff k key, =s_iff key k, =s_iff k other_key, =s_iff other_key k)

some_inj : {a b : String} → some a ≡ some b → a ≡ b
some_inj e = cc

two_peers-IsInterface : IsInterface two_peers
unfolding trim_space
two_peers-IsInterface = record {
  peer = peer_of;
  apart = λ a b. not (a =s b);
  shows = λ s out k a shown ne there.
      subst (λ o. contains k (map trim_space (split_lines o)) ≡ true) (some_inj shown)
        (two_shows s.0 s.1 k a there);
  sets = two_sets;
  spares = two_spares;
  removes = two_removes;
  orders = λ ks k. refl;
}

abbrev conf : AwgServerConfParams
conf = record {
  server_private_key = "P";
  listen_port = 0;
  tunnel_address = "";
  mtu = 0;
  amnezia = none;
  awg_version = "";
  awg3 = none;
  peers =
      record { public_key = key; allowed_ips = ""; preshared_key = "s" }
      ∷ record { public_key = ""; allowed_ips = ""; preshared_key = "" }
      ∷ [];
  tun_interface = "";
  interface_name = "";
}

split_test : split_awg_conf (render_server_awg_conf (λ k. none) conf) ≡ (
  "Address = 10.8.0.1/24\nPrivateKey = P\nMTU = 1420",
  record { public_key = key; allowed_ips = "10.8.0.2/32"; preshared_key = "" } ∷ [],
)
unfolding split_awg_conf render_server_awg_conf interface_lines peer_lines trim_space
split_test = refl

split_awg_conf-render_server_awg_conf_example :
    split_awg_conf (render_server_awg_conf (λ k. none) conf) ≡ (
      join_lines (map trim_space (interface_lines (λ k. none) conf)),
      map shown (keep has_key conf.peers),
    )
unfolding interface_lines peer_lines
split_awg_conf-render_server_awg_conf_example =
    split_awg_conf-render_server_awg_conf (λ k. none) conf
      (refl, (refl, (refl, (refl, (refl, (refl, (refl, (refl, (refl, tt)))))))))
      (inr ((refl, refl, refl), (inr (refl, refl, refl), (refl, refl, refl))), (inl refl, tt))

split_awg_conf-rekeyed_example :
    split_awg_conf (render_server_awg_conf (λ k. none) (rekeyed (λ q. "t") conf))
    ≡ split_awg_conf (render_server_awg_conf (λ k. none) conf)
unfolding interface_lines peer_lines
split_awg_conf-rekeyed_example =
    split_awg_conf-rekeyed (λ k. none) (λ q. "t") conf
      (refl, (refl, (refl, (refl, (refl, (refl, (refl, (refl, (refl, tt)))))))))
      (refl, (refl, (refl, (refl, (refl, (refl, (refl, (refl, (refl, tt)))))))))
      (inr ((refl, refl, refl), (inr (refl, refl, refl), (refl, refl, refl))), (inl refl, tt))
      (inr ((refl, refl, refl), (inr (refl, refl, refl), (refl, refl, refl))), (inl refl, tt))

-- A second peer, which has the address that the first is to get.
abbrev conf_of_two : AwgServerConfParams
conf_of_two = record conf {
  peers =
      record { public_key = key; allowed_ips = ""; preshared_key = "s" }
      ∷ record { public_key = other_key; allowed_ips = "10.8.0.3/32"; preshared_key = "" }
      ∷ [];
}

try_peer_sync-render_example :
    peer_of (some "10.8.0.2/32", some "10.8.0.3/32") other_key
    ≡ wanted_or other_key (map shown (keep has_key conf_of_two.peers)) none
unfolding interface_lines peer_lines two_peers-IsInterface try_peer_sync sync_awg_peers set_all
    remove_all split_awg_conf render_server_awg_conf trim_space
try_peer_sync-render_example =
    try_peer_sync-render two_peers two_peers-IsInterface (λ k. none) conf_of_two
      (none, some "10.8.0.2/32") (some "10.8.0.2/32", some "10.8.0.3/32") other_key refl
      (
        refl,
        (
          refl,
          (
            refl,
            (refl, (refl, (refl, (refl, (refl, (refl, (refl, (refl, (refl, (refl, tt)))))))))),
          ),
        ),
      )
      (
        inr ((refl, refl, refl), (inr (refl, refl, refl), (refl, refl, refl))),
        (inr ((refl, refl, refl), (inl refl, (refl, refl, refl))), tt),
      )
      ((refl, tt), (tt, tt)) refl
