-- ===== src/Caddy/Ports.antt =====
-- The ports that `RemapInboundPorts` gives, by the index of the inbound.
use angry_box.Prelude.{
  ℕ, zero, suc, ◌+◌, ◌≤◌, ◌<◌, ◌≡◌, refl, sym, ap, ◌∙◌, ◌⊎◌, inl, inr, true, false, List, [], ◌∷◌,
  some, ==_iff, length, length-map, get_elem?, Bool-cases, arith,
}
use angry_box.Model.Panel.{NodeInbound}
use angry_box.Caddy.{
  has_port, caddy_owned_ports, stays, native_ports, is_busy, remap_inbound_ports, caddy_evict_port,
}
use angry_box.Caddy.Placed.{Placed, nothing, kept, moved, owned_below, place_all-Placed}

get_elem?-lt :
    (ibs : List NodeInbound) (i : ℕ) (ib : NodeInbound) → get_elem? ibs i ≡ some ib → i < length ibs
get_elem?-lt [] i ib at = absurd (cc)
get_elem?-lt (b ∷ ibs) zero ib at = omega arith
get_elem?-lt (b ∷ ibs) (suc i) ib at = let lt = get_elem?-lt ibs i ib at in omega (arith, lt)

abbrev Covers : List ℕ → List NodeInbound → Type 0
Covers native ibs =
    (j : ℕ) (ib : NodeInbound) → get_elem? ibs j ≡ some ib → has_port native ib.port ≡ true

place_moved :
    (native taken : List ℕ) (ibs : List NodeInbound) (ps : List ℕ)
    → Placed native taken ibs ps
    → (i : ℕ) (ib : NodeInbound) (p : ℕ) → get_elem? ibs i ≡ some ib
    → get_elem? ps i ≡ some p
    → stays ib ≡ false
    → (11000 ≤ p)
      × (p ≤ 11000 + length native + length taken + i)
      × (is_busy native taken p ≡ false)
place_moved native taken [] (q ∷ ps) w i ib p at here h = elim w [ ]
place_moved native taken (b ∷ ibs) [] w i ib p at here h = elim w [ ]
place_moved native taken [] [] nothing i ib p at here h = absurd (cc)
place_moved native taken (b ∷ ibs) (q ∷ ps) (kept same rest) zero ib p at here h =
    absurd (let e : b ≡ ib = ground (arith, at) in ground (arith, ap stays e, same, h))
place_moved native taken (b ∷ ibs) (q ∷ ps) (kept same rest) (suc i) ib p at here h =
    let (low, high, free) = place_moved native taken ibs ps rest i ib p at here h in
    (low, omega (arith, high), free)
place_moved native taken (b ∷ ibs) (q ∷ ps) (moved other low high free rest) zero ib p at here h =
    let e : q ≡ p = ground (arith, here) in
    (omega (arith, low, e), omega (arith, high, e), ap (is_busy native taken) (sym e) ∙ free)
place_moved native taken (b ∷ ibs) (q ∷ ps) (moved other low high free rest) (suc i) ib p at here
      h =
    let (low', high', free') = place_moved native (q ∷ taken) ibs ps rest i ib p at here h in
    (low', omega (arith, high'), ground (arith, free'))

place_kept :
    (native taken : List ℕ) (ibs : List NodeInbound) (ps : List ℕ)
    → Placed native taken ibs ps
    → (i : ℕ) (ib : NodeInbound) (p : ℕ) → get_elem? ibs i ≡ some ib
    → get_elem? ps i ≡ some p
    → stays ib ≡ true
    → p ≡ ib.port
place_kept native taken [] (q ∷ ps) w i ib p at here h = elim w [ ]
place_kept native taken (b ∷ ibs) [] w i ib p at here h = elim w [ ]
place_kept native taken [] [] nothing i ib p at here h = absurd (cc)
place_kept native taken (b ∷ ibs) (q ∷ ps) (kept same rest) zero ib p at here h =
    let e : b ≡ ib = ground (arith, at) in
    let e' : b.port ≡ p = ground (arith, here) in sym e' ∙ ap (λ (x : NodeInbound). x.port) e
place_kept native taken (b ∷ ibs) (q ∷ ps) (kept same rest) (suc i) ib p at here h =
    place_kept native taken ibs ps rest i ib p at here h
place_kept native taken (b ∷ ibs) (q ∷ ps) (moved other low high free rest) zero ib p at here h =
    absurd (let e : b ≡ ib = ground (arith, at) in ground (arith, ap stays e, other, h))
place_kept native taken (b ∷ ibs) (q ∷ ps) (moved other low high free rest) (suc i) ib p at here h =
    place_kept native (q ∷ taken) ibs ps rest i ib p at here h

-- A port that was given away and is no inbound's own is not given again.
not_again :
    (native taken : List ℕ) (ibs : List NodeInbound) (ps : List ℕ)
    → Placed native taken ibs ps
    → Covers native ibs
    → (j p : ℕ) → has_port taken p ≡ true
    → has_port native p ≡ false
    → get_elem? ps j ≡ some p
    → ⊥
not_again native taken [] (q ∷ ps) w covers j p gone own here = elim w [ ]
not_again native taken (b ∷ ibs) [] w covers j p gone own here = elim w [ ]
not_again native taken [] [] nothing covers j p gone own here = absurd (cc)
not_again native taken (b ∷ ibs) (q ∷ ps) (kept same rest) covers zero p gone own here =
    let e : b.port ≡ p = ground (arith, here) in
    absurd (ground (arith, covers 0 b refl, ap (has_port native) e, own))
not_again native taken (b ∷ ibs) (q ∷ ps) (kept same rest) covers (suc j) p gone own here =
    not_again native taken ibs ps rest (λ k. covers (suc k)) j p gone own here
not_again native taken (b ∷ ibs) (q ∷ ps) (moved other low high free rest) covers zero p gone own
      here =
    let e : q ≡ p = ground (arith, here) in
    absurd (ground (arith, ap (is_busy native taken) e, free, gone))
not_again native taken (b ∷ ibs) (q ∷ ps) (moved other low high free rest) covers (suc j) p gone own
      here =
    not_again native (q ∷ taken) ibs ps rest (λ k. covers (suc k)) j p (ground (arith, gone)) own
      here

unique :
    (native taken : List ℕ) (ibs : List NodeInbound) (ps : List ℕ)
    → Placed native taken ibs ps
    → Covers native ibs
    → (i j : ℕ) (ib : NodeInbound) (p : ℕ) → get_elem? ibs i ≡ some ib
    → stays ib ≡ false
    → get_elem? ps i ≡ some p
    → get_elem? ps j ≡ some p
    → i ≡ j
unique native taken [] (q ∷ ps) w covers i j ib p at h here there = elim w [ ]
unique native taken (b ∷ ibs) [] w covers i j ib p at h here there = elim w [ ]
unique native taken [] [] nothing covers i j ib p at h here there = absurd (cc)
unique native taken (b ∷ ibs) (q ∷ ps) (kept same rest) covers zero j ib p at h here there =
    absurd (let e : b ≡ ib = ground (arith, at) in ground (arith, ap stays e, same, h))
unique native taken (b ∷ ibs) (q ∷ ps) (kept same rest) covers (suc i) zero ib p at h here there =
    absurd (
      let e : b.port ≡ p = ground (arith, there) in
      let (low, high, free) = place_moved native taken ibs ps rest i ib p at here h in
      ground (arith, free, covers 0 b refl, ap (has_port native) e))
unique native taken (b ∷ ibs) (q ∷ ps) (kept same rest) covers (suc i) (suc j) ib p at h here
      there =
    ap suc (unique native taken ibs ps rest (λ k. covers (suc k)) i j ib p at h here there)
unique native taken (b ∷ ibs) (q ∷ ps) (moved other low high free rest) covers zero zero ib p at h
      here there =
    refl
unique native taken (b ∷ ibs) (q ∷ ps) (moved other low high free rest) covers zero (suc j) ib p at
      h here there =
    absurd (
      let e : q ≡ p = ground (arith, here) in
      not_again native (q ∷ taken) ibs ps rest (λ k. covers (suc k)) j p
        (ground (arith, (==_iff p q).1, sym e)) (ground (arith, ap (is_busy native taken) e, free))
        there)
unique native taken (b ∷ ibs) (q ∷ ps) (moved other low high free rest) covers (suc i) zero ib p at
      h here there =
    absurd (
      let e : q ≡ p = ground (arith, there) in
      let (low', high', free') = place_moved native (q ∷ taken) ibs ps rest i ib p at here h in
      ground (arith, free', (==_iff p q).1, sym e))
unique native taken (b ∷ ibs) (q ∷ ps) (moved other low high free rest) covers (suc i) (suc j) ib p
      at h here there =
    ap suc (unique native (q ∷ taken) ibs ps rest (λ k. covers (suc k)) i j ib p at h here there)

Covers-own : (ibs : List NodeInbound) → Covers (native_ports ibs) ibs
Covers-own [] j ib at = absurd (cc)
Covers-own (b ∷ ibs) zero ib at =
    let e : b ≡ ib = ground (arith, at) in
    ground (arith, ap (λ (x : NodeInbound). x.port) e, (==_iff ib.port b.port).1)
Covers-own (b ∷ ibs) (suc j) ib at = ground (arith, Covers-own ibs j ib at)

remap_inbound_ports-Placed :
    (ibs : List NodeInbound) (ps : List ℕ)
    → remap_inbound_ports ibs ≡ some ps
    → Placed (native_ports ibs) [] ibs ps
unfolding remap_inbound_ports
remap_inbound_ports-Placed ibs ps e =
    place_all-Placed (6 + length ibs + length ibs) (native_ports ibs) ibs
      (record { next = 11000; taken = [] }) ps (omega arith)
      (λ i low high. absurd (omega (arith, low, high))) e

-- An inbound that stays keeps its port; one that moves gets a port from 11000 on, above that by no more than
-- the number of inbounds and its index, which is none of caddy's and no inbound's own.
remap_inbound_ports-place :
    (ibs : List NodeInbound) (ps : List ℕ) (i : ℕ) (ib : NodeInbound) (p : ℕ)
    → remap_inbound_ports ibs ≡ some ps
    → get_elem? ibs i ≡ some ib
    → get_elem? ps i ≡ some p
    → (stays ib ≡ true) × (p ≡ ib.port)
      ⊎ (stays ib ≡ false)
        × (11000 ≤ p)
        × (p ≤ 11000 + length ibs + i)
        × (has_port caddy_owned_ports p ≡ false)
        × (has_port (native_ports ibs) p ≡ false)
remap_inbound_ports-place ibs ps i ib p e at here = elim (Bool-cases (stays ib)) [
  | inl same ↦ inl (
    same,
    place_kept (native_ports ibs) [] ibs ps (remap_inbound_ports-Placed ibs ps e) i ib p at here
        same,
  )
  | inr other ↦
      let (low, high, free) =
        place_moved (native_ports ibs) [] ibs ps (remap_inbound_ports-Placed ibs ps e) i ib p at
          here other in
      let count = length-map (λ (x : NodeInbound). x.port) ibs in
      inr (other, low, omega (arith, high, count), owned_below p low, ground (arith, free))
]

-- The port that an inbound moves to belongs to no other inbound, moved or not.
pub remap_inbound_ports_unique :
    (ibs : List NodeInbound) (ps : List ℕ) (i j : ℕ) (ib : NodeInbound) (p : ℕ)
    → remap_inbound_ports ibs ≡ some ps
    → get_elem? ibs i ≡ some ib
    → stays ib ≡ false
    → get_elem? ps i ≡ some p
    → get_elem? ps j ≡ some p
    → i ≡ j
remap_inbound_ports_unique ibs ps i j ib p e at h here there =
    unique (native_ports ibs) [] ibs ps (remap_inbound_ports-Placed ibs ps e) (Covers-own ibs) i j
      ib p at h here there

-- On a node with at most 500 inbounds the ports of moved inbounds stay below every port to which
-- `CaddyEvictPort` sends a listener from one of caddy's ports.
remap_inbound_ports-below_evicted :
    (ibs : List NodeInbound) (ps : List ℕ) (i : ℕ) (ib : NodeInbound) (p port : ℕ)
    → length ibs ≤ 500
    → remap_inbound_ports ibs ≡ some ps
    → get_elem? ibs i ≡ some ib
    → stays ib ≡ false
    → get_elem? ps i ≡ some p
    → has_port caddy_owned_ports port ≡ true
    → p < caddy_evict_port port
unfolding caddy_evict_port
remap_inbound_ports-below_evicted ibs ps i ib p port few e at h here owned =
    elim (remap_inbound_ports-place ibs ps i ib p e at here) [
      | inl (same, port_same) ↦ absurd (ground (arith, same, h))
      | inr (other, low, high, mine, own) ↦
          rw owned (let lt = get_elem?-lt ibs i ib at in omega (arith, high, few, lt))
    ]
