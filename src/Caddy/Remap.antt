-- ===== src/Caddy/Remap.antt =====
-- What the loop of `RemapInboundPorts` gives: it ends, and the ports it moves to are caddy's, an inbound's or
-- another moved one's in no case.
use angry_box.Prelude.{
  not, true, false, if◌then◌else◌, ℕ, suc, ◌+◌, ◌<◌, ◌≡◌, refl, fun_ext, Bool, ◌||◌, List, [], ◌∷◌,
  ◌++◌, some, ◌==◌, ==_iff, any, length, length-map, length-append, Bool-cases, inl, inr, arith,
}
use angry_box.Prelude.Free.{first_free-some, first_free, first_free-found}
use angry_box.Model.Panel.{NodeInbound}
use angry_box.Caddy.{
  caddy_owned_ports, stays, native_ports, Slots, is_busy, place_all, remap_inbound_ports,
}

pub any-append :
    (test : ℕ → Bool) (xs ys : List ℕ) → any test (xs ++ ys) ≡ (any test xs || any test ys)
any-append test [] ys = refl
any-append test (x ∷ xs) ys = ground (arith, any-append test xs ys)

-- The three tests of the loop are one search in the lists put together.
is_busy-joined :
    (native taken : List ℕ) (p : ℕ)
    → is_busy native taken p ≡ any (λ q. p == q) (caddy_owned_ports ++ (native ++ taken))
is_busy-joined native taken p = ground (
  arith,
  any-append (λ q. p == q) caddy_owned_ports (native ++ taken),
  any-append (λ q. p == q) native taken,
)

-- A free port is found while there are fewer ports in use than rounds.
is_busy-found :
    (rounds k : ℕ) (native taken : List ℕ)
    → 5 + length native + length taken < rounds
    → (p : ℕ) × (first_free rounds (is_busy native taken) k ≡ some p)
is_busy-found rounds k native taken lt =
    let whole = length-append native taken in
    rw (fun_ext (is_busy-joined native taken)) (
      first_free-found (λ a b. a == b) ==_iff (λ i. i) rounds k
        (caddy_owned_ports ++ (native ++ taken)) (λ i j less le e. omega (arith, less, e))
        (omega (arith, whole, lt)))

-- One port for each inbound: its own, or one that caddy and the inbounds of the node do not have.
abbrev pub AllPlaced : List ℕ → List NodeInbound → List ℕ → Type 0
AllPlaced native [] [] = Unit
AllPlaced native [] (p ∷ ps) = ⊥
AllPlaced native (ib ∷ ibs) [] = ⊥
AllPlaced native (ib ∷ ibs) (p ∷ ps) =
    (if stays ib
        then p == ib.port
        else not (any (λ q. p == q) caddy_owned_ports || any (λ q. p == q) native))
      ≡ true
    × AllPlaced native ibs ps

not_busy :
    (native taken : List ℕ) (p : ℕ)
    → is_busy native taken p ≡ false
    → not (any (λ q. p == q) caddy_owned_ports || any (λ q. p == q) native) ≡ true
not_busy native taken p free = ground (arith, free)

place_all-ends :
    (rounds : ℕ) (native : List ℕ) (ibs : List NodeInbound) (s : Slots)
    → 5 + length native + length s.taken + length ibs < suc rounds
    → (ps : List ℕ) × (place_all rounds native ibs s ≡ some ps) × AllPlaced native ibs ps
place_all-ends rounds native [] s lt = ([], refl, tt)
place_all-ends rounds native (ib ∷ ibs) s lt = elim (Bool-cases (stays ib)) [
  | inl kept ↦
      let (ps, e, all) = place_all-ends rounds native ibs s (omega (arith, lt)) in
      (ib.port ∷ ps, rw (kept, e) refl, (rw kept (rw ((==_iff ib.port ib.port).1 refl) refl), all))
  | inr moved ↦
      let (p, found) = is_busy-found rounds s.next native s.taken (omega (arith, lt)) in
      let (above, below, free) = first_free-some rounds (is_busy native s.taken) s.next p found in
      let (ps, e, all) =
        place_all-ends rounds native ibs (record { next = p; taken = p ∷ s.taken })
          (omega (arith, lt)) in
      (p ∷ ps, rw (moved, found, e) refl, (rw moved (not_busy native s.taken p free), all))
]

-- The loop ends, and gives each inbound, in their order, its own port if it stays, and else one that is none of
-- caddy's and no port that an inbound of the node has.
pub remap_inbound_ports-ends :
    (ibs : List NodeInbound)
    → (ps : List ℕ) × (remap_inbound_ports ibs ≡ some ps) × AllPlaced (native_ports ibs) ibs ps
unfolding remap_inbound_ports
remap_inbound_ports-ends ibs =
    let count = length-map (λ (ib : NodeInbound). ib.port) ibs in
    place_all-ends (6 + length ibs + length ibs) (native_ports ibs) ibs
      (record { next = 11000; taken = [] }) (omega (arith, count))
