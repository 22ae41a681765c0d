-- ===== src/Caddy/Placed.antt =====
-- Where the loop of `RemapInboundPorts` puts an inbound: `Placed` says what each step may choose, and the
-- theorems read off it what two inbounds have in common.
use angry_box.Prelude.{
  ℕ, ◌+◌, ◌-◌, ◌≤◌, ◌<◌, ◌≡◌, sym, true, false, List, [], ◌∷◌, ◌++◌, some, ◌==◌, ==_iff, length,
  length-append, Bool-cases, Option-cases, inl, inr, arith, ltb, ltb→lt, ltb→le,
}
use angry_box.Prelude.Free.{first_free, first_free-some, first_free-before, pigeonhole}
use angry_box.Model.Panel.{NodeInbound}
use angry_box.Caddy.{has_port, caddy_owned_ports, stays, Slots, is_busy, place_all}
use angry_box.Caddy.Remap.{any-append}

-- The inbounds and their ports, where the ports of the list `taken` are given away before.
pub data Placed (native : List ℕ) : List ℕ → List NodeInbound → List ℕ → Type 0 where
  nothing : {taken : List ℕ} → Placed native taken [] []
  kept :
      {taken : List ℕ} {ib : NodeInbound} {ibs : List NodeInbound} {ps : List ℕ}
      → stays ib ≡ true
      → Placed native taken ibs ps
      → Placed native taken (ib ∷ ibs) (ib.port ∷ ps)
  moved :
      {taken : List ℕ} {ib : NodeInbound} {ibs : List NodeInbound} {p : ℕ} {ps : List ℕ}
      → stays ib ≡ false
      → 11000 ≤ p
      → p ≤ 11000 + length native + length taken
      → is_busy native taken p ≡ false
      → Placed native (p ∷ taken) ibs ps
      → Placed native taken (ib ∷ ibs) (p ∷ ps)

pub owned_below : (p : ℕ) → 11000 ≤ p → has_port caddy_owned_ports p ≡ false
owned_below p h =
    ground (arith, h, ==_iff p 80, ==_iff p 443, ==_iff p 8080, ==_iff p 8443, ==_iff p 8900)

-- As many ports are in use as `next` has gone up.
is_busy-count :
    (native taken : List ℕ) (p : ℕ)
    → 11000 ≤ p
    → ((i : ℕ) → 11000 ≤ i → i < p → is_busy native taken i ≡ true)
    → p ≤ 11000 + length native + length taken
is_busy-count native taken p le dense =
    let whole = length-append native taken in
    let count =
      pigeonhole (λ a b. a == b) ==_iff (λ i. i) (p - 11000) 11000 (native ++ taken)
        (λ i j less bound e. omega (arith, less, e))
        (λ i low high. ground (
          arith,
          owned_below i low,
          dense i low (omega (arith, le, high)),
          any-append (λ q. i == q) native taken,
        )) in
    omega (arith, whole, count, le)

is_busy-more :
    (native taken : List ℕ) (p i : ℕ)
    → is_busy native taken i ≡ true
    → is_busy native (p ∷ taken) i ≡ true
is_busy-more native taken p i h = ground (arith, h)

-- Up to the port found all are in use.
dense_until :
    (rounds : ℕ) (native : List ℕ) (s : Slots) (p : ℕ)
    → ((i : ℕ) → 11000 ≤ i → i < s.next → is_busy native s.taken i ≡ true)
    → first_free rounds (is_busy native s.taken) s.next ≡ some p
    → (i : ℕ) → 11000 ≤ i
    → i < p
    → is_busy native s.taken i ≡ true
dense_until rounds native s p dense found i low high = elim (Bool-cases (ltb i s.next)) [
  | inl before ↦ dense i low (ltb→lt i s.next before)
  | inr after ↦
      first_free-before rounds (is_busy native s.taken) s.next p i found (ltb→le i s.next after)
        high
]

pub place_all-Placed :
    (rounds : ℕ) (native : List ℕ) (ibs : List NodeInbound) (s : Slots) (ps : List ℕ)
    → 11000 ≤ s.next
    → ((i : ℕ) → 11000 ≤ i → i < s.next → is_busy native s.taken i ≡ true)
    → place_all rounds native ibs s ≡ some ps
    → Placed native s.taken ibs ps
place_all-Placed rounds native [] s ps le dense e =
    let here : ◌≡◌ {A = List ℕ} [] ps = ground (arith, e) in rw (sym here) nothing
place_all-Placed rounds native (ib ∷ ibs) s ps le dense e = elim (Bool-cases (stays ib)) [
  | inl same ↦ elim (Option-cases (place_all rounds native ibs s)) [
    | inl failed ↦ absurd (ground (arith, same, failed, e))
    | inr (qs, rest) ↦
        let here : ib.port ∷ qs ≡ ps = ground (arith, same, rest, e) in
        rw (sym here) (kept same (place_all-Placed rounds native ibs s qs le dense rest))
  ]
  | inr other ↦ elim (Option-cases (first_free rounds (is_busy native s.taken) s.next)) [
    | inl failed ↦ absurd (ground (arith, other, failed, e))
    | inr (p, found) ↦
        let t : Slots = record { next = p; taken = p ∷ s.taken } in
        elim (Option-cases (place_all rounds native ibs t)) [
          | inl failed ↦ absurd (ground (arith, other, found, failed, e))
          | inr (qs, rest) ↦
              let here : p ∷ qs ≡ ps = ground (arith, other, found, rest, e) in
              let (low, high, free) =
                first_free-some rounds (is_busy native s.taken) s.next p found in
              let below = dense_until rounds native s p dense found in
              rw (sym here) (
                moved other (omega (arith, le, low))
                  (is_busy-count native s.taken p (omega (arith, le, low)) below) free
                  (place_all-Placed rounds native ibs t qs (omega (arith, le, low))
                    (λ i a b. is_busy-more native s.taken p i (below i a b)) rest))
        ]
  ]
]
