-- ===== src/Traffic/Sessions.antt =====
-- What the deltas of a peer add up to. A session is the time from a start of the interface to the next: its
-- counters do not fall.
use angry_box.Prelude.{
  ℕ, ◌+◌, ◌≤◌, ◌<◌, ◌≡◌, refl, true, ◌||◌, List, [], ◌∷◌, ◌++◌, Option, none, some, ltb, lt→ltb,
  arith,
}
use angry_box.Model.Base.{Counters}
use angry_box.Traffic.{delta}

-- The bytes received that the loop counts for one peer whose counters are read one after the other.
abbrev pub counted_rx : Option Counters → List Counters → ℕ
counted_rx last [] = 0
counted_rx last (c ∷ cs) = (delta last c).0 + counted_rx (some c) cs

-- Within a session neither counter falls.
abbrev pub IsRising : Counters → List Counters → Type 0
IsRising c [] = Unit
IsRising c (d ∷ ds) = (c.0 ≤ d.0) × (c.1 ≤ d.1) × IsRising d ds

abbrev pub final_of : Counters → List Counters → Counters
final_of c [] = c
final_of c (d ∷ ds) = final_of d ds

rising-delta : (c d : Counters) → c.0 ≤ d.0 → c.1 ≤ d.1 → (delta (some c) d).0 + c.0 ≡ d.0
rising-delta c d p q = ground (arith, p, q)

counted_rx-rising :
    (c : Counters) (cs : List Counters)
    → IsRising c cs
    → counted_rx (some c) cs + c.0 ≡ (final_of c cs).0
counted_rx-rising c [] h = omega arith
counted_rx-rising c (d ∷ ds) (p, q, h) =
    let here = rising-delta c d p q in
    let rest = counted_rx-rising d ds h in omega (arith, here, rest)

abbrev pub Session : Type 0
Session = Counters × List Counters

abbrev pub readings : List Session → List Counters
readings [] = []
readings ((c, cs) ∷ ss) = c ∷ (cs ++ readings ss)

-- The first reading of every session is below the last one of the session before, in one counter at least.
abbrev pub AreRestarts : Counters → List Session → Type 0
AreRestarts last [] = Unit
AreRestarts last ((c, cs) ∷ ss) =
    ((ltb c.0 last.0 || ltb c.1 last.1) ≡ true) × IsRising c cs × AreRestarts (final_of c cs) ss

abbrev pub received : List Session → ℕ
received [] = 0
received ((c, cs) ∷ ss) = (final_of c cs).0 + received ss

counted_rx-append :
    (c : Counters) (cs ds : List Counters)
    → counted_rx (some c) (cs ++ ds) ≡ counted_rx (some c) cs + counted_rx (some (final_of c cs)) ds
counted_rx-append c [] ds = omega arith
counted_rx-append c (d ∷ cs) ds = let rest = counted_rx-append d cs ds in omega (arith, rest)

restart-delta :
    (last c : Counters) → (ltb c.0 last.0 || ltb c.1 last.1) ≡ true → (delta (some last) c).0 ≡ c.0
restart-delta last c h = rw h refl

counted_rx-restarts :
    (last : Counters) (ss : List Session)
    → AreRestarts last ss
    → counted_rx (some last) (readings ss) ≡ received ss
counted_rx-restarts last [] h = refl
counted_rx-restarts last ((c, cs) ∷ ss) (low, rising, h) =
    let first = restart-delta last c low in
    let session = counted_rx-rising c cs rising in
    let split = counted_rx-append c cs (readings ss) in
    let rest = counted_rx-restarts (final_of c cs) ss h in
    omega (arith, first, session, split, rest)

-- What a peer is credited, from its first reading on, is the sum of the counters that its sessions ended
-- with, where each restart shows in a counter that is lower than before.
counted_rx-received :
    (c : Counters) (cs : List Counters) (ss : List Session)
    → IsRising c cs
    → AreRestarts (final_of c cs) ss
    → counted_rx none (readings ((c, cs) ∷ ss)) ≡ received ((c, cs) ∷ ss)
counted_rx-received c cs ss rising h =
    let session = counted_rx-rising c cs rising in
    let split = counted_rx-append c cs (readings ss) in
    let rest = counted_rx-restarts (final_of c cs) ss h in omega (arith, session, split, rest)

-- A peer of two interfaces shares one snapshot: where the counters of the second are lower, a round over both
-- that saw no traffic counts all bytes of the first again.
counted_rx-two_interfaces :
    (a b : Counters) → b.0 < a.0 → b.1 ≤ a.1 → counted_rx (some a) (b ∷ a ∷ []) ≡ a.0
counted_rx-two_interfaces a b lt le =
    let first = restart-delta a b (ground (arith, lt→ltb b.0 a.0 lt)) in
    let second = rising-delta b a (omega (arith, lt)) le in omega (arith, first, second)
