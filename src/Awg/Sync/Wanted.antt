-- ===== src/Awg/Sync/Wanted.antt =====
-- The addresses that a list of peers gives a key.
use Prim.Native.String.{count}
use angry_box.Prelude.{
  ◌||◌, All, ◌≡◌, refl, ap, inl, inr, String, Bool, true, false, not, ◌&&◌, List, [], ◌∷◌, Option,
  none, some, arith, ◌=s◌, =s_iff, if◌then◌else◌, any, keep, Bool-cases, ltb,
}
use angry_box.Awg.Conf.{AwgServerPeer}
use angry_box.Awg.Sync.{Node, contains, SyncResult, synced, failed, panicked, all_traffic, after}

-- The addresses of the last of the peers with the key `j`, or else `o`.
abbrev pub wanted_or : String → List AwgServerPeer → Option String → Option String
wanted_or j [] o = o
wanted_or j (p ∷ ps) o = wanted_or j ps (
    if p.public_key =s ""
    then o
    else if p.public_key =s j
    then some (all_traffic p.allowed_ips)
    else o)

-- The peer is the one with the key `j` or keeps off the addresses `b`.
abbrev pub avoids : (String → String → Bool) → String → String → AwgServerPeer → Bool
avoids apart j b q =
    q.public_key =s "" || (q.public_key =s j || apart (all_traffic q.allowed_ips) b)

-- The addresses of a peer have no network in common with those of a peer of another key before it.
abbrev pub AreApart : (String → String → Bool) → List AwgServerPeer → Type 0
AreApart apart [] = Unit
AreApart apart (p ∷ ps) =
    All (λ q. avoids apart p.public_key (all_traffic p.allowed_ips) q ≡ true) ps × AreApart apart ps

pub wanted_or-other :
    (j : String) (ps : List AwgServerPeer) (o : Option String)
    → any (λ (p : AwgServerPeer). p.public_key =s j) ps ≡ false
    → wanted_or j ps o ≡ o
wanted_or-other j [] o h = refl
wanted_or-other j (p ∷ ps) o h = elim (Bool-cases (p.public_key =s j)) [
  | inl same ↦ absurd (ground (arith, h, same))
  | inr other ↦ elim (Bool-cases (p.public_key =s "")) [
    | inl empty ↦ rw empty (wanted_or-other j ps o (rw other at h))
    | inr keyed ↦ rw (keyed, other) (wanted_or-other j ps o (rw other at h))
  ]
]

pub contains-live_keys :
    (j : String) (ks : List String)
    → (j =s "") ≡ false
    → contains j (keep (λ k. not (k =s "")) ks) ≡ contains j ks
contains-live_keys j [] ne = refl
contains-live_keys j (k ∷ ks) ne = elim (Bool-cases (k =s "")) [
  | inl empty ↦
      let other : (k =s j) ≡ false =
        ground (arith, =s_iff k "", =s_iff k j, =s_iff j "", empty, ne) in
      rw (empty, other) (contains-live_keys j ks ne)
  | inr full ↦ rw (full, contains-live_keys j ks ne) refl
]

pub both_out :
    (b : Bool) (o : Option String) → (if b && false then none else o) ≡ (if false then none else o)
both_out true o = refl
both_out false o = refl

pub none_out : (b : Bool) → ◌≡◌ {A = Option String} (if b && true then none else none) none
none_out true = refl
none_out false = refl

pub after-synced :
    (n : Node) (key : String) (r : Bool × n.State) (rest : n.State → SyncResult × n.State)
    (s' : n.State)
    → after n key r rest ≡ (synced, s')
    → (s1 : n.State) × ((r ≡ (true, s1)) × (rest s1 ≡ (synced, s')))
after-synced n key (true, s1) rest s' h = (s1, (refl, h))
after-synced n key (false, s1) rest s' h = absurd (never (ltb (count key) 8) (ap (λ x. x.0) h))
  where
    never : (b : Bool) → (if b then panicked else failed) ≡ synced → ⊥
    never true e = cc
    never false e = cc
