-- ===== src/Caddy/Plan/Hosts.antt =====
-- The host names of the routes: the labels that `sniSubdomain` gives differ.
use Prim.Native.Char
use text.Mathlib.TextLemmas.{
  append_cancel_left, append_cancel_right, append-nil, cons-append, cons≢nil,
}
use angry_box.Prelude.{
  ℕ, zero, suc, ◌≤◌, ◌≡◌, ◌≢◌, refl, sym, ap, ◌∙◌, String, Bool, true, false, List, [], ◌∷◌, some,
  =s_iff, ◌==◌, ==_iff, if◌then◌else◌, get_elem?, Bool-cases, inl, inr, arith, ◌⊎◌,
}
use angry_box.Prelude.Text.{trim_space}
use angry_box.Prelude.Decimal.{◌+s◌, decimal, decimal_inj}
use angry_box.Model.Panel.{NodeInbound, NodeInfo}
use angry_box.Caddy.{caddy_mode}
use angry_box.Caddy.Plan.{
  Fronted, is_fronted, fronted_from, caddy_fronted_hosts, count_up, sni_subdomain,
  tls_utility_protocols,
}

-- The label of the inbound of a protocol that has `n` before it.
abbrev label : String → ℕ → String
label proto n = if n == 0 then proto else proto +s "-" +s decimal n

sni_subdomain-label :
    (seen : String → ℕ) (proto : String) → sni_subdomain seen proto ≡ label proto (seen proto)
unfolding sni_subdomain
sni_subdomain-label seen proto = refl

tls-cases :
    (proto : String)
    → tls_utility_protocols proto ≡ true
    → (proto ≡ "naive") ⊎ (proto ≡ "trusttunnel")
tls-cases proto h = ground (arith, h, =s_iff proto "naive", =s_iff proto "trusttunnel")

label-suc : (proto : String) (n : ℕ) → label proto (suc n) ≡ proto +s "-" +s decimal (suc n)
label-suc proto n = let h : (suc n == 0) ≡ false = ground (arith, ==_iff (suc n) 0) in rw h refl

-- Whether the first letter is an `n`.
abbrev starts_n : String → Bool
starts_n String.[] = false
starts_n (String.◌∷◌ c s) = Char.code c == 110

starts_n-naive : (n : ℕ) → starts_n (label "naive" n) ≡ true
starts_n-naive zero = refl
starts_n-naive (suc n) =
    ap starts_n (label-suc "naive" n)
    ∙ ap starts_n (cons-append "n" "aive" ("-" +s decimal (suc n)))

starts_n-trusttunnel : (n : ℕ) → starts_n (label "trusttunnel" n) ≡ false
starts_n-trusttunnel zero = refl
starts_n-trusttunnel (suc n) =
    ap starts_n (label-suc "trusttunnel" n)
    ∙ ap starts_n (cons-append "t" "rusttunnel" ("-" +s decimal (suc n)))

-- A label with a number is longer than the protocol.
label-longer : (proto : String) (n : ℕ) → label proto (suc n) ≢ proto
label-longer proto n e =
    let rest =
      append_cancel_left proto ("-" +s decimal (suc n)) ""
        (sym (label-suc proto n) ∙ e ∙ sym (append-nil proto)) in
    cons≢nil (sym (cons-append "-" "" (decimal (suc n))) ∙ rest)

label_inj_number : (proto : String) (m n : ℕ) → label proto m ≡ label proto n → m ≡ n
label_inj_number proto zero zero e = refl
label_inj_number proto zero (suc n) e = absurd (label-longer proto n (sym e))
label_inj_number proto (suc m) zero e = absurd (label-longer proto m e)
label_inj_number proto (suc m) (suc n) e = decimal_inj (suc m) (suc n) (
    append_cancel_left "-" (decimal (suc m)) (decimal (suc n)) (
      append_cancel_left proto ("-" +s decimal (suc m)) ("-" +s decimal (suc n))
        (sym (label-suc proto m) ∙ e ∙ label-suc proto n)))

label_inj :
    (p q : String) (m n : ℕ)
    → tls_utility_protocols p ≡ true
    → tls_utility_protocols q ≡ true
    → label p m ≡ label q n
    → (p ≡ q) × (m ≡ n)
label_inj p q m n hp hq e = elim (tls-cases p hp) [
  | inl p_n ↦ elim (tls-cases q hq) [
    | inl q_n ↦ (p_n ∙ sym q_n, label_inj_number p m n (e ∙ ap (λ s. label s n) (q_n ∙ sym p_n)))
    | inr q_t ↦ absurd (
        cc (
          starts_n-naive m,
          starts_n-trusttunnel n,
          ap (λ s. starts_n (label s m)) p_n,
          ap (λ s. starts_n (label s n)) q_t,
          ap starts_n e,
        ))
  ]
  | inr p_t ↦ elim (tls-cases q hq) [
    | inl q_n ↦ absurd (
        cc (
          starts_n-naive n,
          starts_n-trusttunnel m,
          ap (λ s. starts_n (label s m)) p_t,
          ap (λ s. starts_n (label s n)) q_n,
          ap starts_n e,
        ))
    | inr q_t ↦ (p_t ∙ sym q_t, label_inj_number p m n (e ∙ ap (λ s. label s n) (q_t ∙ sym p_t)))
  ]
]

is_fronted-tls :
    (ib : NodeInbound) → is_fronted ib ≡ true → tls_utility_protocols ib.protocol ≡ true
is_fronted-tls ib h = ground (arith, h)

count_up-le : (seen : String → ℕ) (proto p : String) → seen p ≤ count_up seen proto p
count_up-le seen proto p = ground arith

fronted_here :
    (domain : String) (i : ℕ) (ib : NodeInbound) (ibs : List NodeInbound) (seen : String → ℕ)
    → is_fronted ib ≡ true
    → fronted_from domain i (ib ∷ ibs) seen
      ≡ record { index = i; host = label ib.protocol (seen ib.protocol) +s "." +s domain }
        ∷ fronted_from domain (suc i) ibs (count_up seen ib.protocol)
unfolding sni_subdomain
fronted_here domain i ib ibs seen h = rw h refl

host_at :
    (domain : String) (i : ℕ) (ib : NodeInbound) (ibs : List NodeInbound) (seen : String → ℕ)
    (f : Fronted)
    → is_fronted ib ≡ true
    → get_elem? (fronted_from domain i (ib ∷ ibs) seen) 0 ≡ some f
    → label ib.protocol (seen ib.protocol) +s "." +s domain ≡ f.host
host_at domain i ib ibs seen f fronted at =
    let e : ◌≡◌ {A = Fronted}
        (record { index = i; host = label ib.protocol (seen ib.protocol) +s "." +s domain }) f =
      ground (arith, fronted_here domain i ib ibs seen fronted, at) in
    ap (λ (g : Fronted). g.host) e

fronted_later :
    (domain : String) (i : ℕ) (ib : NodeInbound) (ibs : List NodeInbound) (seen : String → ℕ)
    (j : ℕ) (f : Fronted)
    → is_fronted ib ≡ true
    → get_elem? (fronted_from domain i (ib ∷ ibs) seen) (suc j) ≡ some f
    → get_elem? (fronted_from domain (suc i) ibs (count_up seen ib.protocol)) j ≡ some f
fronted_later domain i ib ibs seen j f fronted at =
    ap (λ l. get_elem? l (suc j)) (sym (fronted_here domain i ib ibs seen fronted)) ∙ at

-- A host name of the list carries the label of a protocol with TLS, counted from what was seen before.
fronted_from-label :
    (domain : String) (i : ℕ) (ibs : List NodeInbound) (seen : String → ℕ) (j : ℕ) (f : Fronted)
    → get_elem? (fronted_from domain i ibs seen) j ≡ some f
    → (w : String × ℕ) × (tls_utility_protocols w.0 ≡ true)
      × (seen w.0 ≤ w.1)
      × (f.host ≡ label w.0 w.1 +s "." +s domain)
fronted_from-label domain i [] seen j f at = absurd (cc)
fronted_from-label domain i (ib ∷ ibs) seen zero f at = elim (Bool-cases (is_fronted ib)) [
  | inr other ↦ fronted_from-label domain (suc i) ibs seen zero f (rw other at at)
  | inl fronted ↦ (
    (ib.protocol, seen ib.protocol),
    is_fronted-tls ib fronted,
    omega arith,
    sym (host_at domain i ib ibs seen f fronted at),
  )
]
fronted_from-label domain i (ib ∷ ibs) seen (suc j) f at = elim (Bool-cases (is_fronted ib)) [
  | inr other ↦ fronted_from-label domain (suc i) ibs seen (suc j) f (rw other at at)
  | inl fronted ↦
      let (w, tls, le, e) =
        fronted_from-label domain (suc i) ibs (count_up seen ib.protocol) j f
          (fronted_later domain i ib ibs seen j f fronted at) in
      let more = count_up-le seen ib.protocol w.0 in (w, tls, omega (arith, le, more), e)
]

later_differs :
    (domain : String) (i : ℕ) (ib : NodeInbound) (ibs : List NodeInbound) (seen : String → ℕ)
    (j : ℕ) (f : Fronted)
    → is_fronted ib ≡ true
    → get_elem? (fronted_from domain (suc i) ibs (count_up seen ib.protocol)) j ≡ some f
    → label ib.protocol (seen ib.protocol) +s "." +s domain ≢ f.host
later_differs domain i ib ibs seen j f fronted at same =
    let (w, tls, le, e) =
      fronted_from-label domain (suc i) ibs (count_up seen ib.protocol) j f at in
    let (proto, number) =
      label_inj ib.protocol w.0 (seen ib.protocol) w.1 (is_fronted-tls ib fronted) tls (
        append_cancel_right (label ib.protocol (seen ib.protocol)) (label w.0 w.1) ("." +s domain)
          (same ∙ e)) in
    let counted : count_up seen ib.protocol ib.protocol ≡ suc (seen ib.protocol) =
      ground (arith, (=s_iff ib.protocol ib.protocol).1) in
    let moved = ap (count_up seen ib.protocol) proto in omega (arith, le, number, counted, moved)

hosts_unique :
    (domain : String) (k : ℕ) (ibs : List NodeInbound) (seen : String → ℕ) (i j : ℕ) (f g : Fronted)
    → get_elem? (fronted_from domain k ibs seen) i ≡ some f
    → get_elem? (fronted_from domain k ibs seen) j ≡ some g
    → f.host ≡ g.host
    → i ≡ j
hosts_unique domain k [] seen i j f g at there same = absurd (cc)
hosts_unique domain k (ib ∷ ibs) seen zero zero f g at there same = refl
hosts_unique domain k (ib ∷ ibs) seen zero (suc j) f g at there same =
    elim (Bool-cases (is_fronted ib)) [
      | inr other ↦
          hosts_unique domain (suc k) ibs seen zero (suc j) f g (rw other at at) (rw other at there)
            same
      | inl fronted ↦ absurd (
          later_differs domain k ib ibs seen j g fronted
            (fronted_later domain k ib ibs seen j g fronted there)
            (host_at domain k ib ibs seen f fronted at ∙ same))
    ]
hosts_unique domain k (ib ∷ ibs) seen (suc i) zero f g at there same =
    elim (Bool-cases (is_fronted ib)) [
      | inr other ↦
          hosts_unique domain (suc k) ibs seen (suc i) zero f g (rw other at at) (rw other at there)
            same
      | inl fronted ↦ absurd (
          later_differs domain k ib ibs seen i f fronted
            (fronted_later domain k ib ibs seen i f fronted at)
            (host_at domain k ib ibs seen g fronted there ∙ sym same))
    ]
hosts_unique domain k (ib ∷ ibs) seen (suc i) (suc j) f g at there same =
    elim (Bool-cases (is_fronted ib)) [
      | inr other ↦
          hosts_unique domain (suc k) ibs seen (suc i) (suc j) f g (rw other at at)
            (rw other at there) same
      | inl fronted ↦ ap suc (
          hosts_unique domain (suc k) ibs (count_up seen ib.protocol) i j f g
            (fronted_later domain k ib ibs seen i f fronted at)
            (fronted_later domain k ib ibs seen j g fronted there) same)
    ]

-- No two inbounds of a node are fronted under the same host name.
pub caddy_fronted_hosts_unique :
    (info : NodeInfo) (i j : ℕ) (f g : Fronted)
    → get_elem? (caddy_fronted_hosts info) i ≡ some f
    → get_elem? (caddy_fronted_hosts info) j ≡ some g
    → f.host ≡ g.host
    → i ≡ j
unfolding caddy_fronted_hosts
caddy_fronted_hosts_unique info i j f g at there same = elim (Bool-cases (caddy_mode info)) [
  | inl mode ↦
      hosts_unique (trim_space info.tls_domain) 0 info.inbounds (λ proto. 0) i j f g (rw mode at at)
        (rw mode at there) same
  | inr other ↦ absurd (ground (arith, other, at))
]
