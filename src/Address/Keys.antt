-- ===== src/Address/Keys.antt =====
-- The parts of an address: a slash ends its key, and different hosts have different keys.
use Prim.Native.Char.{Char, code}
use text.Mathlib.TextLemmas.{cons-append, nil-append, append_cancel_left, append-nil}
use angry_box.Prelude.{
  ℕ, zero, suc, ◌/◌, ◌%◌, ◌≡◌, refl, sym, ap, ◌∙◌, String, Bool, true, false, ◌==◌, ltb,
  if◌then◌else◌, arith, Bool-cases, inl, inr,
}
use angry_box.Prelude.Decimal.{decimal, decimal_inj, digit, digits, ◌+s◌}
use angry_box.Address.{awg_ip_key, host_ip, subnet_prefix}

abbrev pub has_slash : String → Bool
has_slash String.[] = false
has_slash (String.◌∷◌ c s) = let rest = has_slash s in if code c == 47 then true else rest

awg_ip_key-other :
    (c : Char) (s : String)
    → (code c == 47) ≡ false
    → awg_ip_key (String.◌∷◌ c s) ≡ String.◌∷◌ c (awg_ip_key s)
unfolding awg_ip_key
awg_ip_key-other c s h = rw h refl

pub awg_ip_key-append :
    (s t : String) → has_slash s ≡ false → awg_ip_key (s +s t) ≡ s +s awg_ip_key t
unfolding awg_ip_key
awg_ip_key-append String.[] t h = ap awg_ip_key (nil-append t) ∙ sym (nil-append (awg_ip_key t))
awg_ip_key-append (String.◌∷◌ c s) t h = elim (Bool-cases (code c == 47)) [
  | inl slash ↦ absurd (ground (arith, slash, h))
  | inr other ↦
      ap awg_ip_key (cons-append c s t)
      ∙ awg_ip_key-other c (s +s t) other
      ∙ ap (String.◌∷◌ c) (awg_ip_key-append s t (rw other at h))
      ∙ sym (cons-append c s (awg_ip_key t))
]

pub has_slash-append :
    (s t : String) → has_slash s ≡ false → has_slash t ≡ false → has_slash (s +s t) ≡ false
has_slash-append String.[] t h k = ap has_slash (nil-append t) ∙ k
has_slash-append (String.◌∷◌ c s) t h k = elim (Bool-cases (code c == 47)) [
  | inl slash ↦ absurd (ground (arith, slash, h))
  | inr other ↦ ap has_slash (cons-append c s t) ∙ rw other (has_slash-append s t (rw other at h) k)
]

has_slash-digit : (n : ℕ) → has_slash (digit n) ≡ false
has_slash-digit zero = refl
has_slash-digit (suc zero) = refl
has_slash-digit (suc (suc zero)) = refl
has_slash-digit (suc (suc (suc zero))) = refl
has_slash-digit (suc (suc (suc (suc zero)))) = refl
has_slash-digit (suc (suc (suc (suc (suc zero))))) = refl
has_slash-digit (suc (suc (suc (suc (suc (suc zero)))))) = refl
has_slash-digit (suc (suc (suc (suc (suc (suc (suc zero))))))) = refl
has_slash-digit (suc (suc (suc (suc (suc (suc (suc (suc zero)))))))) = refl
has_slash-digit (suc (suc (suc (suc (suc (suc (suc (suc (suc n))))))))) = refl

pub has_slash-digits : (r n : ℕ) → has_slash (digits r n) ≡ false
has_slash-digits zero n = refl
has_slash-digits (suc r) n = elim (Bool-cases (ltb n 10)) [
  | inl small ↦ rw small (has_slash-digit n)
  | inr large ↦ rw large (
      has_slash-append (digits r (n / 10)) (digit (n % 10)) (has_slash-digits r (n / 10))
        (has_slash-digit (n % 10)))
]

-- The key of the address of a host: what stands before "/32".
pub awg_ip_key-host_ip :
    (prefix : String) (host : ℕ)
    → has_slash prefix ≡ false
    → awg_ip_key (host_ip prefix host) ≡ prefix +s "." +s decimal host
unfolding awg_ip_key
awg_ip_key-host_ip prefix host h =
    awg_ip_key-append prefix ("." +s decimal host +s "/32") h
    ∙ ap (λ s. prefix +s s) (awg_ip_key-append "." (decimal host +s "/32") refl)
    ∙ ap (λ s. prefix +s "." +s s)
        (awg_ip_key-append (decimal host) "/32" (has_slash-digits (suc host) host)
          ∙ append-nil (decimal host))

pub awg_ip_key-host_ip_inj :
    (prefix : String) (i j : ℕ)
    → has_slash prefix ≡ false
    → awg_ip_key (host_ip prefix i) ≡ awg_ip_key (host_ip prefix j)
    → i ≡ j
awg_ip_key-host_ip_inj prefix i j h e =
    let keys = sym (awg_ip_key-host_ip prefix i h) ∙ e ∙ awg_ip_key-host_ip prefix j h in
    decimal_inj i j (
      append_cancel_left "." (decimal i) (decimal j)
        (append_cancel_left prefix ("." +s decimal i) ("." +s decimal j) keys))

pub subnet_prefix_inj : (i j : ℕ) → subnet_prefix i ≡ subnet_prefix j → i ≡ j
subnet_prefix_inj i j e = decimal_inj i j (append_cancel_left "10.8." (decimal i) (decimal j) e)
