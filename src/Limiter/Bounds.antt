-- ===== src/Limiter/Bounds.antt =====
-- The bound on the failures that are recorded for one address.
use angry_box.Prelude.{
  ℕ, ◌≤◌, ◌<◌, ◌≡◌, refl, ◌∙◌, String, Bool, true, false, List, [], ◌∷◌, arith, ◌=s◌, =s_refl,
  Bool-cases, inl, inr, length, length-append, some, none, ltb→lt, length-keep-le, Option,
}
use angry_box.Prelude.Int.{ℤ}
use angry_box.Model.Base.{Time}
use angry_box.Limiter.{
  AuthLimiter, failures_of, recent, is_recent, allow, record_failure, clear, new_auth_limiter,
}
use angry_box.Limiter.Gate.{
  Config, Request, is_valid, check_credentials, basic_auth, serve, if_allowed,
}
use angry_box.Limiter.Times.{
  failures_of-allow, failures_of-record, failures_of-clear, allow-settings, record-settings,
}

-- No address has more recorded failures than the limit, which is `max`.
abbrev pub IsBounded : ℕ → AuthLimiter → Type 0
IsBounded max l = (l.max_failures ≡ max) × ((k : String) → length (failures_of l k) ≤ max)

recent-length :
    (l : AuthLimiter) (ip : String) (now : Time)
    → length (recent l ip now) ≤ length (failures_of l ip)
recent-length l ip now = length-keep-le (is_recent l.window now) (failures_of l ip)

allow-IsBounded :
    (max : ℕ) (l : AuthLimiter) (ip : String) (now : Time)
    → IsBounded max l
    → IsBounded max (allow l ip now).1
allow-IsBounded max l ip now (m, h) = (
  (allow-settings l ip now).0 ∙ m,
  λ k.
      let e = failures_of-allow l ip k now in
      let le = recent-length l ip now in
      let all = h k in let own = h ip in ground (arith, e, le, all, own, Bool-cases (ip =s k)),
)

allow-below :
    (l : AuthLimiter) (ip : String) (now : Time)
    → (allow l ip now).0 ≡ true
    → length (failures_of (allow l ip now).1 ip) < l.max_failures
unfolding allow
allow-below l ip now h = let e = failures_of-allow l ip ip now in rw (e, =s_refl ip) (ltb→lt _ _ h)

record-IsBounded :
    (max : ℕ) (l : AuthLimiter) (ip : String) (later : Time)
    → length (failures_of l ip) < max
    → IsBounded max l
    → IsBounded max (record_failure l ip later)
record-IsBounded max l ip later lt (m, h) = (
  (record-settings l ip later).0 ∙ m,
  λ k.
      let e = failures_of-record l ip k later in
      let le = recent-length l ip later in
      let one = length-append (recent l ip later) (later ∷ []) in
      let all = h k in ground (arith, e, le, one, all, Bool-cases (ip =s k)),
)

clear-IsBounded :
    (max : ℕ) (l : AuthLimiter) (ip : String) → IsBounded max l → IsBounded max (clear l ip)
unfolding clear
clear-IsBounded max l ip (m, h) = (
  m,
  λ k.
      let e = failures_of-clear l ip k in
      let all = h k in ground (arith, e, all, Bool-cases (ip =s k)),
)

new_auth_limiter-IsBounded :
    (max window : ℤ)
    → IsBounded (new_auth_limiter max window).max_failures (new_auth_limiter max window)
unfolding new_auth_limiter
new_auth_limiter-IsBounded max window = (refl, λ k. omega arith)

module _ (matches : String → String → Bool) (cfg : Config) (max : ℕ) where
  check_credentials-IsBounded :
      (l : AuthLimiter) (r : Request) (o : Option (String × String))
      → length (failures_of l r.ip) < max
      → IsBounded max l
      → IsBounded max (check_credentials matches cfg r o l).1
  check_credentials-IsBounded l r none lt h = h
  check_credentials-IsBounded l r (some c) lt h = elim (Bool-cases (is_valid matches cfg c)) [
    | inl right ↦ rw right (clear-IsBounded max l r.ip h)
    | inr wrong ↦ rw wrong (record-IsBounded max l r.ip r.later lt h)
  ]

  basic_auth-IsBounded :
      (l : AuthLimiter) (r : Request)
      → IsBounded max l
      → IsBounded max (basic_auth matches cfg l r).1
  unfolding basic_auth
  basic_auth-IsBounded l r h = elim (Bool-cases cfg.auth_enabled) [
    | inl on ↦ rw on (go (allow l r.ip r.now).0 refl)
    | inr off ↦ rw off h
  ]
    where
      go :
          (b : Bool)
          → (allow l r.ip r.now).0 ≡ b
          → IsBounded max (if_allowed matches cfg r (b, (allow l r.ip r.now).1)).1
      go true e =
          check_credentials-IsBounded (allow l r.ip r.now).1 r r.credentials
            (let below = allow-below l r.ip r.now e in let m = h.0 in omega (arith, below, m))
            (allow-IsBounded max l r.ip r.now h)
      go false e = allow-IsBounded max l r.ip r.now h

  serve-IsBounded :
      (rs : List Request) (l : AuthLimiter)
      → IsBounded max l
      → IsBounded max (serve matches cfg l rs)
  unfolding serve
  serve-IsBounded [] l h = h
  serve-IsBounded (r ∷ rs) l h =
      serve-IsBounded rs (basic_auth matches cfg l r).1 (basic_auth-IsBounded l r h)

-- Whatever requests a new limiter serves one after the other, at whatever clock readings, no address
-- ever has more recorded failures than the limit of the limiter.
pub serve-bounded :
    (matches : String → String → Bool) (cfg : Config) (max window : ℤ) (rs : List Request)
    (k : String)
    → length (failures_of (serve matches cfg (new_auth_limiter max window) rs) k)
      ≤ (new_auth_limiter max window).max_failures
serve-bounded matches cfg max window rs k =
    (serve-IsBounded matches cfg (new_auth_limiter max window).max_failures rs
        (new_auth_limiter max window) (new_auth_limiter-IsBounded max window)).1
      k
