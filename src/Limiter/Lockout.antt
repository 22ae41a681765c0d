-- ===== src/Limiter/Lockout.antt =====
-- The lockout of an address, its end, and how many guesses come through before it.
use angry_box.Prelude.{
  ℕ, ◌+◌, ◌≤◌, ◌<◌, ◌≡◌, ◌≢◌, refl, ap, ◌∙◌, String, Bool, true, false, List, [], ◌∷◌, ◌++◌, arith,
  ◌=s◌, =s_refl, if◌then◌else◌, Bool-cases, inl, inr, keep, length, some, none, All, ltb, Option,
  =s_ne, lt→ltb,
}
use angry_box.Model.Base.{Time}
use angry_box.Limiter.{AuthLimiter, failures_of, recent, is_recent, allow, with_times}
use angry_box.Limiter.Gate.{
  Config, Request, served, too_many, is_valid, check_credentials, if_allowed, basic_auth,
}
use angry_box.Limiter.Times.{failures_of-allow, failures_of-record, failures_of-clear}

recent-old :
    (window : ℕ) (now : Time) (ts : List Time)
    → All (λ t. t + window ≤ now) ts
    → keep (is_recent window now) ts ≡ []
recent-old window now [] h = refl
recent-old window now (t ∷ ts) (p, h) = ground (arith, recent-old window now ts h)

module _ (matches : String → String → Bool) (cfg : Config) (l : AuthLimiter) (r : Request) where
  -- With authentication enabled, an address with as many failures within the window as the limit is
  -- locked out: its request is answered 429, whatever the credentials, and none of these failures is
  -- forgotten.
  basic_auth-locked :
      cfg.auth_enabled ≡ true
      → l.max_failures ≤ length (recent l r.ip r.now)
      → ((basic_auth matches cfg l r).0 ≡ too_many)
        × (failures_of (basic_auth matches cfg l r).1 r.ip ≡ recent l r.ip r.now)
  unfolding basic_auth allow
  basic_auth-locked on full =
      let e = failures_of-allow l r.ip r.ip r.now in
      let self = =s_refl r.ip in
      let shut : ltb (length (recent l r.ip r.now)) l.max_failures ≡ false = ground (arith, full) in
      rw (on, shut) (refl, e ∙ ap (λ b. if b then recent l r.ip r.now else failures_of l r.ip) self)

  -- With authentication enabled and a limit that is not zero, an address whose recorded failures all
  -- lie a window or more back is served if its credentials are valid, whatever the number of these
  -- failures, and they are forgotten.
  basic_auth-unlocked :
      (c : String × String)
      → 0 < l.max_failures
      → All (λ t. t + l.window ≤ r.now) (failures_of l r.ip)
      → r.credentials ≡ some c
      → is_valid matches cfg c ≡ true
      → cfg.auth_enabled ≡ true
      → ((basic_auth matches cfg l r).0 ≡ served)
        × (failures_of (basic_auth matches cfg l r).1 r.ip ≡ [])
  unfolding basic_auth allow
  basic_auth-unlocked c pos old given right on =
      let gone = recent-old l.window r.now (failures_of l r.ip) old in
      let room = lt→ltb 0 l.max_failures pos in
      let cleared = failures_of-clear (with_times r.ip [] l) r.ip r.ip in
      rw (on, gone, room, given, right)
        (
          refl,
          cleared
              ∙ ap (λ b. if b then [] else failures_of (with_times r.ip [] l) r.ip) (=s_refl r.ip),
        )

  check-other :
      (k : String) (l' : AuthLimiter) (o : Option (String × String))
      → (r.ip =s k) ≡ false
      → failures_of (check_credentials matches cfg r o l').1 k ≡ failures_of l' k
  check-other k l' none ne = refl
  check-other k l' (some c) ne = elim (Bool-cases (is_valid matches cfg c)) [
    | inl right ↦ rw right (failures_of-clear l' r.ip k ∙ keep_other ne [])
    | inr wrong ↦ rw wrong (
        failures_of-record l' r.ip k r.later
        ∙ keep_other ne (recent l' r.ip r.later ++ r.later ∷ []))
  ]
    where
      keep_other :
          {b : Bool}
          → b ≡ false
          → (ts : List Time) → (if b then ts else failures_of l' k) ≡ failures_of l' k
      keep_other h ts = rw h refl

  -- A request of one address leaves the failures of every other address as they were.
  basic_auth-other :
      (k : String) → r.ip ≢ k → failures_of (basic_auth matches cfg l r).1 k ≡ failures_of l k
  unfolding basic_auth
  basic_auth-other k ne = elim (Bool-cases cfg.auth_enabled) [
    | inl on ↦ rw on (go (allow l r.ip r.now).0)
    | inr off ↦ rw off refl
  ]
    where
      apart : (r.ip =s k) ≡ false
      apart = =s_ne r.ip k ne

      allowed : failures_of (allow l r.ip r.now).1 k ≡ failures_of l k
      allowed =
          failures_of-allow l r.ip k r.now
          ∙ ap (λ b. if b then recent l r.ip r.now else failures_of l k) apart

      go :
          (b : Bool)
          → failures_of (if_allowed matches cfg r (b, (allow l r.ip r.now).1)).1 k ≡ failures_of l k
      go true = check-other k (allow l r.ip r.now).1 r.credentials apart ∙ allowed
      go false = allowed
