-- ===== src/Limiter/Guesses.antt =====
-- How many wrong guesses of a password come through within one window.
use angry_box.Prelude.{
  any, ℕ, suc, ◌+◌, ◌≤◌, ◌<◌, ◌≡◌, ◌⊎◌, refl, sym, ap, ◌∙◌, String, Bool, true, false, List, [],
  ◌∷◌, ◌++◌, arith, ◌=s◌, =s_refl, if◌then◌else◌, inl, inr, keep, length, length-append, some, All,
  ltb→lt, All-append, not,
}
use angry_box.Model.Base.{Time}
use angry_box.Limiter.{AuthLimiter, failures_of, recent, is_recent, allow, record_failure}
use angry_box.Limiter.Gate.{
  Config, Request, Response, served, unauthorized, too_many, is_valid, basic_auth, responses,
  if_allowed,
}
use angry_box.Limiter.Times.{failures_of-allow, failures_of-record, allow-settings, record-settings}

-- The guesses that were compared with the password: all that are not answered 429.
abbrev pub guesses : List Response → ℕ
guesses [] = 0
guesses (served ∷ rs) = suc (guesses rs)
guesses (unauthorized ∷ rs) = suc (guesses rs)
guesses (too_many ∷ rs) = guesses rs

abbrev pub is_served : Response → Bool
is_served served = true
is_served unauthorized = false
is_served too_many = false

keep-is_recent :
    (w : ℕ) (now t0 : Time) (ts : List Time)
    → now < t0 + w
    → All (λ t. t0 ≤ t) ts
    → keep (is_recent w now) ts ≡ ts
keep-is_recent w now t0 [] lt h = refl
keep-is_recent w now t0 (t ∷ ts) lt (p, h) = ground (arith, keep-is_recent w now t0 ts lt h)

own : (ip : String) (a b : List Time) → (if ip =s ip then a else b) ≡ a
own ip a b = ap (λ c. if c then a else b) (=s_refl ip)

module _ (matches : String → String → Bool) (cfg : Config) (ip : String) (t0 : Time) where
  -- A request of the address with wrong credentials, within the window that begins at `t0`.
  pub record IsGuess (window : ℕ) (r : Request) : Type 0 where
    pub same : r.ip ≡ ip
    pub c : String × String
    pub given : r.credentials ≡ some c
    pub wrong : is_valid matches cfg c ≡ false
    pub begun : t0 ≤ r.later
    pub inside : r.now < t0 + window
    pub ended : r.later < t0 + window

  -- All failures of the address are in the window, and no more than the limit.
  record IsOpen (max window : ℕ) (l : AuthLimiter) : Type 0 where
    limit : l.max_failures ≡ max
    span : l.window ≡ window
    since : All (λ t. t0 ≤ t) (failures_of l ip)

  guess-allow :
      (max window : ℕ) (l : AuthLimiter) (now : Time)
      → now < t0 + window
      → IsOpen max window l
      → IsOpen max window (allow l ip now).1
        × (failures_of (allow l ip now).1 ip ≡ failures_of l ip)
  guess-allow max window l now lt h =
      let all = keep-is_recent l.window now t0 (failures_of l ip) (rw h.span lt) h.since in
      let same = failures_of-allow l ip ip now ∙ own ip _ (failures_of l ip) ∙ all in
      let (m, w) = allow-settings l ip now in
      (record { limit = m ∙ h.limit; span = w ∙ h.span; since = rw same h.since }, same)

  guess-record :
      (max window : ℕ) (l : AuthLimiter) (later : Time)
      → t0 ≤ later
      → later < t0 + window
      → IsOpen max window l
      → IsOpen max window (record_failure l ip later)
        × (length (failures_of (record_failure l ip later) ip) ≡ length (failures_of l ip) + 1)
  guess-record max window l later ge lt h =
      let all = keep-is_recent l.window later t0 (failures_of l ip) (rw h.span lt) h.since in
      let more =
        failures_of-record l ip ip later
        ∙ own ip _ (failures_of l ip)
        ∙ ap (λ ts. ts ++ later ∷ []) all in
      let (m, w) = record-settings l ip later in
      (
        record {
          limit = m ∙ h.limit;
          span = w ∙ h.span;
          since =
              rw more (All-append (λ t. t0 ≤ t) (failures_of l ip) (later ∷ []) h.since (ge, tt));
        },
        ap length more ∙ length-append (failures_of l ip) (later ∷ []),
      )

  -- What one guess does: it is compared and recorded while there is room, and refused else.
  abbrev IsOutcome : ℕ → ℕ → AuthLimiter → Response × AuthLimiter → Type 0
  IsOutcome max window l (answer, l') =
      IsOpen max window l'
      × (((answer ≡ unauthorized)
            × (length (failures_of l' ip) ≡ length (failures_of l ip) + 1)
            × (length (failures_of l ip) < max))
          ⊎ ((answer ≡ too_many) × (length (failures_of l' ip) ≡ length (failures_of l ip))))

  allow-room :
      (l : AuthLimiter) (now : Time)
      → (allow l ip now).0 ≡ true
      → length (recent l ip now) < l.max_failures
  unfolding allow
  allow-room l now e = ltb→lt _ _ e

  guess-allowed :
      (max window : ℕ) (l : AuthLimiter) (r : Request) (b : Bool)
      → IsGuess window r
      → IsOpen max window l
      → (allow l ip r.now).0 ≡ b
      → IsOutcome max window l (if_allowed matches cfg r (b, (allow l ip r.now).1))
  guess-allowed max window l r true g h e =
      let (open1, same1) = guess-allow max window l r.now g.inside h in
      let (open2, more) =
        guess-record max window (allow l ip r.now).1 r.later g.begun g.ended open1 in
      let all = keep-is_recent l.window r.now t0 (failures_of l ip) (rw h.span g.inside) h.since in
      let room : length (failures_of l ip) < max =
        (let lt = allow-room l r.now e in rw (sym all, sym h.limit) lt) in
      rw (g.given, g.wrong, g.same) (open2, inl (refl, more ∙ ap (λ ts. length ts + 1) same1, room))
  guess-allowed max window l r false g h e =
      let (open1, same1) = guess-allow max window l r.now g.inside h in
      (open1, inr (refl, ap length same1))

  basic_auth-on :
      (l : AuthLimiter) (r : Request)
      → cfg.auth_enabled ≡ true
      → r.ip ≡ ip
      → basic_auth matches cfg l r ≡ if_allowed matches cfg r (allow l ip r.now)
  unfolding basic_auth
  basic_auth-on l r on same =
      ap (λ b. if not b then (served, l) else if_allowed matches cfg r (allow l r.ip r.now)) on
      ∙ ap (λ k. if_allowed matches cfg r (allow l k r.now)) same

  guess-step :
      (max window : ℕ) (l : AuthLimiter) (r : Request)
      → cfg.auth_enabled ≡ true
      → IsGuess window r
      → IsOpen max window l
      → IsOutcome max window l (basic_auth matches cfg l r)
  guess-step max window l r on g h =
      rw (basic_auth-on l r on g.same) (guess-allowed max window l r (allow l ip r.now).0 g h refl)

  guesses-run :
      (max window : ℕ) (rs : List Request) (l : AuthLimiter)
      → cfg.auth_enabled ≡ true
      → All (IsGuess window) rs
      → IsOpen max window l
      → length (failures_of l ip) ≤ max
      → guesses (responses matches cfg l rs) + length (failures_of l ip) ≤ max
  unfolding responses
  guesses-run max window [] l on gs h le = omega (arith, le)
  guesses-run max window (r ∷ rs) l on (g, gs) h le =
      let (next, outcome) = guess-step max window l r on g h in
      elim outcome [
        | inl (a, more, lt) ↦ rw a (
            omega (
              arith,
              more,
              lt,
              guesses-run max window rs (basic_auth matches cfg l r).1 on gs next
                  (omega (arith, more, lt)),
            ))
        | inr (a, same) ↦ rw a (
            omega (
              arith,
              same,
              guesses-run max window rs (basic_auth matches cfg l r).1 on gs next
                  (omega (arith, same, le)),
            ))
      ]

  none_served :
      (max window : ℕ) (rs : List Request) (l : AuthLimiter)
      → cfg.auth_enabled ≡ true
      → All (IsGuess window) rs
      → IsOpen max window l
      → any is_served (responses matches cfg l rs) ≡ false
  unfolding responses
  none_served max window [] l on gs h = refl
  none_served max window (r ∷ rs) l on (g, gs) h =
      let (next, outcome) = guess-step max window l r on g h in
      let rest = none_served max window rs (basic_auth matches cfg l r).1 on gs next in
      elim outcome [ inl (a, more, lt) ↦ rw a rest | inr (a, same) ↦ rw a rest ]

-- With authentication enabled, take requests of one address with wrong credentials, one after the
-- other, all of whose clock readings lie in one window from `t0` on, and an address whose recorded
-- failures all lie at `t0` or later and are no more than the limit. Then none of them is served, and those
-- that are not answered 429, whose credentials are compared, are together with these failures no more than
-- the limit.
pub guesses-bounded :
    (matches : String → String → Bool) (cfg : Config) (ip : String) (t0 : Time) (rs : List Request)
    (l : AuthLimiter)
    → cfg.auth_enabled ≡ true
    → All (IsGuess matches cfg ip t0 l.window) rs
    → All (λ t. t0 ≤ t) (failures_of l ip)
    → length (failures_of l ip) ≤ l.max_failures
    → (any is_served (responses matches cfg l rs) ≡ false)
      × (guesses (responses matches cfg l rs) + length (failures_of l ip) ≤ l.max_failures)
guesses-bounded matches cfg ip t0 rs l on gs since le =
    let start : IsOpen matches cfg ip t0 l.max_failures l.window l = record {
      limit = refl;
      span = refl;
      since = since;
    } in
    (
      none_served matches cfg ip t0 l.max_failures l.window rs l on gs start,
      guesses-run matches cfg ip t0 l.max_failures l.window rs l on gs start le,
    )
