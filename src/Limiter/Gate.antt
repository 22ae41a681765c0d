-- ===== src/Limiter/Gate.antt =====
-- `BasicAuthMiddleware` of internal/web/auth.go. The comparison of a password with its bcrypt hash is
-- the parameter `matches`; the log, the alert of a lockout and the dummy comparison that evens out
-- the time change nothing here. A request comes with the clock readings of `allow` and of
-- `recordFailure`.
use angry_box.Prelude.{
  String, Bool, true, false, not, Option, none, some, ◌=s◌, if◌then◌else◌, List, [], ◌∷◌,
}
use angry_box.Model.Base.{Time}
use angry_box.Limiter.{AuthLimiter, allow, record_failure, clear}

pub record Config : Type 0 where
  pub auth_enabled : Bool
  pub auth_username : String
  pub auth_password_hash : String

pub record Request : Type 0 where
  pub ip : String
  pub credentials : Option (String × String)
  pub now : Time
  pub later : Time

pub data Response : Type 0 where
  served unauthorized too_many : Response

module _ (matches : String → String → Bool) (cfg : Config) where
  abbrev pub is_valid : String × String → Bool
  is_valid (user, pass) =
      if user =s cfg.auth_username then matches cfg.auth_password_hash pass else false

  abbrev pub check_credentials :
      Request → Option (String × String) → AuthLimiter → Response × AuthLimiter
  check_credentials r none l = (unauthorized, l)
  check_credentials r (some c) l =
      if is_valid c then (served, clear l r.ip) else (unauthorized, record_failure l r.ip r.later)

  abbrev pub if_allowed : Request → Bool × AuthLimiter → Response × AuthLimiter
  if_allowed r (true, l) = check_credentials r r.credentials l
  if_allowed r (false, l) = (too_many, l)

  -- `BasicAuthMiddleware`
  unfoldable pub basic_auth : AuthLimiter → Request → Response × AuthLimiter
  basic_auth l r = if not cfg.auth_enabled then (served, l) else if_allowed r (allow l r.ip r.now)

  -- Requests one after the other: the limiter at the end, and the responses.
  unfoldable pub serve : AuthLimiter → List Request → AuthLimiter
  serve l [] = l
  serve l (r ∷ rs) = serve (basic_auth l r).1 rs

  unfoldable pub responses : AuthLimiter → List Request → List Response
  responses l [] = []
  responses l (r ∷ rs) = (basic_auth l r).0 ∷ responses (basic_auth l r).1 rs
