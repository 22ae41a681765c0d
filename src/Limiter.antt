-- ===== src/Limiter.antt =====
-- internal/web/authlimiter.go: the limiter of failed logins, one list of failure times for each address.
-- The clock reading is the argument `now`; the mutex makes each call one step. The map of failures is
-- a table of the addresses that have an entry, which the code looks up with `l.failures[ip]`.
pub mod Gate
pub mod Times
pub mod Bounds
pub mod Lockout
pub mod Guesses
use angry_box.Prelude.{
  ℕ, ◌+◌, String, Bool, List, [], ◌∷◌, ◌++◌, ltb, if◌then◌else◌, keep, Option, none, some, find_by,
  upsert, remove_by, length, ◌==◌,
}
use angry_box.Prelude.Int.{ℤ, pos, negsuc}
use angry_box.Model.Base.{Time}

pub record AuthLimiter : Type 0 where
  pub max_failures : ℕ
  pub window : ℕ
  pub failures : List (String × List Time)

abbrev pub minute : ℕ
minute = 60000000000

abbrev pub at_least_one : ℤ → ℕ
at_least_one (pos n) = if n == 0 then 1 else n
at_least_one (negsuc n) = 1

abbrev pub window_or_minute : ℤ → ℕ
window_or_minute (pos n) = if n == 0 then minute else n
window_or_minute (negsuc n) = minute

-- `newAuthLimiter`
unfoldable pub new_auth_limiter : ℤ → ℤ → AuthLimiter
new_auth_limiter max window = record {
  max_failures = at_least_one max;
  window = window_or_minute window;
  failures = [];
}

abbrev pub ip_of : String × List Time → String
ip_of e = e.0

abbrev pub times_of : Option (String × List Time) → List Time
times_of none = []
times_of (some e) = e.1

-- `l.failures[ip]`, which is empty for an address without an entry.
abbrev pub failures_of : AuthLimiter → String → List Time
failures_of l ip = times_of (find_by ip_of ip l.failures)

-- `t.After(now.Add(-l.window))`
abbrev pub is_recent : ℕ → Time → Time → Bool
is_recent window now t = ltb now (t + window)

abbrev pub recent : AuthLimiter → String → Time → List Time
recent l ip now = keep (is_recent l.window now) (failures_of l ip)

abbrev pub with_times : String → List Time → AuthLimiter → AuthLimiter
with_times ip [] l = record l { failures = remove_by ip_of ip l.failures }
with_times ip (t ∷ ts) l = record l { failures = upsert ip_of (ip, t ∷ ts) l.failures }

-- `allow`: the answer, and the limiter without the failures that are too old.
unfoldable pub allow : AuthLimiter → String → Time → Bool × AuthLimiter
allow l ip now = (ltb (length (recent l ip now)) l.max_failures, with_times ip (recent l ip now) l)

-- `recordFailure`
unfoldable pub record_failure : AuthLimiter → String → Time → AuthLimiter
record_failure l ip now = with_times ip (recent l ip now ++ now ∷ []) l

-- `clear`
unfoldable pub clear : AuthLimiter → String → AuthLimiter
clear l ip = record l { failures = remove_by ip_of ip l.failures }
