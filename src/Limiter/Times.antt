-- ===== src/Limiter/Times.antt =====
-- The failure times of each address through the operations of the limiter.
use angry_box.Prelude.{
  ◌≡◌, refl, String, List, [], ◌∷◌, ◌++◌, arith, ◌=s◌, if◌then◌else◌, Bool-cases, find_by,
  remove_by, find_by-upsert, find_by-remove_by,
}
use angry_box.Model.Base.{Time}
use angry_box.Limiter.{
  AuthLimiter, failures_of, times_of, ip_of, with_times, recent, allow, record_failure, clear,
}

module _ (l : AuthLimiter) (ip k : String) where
  pub failures_of-remove :
      times_of (find_by ip_of k (remove_by ip_of ip l.failures))
      ≡ (if ip =s k then [] else failures_of l k)
  failures_of-remove = ground (arith, find_by-remove_by ip_of k ip l.failures)

  failures_of-with_times :
      (ts : List Time)
      → failures_of (with_times ip ts l) k ≡ (if ip =s k then ts else failures_of l k)
  failures_of-with_times [] = failures_of-remove
  failures_of-with_times (t ∷ ts) =
      ground (arith, find_by-upsert ip_of k (ip, t ∷ ts) l.failures, Bool-cases (ip =s k))

  pub failures_of-allow :
      (now : Time)
      → failures_of (allow l ip now).1 k ≡ (if ip =s k then recent l ip now else failures_of l k)
  unfolding allow
  failures_of-allow now = failures_of-with_times (recent l ip now)

  pub failures_of-record :
      (now : Time)
      → failures_of (record_failure l ip now) k
        ≡ (if ip =s k then recent l ip now ++ now ∷ [] else failures_of l k)
  unfolding record_failure
  failures_of-record now = failures_of-with_times (recent l ip now ++ now ∷ [])

  pub failures_of-clear : failures_of (clear l ip) k ≡ (if ip =s k then [] else failures_of l k)
  unfolding clear
  failures_of-clear = failures_of-remove

with_times-settings :
    (l : AuthLimiter) (ip : String) (ts : List Time)
    → ((with_times ip ts l).max_failures ≡ l.max_failures)
      × ((with_times ip ts l).window ≡ l.window)
with_times-settings l ip [] = (refl, refl)
with_times-settings l ip (t ∷ ts) = (refl, refl)

-- The two settings never change.
pub allow-settings :
    (l : AuthLimiter) (ip : String) (now : Time)
    → ((allow l ip now).1.max_failures ≡ l.max_failures) × ((allow l ip now).1.window ≡ l.window)
unfolding allow
allow-settings l ip now = with_times-settings l ip (recent l ip now)

pub record-settings :
    (l : AuthLimiter) (ip : String) (now : Time)
    → ((record_failure l ip now).max_failures ≡ l.max_failures)
      × ((record_failure l ip now).window ≡ l.window)
unfolding record_failure
record-settings l ip now = with_times-settings l ip (recent l ip now ++ now ∷ [])
