-- ===== src/Tests/Limiter.antt =====
-- A limiter of two failures in 100 nanoseconds, and a gate with one password.
use angry_box.Prelude.{
  any, ◌≡◌, ◌≤◌, refl, ◌+◌, String, Bool, true, false, List, [], ◌∷◌, some, arith, ◌=s◌, =s_iff,
  length, ◌<◌,
}
use angry_box.Prelude.Int.{pos}
use angry_box.Model.Base.{Time}
use angry_box.Limiter.{AuthLimiter, new_auth_limiter, failures_of, allow, record_failure, clear}
use angry_box.Limiter.Gate.{
  Config, Request, served, unauthorized, too_many, basic_auth, serve, responses,
}
use angry_box.Limiter.Bounds.{serve-bounded}
use angry_box.Limiter.Guesses.{is_served, guesses, IsGuess, guesses-bounded}

gate : Unit {0}
unfolding basic_auth serve responses allow record_failure clear new_auth_limiter
gate = tt

abbrev matches : String → String → Bool
matches hash pass = hash =s pass

abbrev config : Config
config = record { auth_enabled = true; auth_username = "admin"; auth_password_hash = "secret" }

abbrev limiter : AuthLimiter
limiter = new_auth_limiter (pos 2) (pos 100)

abbrev login : String → String → Time → Request
login ip pass now = record { ip = ip; credentials = some ("admin", pass); now = now; later = now }

abbrev attack : List Request
attack = login "x" "a" 10 ∷ login "x" "b" 20 ∷ login "x" "c" 30 ∷ []

abbrev attacked : AuthLimiter
attacked = serve matches config limiter attack

gate_tests :
    (responses matches config limiter attack ≡ unauthorized ∷ unauthorized ∷ too_many ∷ [])
    × ((basic_auth matches config attacked (login "y" "secret" 40)).0 ≡ served)
unfolding gate
gate_tests = (refl, refl)

serve-bounded_example : length (failures_of attacked "x") ≤ limiter.max_failures
serve-bounded_example = serve-bounded matches config (pos 2) (pos 100) attack "x"

login-IsGuess :
    (pass : String) (now : Time)
    → (pass =s "secret") ≡ false
    → 10 ≤ now
    → now < 110
    → IsGuess matches config "x" 10 100 (login "x" pass now)
login-IsGuess pass now wrong begun inside = record {
  same = refl;
  c = ("admin", pass);
  given = refl;
  wrong = ground (arith, wrong, =s_iff "secret" pass, =s_iff pass "secret");
  begun = begun;
  inside = inside;
  ended = inside;
}

guesses-bounded_example :
    (any is_served (responses matches config limiter attack) ≡ false)
    × (guesses (responses matches config limiter attack) + length (failures_of limiter "x")
        ≤ limiter.max_failures)
unfolding gate
guesses-bounded_example =
    guesses-bounded matches config "x" 10 attack limiter refl
      (
        login-IsGuess "a" 10 refl (omega arith) (omega arith),
        (
          login-IsGuess "b" 20 refl (omega arith) (omega arith),
          (login-IsGuess "c" 30 refl (omega arith) (omega arith), tt),
        ),
      )
      tt (omega arith)
