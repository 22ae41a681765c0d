-- ===== src/Tests/Runs.antt =====
-- Sequences of handler calls, some of which fail.
use angry_box.Model.Levels.{all_nodes}
use angry_box.Prelude.{◌≡◌, refl, List, [], ◌∷◌, true, false}
use angry_box.Prelude.Int.{pos}
use angry_box.Store.{write_failed, Disk, absent, update}
use angry_box.Store.Consistent.{IsSound}
use angry_box.Store.Hosts.{save_host, delete_host}
use angry_box.Store.Chains.{delete_chain}
use angry_box.Store.Users.{delete_user, save_user}
use angry_box.Store.Routes.{save_route_rule}
use angry_box.Store.Machine.{Handler, exec, run}
use angry_box.Store.Machine.Revision.{exec-atomic, run-unchanged, run-IsSound}
use angry_box.Store.Machine.Directory.{directory, answers, replay, run-replay}
use angry_box.Samples.{host, user, rule, disk}

runs : Unit {0}
unfolding run exec save_host delete_host delete_chain delete_user update all_nodes
runs = tt

abbrev full : Disk
full = record disk { writable = λ sf. false }

abbrev saving : Handler
saving = Handler.save_host (host "n" "203.0.113.9")

exec-atomic_example : (exec saving full).1 ≡ full
unfolding runs
exec-atomic_example = exec-atomic saving full (exec saving full).1 write_failed refl

-- Two calls that fail: the host is in a chain, the user is not there.
abbrev refused : List Handler
refused = Handler.delete_host "a" ∷ Handler.delete_user "u" ∷ []

run-unchanged_example : run refused disk ≡ disk
unfolding runs
run-unchanged_example = run-unchanged refused disk refl

abbrev calls : List Handler
calls =
    Handler.save_host (host "n" "203.0.113.9")
    ∷ Handler.save_host (host "n" "203.0.113.10")
    ∷ Handler.save_user (user "u") 90
    ∷ Handler.delete_chain "c"
    ∷ Handler.delete_host "a"
    ∷ Handler.save_route_rule (rule "" (pos 2)) "fresh" 91
    ∷ []

abbrev empty : Disk
empty = record { content = absent; writable = λ sf. true }

run-IsSound_example : IsSound (run calls empty).content
run-IsSound_example = run-IsSound calls empty tt

-- The deletion is refused on an empty store; the second address of the host is the one that is found.
answer_tests : answers calls empty ≡ true ∷ true ∷ true ∷ false ∷ false ∷ true ∷ []
unfolding runs answers save_user save_route_rule
answer_tests = refl

run-replay_example :
    directory (run calls empty) ≡ replay calls (answers calls empty) (directory empty)
run-replay_example = run-replay calls empty
