-- ===== src/Store/Machine/Revision.antt =====
-- The revision as a witness of change: nodes are stamped with it, and an unchanged stamp means that
-- the store they were rendered from is the store that is there.
use angry_box.Prelude.{suc, ◌≤◌, ◌≡◌, refl, sym, ap, ◌∙◌, ◌⊎◌, inl, inr, List, [], ◌∷◌, arith}
use angry_box.Store.{StoreError, Result, ok, err, Disk, get_revision}
use angry_box.Store.Consistent.{IsSound}
use angry_box.Store.Machine.{Handler, exec, run}
use angry_box.Store.Machine.Safety.{exec-IsSafe}

-- A call of any writing handler that fails, be it for a refused edit, a file that cannot be read or a
-- write that fails, changes nothing on the disk.
pub exec-atomic : (h : Handler) (d d' : Disk) (e : StoreError) → exec h d ≡ (err e, d') → d' ≡ d
exec-atomic h d d' e = (exec-IsSafe h).atomic d d' e

-- One call leaves the disk as it was, or raises the revision by one.
exec-revision :
    (h : Handler) (d : Disk)
    → ((exec h d).1 ≡ d) ⊎ (get_revision (exec h d).1 ≡ suc (get_revision d))
exec-revision h d = go (exec h d).0 refl
  where
    go :
        (r : Result (Unit {0}))
        → (exec h d).0 ≡ r
        → ((exec h d).1 ≡ d) ⊎ (get_revision (exec h d).1 ≡ suc (get_revision d))
    go (ok tt) q = (exec-IsSafe h).grows d (exec h d).1 (λ i. (q i, (exec h d).1))
    go (err e) q = inl ((exec-IsSafe h).atomic d (exec h d).1 e (λ i. (q i, (exec h d).1)))

exec-IsSound : (h : Handler) (d : Disk) → IsSound d.content → IsSound (exec h d).1.content
exec-IsSound h d s = go (exec h d).0 refl
  where
    go : (r : Result (Unit {0})) → (exec h d).0 ≡ r → IsSound (exec h d).1.content
    go (ok tt) q = (exec-IsSafe h).keeps d (exec h d).1 (λ i. (q i, (exec h d).1)) s
    go (err e) q = rw ((exec-IsSafe h).atomic d (exec h d).1 e (λ i. (q i, (exec h d).1))) s

-- Through any sequence of calls, successful or not, the revision never falls.
pub run-revision_le : (hs : List Handler) (d : Disk) → get_revision d ≤ get_revision (run hs d)
unfolding run
run-revision_le [] d = omega arith
run-revision_le (h ∷ hs) d = elim (exec-revision h d) [
  | inl same ↦ omega (arith, run-revision_le hs (exec h d).1, ap get_revision same)
  | inr more ↦ omega (arith, run-revision_le hs (exec h d).1)
]

-- After any sequence of calls, successful or not, an unchanged revision means an unchanged disk.
pub run-unchanged :
    (hs : List Handler) (d : Disk) → get_revision (run hs d) ≡ get_revision d → run hs d ≡ d
unfolding run
run-unchanged [] d e = refl
run-unchanged (h ∷ hs) d e = elim (exec-revision h d) [
  | inl same ↦ run-unchanged hs (exec h d).1 (e ∙ sym (ap get_revision same)) ∙ same
  | inr more ↦ absurd (omega (arith, run-revision_le hs (exec h d).1))
]

-- Whatever the handlers that are called, and whether each succeeds or fails, a file that is consistent
-- stays so: every table has one row for each key, no chain has an edge twice under two identifiers,
-- and no two users of one node have the same MTProxy secret. A disk without a file counts as
-- consistent, and so does every file that the handlers then write on it.
pub run-IsSound : (hs : List Handler) (d : Disk) → IsSound d.content → IsSound (run hs d).content
unfolding run
run-IsSound [] d s = s
run-IsSound (h ∷ hs) d s = run-IsSound hs (exec h d).1 (exec-IsSound h d s)
