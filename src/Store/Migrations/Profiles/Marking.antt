-- ===== src/Store/Migrations/Profiles/Marking.antt =====
-- Marking the inbounds of one group: what one round of the second loop does to them.
use text.Mathlib.TextLemmas.{append_assoc, cons-append, cons≢nil}
use angry_box.Prelude.{
  All, ℕ, suc, ◌≡◌, ◌≢◌, refl, ap, sym, ◌∙◌, String, Bool, true, false, List, [], ◌∷◌, ◌++◌, map,
  some, ◌=s◌, =s_iff, =s_ne, any, first, length, arith, Bool-cases, inl, inr, ltb, Option-cases,
}
use angry_box.Prelude.Decimal.{decimal, ◌+s◌}
use angry_box.Prelude.Text.{to_lower, map_chars, swap_char}
use angry_box.Prelude.Free.{first_free}
use angry_box.Model.Base.{Time}
use angry_box.Model.Panel.{NodeInbound, NodeInfo}
use angry_box.Store.Migrations.Profiles.{
  is_used, candidate, unique_migration_profile_id, migration_profile_id_base, is_standalone, key_of,
  in_group, all_inbounds, mark, mark_all, profile_from, Work, with_first, with_profile,
  profile_group,
}
use angry_box.Store.Migrations.Profiles.Naming.{unique_migration_profile_id-fresh}

prof_nonempty : (x : String) → "prof-" +s x ≢ ""
prof_nonempty x e = cons≢nil (sym (cons-append "p" "rof-" x) ∙ e)

base-prof :
    (protocol : String) (port : ℕ)
    → (x : String) × (migration_profile_id_base protocol port ≡ "prof-" +s x)
unfolding migration_profile_id_base
base-prof protocol port =
    let p = map_chars (swap_char "/_ " "---") (to_lower protocol) in
    elim (Bool-cases (ltb 0 port)) [
      | inl given ↦ (p +s "-" +s decimal port, rw given refl)
      | inr zero_port ↦ (p, rw zero_port refl)
    ]

candidate_nonempty : (x : String) (i : ℕ) → candidate ("prof-" +s x) i ≢ ""
candidate_nonempty x i e =
    prof_nonempty (x +s "-" +s decimal i) (sym (append_assoc "prof-" x ("-" +s decimal i)) ∙ e)

map-append :
    (f : NodeInbound → NodeInbound) (xs ys : List NodeInbound)
    → map f (xs ++ ys) ≡ map f xs ++ map f ys
map-append f [] ys = refl
map-append f (x ∷ xs) ys = ap (λ r. f x ∷ r) (map-append f xs ys)

pub all_inbounds-mark_all :
    (key pid : String) (nis : List NodeInfo)
    → all_inbounds (mark_all key pid nis) ≡ map (mark key pid) (all_inbounds nis)
all_inbounds-mark_all key pid [] = refl
all_inbounds-mark_all key pid (ni ∷ nis) =
    ap (λ r. map (mark key pid) ni.inbounds ++ r) (all_inbounds-mark_all key pid nis)
    ∙ sym (map-append (mark key pid) ni.inbounds (all_inbounds nis))

-- An inbound with a profile is not standalone.
pub marked_not_standalone :
    (ib : NodeInbound) (pid : String)
    → (pid =s "") ≡ false
    → is_standalone (record ib { profile_id = pid }) ≡ false
unfolding is_standalone
marked_not_standalone ib pid h = ground (arith, h)

in_group-mark :
    (key pid : String) (ib : NodeInbound)
    → (pid =s "") ≡ false
    → in_group key (mark key pid ib) ≡ false
in_group-mark key pid ib h = elim (Bool-cases (in_group key ib)) [
  | inl here ↦ rw here (ground (arith, marked_not_standalone ib pid h))
  | inr other ↦ rw other other
]

pub any-in_group-mark :
    (key pid : String) (ibs : List NodeInbound)
    → (pid =s "") ≡ false
    → any (in_group key) (map (mark key pid) ibs) ≡ false
any-in_group-mark key pid [] h = refl
any-in_group-mark key pid (ib ∷ ibs) h =
    rw (in_group-mark key pid ib h) (any-in_group-mark key pid ibs h)

in_group-mark_other :
    (k key pid : String) (ib : NodeInbound)
    → (pid =s "") ≡ false
    → (k =s key) ≡ false
    → in_group k (mark key pid ib) ≡ in_group k ib
in_group-mark_other k key pid ib h ne = elim (Bool-cases (in_group key ib)) [
  | inr other ↦ rw other refl
  | inl here ↦ rw here (
      ground (
        arith,
        marked_not_standalone ib pid h,
        here,
        ne,
        =s_iff (key_of ib) key,
        =s_iff (key_of ib) k,
        =s_iff k key,
      ))
]

pub any-in_group-mark_other :
    (k key pid : String) (ibs : List NodeInbound)
    → (pid =s "") ≡ false
    → (k =s key) ≡ false
    → any (in_group k) (map (mark key pid) ibs) ≡ any (in_group k) ibs
any-in_group-mark_other k key pid [] h ne = refl
any-in_group-mark_other k key pid (ib ∷ ibs) h ne =
    rw (in_group-mark_other k key pid ib h ne, any-in_group-mark_other k key pid ibs h ne) refl

first-any :
    (test : NodeInbound → Bool) (xs : List NodeInbound)
    → any test xs ≡ true
    → (x : NodeInbound) × (first test xs ≡ some x)
      × (test x ≡ true)
      × ((p : NodeInbound → Bool) → All (λ y. p y ≡ true) xs → p x ≡ true)
first-any test [] h = absurd (cc)
first-any test (x ∷ xs) h = elim (Bool-cases (test x)) [
  | inl here ↦ (x, rw here refl, here, λ p all. all.0)
  | inr later ↦
      let (y, e, holds_of, within) = first-any test xs (rw later at h) in
      (y, rw later e, holds_of, λ p all. within p all.1)
]

unique_migration_profile_id-nonempty :
    (used : List String) (x id : String)
    → unique_migration_profile_id used ("prof-" +s x) ≡ some id
    → (id =s "") ≡ false
unfolding unique_migration_profile_id
unique_migration_profile_id-nonempty used x id e = elim (Bool-cases (is_used used ("prof-" +s x))) [
  | inr free ↦
      let here : "prof-" +s x ≡ id = ground (arith, free, e) in
      =s_ne id "" (λ blank. prof_nonempty x (here ∙ blank))
  | inl busy ↦
      elim (Option-cases
        (first_free (suc (length used)) (λ i. is_used used (candidate ("prof-" +s x) i)) 2)) [
          | inl failed ↦ absurd (ground (arith, busy, failed, e))
          | inr (i, found) ↦
              let here : candidate ("prof-" +s x) i ≡ id = ground (arith, busy, found, e) in
              =s_ne id "" (λ blank. candidate_nonempty x i (here ∙ blank))
        ]
]

-- The state after a group was given the profile `pid`, made from the inbound `ib`.
abbrev pub grouped : Time → String → Work → NodeInbound → String → Work
grouped now key w ib pid = record {
  used = pid ∷ w.used;
  profiles = w.profiles ++ profile_from now pid ib ∷ [];
  infos = mark_all key pid w.infos;
}

-- A group that has an inbound is given a profile with an identifier that is new and not empty.
pub profile_group-grouped :
    (now : Time) (key : String) (w : Work)
    → any (in_group key) (all_inbounds w.infos) ≡ true
    → (r : NodeInbound × String) × (profile_group now key w ≡ some (grouped now key w r.0 r.1))
      × (in_group key r.0 ≡ true)
      × ((r.1 =s "") ≡ false)
      × (is_used w.used r.1 ≡ false)
      × ((p : NodeInbound → Bool) → All (λ y. p y ≡ true) (all_inbounds w.infos) → p r.0 ≡ true)
unfolding profile_group
profile_group-grouped now key w h =
    let (ib, found, here, within) = first-any (in_group key) (all_inbounds w.infos) h in
    let (x, base) = base-prof ib.protocol ib.port in
    let (pid, unique, free) = unique_migration_profile_id-fresh w.used ("prof-" +s x) in
    (
      (ib, pid),
      ap (with_first now key w) found
          ∙ ap (λ b. with_profile now key ib w (unique_migration_profile_id w.used b)) base
          ∙ ap (with_profile now key ib w) unique,
      here,
      unique_migration_profile_id-nonempty w.used x pid unique,
      free,
      within,
    )
