-- ===== src/Store/Machine/Safety.antt =====
-- Every handler is atomic, moves the revision by one where it writes, and keeps the tables consistent.
use angry_box.Store.Utilities.{set_utility_state}
use angry_box.Store.Profiles.{save_inbound_profile, delete_inbound_profile}
use angry_box.Store.Settings.{save_settings}
use angry_box.Store.Users.{save_user, delete_user}
use angry_box.Store.Chains.{save_chain, delete_chain}
use angry_box.Store.Routes.{named, save_route_rule, delete_route_rule, save_link, delete_link}
use angry_box.Store.Machine.{Handler, exec}
use angry_box.Prelude.{
  suc, ◌≡◌, refl, sym, ap, ◌⊎◌, inl, inr, String, ◌||◌, arith, Bool-cases, has_key, Bool, true,
  false, if◌then◌else◌,
}
use angry_box.Model.Panel.{NodeInfo}
use angry_box.Store.{
  StoreFile, StoreError, Result, ok, err, Content, absent, unreadable, holds, Disk, M,
  new_store_file, answer, update, get_revision, revision_of, stamp,
}
use angry_box.Store.Laws.{update-err, update-ok, write_store-ok, write_store-err}
use angry_box.Store.Hosts.{info_id, metrics_id, save_host, delete_host}
use angry_box.Store.Nodes.{
  save_node_info, delete_node_info, delete_found, without_node, save_metrics, save_node_position,
}
use angry_box.Store.Consistent.{IsConsistent, IsSound}
use angry_box.Store.Consistent.Edits
use angry_box.Store.Consistent.Pairs
use angry_box.Store.Consistent.Edits.{Keeps, without_node-IsConsistent}

-- A handler that leaves the disk alone where it fails; where it succeeds it has changed nothing, or
-- moved the revision by one; and it keeps the tables consistent.
pub record IsSafe (m : M (Unit {0})) : Type 0 where
  pub atomic : (d d' : Disk) (e : StoreError) → m d ≡ (err e, d') → d' ≡ d
  pub grows :
      (d d' : Disk) → m d ≡ (ok tt, d') → (d' ≡ d) ⊎ (get_revision d' ≡ suc (get_revision d))
  pub keeps : (d d' : Disk) → m d ≡ (ok tt, d') → IsSound d.content → IsSound d'.content

-- What a handler may make of a missing file.
abbrev pub IsStart : Result StoreFile → Type 0
IsStart (ok sf) = sf ≡ new_store_file
IsStart (err e) = Unit

empty-IsConsistent : IsConsistent new_store_file
empty-IsConsistent = record {
  hosts_distinct = tt;
  chains_distinct = tt;
  users_distinct = tt;
  infos_distinct = tt;
  metrics_distinct = tt;
  rules_distinct = tt;
  links_distinct = tt;
  profiles_distinct = tt;
  edges_apart = tt;
  secrets_apart = tt;
}

pub answer-revision :
    (missing : Result StoreFile) (c : Content) (sf : StoreFile)
    → IsStart missing
    → answer missing c ≡ ok sf
    → sf.revision ≡ revision_of c
answer-revision (ok t) absent sf s h = ground arith
answer-revision (err e) absent sf s h = absurd (cc)
answer-revision missing unreadable sf s h = absurd (cc)
answer-revision missing (holds t) sf s h = ground arith

answer-IsConsistent :
    (missing : Result StoreFile) (c : Content) (sf : StoreFile)
    → IsStart missing
    → answer missing c ≡ ok sf
    → IsSound c
    → IsConsistent sf
answer-IsConsistent (ok t) absent sf s h i =
    let e : t ≡ sf = cc in rw (← e) (rw s empty-IsConsistent)
answer-IsConsistent (err e) absent sf s h i = absurd (cc)
answer-IsConsistent missing unreadable sf s h i = absurd (cc)
answer-IsConsistent missing (holds t) sf s h i = let e : t ≡ sf = cc in rw (← e) i

update-IsSafe :
    (missing : Result StoreFile) (f : StoreFile → Result StoreFile)
    → IsStart missing
    → Keeps f
    → IsSafe (update missing f)
update-IsSafe missing f s k = record {
  atomic = λ d d' e h. update-err d missing f h;
  grows = λ d d' h.
      let (sf, sf', read, edited, wrote) = update-ok d missing f h in
      let a : sf'.revision ≡ sf.revision = (k sf sf' edited).0 in
      let b = answer-revision missing d.content sf s read in inr (rw wrote.0 (omega (arith, a, b)));
  keeps = λ d d' h i.
      let (sf, sf', read, edited, wrote) = update-ok d missing f h in
      let c = (k sf sf' edited).1 (answer-IsConsistent missing d.content sf s read i) in
      rw wrote.0 (assumption c);
}

-- `delete_node_info` writes only where there is something to drop.
delete_node_info-IsSafe : (id : String) → IsSafe (delete_node_info id)
unfolding delete_node_info
delete_node_info-IsSafe id = record {
  atomic = λ d d' e h. failed d.content d d' e h;
  grows = λ d d' h. grown d.content d d' refl h;
  keeps = λ d d' h i. kept d.content d d' refl h i;
}
  where
    failed :
        (c : Content) (d d' : Disk) (e : StoreError) → delete_found id c d ≡ (err e, d') → d' ≡ d
    failed absent d d' e h = sym (ap (λ p. p.1) h)
    failed unreadable d d' e h = sym (ap (λ p. p.1) h)
    failed (holds sf) d d' e h =
        elim (Bool-cases (has_key info_id id sf.node_infos || has_key metrics_id id sf.metrics)) [
          | inl there ↦ write_store-err d (without_node id sf) (rw there at h)
          | inr none' ↦ sym (ap (λ p. p.1) (rw none' at h))
        ]

    grown :
        (c : Content) (d d' : Disk)
        → d.content ≡ c
        → delete_found id c d ≡ (ok tt, d')
        → (d' ≡ d) ⊎ (get_revision d' ≡ suc (get_revision d))
    grown absent d d' e h = inl (sym (ap (λ p. p.1) h))
    grown unreadable d d' e h = inl (sym (ap (λ p. p.1) h))
    grown (holds sf) d d' e h =
        elim (Bool-cases (has_key info_id id sf.node_infos || has_key metrics_id id sf.metrics)) [
          | inl there ↦
              let w = write_store-ok d (without_node id sf) (rw there at h) in
              inr (rw (w.0, e) (omega arith))
          | inr none' ↦ inl (sym (ap (λ p. p.1) (rw none' at h)))
        ]

    kept :
        (c : Content) (d d' : Disk)
        → d.content ≡ c
        → delete_found id c d ≡ (ok tt, d')
        → IsSound d.content
        → IsSound d'.content
    kept absent d d' e h i = rw (← ap (λ p. p.1.content) h) i
    kept unreadable d d' e h i = rw (← ap (λ p. p.1.content) h) i
    kept (holds sf) d d' e h i =
        elim (Bool-cases (has_key info_id id sf.node_infos || has_key metrics_id id sf.metrics)) [
          | inl there ↦
              let w = write_store-ok d (without_node id sf) (rw there at h) in
              rw w.0 (assumption (without_node-IsConsistent id sf (rw e at i)))
          | inr none' ↦ rw (← ap (λ p. p.1.content) (rw none' at h)) i
        ]

save_node_info-IsSafe : (ni : NodeInfo) → IsSafe (save_node_info ni)
unfolding save_node_info
save_node_info-IsSafe ni = update-IsSafe _ _ refl (Edits.put_node_info-Keeps ni)

-- The node record that is saved may be read off the disk first.
module _ (g : Disk → NodeInfo) where
  save_read-IsSafe : IsSafe (λ d. save_node_info (g d) d)
  save_read-IsSafe = record {
    atomic = λ d. (save_node_info-IsSafe (g d)).atomic d;
    grows = λ d. (save_node_info-IsSafe (g d)).grows d;
    keeps = λ d. (save_node_info-IsSafe (g d)).keeps d;
  }

  save_named-IsSafe :
      (b : Bool) (x : StoreError) → IsSafe (λ d. if b then (err x, d) else save_node_info (g d) d)
  save_named-IsSafe true x = record {
    atomic = λ d d' e h. sym (ap (λ p. p.1) h);
    grows = λ d d' h. absurd (ground arith);
    keeps = λ d d' h i. absurd (ground arith);
  }
  save_named-IsSafe false x = save_read-IsSafe

-- Every handler is safe.
pub exec-IsSafe : (h : Handler) → IsSafe (exec h)
unfolding exec save_host delete_host save_chain delete_chain save_user delete_user save_settings
    save_metrics save_node_position save_inbound_profile delete_inbound_profile save_route_rule
    delete_route_rule save_link delete_link set_utility_state
exec-IsSafe (Handler.save_host h) = update-IsSafe _ _ refl (Edits.put_host-Keeps h)
exec-IsSafe (Handler.delete_host id) = update-IsSafe _ _ tt (Edits.drop_host-Keeps id)
exec-IsSafe (Handler.save_chain c) = update-IsSafe _ _ refl (Edits.put_chain-Keeps c)
exec-IsSafe (Handler.delete_chain name) = update-IsSafe _ _ tt (Edits.drop_chain-Keeps name)
exec-IsSafe (Handler.save_user u now) =
    update-IsSafe _ _ refl (Pairs.put_user-Keeps (record u { created_at = stamp now u.created_at }))
exec-IsSafe (Handler.delete_user id) = update-IsSafe _ _ tt (Edits.drop_user-Keeps id)
exec-IsSafe (Handler.save_settings s) = update-IsSafe _ _ refl (Edits.put_settings-Keeps s)
exec-IsSafe (Handler.save_node_info ni) = save_node_info-IsSafe ni
exec-IsSafe (Handler.delete_node_info id) = delete_node_info-IsSafe id
exec-IsSafe (Handler.save_metrics m now) =
    update-IsSafe _ _ refl (Edits.put_metrics-Keeps (record m { last_checked = now }))
exec-IsSafe (Handler.save_node_position id x y) = save_read-IsSafe _
exec-IsSafe (Handler.save_inbound_profile p now) =
    update-IsSafe _ _ refl
      (Edits.put_profile-Keeps (record p { created_at = stamp now p.created_at }))
exec-IsSafe (Handler.delete_inbound_profile id) = update-IsSafe _ _ tt (Edits.drop_profile-Keeps id)
exec-IsSafe (Handler.save_route_rule r fresh now) =
    update-IsSafe _ _ refl (
      Edits.put_rule-Keeps
        (record r { id = named fresh r.id; created_at = stamp now r.created_at }))
exec-IsSafe (Handler.delete_route_rule id) = update-IsSafe _ _ tt (Pairs.drop_rule-Keeps id)
exec-IsSafe (Handler.save_link l fresh) =
    update-IsSafe _ _ refl (Pairs.put_link-Keeps (record l { id = named fresh l.id }))
exec-IsSafe (Handler.delete_link id) = update-IsSafe _ _ tt (Pairs.drop_link-Keeps id)
exec-IsSafe (Handler.set_utility_state node u) = save_named-IsSafe _ _ _
