-- ===== src/Store/Machine/Effects.antt =====
-- What each handler that succeeds does to the table of hosts: two write it, the others leave it alone.
use angry_box.Prelude.{
  ◌≡◌, refl, sym, ap, ◌∙◌, String, ◌||◌, Bool, true, false, List, [], Option, none, some,
  Bool-cases, inl, inr, upsert, remove_by, has_key, if◌then◌else◌,
}
use angry_box.Model.Base.{Host}
use angry_box.Model.Panel.{NodeInfo}
use angry_box.Model.Chain.{Chain, ChainNode}
use angry_box.Store.{
  StoreFile, StoreError, Result, ok, err, Content, absent, unreadable, holds, Disk, M, answer,
  update, utility_unnamed,
}
use angry_box.Store.Laws.{update-ok, ok-injective, write_store-ok}
use angry_box.Store.Hosts.{host_id, info_id, metrics_id, save_host, drop_host, delete_host}
use angry_box.Store.Hosts.Laws.{drop_host-ok}
use angry_box.Store.Chains.{save_chain, delete_chain}
use angry_box.Store.Users.{refuse_clash, save_user, delete_user}
use angry_box.Store.Settings.{save_settings}
use angry_box.Store.Nodes.{
  save_node_info, delete_found, without_node, delete_node_info, save_metrics, save_node_position,
}
use angry_box.Store.Profiles.{refuse_used, save_inbound_profile, delete_inbound_profile}
use angry_box.Store.Routes.{save_route_rule, delete_route_rule, save_link, delete_link}
use angry_box.Store.Utilities.{set_utility_state}
use angry_box.Store.Machine.{Handler, exec}
use angry_box.Store.Machine.Safety.{IsStart}

abbrev pub hosts_of : Content → List Host
hosts_of absent = []
hosts_of unreadable = []
hosts_of (holds sf) = sf.hosts

-- What a call that succeeds makes of the hosts.
abbrev pub effect : Handler → List Host → List Host
effect (Handler.save_host h) hosts = upsert host_id h hosts
effect (Handler.delete_host id) hosts = remove_by host_id id hosts
effect (Handler.save_chain c) hosts = hosts
effect (Handler.delete_chain name) hosts = hosts
effect (Handler.save_user u now) hosts = hosts
effect (Handler.delete_user id) hosts = hosts
effect (Handler.save_settings s) hosts = hosts
effect (Handler.save_node_info ni) hosts = hosts
effect (Handler.delete_node_info id) hosts = hosts
effect (Handler.save_metrics m now) hosts = hosts
effect (Handler.save_node_position id x y) hosts = hosts
effect (Handler.save_inbound_profile p now) hosts = hosts
effect (Handler.delete_inbound_profile id) hosts = hosts
effect (Handler.save_route_rule r fresh now) hosts = hosts
effect (Handler.delete_route_rule id) hosts = hosts
effect (Handler.save_link l fresh) hosts = hosts
effect (Handler.delete_link id) hosts = hosts
effect (Handler.set_utility_state node u) hosts = hosts

abbrev pub HasEffect : (List Host → List Host) → M (Unit {0}) → Type 0
HasEffect g m = (d d' : Disk) → m d ≡ (ok tt, d') → hosts_of d'.content ≡ g (hosts_of d.content)

-- The hosts after an edit that does not refuse.
abbrev Gives : List Host → Result StoreFile → Type 0
Gives hosts r = (sf : StoreFile) → r ≡ ok sf → sf.hosts ≡ hosts

Gives-ok : (t : StoreFile) → Gives t.hosts (ok t)
Gives-ok t sf e = ap (λ s. s.hosts) (sym (ok-injective e))

Gives-err : (hosts : List Host) (x : StoreError) → Gives hosts (err x)
Gives-err hosts x sf e = absurd (cc)

Gives-if :
    (hosts : List Host) (b : Bool) (r s : Result StoreFile)
    → Gives hosts r
    → Gives hosts s
    → Gives hosts (if b then r else s)
Gives-if hosts true r s p q = p
Gives-if hosts false r s p q = q

Gives-clash :
    (hosts : List Host) (o : Option String) (r : Result StoreFile)
    → Gives hosts r
    → Gives hosts (refuse_clash o r)
Gives-clash hosts none r p = p
Gives-clash hosts (some n) r p = Gives-err hosts _

Gives-used :
    (hosts : List Host) (id : String) (o : Option (Chain × ChainNode)) (r : Result StoreFile)
    → Gives hosts r
    → Gives hosts (refuse_used id o r)
Gives-used hosts id none r p = p
Gives-used hosts id (some (c, n)) r p = Gives-err hosts _

answer-hosts :
    (missing : Result StoreFile) (c : Content) (sf : StoreFile)
    → IsStart missing
    → answer missing c ≡ ok sf
    → sf.hosts ≡ hosts_of c
answer-hosts (ok t) absent sf s h = ap (λ x. x.hosts) (sym (ok-injective h) ∙ s)
answer-hosts (err e) absent sf s h = absurd (cc)
answer-hosts missing unreadable sf s h = absurd (cc)
answer-hosts missing (holds t) sf s h = ap (λ x. x.hosts) (sym (ok-injective h))

update-HasEffect :
    (g : List Host → List Host) (missing : Result StoreFile) (f : StoreFile → Result StoreFile)
    → IsStart missing
    → ((sf : StoreFile) → Gives (g sf.hosts) (f sf))
    → HasEffect g (update missing f)
update-HasEffect g missing f s p d d' h =
    let (sf, sf', read, edited, wrote) = update-ok d missing f h in
    ap (λ x. hosts_of x.content) wrote.0
    ∙ p sf sf' edited
    ∙ ap g (answer-hosts missing d.content sf s read)

abbrev same : List Host → List Host
same hosts = hosts

save_node_info-HasEffect : (ni : NodeInfo) → HasEffect same (save_node_info ni)
unfolding save_node_info
save_node_info-HasEffect ni = update-HasEffect same _ _ refl (λ sf. Gives-ok _)

drop_host-Gives :
    (id : String) (sf : StoreFile) → Gives (remove_by host_id id sf.hosts) (drop_host id sf)
drop_host-Gives id sf sf' e =
    let (free, there, done) = drop_host-ok id sf sf' e in ap (λ s. s.hosts) done

delete_found-HasEffect :
    (id : String) (c : Content) (d d' : Disk)
    → d.content ≡ c
    → delete_found id c d ≡ (ok tt, d')
    → hosts_of d'.content ≡ hosts_of d.content
delete_found-HasEffect id absent d d' e h = sym (ap (λ p. hosts_of p.1.content) h)
delete_found-HasEffect id unreadable d d' e h = sym (ap (λ p. hosts_of p.1.content) h)
delete_found-HasEffect id (holds sf) d d' e h =
    elim (Bool-cases (has_key info_id id sf.node_infos || has_key metrics_id id sf.metrics)) [
      | inl there ↦
          let w = write_store-ok d (without_node id sf) (rw there at h) in
          ap (λ x. hosts_of x.content) w.0 ∙ ap hosts_of (sym e)
      | inr none' ↦ sym (ap (λ p. hosts_of p.1.content) (rw none' at h))
    ]

delete_node_info-HasEffect : (id : String) → HasEffect same (delete_node_info id)
unfolding delete_node_info
delete_node_info-HasEffect id d d' h = delete_found-HasEffect id d.content d d' refl h

save_named-HasEffect :
    (b : Bool) (ni : NodeInfo) (d d' : Disk)
    → (if b then (err utility_unnamed, d) else save_node_info ni d) ≡ (ok tt, d')
    → hosts_of d'.content ≡ hosts_of d.content
save_named-HasEffect true ni d d' h = absurd (cc)
save_named-HasEffect false ni d d' h = save_node_info-HasEffect ni d d' h

-- A call that succeeds changes the hosts as `effect` says.
pub exec-HasEffect : (h : Handler) → HasEffect (effect h) (exec h)
unfolding exec save_host delete_host save_chain delete_chain save_user delete_user save_settings
    save_metrics save_node_position save_inbound_profile delete_inbound_profile save_route_rule
    delete_route_rule save_link delete_link set_utility_state
exec-HasEffect (Handler.save_host h) =
    update-HasEffect (upsert host_id h) _ _ refl (λ sf. Gives-ok _)
exec-HasEffect (Handler.delete_host id) =
    update-HasEffect (remove_by host_id id) _ _ tt (drop_host-Gives id)
exec-HasEffect (Handler.save_chain c) = update-HasEffect same _ _ refl (λ sf. Gives-ok _)
exec-HasEffect (Handler.delete_chain name) =
    update-HasEffect same _ _ tt (λ sf. Gives-if _ _ _ _ (Gives-ok _) (Gives-err _ _))
exec-HasEffect (Handler.save_user u now) =
    update-HasEffect same _ _ refl
      (λ sf. Gives-if _ _ _ _ (Gives-clash _ _ _ (Gives-ok _)) (Gives-ok _))
exec-HasEffect (Handler.delete_user id) =
    update-HasEffect same _ _ tt (λ sf. Gives-if _ _ _ _ (Gives-ok _) (Gives-err _ _))
exec-HasEffect (Handler.save_settings s) = update-HasEffect same _ _ refl (λ sf. Gives-ok _)
exec-HasEffect (Handler.save_node_info ni) = save_node_info-HasEffect ni
exec-HasEffect (Handler.delete_node_info id) = delete_node_info-HasEffect id
exec-HasEffect (Handler.save_metrics m now) = update-HasEffect same _ _ refl (λ sf. Gives-ok _)
exec-HasEffect (Handler.save_node_position id x y) = λ d d' h. save_node_info-HasEffect _ d d' h
exec-HasEffect (Handler.save_inbound_profile p now) =
    update-HasEffect same _ _ refl (λ sf. Gives-ok _)
exec-HasEffect (Handler.delete_inbound_profile id) =
    update-HasEffect same _ _ tt
      (λ sf. Gives-if _ _ _ _ (Gives-used _ _ _ _ (Gives-ok _)) (Gives-err _ _))
exec-HasEffect (Handler.save_route_rule r fresh now) =
    update-HasEffect same _ _ refl (λ sf. Gives-ok _)
exec-HasEffect (Handler.delete_route_rule id) =
    update-HasEffect same _ _ tt (λ sf. Gives-if _ _ _ _ (Gives-ok _) (Gives-err _ _))
exec-HasEffect (Handler.save_link l fresh) =
    update-HasEffect same _ _ refl (λ sf. Gives-if _ _ _ _ (Gives-err _ _) (Gives-ok _))
exec-HasEffect (Handler.delete_link id) =
    update-HasEffect same _ _ tt (λ sf. Gives-if _ _ _ _ (Gives-ok _) (Gives-err _ _))
exec-HasEffect (Handler.set_utility_state node u) = λ d d' h. save_named-HasEffect _ _ d d' h
