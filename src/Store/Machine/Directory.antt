-- ===== src/Store/Machine/Directory.antt =====
-- The abstract view of the hosts: a function from identifiers to hosts. What `GetHost` finds after any
-- sequence of calls is what the accepted calls, read as writes to that function, leave there.
use angry_box.Prelude.{
  fun_ext, ◌≡◌, refl, sym, ap, ◌∙◌, String, Bool, true, false, List, [], ◌∷◌, Option, none, some,
  find_by, find_by-upsert, find_by-remove_by, ◌=s◌, if◌then◌else◌,
}
use angry_box.Model.Base.{Host}
use angry_box.Store.{
  Result, ok, err, Content, absent, unreadable, holds, Disk, found, host_not_found, ask, query,
}
use angry_box.Store.Hosts.{host_id, get_host}
use angry_box.Store.Machine.{Handler, exec, run}
use angry_box.Store.Machine.Revision.{exec-atomic}
use angry_box.Store.Machine.Effects.{hosts_of, effect, exec-HasEffect}

abbrev pub Directory : Type 0
Directory = String → Option Host

abbrev pub ok_of : Result Host → Option Host
ok_of (ok h) = some h
ok_of (err e) = none

-- The hosts of a disk as the handlers see them.
abbrev pub directory : Disk → Directory
directory d id = ok_of (get_host id d)

-- What a call does to the abstract hosts, if it is accepted.
abbrev pub apply : Handler → Bool → Directory → Directory
apply h false dir = dir
apply (Handler.save_host a) true dir = λ id. if a.id =s id then some a else dir id
apply (Handler.delete_host k) true dir = λ id. if k =s id then none else dir id
apply (Handler.save_chain c) true dir = dir
apply (Handler.delete_chain name) true dir = dir
apply (Handler.save_user u now) true dir = dir
apply (Handler.delete_user id) true dir = dir
apply (Handler.save_settings s) true dir = dir
apply (Handler.save_node_info ni) true dir = dir
apply (Handler.delete_node_info id) true dir = dir
apply (Handler.save_metrics m now) true dir = dir
apply (Handler.save_node_position id x y) true dir = dir
apply (Handler.save_inbound_profile p now) true dir = dir
apply (Handler.delete_inbound_profile id) true dir = dir
apply (Handler.save_route_rule r fresh now) true dir = dir
apply (Handler.delete_route_rule id) true dir = dir
apply (Handler.save_link l fresh) true dir = dir
apply (Handler.delete_link id) true dir = dir
apply (Handler.set_utility_state node u) true dir = dir

abbrev pub is_accepted : Result (Unit {0}) → Bool
is_accepted (ok tt) = true
is_accepted (err e) = false

-- Which of the calls were accepted.
unfoldable pub answers : List Handler → Disk → List Bool
answers [] d = []
answers (h ∷ hs) d = is_accepted (exec h d).0 ∷ answers hs (exec h d).1

-- The calls, each with whether it was accepted, as writes to the abstract hosts.
abbrev pub replay : List Handler → List Bool → Directory → Directory
replay [] bs dir = dir
replay (h ∷ hs) [] dir = dir
replay (h ∷ hs) (b ∷ bs) dir = replay hs bs (apply h b dir)

directory-hosts_of :
    (d : Disk) (id : String) → directory d id ≡ find_by host_id id (hosts_of d.content)
unfolding get_host query
directory-hosts_of d id = go d.content
  where
    ok_found : (o : Option Host) → ok_of (found (host_not_found id) o) ≡ o
    ok_found none = refl
    ok_found (some h) = refl

    go :
        (c : Content)
        → ok_of (
            ask
              (err (host_not_found id))
              (λ sf. found (host_not_found id) (find_by host_id id sf.hosts))
              c)
          ≡ find_by host_id id (hosts_of c)
    go absent = refl
    go unreadable = refl
    go (holds sf) = ok_found (find_by host_id id sf.hosts)

apply-effect :
    (h : Handler) (hosts : List Host) (id : String)
    → find_by host_id id (effect h hosts) ≡ apply h true (λ k. find_by host_id k hosts) id
apply-effect (Handler.save_host a) hosts id = find_by-upsert host_id id a hosts
apply-effect (Handler.delete_host k) hosts id = find_by-remove_by host_id id k hosts
apply-effect (Handler.save_chain c) hosts id = refl
apply-effect (Handler.delete_chain name) hosts id = refl
apply-effect (Handler.save_user u now) hosts id = refl
apply-effect (Handler.delete_user k) hosts id = refl
apply-effect (Handler.save_settings s) hosts id = refl
apply-effect (Handler.save_node_info ni) hosts id = refl
apply-effect (Handler.delete_node_info k) hosts id = refl
apply-effect (Handler.save_metrics m now) hosts id = refl
apply-effect (Handler.save_node_position k x y) hosts id = refl
apply-effect (Handler.save_inbound_profile p now) hosts id = refl
apply-effect (Handler.delete_inbound_profile k) hosts id = refl
apply-effect (Handler.save_route_rule r fresh now) hosts id = refl
apply-effect (Handler.delete_route_rule k) hosts id = refl
apply-effect (Handler.save_link l fresh) hosts id = refl
apply-effect (Handler.delete_link k) hosts id = refl
apply-effect (Handler.set_utility_state node u) hosts id = refl

-- One call.
pub exec-apply :
    (h : Handler) (d : Disk)
    → directory (exec h d).1 ≡ apply h (is_accepted (exec h d).0) (directory d)
exec-apply h d = go (exec h d).0 refl
  where
    go :
        (r : Result (Unit {0}))
        → (exec h d).0 ≡ r
        → directory (exec h d).1 ≡ apply h (is_accepted (exec h d).0) (directory d)
    go (ok tt) q = fun_ext (λ id.
        directory-hosts_of (exec h d).1 id
        ∙ ap (find_by host_id id) (exec-HasEffect h d (exec h d).1 (λ i. (q i, (exec h d).1)))
        ∙ apply-effect h (hosts_of d.content) id
        ∙ ap (λ (dir : Directory). apply h true dir id) (sym (fun_ext (directory-hosts_of d)))
        ∙ ap (λ r. apply h (is_accepted r) (directory d) id) (sym q))
    go (err e) q =
        ap directory (exec-atomic h d (exec h d).1 e (λ i. (q i, (exec h d).1)))
        ∙ ap (λ r. apply h (is_accepted r) (directory d)) (sym q)

-- After any sequence of calls of the writing handlers, accepted or not, `GetHost` finds the hosts that the
-- accepted calls leave in a function from identifiers to hosts, in which `SaveHost` sets one value,
-- `DeleteHost` clears one, and no other call changes any.
pub run-replay :
    (hs : List Handler) (d : Disk) → directory (run hs d) ≡ replay hs (answers hs d) (directory d)
unfolding run answers
run-replay [] d = refl
run-replay (h ∷ hs) d =
    run-replay hs (exec h d).1 ∙ ap (replay hs (answers hs (exec h d).1)) (exec-apply h d)
