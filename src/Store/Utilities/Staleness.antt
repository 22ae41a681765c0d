-- ===== src/Store/Utilities/Staleness.antt =====
-- When a pushed artifact counts as stale: internal/chain/store_utilities.go with the store's revision.
use angry_box.Store.Machine.Safety.{answer-revision}
use angry_box.Store.Machine.Revision.{run-revision_le, run-unchanged}
use angry_box.Store.Machine.{Handler, run}
use angry_box.Prelude.{
  ◌≡◌, sym, ap, ◌∙◌, String, ◌=s◌, =s_refl, if◌then◌else◌, Bool-cases, inl, inr, some, arith,
  find_by, find_by-upsert, suc, ◌+◌, ◌↔◌, ltb, ltb→le, ◌≢◌, List, true, refl, false,
}
use angry_box.Model.Base.{UtilityState}
use angry_box.Model.Panel.{NodeInfo}
use angry_box.Store.{ok, Disk, holds, bump, found, new_store_file, get_revision}
use angry_box.Store.Laws.{query-holds, ok-injective, update-ok}
use angry_box.Store.Hosts.{info_id}
use angry_box.Store.Nodes.{
  get_node_info, save_node_info, put_node_info, info_or_empty, with_info_id,
}
use angry_box.Store.Utilities.{
  utility_name, get_utility_state, set_utility_state, utility_in, with_utility, utility_is_stale,
  stale_at,
}

-- A node record that was saved is what the next lookup of its identifier finds.
get_node_info-save_node_info :
    (ni : NodeInfo) (d d' : Disk)
    → save_node_info ni d ≡ (ok tt, d')
    → get_node_info ni.host.id d' ≡ ok ni
unfolding save_node_info get_node_info
get_node_info-save_node_info ni d d' e =
    let (sf, sf', read, edited, wrote) = update-ok d (ok new_store_file) (put_node_info ni) e in
    let after =
      ap (λ x. x.content) wrote.0 ∙ ap (λ s. holds (bump s)) (sym (ok-injective edited)) in
    query-holds _ _ d' after
    ∙ ap (found _) (
        find_by-upsert info_id ni.host.id ni sf.node_infos
        ∙ ap (λ b. if b then some ni else find_by info_id ni.host.id sf.node_infos)
            (=s_refl ni.host.id))

-- After `SetUtilityState` succeeded `GetUtilityState` answers, under the name of the utility, the state
-- that was set.
pub get_utility_state-set_utility_state :
    (node : String) (u : UtilityState) (d d' : Disk)
    → set_utility_state node u d ≡ (ok tt, d')
    → get_utility_state node u.name d' ≡ some u
unfolding set_utility_state get_utility_state
get_utility_state-set_utility_state node u d d' e = elim (Bool-cases (u.name =s "")) [
  | inl bare ↦ absurd (ground arith)
  | inr name ↦
      let info = with_utility u (with_info_id node (info_or_empty (get_node_info node d))) in
      ap (utility_in u.name) (get_node_info-save_node_info info d d' (rw name at e))
      ∙ find_by-upsert utility_name u.name u (info_or_empty (get_node_info node d)).utilities
      ∙ ap
          (λ b.
            if b
            then some u
            else find_by utility_name u.name (info_or_empty (get_node_info node d)).utilities)
          (=s_refl u.name)
]

save_node_info-revision :
    (ni : NodeInfo) (d d' : Disk)
    → save_node_info ni d ≡ (ok tt, d')
    → get_revision d' ≡ suc (get_revision d)
unfolding save_node_info
save_node_info-revision ni d d' e =
    let (sf, sf', read, edited, wrote) = update-ok d (ok new_store_file) (put_node_info ni) e in
    let a = ap (λ s. s.revision) (ok-injective edited) in
    let b = answer-revision (ok new_store_file) d.content sf refl read in
    rw wrote.0 (omega (arith, a, b))

set_utility_state-revision :
    (node : String) (u : UtilityState) (d d' : Disk)
    → set_utility_state node u d ≡ (ok tt, d')
    → get_revision d' ≡ suc (get_revision d)
unfolding set_utility_state
set_utility_state-revision node u d d' e = elim (Bool-cases (u.name =s "")) [
  | inl bare ↦ absurd (ground arith)
  | inr name ↦
      save_node_info-revision
        (with_utility u (with_info_id node (info_or_empty (get_node_info node d)))) d d'
        (rw name at e)
]

-- If the state of an installed utility is stamped with the revision before it is saved, which is not
-- zero, and the save succeeds, then as long as that state is the one on record the utility is
-- reported fresh exactly if no handler has changed the store since the save: the one step that the
-- save itself takes is allowed for.
pub fresh_iff-unchanged :
    (node : String) (u : UtilityState) (d d' : Disk) (hs : List Handler)
    → set_utility_state node u d ≡ (ok tt, d')
    → u.installed ≡ true
    → u.revision ≡ get_revision d
    → u.revision ≢ 0
    → get_utility_state node u.name (run hs d') ≡ some u
    → (utility_is_stale node u.name (run hs d') ≡ false) ↔ (run hs d' ≡ d')
unfolding utility_is_stale
fresh_iff-unchanged node u d d' hs e installed stamped ne here =
    let now = get_revision (run hs d') in
    let one = set_utility_state-revision node u d d' e in
    let grown = run-revision_le hs d' in
    let test : stale_at now (get_utility_state node u.name (run hs d')) ≡ ltb (u.revision + 1) now =
      ap (stale_at now) here ∙ ground arith in
    (
      λ fresh. run-unchanged hs d' (omega (arith, ltb→le (u.revision + 1) now (sym test ∙ fresh))),
      λ same. test ∙ (let eq = ap get_revision same in ground (arith, eq)),
    )
