-- ===== src/Store/Hosts/Laws.antt =====
-- What a host is to the handlers: written, found again, deleted with all that hangs on it.
use angry_box.Prelude.{
  ◌≡◌, refl, sym, ap, ◌∙◌, String, Bool, true, List, [], ◌∷◌, none, arith, ◌=s◌, if◌then◌else◌,
  Bool-cases, Option-cases, inl, inr, has_key, first, keep, find_by, remove_by, find_by-remove_by,
}
use angry_box.Model.Base.{Host}
use angry_box.Model.Levels.{mentions}
use angry_box.Store.{
  StoreFile, ok, err, holds, Disk, bump, found, host_not_found, node_info_not_found,
  metrics_not_found, StoreError, Result, read_failed, query,
}
use angry_box.Store.Laws.{IsTable, query-update, update-ok, answer-holds, ok-injective, query-holds}
use angry_box.Store.Hosts.{
  host_id, info_id, metrics_id, put_host, save_host, get_host, drop_host, delete_host,
}
use angry_box.Store.Chains.{get_chains_for_node, list_chains, chains_with}
use angry_box.Store.Nodes.{get_node_info, get_metrics}

hosts-IsTable : IsTable host_id (λ sf. sf.hosts) put_host
hosts-IsTable = record {
  empty = refl;
  bumped = λ sf. refl;
  written = λ h sf sf' e. ap (λ s. s.hosts) (sym (ok-injective e));
}

-- After `SaveHost` succeeded `GetHost` finds the saved host under its identifier, and under every
-- other identifier what it found before, also where there was no file yet.
pub get_host-save_host :
    (h : Host) (k : String) (d d' : Disk)
    → save_host h d ≡ (ok tt, d')
    → get_host k d' ≡ (if h.id =s k then ok h else get_host k d)
unfolding save_host get_host
get_host-save_host h k d d' e =
    query-update host_id (λ sf. sf.hosts) put_host hosts-IsTable host_not_found h k d d' e

-- The edit of `DeleteHost` where it does not refuse.
pub drop_host-ok :
    (id : String) (sf sf' : StoreFile)
    → drop_host id sf ≡ ok sf'
    → (first (mentions id) sf.chains ≡ none)
      × (has_key host_id id sf.hosts ≡ true)
      × (sf' ≡ record sf {
        hosts = remove_by host_id id sf.hosts;
        node_infos = remove_by info_id id sf.node_infos;
        metrics = remove_by metrics_id id sf.metrics;
      })
drop_host-ok id sf sf' e = elim (Option-cases (first (mentions id) sf.chains)) [
  | inl free ↦ elim (Bool-cases (has_key host_id id sf.hosts)) [
    | inl there ↦ (free, there, sym (ok-injective (rw there at (rw free at e))))
    | inr gone ↦ absurd (ground arith)
  ]
  | inr (c, held) ↦ absurd (ground arith)
]

keep-none : {A : Type 0} (test : A → Bool) (xs : List A) → first test xs ≡ none → keep test xs ≡ []
keep-none test [] h = refl
keep-none test (x ∷ xs) h = ground (arith, keep-none test xs)

-- A lookup in a table from which one key was removed.
module _ {A : Type 0} (key : A → String) (table : StoreFile → List A) (no_file : Result A)
    (missing : StoreError) where
  abbrev look : String → Disk → Result A
  look k = query no_file (λ sf. found missing (find_by key k (table sf)))

  look-removed :
      (id k : String) (d d' : Disk) (sf sf' : StoreFile)
      → d.content ≡ holds sf
      → d'.content ≡ holds sf'
      → table sf' ≡ remove_by key id (table sf)
      → look k d' ≡ (if id =s k then err missing else look k d)
  unfolding query
  look-removed id k d d' sf sf' before after e =
      rw (before, after, e, find_by-remove_by key k id (table sf))
        (ground (arith, Bool-cases (id =s k)))

-- What the lookups under `k` find, and which chains hold `id`, after a `DeleteHost` of `id`.
pub record IsGone (id k : String) (d d' : Disk) : Type 0 where
  pub host : get_host k d' ≡ (if id =s k then err (host_not_found k) else get_host k d)
  pub info :
      get_node_info k d' ≡ (if id =s k then err (node_info_not_found k) else get_node_info k d)
  pub metrics : get_metrics k d' ≡ (if id =s k then err (metrics_not_found k) else get_metrics k d)
  pub chains : get_chains_for_node id d' ≡ ok []

-- After `DeleteHost` succeeded the host, its node record and its metrics are gone and no chain holds
-- it; the lookups under every other identifier answer as before.
pub delete_host-IsGone :
    (id k : String) (d d' : Disk) → delete_host id d ≡ (ok tt, d') → IsGone id k d d'
unfolding delete_host get_host get_chains_for_node list_chains get_node_info get_metrics
delete_host-IsGone id k d d' e =
    let (sf, sf', read, edited, wrote) = update-ok d (err (host_not_found id)) (drop_host id) e in
    let (free, there, same) = drop_host-ok id sf sf' edited in
    let before = answer-holds (host_not_found id) d.content sf read in
    let after = ap (λ x. x.content) wrote.0 ∙ ap (λ s. holds (bump s)) same in
    record {
      host =
          look-removed host_id (λ s. s.hosts) (err (host_not_found k)) (host_not_found k) id k d d'
            sf _ before after refl;
      info =
          look-removed info_id (λ s. s.node_infos) (err read_failed) (node_info_not_found k) id k d
            d' sf _ before after refl;
      metrics =
          look-removed metrics_id (λ s. s.metrics) (err read_failed) (metrics_not_found k) id k d d'
            sf _ before after refl;
      chains =
          ap (chains_with id) (query-holds _ _ d' after)
          ∙ ap ok (keep-none (mentions id) sf.chains free);
    }
