-- ===== src/Store/Migrations.antt =====
-- `migrateOrphanNodeInfos` of internal/chain/store.go, the step from schema 2 to 3: the records of
-- nodes whose host was deleted are dropped. Its backup of the file and its log are left out.
pub mod Profiles
pub mod Levels
pub mod Once
use angry_box.Prelude.{
  ◌≡◌, refl, ap, sym, ◌∙◌, ◌&&◌, Bool, not, List, [], ◌∷◌, ◌==◌, length, keep, has_key, arith,
  if◌then◌else◌, Bool-cases, inl, inr, keep-keep,
}
use angry_box.Model.Panel.{NodeInfo, NodeMetrics}
use angry_box.Store.{StoreFile}
use angry_box.Store.Hosts.{host_id}
use angry_box.Store.Nodes.{hosted}

-- The host of the node record, or of the metrics, is there.
abbrev pub is_hosted : StoreFile → NodeInfo → Bool
is_hosted sf ni = has_key host_id ni.host.id sf.hosts

abbrev pub is_measured : StoreFile → NodeMetrics → Bool
is_measured sf m = has_key host_id m.host_id sf.hosts

abbrev pub dropped : {A : Type 0} → (A → Bool) → List A → List A
dropped test xs = keep (λ x. not (test x)) xs

-- `migrateOrphanNodeInfos`
unfoldable pub purge_orphans : StoreFile → StoreFile
purge_orphans sf =
    if length (dropped (is_hosted sf) sf.node_infos) == 0
      && length (dropped (is_measured sf) sf.metrics) == 0
    then sf
    else record sf {
      node_infos = keep (is_hosted sf) sf.node_infos;
      metrics = keep (is_measured sf) sf.metrics;
    }

keep-dropped :
    {A : Type 0} (test : A → Bool) (xs : List A) → length (dropped test xs) ≡ 0 → keep test xs ≡ xs
keep-dropped test [] h = refl
keep-dropped test (x ∷ xs) h = elim (Bool-cases (test x)) [
  | inl e ↦ rw e (ap (λ ys. x ∷ ys) (keep-dropped test xs (rw e at h)))
  | inr e ↦ absurd (ground (arith, e, h))
]

-- The file with the orphans dropped, whether there are any or not.
abbrev without_orphans : StoreFile → StoreFile
without_orphans sf = record sf {
  node_infos = keep (is_hosted sf) sf.node_infos;
  metrics = keep (is_measured sf) sf.metrics;
}

purge_orphans-without : (sf : StoreFile) → purge_orphans sf ≡ without_orphans sf
unfolding purge_orphans
purge_orphans-without sf =
    let infos = length (dropped (is_hosted sf) sf.node_infos) in
    let metrics = length (dropped (is_measured sf) sf.metrics) in
    elim (Bool-cases (infos == 0 && metrics == 0)) [
      | inl clean ↦
          let one : infos ≡ 0 = ground (arith, clean) in
          let two : metrics ≡ 0 = ground (arith, clean) in
          rw clean (
            sym (
              ap (λ xs. record sf { node_infos = xs; metrics = keep (is_measured sf) sf.metrics })
                (keep-dropped (is_hosted sf) sf.node_infos one)
              ∙ ap (λ ys. record sf { metrics = ys })
                  (keep-dropped (is_measured sf) sf.metrics two)))
      | inr dirty ↦ rw dirty refl
    ]

-- The purge of orphans drops exactly the node records without a host: `ListNodeInfos` answers the same
-- before and after it, and what it answers is then the whole table. A second purge changes nothing.
pub purge_orphans-hosted :
    (sf : StoreFile)
    → (hosted (purge_orphans sf) ≡ hosted sf)
      × ((purge_orphans sf).node_infos ≡ hosted sf)
      × (purge_orphans (purge_orphans sf) ≡ purge_orphans sf)
purge_orphans-hosted sf =
    let infos = keep-keep (is_hosted sf) sf.node_infos in
    let metrics = keep-keep (is_measured sf) sf.metrics in
    let once = purge_orphans-without sf in
    (
      ap hosted once ∙ infos,
      ap (λ s. s.node_infos) once,
      ap purge_orphans once
          ∙ purge_orphans-without (without_orphans sf)
          ∙ ap
              (λ xs. record sf {
                node_infos = xs;
                metrics = keep (is_measured sf) (keep (is_measured sf) sf.metrics);
              })
              infos
          ∙ ap (λ ys. record (without_orphans sf) { metrics = ys }) metrics
          ∙ sym once,
    )
