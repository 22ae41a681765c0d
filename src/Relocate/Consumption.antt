-- ===== src/Relocate/Consumption.antt =====
-- What `ConsumeSpare` leaves of a spare.
use angry_box.Prelude.{
  ◌≡◌, refl, sym, ap, ◌∙◌, inl, inr, String, Bool, true, false, ◌||◌, none, some, arith, first,
  has_key, remove_by, Bool-cases, Option-cases, List, any, has_key-remove_by, =s_refl, ◌∷◌, [],
}
use angry_box.Model.Panel.{NodeInfo}
use angry_box.Model.Levels.{mentions}
use angry_box.Store.{
  StoreFile, Content, absent, unreadable, holds, Result, ok, err, Disk, update, write_store, bump,
}
use angry_box.Store.Laws.{write_store-ok, ok-injective}
use angry_box.Store.Hosts.{host_id, info_id, metrics_id, delete_host}
use angry_box.Store.Nodes.{without_node, delete_found, delete_node_info, hosted}
use angry_box.Relocate.{unless_missing, then_delete_host, consume_spare, pick_spare}
use angry_box.Relocate.Spares.{is_eligible, pick_spare-first}

-- Nothing of the node is left: no host, node record or metrics, and no chain that holds it.
abbrev pub IsClean : String → Content → Type 0
IsClean id absent = Unit
IsClean id unreadable = ⊥
IsClean id (holds sf) =
    (has_key host_id id sf.hosts ≡ false)
    × (has_key info_id id sf.node_infos ≡ false)
    × (has_key metrics_id id sf.metrics ≡ false)
    × (first (mentions id) sf.chains ≡ none)

-- Its node record and its metrics are gone.
abbrev IsLeft : String → Content → Type 0
IsLeft id absent = Unit
IsLeft id unreadable = ⊥
IsLeft id (holds sf) =
    (has_key info_id id sf.node_infos ≡ false) × (has_key metrics_id id sf.metrics ≡ false)

delete_found-IsLeft :
    (id : String) (d d' : Disk) (c : Content)
    → d.content ≡ c
    → delete_found id c d ≡ (ok tt, d')
    → IsLeft id d'.content
delete_found-IsLeft id d d' absent e h = rw (sym (ap (λ p. p.1) h), e) tt
delete_found-IsLeft id d d' unreadable e h = absurd (ground arith)
delete_found-IsLeft id d d' (holds sf) e h =
    elim (Bool-cases (has_key info_id id sf.node_infos || has_key metrics_id id sf.metrics)) [
      | inl there ↦
          let wrote = write_store-ok d (without_node id sf) (rw there at h) in
          rw wrote.0 (
            ground (arith, has_key-remove_by info_id id id sf.node_infos, =s_refl id),
            ground (arith, has_key-remove_by metrics_id id id sf.metrics, =s_refl id),
          )
      | inr gone ↦
          let h' : (ok tt, d) ≡ (ok tt, d') = rw gone at h in
          rw (sym (ap (λ p. p.1) h'), e) (ground arith, ground arith)
    ]

-- The file that `DeleteHost` writes.
abbrev without_host : String → StoreFile → StoreFile
without_host id sf = record sf {
  hosts = remove_by host_id id sf.hosts;
  node_infos = remove_by info_id id sf.node_infos;
  metrics = remove_by metrics_id id sf.metrics;
}

without_host-IsClean :
    (id : String) (d d' : Disk) (sf : StoreFile)
    → first (mentions id) sf.chains ≡ none
    → unless_missing (write_store (without_host id sf) d) ≡ (ok tt, d')
    → IsClean id d'.content
without_host-IsClean id d d' sf free h =
    elim (Bool-cases (d.writable (bump (without_host id sf)))) [
      | inl free_disk ↦
          let same : record d { content = holds (bump (without_host id sf)) } ≡ d' =
            ap (λ p. p.1) (rw free_disk at h) in
          rw (sym same) (
            ground (arith, has_key-remove_by host_id id id sf.hosts, =s_refl id),
            ground (arith, has_key-remove_by info_id id id sf.node_infos, =s_refl id),
            ground (arith, has_key-remove_by metrics_id id id sf.metrics, =s_refl id),
            free,
          )
      | inr shut ↦ absurd (ground (arith, shut, h))
    ]

delete_host-IsClean :
    (id : String) (d d' : Disk) (c : Content)
    → d.content ≡ c
    → IsLeft id c
    → unless_missing (delete_host id d) ≡ (ok tt, d')
    → IsClean id d'.content
unfolding delete_host update
delete_host-IsClean id d d' absent e l h =
    let same : record d { content = absent } ≡ d' = ap (λ p. p.1) (rw e at h) in rw (sym same) tt
delete_host-IsClean id d d' unreadable e l h = absurd l
delete_host-IsClean id d d' (holds sf) e (i, m) h =
    elim (Option-cases (first (mentions id) sf.chains)) [
      | inl free ↦ elim (Bool-cases (has_key host_id id sf.hosts)) [
        | inl there ↦
            without_host-IsClean id (record d { content = holds sf }) d' sf free
              (rw (e, free, there) at h)
        | inr gone ↦
            let same : record d { content = holds sf } ≡ d' =
              ap (λ p. p.1) (rw (e, free, gone) at h) in
            rw (sym same) (gone, i, m, free)
      ]
      | inr (c, held) ↦ absurd (let h' = rw (e, held) at h in ground (arith, h'))
    ]

IsClean-consumed :
    (id : String) (d : Disk) (c : Content)
    → d.content ≡ c
    → IsClean id c
    → consume_spare id d ≡ (ok tt, d)
unfolding consume_spare delete_node_info delete_host update
IsClean-consumed id d absent e q = ground (arith, e)
IsClean-consumed id d unreadable e q = absurd q
IsClean-consumed id d (holds sf) e (h, i, m, f) = ground (arith, e, h, i, m, f)

module _ (id : String) (d : Disk) where
  consume_spare-IsClean : (d' : Disk) → consume_spare id d ≡ (ok tt, d') → IsClean id d'.content
  unfolding consume_spare delete_node_info
  consume_spare-IsClean d' h = go (delete_found id d.content d) refl h
    where
      go :
          (p : Result (Unit {0}) × Disk)
          → delete_found id d.content d ≡ p
          → then_delete_host id p ≡ (ok tt, d')
          → IsClean id d'.content
      go (ok tt, d1) e k =
          delete_host-IsClean id d1 d' d1.content refl
            (delete_found-IsLeft id d d1 d.content refl e) k
      go (err x, d1) e k = absurd (cc)

  -- After `ConsumeSpare` succeeded nothing of the spare is left and no chain holds it, and a second
  -- call succeeds as well and changes nothing.
  pub consume_spare-twice :
      (d' : Disk)
      → consume_spare id d ≡ (ok tt, d')
      → IsClean id d'.content × (consume_spare id d' ≡ (ok tt, d'))
  consume_spare-twice d' h =
      let clean = consume_spare-IsClean d' h in
      (clean, IsClean-consumed id d' d'.content refl clean)

first-some :
    {A : Type 0} (test : A → Bool) (xs : List A) (a : A) → first test xs ≡ some a → test a ≡ true
first-some test [] a h = absurd (cc)
first-some test (x ∷ xs) a h = elim (Bool-cases (test x)) [
  | inl this ↦ let e : x ≡ a = ground (arith, this, h) in rw (sym e) this
  | inr later ↦ first-some test xs a (rw later at h)
]

any-first :
    {A : Type 0} (test : A → Bool) (xs : List A) → any test xs ≡ false → first test xs ≡ none
any-first test [] h = refl
any-first test (x ∷ xs) h = ground (arith, any-first test xs)

delete_free :
    (id : String) (d : Disk) (sf : StoreFile)
    → d.content ≡ holds sf
    → ((f : StoreFile) → d.writable f ≡ true)
    → first (mentions id) sf.chains ≡ none
    → (unless_missing (delete_host id d)).0 ≡ ok tt
unfolding delete_host update
delete_free id d sf e w f = ground (arith, e, w (bump (without_host id sf)), f)

consume_free :
    (id : String) (d : Disk) (sf : StoreFile)
    → d.content ≡ holds sf
    → ((f : StoreFile) → d.writable f ≡ true)
    → first (mentions id) sf.chains ≡ none
    → (consume_spare id d).0 ≡ ok tt
unfolding consume_spare delete_node_info
consume_free id d sf e w f =
    elim (Bool-cases (has_key info_id id sf.node_infos || has_key metrics_id id sf.metrics)) [
      | inl there ↦
          rw (e, there, w)
            (delete_free id (record d { content = holds (bump (without_node id sf)) })
              (bump (without_node id sf)) refl w f)
      | inr gone ↦ rw (e, gone) (delete_free id (record d { content = holds sf }) sf refl w f)
    ]

-- A spare that `PickSpare` has just chosen can be consumed: on a disk that can be written
-- `ConsumeSpare` of it succeeds.
pick_spare-consumed :
    (exclude : String) (d : Disk) (sf : StoreFile) (s : NodeInfo)
    → d.content ≡ holds sf
    → ((f : StoreFile) → d.writable f ≡ true)
    → pick_spare exclude d ≡ ok (some s)
    → (consume_spare s.host.id d).0 ≡ ok tt
pick_spare-consumed exclude d sf s e w h =
    let chosen = ok-injective (sym (pick_spare-first exclude d sf e) ∙ h) in
    let eligible = first-some (is_eligible exclude sf) (hosted sf) s chosen in
    let unused : any (mentions s.host.id) sf.chains ≡ false = ground (arith, eligible) in
    consume_free s.host.id d sf e w (any-first (mentions s.host.id) sf.chains unused)
