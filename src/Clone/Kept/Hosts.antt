-- ===== src/Clone/Kept/Hosts.antt =====
-- The hosts through the writes of `CloneNode`.
use angry_box.Prelude.{
  ◌≡◌, refl, ap, ◌∙◌, ◌⊎◌, inl, inr, ℕ, String, true, false, ◌||◌, List, none, some, ◌=s◌,
  if◌then◌else◌, Bool-cases,
}
use angry_box.Model.Base.{Host}
use angry_box.Model.Panel.{NodeInfo}
use angry_box.Store.{Result, ok, err, Disk}
use angry_box.Store.Hosts.{save_host, get_host}
use angry_box.Store.Nodes.{get_node_info, save_node_info}
use angry_box.Store.Nodes.Rows.{inbounds_at}
use angry_box.Store.Machine.Directory.{Directory, directory, ok_of, is_accepted}
use angry_box.Store.Machine.Writes.{
  directory-save_chain, directory-save_node_info, directory-save_host,
}
use angry_box.Clone.Identity.{InboundIdentity, NodeIdentity, collect_awg_server_subnets}
use angry_box.Clone.{
  CloneTarget, CloneOutcome, after_save, in_chains, clone_host, clone_info, completed, clone_from,
  clone_new, trimmed, clone_node,
}
use angry_box.Clone.Kept.{is_cloned, kept-after_host, inbounds_at-clone_node}

-- The hosts after the writes: as they were, where no clone was made; else with the clone, whose identifier
-- was free, and whose source has a record.
abbrev pub HasCloned : String → CloneTarget → Disk → CloneOutcome × Disk → Type 0
HasCloned id t d r =
    (is_cloned r.0 ≡ false) × (directory r.1 ≡ directory d)
    ⊎ (src : NodeInfo) × (get_node_info id d ≡ ok src)
      × (directory d t.new_id ≡ none)
      × (directory r.1
          ≡ (λ k. if t.new_id =s k then some (clone_host (completed src t)) else directory d k))

module _ (inbound_mint : ℕ → InboundIdentity) (node_mint : String → NodeIdentity) where
  cloned_host :
      (id : String) (t : CloneTarget) (src : NodeInfo) (d : Disk) (r : Result (Unit {0}) × Disk)
      (k : Disk → CloneOutcome × Disk)
      → get_node_info id d ≡ ok src
      → directory d t.new_id ≡ none
      → ((dir : Directory) (e : Disk) → directory e ≡ dir → directory (k e).1 ≡ dir)
      → (directory r.1 ≡ directory d) × (is_accepted r.0 ≡ false)
        ⊎ (directory r.1
            ≡ (λ i. if t.new_id =s i then some (clone_host (completed src t)) else directory d i))
          × (is_accepted r.0 ≡ true)
      → HasCloned id t d (after_save r k)
  cloned_host id t src d (ok u, e) k found free rest (inl (same, no_ok)) = absurd (cc)
  cloned_host id t src d (ok u, e) k found free rest (inr (new, yes_ok)) = inr (
    src,
    found,
    free,
    rest (λ i. if t.new_id =s i then some (clone_host (completed src t)) else directory d i) e new,
  )
  cloned_host id t src d (err x, e) k found free rest (inl (same, no_ok)) = inl (refl, same)
  cloned_host id t src d (err x, e) k found free rest (inr (new, yes_ok)) = absurd (cc)

  clone_from-HasCloned :
      (id : String) (t : CloneTarget) (taken : List String) (r : Result NodeInfo) (d : Disk)
      → get_node_info id d ≡ r
      → directory d t.new_id ≡ none
      → HasCloned id t d (clone_from inbound_mint node_mint id t taken r d)
  clone_from-HasCloned id t taken (err e) d found free = inl (refl, refl)
  clone_from-HasCloned id t taken (ok src) d found free =
      cloned_host id t src d (save_host (clone_host (completed src t)) d)
        (λ d1.
          after_save
            (save_node_info (clone_info inbound_mint node_mint (completed src t) taken src) d1)
            (in_chains inbound_mint node_mint id (completed src t) taken))
        found free
        (λ dir e at.
          kept-after_host inbound_mint node_mint (λ x. directory x ≡ dir) id (completed src t) taken
            src e (λ c x h. directory-save_chain c x ∙ h)
            (λ x h.
              directory-save_node_info
                (clone_info inbound_mint node_mint (completed src t) taken src) x
              ∙ h)
            at)
        (directory-save_host (clone_host (completed src t)) d)

  clone_new-HasCloned :
      (id : String) (t : CloneTarget) (r : Result Host) (d : Disk)
      → get_host t.new_id d ≡ r
      → HasCloned id t d (clone_new inbound_mint node_mint id t r d)
  clone_new-HasCloned id t (ok h) d there = inl (refl, refl)
  clone_new-HasCloned id t (err e) d there =
      clone_from-HasCloned id t (collect_awg_server_subnets d) (get_node_info id d) d refl
        (ap ok_of there)

  hosts-clone_node :
      (id : String) (t : CloneTarget) (d : Disk)
      → HasCloned id (trimmed t) d (clone_node inbound_mint node_mint id t d)
  unfolding clone_node
  hosts-clone_node id t d =
      let t' = trimmed t in
      elim (Bool-cases (id =s "" || t'.new_id =s "" || t'.new_addr =s "")) [
        | inl missing ↦ rw missing (inl (refl, refl))
        | inr given ↦ elim (Bool-cases (t'.new_id =s id)) [
          | inl itself ↦ rw (given, itself) (inl (refl, refl))
          | inr other ↦ rw (given, other) (clone_new-HasCloned id t' (get_host t'.new_id d) d refl)
        ]
      ]

  -- Whatever becomes of a clone, either none was made and no host has changed, or its identifier was free and
  -- the host of the clone, with what was given and else the user and the key of the source, has been added to the
  -- hosts, where every other one is as it was, also where a later write failed. The inbounds of every other
  -- node are as they were.
  pub clone_node-HasCloned :
      (id : String) (t : CloneTarget) (d : Disk)
      → HasCloned id (trimmed t) d (clone_node inbound_mint node_mint id t d)
        × ((j : String)
            → inbounds_at j (clone_node inbound_mint node_mint id t d).1 ≡ (
                if (trimmed t).new_id =s j
                then inbounds_at j (clone_node inbound_mint node_mint id t d).1
                else inbounds_at j d))
  clone_node-HasCloned id t d = (hosts-clone_node id t d, λ j. by_own j)
    where
      by_own :
          (j : String)
          → inbounds_at j (clone_node inbound_mint node_mint id t d).1 ≡ (
              if (trimmed t).new_id =s j
              then inbounds_at j (clone_node inbound_mint node_mint id t d).1
              else inbounds_at j d)
      by_own j = elim (Bool-cases ((trimmed t).new_id =s j)) [
        | inl own ↦ rw own refl
        | inr other ↦ rw other (inbounds_at-clone_node inbound_mint node_mint id j t d other)
      ]
