-- ===== src/Clone/Kept.antt =====
-- The inbounds of nodes through the writes of `CloneNode`.
pub mod Hosts
use angry_box.Prelude.{
  ◌≡◌, refl, ap, ◌∙◌, ◌⊎◌, inl, inr, ℕ, String, Bool, true, false, ◌||◌, List, [], ◌∷◌, Option,
  none, some, ◌=s◌, if◌then◌else◌, Bool-cases,
}
use angry_box.Model.Base.{Host}
use angry_box.Model.Panel.{NodeInfo}
use angry_box.Model.Chain.{Chain, ChainNode}
use angry_box.Store.{Result, ok, err, Disk}
use angry_box.Store.Hosts.{save_host, get_host}
use angry_box.Store.Nodes.{get_node_info, save_node_info}
use angry_box.Store.Nodes.Rows.{inbounds_at, save_node_info-IsSaved}
use angry_box.Store.Chains.{save_chain, get_chains_for_node}
use angry_box.Store.Profiles.{ok_or}
use angry_box.Store.Machine.Directory.{Directory, directory, ok_of, is_accepted}
use angry_box.Store.Machine.Writes.{
  directory-save_chain, directory-save_node_info, directory-save_host, inbounds_at-save_chain,
  inbounds_at-save_host,
}
use angry_box.Clone.Identity.{InboundIdentity, NodeIdentity, collect_awg_server_subnets}
use angry_box.Clone.{
  CloneTarget, CloneOutcome, refused, exists, failed, cloned, after_save, find_chain_node, joined,
  join_found, join_chains, in_chains, clone_host, clone_info, completed, clone_from, clone_new,
  trimmed, clone_node,
}

abbrev pub is_cloned : CloneOutcome → Bool
is_cloned refused = false
is_cloned exists = false
is_cloned (failed e) = false
is_cloned (cloned cs) = true

-- What is true after a write and stays true with the rest is true in the end.
kept-after_save :
    (P : Disk → Type 0) (r : Result (Unit {0}) × Disk) (k : Disk → CloneOutcome × Disk)
    → P r.1
    → ((d : Disk) → P d → P (k d).1)
    → P (after_save r k).1
kept-after_save P (ok u, d) k h rest = rest d h
kept-after_save P (err e, d) k h rest = h

module _ (inbound_mint : ℕ → InboundIdentity) (node_mint : String → NodeIdentity) where
  kept-join_found :
      (P : Disk → Type 0) (id : String) (t : CloneTarget) (taken : List String) (c : Chain)
      (rest : Disk → CloneOutcome × Disk) (o : Option ChainNode) (d : Disk)
      → ((x : Chain) (e : Disk) → P e → P (save_chain x e).1)
      → ((e : Disk) → P e → P (rest e).1)
      → P d
      → P (join_found inbound_mint node_mint id t taken c rest o d).1
  kept-join_found P id t taken c rest none d saves rests h = rests d h
  kept-join_found P id t taken c rest (some src) d saves rests h =
      let c' = joined inbound_mint node_mint id t taken c in
      kept-after_save P (save_chain c' d) rest (saves c' d h) rests

  kept-join_chains :
      (P : Disk → Type 0) (id : String) (t : CloneTarget) (taken : List String)
      (all cs : List Chain) (d : Disk)
      → ((c : Chain) (e : Disk) → P e → P (save_chain c e).1)
      → P d
      → P (join_chains inbound_mint node_mint id t taken all cs d).1
  kept-join_chains P id t taken all [] d saves h = h
  kept-join_chains P id t taken all (c ∷ cs) d saves h =
      kept-join_found P id t taken c (join_chains inbound_mint node_mint id t taken all cs)
        (find_chain_node c id) d saves (λ e at. kept-join_chains P id t taken all cs e saves at) h

  -- The record of the clone and its chains, after its host.
  pub kept-after_host :
      (P : Disk → Type 0) (id : String) (t : CloneTarget) (taken : List String) (src : NodeInfo)
      (d : Disk)
      → ((c : Chain) (e : Disk) → P e → P (save_chain c e).1)
      → ((e : Disk) → P e → P (save_node_info (clone_info inbound_mint node_mint t taken src) e).1)
      → P d
      → P
          (after_save
            (save_node_info (clone_info inbound_mint node_mint t taken src) d)
            (in_chains inbound_mint node_mint id t taken)).1
  kept-after_host P id t taken src d saves records h =
      kept-after_save P (save_node_info (clone_info inbound_mint node_mint t taken src) d)
        (in_chains inbound_mint node_mint id t taken) (records d h)
        (λ e at.
          let all = ok_or [] (get_chains_for_node id e) in
          kept-join_chains P id t taken all all e saves at)

  inbounds_at-clone_from :
      (id j : String) (t : CloneTarget) (taken : List String) (r : Result NodeInfo) (d : Disk)
      → (t.new_id =s j) ≡ false
      → inbounds_at j (clone_from inbound_mint node_mint id t taken r d).1 ≡ inbounds_at j d
  inbounds_at-clone_from id j t taken (err e) d other = refl
  inbounds_at-clone_from id j t taken (ok src) d other =
      kept-after_save (λ e. inbounds_at j e ≡ inbounds_at j d) (save_host (clone_host t') d)
        (λ d1.
          after_save (save_node_info (clone_info inbound_mint node_mint t' taken src) d1)
            (in_chains inbound_mint node_mint id t' taken))
        (inbounds_at-save_host j (clone_host t') d)
        (λ e at.
          kept-after_host (λ x. inbounds_at j x ≡ inbounds_at j d) id t' taken src e
            (λ c x h. inbounds_at-save_chain j c x ∙ h) records at)
    where
      t' : CloneTarget
      t' = completed src t

      records :
          (e : Disk)
          → inbounds_at j e ≡ inbounds_at j d
          → inbounds_at j
              (save_node_info (clone_info inbound_mint node_mint (completed src t) taken src) e).1
            ≡ inbounds_at j d
      records e at =
          elim (save_node_info-IsSaved
            (clone_info inbound_mint node_mint (completed src t) taken src) e) [
              | inl (saved, rows) ↦ rows j ∙ rw other at
              | inr (x, lost, same) ↦ ap (inbounds_at j) same ∙ at
            ]

  inbounds_at-clone_new :
      (id j : String) (t : CloneTarget) (r : Result Host) (d : Disk)
      → (t.new_id =s j) ≡ false
      → inbounds_at j (clone_new inbound_mint node_mint id t r d).1 ≡ inbounds_at j d
  inbounds_at-clone_new id j t (ok h) d other = refl
  inbounds_at-clone_new id j t (err e) d other =
      inbounds_at-clone_from id j t (collect_awg_server_subnets d) (get_node_info id d) d other

  pub inbounds_at-clone_node :
      (id j : String) (t : CloneTarget) (d : Disk)
      → ((trimmed t).new_id =s j) ≡ false
      → inbounds_at j (clone_node inbound_mint node_mint id t d).1 ≡ inbounds_at j d
  unfolding clone_node
  inbounds_at-clone_node id j t d other =
      let t' = trimmed t in
      elim (Bool-cases (id =s "" || t'.new_id =s "" || t'.new_addr =s "")) [
        | inl missing ↦ rw missing refl
        | inr given ↦ elim (Bool-cases (t'.new_id =s id)) [
          | inl itself ↦ rw (given, itself) refl
          | inr apart ↦
              rw (given, apart) (inbounds_at-clone_new id j t' (get_host t'.new_id d) d other)
        ]
      ]
