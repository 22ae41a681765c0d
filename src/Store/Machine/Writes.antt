-- ===== src/Store/Machine/Writes.antt =====
-- The hosts and the inbounds of nodes through single writes.
use angry_box.Prelude.{
  ◌≡◌, refl, ap, ◌∙◌, ◌⊎◌, inl, inr, String, Bool, true, false, some, ◌=s◌, if◌then◌else◌,
  Bool-cases,
}
use angry_box.Model.Base.{Host}
use angry_box.Model.Panel.{NodeInfo}
use angry_box.Model.Chain.{Chain}
use angry_box.Prelude.{upsert}
use angry_box.Store.{
  StoreFile, new_store_file, bump, write_store, Disk, Content, absent, unreadable, holds, update,
  query,
}
use angry_box.Store.Hosts.{host_id, save_host}
use angry_box.Store.Nodes.{save_node_info, get_node_info}
use angry_box.Store.Chains.{chain_name, flattened, save_chain}
use angry_box.Store.Machine.{Handler, exec}
use angry_box.Store.Machine.Directory.{directory, apply, is_accepted, exec-apply}
use angry_box.Store.Nodes.Rows.{inbounds_at}

pub directory-save_chain : (c : Chain) (d : Disk) → directory (save_chain c d).1 ≡ directory d
unfolding exec
directory-save_chain c d =
    exec-apply (Handler.save_chain c) d ∙ ignored (is_accepted (save_chain c d).0)
  where
    ignored : (b : Bool) → apply (Handler.save_chain c) b (directory d) ≡ directory d
    ignored true = refl
    ignored false = refl

pub directory-save_node_info :
    (ni : NodeInfo) (d : Disk) → directory (save_node_info ni d).1 ≡ directory d
unfolding exec
directory-save_node_info ni d =
    exec-apply (Handler.save_node_info ni) d ∙ ignored (is_accepted (save_node_info ni d).0)
  where
    ignored : (b : Bool) → apply (Handler.save_node_info ni) b (directory d) ≡ directory d
    ignored true = refl
    ignored false = refl

pub directory-save_host :
    (h : Host) (d : Disk)
    → (directory (save_host h d).1 ≡ directory d) × (is_accepted (save_host h d).0 ≡ false)
      ⊎ (directory (save_host h d).1 ≡ (λ k. if h.id =s k then some h else directory d k))
        × (is_accepted (save_host h d).0 ≡ true)
unfolding exec
directory-save_host h d = elim (Bool-cases (is_accepted (save_host h d).0)) [
  | inl yes_ok ↦ inr (
    exec-apply (Handler.save_host h) d
        ∙ ap (λ b. apply (Handler.save_host h) b (directory d)) yes_ok,
    yes_ok,
  )
  | inr no_ok ↦ inl (
    exec-apply (Handler.save_host h) d
        ∙ ap (λ b. apply (Handler.save_host h) b (directory d)) no_ok,
    no_ok,
  )
]

inbounds_at-write :
    (id : String) (sf : StoreFile) (d : Disk)
    → inbounds_at id (record d { content = holds (bump sf) }) ≡ inbounds_at id d
    → inbounds_at id (write_store sf d).1 ≡ inbounds_at id d
inbounds_at-write id sf d h = elim (Bool-cases (d.writable (bump sf))) [
  | inl written ↦ rw written h
  | inr refused ↦ rw refused refl
]

pub inbounds_at-save_chain :
    (id : String) (c : Chain) (d : Disk) → inbounds_at id (save_chain c d).1 ≡ inbounds_at id d
unfolding save_chain get_node_info update query
inbounds_at-save_chain id c d = by_content d.content
  where
    by_content :
        (x : Content)
        → inbounds_at id (save_chain c (record { content = x; writable = d.writable })).1
          ≡ inbounds_at id (record { content = x; writable = d.writable })
    by_content absent =
        inbounds_at-write id
          (record new_store_file { chains = upsert chain_name (flattened c) new_store_file.chains })
          (record { content = absent; writable = d.writable }) refl
    by_content unreadable = refl
    by_content (holds sf) =
        inbounds_at-write id (record sf { chains = upsert chain_name (flattened c) sf.chains })
          (record { content = holds sf; writable = d.writable }) refl

pub inbounds_at-save_host :
    (id : String) (h : Host) (d : Disk) → inbounds_at id (save_host h d).1 ≡ inbounds_at id d
unfolding save_host get_node_info update query
inbounds_at-save_host id h d = by_content d.content
  where
    by_content :
        (x : Content)
        → inbounds_at id (save_host h (record { content = x; writable = d.writable })).1
          ≡ inbounds_at id (record { content = x; writable = d.writable })
    by_content absent =
        inbounds_at-write id
          (record new_store_file { hosts = upsert host_id h new_store_file.hosts })
          (record { content = absent; writable = d.writable }) refl
    by_content unreadable = refl
    by_content (holds sf) =
        inbounds_at-write id (record sf { hosts = upsert host_id h sf.hosts })
          (record { content = holds sf; writable = d.writable }) refl
