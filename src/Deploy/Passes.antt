-- ===== src/Deploy/Passes.antt =====
-- Rules for the passes of `ApplyProfileToNodes`: what holds at their end, whether they end or stop.
use mathlib.Core.Path.{subst}
use angry_box.Prelude.{
  ◌≡◌, refl, ap, ◌∙◌, inl, inr, String, List, [], ◌∷◌, some, arith, ◌=s◌, =s_iff, if◌then◌else◌,
  find_by, All, Bool-cases,
}
use angry_box.Model.Base.{Host}
use angry_box.Model.Panel.{NodeInfo}
use angry_box.Store.{
  StoreError, Result, ok, err, Disk, Content, absent, unreadable, holds, found, host_not_found,
  query,
}
use angry_box.Store.Hosts.{host_id, get_host}
use angry_box.Store.Nodes.{get_node_info, save_node_info}
use angry_box.Deploy.{
  Deploying, Outcome, going, stopped, and_then, for_each, node_record, host_record, record_or, save,
}
use angry_box.Store.Nodes.Rows.{inbounds_of, inbounds_at, inbounds_at-found, save_node_info-IsSaved}

-- `P` where the pass goes on, `Q` where it stops.
abbrev pub Ends : (P Q : Deploying → Type 0) → Outcome → Type 0
Ends P Q (going s) = P s
Ends P Q (stopped e s) = Q s

module _ (P Q : Deploying → Type 0) where
  pub Ends-and_then :
      (R : Deploying → Type 0) (o : Outcome) (k : Deploying → Outcome)
      → Ends P Q o
      → ((s : Deploying) → P s → Ends R Q (k s))
      → Ends R Q (and_then o k)
  Ends-and_then R (going s) k h rest = rest s h
  Ends-and_then R (stopped e s) k h rest = h

  pub Ends-for_each :
      (body : String → Deploying → Outcome) (ids : List String) (s : Deploying)
      → ((id : String) (s : Deploying) → P s → Ends P Q (body id s))
      → P s
      → Ends P Q (for_each body ids s)
  Ends-for_each body [] s keep h = h
  Ends-for_each body (id ∷ ids) s keep h =
      Ends-and_then P (body id s) (for_each body ids) (keep id s h)
        (λ s' h'. Ends-for_each body ids s' keep h')

  -- A save goes on with the new disk, or stops with the old one.
  pub Ends-save :
      (ni : NodeInfo) (id : String) (note : Deploying → Deploying) (s : Deploying)
      → (((i : String)
            → inbounds_at i (save_node_info ni s.disk).1
              ≡ (if ni.host.id =s i then ni.inbounds else inbounds_at i s.disk))
          → P (note (record s { disk = (save_node_info ni s.disk).1 })))
      → Q s
      → Ends P Q (save ni id note s)
  Ends-save ni id note s on off = elim (save_node_info-IsSaved ni s.disk) [
    | inl (done, rows) ↦ rw done (on rows)
    | inr (e, failed, same) ↦ rw (failed, same) off
  ]

get_host-id : (id : String) (d : Disk) (h : Host) → get_host id d ≡ ok h → h.id ≡ id
unfolding get_host query
get_host-id id d h e = by_content d.content e
  where
    by_row : (hs : List Host) → found (host_not_found id) (find_by host_id id hs) ≡ ok h → h.id ≡ id
    by_row [] e = cc
    by_row (x ∷ xs) e = elim (Bool-cases (host_id x =s id)) [
      | inl own ↦ ground (arith, e, own, =s_iff (host_id x) id)
      | inr other ↦ by_row xs (rw other at e)
    ]

    by_content :
        (c : Content)
        → get_host id (record { content = c; writable = d.writable }) ≡ ok h
        → h.id ≡ id
    by_content absent e = cc
    by_content unreadable e = cc
    by_content (holds sf) e = by_row sf.hosts e

-- The record that the first pass works with has the node's identifier and inbounds.
pub node_record-found :
    (id : String) (d : Disk) (ni : NodeInfo)
    → node_record id d ≡ ok ni
    → (ni.host.id ≡ id) × (inbounds_at id d ≡ ni.inbounds)
node_record-found id d ni h = by_info (get_node_info id d) refl h
  where
    by_host :
        (e : StoreError) (r : Result Host)
        → get_node_info id d ≡ err e
        → get_host id d ≡ r
        → host_record r ≡ ok ni
        → (ni.host.id ≡ id) × (inbounds_at id d ≡ ni.inbounds)
    by_host e (err e') gone at h = cc
    by_host e (ok host) gone at h =
        (ground (arith, h, get_host-id id d host at), ap inbounds_of gone ∙ ground (arith, h))

    by_info :
        (r : Result NodeInfo)
        → get_node_info id d ≡ r
        → record_or r (host_record (get_host id d)) ≡ ok ni
        → (ni.host.id ≡ id) × (inbounds_at id d ≡ ni.inbounds)
    by_info (ok ni') at h = inbounds_at-found id d ni (at ∙ h)
    by_info (err e) at h = by_host e (get_host id d) at refl h

pub All-find_by :
    {A : Type 0} (P : A → Type 0) (key : A → String) (k : String) (xs : List A) (a : A)
    → All P xs
    → find_by key k xs ≡ some a
    → P a × (key a ≡ k)
All-find_by P key k [] a h e = cc
All-find_by P key k (x ∷ xs) a (p, h) e = elim (Bool-cases (key x =s k)) [
  | inl own ↦
      let same : x ≡ a = ground (arith, e, own) in
      subst (λ y. P y × (key y ≡ k)) same (p, (=s_iff (key x) k).0 own)
  | inr other ↦ All-find_by P key k xs a h (rw other at e)
]
