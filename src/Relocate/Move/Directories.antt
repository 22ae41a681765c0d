-- ===== src/Relocate/Move/Directories.antt =====
-- The hosts through the writes of `RelocateNode`.
use angry_box.Prelude.{
  ◌≡◌, refl, ◌∙◌, ◌⊎◌, inl, inr, String, true, false, ◌||◌, List, [], ◌∷◌, map, some, ◌=s◌,
  if◌then◌else◌, Bool-cases,
}
use angry_box.Prelude.Text.{trim_space}
use angry_box.Model.Base.{Host}
use angry_box.Model.Panel.{NodeInfo}
use angry_box.Model.Chain.{Chain}
use angry_box.Store.{Result, ok, err, Disk}
use angry_box.Store.Hosts.{save_host, get_host}
use angry_box.Store.Nodes.{save_node_info, get_node_info}
use angry_box.Store.Chains.{save_chain, get_chains_for_node}
use angry_box.Store.Machine.Writes.{
  directory-save_chain, directory-save_node_info, directory-save_host,
}
use angry_box.Store.Machine.Directory.{Directory, directory, is_accepted}
use angry_box.Relocate.Move.{
  Target, moved_host, moved_chain, Outcome, is_moved, after_save, move_chains, move_affected,
  in_chains, pin_host, move_found, trimmed, relocate_node,
}

-- What is true of a disk and of the disks that the rest makes of it stays true.
directory-after_save :
    (dir : Directory) (r : Result (Unit {0}) × Disk) (k : Disk → Outcome × Disk)
    → directory r.1 ≡ dir
    → ((d : Disk) → directory d ≡ dir → directory (k d).1 ≡ dir)
    → directory (after_save r k).1 ≡ dir
directory-after_save dir (ok u, d) k h rest = rest d h
directory-after_save dir (err e, d) k h rest = h

directory-move_chains :
    (dir : Directory) (id : String) (t : Target) (old : String) (all cs : List Chain) (d : Disk)
    → directory d ≡ dir
    → directory (move_chains id t old all cs d).1 ≡ dir
directory-move_chains dir id t old all [] d h = h
directory-move_chains dir id t old all (c ∷ cs) d h =
    directory-after_save dir (save_chain (moved_chain id t c) d) (move_chains id t old all cs)
      (directory-save_chain (moved_chain id t c) d ∙ h) (directory-move_chains dir id t old all cs)

directory-in_chains :
    (dir : Directory) (id : String) (t : Target) (old : String) (d : Disk)
    → directory d ≡ dir
    → directory (in_chains id t old d).1 ≡ dir
directory-in_chains dir id t old d h = go (get_chains_for_node id d)
  where
    go : (r : Result (List Chain)) → directory (move_affected id t old r d).1 ≡ dir
    go (err e) = h
    go (ok cs) = directory-move_chains dir id t old (map (moved_chain id t) cs) cs d h

directory-pin_host :
    (dir : Directory) (id : String) (t : Target) (h : Host) (r : Result NodeInfo) (d : Disk)
    → directory d ≡ dir
    → directory (pin_host id t h r d).1 ≡ dir
directory-pin_host dir id t h (err e) d same = directory-in_chains dir id t h.addr d same
directory-pin_host dir id t h (ok info) d same =
    directory-after_save dir (save_node_info (record info { host = moved_host t h }) d)
      (in_chains id t h.addr)
      (directory-save_node_info (record info { host = moved_host t h }) d ∙ same)
      (directory-in_chains dir id t h.addr)

-- The hosts after the writes: as they were, where the relocation did not get past the host, and else with
-- this host moved.
abbrev pub HasMoved : String → Target → Disk → Outcome × Disk → Type 0
HasMoved id t d r =
    (is_moved r.0 ≡ false) × (directory r.1 ≡ directory d)
    ⊎ (h : Host) × (get_host id d ≡ ok h)
      × (directory r.1 ≡ (λ k. if h.id =s k then some (moved_host t h) else directory d k))

after_host :
    (id : String) (t : Target) (h : Host) (d : Disk) (r : Result (Unit {0}) × Disk)
    (k : Disk → Outcome × Disk)
    → get_host id d ≡ ok h
    → ((dir : Directory) (e : Disk) → directory e ≡ dir → directory (k e).1 ≡ dir)
    → (directory r.1 ≡ directory d) × (is_accepted r.0 ≡ false)
      ⊎ (directory r.1 ≡ (λ i. if h.id =s i then some (moved_host t h) else directory d i))
        × (is_accepted r.0 ≡ true)
    → HasMoved id t d (after_save r k)
after_host id t h d (ok u, e) k found rest (inl (same, no_ok)) = absurd (cc)
after_host id t h d (ok u, e) k found rest (inr (new, yes_ok)) =
    inr (h, found, rest (λ i. if h.id =s i then some (moved_host t h) else directory d i) e new)
after_host id t h d (err x, e) k found rest (inl (same, no_ok)) = inl (refl, same)
after_host id t h d (err x, e) k found rest (inr (new, yes_ok)) = absurd (cc)

move_found-HasMoved :
    (id : String) (t : Target) (d : Disk) (r : Result Host)
    → get_host id d ≡ r
    → HasMoved id t d (move_found id t r d)
move_found-HasMoved id t d (err e) found = inl (refl, refl)
move_found-HasMoved id t d (ok h) found =
    after_host id t h d (save_host (moved_host t h) d)
      (λ d'. pin_host id t h (get_node_info id d') d') found
      (λ dir e same. directory-pin_host dir id t h (get_node_info id e) e same)
      (directory-save_host (moved_host t h) d)

-- Whatever becomes of a relocation, at most its own host changes: either it stopped and no host has changed,
-- or the host has the new address, and the login and key that were given, and every other host is as it was;
-- the latter also where a write after that of the host failed.
pub relocate_node-HasMoved :
    (id : String) (t : Target) (d : Disk) → HasMoved id (trimmed t) d (relocate_node id t d)
unfolding relocate_node
relocate_node-HasMoved id t d = elim (Bool-cases (id =s "" || trim_space t.new_addr =s "")) [
  | inl missing ↦ rw missing (inl (refl, refl))
  | inr given ↦ rw given (move_found-HasMoved id (trimmed t) d (get_host id d) refl)
]
