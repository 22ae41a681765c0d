-- ===== src/Awg/Sync/Exact.antt =====
-- The peers of an interface after a sync.
use angry_box.Awg.Sync.Wanted.{
  wanted_or-other, AreApart, avoids, contains-live_keys, both_out, none_out, after-synced,
  wanted_or,
}
use mathlib.Core.Path.{subst}
use angry_box.Prelude.{
  arith, ◌≡◌, refl, sym, ap, ◌∙◌, inl, inr, String, Bool, true, false, not, ◌&&◌, List, [], ◌∷◌,
  map, Option, none, some, ◌=s◌, =s_iff, if◌then◌else◌, keep, Bool-cases, Option-cases, All,
}
use angry_box.Prelude.Text.{trim_space}
use angry_box.Awg.Conf.{AwgServerPeer, AwgServerConfParams, conf_lines, render_server_awg_conf}
use angry_box.Awg.Split.{split_lines, split_awg_conf}
use angry_box.Awg.Split.Texts.{has_char}
use angry_box.Awg.Split.Roundtrip.{IsTidy, shown, has_key, split_awg_conf-render_server_awg_conf}
use angry_box.Awg.Sync.{
  Node, IsInterface, contains, SyncResult, synced, failed, panicked, live_keys, all_traffic,
  set_all, is_wanted, remove_all, then_remove, sync_shown, sync_awg_peers, is_active_text,
  same_interface, applied, try_peer_sync,
}

module _ (n : Node) (law : IsInterface n) (j : String) where
  set_all-wanted :
      (ps : List AwgServerPeer) (o : Option String) (s s' : n.State)
      → AreApart law.apart ps
      → ((b : String) → o ≡ some b → All (λ q. avoids law.apart j b q ≡ true) ps)
      → law.peer s j ≡ o
      → set_all n ps s ≡ (synced, s')
      → law.peer s' j ≡ wanted_or j ps o
  unfolding set_all
  set_all-wanted [] o s s' disjoint off at h =
      ap (λ x. law.peer x j) (sym (ap (λ (x : SyncResult × n.State). x.1) h)) ∙ at
  set_all-wanted (p ∷ ps) o s s' (fresh, disjoint) off at h =
      elim (Bool-cases (p.public_key =s "")) [
        | inl empty ↦
            rw empty (set_all-wanted ps o s s' disjoint (λ b e. (off b e).1) at (rw empty at h))
        | inr keyed ↦
            let allowed = all_traffic p.allowed_ips in
            let (s1, (done, rest)) =
              after-synced n p.public_key (n.set_peer p.public_key allowed s) (set_all n ps) s'
                (rw keyed at h) in
            elim (Bool-cases (p.public_key =s j)) [
              | inl own ↦
                  let same : p.public_key ≡ j = (=s_iff p.public_key j).0 own in
                  let now : law.peer s1 j ≡ some allowed =
                    subst (λ k. law.peer s1 k ≡ some allowed) same
                      (law.sets p.public_key allowed s s1 done) in
                  rw (keyed, own)
                    (set_all-wanted ps (some allowed) s1 s' disjoint
                      (λ b e.
                        let is : allowed ≡ b = cc in
                        subst (λ k. All (λ q. avoids law.apart k b q ≡ true) ps) same
                          (subst (λ x. All (λ q. avoids law.apart p.public_key x q ≡ true) ps) is
                            fresh))
                      now rest)
              | inr other ↦
                  let kept =
                    law.spares p.public_key allowed j s s1 done other
                      (λ b e. ground (arith, (off b (sym at ∙ e)).0, keyed, other)) in
                  rw (keyed, other)
                    (set_all-wanted ps o s1 s' disjoint (λ b e. (off b e).1) (kept ∙ at) rest)
            ]
      ]

  -- A peer that is named has the addresses of its last one, whatever it had before.
  set_all-named :
      (ps : List AwgServerPeer) (s s' : n.State)
      → (j =s "") ≡ false
      → AreApart law.apart ps
      → is_wanted j ps ≡ true
      → set_all n ps s ≡ (synced, s')
      → law.peer s' j ≡ wanted_or j ps none
  unfolding set_all
  set_all-named [] s s' ne disjoint named h = absurd (cc)
  set_all-named (p ∷ ps) s s' ne (fresh, disjoint) named h = elim (Bool-cases (p.public_key =s j)) [
    | inl own ↦
        let same : p.public_key ≡ j = (=s_iff p.public_key j).0 own in
        let keyed : (p.public_key =s "") ≡ false = subst (λ k. (k =s "") ≡ false) (sym same) ne in
        let allowed = all_traffic p.allowed_ips in
        let (s1, (done, rest)) =
          after-synced n p.public_key (n.set_peer p.public_key allowed s) (set_all n ps) s'
            (rw keyed at h) in
        let now : law.peer s1 j ≡ some allowed =
          subst (λ k. law.peer s1 k ≡ some allowed) same
            (law.sets p.public_key allowed s s1 done) in
        rw (keyed, own)
          (set_all-wanted ps (some allowed) s1 s' disjoint
            (λ b e.
              let is : allowed ≡ b = cc in
              subst (λ k. All (λ q. avoids law.apart k b q ≡ true) ps) same
                (subst (λ x. All (λ q. avoids law.apart p.public_key x q ≡ true) ps) is fresh))
            now rest)
    | inr other ↦
        let later : is_wanted j ps ≡ true = rw other at named in
        elim (Bool-cases (p.public_key =s "")) [
          | inl empty ↦ rw empty (set_all-named ps s s' ne disjoint later (rw empty at h))
          | inr keyed ↦
              let (s1, (done, rest)) =
                after-synced n p.public_key (n.set_peer p.public_key (all_traffic p.allowed_ips) s)
                  (set_all n ps) s' (rw keyed at h) in
              rw (keyed, other) (set_all-named ps s1 s' ne disjoint later rest)
        ]
  ]

  remove_all-dropped :
      (want : List AwgServerPeer) (ks : List String) (s s' : n.State)
      → remove_all n want ks s ≡ (synced, s')
      → law.peer s' j ≡ (if contains j ks && not (is_wanted j want) then none else law.peer s j)
  unfolding remove_all
  remove_all-dropped want [] s s' h =
      ap (λ x. law.peer x j) (sym (ap (λ (x : SyncResult × n.State). x.1) h))
  remove_all-dropped want (k ∷ ks) s s' h = elim (Bool-cases (is_wanted k want)) [
    | inl kept ↦ remove_all-dropped want ks s s' (rw kept at h) ∙ elim (Bool-cases (k =s j)) [
      | inr other ↦ rw other refl
      | inl same ↦
          let wanted : is_wanted j want ≡ true =
            subst (λ x. is_wanted x want ≡ true) ((=s_iff k j).0 same) kept in
          rw (same, wanted) (both_out (contains j ks) (law.peer s j))
    ]
    | inr dropped ↦
        let (s1, (done, rest)) =
          after-synced n k (n.remove_peer k s) (remove_all n want ks) s' (rw dropped at h) in
        remove_all-dropped want ks s1 s' rest
        ∙ rw (law.removes k j s s1 done) (elim (Bool-cases (k =s j)) [
          | inr other ↦ rw other refl
          | inl same ↦
              let unwanted : is_wanted j want ≡ false =
                subst (λ x. is_wanted x want ≡ false) ((=s_iff k j).0 same) dropped in
              rw (same, unwanted) (none_out (contains j ks))
        ])
  ]

  sync_shown-wanted :
      (desired : List AwgServerPeer) (out : String) (s s' : n.State)
      → (j =s "") ≡ false
      → AreApart law.apart desired
      → n.show_peers s ≡ some out
      → sync_shown n desired (some out) s ≡ (synced, s')
      → law.peer s' j ≡ wanted_or j desired none
  sync_shown-wanted desired out s s' ne disjoint at h = by_set (set_all n desired s) refl h
    where
      here :
          contains j (n.map_order (live_keys out)) ≡ contains j (map trim_space (split_lines out))
      here =
          law.orders (live_keys out) j ∙ contains-live_keys j (map trim_space (split_lines out)) ne

      settle :
          (s1 : n.State)
          → set_all n desired s ≡ (synced, s1)
          → (if contains j (n.map_order (live_keys out)) && not (is_wanted j desired)
              then none
              else law.peer s1 j)
            ≡ wanted_or j desired none
      settle s1 e = elim (Bool-cases (is_wanted j desired)) [
        | inl named ↦
            rw (named, set_all-named desired s s1 ne disjoint named e)
              (both_out (contains j (n.map_order (live_keys out))) (wanted_or j desired none))
        | inr other ↦ elim (Option-cases (law.peer s j)) [
          | inl gone ↦
              rw
                (
                  other,
                  set_all-wanted desired none s s1 disjoint (λ b e'. absurd (cc)) gone e,
                  wanted_or-other j desired none other,
                )
                (none_out (contains j (n.map_order (live_keys out))))
          | inr (a, there) ↦
              rw
                (other, here, law.shows s out j a at ne there, wanted_or-other j desired none other)
                refl
        ]
      ]

      by_set :
          (r : SyncResult × n.State)
          → set_all n desired s ≡ r
          → then_remove n desired (n.map_order (live_keys out)) r ≡ (synced, s')
          → law.peer s' j ≡ wanted_or j desired none
      by_set (synced, s1) e h =
          remove_all-dropped desired (n.map_order (live_keys out)) s1 s' h ∙ settle s1 e
      by_set (failed, s1) e h = absurd (cc (ap (λ (x : SyncResult × n.State). x.0) h))
      by_set (panicked, s1) e h = absurd (cc (ap (λ (x : SyncResult × n.State). x.0) h))

  sync_awg_peers-wanted :
      (desired : List AwgServerPeer) (s s' : n.State)
      → (j =s "") ≡ false
      → AreApart law.apart desired
      → sync_awg_peers n desired s ≡ (synced, s')
      → law.peer s' j ≡ wanted_or j desired none
  unfolding sync_awg_peers
  sync_awg_peers-wanted desired s s' ne disjoint h = elim (Option-cases (n.show_peers s)) [
    | inl failing ↦
        let e : sync_shown n desired none s ≡ (synced, s') = rw failing at h in
        absurd (cc (ap (λ (x : SyncResult × n.State). x.0) e))
    | inr (out, shown) ↦ sync_shown-wanted desired out s s' ne disjoint shown (rw shown at h)
  ]

  try_peer_sync-wanted :
      (content : String) (s s' : n.State)
      → (j =s "") ≡ false
      → AreApart law.apart (split_awg_conf content).1
      → try_peer_sync n content s ≡ (some true, s')
      → law.peer s' j ≡ wanted_or j (split_awg_conf content).1 none
  unfolding try_peer_sync
  try_peer_sync-wanted content s s' ne disjoint h =
      elim (Bool-cases (is_active_text (n.is_active s))) [
        | inr down ↦ absurd (wrong (rw down at h))
        | inl up ↦ elim (Bool-cases (same_interface content (n.conf s))) [
          | inr changed ↦ absurd (wrong (rw (up, changed) at h))
          | inl same ↦
              by_result (sync_awg_peers n (split_awg_conf content).1 s) refl (rw (up, same) at h)
        ]
      ]
    where
      wrong : ◌≡◌ {A = Option Bool × n.State} (some false, s) (some true, s') → ⊥
      wrong e = cc (ap (λ (x : Option Bool × n.State). x.0) e)

      by_result :
          (r : SyncResult × n.State)
          → sync_awg_peers n (split_awg_conf content).1 s ≡ r
          → applied n r ≡ (some true, s')
          → law.peer s' j ≡ wanted_or j (split_awg_conf content).1 none
      by_result (synced, s1) e h =
          let same : s1 ≡ s' = ap (λ (x : Option Bool × n.State). x.1) h in
          subst (λ x. law.peer x j ≡ wanted_or j (split_awg_conf content).1 none) same
            (sync_awg_peers-wanted (split_awg_conf content).1 s s1 ne disjoint e)
      by_result (failed, s1) e h = absurd (cc (ap (λ (x : Option Bool × n.State). x.0) h))
      by_result (panicked, s1) e h = absurd (cc (ap (λ (x : Option Bool × n.State). x.0) h))

-- Where `tryPeerSync` says that it has applied a rendered configuration, without line feeds in its values and with
-- tidy peers, no two of which with different keys have a network in common, the interface has for every key the
-- addresses of the last of the configuration's peers with that key, and no other peer is left: on a node whose `awg`
-- does what `IsInterface` says.
pub try_peer_sync-render :
    (n : Node) (law : IsInterface n) (to_base64 : String → Option String) (p : AwgServerConfParams)
    (s s' : n.State) (j : String)
    → (j =s "") ≡ false
    → All (λ l. has_char 10 l ≡ false) (conf_lines to_base64 p)
    → All IsTidy p.peers
    → AreApart law.apart (map shown (keep has_key p.peers))
    → try_peer_sync n (render_server_awg_conf to_base64 p) s ≡ (some true, s')
    → law.peer s' j ≡ wanted_or j (map shown (keep has_key p.peers)) none
try_peer_sync-render n law to_base64 p s s' j ne one_line tidy disjoint h =
    let read = split_awg_conf-render_server_awg_conf to_base64 p one_line tidy in
    let peers = ap (λ (x : String × List AwgServerPeer). x.1) read in
    try_peer_sync-wanted n law j (render_server_awg_conf to_base64 p) s s' ne
      (subst (AreApart law.apart) (sym peers) disjoint) h
    ∙ ap (λ ps. wanted_or j ps none) peers
