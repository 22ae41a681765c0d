-- ===== src/Awg/Split/Roundtrip.antt =====
-- What `splitAWGConf` reads from a configuration that `RenderServerAWGConf` has written.
use mathlib.Core.List
use mathlib.Core.List.{append-nil}
use text.Mathlib.TextLemmas.{cons-append, append_assoc}
use angry_box.Prelude.{
  ◌≡◌, refl, sym, ap, ◌∙◌, ◌⊎◌, inl, inr, String, Bool, true, false, not, List, [], ◌∷◌, ◌++◌, map,
  Option, some, ◌=s◌, keep, All, Bool-cases,
}
use angry_box.Prelude.Decimal.{◌+s◌}
use angry_box.Prelude.Text.{trim_space}
use angry_box.Awg.Conf.{
  AwgServerPeer, AwgServerConfParams, lines_if, allowed_or_default, peer_lines, peers_lines,
  interface_lines, conf_lines, render_server_awg_conf,
}
use angry_box.Awg.Split.{
  Reading, cut, flushed, blank_peer, set_field, read_trimmed, read_lines, nothing_read, read_result,
  join_lines, split_awg_conf,
}
use angry_box.Awg.Split.Texts.{
  Clean, Starts, Starts-append, Starts-tests, has_char, trim_space-entry, trim_space-value,
  cut-append, split_lines-written,
}
use angry_box.Awg.Split.Interface.{
  read_lines-append, read_lines-interface, interface_lines-Starts, starts, starts-Starts,
}

abbrev pub has_key : AwgServerPeer → Bool
has_key q = not (q.public_key =s "")

-- A peer as the reader gives it: without the preshared key, and with the address that the writer puts for none.
abbrev pub shown : AwgServerPeer → AwgServerPeer
shown q = record {
  public_key = q.public_key;
  allowed_ips = allowed_or_default q.allowed_ips;
  preshared_key = "";
}

-- No value of the peer is blank or has spaces around it, unless it is empty; one without a key may be anything.
abbrev pub IsTidy : AwgServerPeer → Type 0
IsTidy q =
    ((q.public_key =s "") ≡ true)
    ⊎ Clean q.public_key
      × ((((q.preshared_key =s "") ≡ true) ⊎ Clean q.preshared_key)
          × Clean (allowed_or_default q.allowed_ips))

-- A line of a peer's section: the name `k` with a space, an equal sign, and a value.
read-entry :
    (k v : String) (q : AwgServerPeer) (r : Reading)
    → Starts (k +s "= ")
    → has_char 61 k ≡ false
    → Clean v
    → read_trimmed (trim_space ((k +s "= ") +s v)) (record r { cur = some q; in_peer = true })
      ≡ record r { cur = some (set_field (trim_space k) v q); in_peer = true }
read-entry k v q r start plain clean =
    let line = (k +s "= ") +s v in
    let (empty, interface, peer) = Starts-tests line (Starts-append (k +s "= ") v start) in
    let parts : cut line ≡ some (k, " " +s v) =
      ap cut (append_assoc k "= " v ∙ ap (λ x. k +s x) (cons-append "=" " " v))
      ∙ cut-append k "=" (" " +s v) plain refl in
    rw
      (
        trim_space-entry (k +s "= ") v start clean,
        empty,
        interface,
        peer,
        parts,
        trim_space-value v clean,
      )
      refl

-- The last two lines of a section: the reader passes over the preshared key.
read-allowed :
    (q : AwgServerPeer) (before : Reading)
    → Clean (allowed_or_default q.allowed_ips)
    → read_trimmed
        (trim_space ("AllowedIPs = " +s allowed_or_default q.allowed_ips))
        (record before {
          cur = some (record blank_peer { public_key = q.public_key });
          in_peer = true;
        })
      ≡ record before { cur = some (shown q); in_peer = true }
unfolding starts trim_space
read-allowed q before allowed =
    read-entry "AllowedIPs " (allowed_or_default q.allowed_ips)
      (record blank_peer { public_key = q.public_key }) before (starts-Starts "AllowedIPs = " refl)
      refl allowed

read-preshared :
    (q : AwgServerPeer) (before : Reading)
    → ((q.preshared_key =s "") ≡ true) ⊎ Clean q.preshared_key
    → Clean (allowed_or_default q.allowed_ips)
    → read_lines
        (lines_if (not (q.preshared_key =s "")) (("PresharedKey = " +s q.preshared_key) ∷ [])
          ++ ("AllowedIPs = " +s allowed_or_default q.allowed_ips) ∷ [])
        (record before {
          cur = some (record blank_peer { public_key = q.public_key });
          in_peer = true;
        })
      ≡ record before { cur = some (shown q); in_peer = true }
unfolding starts trim_space
read-preshared q before (inl bare) allowed = rw bare (read-allowed q before allowed)
read-preshared q before (inr clean) allowed = rw clean.2 (
    ap (read_trimmed (trim_space ("AllowedIPs = " +s allowed_or_default q.allowed_ips))) (
      read-entry "PresharedKey " q.preshared_key (record blank_peer { public_key = q.public_key })
        before (starts-Starts "PresharedKey = " refl) refl clean)
    ∙ read-allowed q before allowed)

read-peer :
    (q : AwgServerPeer) (r : Reading)
    → (q.public_key =s "") ≡ false
    → IsTidy q
    → read_lines (peer_lines q) r
      ≡ record r { peers = flushed r.peers r.cur; cur = some (shown q); in_peer = true }
unfolding peer_lines starts trim_space
read-peer q r keyed (inl unkeyed) = absurd (cc)
read-peer q r keyed (inr (key, (psk, allowed))) =
    let before : Reading = record r { peers = flushed r.peers r.cur } in
    let rest =
      lines_if (not (q.preshared_key =s "")) (("PresharedKey = " +s q.preshared_key) ∷ [])
      ++ ("AllowedIPs = " +s allowed_or_default q.allowed_ips) ∷ [] in
    rw keyed (
      ap (read_lines rest) (
        read-entry "PublicKey " q.public_key blank_peer before (starts-Starts "PublicKey = " refl)
          refl key)
      ∙ read-preshared q before psk allowed)

peer_lines-unkeyed : (q : AwgServerPeer) → (q.public_key =s "") ≡ true → peer_lines q ≡ []
unfolding peer_lines
peer_lines-unkeyed q h = rw h refl

read-peers :
    (qs : List AwgServerPeer) (r : Reading)
    → All IsTidy qs
    → read_result (read_lines (peers_lines qs ++ "" ∷ []) r)
      ≡ (join_lines r.iface_lines, flushed r.peers r.cur ++ map shown (keep has_key qs))
unfolding trim_space
read-peers [] r h =
    ap (λ ps. (join_lines r.iface_lines, ps)) (sym (append-nil (flushed r.peers r.cur)))
read-peers (q ∷ qs) r (tidy, h) = elim (Bool-cases (q.public_key =s "")) [
  | inl unkeyed ↦ rw (unkeyed, peer_lines-unkeyed q unkeyed) (read-peers qs r h)
  | inr keyed ↦
      let r' : Reading = record r {
        peers = flushed r.peers r.cur;
        cur = some (shown q);
        in_peer = true;
      } in
      ap (λ ls. read_result (read_lines ls r))
        (List.append_assoc (peer_lines q) (peers_lines qs) ("" ∷ []))
      ∙ ap read_result (
          read_lines-append (peer_lines q) (peers_lines qs ++ "" ∷ []) r
          ∙ ap (read_lines (peers_lines qs ++ "" ∷ [])) (read-peer q r keyed tidy))
      ∙ read-peers qs r' h
      ∙ rw keyed (
          ap (λ ps. (join_lines r.iface_lines, ps))
            (List.append_assoc (flushed r.peers r.cur) (shown q ∷ [])
              (map shown (keep has_key qs))))
]

-- A configuration of values without line feeds, whose peers have neither blank values nor spaces around them, is
-- read as it was written: the lines of the interface section, and the keys and addresses of the peers that have a
-- key, in their order. Preshared keys are not among what is read.
pub split_awg_conf-render_server_awg_conf :
    (to_base64 : String → Option String) (p : AwgServerConfParams)
    → All (λ l. has_char 10 l ≡ false) (conf_lines to_base64 p)
    → All IsTidy p.peers
    → split_awg_conf (render_server_awg_conf to_base64 p) ≡ (
      join_lines (map trim_space (interface_lines to_base64 p)),
      map shown (keep has_key p.peers),
    )
unfolding split_awg_conf render_server_awg_conf trim_space
split_awg_conf-render_server_awg_conf to_base64 p one_line tidy =
    let iface = interface_lines to_base64 p in
    let peers = peers_lines p.peers in
    ap (λ ls. read_result (read_lines ls nothing_read))
      (split_lines-written (conf_lines to_base64 p) one_line)
    ∙ header (List.append_assoc iface peers ("" ∷ []))
    ∙ ap read_result (
        read_lines-append iface (peers ++ "" ∷ []) nothing_read
        ∙ ap (read_lines (peers ++ "" ∷ []))
            (read_lines-interface iface [] (interface_lines-Starts to_base64 p)))
    ∙ read-peers p.peers (record nothing_read { iface_lines = map trim_space iface }) tidy
  where
    header :
        {ls ms : List String}
        → ls ≡ ms
        → read_result (read_lines ("[Interface]" ∷ ls) nothing_read)
          ≡ read_result (read_lines ms nothing_read)
    header e = ap (λ ls. read_result (read_lines ls nothing_read)) e
