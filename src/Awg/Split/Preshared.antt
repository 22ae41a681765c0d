-- ===== src/Awg/Split/Preshared.antt =====
-- The preshared keys of the peers.
use angry_box.Prelude.{
  ◌≡◌, refl, sym, ap, ◌∙◌, inl, inr, String, false, List, [], ◌∷◌, map, Option, ◌=s◌, keep, All,
  Bool-cases,
}
use angry_box.Prelude.Text.{trim_space}
use angry_box.Awg.Conf.{
  AwgServerPeer, AwgServerConfParams, interface_lines, conf_lines, render_server_awg_conf,
}
use angry_box.Awg.Split.{join_lines, split_awg_conf}
use angry_box.Awg.Split.Texts.{has_char}
use angry_box.Awg.Split.Roundtrip.{IsTidy, shown, has_key, split_awg_conf-render_server_awg_conf}

abbrev pub rekeyed_peers : (AwgServerPeer → String) → List AwgServerPeer → List AwgServerPeer
rekeyed_peers f qs =
    map (λ (q : AwgServerPeer). let r : AwgServerPeer = record q { preshared_key = f q } in r) qs

-- The configuration with other preshared keys.
abbrev pub rekeyed : (AwgServerPeer → String) → AwgServerConfParams → AwgServerConfParams
rekeyed f p = record p { peers = rekeyed_peers f p.peers }

shown-rekeyed :
    (f : AwgServerPeer → String) (qs : List AwgServerPeer)
    → map shown (keep has_key (rekeyed_peers f qs)) ≡ map shown (keep has_key qs)
shown-rekeyed f [] = refl
shown-rekeyed f (q ∷ qs) = elim (Bool-cases (q.public_key =s "")) [
  | inl unkeyed ↦ rw unkeyed (shown-rekeyed f qs)
  | inr keyed ↦ rw keyed (ap (λ ps. shown q ∷ ps) (shown-rekeyed f qs))
]

-- Whatever preshared keys the peers are given, old and new configuration are read as the same, for values without
-- line feeds and tidy peers.
pub split_awg_conf-rekeyed :
    (to_base64 : String → Option String) (f : AwgServerPeer → String) (p : AwgServerConfParams)
    → All (λ l. has_char 10 l ≡ false) (conf_lines to_base64 p)
    → All (λ l. has_char 10 l ≡ false) (conf_lines to_base64 (rekeyed f p))
    → All IsTidy p.peers
    → All IsTidy (rekeyed_peers f p.peers)
    → split_awg_conf (render_server_awg_conf to_base64 (rekeyed f p))
      ≡ split_awg_conf (render_server_awg_conf to_base64 p)
unfolding interface_lines
split_awg_conf-rekeyed to_base64 f p lines lines' tidy tidy' =
    split_awg_conf-render_server_awg_conf to_base64 (rekeyed f p) lines' tidy'
    ∙ ap
        (λ (ps : List AwgServerPeer).
          (join_lines (map trim_space (interface_lines to_base64 p)), ps))
        (shown-rekeyed f p.peers)
    ∙ sym (split_awg_conf-render_server_awg_conf to_base64 p lines tidy)
