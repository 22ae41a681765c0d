-- ===== src/Awg/Conf.antt =====
-- The server side awg-quick configuration: `RenderServerAWGConf` of internal/chain/awg_server.go, as the list of the
-- lines that it writes. The conversion of the header protection key, which decodes hex and encodes base64, is an
-- argument. Ports, sizes and counts are not negative.
use angry_box.Prelude.{
  ℕ, String, Bool, false, not, ◌&&◌, List, [], ◌∷◌, ◌++◌, Option, none, some, ◌==◌, ◌=s◌, ltb,
  if◌then◌else◌,
}
use angry_box.Prelude.Decimal.{decimal, ◌+s◌}
use angry_box.Awg.{awg_version_2, awg_version_at_least}

pub record AwgServerPeer : Type 0 where
  pub public_key : String
  pub allowed_ips : String
  pub preshared_key : String

pub record AmneziaOptions : Type 0 where
  pub jc : ℕ
  pub jmin : ℕ
  pub jmax : ℕ
  pub s1 : ℕ
  pub s2 : ℕ
  pub s3 : ℕ
  pub s4 : ℕ
  pub h1 : String
  pub h2 : String
  pub h3 : String
  pub h4 : String
  pub i1 : String
  pub i2 : String
  pub i3 : String
  pub i4 : String
  pub i5 : String
  pub itime : ℕ

-- The fields of `AWGObfsMaterial` that the configuration has.
pub record HeaderProtection : Type 0 where
  pub header_protection_key : String
  pub content_padding_addition : String
  pub rekey_after_time : String
  pub random_trailers : Bool
  pub disable_cookies : Bool

pub record AwgServerConfParams : Type 0 where
  pub server_private_key : String
  pub listen_port : ℕ
  pub tunnel_address : String
  pub mtu : ℕ
  pub amnezia : Option AmneziaOptions
  pub awg_version : String
  pub awg3 : Option HeaderProtection
  pub peers : List AwgServerPeer
  pub tun_interface : String
  pub interface_name : String

abbrev pub lines_if : Bool → List String → List String
lines_if b ls = if b then ls else []

abbrev pub or_text : String → String → String
or_text default s = if s =s "" then default else s

abbrev pub line_if : Bool → String → String → List String
line_if b k v = lines_if b ((k +s v) ∷ [])

abbrev pub junk_lines : AmneziaOptions → List String
junk_lines a =
    ("Jc = " +s decimal a.jc)
    ∷ ("Jmin = " +s decimal a.jmin)
    ∷ ("Jmax = " +s decimal a.jmax)
    ∷ ("S1 = " +s decimal a.s1)
    ∷ ("S2 = " +s decimal a.s2)
    ∷ []

abbrev pub late_junk_lines : AmneziaOptions → List String
late_junk_lines a = ("S3 = " +s decimal a.s3) ∷ ("S4 = " +s decimal a.s4) ∷ []

abbrev pub header_lines : AmneziaOptions → List String
header_lines a = ("H1 = " +s a.h1) ∷ ("H2 = " +s a.h2) ∷ ("H3 = " +s a.h3) ∷ ("H4 = " +s a.h4) ∷ []

abbrev pub cps_lines : AmneziaOptions → List String
cps_lines a =
    ("I1 = " +s a.i1)
    ∷ ("I2 = " +s a.i2)
    ∷ ("I3 = " +s a.i3)
    ∷ ("I4 = " +s a.i4)
    ∷ ("I5 = " +s a.i5)
    ∷ []

abbrev pub has_late_junk : String → Bool
has_late_junk version = awg_version_at_least (or_text awg_version_2 version) awg_version_2

-- `writeAmneziaConfLines`
unfoldable pub write_amnezia_conf_lines : AmneziaOptions → Bool → String → List String
write_amnezia_conf_lines a include_cps version =
    junk_lines a
    ++ (lines_if (has_late_junk version) (late_junk_lines a)
        ++ (lines_if (not (a.h1 =s "")) (header_lines a)
            ++ lines_if (include_cps && not (a.i1 =s "")) (cps_lines a)))

abbrev pub padding_lines : HeaderProtection → List String
padding_lines m =
    line_if (not (m.content_padding_addition =s "")) "ContentPaddingAddition = "
      m.content_padding_addition

abbrev pub rekey_lines : HeaderProtection → List String
rekey_lines m = line_if (not (m.rekey_after_time =s "")) "RekeyAfterTime = " m.rekey_after_time

abbrev pub with_key : Option String → HeaderProtection → List String
with_key none m = []
with_key (some key) m =
    ("HeaderProtectionKey = " +s key)
    ∷ (padding_lines m
        ++ (rekey_lines m
            ++ (line_if m.random_trailers "RandomTrailers = " "on"
                ++ line_if m.disable_cookies "DisableCookies = " "on")))

abbrev pub amnezia_lines : Option AmneziaOptions → String → List String
amnezia_lines none version = []
amnezia_lines (some a) version = write_amnezia_conf_lines a false version

-- `iptables -C … || iptables -A …` for packets from one interface to the other.
abbrev pub accept_text : String → String → String
accept_text from to =
    "iptables -C FORWARD -i " +s from +s " -o " +s to
    +s " -j ACCEPT 2>/dev/null || iptables -A FORWARD -i " +s from +s " -o " +s to +s " -j ACCEPT"

abbrev pub drop_text : String → String → String
drop_text from to =
    "iptables -D FORWARD -i " +s from +s " -o " +s to +s " -j ACCEPT 2>/dev/null || true"

abbrev pub forward_lines : String → String → List String
forward_lines iface tun =
    ("PostUp = echo 1 > /proc/sys/net/ipv4/ip_forward; sysctl -w net.ipv4.conf."
      +s iface
      +s ".rp_filter=0 2>/dev/null; "
      +s accept_text iface tun
      +s "; "
      +s accept_text tun iface)
    ∷ ("PostDown = " +s drop_text iface tun +s "; " +s drop_text tun iface)
    ∷ []

abbrev pub allowed_or_default : String → String
allowed_or_default allowed = or_text "10.8.0.2/32" allowed

-- The section of a peer; a user without a key has none.
unfoldable pub peer_lines : AwgServerPeer → List String
peer_lines q =
    if q.public_key =s ""
    then []
    else ""
      ∷ "[Peer]"
      ∷ ("PublicKey = " +s q.public_key)
      ∷ (lines_if (not (q.preshared_key =s "")) (("PresharedKey = " +s q.preshared_key) ∷ [])
          ++ ("AllowedIPs = " +s allowed_or_default q.allowed_ips) ∷ [])

abbrev pub peers_lines : List AwgServerPeer → List String
peers_lines [] = []
peers_lines (q ∷ qs) = peer_lines q ++ peers_lines qs

-- Every line with its line feed.
abbrev pub written : List String → String
written [] = ""
written (l ∷ ls) = l +s "\n" +s written ls

abbrev pub address_lines : AwgServerConfParams → List String
address_lines p = ("Address = " +s or_text "10.8.0.1/24" p.tunnel_address) ∷ []

abbrev pub key_lines : AwgServerConfParams → List String
key_lines p =
    ("PrivateKey = " +s p.server_private_key)
    ∷ ("MTU = " +s decimal (if p.mtu == 0 then 1420 else p.mtu))
    ∷ []

abbrev pub overlay_lines : AwgServerConfParams → List String
overlay_lines p =
    lines_if (not (p.tun_interface =s ""))
      (forward_lines (or_text "awg0" p.interface_name) p.tun_interface)

module _ (to_base64 : String → Option String) where
  -- `writeAWG3ConfLines`, with the test of its caller.
  abbrev pub awg3_lines : Option HeaderProtection → List String
  awg3_lines none = []
  awg3_lines (some m) =
      lines_if (not (m.header_protection_key =s ""))
        (with_key (to_base64 m.header_protection_key) m)

  -- The lines of the interface section after its header.
  unfoldable pub interface_lines : AwgServerConfParams → List String
  interface_lines p =
      address_lines p
      ++ (line_if (ltb 0 p.listen_port) "ListenPort = " (decimal p.listen_port)
          ++ (key_lines p
              ++ (amnezia_lines p.amnezia p.awg_version ++ (awg3_lines p.awg3 ++ overlay_lines p))))

  abbrev pub conf_lines : AwgServerConfParams → List String
  conf_lines p = "[Interface]" ∷ (interface_lines p ++ peers_lines p.peers)

  -- `RenderServerAWGConf`
  unfoldable pub render_server_awg_conf : AwgServerConfParams → String
  render_server_awg_conf p = written (conf_lines p)
