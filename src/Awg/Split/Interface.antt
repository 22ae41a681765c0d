-- ===== src/Awg/Split/Interface.antt =====
-- The interface section of a written configuration, read back.
use angry_box.Prelude.{
  ◌&&◌, ◌==◌, ◌≡◌, refl, sym, ap, ◌∙◌, String, Bool, true, false, List, [], ◌∷◌, ◌++◌, map, Option,
  none, some, ◌=s◌, if◌then◌else◌, ltb, not, All, All-append,
}
use Prim.Native.Char.{code}
use mathlib.Core.List.{append_assoc, append-nil}
use angry_box.Prelude.Decimal.{decimal, ◌+s◌}
use angry_box.Prelude.Text.{is_space, trim_space}
use angry_box.Awg.Conf.{
  AwgServerConfParams, AmneziaOptions, HeaderProtection, lines_if, or_text, with_key, amnezia_lines,
  awg3_lines, forward_lines, write_amnezia_conf_lines, interface_lines, accept_text, drop_text,
  line_if, junk_lines, late_junk_lines, header_lines, has_late_junk, padding_lines, rekey_lines,
  address_lines, key_lines, overlay_lines,
}
use angry_box.Awg.Split.{nothing_read, Reading, read_trimmed, read_lines}
use angry_box.Awg.Split.Texts.{Starts, Starts-append, Starts-tests, trim_space-Starts}

pub read_lines-append :
    (ls ms : List String) (r : Reading) → read_lines (ls ++ ms) r ≡ read_lines ms (read_lines ls r)
read_lines-append [] ms r = refl
read_lines-append (l ∷ ls) ms r = read_lines-append ls ms (read_trimmed (trim_space l) r)

-- Before the first peer every line that starts with neither a space nor a bracket is kept, without the spaces
-- around it.
pub read_lines-interface :
    (ls xs : List String)
    → All Starts ls
    → read_lines ls (record nothing_read { iface_lines = xs })
      ≡ record nothing_read { iface_lines = xs ++ map trim_space ls }
read_lines-interface [] xs h =
    ap (λ ys. record nothing_read { iface_lines = ys }) (sym (append-nil xs))
read_lines-interface (l ∷ ls) xs (p, h) =
    let (empty, interface, peer) = Starts-tests (trim_space l) (trim_space-Starts l p) in
    rw (empty, interface, peer)
      (read_lines-interface ls (xs ++ trim_space l ∷ []) h
        ∙ ap (λ ys. record nothing_read { iface_lines = ys })
            (append_assoc xs (trim_space l ∷ []) (map trim_space ls)))

unfoldable pub starts : String → Bool
starts String.[] = false
starts (String.◌∷◌ c s) = not (is_space c) && not (code c == 91)

not_both : (a b : Bool) → (not a && not b) ≡ true → (a ≡ false) × (b ≡ false)
not_both false false h = (refl, refl)
not_both false true h = absurd (cc)
not_both true b h = absurd (cc)

pub starts-Starts : (k : String) → starts k ≡ true → Starts k
unfolding starts
starts-Starts String.[] h = absurd (cc)
starts-Starts (String.◌∷◌ c s) h =
    let (solid, plain) = not_both (is_space c) (code c == 91) h in (c, s, refl, solid, plain)

-- A line that is written as a literal with a value after it.
entry : (k v : String) → starts k ≡ true → Starts (k +s v)
entry k v h = Starts-append k v (starts-Starts k h)

Starts-lines_if : (b : Bool) (ls : List String) → All Starts ls → All Starts (lines_if b ls)
Starts-lines_if true ls h = h
Starts-lines_if false ls h = tt

line_if-Starts : (b : Bool) (k v : String) → starts k ≡ true → All Starts (line_if b k v)
line_if-Starts true k v h = (entry k v h, tt)
line_if-Starts false k v h = tt

Starts-amnezia :
    (o : Option AmneziaOptions) (version : String) → All Starts (amnezia_lines o version)
unfolding write_amnezia_conf_lines starts
Starts-amnezia none version = tt
Starts-amnezia (some a) version =
    let late = lines_if (has_late_junk version) (late_junk_lines a) in
    let headers = lines_if (not (a.h1 =s "")) (header_lines a) in
    All-append Starts (junk_lines a) (late ++ (headers ++ []))
      (
        entry "Jc = " (decimal a.jc) refl,
        (
          entry "Jmin = " (decimal a.jmin) refl,
          (
            entry "Jmax = " (decimal a.jmax) refl,
            (entry "S1 = " (decimal a.s1) refl, (entry "S2 = " (decimal a.s2) refl, tt)),
          ),
        ),
      )
      (All-append Starts late (headers ++ [])
        (Starts-lines_if (has_late_junk version) (late_junk_lines a)
          (entry "S3 = " (decimal a.s3) refl, (entry "S4 = " (decimal a.s4) refl, tt)))
        (All-append Starts headers []
          (Starts-lines_if (not (a.h1 =s "")) (header_lines a) (
            entry "H1 = " a.h1 refl,
            (entry "H2 = " a.h2 refl, (entry "H3 = " a.h3 refl, (entry "H4 = " a.h4 refl, tt))),
          ))
          tt))

Starts-with_key : (o : Option String) (m : HeaderProtection) → All Starts (with_key o m)
unfolding starts
Starts-with_key none m = tt
Starts-with_key (some key) m =
    let trailers = line_if m.random_trailers "RandomTrailers = " "on" in
    let cookies = line_if m.disable_cookies "DisableCookies = " "on" in
    (
      entry "HeaderProtectionKey = " key refl,
      All-append Starts (padding_lines m) (rekey_lines m ++ (trailers ++ cookies))
          (line_if-Starts (not (m.content_padding_addition =s "")) "ContentPaddingAddition = "
            m.content_padding_addition refl)
          (All-append Starts (rekey_lines m) (trailers ++ cookies)
            (line_if-Starts (not (m.rekey_after_time =s "")) "RekeyAfterTime = " m.rekey_after_time
              refl)
            (All-append Starts trailers cookies
              (line_if-Starts m.random_trailers "RandomTrailers = " "on" refl)
              (line_if-Starts m.disable_cookies "DisableCookies = " "on" refl))),
    )

Starts-awg3 :
    (to_base64 : String → Option String) (o : Option HeaderProtection)
    → All Starts (awg3_lines to_base64 o)
Starts-awg3 to_base64 none = tt
Starts-awg3 to_base64 (some m) =
    Starts-lines_if (not (m.header_protection_key =s ""))
      (with_key (to_base64 m.header_protection_key) m)
      (Starts-with_key (to_base64 m.header_protection_key) m)

Starts-overlay : (p : AwgServerConfParams) → All Starts (overlay_lines p)
unfolding starts
Starts-overlay p =
    let iface = or_text "awg0" p.interface_name in
    Starts-lines_if (not (p.tun_interface =s "")) (forward_lines iface p.tun_interface) (
      entry "PostUp = echo 1 > /proc/sys/net/ipv4/ip_forward; sysctl -w net.ipv4.conf."
          (iface
            +s ".rp_filter=0 2>/dev/null; "
            +s accept_text iface p.tun_interface
            +s "; "
            +s accept_text p.tun_interface iface)
          refl,
      (
        entry "PostDown = "
            (drop_text iface p.tun_interface +s "; " +s drop_text p.tun_interface iface) refl,
        tt,
      ),
    )

pub interface_lines-Starts :
    (to_base64 : String → Option String) (p : AwgServerConfParams)
    → All Starts (interface_lines to_base64 p)
unfolding interface_lines starts
interface_lines-Starts to_base64 p =
    let port = line_if (ltb 0 p.listen_port) "ListenPort = " (decimal p.listen_port) in
    let amnezia = amnezia_lines p.amnezia p.awg_version in
    let third = awg3_lines to_base64 p.awg3 in
    let last = overlay_lines p in
    All-append Starts (address_lines p) (port ++ (key_lines p ++ (amnezia ++ (third ++ last))))
      (entry "Address = " (or_text "10.8.0.1/24" p.tunnel_address) refl, tt)
      (All-append Starts port (key_lines p ++ (amnezia ++ (third ++ last)))
        (line_if-Starts (ltb 0 p.listen_port) "ListenPort = " (decimal p.listen_port) refl)
        (All-append Starts (key_lines p) (amnezia ++ (third ++ last))
          (
            entry "PrivateKey = " p.server_private_key refl,
            (entry "MTU = " (decimal (if p.mtu == 0 then 1420 else p.mtu)) refl, tt),
          )
          (All-append Starts amnezia (third ++ last) (Starts-amnezia p.amnezia p.awg_version)
            (All-append Starts third last (Starts-awg3 to_base64 p.awg3) (Starts-overlay p)))))
