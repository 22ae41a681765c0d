-- ===== src/Awg/Split.antt =====
-- The reader of a configuration: `splitAWGConf` of internal/chain/awg_peersync.go.
pub mod Texts
pub mod Interface
pub mod Roundtrip
pub mod Preshared
use Prim.Native.Char.{code}
use Prim.Native.String
use angry_box.Prelude.{
  ℕ, ◌≡◌, refl, String, Bool, true, false, List, [], ◌∷◌, ◌++◌, Option, none, some, ◌==◌, ◌=s◌,
  if◌then◌else◌,
}
use angry_box.Prelude.Decimal.{◌+s◌}
use angry_box.Prelude.Text.{trim_space}
use angry_box.Awg.Conf.{AwgServerPeer}

abbrev pub cons_line : String → List String → List String
cons_line c [] = c ∷ []
cons_line c (s ∷ ss) = (c +s s) ∷ ss

-- `strings.Split(s, "\n")`
abbrev pub split_lines : String → List String
split_lines String.[] = "" ∷ []
split_lines (String.◌∷◌ c s) =
    let rest = split_lines s in if code c == 10 then "" ∷ rest else cons_line (String.◌∷◌ c "") rest

abbrev pub cons_cut : String → Option (String × String) → Option (String × String)
cons_cut c none = none
cons_cut c (some (k, v)) = some (c +s k, v)

-- `strings.Cut(s, "=")`
abbrev pub cut : String → Option (String × String)
cut String.[] = none
cut (String.◌∷◌ c s) =
    let rest = cut s in if code c == 61 then some ("", s) else cons_cut (String.◌∷◌ c "") rest

-- `strings.Join(ls, "\n")`
abbrev pub join_lines : List String → String
join_lines [] = ""
join_lines (l ∷ []) = l
join_lines (l ∷ m ∷ ls) = l +s "\n" +s join_lines (m ∷ ls)

pub record Reading : Type 0 where
  pub iface_lines : List String
  pub peers : List AwgServerPeer
  pub cur : Option AwgServerPeer
  pub in_peer : Bool

abbrev pub blank_peer : AwgServerPeer
blank_peer = record { public_key = ""; allowed_ips = ""; preshared_key = "" }

abbrev pub flushed : List AwgServerPeer → Option AwgServerPeer → List AwgServerPeer
flushed ps none = ps
flushed ps (some q) = ps ++ q ∷ []

abbrev pub set_field : String → String → AwgServerPeer → AwgServerPeer
set_field k v q =
    if k =s "PublicKey"
    then record q { public_key = v }
    else if k =s "AllowedIPs"
    then record q { allowed_ips = v }
    else q

abbrev pub read_entry : Option (String × String) → Option AwgServerPeer → Option AwgServerPeer
read_entry none cur = cur
read_entry (some (k, v)) none = none
read_entry (some (k, v)) (some q) = some (set_field (trim_space k) (trim_space v) q)

abbrev pub read_trimmed : String → Reading → Reading
read_trimmed line r =
    if line =s ""
    then r
    else if line =s "[Interface]"
    then record r { in_peer = false }
    else if line =s "[Peer]"
    then record r { peers = flushed r.peers r.cur; cur = some blank_peer; in_peer = true }
    else if r.in_peer
    then record r { cur = read_entry (cut line) r.cur }
    else record r { iface_lines = r.iface_lines ++ line ∷ [] }

abbrev pub read_lines : List String → Reading → Reading
read_lines [] r = r
read_lines (l ∷ ls) r = read_lines ls (read_trimmed (trim_space l) r)

abbrev pub nothing_read : Reading
nothing_read = record { iface_lines = []; peers = []; cur = none; in_peer = false }

abbrev pub read_result : Reading → String × List AwgServerPeer
read_result r = (join_lines r.iface_lines, flushed r.peers r.cur)

-- `splitAWGConf`
unfoldable pub split_awg_conf : String → String × List AwgServerPeer
split_awg_conf content = read_result (read_lines (split_lines content) nothing_read)
