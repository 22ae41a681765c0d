-- ===== src/Awg/Sync.antt =====
-- The peers of a running interface: `syncAWGPeers` and `tryPeerSync` of internal/chain/awg_peersync.go. The node is
-- an argument: what its commands answer, and the state that they leave. Keys are ASCII texts.
pub mod Wanted
pub mod Exact
use Prim.Native.String.{count}
use angry_box.Prelude.{
  ℕ, ◌≡◌, String, Bool, true, false, not, List, [], ◌∷◌, map, Option, none, some, ◌=s◌, ltb,
  if◌then◌else◌, any, keep,
}
use angry_box.Prelude.Text.{trim_space}
use angry_box.Awg.Conf.{AwgServerPeer, or_text}
use angry_box.Awg.Split.{split_lines, split_awg_conf}

-- The commands on one interface of a node; `none` and `false` where a command fails.
pub record Node : Type 1 where
  pub State : Type 0
  -- `systemctl is-active`, `cat` of the configuration, `awg show … peers`
  pub is_active : State → Option String
  pub conf : State → Option String
  pub show_peers : State → Option String
  -- `awg set … peer … allowed-ips …`, `awg set … peer … remove`
  pub set_peer : String → String → State → Bool × State
  pub remove_peer : String → State → Bool × State
  -- The order in which Go goes through a map with these keys.
  pub map_order : List String → List String

abbrev pub contains : String → List String → Bool
contains k ks = any (λ i. i =s k) ks

-- What the commands do, by their documentation: one line for each peer; a peer that is set has the addresses given,
-- and takes them from a peer that had one of them, so that the other peers are left alone where theirs are `apart`
-- from these; a peer that is dropped is gone, and the others are left alone.
pub record IsInterface (n : Node) : Type 0 where
  pub peer : n.State → String → Option String
  -- Two lists of addresses have no network in common.
  pub apart : String → String → Bool
  pub shows :
      (s : n.State) (out k a : String)
      → n.show_peers s ≡ some out
      → (k =s "") ≡ false
      → peer s k ≡ some a
      → contains k (map trim_space (split_lines out)) ≡ true
  pub sets : (k a : String) (s s' : n.State) → n.set_peer k a s ≡ (true, s') → peer s' k ≡ some a
  pub spares :
      (k a j : String) (s s' : n.State)
      → n.set_peer k a s ≡ (true, s')
      → (k =s j) ≡ false
      → ((b : String) → peer s j ≡ some b → apart a b ≡ true)
      → peer s' j ≡ peer s j
  pub removes :
      (k j : String) (s s' : n.State)
      → n.remove_peer k s ≡ (true, s')
      → peer s' j ≡ (if k =s j then none else peer s j)
  pub orders : (ks : List String) (k : String) → contains k (n.map_order ks) ≡ contains k ks

pub data SyncResult : Type 0 where
  synced failed panicked : SyncResult

-- The message of a failed command has the first eight bytes of the key.
abbrev pub failure : String → SyncResult
failure key = if ltb (count key) 8 then panicked else failed

abbrev pub live_keys : String → List String
live_keys out = keep (λ k. not (k =s "")) (map trim_space (split_lines out))

abbrev pub all_traffic : String → String
all_traffic allowed = or_text "0.0.0.0/0, ::/0" allowed

abbrev pub is_wanted : String → List AwgServerPeer → Bool
is_wanted k ps = any (λ p. p.public_key =s k) ps

abbrev pub is_active_text : Option String → Bool
is_active_text none = false
is_active_text (some out) = trim_space out =s "active"

abbrev pub same_interface : String → Option String → Bool
same_interface content none = false
same_interface content (some out) = (split_awg_conf out).0 =s (split_awg_conf content).0

module _ (n : Node) where
  abbrev pub after :
      String → Bool × n.State → (n.State → SyncResult × n.State) → SyncResult × n.State
  after key (true, s) rest = rest s
  after key (false, s) rest = (failure key, s)

  -- The loop over the desired peers.
  unfoldable pub set_all : List AwgServerPeer → n.State → SyncResult × n.State
  set_all [] s = (synced, s)
  set_all (p ∷ ps) s =
      if p.public_key =s ""
      then set_all ps s
      else after p.public_key (n.set_peer p.public_key (all_traffic p.allowed_ips) s) (set_all ps)

  -- The loop over the peers that the interface had.
  unfoldable pub remove_all : List AwgServerPeer → List String → n.State → SyncResult × n.State
  remove_all want [] s = (synced, s)
  remove_all want (k ∷ ks) s =
      if is_wanted k want
      then remove_all want ks s
      else after k (n.remove_peer k s) (remove_all want ks)

  abbrev pub then_remove :
      List AwgServerPeer → List String → SyncResult × n.State → SyncResult × n.State
  then_remove want ks (synced, s) = remove_all want ks s
  then_remove want ks (failed, s) = (failed, s)
  then_remove want ks (panicked, s) = (panicked, s)

  abbrev pub sync_shown : List AwgServerPeer → Option String → n.State → SyncResult × n.State
  sync_shown desired none s = (failed, s)
  sync_shown desired (some out) s =
      then_remove desired (n.map_order (live_keys out)) (set_all desired s)

  -- `syncAWGPeers`
  unfoldable pub sync_awg_peers : List AwgServerPeer → n.State → SyncResult × n.State
  sync_awg_peers desired s = sync_shown desired (n.show_peers s) s

  -- What `tryPeerSync` answers: that the sync was applied, that the caller is to restart the interface, or
  -- nothing, since it panicked.
  abbrev pub applied : SyncResult × n.State → Option Bool × n.State
  applied (synced, s) = (some true, s)
  applied (failed, s) = (some false, s)
  applied (panicked, s) = (none, s)

  -- `tryPeerSync`
  unfoldable pub try_peer_sync : String → n.State → Option Bool × n.State
  try_peer_sync content s =
      if not (is_active_text (n.is_active s))
      then (some false, s)
      else if not (same_interface content (n.conf s))
      then (some false, s)
      else applied (sync_awg_peers (split_awg_conf content).1 s)
