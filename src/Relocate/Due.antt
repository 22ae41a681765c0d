-- ===== src/Relocate/Due.antt =====
-- When a relocation is due.
use angry_box.Store.Laws.{ok-injective}
use angry_box.Prelude.{
  ◌⊎◌, ◌==◌, ==_iff, first, ◌%◌, ◌^◌, leb, leb→le, ℕ, zero, suc, ◌+◌, ◌*◌, ◌≤◌, ◌<◌, ◌≡◌, ◌≢◌, ◌↔◌,
  refl, sym, ap, ◌∙◌, String, true, false, arith, none, some, Option, Bool-cases, inl, inr,
}
use angry_box.Prelude.Int.{ℤ, pos, negsuc, ltb_ℤ}
use angry_box.Model.Base.{Time, AutoRelocateConfig}
use angry_box.Model.Panel.{NodeInfo, PanelSettings}
use angry_box.Relocate.Spares.{is_eligible, pick_spare-first}
use angry_box.Store.{StoreFile, holds, Result, ok, err, Disk}
use angry_box.Store.Nodes.{hosted, get_node_info}
use angry_box.Store.Settings.{get_settings}
use angry_box.Relocate.{
  hour, is_cooling, go, decide_spare, decide_config, decide, pick_spare, auto_relocate_decision,
  cooldown_of, time_sub, signed_64,
}

-- What the steps of the decision must give for the node to move onto the spare.
record Decided (d : Disk) (id : String) (now : Time) (spare : NodeInfo) : Type 0 where
  settings : PanelSettings
  cfg : AutoRelocateConfig
  node : NodeInfo
  read : get_settings d ≡ ok settings
  configured : settings.auto_relocate ≡ some cfg
  enabled : cfg.enabled ≡ true
  found : get_node_info id d ≡ ok node
  own : node.spare ≡ false
  opted_in : node.auto_relocate ≡ true
  cooled : is_cooling cfg.cooldown_hours node.last_auto_relocate_at now ≡ false
  picked : pick_spare id d ≡ ok (some spare)

decide_spare-go :
    (r : Result (Option NodeInfo)) (s : NodeInfo) → decide_spare r ≡ go s → r ≡ ok (some s)
decide_spare-go (err e) s h = absurd (cc)
decide_spare-go (ok none) s h = absurd (cc)
decide_spare-go (ok (some t)) s h = cc

module _ (d : Disk) (id : String) (now : Time) (s : NodeInfo) where
  Decided-config :
      (st : Result PanelSettings) (node : Result NodeInfo) (o : Option AutoRelocateConfig)
      (settings : PanelSettings)
      → get_settings d ≡ st
      → get_node_info id d ≡ node
      → st ≡ ok settings
      → settings.auto_relocate ≡ o
      → decide_config now (pick_spare id d) node o ≡ go s
      → Decided d id now s
  Decided-config st (ok node) (some cfg) settings read found is set h = record {
    settings = settings;
    cfg = cfg;
    node = node;
    read = read ∙ is;
    configured = set;
    enabled = ground arith;
    found = found;
    own = ground arith;
    opted_in = ground arith;
    cooled = ground arith;
    picked = decide_spare-go _ s (ground arith);
  }
  Decided-config st (err e) (some cfg) settings read found is set h = absurd (ground arith)
  Decided-config st node none settings read found is set h = absurd (cc)

  Decided-settings :
      (st : Result PanelSettings)
      → get_settings d ≡ st
      → decide now (pick_spare id d) (get_node_info id d) st ≡ go s
      → Decided d id now s
  Decided-settings (ok settings) read h =
      Decided-config (ok settings) (get_node_info id d) settings.auto_relocate settings read refl
        refl refl h
  Decided-settings (err e) read h = absurd (cc)

  decision-Decided : (auto_relocate_decision d id now ≡ go s) ↔ Decided d id now s
  unfolding auto_relocate_decision
  decision-Decided = (
    λ h. Decided-settings (get_settings d) refl h,
    λ due.
        ap (decide now (pick_spare id d) (get_node_info id d)) due.read
        ∙ ap (decide_config now (pick_spare id d) (get_node_info id d)) due.configured
        ∙ rw (due.enabled, due.found, due.own, due.opted_in, due.cooled, due.picked) refl,
  )

-- The cooldown in nanoseconds.
abbrev pub cooldown_ns : ℤ → ℕ
cooldown_ns (pos zero) = 6 * hour
cooldown_ns (pos (suc h)) = suc h * hour
cooldown_ns (negsuc h) = 6 * hour

signed_64-small : (n : ℕ) → n < 2 ^ 63 → signed_64 n ≡ pos n
signed_64-small n h = let e : n % 2 ^ 64 ≡ n = omega (arith, h) in ground (arith, e)

cooldown_of-small :
    (hours : ℤ) → cooldown_ns hours ≤ 2562047 * hour → cooldown_of hours ≡ pos (cooldown_ns hours)
cooldown_of-small (pos zero) small = refl
cooldown_of-small (pos (suc h)) small = signed_64-small (suc h * hour) (omega (arith, small))
cooldown_of-small (negsuc h) small = refl

time_sub-after :
    (now t : Time) (c : ℕ)
    → t ≤ now
    → now < t + c
    → c ≤ 2562047 * hour
    → ltb_ℤ (time_sub now t) (pos c) ≡ true
time_sub-after now t c le lt small = ground arith

is_cooling-inside :
    (hours : ℤ) (last now : Time)
    → cooldown_ns hours ≤ 2562047 * hour
    → last ≢ 0
    → last ≤ now
    → now < last + cooldown_ns hours
    → is_cooling hours last now ≡ true
is_cooling-inside hours last now small set le lt =
    rw (cooldown_of-small hours small) (
      let inside = time_sub-after now last (cooldown_ns hours) le lt small in
      ground (arith, inside))

time_sub-over :
    (now t : Time) (c : ℕ)
    → t + c ≤ now
    → c ≤ 2562047 * hour
    → ltb_ℤ (time_sub now t) (pos c) ≡ false
time_sub-over now t c le small = ground arith

time_sub-before : (now t : Time) (c : ℕ) → now < t → ltb_ℤ (time_sub now t) (pos c) ≡ true
time_sub-before now t c lt = ground arith

-- The cooldown is over: the node has not been relocated yet, or that long ago.
abbrev pub IsOver : ℤ → Time → Time → Type 0
IsOver hours last now = (last ≡ 0) ⊎ (last + cooldown_ns hours ≤ now)

is_cooling-IsOver :
    (hours : ℤ) (last now : Time)
    → cooldown_ns hours ≤ 2562047 * hour
    → is_cooling hours last now ≡ false
    → IsOver hours last now
is_cooling-IsOver hours last now small cooled = elim (Bool-cases (last == 0)) [
  | inl never ↦ inl ((==_iff last 0).0 never)
  | inr once ↦ elim (Bool-cases (leb (last + cooldown_ns hours) now)) [
    | inl over ↦ inr (leb→le _ _ over)
    | inr short ↦ elim (Bool-cases (leb last now)) [
      | inl past ↦
          let cooling =
            is_cooling-inside hours last now small (λ e. ground (arith, once, e)) (leb→le _ _ past)
              (ground (arith, short)) in
          absurd (cc)
      | inr ahead ↦
          let late = time_sub-before now last (cooldown_ns hours) (ground (arith, ahead)) in
          let cooling : is_cooling hours last now ≡ true =
            rw (cooldown_of-small hours small) (ground (arith, late, once)) in
          absurd (cc)
    ]
  ]
]

IsOver-is_cooling :
    (hours : ℤ) (last now : Time)
    → cooldown_ns hours ≤ 2562047 * hour
    → IsOver hours last now
    → is_cooling hours last now ≡ false
IsOver-is_cooling hours last now small (inl never) = ground (arith, never)
IsOver-is_cooling hours last now small (inr over) =
    rw (cooldown_of-small hours small)
      (let past = time_sub-over now last (cooldown_ns hours) over small in ground (arith, past))

-- What must hold for the node to move onto the spare, on a disk with the file `sf`.
pub record IsDue (sf : StoreFile) (d : Disk) (id : String) (now : Time) (s : NodeInfo)
    : Type 0 where
  pub settings : PanelSettings
  pub cfg : AutoRelocateConfig
  pub node : NodeInfo
  pub read : get_settings d ≡ ok settings
  pub configured : settings.auto_relocate ≡ some cfg
  pub enabled : cfg.enabled ≡ true
  pub found : get_node_info id d ≡ ok node
  pub own : node.spare ≡ false
  pub opted_in : node.auto_relocate ≡ true
  pub cooled : IsOver cfg.cooldown_hours node.last_auto_relocate_at now
  pub picked : first (is_eligible id sf) (hosted sf) ≡ some s

-- The cooldown of the settings is at most 2562047 hours, the longest that fits in a duration.
abbrev pub IsShort : Disk → Type 0
IsShort d =
    (settings : PanelSettings) (cfg : AutoRelocateConfig)
    → get_settings d ≡ ok settings
    → settings.auto_relocate ≡ some cfg
    → cooldown_ns cfg.cooldown_hours ≤ 2562047 * hour

-- With a cooldown of at most 2562047 hours, the decision is to move the node onto a spare exactly if relocation is
-- enabled, the node is on the disk, is no spare and has opted in, it was never relocated or the whole cooldown
-- (six hours where no positive number is set) has passed since, and the spare is the first record of the store
-- that has a host and is an unused spare.
pub decision-IsDue :
    (sf : StoreFile) (d : Disk) (id : String) (now : Time) (s : NodeInfo)
    → d.content ≡ holds sf
    → IsShort d
    → (auto_relocate_decision d id now ≡ go s) ↔ IsDue sf d id now s
decision-IsDue sf d id now s there short = (
  λ h.
      let due = (decision-Decided d id now s).0 h in
      record {
        settings = due.settings;
        cfg = due.cfg;
        node = due.node;
        read = due.read;
        configured = due.configured;
        enabled = due.enabled;
        found = due.found;
        own = due.own;
        opted_in = due.opted_in;
        cooled =
            is_cooling-IsOver due.cfg.cooldown_hours due.node.last_auto_relocate_at now
              (short due.settings due.cfg due.read due.configured) due.cooled;
        picked = ok-injective (sym (pick_spare-first id d sf there) ∙ due.picked);
      },
  λ due. (decision-Decided d id now s).1 (record {
    settings = due.settings;
    cfg = due.cfg;
    node = due.node;
    read = due.read;
    configured = due.configured;
    enabled = due.enabled;
    found = due.found;
    own = due.own;
    opted_in = due.opted_in;
    cooled =
        IsOver-is_cooling due.cfg.cooldown_hours due.node.last_auto_relocate_at now
          (short due.settings due.cfg due.read due.configured) due.cooled;
    picked = pick_spare-first id d sf there ∙ ap ok due.picked;
  }),
)
