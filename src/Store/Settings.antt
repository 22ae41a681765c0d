-- ===== src/Store/Settings.antt =====
-- The panel settings of internal/chain/store.go.
use angry_box.Prelude.{zero, suc, Bool, true, false, [], Option, none, some, if◌then◌else◌}
use angry_box.Prelude.Int.{ℤ, pos, negsuc}
use angry_box.Model.Panel.{PanelSettings}
use angry_box.Store.{StoreFile, Result, ok, Disk, M, new_store_file, update, query}

-- `&model.PanelSettings{MetricsInterval: 15}`
abbrev pub default_settings : PanelSettings
default_settings = record {
  admin_password_hash = "";
  panel_country = "";
  language = "";
  metrics_interval = pos 15;
  ssh_keys = [];
  default_protocol = "";
  custom_presets = "";
  default_preset_by_protocol = [];
  default_ssh_key_id = "";
  default_reality_sni = "";
  services = "";
  offsite_backup = none;
  auto_relocate = none;
  telegram_bot = none;
}

abbrev pub positive : ℤ → Bool
positive (pos zero) = false
positive (pos (suc n)) = true
positive (negsuc n) = false

abbrev pub with_interval : PanelSettings → PanelSettings
with_interval s = if positive s.metrics_interval then s else record s { metrics_interval = pos 15 }

abbrev pub or_default : Option PanelSettings → PanelSettings
or_default none = default_settings
or_default (some s) = with_interval s

-- `GetSettings`
unfoldable pub get_settings : Disk → Result PanelSettings
get_settings = query (ok default_settings) (λ sf. ok (or_default sf.settings))

abbrev pub put_settings : PanelSettings → StoreFile → Result StoreFile
put_settings s sf = ok (record sf { settings = some s })

-- `SaveSettings`
unfoldable pub save_settings : PanelSettings → M (Unit {0})
save_settings s = update (ok new_store_file) (put_settings s)
