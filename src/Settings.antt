-- ===== src/Settings.antt =====
-- The settings document (backend/internal/settings/settings.go): `Defaults`, `Conflict` and `Validate`.
pub mod Validity
mod Tests
use connective.Prelude.{
  ℕ, suc, ◌+◌, ltb, ◌&&◌, ◌||◌, not, Bool, true, false, if◌then◌else◌, List, [], ◌∷◌, Text, codes,
  text_eq, is_empty,
}
use connective.Prelude.Int.{ℤ, pos, ltb_ℤ}
use connective.Apps.{normalize_list}

pub record Settings : Type 0 where
  pub auto_connect : Bool
  pub auto_mode : Bool
  pub routing_mode : Text
  pub dns_mode : Text
  pub tun_enabled : Bool
  pub kill_switch : Bool
  pub mixed_port : ℤ
  pub test_timeout_ms : ℤ
  pub update_on_start : Bool
  pub theme : Text
  pub url_test_interval_min : ℤ
  pub connection_test_url : Text
  pub clash_api_port : ℤ
  pub core_path : Text
  pub helper_path : Text
  pub mtu : ℤ
  pub test_concurrency : ℤ
  pub health_interval_sec : ℤ
  pub update_channel : Text
  pub update_auto_check : Bool
  pub split_mode : Text
  pub split_apps : List Text

abbrev pub split_off : Text
split_off = codes "off"

abbrev pub max_split_apps : ℤ
max_split_apps = pos 200

abbrev pub probe_url : Text
probe_url = codes "http://connectivitycheck.gstatic.com/generate_204"

unfoldable pub defaults : Settings
defaults = record {
  auto_connect = false;
  auto_mode = true;
  routing_mode = codes "global";
  dns_mode = codes "proxy-aware";
  tun_enabled = true;
  kill_switch = false;
  mixed_port = pos 10808;
  test_timeout_ms = pos 5000;
  update_on_start = true;
  theme = codes "dark";
  url_test_interval_min = pos 10;
  connection_test_url = probe_url;
  clash_api_port = pos 16756;
  core_path = [];
  helper_path = [];
  mtu = pos 9000;
  test_concurrency = pos 5;
  health_interval_sec = pos 30;
  update_channel = codes "stable";
  update_auto_check = true;
  split_mode = split_off;
  split_apps = [];
}

-- `Conflict` returns an error.
unfoldable pub has_conflict : Settings → Bool
has_conflict s =
    s.kill_switch && (not (is_empty s.split_mode) && not (text_eq s.split_mode split_off))

-- `if x < lo || x > hi { x = fallback }`
abbrev pub clamp : ℕ → ℕ → ℕ → ℤ → ℤ
clamp lo hi fallback x = if ltb_ℤ x (pos lo) || ltb_ℤ (pos hi) x then pos fallback else x

-- The cases of a switch over texts.
unfoldable pub is_one_of : List Text → Text → Bool
is_one_of [] s = false
is_one_of (x ∷ xs) s = text_eq s x || is_one_of xs s

abbrev pub one_of : List Text → Text → Text → Text
one_of cases fallback s = if is_one_of cases s then s else fallback

abbrev pub routing_modes : List Text
routing_modes = codes "global" ∷ codes "rules" ∷ []

abbrev pub dns_modes : List Text
dns_modes = codes "system" ∷ codes "custom" ∷ codes "proxy-aware" ∷ []

abbrev pub channels : List Text
channels = codes "stable" ∷ codes "beta" ∷ codes "dev" ∷ []

abbrev pub split_modes : List Text
split_modes = split_off ∷ codes "bypass" ∷ codes "only" ∷ []

-- The kill switch wins over split tunnelling.
abbrev pub resolved_split : Bool → Text → Text
resolved_split kill m = if kill && not (text_eq m split_off) then split_off else m

-- `Validate`; `to_lower` is strings.ToLower.
unfoldable pub validate_settings : (Text → Text) → Settings → Settings
validate_settings to_lower s = record s {
  mixed_port = clamp 0 65535 10808 s.mixed_port;
  test_timeout_ms = clamp 500 60000 5000 s.test_timeout_ms;
  routing_mode = one_of routing_modes (codes "global") s.routing_mode;
  dns_mode = one_of dns_modes (codes "proxy-aware") s.dns_mode;
  url_test_interval_min = clamp 0 1440 10 s.url_test_interval_min;
  connection_test_url = if is_empty s.connection_test_url then probe_url else s.connection_test_url;
  clash_api_port = clamp 0 65535 16756 s.clash_api_port;
  mtu = clamp 1280 9000 9000 s.mtu;
  test_concurrency = clamp 1 50 5 s.test_concurrency;
  health_interval_sec = clamp 5 600 30 s.health_interval_sec;
  update_channel = one_of channels (codes "stable") s.update_channel;
  split_mode = resolved_split s.kill_switch (one_of split_modes split_off s.split_mode);
  split_apps = normalize_list to_lower s.split_apps max_split_apps;
}
