-- ===== src/Settings/Tests.antt =====
-- The default settings, and the theorems at them.
use connective.Prelude.{◌≡◌, refl, codes, text_eq, true, arith}
use connective.Prelude.Int.{negsuc}
use connective.Apps.{normalize_list, collect}
use connective.Apps.Tests.{ascii_lower}
use connective.Settings.{
  Settings, defaults, has_conflict, is_one_of, validate_settings, max_split_apps,
}
use connective.Settings.Validity.{IsValid, validate_settings-IsValid}

-- A document with a negative port, an unknown mode and a kill switch beside split tunnelling.
abbrev foreign : Settings
foreign = record defaults {
  mixed_port = negsuc 0;
  dns_mode = codes "doh";
  kill_switch = true;
  split_mode = codes "only";
}

conflicts : has_conflict foreign ≡ true
unfolding defaults has_conflict text_eq
conflicts = refl

validate_settings-IsValid_example : IsValid (validate_settings ascii_lower foreign)
validate_settings-IsValid_example = validate_settings-IsValid ascii_lower foreign

defaults-IsValid : IsValid defaults
unfolding defaults has_conflict is_one_of text_eq
defaults-IsValid = record {
  mixed_port_ok = (omega arith, omega arith);
  timeout_ok = (omega arith, omega arith);
  routing_ok = refl;
  dns_ok = refl;
  interval_ok = (omega arith, omega arith);
  probe_ok = refl;
  clash_port_ok = (omega arith, omega arith);
  mtu_ok = (omega arith, omega arith);
  concurrency_ok = (omega arith, omega arith);
  health_ok = (omega arith, omega arith);
  channel_ok = refl;
  split_ok = refl;
  no_conflict = refl;
}

no_apps : normalize_list ascii_lower defaults.split_apps max_split_apps ≡ defaults.split_apps
unfolding normalize_list collect defaults
no_apps = refl
