-- ===== src/Settings/Validity.antt =====
-- What `Validate` establishes, and that it leaves valid settings alone.
use connective.Prelude.{
  ℕ, ◌≤◌, ◌&&◌, not, Bool, true, false, Bool-cases, if◌then◌else◌, List, [], ◌∷◌, Text, codes,
  text_eq, is_empty, ◌≡◌, inl, inr, refl, arith,
}
use connective.Prelude.Int.{ℤ, pos, negsuc, ◌≤ℤ◌}
use connective.Apps.{normalize_list}
use connective.Settings.{
  Settings, has_conflict, clamp, is_one_of, one_of, routing_modes, dns_modes, channels, split_modes,
  split_off, resolved_split, probe_url, max_split_apps, validate_settings,
}

abbrev pub Within : ℕ → ℕ → ℤ → Type 0
Within lo hi x = (pos lo ≤ℤ x) × (x ≤ℤ pos hi)

pub record IsValid (s : Settings) : Type 0 where
  pub mixed_port_ok : Within 0 65535 s.mixed_port
  pub timeout_ok : Within 500 60000 s.test_timeout_ms
  pub routing_ok : is_one_of routing_modes s.routing_mode ≡ true
  pub dns_ok : is_one_of dns_modes s.dns_mode ≡ true
  pub interval_ok : Within 0 1440 s.url_test_interval_min
  pub probe_ok : is_empty s.connection_test_url ≡ false
  pub clash_port_ok : Within 0 65535 s.clash_api_port
  pub mtu_ok : Within 1280 9000 s.mtu
  pub concurrency_ok : Within 1 50 s.test_concurrency
  pub health_ok : Within 5 600 s.health_interval_sec
  pub channel_ok : is_one_of channels s.update_channel ≡ true
  pub split_ok : is_one_of split_modes s.split_mode ≡ true
  pub no_conflict : has_conflict s ≡ false

clamp-Within : (lo hi d : ℕ) (x : ℤ) → lo ≤ d → d ≤ hi → Within lo hi (clamp lo hi d x)
clamp-Within lo hi d (pos n) a b = (ground arith, ground arith)
clamp-Within lo hi d (negsuc n) a b = (ground arith, ground arith)

clamp-same : (lo hi d : ℕ) (x : ℤ) → Within lo hi x → clamp lo hi d x ≡ x
clamp-same lo hi d (pos n) h = ground (arith, h.0, h.1)
clamp-same lo hi d (negsuc n) h = absurd (omega (arith, h.0))

one_of-ok :
    (cases : List Text) (d s : Text)
    → is_one_of cases d ≡ true
    → is_one_of cases (one_of cases d s) ≡ true
one_of-ok cases d s h = elim (Bool-cases (is_one_of cases s)) [
  | inl e ↦ rw (e, e) refl
  | inr e ↦ rw e h
]

one_of-same : (cases : List Text) (d s : Text) → is_one_of cases s ≡ true → one_of cases d s ≡ s
one_of-same cases d s h = rw h refl

resolved-ok :
    (kill : Bool) (m : Text)
    → is_one_of split_modes m ≡ true
    → (is_one_of split_modes (resolved_split kill m) ≡ true)
      × ((kill
            && (not (is_empty (resolved_split kill m))
                && not (text_eq (resolved_split kill m) split_off)))
          ≡ false)
resolved-ok false m h = (h, refl)
resolved-ok true m h = elim (Bool-cases (text_eq m split_off)) [
  | inl e ↦ (rw e h, rw (e, e) (ground arith))
  | inr e ↦ (rw e (unfold is_one_of text_eq in refl), rw e (unfold text_eq in refl))
]

probe-ok : (u : Text) → is_empty (if is_empty u then probe_url else u) ≡ false
probe-ok [] = refl
probe-ok (c ∷ u) = refl

-- After `Validate` every number is within its bounds, every mode is one of those the program knows, the
-- probe URL is not empty, and no combination is left that `Conflict` reports, whatever the document
-- held before.
pub validate_settings-IsValid :
    (to_lower : Text → Text) (s : Settings) → IsValid (validate_settings to_lower s)
unfolding validate_settings has_conflict
validate_settings-IsValid to_lower s =
    let mode = one_of-ok split_modes split_off s.split_mode (unfold is_one_of text_eq in refl) in
    let resolved = resolved-ok s.kill_switch (one_of split_modes split_off s.split_mode) mode in
    record {
      mixed_port_ok = clamp-Within 0 65535 10808 s.mixed_port (omega arith) (omega arith);
      timeout_ok = clamp-Within 500 60000 5000 s.test_timeout_ms (omega arith) (omega arith);
      routing_ok =
          one_of-ok routing_modes (codes "global") s.routing_mode
            (unfold is_one_of text_eq in refl);
      dns_ok =
          one_of-ok dns_modes (codes "proxy-aware") s.dns_mode (unfold is_one_of text_eq in refl);
      interval_ok = clamp-Within 0 1440 10 s.url_test_interval_min (omega arith) (omega arith);
      probe_ok = probe-ok s.connection_test_url;
      clash_port_ok = clamp-Within 0 65535 16756 s.clash_api_port (omega arith) (omega arith);
      mtu_ok = clamp-Within 1280 9000 9000 s.mtu (omega arith) (omega arith);
      concurrency_ok = clamp-Within 1 50 5 s.test_concurrency (omega arith) (omega arith);
      health_ok = clamp-Within 5 600 30 s.health_interval_sec (omega arith) (omega arith);
      channel_ok =
          one_of-ok channels (codes "stable") s.update_channel (unfold is_one_of text_eq in refl);
      split_ok = resolved.0;
      no_conflict = resolved.1;
    }

resolved-same :
    (kill : Bool) (m : Text)
    → is_one_of split_modes m ≡ true
    → (kill && (not (is_empty m) && not (text_eq m split_off))) ≡ false
    → resolved_split kill m ≡ m
resolved-same false m h k = refl
resolved-same true [] h k = absurd (no_mode h)
  where
    no_mode : is_one_of split_modes [] ≡ true → ⊥
    no_mode e = unfold is_one_of text_eq in cc
resolved-same true (c ∷ m) h k = ground arith

-- Valid settings, with a list of applications that is normalized, pass through `Validate` unchanged.
pub validate_settings-same :
    (to_lower : Text → Text) (s : Settings)
    → IsValid s
    → normalize_list to_lower s.split_apps max_split_apps ≡ s.split_apps
    → validate_settings to_lower s ≡ s
unfolding validate_settings has_conflict
validate_settings-same to_lower s v n =
    rw
      (
        clamp-same 0 65535 10808 s.mixed_port v.mixed_port_ok,
        clamp-same 500 60000 5000 s.test_timeout_ms v.timeout_ok,
        v.routing_ok,
        v.dns_ok,
        clamp-same 0 1440 10 s.url_test_interval_min v.interval_ok,
        v.probe_ok,
        clamp-same 0 65535 16756 s.clash_api_port v.clash_port_ok,
        clamp-same 1280 9000 9000 s.mtu v.mtu_ok,
        clamp-same 1 50 5 s.test_concurrency v.concurrency_ok,
        clamp-same 5 600 30 s.health_interval_sec v.health_ok,
        v.channel_ok,
        v.split_ok,
        resolved-same s.kill_switch s.split_mode v.split_ok v.no_conflict,
        n,
      )
      refl
