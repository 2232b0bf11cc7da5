-- ===== src/Update/Manager/Check.antt =====
-- `StartCheck`, `RunCheck`, `Check`, `MaybeCheckOnStartup` and the back-off after failures.
use connective.Prelude.{
  ℕ, zero, suc, ◌+◌, ◌-◌, ◌*◌, ◌/◌, ◌%◌, ◌^◌, Bool, true, false, ltb, leb, ◌==◌, ◌||◌, not, ◌&&◌,
  if◌then◌else◌, [], ◌∷◌, ◌++◌, Option, none, some, Text, codes, text_eq, contains, length, Result,
  ok, err,
}
use connective.Update.Lifecycle.{
  State, idle, checking, no_update, update_available, updated, cancelled, failed, rolled_back,
}
use connective.Update.Manifest.{Artifact, SelectError, TrustError, select_artifact, verify_manifest}
use connective.Update.Manager.{
  Config, Cache, Release, Manager, unix, channel_of, set_state, save_cache, drop_staged,
  msg_untrusted,
}

abbrev pub check_interval : ℕ
check_interval = 6 * 3600

abbrev pub min_check_spacing : ℕ
min_check_spacing = 60 * 1000000000

abbrev pub backoff_base : ℕ
backoff_base = 300 * 1000000000

abbrev pub backoff_max : ℕ
backoff_max = 24 * 3600 * 1000000000

-- The part of `cooling` that computes the pause after `fail_count` failures, in nanoseconds. The shift
-- is that of an int64: what passes bit 63 is lost, and a value from 2^63 on is negative.
unfoldable pub backoff : ℕ → ℕ
backoff fail_count =
    let shift = fail_count - 1 in
    let b = backoff_base * 2 ^ shift % 2 ^ 64 in
    if ltb shift 63 && (ltb 0 b && (ltb b (2 ^ 63) && ltb b backoff_max)) then b else backoff_max

unfoldable pub cooling : ℕ → Cache → Bool
cooling now c =
    if c.fail_count == 0
    then false
    else ltb (unix now) (c.last_check_unix + backoff c.fail_count / 1000000000)

pub record Query : Type 0 where
  pub query_channel : Text
  pub query_platform : Text
  pub query_arch : Text
  pub query_current : Text

abbrev pub may_check : State → Bool
may_check idle = true
may_check no_update = true
may_check updated = true
may_check cancelled = true
may_check failed = true
may_check rolled_back = true
may_check update_available = true
may_check _ = false

-- `now.Sub(m.lastPoll) < minCheckSpacing`; before the first poll the zero time is long ago.
abbrev pub polled_just_now : ℕ → Option ℕ → Bool
polled_just_now now none = false
polled_just_now now (some t) = ltb now (t + min_check_spacing)

-- A background check is skipped: too soon after a poll or a check, or cooling down.
unfoldable pub too_soon : ℕ → Manager → Bool
too_soon now m =
    polled_just_now now m.last_poll
    || (ltb (unix now) (m.cache.last_check_unix + check_interval) || cooling now m.cache)

abbrev pub stamp_check : ℕ → Manager → Manager
stamp_check now m =
    save_cache (record m { cache = record (m.cache) { last_check_unix = unix now } })

unfoldable pub start_check : Config → ℕ → Bool → Manager → Manager × Option Query
start_check c now manual m =
    let polled = record m { last_poll = some now } in
    if not manual && too_soon now m
    then (m, none)
    else if may_check m.state
    then (
      stamp_check now (set_state c checking [] polled),
      some (record {
        query_channel = channel_of c;
        query_platform = c.platform;
        query_arch = c.arch;
        query_current = c.current;
      }),
    )
    else (polled, none)

-- What a provider answers.
pub data CheckError : Type 0 where
  up_to_date not_configured rate_limited : CheckError
  provider_error : Text → CheckError

abbrev pub CheckOutcome : Type 0
CheckOutcome = Result CheckError Release

abbrev pub msg_later : Text
msg_later = codes "Couldn't check for updates. We'll try again later."

-- A text of more than 200 bytes is cut; the text is ASCII here.
unfoldable pub take : ℕ → Text → Text
take zero s = []
take (suc n) [] = []
take (suc n) (c ∷ s) = c ∷ take n s

unfoldable pub friendly_check : CheckError → Text
friendly_check rate_limited = codes "GitHub request limit reached. Trying again later."
friendly_check (provider_error msg) =
    if contains msg (codes "no such host")
      || (contains msg (codes "connection refused")
          || (contains msg (codes "network is unreachable")
              || (contains msg (codes "timeout") || contains msg (codes "deadline exceeded"))))
    then msg_later
    else if ltb 200 (length msg)
    then take 200 msg ++ codes "…"
    else msg
friendly_check _ = []

abbrev pub count_failure : Manager → Manager
count_failure m =
    save_cache (record m { cache = record (m.cache) { fail_count = suc (m.cache.fail_count) } })

-- A check that brought a verified release with a usable artifact.
unfoldable pub accept_release : Config → ℕ → Release → Artifact → Manager → Manager
accept_release c now rel art m =
    let m' = drop_staged (record m { pending = some rel; artifact = some art }) in
    let version = rel.signed.manifest.version in
    let stamped = save_cache (record m' {
      assembled = [];
      cache = record (m'.cache) {
        fail_count = 0;
        last_success_unix = unix now;
        last_seen_version = version;
      };
    }) in
    set_state c (if text_eq m.cache.dismissed version then no_update else update_available) []
      stamped

abbrev pub run_selected : Config → ℕ → Release → Result SelectError Artifact → Manager → Manager
run_selected c now rel (err _) m = set_state c failed msg_untrusted m
run_selected c now rel (ok art) m = accept_release c now rel art m

abbrev pub run_verified : Config → ℕ → Release → Result TrustError (Unit {0}) → Manager → Manager
run_verified c now rel (err _) m = set_state c failed msg_untrusted (count_failure m)
run_verified c now rel (ok _) m =
    run_selected c now rel (select_artifact c.current rel.signed.manifest) m

-- What `RunCheck` does with the provider's answer, while the state is still `checking`.
unfoldable pub run_answer : Config → ℕ → CheckOutcome → Manager → Manager
run_answer c now (err up_to_date) m = set_state c no_update [] m
run_answer c now (err not_configured) m = set_state c no_update [] m
run_answer c now (err e) m = set_state c failed (friendly_check e) (count_failure m)
run_answer c now (ok rel) m = run_verified c now rel (verify_manifest c.crypto c.keys rel.signed) m

abbrev pub is_checking : State → Bool
is_checking checking = true
is_checking _ = false

-- A check that was cancelled while the network call ran has no effect.
unfoldable pub run_check : Config → ℕ → CheckOutcome → Manager → Manager
run_check c now answer m = if is_checking m.state then run_answer c now answer m else m

-- `MaybeCheckOnStartup`: is a background check started?
unfoldable pub checks_on_startup : Bool → ℕ → Manager → Bool
checks_on_startup auto now m = auto && leb (m.cache.last_check_unix + check_interval) (unix now)
