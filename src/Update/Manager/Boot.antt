-- ===== src/Update/Manager/Boot.antt =====
-- The start of the daemon: `Init` and the two functions `reconcileBoot`, of the manager and of
-- backend/internal/update/handoff.go, which consume the updater's files.
use connective.Prelude.{
  Bool, if◌then◌else◌, [], Option, none, some, Text, is_empty, Result, ok, err,
}
use connective.Prelude.Int.{pos}
use connective.Update.Version.{Version, VersionError, parse_version}
use connective.Update.Lifecycle.{idle, updated, failed}
use connective.Update.Manager.{
  Config, Cache, Release, Manager, PendingUpdate, set_state, save_cache, msg_not_installed,
}

-- `ResultUpdate`, as far as the daemon reads it.
pub record ResultUpdate : Type 0 where
  pub result_version : Text
  pub result_ok : Bool
  pub result_error : Text

-- The two files in the data directory; `none` is a missing or unreadable file.
pub record BootFiles : Type 0 where
  pub result_file : Option ResultUpdate
  pub contract : Option PendingUpdate

abbrev pub announced : ResultUpdate → Result VersionError Version → Option ResultUpdate
announced r (ok v) = some r
announced r (err e) = none

abbrev pub drop_contract : Option PendingUpdate → Option PendingUpdate
drop_contract none = none
drop_contract (some p) = if is_empty p.pending_version then some p else none

abbrev pub without_result : BootFiles → BootFiles × Option ResultUpdate
without_result f = (record f { contract = drop_contract f.contract }, none)

abbrev pub with_result : Option ResultUpdate → BootFiles → BootFiles × Option ResultUpdate
with_result none f = without_result f
with_result (some r) f = if is_empty r.result_version then without_result f else (
  record { result_file = none; contract = none },
  announced r (parse_version r.result_version),
)

-- handoff.go: the files that are left, and the result to announce.
unfoldable pub reconcile_files : BootFiles → BootFiles × Option ResultUpdate
reconcile_files f = with_result f.result_file f

-- The release that stands for a version known by its name alone.
abbrev pub named_release : Text → Release
named_release v = record {
  signed = record {
    manifest = record {
      schema = pos 0;
      version = v;
      channel = [];
      release_date = [];
      release_notes = [];
      min_version = [];
      platform = [];
      arch = [];
      artifacts = [];
    };
    signature = [];
    key_id = [];
  };
  source = [];
}

abbrev pub seeded : Text → Manager → Manager
seeded v m = record m {
  pending = some (named_release v);
  artifact = none;
  staged = none;
  assembled = [];
}

abbrev pub if_empty : Text → Text → Text
if_empty s alt = if is_empty s then alt else s

unfoldable pub announce : Config → Option ResultUpdate → Manager → Manager
announce c none m = m
announce c (some r) m =
    let m' = seeded r.result_version m in
    if r.result_ok
    then set_state c updated [] (
        save_cache
          (record m' { cache = record (m'.cache) { last_seen_version = r.result_version } }))
    else set_state c failed (if_empty r.result_error msg_not_installed) m'

-- The manager when the daemon starts, with the cache that was saved.
unfoldable pub fresh_manager : Cache → Option PendingUpdate → Manager
fresh_manager cache contract = record {
  state = idle;
  error = [];
  progress = record { bytes_done = 0; bytes_total = pos 0; percent = (0, 1); speed = 0; eta = 0 };
  cache = cache;
  pending = none;
  artifact = none;
  staged = none;
  assembled = [];
  last_poll = none;
  cancel_func = none;
  next_ctx = 0;
  cancelled_ctxs = [];
  next_file = 0;
  disk = [];
  saved_cache = cache;
  pending_file = contract;
  events = [];
}

-- `Init`, from where the cache is loaded; a missing cache is the one with nothing in it. Where the store or
-- the cache cannot be read the code returns that error, and the manager is left without a state.
unfoldable pub init : Config → Cache → BootFiles → Manager × BootFiles
unfolding reconcile_files announce fresh_manager
init c cache f =
    let (f', seed) = reconcile_files f in (announce c seed (fresh_manager cache f'.contract), f')
