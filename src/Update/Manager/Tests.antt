-- ===== src/Update/Manager/Tests.antt =====
-- A daemon with an update on offer, and the theorems about the manager at it.
use connective.Prelude.{
  ℕ, ◌*◌, ◌^◌, ◌≡◌, ◌⊎◌, refl, [], ◌∷◌, ok, none, some, Text, codes, true, false, if◌then◌else◌,
  ltb, trim_space, split,
}
use connective.Update.Version.Number.{atoi}
use connective.Update.Version.{parse_version, component}
use connective.Update.Lifecycle.{
  State, idle, checking, update_available, cancelled, failed, staging, installing, restarting,
  WayTo, here, step, allowed, updated, downloading,
}
use connective.Update.Manifest.Tests.{current, delta, crypto, keys, signed, sha}
use connective.Update.Manager.{Config, Cache, Release, Manager, unix, set_state, save_cache}
use connective.Update.Manager.Check.{run_check, backoff, backoff_base, backoff_max}
use connective.Update.Manager.Install.{
  InstallTask, tree_at, assemble_failed, spawned, install_finish, is_restarting,
}
use connective.Update.Manager.Control.{cancel, dismiss}
use connective.Update.Manager.Boot.{BootFiles, reconcile_files, init, fresh_manager, announce}
use connective.Update.Manager.Backoff.{backoff_lem}
use connective.Update.Manager.Outcomes.{CheckEnd, run_check_lem, install_finish_lem}
use connective.Update.Manager.Interrupts.{Stopped, is_busy, cancel_lem}

abbrev pub config : Config
config = record {
  crypto = crypto;
  keys = keys;
  current = current;
  channel = codes "stable";
  platform = codes "linux";
  arch = codes "amd64";
  test_apply = false;
}

abbrev pub cache : Cache
cache = record {
  last_check_unix = 0;
  last_success_unix = 0;
  last_seen_version = [];
  cache_channel = codes "stable";
  dismissed = [];
  fail_count = 2;
}

abbrev pub release : Release
release = record { signed = signed; source = codes "https://x" }

-- A clean start, at which the updater left a result and its contract.
abbrev pub files : BootFiles
files = record {
  result_file = some (record { result_version = current; result_ok = true; result_error = [] });
  contract = some (record { pending_version = current; tree = codes "/tree"; at_unix = 1 });
}

-- A day after the epoch.
abbrev pub day : ℕ
day = 24 * 3600 * 1000000000

abbrev in_state : State → Manager
in_state st = record (fresh_manager cache none) {
  state = st;
  pending = some release;
  artifact = some delta;
  staged = some 0;
  next_file = 1;
  disk = (0, sha) ∷ [];
}

abbrev install_task : InstallTask
install_task = record {
  in_ctx = 0;
  in_version = codes "0.2.10";
  in_release = release;
  in_staged = 0;
  is_delta = true;
}

backoff_lem_example : backoff 12 ≡ (if ltb 11 9 then backoff_base * 2 ^ 11 else backoff_max)
backoff_lem_example = backoff_lem 11

run_check_lem_example :
    CheckEnd config
      (ok release)
      (in_state checking)
      (run_check config day (ok release) (in_state checking))
run_check_lem_example = run_check_lem config day (ok release) (in_state checking) refl

abbrev finished : Manager
finished = install_finish config day install_task (tree_at (codes "/t")) spawned (in_state staging)

install_finish_lem_example :
    ((dir : Text) × (tree_at (codes "/t") ≡ tree_at dir)
      × (spawned ≡ spawned)
      × ((install_finish config day install_task
            (tree_at (codes "/t"))
            spawned
            (in_state staging)).state
          ≡ restarting)
      × ((install_finish config day install_task
            (tree_at (codes "/t"))
            spawned
            (in_state staging)).assembled
          ≡ dir)
      × ((install_finish config day install_task
            (tree_at (codes "/t"))
            spawned
            (in_state staging)).pending_file
          ≡ some (record {
            pending_version = install_task.in_version;
            tree = dir;
            at_unix = unix day;
          })))
    ⊎ (((install_finish config day install_task
            (tree_at (codes "/t"))
            spawned
            (in_state staging)).state
          ≡ failed)
        × ((tree_at (codes "/t") ≡ assemble_failed)
            ⊎ ((install_finish config day install_task
                  (tree_at (codes "/t"))
                  spawned
                  (in_state staging)).pending_file
                ≡ none)))
install_finish_lem_example =
    install_finish_lem config day install_task (tree_at (codes "/t")) spawned (in_state staging)
      refl refl

abbrev running : Manager
running = record (in_state downloading) { cancel_func = some 7 }

cancel_lem_example :
    Stopped (some 7) (cancel config running).cancelled_ctxs
    × ((cancel config running).cancel_func ≡ none)
    × ((cancel config running).state ≡ (if is_busy running.state then cancelled else running.state))
    × ((cancel config running).pending_file
        ≡ (if is_restarting running.state then none else running.pending_file))
    × ((cancel config running).pending ≡ running.pending)
    × ((cancel config running).artifact ≡ running.artifact)
    × ((cancel config running).staged ≡ running.staged)
cancel_lem_example = cancel_lem config running

abbrev offering : Manager
offering = in_state update_available

abbrev asking : Manager
asking = record (in_state checking) {
  cache = record cache { dismissed = (dismiss config offering).cache.dismissed };
}

announces : (init config cache files).0.state ≡ updated
unfolding init reconcile_files announce fresh_manager set_state allowed parse_version trim_space
    component split atoi save_cache
announces = refl

way : WayTo restarting idle
unfolding allowed
way = step checking refl (
    step update_available refl
      (step staging refl (step installing refl (step restarting refl here))))
