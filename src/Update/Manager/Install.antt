-- ===== src/Update/Manager/Install.antt =====
-- `Install` in the parts between which the mutex is released: the assembly of the staged artifact,
-- the fall-back to the full artifact when a delta cannot be applied, the hand-over to the updater
-- process (`handoff`), the activation in process under `TestApply`, and `onUpdaterExit`.
use connective.Prelude.{
  ℕ, Bool, true, false, ◌||◌, if◌then◌else◌, [], ◌++◌, Option, none, some, Text, codes, text_eq,
  contains, length, ltb,
}
use connective.Update.Lifecycle.{
  State, update_available, failed, staging, installing, restarting, updated, rolled_back,
}
use connective.Update.Manifest.{Artifact, artifact_delta, full_artifact_of}
use connective.Update.Manager.{
  Config, Release, Manager, PendingUpdate, unix, set_state, remove_file, create_file, drop_staged,
  msg_not_installed,
}
use connective.Update.Manager.Check.{take}
use connective.Update.Manager.Download.{with_cancel, hash_matches}

pub record InstallTask : Type 0 where
  pub in_ctx : ℕ
  pub in_version : Text
  pub in_release : Release
  pub in_staged : ℕ
  pub is_delta : Bool

-- The parts of the guard of `Install`, when all are there.
abbrev pub can_install :
    State → Option Release → Option Artifact → Option ℕ → Option (Release × Artifact × ℕ)
can_install update_available (some r) (some a) (some p) = some (r, a, p)
can_install _ _ _ _ = none

abbrev pub start_install :
    Config → Option (Release × Artifact × ℕ) → Manager → Manager × Option InstallTask
start_install c none m = (m, none)
start_install c (some (r, a, p)) m = (
  with_cancel (set_state c staging [] m),
  some (record {
    in_ctx = m.next_ctx;
    in_version = r.signed.manifest.version;
    in_release = r;
    in_staged = p;
    is_delta = text_eq a.type artifact_delta;
  }),
)

unfoldable pub install_begin : Config → Manager → Manager × Option InstallTask
install_begin c m = start_install c (can_install m.state m.pending m.artifact m.staged) m

-- What `Assemble` returns: the directory of the tree, or an error.
pub data AssembleOutcome : Type 0 where
  tree_at : Text → AssembleOutcome
  assemble_failed : AssembleOutcome

-- After the first assembly: is the full artifact fetched for a second one?
unfoldable pub fallback_artifact : InstallTask → AssembleOutcome → Option Artifact
fallback_artifact t (tree_at d) = none
fallback_artifact t assemble_failed =
    if t.is_delta then full_artifact_of (t.in_release.signed.manifest.artifacts) else none

-- The fall-back's `fetchVerified`: a file whose hash is right is staged in place of the delta, and
-- assembled next; a file with another hash is discarded. Only these two fields are set under the lock.
unfoldable pub install_refetched :
    InstallTask → Artifact → Text → Manager → Manager × Option InstallTask
install_refetched t full h m =
    let m' = create_file h m in
    if hash_matches (some h) full
    then (
      record m' { staged = some m.next_file; artifact = some full },
      some (record t { in_staged = m.next_file; is_delta = false }),
    )
    else (remove_file m.next_file m', none)

-- How `handoff` ends.
pub data HandoffOutcome : Type 0 where
  spawned : HandoffOutcome
  handoff_failed : Text → HandoffOutcome

-- `friendlySpawnError`
unfoldable pub friendly_spawn_error : Text → Text
friendly_spawn_error msg =
    if contains msg (codes "cancel")
      || (contains msg (codes "dismiss")
          || (contains msg (codes "auth") || contains msg (codes "elevation")))
    then codes
        "The installer was not started. Your current version is untouched — try again when ready."
    else codes "The installer could not be started ("
      ++ ((if ltb 220 (length msg) then take 220 msg ++ codes "…" else msg)
          ++ codes "). Your current version is untouched.")

-- `exitedSpawnError`
unfoldable pub exited_spawn_error : Text → Text
exited_spawn_error msg =
    if contains msg (codes "cancel")
      || (contains msg (codes "dismiss")
          || (contains msg (codes "auth")
              || (contains msg (codes "elevation")
                  || (contains msg (codes "not authorized") || contains msg (codes "aborted")))))
    then friendly_spawn_error msg
    else msg_not_installed

abbrev pub hand_over : Config → ℕ → InstallTask → Text → HandoffOutcome → Manager → Manager
hand_over c now t dir spawned m = set_state c restarting [] (record m {
  pending_file = some (record { pending_version = t.in_version; tree = dir; at_unix = unix now });
})
hand_over c now t dir (handoff_failed msg) m =
    set_state c failed (friendly_spawn_error msg) (record m { pending_file = none })

abbrev pub is_staging : State → Bool
is_staging staging = true
is_staging _ = false

-- After the last assembly. Under `TestApply` the state is `restarting` when the lock is released for
-- the activation.
abbrev pub assembled_tree :
    Config → ℕ → InstallTask → AssembleOutcome → HandoffOutcome → Manager → Manager
assembled_tree c now t assemble_failed o m = set_state c failed msg_not_installed m
assembled_tree c now t (tree_at dir) o m =
    let m' = set_state c installing [] (record m { assembled = dir }) in
    if c.test_apply then set_state c restarting [] m' else hand_over c now t dir o m'

-- If the user backed out meanwhile, what was staged is dropped.
unfoldable pub install_finish :
    Config → ℕ → InstallTask → AssembleOutcome → HandoffOutcome → Manager → Manager
install_finish c now t outcome o m =
    let m' = record m { cancel_func = none } in
    if is_staging m.state then assembled_tree c now t outcome o m' else drop_staged m'

-- The end of `Install` under `TestApply`.
pub data ActivateOutcome : Type 0 where
  activate_failed healthy unhealthy rollback_failed : ActivateOutcome

unfoldable pub install_activated : Config → ActivateOutcome → Manager → Manager
install_activated c activate_failed m = set_state c failed msg_not_installed m
install_activated c healthy m = set_state c updated [] m
install_activated c unhealthy m = set_state c rolled_back [] m
install_activated c rollback_failed m =
    set_state c failed (codes "The update could not be installed and rollback failed. See logs.") m

abbrev pub is_restarting : State → Bool
is_restarting restarting = true
is_restarting _ = false

abbrev pub report_exit : Config → Text → Option PendingUpdate → Manager → Manager
report_exit c msg none m = m
report_exit c msg (some p) m = set_state c failed (exited_spawn_error msg) m

-- `onUpdaterExit`; `none` is a clean exit.
unfoldable pub on_updater_exit : Config → Option Text → Manager → Manager
on_updater_exit c none m = m
on_updater_exit c (some msg) m =
    if is_restarting m.state then report_exit c msg m.pending_file m else m
