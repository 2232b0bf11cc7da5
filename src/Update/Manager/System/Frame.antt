-- ===== src/Update/Manager/System/Frame.antt =====
-- The handlers that leave the release, the artifact and the staged files alone.
use connective.Prelude.{ℕ, Bool, Option, Text, ◌≡◌, arith}
use connective.Prelude.Int.{ℤ}
use connective.Update.Lifecycle.{State, failed}
use connective.Update.Manager.{Config, Manager, set_state, save_cache}
use connective.Update.Manager.Check.{start_check, count_failure}
use connective.Update.Manager.Download.{
  DownloadTask, fetch_failed, download_begin, download_fetched, on_progress,
}
use connective.Update.Manager.Install.{
  InstallTask, AssembleOutcome, assemble_failed, tree_at, HandoffOutcome, spawned, handoff_failed,
  ActivateOutcome, install_begin, assembled_tree, install_activated, on_updater_exit,
}
use connective.Update.Manager.Control.{cancel, dismiss}

pub record Same (m m' : Manager) : Type 0 where
  pub artifact_same : m'.artifact ≡ m.artifact
  pub staged_same : m'.staged ≡ m.staged
  pub pending_same : m'.pending ≡ m.pending
  pub next_file_same : m'.next_file ≡ m.next_file
  pub disk_same : m'.disk ≡ m.disk

pub Same-refl : (m : Manager) → Same m m
Same-refl m = ground arith

pub Same-trans : {m n o : Manager} → Same m n → Same n o → Same m o
Same-trans a b = ground arith

pub Same-set_state :
    (c : Config) (to : State) (msg : Text) (m : Manager) → Same m (set_state c to msg m)
unfolding set_state
Same-set_state c to msg m = ground arith

pub Same-start_check :
    (c : Config) (now : ℕ) (manual : Bool) (m : Manager) → Same m (start_check c now manual m).0
unfolding start_check set_state save_cache
Same-start_check c now manual m = ground arith

pub Same-count_failure :
    (c : Config) (to : State) (msg : Text) (m : Manager)
    → Same m (set_state c to msg (count_failure m))
unfolding set_state save_cache
Same-count_failure c to msg m = ground arith

pub Same-on_progress :
    (c : Config) (done : ℕ) (total : ℤ) (speed : ℕ) (m : Manager)
    → Same m (on_progress c done total speed m)
unfolding on_progress
Same-on_progress c done total speed m = ground arith

pub Same-start_download : (c : Config) (m : Manager) → Same m (download_begin c m).0
unfolding download_begin set_state
Same-start_download c m = ground arith

pub Same-fetch_failed :
    (c : Config) (t : DownloadTask) (b : Bool) (m : Manager)
    → Same m (download_fetched c t (fetch_failed b) m).0
unfolding download_fetched set_state
Same-fetch_failed c t b m = ground arith

pub Same-install_begin : (c : Config) (m : Manager) → Same m (install_begin c m).0
unfolding install_begin set_state
Same-install_begin c m = ground arith

pub Same-assembled_tree :
    (c : Config) (now : ℕ) (t : InstallTask) (a : AssembleOutcome) (o : HandoffOutcome)
    (m : Manager)
    → Same m (assembled_tree c now t a o m)
Same-assembled_tree c now t assemble_failed o m = Same-set_state c failed _ m
Same-assembled_tree c now t (tree_at d) spawned m = unfold set_state in (ground arith)
Same-assembled_tree c now t (tree_at d) (handoff_failed msg) m = unfold set_state in (ground arith)

pub Same-install_activated :
    (c : Config) (o : ActivateOutcome) (m : Manager) → Same m (install_activated c o m)
unfolding install_activated set_state
Same-install_activated c o m = ground arith

pub Same-on_updater_exit :
    (c : Config) (msg : Option Text) (m : Manager) → Same m (on_updater_exit c msg m)
unfolding on_updater_exit set_state
Same-on_updater_exit c msg m = ground arith

pub Same-cancel : (c : Config) (m : Manager) → Same m (cancel c m)
unfolding cancel set_state
Same-cancel c m = ground arith

pub Same-dismiss : (c : Config) (m : Manager) → Same m (dismiss c m)
unfolding dismiss set_state save_cache
Same-dismiss c m = ground arith
