-- ===== src/Update/Manager/System.antt =====
-- The manager with the work that is under way: the IPC handlers, the background goroutines and the
-- updater process, in every order that the mutex allows. A step is one stretch of a handler between
-- taking the lock and releasing it, with any outcome of what it waited for.
pub mod Files
pub mod Frame
pub mod Trust
pub mod Keeps
pub mod Tasks
pub mod Refetch
pub mod Safety
pub mod Installed
pub mod Cancelled
mod Tests
use connective.Prelude.{
  ℕ, Bool, true, false, ◌&&◌, if◌then◌else◌, List, [], ◌∷◌, Option, none, some, Text, ◌≡◌,
}
use connective.Prelude.Int.{ℤ}
use connective.Update.Manifest.{Artifact}
use connective.Update.Manager.{Config, Cache, Manager}
use connective.Update.Manager.Check.{CheckOutcome, Query, start_check, run_check}
use connective.Update.Manager.Download.{
  DownloadTask, VerifyTask, FetchOutcome, download_begin, download_fetched, download_verified,
  on_progress,
}
use connective.Update.Manager.Install.{
  InstallTask, AssembleOutcome, tree_at, assemble_failed, HandoffOutcome, spawned, ActivateOutcome,
  install_begin, fallback_artifact, install_refetched, install_finish, install_activated,
  on_updater_exit, is_staging,
}
use connective.Update.Manager.Control.{cancel, dismiss}
use connective.Update.Manager.Boot.{BootFiles, init}

-- Work that goes on with the mutex released.
pub data Task : Type 0 where
  querying : Query → Task
  fetching : DownloadTask → Task
  hashing : VerifyTask → Task
  assembling : InstallTask → Task
  refetching : InstallTask → Artifact → Task
  activating : Task

pub record System : Type 0 where
  pub mgr : Manager
  pub tasks : List Task

-- `t` is one of the tasks, and `rest` are the others.
pub data Pick (t : Task) : List Task → List Task → Type 0 where
  first : {ts : List Task} → Pick t (t ∷ ts) ts
  later : {u : Task} {ts rest : List Task} → Pick t ts rest → Pick t (u ∷ ts) (u ∷ rest)

abbrev pub add_query : Option Query → List Task → List Task
add_query none ts = ts
add_query (some q) ts = querying q ∷ ts

abbrev pub add_fetch : Option DownloadTask → List Task → List Task
add_fetch none ts = ts
add_fetch (some t) ts = fetching t ∷ ts

abbrev pub add_hash : Option VerifyTask → List Task → List Task
add_hash none ts = ts
add_hash (some t) ts = hashing t ∷ ts

abbrev pub add_install : Option InstallTask → List Task → List Task
add_install none ts = ts
add_install (some t) ts = assembling t ∷ ts

-- Under `TestApply` the activation follows in the same process.
abbrev pub add_activation : Config → Manager → AssembleOutcome → List Task → List Task
add_activation c m assemble_failed ts = ts
add_activation c m (tree_at d) ts =
    if c.test_apply && is_staging m.state then activating ∷ ts else ts

-- A fall-back whose file has the wrong hash ends the installation as a failed assembly does.
abbrev pub after_refetch :
    Config → ℕ → InstallTask → Manager × Option InstallTask → List Task → System
after_refetch c now t (m, none) ts = record {
  mgr = install_finish c now t assemble_failed spawned m;
  tasks = ts;
}
after_refetch c now t (m, some t') ts = record { mgr = m; tasks = assembling t' ∷ ts }

pub data Step (c : Config) : System → System → Type 0 where
  check_starts :
      (s : System) (now : ℕ) (manual : Bool)
      → Step c s (record {
        mgr = (start_check c now manual s.mgr).0;
        tasks = add_query (start_check c now manual s.mgr).1 s.tasks;
      })
  check_answers :
      (s : System) (now : ℕ) (q : Query) (answer : CheckOutcome) (rest : List Task)
      → Pick (querying q) s.tasks rest
      → Step c s (record { mgr = run_check c now answer s.mgr; tasks = rest })
  download_starts :
      (s : System)
      → Step c s (record {
        mgr = (download_begin c s.mgr).0;
        tasks = add_fetch (download_begin c s.mgr).1 s.tasks;
      })
  progresses :
      (s : System) (done : ℕ) (total : ℤ) (speed : ℕ)
      → Step c s (record { mgr = on_progress c done total speed s.mgr; tasks = s.tasks })
  fetch_ends :
      (s : System) (t : DownloadTask) (o : FetchOutcome) (rest : List Task)
      → Pick (fetching t) s.tasks rest
      → Step c s (record {
        mgr = (download_fetched c t o s.mgr).0;
        tasks = add_hash (download_fetched c t o s.mgr).1 rest;
      })
  hash_ends :
      (s : System) (t : VerifyTask) (rest : List Task)
      → Pick (hashing t) s.tasks rest
      → Step c s (record { mgr = download_verified c t s.mgr; tasks = rest })
  install_starts :
      (s : System)
      → Step c s (record {
        mgr = (install_begin c s.mgr).0;
        tasks = add_install (install_begin c s.mgr).1 s.tasks;
      })
  falls_back :
      (s : System) (t : InstallTask) (full : Artifact) (rest : List Task)
      → Pick (assembling t) s.tasks rest
      → fallback_artifact t assemble_failed ≡ some full
      → Step c s (record { mgr = s.mgr; tasks = refetching t full ∷ rest })
  refetch_fails :
      (s : System) (now : ℕ) (t : InstallTask) (full : Artifact) (rest : List Task)
      → Pick (refetching t full) s.tasks rest
      → Step c s
          (record { mgr = install_finish c now t assemble_failed spawned s.mgr; tasks = rest })
  refetch_ends :
      (s : System) (now : ℕ) (t : InstallTask) (full : Artifact) (h : Text) (rest : List Task)
      → Pick (refetching t full) s.tasks rest
      → Step c s (after_refetch c now t (install_refetched t full h s.mgr) rest)
  install_ends :
      (s : System) (now : ℕ) (t : InstallTask) (a : AssembleOutcome) (o : HandoffOutcome)
      (rest : List Task)
      → Pick (assembling t) s.tasks rest
      → fallback_artifact t a ≡ none
      → Step c s
          (record { mgr = install_finish c now t a o s.mgr; tasks = add_activation c s.mgr a rest })
  activation_ends :
      (s : System) (o : ActivateOutcome) (rest : List Task)
      → Pick activating s.tasks rest
      → Step c s (record { mgr = install_activated c o s.mgr; tasks = rest })
  updater_exits :
      (s : System) (msg : Option Text)
      → Step c s (record { mgr = on_updater_exit c msg s.mgr; tasks = s.tasks })
  cancels : (s : System) → Step c s (record { mgr = cancel c s.mgr; tasks = s.tasks })
  dismisses : (s : System) → Step c s (record { mgr = dismiss c s.mgr; tasks = s.tasks })

-- The daemon at its start: no work is under way.
abbrev pub boot : Config → Cache → BootFiles → System
boot c cache files = record { mgr = (init c cache files).0; tasks = [] }

pub data Reach (c : Config) (s : System) : System → Type 0 where
  here : Reach c s s
  next : {t u : System} → Reach c s t → Step c t u → Reach c s u
