-- ===== src/Update/Manager/System/Tasks.antt =====
-- Handlers that start or end a piece of work: trust goes on to the work, and comes back from it.
use connective.Prelude.{
  ℕ, ◌≤◌, ◌<◌, List, Option, none, some, Text, ◌≡◌, inl, inr, refl, arith, Bool-cases, All,
}
use connective.Update.Lifecycle.{State}
use connective.Update.Manifest.{Artifact}
use connective.Update.Manager.{Config, Manager, Release, set_state, create_file, remove_file}
use connective.Update.Manager.Download.{
  DownloadTask, FetchOutcome, fetch_failed, fetched, can_download, start_download, download_begin,
  download_fetched, start_verify, is_downloading,
}
use connective.Update.Manager.Install.{can_install, start_install, install_begin}
use connective.Update.Manager.System.{
  Task, fetching, System, add_query, add_fetch, add_hash, add_install,
}
use connective.Update.Manager.System.Frame.{Same-start_download, Same-install_begin}
use connective.Update.Manager.System.Trust.{
  IsTrusted, ReleaseOk, FileOk, TaskOk, MgrSafe, Safe, FileOk-Extends, tasks-Extends, Keeps,
  Keeps-Same,
}
use connective.Update.Manager.System.Keeps.{Keeps-download_fetched}

module _ (c : Config) where
  -- The manager moved on, and these tasks are left.
  pub moved :
      (m m' : Manager) (ts : List Task)
      → Keeps c m m'
      → MgrSafe c m
      → All (TaskOk c m) ts
      → Safe c (record { mgr = m'; tasks = ts })
  moved m m' ts k h t = record {
    mgr_safe = k.safe h;
    tasks_ok = tasks-Extends c {m = m} {m' = m'} ts k.extends t;
  }

  pub add_query-ok :
      (m : Manager) (o : Option _) (ts : List Task)
      → All (TaskOk c m) ts
      → All (TaskOk c m) (add_query o ts)
  add_query-ok m none ts h = h
  add_query-ok m (some q) ts h = (tt, h)

  can_download-artifact :
      (st : State) (p : Option Release) (o : Option Artifact) (a : Artifact)
      → can_download st p o ≡ some a
      → o ≡ some a
  can_download-artifact st p o a h = ground arith

  start_download-ok :
      (m m' : Manager) (o : Option Artifact) (ts : List Task)
      → ((a : Artifact) → o ≡ some a → IsTrusted c a)
      → All (TaskOk c m') ts
      → All (TaskOk c m') (add_fetch (start_download c o m).1 ts)
  start_download-ok m m' none ts t h = h
  start_download-ok m m' (some a) ts t h = (t a refl, h)

  pub download_starts-Safe :
      (s : System)
      → Safe c s
      → Safe c (record {
        mgr = (download_begin c s.mgr).0;
        tasks = add_fetch (download_begin c s.mgr).1 s.tasks;
      })
  download_starts-Safe s h =
      let k =
        Keeps-Same c {m = s.mgr} {m' = (download_begin c s.mgr).0} (Same-start_download c s.mgr) in
      record {
        mgr_safe = k.safe h.mgr_safe;
        tasks_ok =
            unfold download_begin in
            (start_download-ok s.mgr _ (can_download s.mgr.state s.mgr.pending s.mgr.artifact)
              s.tasks
              (λ a e.
                h.mgr_safe.artifact_ok a
                  (can_download-artifact s.mgr.state s.mgr.pending s.mgr.artifact a e))
              (tasks-Extends c {m = s.mgr} {m' = (download_begin c s.mgr).0} s.tasks k.extends
                h.tasks_ok));
      }

  start_verify-ok :
      (p : ℕ) (a : Artifact) (m m' : Manager) (ts : List Task)
      → IsTrusted c a
      → p < m'.next_file
      → All (TaskOk c m') ts
      → All (TaskOk c m') (add_hash (start_verify c p a m).1 ts)
  start_verify-ok p a m m' ts t l h = elim (Bool-cases (is_downloading m.state)) [
    | inl e ↦ rw (e, add_hash) ((t, l), h)
    | inr e ↦ rw (e, add_hash) h
  ]

  start_verify-grows :
      (p : ℕ) (a : Artifact) (m : Manager) → m.next_file ≤ (start_verify c p a m).0.next_file
  start_verify-grows p a m = unfold set_state remove_file in (ground arith)

  fetched-created :
      (t : DownloadTask) (h : Text) (m : Manager)
      → m.next_file < (download_fetched c t (fetched h) m).0.next_file
  unfolding download_fetched create_file
  fetched-created t h m =
      start_verify-grows m.next_file t.dl_artifact (create_file h (record m { cancel_func = none }))

  pub fetch_ends-Safe :
      (s : System) (t : DownloadTask) (o : FetchOutcome) (rest : List Task)
      → TaskOk c s.mgr (fetching t)
      → All (TaskOk c s.mgr) rest
      → MgrSafe c s.mgr
      → Safe c (record {
        mgr = (download_fetched c t o s.mgr).0;
        tasks = add_hash (download_fetched c t o s.mgr).1 rest;
      })
  fetch_ends-Safe s t (fetch_failed b) rest x xs h =
      unfold download_fetched in
      (moved s.mgr (download_fetched c t (fetch_failed b) s.mgr).0 rest
        (Keeps-download_fetched c t (fetch_failed b) s.mgr) h xs)
  fetch_ends-Safe s t (fetched k) rest x xs h =
      let m' = (download_fetched c t (fetched k) s.mgr).0 in
      let kept = Keeps-download_fetched c t (fetched k) s.mgr in
      record {
        mgr_safe = kept.safe h;
        tasks_ok =
            unfold download_fetched in
            (start_verify-ok s.mgr.next_file t.dl_artifact _ m' rest x (fetched-created t k s.mgr)
              (tasks-Extends c {m = s.mgr} {m' = m'} rest kept.extends xs));
      }

  can_install-parts :
      (st : State) (p : Option Release) (o : Option Artifact) (f : Option ℕ) (r : Release)
      (a : Artifact) (q : ℕ)
      → can_install st p o f ≡ some (r, a, q)
      → (p ≡ some r) × (f ≡ some q)
  can_install-parts st p o f r a q h = ground arith

  start_install-ok :
      (m m' : Manager) (o : Option (Release × Artifact × ℕ)) (ts : List Task)
      → ((r : Release) (a : Artifact) (q : ℕ) → o ≡ some (r, a, q) → FileOk c m' q × ReleaseOk c r)
      → All (TaskOk c m') ts
      → All (TaskOk c m') (add_install (start_install c o m).1 ts)
  start_install-ok m m' none ts t h = h
  start_install-ok m m' (some (r, a, q)) ts t h = (t r a q refl, h)

  pub install_starts-Safe :
      (s : System)
      → Safe c s
      → Safe c (record {
        mgr = (install_begin c s.mgr).0;
        tasks = add_install (install_begin c s.mgr).1 s.tasks;
      })
  install_starts-Safe s h =
      let m' = (install_begin c s.mgr).0 in
      let k = Keeps-Same c {m = s.mgr} {m' = m'} (Same-install_begin c s.mgr) in
      record {
        mgr_safe = k.safe h.mgr_safe;
        tasks_ok =
            unfold install_begin in
            (start_install-ok s.mgr m'
              (can_install s.mgr.state s.mgr.pending s.mgr.artifact s.mgr.staged) s.tasks
              (λ r a q e.
                let (p, f) =
                  can_install-parts s.mgr.state s.mgr.pending s.mgr.artifact s.mgr.staged r a q e in
                (
                  FileOk-Extends c {m = s.mgr} {m' = m'} q k.extends (h.mgr_safe.staged_ok q f),
                  h.mgr_safe.pending_ok r p,
                ))
              (tasks-Extends c {m = s.mgr} {m' = m'} s.tasks k.extends h.tasks_ok));
      }
