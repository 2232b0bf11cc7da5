-- ===== src/Update/Manager/System/Safety.antt =====
-- Trust holds in every state that the daemon can reach.
use connective.Prelude.{
  ◌&&◌, List, [], Option, none, some, Text, ◌≡◌, inl, inr, refl, arith, Bool-cases, All,
}
use mathlib.Core.Path.{subst}
use connective.Update.Lifecycle.{updated, failed}
use connective.Update.Manager.{Config, Cache, Manager, Release, save_cache}
use connective.Update.Manager.Install.{
  assemble_failed, tree_at, AssembleOutcome, spawned, install_finish, is_staging,
}
use connective.Update.Manager.Boot.{
  BootFiles, ResultUpdate, init, announce, seeded, fresh_manager, named_release,
}
use connective.Update.Manager.System.{
  Task, System, Step, check_starts, check_answers, download_starts, progresses, fetch_ends,
  hash_ends, install_starts, falls_back, refetch_fails, refetch_ends, install_ends, activation_ends,
  updater_exits, cancels, dismisses, Reach, here, next, boot, add_activation,
}
use connective.Update.Manager.System.Frame.{
  Same, Same-set_state, Same-start_check, Same-on_progress, Same-install_activated,
  Same-on_updater_exit, Same-cancel, Same-dismiss,
}
use connective.Update.Manager.System.Trust.{
  ReleaseOk, TaskOk, MgrSafe, Safe, tasks-Extends, picked, Keeps-Same,
}
use connective.Update.Manager.System.Keeps.{
  Keeps-run_check, Keeps-install_finish, Keeps-download_verified,
}
use connective.Update.Manager.System.Tasks.{
  moved, add_query-ok, download_starts-Safe, fetch_ends-Safe, install_starts-Safe,
}
use connective.Update.Manager.System.Refetch.{fallback-IsTrusted, refetched-Safe}
use connective.Update.Manager.Check.{start_check}

module _ (c : Config) where
  -- A step on the manager alone.
  step-Same :
      (s : System) (m' : Manager)
      → Same s.mgr m'
      → Safe c s
      → Safe c (record { mgr = m'; tasks = s.tasks })
  step-Same s m' e h = moved c s.mgr m' s.tasks (Keeps-Same c e) h.mgr_safe h.tasks_ok

  -- A task ends.
  add_activation-ok :
      (m m' : Manager) (a : AssembleOutcome) (ts : List Task)
      → All (TaskOk c m') ts
      → All (TaskOk c m') (add_activation c m a ts)
  add_activation-ok m m' assemble_failed ts h = h
  add_activation-ok m m' (tree_at d) ts h = elim (Bool-cases (c.test_apply && is_staging m.state)) [
    | inl e ↦ rw (e, add_activation) (tt, h)
    | inr e ↦ rw (e, add_activation) h
  ]

  Step-Safe : {s s' : System} → Step c s s' → Safe c s → Safe c s'
  Step-Safe (check_starts s now manual) h =
      let m' = (start_check c now manual s.mgr).0 in
      let k = Keeps-Same c {m = s.mgr} {m' = m'} (Same-start_check c now manual s.mgr) in
      record {
        mgr_safe = k.safe h.mgr_safe;
        tasks_ok =
            add_query-ok c m' _ s.tasks
              (tasks-Extends c {m = s.mgr} {m' = m'} s.tasks k.extends h.tasks_ok);
      }
  Step-Safe (check_answers s now q answer rest p) h =
      moved c s.mgr _ rest (Keeps-run_check c now answer s.mgr) h.mgr_safe
        (picked c s.mgr p h.tasks_ok).1
  Step-Safe (download_starts s) h = download_starts-Safe c s h
  Step-Safe (progresses s done total speed) h =
      step-Same s _ (Same-on_progress c done total speed s.mgr) h
  Step-Safe (fetch_ends s t o rest p) h =
      let (x, xs) = picked c s.mgr p h.tasks_ok in fetch_ends-Safe c s t o rest x xs h.mgr_safe
  Step-Safe (hash_ends s t rest p) h =
      let (x, xs) = picked c s.mgr p h.tasks_ok in
      moved c s.mgr _ rest (Keeps-download_verified c t s.mgr x) h.mgr_safe xs
  Step-Safe (install_starts s) h = install_starts-Safe c s h
  Step-Safe (falls_back s t full rest p e) h =
      let (x, xs) = picked c s.mgr p h.tasks_ok in
      record { mgr_safe = h.mgr_safe; tasks_ok = ((fallback-IsTrusted c t full x.1 e, x.1), xs) }
  Step-Safe (refetch_fails s now t full rest p) h =
      moved c s.mgr _ rest (Keeps-install_finish c now t assemble_failed spawned s.mgr) h.mgr_safe
        (picked c s.mgr p h.tasks_ok).1
  Step-Safe (refetch_ends s now t full k rest p) h =
      let (x, xs) = picked c s.mgr p h.tasks_ok in
      refetched-Safe c s now t full k rest x xs h.mgr_safe
  Step-Safe (install_ends s now t a o rest p e) h =
      let m' = install_finish c now t a o s.mgr in
      let k = Keeps-install_finish c now t a o s.mgr in
      record {
        mgr_safe = k.safe h.mgr_safe;
        tasks_ok =
            add_activation-ok s.mgr m' a rest (
              tasks-Extends c {m = s.mgr} {m' = m'} rest k.extends (picked c s.mgr p h.tasks_ok).1);
      }
  Step-Safe (activation_ends s o rest p) h =
      moved c s.mgr _ rest (Keeps-Same c (Same-install_activated c o s.mgr)) h.mgr_safe
        (picked c s.mgr p h.tasks_ok).1
  Step-Safe (updater_exits s msg) h = step-Same s _ (Same-on_updater_exit c msg s.mgr) h
  Step-Safe (cancels s) h = step-Same s _ (Same-cancel c s.mgr) h
  Step-Safe (dismisses s) h = step-Same s _ (Same-dismiss c s.mgr) h

  Reach-Safe : {s s' : System} → Safe c s → Reach c s s' → Safe c s'
  Reach-Safe h here = h
  Reach-Safe h (next r st) = Step-Safe st (Reach-Safe h r)

  boot_tasks-Safe : (m : Manager) → MgrSafe c m → Safe c (record { mgr = m; tasks = [] })
  boot_tasks-Safe m h = record { mgr_safe = h; tasks_ok = tt }

  -- A manager with nothing downloaded.
  empty-MgrSafe :
      (m : Manager)
      → m.artifact ≡ none
      → m.staged ≡ none
      → ((r : Release) → m.pending ≡ some r → ReleaseOk c r)
      → MgrSafe c m
  empty-MgrSafe m a s p = record { artifact_ok = λ x e. cc; staged_ok = λ x e. cc; pending_ok = p }

  seeded-MgrSafe : (v : Text) (m : Manager) → MgrSafe c (seeded v m)
  seeded-MgrSafe v m =
      empty-MgrSafe (seeded v m) refl refl (λ r e.
        let same : named_release v ≡ r = ground arith in subst (ReleaseOk c) same (inr refl))

  abbrev seen_version : Text → Manager → Manager
  seen_version v m =
      let m' = seeded v m in
      save_cache (record m' { cache = record (m'.cache) { last_seen_version = v } })

  announce-MgrSafe :
      (o : Option ResultUpdate) (m : Manager) → MgrSafe c m → MgrSafe c (announce c o m)
  unfolding announce
  announce-MgrSafe none m h = h
  announce-MgrSafe (some r) m h =
      let z = seeded-MgrSafe r.result_version m in
      elim (Bool-cases r.result_ok) [
        | inl e ↦ rw e (
            (Keeps-Same c (Same-set_state c updated [] (seen_version r.result_version m))).safe (
              (Keeps-Same c {m = seeded r.result_version m} {m' = seen_version r.result_version m}
                  (unfold save_cache in (ground arith))).safe
                z))
        | inr e ↦ rw e ((Keeps-Same c (Same-set_state c failed _ _)).safe z)
      ]

  boot-Safe : (cache : Cache) (files : BootFiles) → Safe c (boot c cache files)
  unfolding init
  boot-Safe cache files = boot_tasks-Safe _ (
      announce-MgrSafe _ _ (
        empty-MgrSafe (fresh_manager cache _) (unfold fresh_manager in refl)
          (unfold fresh_manager in refl) (λ r e. unfold fresh_manager in (ground arith))))

  pub reached-Safe :
      (cache : Cache) (files : BootFiles) {s : System} → Reach c (boot c cache files) s → Safe c s
  reached-Safe cache files r = Reach-Safe (boot-Safe cache files) r
