-- ===== src/Update/Manager/System/Refetch.antt =====
-- The fall-back from a delta to the full artifact keeps trust.
use connective.Prelude.{
  ℕ, Bool, true, false, ==_refl, if◌then◌else◌, List, [], ◌∷◌, none, some, Text, ◌≡◌, inl, inr,
  refl, ap, arith, All,
}
use mathlib.Core.Path.{subst}
use connective.Update.Manifest.{Artifact, full_artifact_of}
use connective.Update.Manifest.Selection.{full_artifact_of-Member}
use connective.Update.Manager.{Config, Manager, create_file, file_hash, remove_file}
use connective.Update.Manager.Download.{hash_matches}
use connective.Update.Manager.Install.{
  InstallTask, fallback_artifact, assemble_failed, spawned, install_refetched,
}
use connective.Update.Manager.System.{Task, assembling, refetching, System, after_refetch}
use connective.Update.Manager.System.Files.{Extends, Extends-same}
use connective.Update.Manager.System.Trust.{
  IsTrusted, ReleaseOk, FileOk, TaskOk, MgrSafe, Safe, FileOk-Extends, tasks-Extends, Keeps-trans,
  Keeps-remove_file,
}
use connective.Update.Manager.System.Keeps.{Keeps-install_finish, Keeps-create_file, staged_file}
use connective.Update.Manager.System.Tasks.{moved}

module _ (c : Config) where
  -- The full artifact of a release that was trusted is trusted.
  pub fallback-IsTrusted :
      (t : InstallTask) (full : Artifact)
      → ReleaseOk c t.in_release
      → fallback_artifact t assemble_failed ≡ some full
      → IsTrusted c full
  unfolding fallback_artifact
  fallback-IsTrusted t full (inl v) e = record {
    sm = t.in_release.signed;
    verified = v;
    listed = full_artifact_of-Member _ full (ground arith);
  }
  fallback-IsTrusted t full (inr n) e =
      let found : full_artifact_of t.in_release.signed.manifest.artifacts ≡ some full =
        ground arith in
      cc (ap full_artifact_of n, no_full, found)
    where
      no_full : full_artifact_of [] ≡ none
      no_full = unfold full_artifact_of in refl

  fresh-FileOk :
      (h : Text) (a : Artifact) (m : Manager)
      → IsTrusted c a
      → hash_matches (some h) a ≡ true
      → FileOk c (create_file h m) m.next_file
  unfolding create_file
  fresh-FileOk h a m t g =
      staged_file c m.next_file a _ t (omega arith)
        (unfold file_hash in (rw (==_refl m.next_file) g))

  -- The full artifact and the file that was fetched for it take the place of the delta.
  abbrev refetched_mgr : Text → Artifact → Manager → Manager
  refetched_mgr h full m = record (create_file h m) {
    staged = some m.next_file;
    artifact = some full;
  }

  refetched_good-Safe :
      (m : Manager) (t : InstallTask) (full : Artifact) (h : Text) (rest : List Task)
      → IsTrusted c full
      → ReleaseOk c t.in_release
      → All (TaskOk c m) rest
      → MgrSafe c m
      → hash_matches (some h) full ≡ true
      → Safe c (record {
        mgr = refetched_mgr h full m;
        tasks = assembling (record t { in_staged = m.next_file; is_delta = false }) ∷ rest;
      })
  refetched_good-Safe m t full h rest x r xs s g =
      let k = Keeps-create_file c h m in
      let m' = create_file h m in
      let m'' = refetched_mgr h full m in
      let e : Extends m' m'' = Extends-same refl refl in
      let f = FileOk-Extends c {m = m'} {m' = m''} m.next_file e (fresh-FileOk h full m x g) in
      record {
        mgr_safe = record {
          artifact_ok = λ a q. let same : full ≡ a = ground arith in subst (IsTrusted c) same x;
          staged_ok =
              λ p q. let same : m.next_file ≡ p = ground arith in subst (FileOk c m'') same f;
          pending_ok = (k.safe s).pending_ok;
        };
        tasks_ok = (
          (f, r),
          tasks-Extends c {m = m'} {m' = m''} rest e
              (tasks-Extends c {m = m} {m' = m'} rest k.extends xs),
        );
      }

  refetched_either-Safe :
      (b : Bool) (now : ℕ) (m : Manager) (t : InstallTask) (full : Artifact) (h : Text)
      (rest : List Task)
      → hash_matches (some h) full ≡ b
      → IsTrusted c full
      → ReleaseOk c t.in_release
      → All (TaskOk c m) rest
      → MgrSafe c m
      → Safe c (
          after_refetch c now t
            (if b
              then (
                refetched_mgr h full m,
                some (record t { in_staged = m.next_file; is_delta = false }),
              )
              else (remove_file m.next_file (create_file h m), none))
            rest)
  refetched_either-Safe true now m t full h rest g x r xs s =
      refetched_good-Safe m t full h rest x r xs s g
  refetched_either-Safe false now m t full h rest g x r xs s =
      moved c m _ rest
        (Keeps-trans c (Keeps-create_file c h m) (
          Keeps-trans c (Keeps-remove_file c m.next_file (create_file h m))
            (Keeps-install_finish c now t assemble_failed spawned _)))
        s xs

  pub refetched-Safe :
      (s : System) (now : ℕ) (t : InstallTask) (full : Artifact) (h : Text) (rest : List Task)
      → TaskOk c s.mgr (refetching t full)
      → All (TaskOk c s.mgr) rest
      → MgrSafe c s.mgr
      → Safe c (after_refetch c now t (install_refetched t full h s.mgr) rest)
  unfolding install_refetched
  refetched-Safe s now t full h rest x xs m =
      refetched_either-Safe (hash_matches (some h) full) now s.mgr t full h rest refl x.0 x.1 xs m
