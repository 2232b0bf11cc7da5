-- ===== src/Update/Manager/System/Installed.antt =====
-- What the daemon stages, offers and installs is what a trusted key signed.
use connective.Prelude.{true, ℕ, List, some, Text, ◌≡◌}
use connective.Update.Manifest.{Artifact}
use connective.Update.Manager.{Config, Cache, Manager, file_hash}
use connective.Update.Manager.Download.{hash_matches}
use connective.Update.Manager.Install.{InstallTask}
use connective.Update.Manager.Boot.{BootFiles}
use connective.Update.Manager.System.{Task, assembling, System, Pick, boot, Reach}
use connective.Update.Manager.System.Trust.{IsTrusted, FileOk, picked}
use connective.Update.Manager.System.Safety.{reached-Safe}

-- The hash is that of an artifact which a verified manifest lists.
pub record Vouched (c : Config) (h : Text) : Type 0 where
  pub artifact : Artifact
  pub trusted : IsTrusted c artifact
  pub same_hash : hash_matches (some h) artifact ≡ true

vouched :
    (c : Config) {m : Manager} (p : ℕ) (h : Text)
    → FileOk c m p
    → file_hash p m.disk ≡ some h
    → Vouched c h
vouched c p h f e = record { artifact = f.origin; trusted = f.trusted; same_hash = f.hashed h e }

-- In every state that the daemon can reach from its start, through checks, downloads, installations,
-- cancellations, dismissals and exits of the updater in any order, the bytes of the file that is
-- about to be assembled, as long as the file is there, have the hash of an artifact listed in a
-- manifest that `verify_manifest` accepted under the pinned keys.
pub installs-Vouched :
    (c : Config) (cache : Cache) (files : BootFiles) (s : System) (t : InstallTask)
    (rest : List Task) (h : Text)
    → Reach c (boot c cache files) s
    → Pick (assembling t) s.tasks rest
    → file_hash t.in_staged s.mgr.disk ≡ some h
    → Vouched c h
installs-Vouched c cache files s t rest h r p e =
    let (f, _) = (picked c s.mgr p (reached-Safe c cache files r).tasks_ok).0 in
    vouched c {m = s.mgr} t.in_staged h f e

-- In every reachable state, the same holds of the staged file: whatever check, download or fall-back
-- put it there, its bytes have the hash of an artifact from a verified manifest.
pub stages-Vouched :
    (c : Config) (cache : Cache) (files : BootFiles) (s : System) (p : ℕ) (h : Text)
    → Reach c (boot c cache files) s
    → s.mgr.staged ≡ some p
    → file_hash p s.mgr.disk ≡ some h
    → Vouched c h
stages-Vouched c cache files s p h r e q =
    vouched c {m = s.mgr} p h ((reached-Safe c cache files r).mgr_safe.staged_ok p e) q

-- In every reachable state, an artifact that the manager holds for download stands in a manifest
-- that `verify_manifest` accepted.
pub offers-IsTrusted :
    (c : Config) (cache : Cache) (files : BootFiles) (s : System) (a : Artifact)
    → Reach c (boot c cache files) s
    → s.mgr.artifact ≡ some a
    → IsTrusted c a
offers-IsTrusted c cache files s a r e = (reached-Safe c cache files r).mgr_safe.artifact_ok a e
