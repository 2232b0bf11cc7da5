-- ===== src/Update/Manager/System/Trust.antt =====
-- Trust: what every part of the manager's state must satisfy, and what it is for a handler to keep it.
use connective.Prelude.{
  ℕ, ◌<◌, true, List, [], ◌∷◌, Option, none, some, Text, ◌≡◌, ◌⊎◌, refl, sym, ◌∙◌, arith, All, ok,
}
use connective.Update.Manifest.{Artifact, SignedManifest, verify_manifest}
use connective.Update.Manifest.Best.{Member}
use connective.Update.Manager.{
  Config, Manager, Release, drop_staged, drop_path, remove_file, file_hash,
}
use connective.Update.Manager.Download.{hash_matches}
use connective.Update.Manager.System.{
  Task, querying, fetching, hashing, assembling, refetching, activating, System, Pick, first, later,
}
use connective.Update.Manager.System.Files.{
  Extends, Extends-refl, Extends-trans, Extends-same, Extends-remove_file,
}
use connective.Update.Manager.System.Frame.{Same}

module _ (c : Config) where
  -- The artifact stands in a manifest that a trusted key signed.
  pub record IsTrusted (a : Artifact) : Type 0 where
    pub sm : SignedManifest
    pub verified : verify_manifest c.crypto c.keys sm ≡ ok tt
    pub listed : Member a sm.manifest.artifacts

  -- A release from a verified manifest, or the one that announces an update at boot.
  abbrev pub ReleaseOk : Release → Type 0
  ReleaseOk r =
      (verify_manifest c.crypto c.keys r.signed ≡ ok tt) ⊎ (r.signed.manifest.artifacts ≡ [])

  -- If the file is still there, its bytes have the hash of a trusted artifact.
  pub record FileOk (m : Manager) (p : ℕ) : Type 0 where
    pub origin : Artifact
    pub trusted : IsTrusted origin
    pub created : p < m.next_file
    pub hashed : (h : Text) → file_hash p m.disk ≡ some h → hash_matches (some h) origin ≡ true

  abbrev pub TaskOk : Manager → Task → Type 0
  TaskOk m (querying q) = Unit
  TaskOk m (fetching t) = IsTrusted t.dl_artifact
  TaskOk m (hashing t) = IsTrusted t.vf_artifact × (t.vf_path < m.next_file)
  TaskOk m (assembling t) = FileOk m t.in_staged × ReleaseOk t.in_release
  TaskOk m (refetching t full) = IsTrusted full × ReleaseOk t.in_release
  TaskOk m activating = Unit

  pub record MgrSafe (m : Manager) : Type 0 where
    pub artifact_ok : (a : Artifact) → m.artifact ≡ some a → IsTrusted a
    pub staged_ok : (p : ℕ) → m.staged ≡ some p → FileOk m p
    pub pending_ok : (r : Release) → m.pending ≡ some r → ReleaseOk r

  pub record Safe (s : System) : Type 0 where
    pub mgr_safe : MgrSafe s.mgr
    pub tasks_ok : All (TaskOk s.mgr) s.tasks

  pub FileOk-Extends : {m m' : Manager} (p : ℕ) → Extends m m' → FileOk m p → FileOk m' p
  FileOk-Extends p e f = record {
    origin = f.origin;
    trusted = f.trusted;
    created = omega (arith, e.grows, f.created);
    hashed = λ h q. f.hashed h (e.keeps p h f.created q);
  }

  pub TaskOk-Extends : {m m' : Manager} (t : Task) → Extends m m' → TaskOk m t → TaskOk m' t
  TaskOk-Extends (querying q) e h = tt
  TaskOk-Extends (fetching t) e h = h
  TaskOk-Extends (hashing t) e h = (h.0, omega (arith, e.grows, h.1))
  TaskOk-Extends (assembling t) e h = (FileOk-Extends t.in_staged e h.0, h.1)
  TaskOk-Extends (refetching t full) e h = h
  TaskOk-Extends activating e h = tt

  pub tasks-Extends :
      {m m' : Manager} (ts : List Task) → Extends m m' → All (TaskOk m) ts → All (TaskOk m') ts
  tasks-Extends [] e h = tt
  tasks-Extends (t ∷ ts) e h = (TaskOk-Extends t e h.0, tasks-Extends ts e h.1)

  pub picked :
      (m : Manager) {t : Task} {ts rest : List Task}
      → Pick t ts rest
      → All (TaskOk m) ts
      → TaskOk m t × All (TaskOk m) rest
  picked m first h = h
  picked m (later p) h = let (x, xs) = picked m p h.1 in (x, (h.0, xs))

  -- A handler's effect on the manager: the files are kept and trust is kept.
  pub record Keeps (m m' : Manager) : Type 0 where
    pub extends : Extends m m'
    pub safe : MgrSafe m → MgrSafe m'

  pub Keeps-Same : {m m' : Manager} → Same m m' → Keeps m m'
  Keeps-Same {m} {m'} s =
      let e = Extends-same {m = m} {m' = m'} s.next_file_same s.disk_same in
      record {
        extends = e;
        safe = λ h. record {
          artifact_ok = λ a q. h.artifact_ok a (sym s.artifact_same ∙ q);
          staged_ok = λ p q. FileOk-Extends p e (h.staged_ok p (sym s.staged_same ∙ q));
          pending_ok = λ r q. h.pending_ok r (sym s.pending_same ∙ q);
        };
      }

  pub Keeps-trans : {m n o : Manager} → Keeps m n → Keeps n o → Keeps m o
  Keeps-trans a b = record {
    extends = Extends-trans a.extends b.extends;
    safe = λ h. b.safe (a.safe h);
  }

  -- The same release, artifact and staged file over files that are kept.
  pub Keeps-files :
      {m m' : Manager}
      → m'.artifact ≡ m.artifact
      → m'.staged ≡ m.staged
      → m'.pending ≡ m.pending
      → Extends m m'
      → Keeps m m'
  Keeps-files a s p e = record {
    extends = e;
    safe = λ h. record {
      artifact_ok = λ x q. h.artifact_ok x (sym a ∙ q);
      staged_ok = λ x q. FileOk-Extends x e (h.staged_ok x (sym s ∙ q));
      pending_ok = λ x q. h.pending_ok x (sym p ∙ q);
    };
  }

  pub Keeps-remove_file : (p : ℕ) (m : Manager) → Keeps m (remove_file p m)
  Keeps-remove_file p m =
      Keeps-files (unfold remove_file in refl) (unfold remove_file in refl)
        (unfold remove_file in refl) (Extends-remove_file p m)

  Keeps-drop_path : (o : Option ℕ) (m : Manager) → Keeps m (drop_path o m)
  Keeps-drop_path none m = record { extends = Extends-refl m; safe = λ h. h }
  Keeps-drop_path (some p) m =
      let k = Keeps-remove_file p m in
      record {
        extends = Extends-trans k.extends (Extends-same refl refl);
        safe = λ h.
            let h' = k.safe h in
            record {
              artifact_ok = h'.artifact_ok;
              staged_ok = λ q e. cc;
              pending_ok = h'.pending_ok;
            };
      }

  pub Keeps-drop_staged : (m : Manager) → Keeps m (drop_staged m)
  unfolding drop_staged
  Keeps-drop_staged m = Keeps-drop_path m.staged m

  pub Keeps-refl : (m : Manager) → Keeps m m
  Keeps-refl m = record { extends = Extends-refl m; safe = λ h. h }
