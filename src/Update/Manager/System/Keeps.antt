-- ===== src/Update/Manager/System/Keeps.antt =====
-- Each handler of the manager keeps trust.
use connective.Prelude.{
  ℕ, ◌<◌, true, none, some, Text, ◌≡◌, inl, inr, refl, arith, Bool-cases, Result, ok, err,
}
use mathlib.Core.Path.{subst}
use connective.Update.Lifecycle.{failed, no_update, update_available, verifying}
use connective.Update.Manifest.{Artifact, verify_manifest, TrustError, SelectError, select_artifact}
use connective.Update.Manifest.Selection.{select_artifact-Member}
use connective.Update.Manager.{
  Config, Manager, Release, set_state, save_cache, create_file, file_hash, Progress,
}
use connective.Update.Manager.Check.{
  CheckOutcome, run_check, run_answer, run_verified, run_selected, accept_release, is_checking,
  up_to_date, not_configured, rate_limited, provider_error,
}
use connective.Update.Manager.Download.{
  DownloadTask, VerifyTask, hash_matches, download_fetched, download_verified, fetch_failed,
  fetched, FetchOutcome, is_downloading, is_verifying, start_verify,
}
use connective.Update.Manager.Install.{
  InstallTask, install_finish, AssembleOutcome, HandoffOutcome, is_staging,
}
use connective.Update.Manager.System.{hashing}
use connective.Update.Manager.System.Files.{Extends-same, Extends-create_file}
use connective.Update.Manager.System.Frame.{
  Same-set_state, Same-count_failure, Same-assembled_tree, Same-fetch_failed,
}
use connective.Update.Manager.System.Trust.{
  IsTrusted, ReleaseOk, FileOk, TaskOk, Keeps, Keeps-Same, Keeps-trans, Keeps-files,
  Keeps-remove_file, Keeps-drop_staged, FileOk-Extends, Keeps-refl,
}

module _ (c : Config) where
  Keeps-new_release :
      (rel : Release) (art : Artifact) (m : Manager)
      → ReleaseOk c rel
      → IsTrusted c art
      → Keeps c m (record m { pending = some rel; artifact = some art })
  Keeps-new_release rel art m r t = record {
    extends = Extends-same refl refl;
    safe = λ h. record {
      artifact_ok = λ a e. let same : art ≡ a = ground arith in subst (IsTrusted c) same t;
      staged_ok = λ p e. FileOk-Extends c p (Extends-same refl refl) (h.staged_ok p e);
      pending_ok = λ q e. let same : rel ≡ q = ground arith in subst (ReleaseOk c) same r;
    };
  }

  Keeps-accept_release :
      (now : ℕ) (rel : Release) (art : Artifact) (m : Manager)
      → ReleaseOk c rel
      → IsTrusted c art
      → Keeps c m (accept_release c now rel art m)
  unfolding accept_release
  Keeps-accept_release now rel art m r t = Keeps-trans c (Keeps-new_release rel art m r t) (
      Keeps-trans c (Keeps-drop_staged c (record m { pending = some rel; artifact = some art }))
        (Keeps-Same c (unfold set_state save_cache in (ground arith))))

  Keeps-run_selected :
      (now : ℕ) (rel : Release) (r : Result SelectError Artifact) (m : Manager)
      → ReleaseOk c rel
      → ((a : Artifact) → r ≡ ok a → IsTrusted c a)
      → Keeps c m (run_selected c now rel r m)
  Keeps-run_selected now rel (err x) m k t = Keeps-Same c (Same-set_state c failed _ m)
  Keeps-run_selected now rel (ok a) m k t = Keeps-accept_release now rel a m k (t a refl)

  Keeps-run_verified :
      (now : ℕ) (rel : Release) (r : Result TrustError (Unit {0})) (m : Manager)
      → verify_manifest c.crypto c.keys rel.signed ≡ r
      → Keeps c m (run_verified c now rel r m)
  Keeps-run_verified now rel (err x) m v = Keeps-Same c (Same-count_failure c failed _ m)
  Keeps-run_verified now rel (ok u) m v =
      Keeps-run_selected now rel (select_artifact c.current rel.signed.manifest) m (inl v) (λ a e.
        record {
          sm = rel.signed;
          verified = v;
          listed = select_artifact-Member c.current rel.signed.manifest a e;
        })

  Keeps-run_answer :
      (now : ℕ) (answer : CheckOutcome) (m : Manager) → Keeps c m (run_answer c now answer m)
  unfolding run_answer
  Keeps-run_answer now (err up_to_date) m = Keeps-Same c (Same-set_state c no_update _ m)
  Keeps-run_answer now (err not_configured) m = Keeps-Same c (Same-set_state c no_update _ m)
  Keeps-run_answer now (err rate_limited) m = Keeps-Same c (Same-count_failure c failed _ m)
  Keeps-run_answer now (err (provider_error x)) m = Keeps-Same c (Same-count_failure c failed _ m)
  Keeps-run_answer now (ok rel) m = Keeps-run_verified now rel _ m refl

  pub Keeps-run_check :
      (now : ℕ) (answer : CheckOutcome) (m : Manager) → Keeps c m (run_check c now answer m)
  unfolding run_check
  Keeps-run_check now answer m = elim (Bool-cases (is_checking m.state)) [
    | inl e ↦ rw e (Keeps-run_answer now answer m)
    | inr e ↦ rw e (Keeps-refl c m)
  ]

  pub Keeps-install_finish :
      (now : ℕ) (t : InstallTask) (a : AssembleOutcome) (o : HandoffOutcome) (m : Manager)
      → Keeps c m (install_finish c now t a o m)
  unfolding install_finish
  Keeps-install_finish now t a o m = elim (Bool-cases (is_staging m.state)) [
    | inl e ↦ rw e (
        Keeps-trans c (Keeps-Same c (ground arith))
          (Keeps-Same c (Same-assembled_tree c now t a o _)))
    | inr e ↦ rw e (Keeps-trans c (Keeps-Same c (ground arith)) (Keeps-drop_staged c _))
  ]

  pub Keeps-create_file : (h : Text) (m : Manager) → Keeps c m (create_file h m)
  Keeps-create_file h m =
      Keeps-files c (unfold create_file in refl) (unfold create_file in refl)
        (unfold create_file in refl) (Extends-create_file h m)

  Keeps-start_verify : (p : ℕ) (a : Artifact) (m : Manager) → Keeps c m (start_verify c p a m).0
  Keeps-start_verify p a m = elim (Bool-cases (is_downloading m.state)) [
    | inl e ↦ rw e (Keeps-Same c (Same-set_state c verifying _ m))
    | inr e ↦ rw e (Keeps-remove_file c p m)
  ]

  pub Keeps-download_fetched :
      (t : DownloadTask) (o : FetchOutcome) (m : Manager) → Keeps c m (download_fetched c t o m).0
  Keeps-download_fetched t (fetch_failed b) m = Keeps-Same c (Same-fetch_failed c t b m)
  Keeps-download_fetched t (fetched h) m =
      unfold download_fetched in
      (Keeps-trans c
        (Keeps-trans c (Keeps-Same c (ground arith))
          (Keeps-create_file h (record m { cancel_func = none })))
        (Keeps-start_verify m.next_file t.dl_artifact _))

  -- A file that was just created is what its hash says, whoever hashed it.
  pub staged_file :
      (p : ℕ) (a : Artifact) (m : Manager)
      → IsTrusted c a
      → p < m.next_file
      → hash_matches (file_hash p m.disk) a ≡ true
      → FileOk c m p
  staged_file p a m t l g = record {
    origin = a;
    trusted = t;
    created = l;
    hashed = λ h e. subst (λ o. hash_matches o a ≡ true) e g;
  }

  pub Keeps-download_verified :
      (t : VerifyTask) (m : Manager) → TaskOk c m (hashing t) → Keeps c m (download_verified c t m)
  unfolding download_verified
  Keeps-download_verified t m k =
      elim (Bool-cases (hash_matches (file_hash t.vf_path m.disk) t.vf_artifact)) [
        | inl g ↦ elim (Bool-cases (is_verifying m.state)) [
          | inl e ↦
              rw (g, e)
                (Keeps-trans c (stage g) (Keeps-Same c (Same-set_state c update_available _ _)))
          | inr e ↦ rw (g, e) (Keeps-remove_file c t.vf_path m)
        ]
        | inr g ↦ elim (Bool-cases (is_verifying m.state)) [
          | inl e ↦
              rw (g, e)
                (Keeps-trans c (Keeps-remove_file c t.vf_path m)
                  (Keeps-Same c (Same-set_state c failed _ _)))
          | inr e ↦
              rw (g, e)
                (Keeps-trans c (Keeps-remove_file c t.vf_path m) (Keeps-remove_file c t.vf_path _))
        ]
      ]
    where
      stage :
          {pr : Progress}
          → hash_matches (file_hash t.vf_path m.disk) t.vf_artifact ≡ true
          → Keeps c m (record m { staged = some t.vf_path; progress = pr })
      stage g = record {
        extends = Extends-same refl refl;
        safe = λ h. record {
          artifact_ok = h.artifact_ok;
          staged_ok = λ p e.
              let same : t.vf_path ≡ p = ground arith in
              subst (FileOk c _) same (staged_file t.vf_path t.vf_artifact _ k.0 k.1 g);
          pending_ok = h.pending_ok;
        };
      }
