-- ===== src/Update/Manager/Outcomes.antt =====
-- How a check and an installation end.
use connective.Prelude.{
  ℕ, false, none, some, Text, text_eq, ok, err, Result-cases, Bool-cases, ◌≡◌, ◌⊎◌, inl, inr, refl,
  arith,
}
use mathlib.Core.Path.{subst}
use connective.Update.Lifecycle.{
  checking, no_update, update_available, failed, restarting, staging, allowed,
}
use connective.Update.Manifest.{Artifact, select_artifact, verify_manifest}
use connective.Update.Manager.{
  Config, Release, Manager, set_state, save_cache, drop_staged, remove_file, unix,
}
use connective.Update.Manager.Check.{
  CheckOutcome, up_to_date, not_configured, rate_limited, provider_error, run_check, run_answer,
  accept_release,
}
use connective.Update.Manager.Install.{
  InstallTask, AssembleOutcome, tree_at, assemble_failed, HandoffOutcome, spawned, handoff_failed,
  install_finish,
}

-- An offer: the answer was a release whose signature verified, an artifact of it was chosen, both are
-- kept, no older file is staged, the failures are forgotten, and the user has not dismissed it.
pub record IsOffer (c : Config) (answer : CheckOutcome) (m m' : Manager) : Type 0 where
  pub release : Release
  pub chosen : Artifact
  pub answered : answer ≡ ok release
  pub verified : verify_manifest c.crypto c.keys release.signed ≡ ok tt
  pub selected : select_artifact c.current release.signed.manifest ≡ ok chosen
  pub keeps_release : m'.pending ≡ some release
  pub keeps_artifact : m'.artifact ≡ some chosen
  pub nothing_staged : m'.staged ≡ none
  pub no_failures : m'.cache.fail_count ≡ 0
  pub wanted : text_eq m.cache.dismissed release.signed.manifest.version ≡ false

-- How a check ends.
abbrev pub CheckEnd : Config → CheckOutcome → Manager → Manager → Type 0
CheckEnd c answer m m' =
    (m'.state ≡ no_update)
    ⊎ ((m'.state ≡ failed) ⊎ ((m'.state ≡ update_available) × IsOffer c answer m m'))

accepted :
    (c : Config) (now : ℕ) (rel : Release) (art : Artifact) (m : Manager)
    → m.state ≡ checking
    → verify_manifest c.crypto c.keys rel.signed ≡ ok tt
    → select_artifact c.current rel.signed.manifest ≡ ok art
    → CheckEnd c (ok rel) m (accept_release c now rel art m)
unfolding accept_release set_state allowed save_cache drop_staged remove_file
accepted c now rel art m h v s =
    elim (Bool-cases (text_eq m.cache.dismissed rel.signed.manifest.version)) [
      | inl e ↦ inl (ground arith)
      | inr e ↦ inr (
          inr (
            ground arith,
            record {
              release = rel;
              chosen = art;
              answered = refl;
              verified = v;
              selected = s;
              keeps_release = ground arith;
              keeps_artifact = ground arith;
              nothing_staged = ground arith;
              no_failures = ground arith;
              wanted = e;
            },
          ))
    ]

answer-ends :
    (c : Config) (now : ℕ) (answer : CheckOutcome) (m : Manager)
    → m.state ≡ checking
    → CheckEnd c answer m (run_answer c now answer m)
unfolding run_answer set_state allowed save_cache
answer-ends c now (err up_to_date) m h = inl (ground arith)
answer-ends c now (err not_configured) m h = inl (ground arith)
answer-ends c now (err rate_limited) m h = inr (inl (ground arith))
answer-ends c now (err (provider_error x)) m h = inr (inl (ground arith))
answer-ends c now (ok rel) m h = elim (Result-cases (verify_manifest c.crypto c.keys rel.signed)) [
  | inr (x, e) ↦ rw e (inr (inl (ground arith)))
  | inl (u, e) ↦ elim (Result-cases (select_artifact c.current rel.signed.manifest)) [
    | inr (x, f) ↦ rw (e, f) (inr (inl (ground arith)))
    | inl (art, f) ↦ rw (e, f) (accepted c now rel art m h e f)
  ]
]

checks :
    (c : Config) (now : ℕ) (answer : CheckOutcome) (m : Manager)
    → m.state ≡ checking
    → run_answer c now answer m ≡ run_check c now answer m
unfolding run_check
checks c now answer m h = ground arith

-- A check that is not cancelled ends: nothing new, failed, or an update on offer. It is on offer only
-- when the provider's manifest verified under the pinned keys, an artifact was selected from it, and
-- the user has not dismissed the version; whatever was staged before is gone.
pub run_check_lem :
    (c : Config) (now : ℕ) (answer : CheckOutcome) (m : Manager)
    → m.state ≡ checking
    → CheckEnd c answer m (run_check c now answer m)
run_check_lem c now answer m h =
    subst (CheckEnd c answer m) (checks c now answer m h) (answer-ends c now answer m h)

-- An installation that is not cancelled, outside the test mode, is not left in `installing`: either
-- the daemon is restarting, with the contract for the updater written and the tree recorded, or it
-- failed; when the hand-over failed no contract is left.
pub install_finish_lem :
    (c : Config) (now : ℕ) (t : InstallTask) (a : AssembleOutcome) (o : HandoffOutcome)
    (m : Manager)
    → c.test_apply ≡ false
    → m.state ≡ staging
    → ((dir : Text) × (a ≡ tree_at dir)
        × (o ≡ spawned)
        × ((install_finish c now t a o m).state ≡ restarting)
        × ((install_finish c now t a o m).assembled ≡ dir)
        × ((install_finish c now t a o m).pending_file
            ≡ some (record { pending_version = t.in_version; tree = dir; at_unix = unix now })))
      ⊎ (((install_finish c now t a o m).state ≡ failed)
          × ((a ≡ assemble_failed) ⊎ ((install_finish c now t a o m).pending_file ≡ none)))
unfolding install_finish set_state allowed
install_finish_lem c now t assemble_failed o m e h = inr (ground arith, inl refl)
install_finish_lem c now t (tree_at dir) spawned m e h =
    inl (dir, refl, refl, ground arith, ground arith, ground arith)
install_finish_lem c now t (tree_at dir) (handoff_failed msg) m e h =
    inr (ground arith, inr (ground arith))
