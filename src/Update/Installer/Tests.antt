-- ===== src/Update/Installer/Tests.antt =====
-- An update activated and rolled back.
use connective.Prelude.{
  List, [], ◌∷◌, none, some, codes, ok, ◌≡◌, refl, trim_space, split, has_char, text_eq,
}
use connective.Update.Version.{parse_version}
use connective.Update.Version.Number.{atoi}
use connective.Update.Installer.{
  Root, InstallCall, activating, rolling_back, activate, rollback, run_calls,
}
use connective.Update.Installer.Links.{Keeps, run_calls-Keeps}
use connective.Update.Installer.Anchor.{no_faults, rollback-activate}
use connective.Update.Installer.Active.{Switched, activate-Switched}
use connective.Apps.{base}

abbrev installed : Root
installed = record {
  versions = (codes "0.1.0", []) ∷ (codes "0.2.0", []) ∷ [];
  current = some (codes "versions/0.1.0");
  previous = none;
}

abbrev after : Root
after = record installed {
  current = some (codes "versions/0.2.0");
  previous = some (codes "versions/0.1.0");
}

abbrev calls : List InstallCall
calls = activating no_faults (codes "0.2.0") ∷ rolling_back no_faults ∷ []

run_calls-Keeps_example : Keeps installed (run_calls calls installed)
run_calls-Keeps_example = run_calls-Keeps calls installed

switched : activate no_faults (codes "0.2.0") installed ≡ (after, ok (codes "0.1.0"))
unfolding activate parse_version trim_space split atoi has_char text_eq base
switched = refl

rollback-activate_example :
    (rollback no_faults after
      ≡ (record installed { previous = some (codes "versions/0.1.0") }, ok (codes "0.1.0")))
    × (codes "0.1.0" ≡ base (codes "versions/0.1.0"))
rollback-activate_example =
    rollback-activate no_faults (codes "0.2.0") (codes "versions/0.1.0") (codes "0.1.0") installed
      after refl switched

activate-Switched_example :
    Switched (codes "0.2.0") installed (activate no_faults (codes "0.2.0") installed)
activate-Switched_example = activate-Switched no_faults (codes "0.2.0") installed
