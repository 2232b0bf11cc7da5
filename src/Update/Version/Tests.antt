-- ===== src/Update/Version/Tests.antt =====
-- Runs of the version functions, and the theorems at concrete inputs.
use connective.Prelude.{
  ◌≡◌, ◌↔◌, refl, if◌then◌else◌, is_empty, [], ok, err, codes, trim_space, trim_right, split,
  text_eq, true, Ordering, arith,
}
use connective.Update.Version.Number.{atoi, format}
use connective.Update.Version.{
  Version, parse_version, print_version, compare_version, compare_pre, acceptable, component,
  bad_version, is_newer_than,
}
use connective.Update.Version.Order.{flip, compare_version-order, final_outranks}
use connective.Update.Version.Print.{parse-print}
use connective.Update.Version.Policy.{IsUpgrade, acceptable_iff}

abbrev beta : Version
beta = record { major = 1; minor = 0; patch = 12; pre = codes "beta.1" }

abbrev final : Version
final = record { major = 1; minor = 0; patch = 12; pre = [] }

parse_beta : parse_version (codes " 1.0.12-beta.1\n") ≡ ok beta
unfolding parse_version trim_space component split atoi
parse_beta = refl

plus_sign : parse_version (codes "+1.0.12") ≡ ok final
unfolding parse_version trim_space component split atoi
plus_sign = refl

four_parts : parse_version (codes "1.2.3.4") ≡ err bad_version
unfolding parse_version trim_space component split atoi
four_parts = refl

print_beta : print_version beta ≡ codes "1.0.12-beta.1"
unfolding print_version format
print_beta = refl

parse-print_example : parse_version (print_version beta) ≡ ok beta
unfolding trim_right
parse-print_example = parse-print beta (record {
  major_fits = omega arith;
  minor_fits = omega arith;
  patch_fits = omega arith;
  pre_trimmed = refl;
})

compare_version-order_example :
    ((compare_version beta final ≡ Ordering.eq) ↔ (beta ≡ final))
    × (compare_version final beta ≡ flip (compare_version beta final))
    × (compare_version (record beta { pre = [] }) beta
        ≡ (if is_empty beta.pre then Ordering.eq else Ordering.gt))
compare_version-order_example = compare_version-order beta final

abbrev alpha : Version
alpha = record { major = 1; minor = 0; patch = 12; pre = codes "alpha" }

final_outranks_example : compare_version final beta ≡ Ordering.gt
final_outranks_example = final_outranks final beta refl refl refl refl refl

acceptable_iff_example :
    (acceptable (codes "0.2.9") (codes "0.2.10") (codes "0.2") ≡ ok tt)
    ↔ IsUpgrade (codes "0.2.9") (codes "0.2.10") (codes "0.2")
acceptable_iff_example = acceptable_iff (codes "0.2.9") (codes "0.2.10") (codes "0.2")

accepted : acceptable (codes "0.2.9") (codes "0.2.10") (codes "0.2") ≡ ok tt
unfolding acceptable parse_version trim_space component split atoi compare_version compare_pre
    text_eq
accepted = refl

newer : is_newer_than (codes "0.9") (codes "0.10") ≡ ok true
unfolding is_newer_than parse_version trim_space component split atoi compare_version
newer = refl
