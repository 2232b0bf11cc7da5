-- ===== src/Firewall/Tests.antt =====
-- Allow rules built.
use connective.Prelude.{
  List, [], ◌∷◌, ◌++◌, Option, some, Text, codes, cut_last, map, ok, ◌≡◌, refl,
}
use connective.Update.Version.Number.{atoi}
use connective.Firewall.{
  AllowRule, lan_cidrs, lan_rule, dhcp_rule, endpoint_rule, split_ip_port, endpoint_rules,
  build_allow_rules,
}
use connective.Firewall.Endpoints.{EachEndpoint, build_allow_rules-EachEndpoint}

abbrev any_ip : Text → Option Text
any_ip s = some s

abbrev allows : List Text
allows = codes "1.2.3.4:443" ∷ []

abbrev rules : List AllowRule
rules =
    map lan_rule lan_cidrs
    ++ (dhcp_rule
        ∷ endpoint_rule (codes "1.2.3.4") (codes "443") (codes "TCP")
        ∷ endpoint_rule (codes "1.2.3.4") (codes "443") (codes "UDP")
        ∷ [])

built : build_allow_rules any_ip allows ≡ ok rules
unfolding build_allow_rules endpoint_rules split_ip_port cut_last atoi
built = refl

build_allow_rules-EachEndpoint_example :
    (rest : List AllowRule) × (rules ≡ map lan_rule lan_cidrs ++ (dhcp_rule ∷ rest))
    × EachEndpoint any_ip allows rest
build_allow_rules-EachEndpoint_example = build_allow_rules-EachEndpoint any_ip allows rules built
