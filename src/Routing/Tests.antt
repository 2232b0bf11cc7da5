-- ===== src/Routing/Tests.antt =====
-- Routes chosen.
use connective.Prelude.{List, [], ◌∷◌, some, codes, ◌≡◌, refl}
use connective.Prelude.Int.{pos}
use connective.Routing.{RouteEntry, bit_and, mask_bits, match_from, longest_match}
use connective.Routing.Best.{IsBest, longest_match-IsBest}

abbrev default_route : RouteEntry
default_route = record {
  dest = 0;
  mask = 0;
  gateway = codes "gw";
  iface = codes "a";
  metric = pos 25;
}

-- 10.0.0.0/8
abbrev private_route : RouteEntry
private_route = record {
  dest = 167772160;
  mask = 4278190080;
  gateway = codes "vpn";
  iface = codes "b";
  metric = pos 50;
}

abbrev table : List RouteEntry
table = default_route ∷ private_route ∷ record private_route { metric = pos 60 } ∷ []

chosen : longest_match table (some 167772161) ≡ some private_route
unfolding longest_match match_from bit_and mask_bits
chosen = refl

longest_match-IsBest_example : IsBest 167772161 table private_route
longest_match-IsBest_example = longest_match-IsBest 167772161 table private_route chosen
