-- ===== src/Firewall.antt =====
-- The allow rules of the kill switch on Windows (backend/internal/firewall/rules.go). net.ParseIP, with
-- the canonical text of the address that it reads, is a parameter.
pub mod Endpoints
mod Tests
use connective.Prelude.{
  ℕ, ◌||◌, not, Bool, true, false, if◌then◌else◌, List, [], ◌∷◌, ◌++◌, Option, none, some, Text,
  codes, is_empty, cut_last, map, Result, ok, err, ◌>>=◌,
}
use connective.Prelude.Int.{ℤ, pos, ltb_ℤ}
use connective.Update.Version.Number.{atoi}

abbrev pub lan_cidrs : List Text
lan_cidrs =
    codes "127.0.0.0/8"
    ∷ codes "::1"
    ∷ codes "10.0.0.0/8"
    ∷ codes "172.16.0.0/12"
    ∷ codes "192.168.0.0/16"
    ∷ codes "fe80::/10"
    ∷ []

pub record AllowRule : Type 0 where
  pub name : Text
  pub remote : Text
  pub proto : Text
  pub remote_port : Text

pub data AllowError : Type 0 where
  bad_allow invalid_ip invalid_port : Text → AllowError

abbrev pub lan_rule : Text → AllowRule
lan_rule cidr = record {
  name = codes "Allow " ++ cidr;
  remote = cidr;
  proto = [];
  remote_port = [];
}

abbrev pub dhcp_rule : AllowRule
dhcp_rule = record {
  name = codes "Allow DHCP";
  remote = codes "255.255.255.255";
  proto = codes "UDP";
  remote_port = codes "67";
}

-- `SplitIPPort`
unfoldable pub split_ip_port : Text → Option (Text × Text)
split_ip_port a = elim (cut_last b':' a) [
  | none ↦ none
  | some p ↦ if is_empty p.0 || is_empty p.1 then none else some p
]

abbrev pub endpoint_rule : Text → Text → Text → AllowRule
endpoint_rule ip port proto = record {
  name = codes "Allow " ++ (ip ++ (b' ' ∷ port ++ (b'/' ∷ proto)));
  remote = ip;
  proto = proto;
  remote_port = port;
}

abbrev pub is_port : Option ℤ → Bool
is_port none = false
is_port (some n) = not (ltb_ℤ n (pos 1) || ltb_ℤ (pos 65535) n)

-- The round of the loop over the allows for one of them, in its parts.
abbrev pub with_ip : Text → Text → Option Text → Result AllowError (List AllowRule)
with_ip a port none = err (invalid_ip a)
with_ip a port (some ip) =
    if is_port (atoi port)
    then ok (endpoint_rule ip port (codes "TCP") ∷ endpoint_rule ip port (codes "UDP") ∷ [])
    else err (invalid_port a)

abbrev pub with_parts :
    (Text → Option Text) → Text → Option (Text × Text) → Result AllowError (List AllowRule)
with_parts parse_ip a none = err (bad_allow a)
with_parts parse_ip a (some (ip, port)) = with_ip a port (parse_ip ip)

unfoldable pub endpoint_rules :
    (Text → Option Text) → List Text → Result AllowError (List AllowRule)
unfolding split_ip_port
endpoint_rules parse_ip [] = ok []
endpoint_rules parse_ip (a ∷ allows) = do
  rules ← with_parts parse_ip a (split_ip_port a)
  rest ← endpoint_rules parse_ip allows
  ok (rules ++ rest)

-- `BuildAllowRules`
unfoldable pub build_allow_rules :
    (Text → Option Text) → List Text → Result AllowError (List AllowRule)
unfolding endpoint_rules
build_allow_rules parse_ip allows = do
  rules ← endpoint_rules parse_ip allows
  ok (map lan_rule lan_cidrs ++ (dhcp_rule ∷ rules))
