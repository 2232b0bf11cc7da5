-- ===== src/Firewall/Endpoints.antt =====
-- What the allow rules let through.
use connective.Prelude.{
  ℕ, ◌≤◌, true, if-cases, List, [], ◌∷◌, ◌++◌, Option, none, some, Text, codes, map, ok, err,
  bind-ok, ◌≡◌, inl, inr, refl, sym, ap, ◌∙◌, arith,
}
use connective.Prelude.Int.{ℤ, pos, negsuc}
use connective.Update.Version.Number.{atoi}
use connective.Firewall.{
  AllowRule, invalid_port, lan_cidrs, lan_rule, dhcp_rule, split_ip_port, endpoint_rule, is_port,
  with_ip, with_parts, endpoint_rules, build_allow_rules,
}

-- What an allow that is accepted names.
pub record IsEndpoint (parse_ip : Text → Option Text) (a ip port : Text) : Type 0 where
  pub host : Text
  pub parts : split_ip_port a ≡ some (host, port)
  pub address : parse_ip host ≡ some ip
  pub number : ℕ
  pub port_reads : atoi port ≡ some (pos number)
  pub port_low : 1 ≤ number
  pub port_high : number ≤ 65535

-- A TCP and a UDP rule for each allow, in order.
abbrev pub EachEndpoint : (Text → Option Text) → List Text → List AllowRule → Type 0
EachEndpoint parse_ip [] rules = rules ≡ []
EachEndpoint parse_ip (a ∷ allows) rules =
    (ip : Text) × (port : Text) × (rest : List AllowRule) × IsEndpoint parse_ip a ip port
    × (rules ≡ endpoint_rule ip port (codes "TCP") ∷ endpoint_rule ip port (codes "UDP") ∷ rest)
    × EachEndpoint parse_ip allows rest

port-number :
    (o : Option ℤ) → is_port o ≡ true → (n : ℕ) × (o ≡ some (pos n)) × (1 ≤ n) × (n ≤ 65535)
port-number none h = cc
port-number (some (pos n)) h = (n, refl, ground (arith, h), ground (arith, h))
port-number (some (negsuc n)) h = absurd (ground (arith, h))

-- What is accepted for one allow.
abbrev pub Accepted : (Text → Option Text) → Text → List AllowRule → Type 0
Accepted parse_ip a rules =
    (ip : Text) × (port : Text) × IsEndpoint parse_ip a ip port
    × (rules ≡ endpoint_rule ip port (codes "TCP") ∷ endpoint_rule ip port (codes "UDP") ∷ [])

with_ip-Accepted :
    (parse_ip : Text → Option Text) (a host port : Text) (o : Option Text) (rules : List AllowRule)
    → split_ip_port a ≡ some (host, port)
    → parse_ip host ≡ o
    → with_ip a port o ≡ ok rules
    → Accepted parse_ip a rules
with_ip-Accepted parse_ip a host port none rules p i h = cc
with_ip-Accepted parse_ip a host port (some ip) rules p i h =
    elim (if-cases (is_port (atoi port)) (ok _) (err (invalid_port a)) (ok rules) h) [
      | inr (_, k) ↦ cc
      | inl (b, k) ↦
          let (n, e, low, high) = port-number (atoi port) b in
          (
            ip,
            port,
            record {
              host = host;
              parts = p;
              address = i;
              number = n;
              port_reads = e;
              port_low = low;
              port_high = high;
            },
            cc,
          )
    ]

with_parts-Accepted :
    (parse_ip : Text → Option Text) (a : Text) (o : Option (Text × Text)) (rules : List AllowRule)
    → split_ip_port a ≡ o
    → with_parts parse_ip a o ≡ ok rules
    → Accepted parse_ip a rules
with_parts-Accepted parse_ip a none rules p h = cc
with_parts-Accepted parse_ip a (some (host, port)) rules p h =
    with_ip-Accepted parse_ip a host port (parse_ip host) rules p refl h

endpoint_rules-EachEndpoint :
    (parse_ip : Text → Option Text) (allows : List Text) (rules : List AllowRule)
    → endpoint_rules parse_ip allows ≡ ok rules
    → EachEndpoint parse_ip allows rules
unfolding endpoint_rules
endpoint_rules-EachEndpoint parse_ip [] rules h = cc
endpoint_rules-EachEndpoint parse_ip (a ∷ allows) rules h =
    let (two, e, h1) = bind-ok (with_parts parse_ip a (split_ip_port a)) _ rules h in
    let (rest, f, h2) =
      bind-ok (endpoint_rules parse_ip allows) (λ rest. ok (two ++ rest)) rules h1 in
    let (ip, port, i, q) = with_parts-Accepted parse_ip a (split_ip_port a) two refl e in
    let same : two ++ rest ≡ rules = cc in
    (
      ip,
      port,
      rest,
      i,
      sym same ∙ ap (λ x. x ++ rest) q,
      endpoint_rules-EachEndpoint parse_ip allows rest f,
    )

-- When `BuildAllowRules` succeeds, the rules are those for the local networks and for DHCP, and then, for
-- each allow in order, one for TCP and one for UDP with the address that its host reads as and with its
-- port, which reads as a number from 1 to 65535; there is no other rule. One allow that does not read
-- as an address and a port makes it fail.
pub build_allow_rules-EachEndpoint :
    (parse_ip : Text → Option Text) (allows : List Text) (rules : List AllowRule)
    → build_allow_rules parse_ip allows ≡ ok rules
    → (rest : List AllowRule) × (rules ≡ map lan_rule lan_cidrs ++ (dhcp_rule ∷ rest))
      × EachEndpoint parse_ip allows rest
unfolding build_allow_rules
build_allow_rules-EachEndpoint parse_ip allows rules h =
    let (rest, e, h1) = bind-ok (endpoint_rules parse_ip allows) _ rules h in
    (rest, cc, endpoint_rules-EachEndpoint parse_ip allows rest e)
