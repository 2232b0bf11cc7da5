-- ===== src/Servers.antt =====
-- Server records (backend/internal/servers/servers.go) and their share links (parse.go, export.go).
-- A text is the list of its bytes here. Protocols, transports and securities are texts, as the code's
-- types are strings.
pub mod Base64
pub mod Hosts
pub mod Links
pub mod Tests
use connective.Prelude.{
  ℕ, zero, suc, ◌==◌, ◌&&◌, ◌||◌, leb, ltb, not, Bool, true, false, if◌then◌else◌, List, [], ◌∷◌,
  ◌++◌, Text, codes, text_eq, is_empty, Result, ok, err, ◌>>=◌, ◌>>◌, guard,
}
use connective.Prelude.Int.{ℤ, pos, negsuc, ltb_ℤ}
use connective.Update.Version.Number.{format}

pub record Server : Type 0 where
  pub id : Text
  pub name : Text
  pub subscription_id : Text
  pub address : Text
  pub port : ℤ
  pub protocol : Text
  pub transport : Text
  pub security : Text
  pub uuid : Text
  pub password : Text
  pub method : Text
  pub flow : Text
  pub public_key : Text
  pub short_id : Text
  pub sni : Text
  pub fingerprint : Text
  pub alpn : Text
  pub path : Text
  pub host : Text
  pub service_name : Text
  pub country : Text
  pub tags : List Text
  pub favorite : Bool
  pub custom_name : Text
  pub latency_ms : ℤ
  pub last_test : ℕ
  pub health : Text

-- `&Server{}`
abbrev pub empty_server : Server
empty_server = record {
  id = [];
  name = [];
  subscription_id = [];
  address = [];
  port = pos 0;
  protocol = [];
  transport = [];
  security = [];
  uuid = [];
  password = [];
  method = [];
  flow = [];
  public_key = [];
  short_id = [];
  sni = [];
  fingerprint = [];
  alpn = [];
  path = [];
  host = [];
  service_name = [];
  country = [];
  tags = [];
  favorite = false;
  custom_name = [];
  latency_ms = pos 0;
  last_test = 0;
  health = [];
}

unfoldable pub display_name : Server → Text
display_name s = if is_empty s.custom_name then s.name else s.custom_name

pub data ServerError : Type 0 where
  empty_address bad_port bad_protocol bad_transport bad_security : ServerError

-- The cases of a switch over texts.
unfoldable pub is_among : Text → List Text → Bool
is_among s [] = false
is_among s (x ∷ xs) = text_eq s x || is_among s xs

abbrev pub protocols : List Text
protocols =
    codes "vless"
    ∷ codes "vmess"
    ∷ codes "trojan"
    ∷ codes "shadowsocks"
    ∷ codes "socks"
    ∷ codes "wireguard"
    ∷ codes "hysteria2"
    ∷ codes "tuic"
    ∷ []

abbrev pub transports : List Text
transports =
    [] ∷ codes "tcp" ∷ codes "ws" ∷ codes "grpc" ∷ codes "h2" ∷ codes "http" ∷ codes "quic" ∷ []

abbrev pub securities : List Text
securities = [] ∷ codes "none" ∷ codes "tls" ∷ codes "reality" ∷ []

-- `Server.Validate`
unfoldable pub validate_server : Server → Result ServerError (Unit {0})
validate_server s = do
  guard (not (is_empty s.address)) empty_address
  guard (not (ltb_ℤ s.port (pos 1) || ltb_ℤ (pos 65535) s.port)) bad_port
  guard (is_among s.protocol protocols) bad_protocol
  guard (is_among s.transport transports) bad_transport
  guard (is_among s.security securities) bad_security

abbrev pub print_int : ℤ → Text
print_int (pos n) = format n
print_int (negsuc n) = b'-' ∷ format (suc n)

abbrev pub first_of : Text → Text → Text
first_of a b = if is_empty a then b else a

-- `Server.Key`
unfoldable pub server_key : Server → Text
server_key s =
    s.protocol
    ++ (b'|' ∷ s.address)
    ++ (b'|' ∷ print_int s.port)
    ++ (b'|' ∷ first_of s.uuid s.password)
    ++ (b'|' ∷ s.method)

abbrev pub is_zero : ℤ → Bool
is_zero (pos zero) = true
is_zero _ = false

-- `Server.Normalize`; `fresh` is what `NewID` returns.
unfoldable pub normalize_server : Text → Server → Server
normalize_server fresh s = record s {
  id = first_of s.id fresh;
  transport = first_of s.transport (codes "tcp");
  security = first_of s.security (codes "none");
  health = first_of s.health (codes "unknown");
  latency_ms = if is_zero s.latency_ms then negsuc 0 else s.latency_ms;
}
