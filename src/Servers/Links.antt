-- ===== src/Servers/Links.antt =====
-- `ParseShareLink` and the parsers of the four schemes (backend/internal/servers/parse.go). The URL
-- and JSON parsers of the standard library and Unicode's lower case are parameters.
pub mod Usable
pub mod Parsed
pub mod Passes
use connective.Prelude.{
  ℕ, zero, suc, ◌==◌, ◌&&◌, ◌||◌, not, Bool, true, false, if◌then◌else◌, List, [], ◌∷◌, ◌++◌,
  Option, none, some, Text, codes, is_empty, text_eq, trim_space, contains, has_char, cut_first,
  cut_last, trim_prefix, Result, ok, err, ◌>>=◌, ◌>>◌, guard,
}
use connective.Prelude.Int.{ℤ}
use connective.Update.Version.{wrap}
use connective.Servers.{
  Server, empty_server, ServerError, validate_server, normalize_server, first_of,
}
use connective.Servers.Base64.{decode_either}
use connective.Servers.Hosts.{
  split_host_port, scheme_of, before_char, unescaped, looks_like_uuid, JsonPort, any_port,
}

-- What url.Parse gives: the parts that the code reads.
pub record Url : Type 0 where
  pub has_user : Bool
  pub username : Text
  pub user_password : Option Text
  pub url_host : Text
  pub hostname : Text
  pub query : Text → Text
  pub fragment : Text

-- `vmessJSON`, the fields that the code reads.
pub record Vmess : Type 0 where
  pub ps : Text
  pub add : Text
  pub vm_port : JsonPort
  pub vm_id : Text
  pub net : Text
  pub vm_host : Text
  pub vm_path : Text
  pub tls : Text
  pub vm_sni : Text
  pub fp : Text

pub record Library : Type 0 where
  pub parse_url : Text → Option Url
  pub parse_vmess : Text → Option Vmess
  pub to_lower : Text → Text

pub data LinkError : Type 0 where
  empty_link unsupported_scheme bad_link bad_host_port not_uuid empty_password no_method : LinkError
  invalid_server : ServerError → LinkError

abbrev pub or_error {ℓ} : {A : Type ℓ} → LinkError → Option A → Result LinkError A
or_error e none = err e
or_error e (some a) = ok a

-- `displayName`
unfoldable pub url_name : Url → Text
url_name u = if is_empty u.fragment then u.hostname else unescaped u.fragment

-- `passwordOf`; the empty text where it reports that there is none.
unfoldable pub password_of : Url → Text
password_of u =
    if u.has_user
    then elim u.user_password [ some pw ↦ unescaped pw | none ↦ unescaped u.username ]
    else []

-- The common end: defaults, then the checks.
abbrev pub finish : Text → Server → Result LinkError Server
finish fresh s = let t = normalize_server fresh s in wrap invalid_server (validate_server t) >> ok t

unfoldable pub vless_server : Url → Text × ℤ → Server
unfolding url_name
vless_server u (address, port) = record empty_server {
  protocol = codes "vless";
  uuid = u.username;
  address = address;
  port = port;
  transport = u.query (codes "type");
  security = u.query (codes "security");
  sni = first_of (u.query (codes "sni")) (u.query (codes "serverName"));
  fingerprint = u.query (codes "fp");
  flow = u.query (codes "flow");
  public_key = u.query (codes "pbk");
  short_id = u.query (codes "sid");
  path = u.query (codes "path");
  host = u.query (codes "host");
  service_name = u.query (codes "serviceName");
  alpn = u.query (codes "alpn");
  name = url_name u;
}

unfoldable pub parse_vless : Library → Text → Text → Result LinkError Server
parse_vless lib fresh link = do
  u ← or_error bad_link (lib.parse_url link)
  hp ← or_error bad_host_port (split_host_port u.url_host)
  s ← finish fresh (vless_server u hp)
  guard (looks_like_uuid s.uuid) not_uuid
  ok s

unfoldable pub trojan_server : Url → Text × ℤ → Server
unfolding url_name password_of
trojan_server u (address, port) = record empty_server {
  protocol = codes "trojan";
  password = password_of u;
  address = address;
  port = port;
  transport = first_of (u.query (codes "type")) (codes "tcp");
  security = first_of (u.query (codes "security")) (codes "tls");
  sni = first_of (u.query (codes "sni")) (u.query (codes "peer"));
  fingerprint = u.query (codes "fp");
  path = u.query (codes "path");
  host = u.query (codes "host");
  service_name = u.query (codes "serviceName");
  alpn = u.query (codes "alpn");
  name = url_name u;
}

unfoldable pub parse_trojan : Library → Text → Text → Result LinkError Server
parse_trojan lib fresh link = do
  u ← or_error bad_link (lib.parse_url link)
  hp ← or_error bad_host_port (split_host_port u.url_host)
  s ← finish fresh (trojan_server u hp)
  guard (not (is_empty s.password)) empty_password
  ok s

unfoldable pub vmess_server : (Text → Text) → Vmess → ℤ → Server
vmess_server to_lower v port = record empty_server {
  protocol = codes "vmess";
  name = first_of v.ps v.add;
  address = v.add;
  port = port;
  uuid = v.vm_id;
  transport = v.net;
  path = v.vm_path;
  host = v.vm_host;
  sni = v.vm_sni;
  fingerprint = v.fp;
  security = if text_eq (to_lower v.tls) (codes "tls") then codes "tls" else codes "none";
}

unfoldable pub parse_vmess_link : Library → Text → Text → Result LinkError Server
parse_vmess_link lib fresh link = do
  raw ← or_error bad_link (decode_either (trim_space (trim_prefix (codes "vmess://") link)))
  v ← or_error bad_link (lib.parse_vmess raw)
  port ← or_error bad_link (any_port v.vm_port)
  s ← finish fresh (vmess_server lib.to_lower v port)
  guard (looks_like_uuid s.uuid) not_uuid
  ok s

-- The last part of `parseShadowsocks`, when method, password and host are known.
unfoldable pub ss_server : Text → Text → Text → Text → Result LinkError Server
ss_server name method password hostport = do
  guard (not (is_empty method || is_empty hostport)) no_method
  hp ← or_error bad_host_port (split_host_port (before_char b'?' (before_char b'/' hostport)))
  ok (record empty_server {
    protocol = codes "shadowsocks";
    method = method;
    password = password;
    address = hp.0;
    port = hp.1;
    name = if is_empty name then hp.0 else unescaped name;
  })

unfoldable pub ss_end : Text → Text → Text → Text → Text → Result LinkError Server
unfolding ss_server
ss_end fresh name method password hostport =
    ss_server name method password hostport >>= finish fresh

-- One call of `parseShadowsocks`: it ends, or calls itself with another link.
pub data Pass : Type 0 where
  ends : Result LinkError Server → Pass
  again : Text → Pass

abbrev pub ss_link : Text → Text → Text
ss_link rest name = codes "ss://" ++ (rest ++ b'#' ∷ name)

-- The form `user@host`, with the user part decoded if it can be.
abbrev pub ss_user : Text → Text → Text → Text → Option Text → Pass
ss_user fresh name user hostport (some d) =
    if contains d (codes ":")
    then again (ss_link (d ++ b'@' ∷ hostport) name)
    else ends (err no_method)
ss_user fresh name user hostport none = ends (elim (cut_first b':' user) [
  | none ↦ err no_method
  | some p ↦ ss_end fresh name p.0 p.1 hostport
])

abbrev pub ss_whole : Text → Option Text → Pass
ss_whole name none = ends (err bad_link)
ss_whole name (some d) = again (ss_link d name)

abbrev pub ss_body : Text → Text → Text → Option (Text × Text) → Pass
ss_body fresh name rest none = ss_whole name (decode_either rest)
ss_body fresh name rest (some (user, hostport)) =
    let u = before_char b'?' user in ss_user fresh name u hostport (decode_either u)

-- The link without its scheme, and its parts before and behind the first `#`.
abbrev pub ss_rest : Text → Text
ss_rest link = trim_prefix (codes "shadowsocks://") (trim_prefix (codes "ss://") link)

abbrev pub ss_name : Text → Text
ss_name rest = elim (cut_first b'#' rest) [ none ↦ [] | some p ↦ p.1 ]

unfoldable pub ss_pass : Text → Text → Pass
ss_pass fresh link =
    let rest = before_char b'#' (ss_rest link) in
    ss_body fresh (ss_name (ss_rest link)) rest (cut_last b'@' rest)

-- `parseShadowsocks`, with at most so many calls.
unfoldable pub parse_shadowsocks : ℕ → Text → Text → Option (Result LinkError Server)
parse_shadowsocks zero fresh link = none
parse_shadowsocks (suc calls) fresh link = elim (ss_pass fresh link) [
  | ends r ↦ some r
  | again l ↦ parse_shadowsocks calls fresh l
]

abbrev pub is_shadowsocks : Text → Bool
is_shadowsocks scheme = text_eq scheme (codes "ss") || text_eq scheme (codes "shadowsocks")

abbrev pub by_scheme : Library → ℕ → Text → Text → Text → Option (Result LinkError Server)
by_scheme lib calls fresh scheme link =
    if text_eq scheme (codes "vless")
    then some (parse_vless lib fresh link)
    else if text_eq scheme (codes "vmess")
    then some (parse_vmess_link lib fresh link)
    else if text_eq scheme (codes "trojan")
    then some (parse_trojan lib fresh link)
    else if is_shadowsocks scheme
    then parse_shadowsocks calls fresh link
    else some (err unsupported_scheme)

-- `ParseShareLink`, where `parseShadowsocks` may call itself so many times.
unfoldable pub parse_share_link : Library → ℕ → Text → Text → Option (Result LinkError Server)
parse_share_link lib calls fresh link =
    let l = trim_space link in
    if is_empty l
    then some (err empty_link)
    else by_scheme lib calls fresh (lib.to_lower (scheme_of l)) l
