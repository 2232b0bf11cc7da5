-- ===== src/Servers/Tests.antt =====
-- Share links read.
use connective.Prelude.{
  ◌<◌, true, false, [], none, some, Text, codes, length, trim_space, trim_prefix, has_prefix,
  has_char, cut_first, cut_last, text_eq, ok, ◌≡◌, refl, arith,
}
use connective.Prelude.Int.{pos, negsuc}
use connective.Update.Version.Number.{atoi}
use connective.Servers.{Server, validate_server, normalize_server, is_among}
use connective.Servers.Hosts.{scheme_of, before_text, split_host_port, looks_like_uuid}
use connective.Servers.Links.{Library, Url, parse_share_link, parse_vless, vless_server}
use connective.Servers.Links.Usable.{IsUsable}
use connective.Servers.Links.Parsed.{parse_share_link-IsUsable}
use connective.Servers.Links.Passes.{body_of, Decided, parse_shadowsocks-Decided}

abbrev uuid : Text
uuid = codes "01234567-89ab-cdef-0123-456789abcdef"

-- A library that reads every link as this one.
abbrev url : Url
url = record {
  has_user = true;
  username = uuid;
  user_password = none;
  url_host = codes "h:443";
  hostname = codes "h";
  query = λ key. [];
  fragment = [];
}

abbrev pub library : Library
library = record { parse_url = λ link. some url; parse_vmess = λ raw. none; to_lower = λ s. s }

abbrev pub found : Server
found = record {
  id = codes "n";
  name = codes "h";
  subscription_id = [];
  address = codes "h";
  port = pos 443;
  protocol = codes "vless";
  transport = codes "tcp";
  security = codes "none";
  uuid = uuid;
  password = [];
  method = [];
  flow = [];
  public_key = [];
  short_id = [];
  sni = [];
  fingerprint = [];
  alpn = [];
  path = [];
  host = [];
  service_name = [];
  country = [];
  tags = [];
  favorite = false;
  custom_name = [];
  latency_ms = negsuc 0;
  last_test = 0;
  health = codes "unknown";
}

vless_read : parse_share_link library 1 (codes "n") (codes "vless://x") ≡ some (ok found)
unfolding parse_share_link trim_space scheme_of text_eq parse_vless before_text has_prefix
    split_host_port cut_last has_char atoi validate_server normalize_server vless_server is_among
    looks_like_uuid
vless_read = refl

parse_share_link-IsUsable_example : IsUsable found
parse_share_link-IsUsable_example =
    parse_share_link-IsUsable library 1 (codes "n") (codes "vless://x") found refl vless_read

no_body : length (body_of (codes "ss://#name")) ≡ 0
unfolding trim_prefix has_prefix cut_first
no_body = refl

body_bounded : length (body_of (codes "ss://YTpi@h:1")) < 20
unfolding trim_prefix has_prefix cut_first
body_bounded = omega arith

parse_shadowsocks-Decided_example : Decided (codes "n") (codes "ss://YTpi@h:1") 20
parse_shadowsocks-Decided_example =
    parse_shadowsocks-Decided 20 (codes "n") (codes "ss://YTpi@h:1") body_bounded
