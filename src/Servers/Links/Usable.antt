-- ===== src/Servers/Links/Usable.antt =====
-- What is promised of a parsed server, and the parsers of vless, vmess and trojan links.
use connective.Prelude.{
  not-true, not, Bool, true, false, [], ◌∷◌, Text, codes, is_empty, trim_space, Result, ok, err,
  ◌>>◌, guard, guard_iff, bind-ok, ◌≡◌, ◌⊎◌, inl, inr, refl, sym, ap, trim_prefix,
}
use mathlib.Core.Path.{subst}
use connective.Update.Version.{wrap}
use connective.Servers.{Server, validate_server, normalize_server, first_of}
use connective.Servers.Base64.{decode_either}
use connective.Servers.Hosts.{split_host_port, looks_like_uuid, any_port}
use connective.Servers.Links.{
  Library, LinkError, invalid_server, bad_link, bad_host_port, not_uuid, empty_password, or_error,
  finish, vless_server, parse_vless, trojan_server, parse_trojan, vmess_server, parse_vmess_link,
}

-- The secret that the protocol of the server asks for.
abbrev pub HasCredential : Server → Type 0
HasCredential s =
    ((s.protocol ≡ codes "vless") × (looks_like_uuid s.uuid ≡ true))
    ⊎ (((s.protocol ≡ codes "vmess") × (looks_like_uuid s.uuid ≡ true))
        ⊎ (((s.protocol ≡ codes "trojan") × (is_empty s.password ≡ false))
            ⊎ ((s.protocol ≡ codes "shadowsocks") × (is_empty s.method ≡ false))))

-- A server that passes `Validate`, with its defaults filled in and a secret.
pub record IsUsable (s : Server) : Type 0 where
  pub is_valid : validate_server s ≡ ok tt
  pub has_id : is_empty s.id ≡ false
  pub has_transport : is_empty s.transport ≡ false
  pub has_security : is_empty s.security ≡ false
  pub has_credential : HasCredential s

abbrev pub IsGood : Result LinkError Server → Type 0
IsGood (err e) = Unit
IsGood (ok s) = IsUsable s

first_of-kept : (a b : Text) → is_empty b ≡ false → is_empty (first_of a b) ≡ false
first_of-kept [] b h = h
first_of-kept (c ∷ a) b h = refl

wrap-ok :
    {A : Type 0} {E F : Type 0} (f : E → F) (r : Result E A) (a : A) → wrap f r ≡ ok a → r ≡ ok a
wrap-ok f (ok b) a h = cc
wrap-ok f (err e) a h = cc

pub finish-ok :
    (fresh : Text) (s t : Server)
    → finish fresh s ≡ ok t
    → (validate_server (normalize_server fresh s) ≡ ok tt) × (normalize_server fresh s ≡ t)
finish-ok fresh s t h =
    let r =
      bind-ok (wrap invalid_server (validate_server (normalize_server fresh s)))
        (λ _. ok (normalize_server fresh s)) t h in
    (wrap-ok invalid_server (validate_server (normalize_server fresh s)) tt r.1, cc (r.2))

pub finish-IsUsable :
    (fresh : Text) (s t : Server)
    → is_empty fresh ≡ false
    → finish fresh s ≡ ok t
    → HasCredential t
    → IsUsable t
finish-IsUsable fresh s t n h c =
    let (v, e) = finish-ok fresh s t h in
    subst (λ x. HasCredential x → IsUsable x) e
      (λ c. record {
        is_valid = v;
        has_id = unfold normalize_server in first_of-kept s.id fresh n;
        has_transport = unfold normalize_server in first_of-kept s.transport (codes "tcp") refl;
        has_security = unfold normalize_server in first_of-kept s.security (codes "none") refl;
        has_credential = c;
      })
      c

-- The protocol is the one that the parser of the scheme wrote.
pub finish-protocol :
    (fresh : Text) (s t : Server) → finish fresh s ≡ ok t → s.protocol ≡ t.protocol
unfolding normalize_server
finish-protocol fresh s t h = ap (λ x. x.protocol) (finish-ok fresh s t h).1

-- A last check of the secret.
guard-last :
    {E : Type 0} (b : Bool) (e : E) (s t : Server)
    → (guard b e >> ok s) ≡ ok t
    → (b ≡ true) × (s ≡ t)
guard-last b e s t h = let (p, q) = (guard_iff b e (ok s) t).0 h in (p, cc q)

pub parse_vless-IsGood :
    (lib : Library) (fresh link : Text) (s : Server)
    → is_empty fresh ≡ false
    → parse_vless lib fresh link ≡ ok s
    → IsUsable s
unfolding parse_vless vless_server
parse_vless-IsGood lib fresh link s n h =
    let (u, _, h1) = bind-ok (or_error bad_link (lib.parse_url link)) _ s h in
    let (hp, _, h2) = bind-ok (or_error bad_host_port (split_host_port u.url_host)) _ s h1 in
    let (t, f, h3) = bind-ok (finish fresh (vless_server u hp)) _ s h2 in
    let (g, e) = guard-last (looks_like_uuid t.uuid) not_uuid t s h3 in
    subst IsUsable e (
      finish-IsUsable fresh (vless_server u hp) t n f
        (inl (sym (finish-protocol fresh (vless_server u hp) t f), g)))

pub parse_trojan-IsGood :
    (lib : Library) (fresh link : Text) (s : Server)
    → is_empty fresh ≡ false
    → parse_trojan lib fresh link ≡ ok s
    → IsUsable s
unfolding parse_trojan trojan_server
parse_trojan-IsGood lib fresh link s n h =
    let (u, _, h1) = bind-ok (or_error bad_link (lib.parse_url link)) _ s h in
    let (hp, _, h2) = bind-ok (or_error bad_host_port (split_host_port u.url_host)) _ s h1 in
    let (t, f, h3) = bind-ok (finish fresh (trojan_server u hp)) _ s h2 in
    let (g, e) = guard-last (not (is_empty t.password)) empty_password t s h3 in
    subst IsUsable e (
      finish-IsUsable fresh (trojan_server u hp) t n f (
        inr (
          inr (
            inl (
              sym (finish-protocol fresh (trojan_server u hp) t f),
              not-true (is_empty t.password) g,
            )))))

pub parse_vmess-IsGood :
    (lib : Library) (fresh link : Text) (s : Server)
    → is_empty fresh ≡ false
    → parse_vmess_link lib fresh link ≡ ok s
    → IsUsable s
unfolding parse_vmess_link vmess_server
parse_vmess-IsGood lib fresh link s n h =
    let (raw, _, h1) =
      bind-ok (or_error bad_link (decode_either (trim_space (trim_prefix (codes "vmess://") link))))
        _ s h in
    let (v, _, h2) = bind-ok (or_error bad_link (lib.parse_vmess raw)) _ s h1 in
    let (port, _, h3) = bind-ok (or_error bad_link (any_port v.vm_port)) _ s h2 in
    let (t, f, h4) = bind-ok (finish fresh (vmess_server lib.to_lower v port)) _ s h3 in
    let (g, e) = guard-last (looks_like_uuid t.uuid) not_uuid t s h4 in
    subst IsUsable e (
      finish-IsUsable fresh (vmess_server lib.to_lower v port) t n f
        (inr (inl (sym (finish-protocol fresh (vmess_server lib.to_lower v port) t f), g))))
