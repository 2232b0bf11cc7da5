-- ===== src/Servers/Links/Parsed.antt =====
-- What `ParseShareLink` promises of the server it returns.
use connective.Prelude.{
  ℕ, zero, suc, not, Bool, true, false, if◌then◌else◌, ◌||◌, ◌∷◌, ◌++◌, Option, none, some, Text,
  codes, is_empty, text_eq, trim_space, Result, ok, err, guard_iff, bind-ok, ◌≡◌, inr, refl, sym,
  ap, ◌∙◌, cut_first, contains, cut_last,
}
use mathlib.Core.Path.{subst}
use connective.Servers.{Server, normalize_server}
use connective.Servers.Base64.{decode_either}
use connective.Servers.Hosts.{split_host_port, scheme_of, before_char}
use connective.Servers.Links.{
  Library, LinkError, bad_host_port, no_method, or_error, parse_vless, parse_trojan,
  parse_vmess_link, ss_server, ss_end, Pass, ends, again, ss_pass, ss_rest, ss_link, ss_body,
  ss_user, ss_whole, is_shadowsocks, empty_link, unsupported_scheme, parse_shadowsocks, by_scheme,
  parse_share_link,
}
use connective.Servers.Links.Usable.{
  IsUsable, finish-ok, finish-IsUsable, finish-protocol, parse_vless-IsGood, parse_trojan-IsGood,
  parse_vmess-IsGood,
}

or-false : (a b : Bool) → not (a || b) ≡ true → a ≡ false
or-false true b h = cc
or-false false b h = refl

ss_server-method :
    (name method password hostport : Text) (s : Server)
    → ss_server name method password hostport ≡ ok s
    → (codes "shadowsocks" ≡ s.protocol) × (method ≡ s.method) × (is_empty method ≡ false)
unfolding ss_server
ss_server-method name method password hostport s h =
    let (g, h1) = (guard_iff (not (is_empty method || is_empty hostport)) no_method _ s).0 h in
    let (hp, _, h2) =
      bind-ok
        (or_error bad_host_port (split_host_port (before_char b'?' (before_char b'/' hostport)))) _
        s h1 in
    (
      ap (λ r. elim r [ ok x ↦ x.protocol | err _ ↦ codes "shadowsocks" ]) h2,
      ap (λ r. elim r [ ok x ↦ x.method | err _ ↦ method ]) h2,
      or-false (is_empty method) (is_empty hostport) g,
    )

ss_end-IsGood :
    (fresh name method password hostport : Text) (s : Server)
    → is_empty fresh ≡ false
    → ss_end fresh name method password hostport ≡ ok s
    → IsUsable s
unfolding ss_end normalize_server
ss_end-IsGood fresh name method password hostport s n h =
    let (t, e, f) = bind-ok (ss_server name method password hostport) _ s h in
    let (p, m, b) = ss_server-method name method password hostport t e in
    let same = ap (λ x. x.method) (finish-ok fresh t s f).1 in
    finish-IsUsable fresh t s n f (
      inr (
        inr (
          inr
            (sym (p ∙ finish-protocol fresh t s f), subst (λ x. is_empty x ≡ false) (m ∙ same) b))))

-- What a call of `parseShadowsocks` ends in is usable.
abbrev pub EndsGood : Pass → Type 0
EndsGood (ends (ok s)) = IsUsable s
EndsGood _ = Unit

ss_end-EndsGood :
    (fresh name method password hostport : Text)
    → is_empty fresh ≡ false
    → EndsGood (ends (ss_end fresh name method password hostport))
ss_end-EndsGood fresh name method password hostport n =
    go (ss_end fresh name method password hostport) refl
  where
    go :
        (r : Result LinkError Server)
        → ss_end fresh name method password hostport ≡ r
        → EndsGood (ends r)
    go (err e) h = tt
    go (ok s) h = ss_end-IsGood fresh name method password hostport s n h

ss_user-EndsGood :
    (fresh name user hostport : Text) (o : Option Text)
    → is_empty fresh ≡ false
    → EndsGood (ss_user fresh name user hostport o)
ss_user-EndsGood fresh name user hostport (some d) n = go (contains d (codes ":"))
  where
    go :
        (b : Bool)
        → EndsGood (if b then again (ss_link (d ++ b'@' ∷ hostport) name) else ends (err no_method))
    go true = tt
    go false = tt
ss_user-EndsGood fresh name user hostport none n = go (cut_first b':' user)
  where
    go :
        (o : Option (Text × Text))
        → EndsGood
            (ends (elim o [ none ↦ err no_method | some p ↦ ss_end fresh name p.0 p.1 hostport ]))
    go none = tt
    go (some p) = ss_end-EndsGood fresh name p.0 p.1 hostport n

ss_body-EndsGood :
    (fresh name rest : Text) (o : Option (Text × Text))
    → is_empty fresh ≡ false
    → EndsGood (ss_body fresh name rest o)
ss_body-EndsGood fresh name rest none n = go (decode_either rest)
  where
    go : (o : Option Text) → EndsGood (ss_whole name o)
    go none = tt
    go (some d) = tt
ss_body-EndsGood fresh name rest (some (user, hostport)) n =
    let u = before_char b'?' user in ss_user-EndsGood fresh name u hostport (decode_either u) n

ss_pass-EndsGood : (fresh link : Text) → is_empty fresh ≡ false → EndsGood (ss_pass fresh link)
unfolding ss_pass
ss_pass-EndsGood fresh link n =
    ss_body-EndsGood fresh _ (before_char b'#' (ss_rest link)) (cut_last b'@' _) n

pass-IsGood :
    (calls : ℕ) (fresh : Text) (s : Server) (p : Pass)
    → EndsGood p
    → ((l : Text) → parse_shadowsocks calls fresh l ≡ some (ok s) → IsUsable s)
    → elim p [ ends r ↦ some r | again l ↦ parse_shadowsocks calls fresh l ] ≡ some (ok s)
    → IsUsable s
pass-IsGood calls fresh s (ends (ok t)) g ih e = let same : t ≡ s = cc in subst IsUsable same g
pass-IsGood calls fresh s (ends (err t)) g ih e = cc
pass-IsGood calls fresh s (again l) g ih e = ih l e

parse_shadowsocks-IsGood :
    (calls : ℕ) (fresh link : Text) (s : Server)
    → is_empty fresh ≡ false
    → parse_shadowsocks calls fresh link ≡ some (ok s)
    → IsUsable s
unfolding parse_shadowsocks
parse_shadowsocks-IsGood zero fresh link s n h = cc
parse_shadowsocks-IsGood (suc calls) fresh link s n h =
    pass-IsGood calls fresh s (ss_pass fresh link) (ss_pass-EndsGood fresh link n)
      (λ l e. parse_shadowsocks-IsGood calls fresh l s n e) h

if-either :
    {A P : Type 0} (b : Bool) (x y z : A) → (if b then x else y) ≡ z → (x ≡ z → P) → (y ≡ z → P) → P
if-either true x y z h f g = f h
if-either false x y z h f g = g h

-- When `ParseShareLink` returns a server and the fresh id is not empty, the server passes `Validate`,
-- has an id, a transport and a security, and the secret of its protocol: a UUID for vless and vmess,
-- a password for trojan, a method for shadowsocks; its protocol is one of these four.
pub parse_share_link-IsUsable :
    (lib : Library) (calls : ℕ) (fresh link : Text) (s : Server)
    → is_empty fresh ≡ false
    → parse_share_link lib calls fresh link ≡ some (ok s)
    → IsUsable s
unfolding parse_share_link
parse_share_link-IsUsable lib calls fresh link s n h =
    let l = trim_space link in
    let scheme = lib.to_lower (scheme_of l) in
    if-either (is_empty l) (some (err empty_link)) (by_scheme lib calls fresh scheme l)
      (some (ok s)) h (λ e. cc)
      (λ e.
        if-either (text_eq scheme (codes "vless")) (some (parse_vless lib fresh l)) _ (some (ok s))
          e (λ q. parse_vless-IsGood lib fresh l s n cc)
          (λ e.
            if-either (text_eq scheme (codes "vmess")) (some (parse_vmess_link lib fresh l)) _
              (some (ok s)) e (λ q. parse_vmess-IsGood lib fresh l s n cc)
              (λ e.
                if-either (text_eq scheme (codes "trojan")) (some (parse_trojan lib fresh l)) _
                  (some (ok s)) e (λ q. parse_trojan-IsGood lib fresh l s n cc)
                  (λ e.
                    if-either (is_shadowsocks scheme) (parse_shadowsocks calls fresh l)
                      (some (err unsupported_scheme)) (some (ok s)) e
                      (λ q. parse_shadowsocks-IsGood calls fresh l s n q) (λ q. cc)))))
