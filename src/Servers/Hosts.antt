-- ===== src/Servers/Hosts.antt =====
-- The small parsers of backend/internal/servers/parse.go: hosts and ports, schemes, escapes, ids.
use connective.Prelude.{
  ℕ, suc, ◌+◌, ◌*◌, ◌==◌, ◌&&◌, ◌||◌, not, Bool, true, if◌then◌else◌, [], ◌∷◌, Option, none, some,
  Text, codes, is_empty, trim_space, has_prefix, has_char, cut_first, cut_last, length, drop,
}
use connective.Prelude.Int.{ℤ}
use connective.Update.Version.Number.{atoi}
use connective.Update.Manifest.{is_hex_digit, hex_value}

-- Behind the closing bracket stands a colon, which is the last one.
abbrev pub port_behind : Text → Option Text
port_behind [] = none
port_behind (c ∷ s) = if c == b':' && not (has_char b':' s) then some s else none

abbrev pub bracketed : Text → Option (Text × Text) → Option (Text × Text)
bracketed hp none = none
bracketed hp (some (inside, behind)) =
    if has_char b'[' (drop 1 hp) || has_char b']' behind
    then none
    else elim (port_behind behind) [ none ↦ none | some port ↦ some (drop 1 inside, port) ]

abbrev pub plain_host : Text → Option (Text × Text) → Option (Text × Text)
plain_host hp none = none
plain_host hp (some (host, port)) =
    if has_char b':' host || (has_char b'[' hp || has_char b']' hp) then none else some (host, port)

-- net.SplitHostPort
unfoldable pub net_split : Text → Option (Text × Text)
net_split hp =
    if has_prefix hp (codes "[")
    then bracketed hp (cut_first b']' hp)
    else plain_host hp (cut_last b':' hp)

abbrev pub with_port : Text → Option ℤ → Option (Text × ℤ)
with_port host none = none
with_port host (some port) = some (host, port)

-- `splitHostPort`
unfoldable pub split_host_port : Text → Option (Text × ℤ)
unfolding net_split
split_host_port hp = elim (net_split hp) [ none ↦ none | some p ↦ with_port p.0 (atoi p.1) ]

-- What stands before the first `sub`.
unfoldable pub before_text : Text → Text → Option Text
before_text sub [] = if is_empty sub then some [] else none
before_text sub (c ∷ s) =
    let rest = before_text sub s in
    if has_prefix (c ∷ s) sub then some [] else elim rest [ none ↦ none | some t ↦ some (c ∷ t) ]

abbrev pub or_empty : Option Text → Text
or_empty none = []
or_empty (some t) = t

-- `schemeOf`
unfoldable pub scheme_of : Text → Text
scheme_of link = or_empty (before_text (codes "://") link)

abbrev pub before_char : ℕ → Text → Text
before_char c s = elim (cut_first c s) [ none ↦ s | some p ↦ p.0 ]

abbrev pub cons_some : ℕ → Option Text → Option Text
cons_some c none = none
cons_some c (some s) = some (c ∷ s)

-- url.PathUnescape
unfoldable pub path_unescape : Text → Option Text
path_unescape [] = some []
path_unescape (c ∷ []) = if c == b'%' then none else some (c ∷ [])
path_unescape (c ∷ a ∷ []) =
    let rest = path_unescape (a ∷ []) in if c == b'%' then none else cons_some c rest
path_unescape (c ∷ a ∷ b ∷ s) =
    let next = path_unescape (a ∷ b ∷ s) in
    let behind = path_unescape s in
    if c == b'%'
    then (if is_hex_digit a && is_hex_digit b
        then cons_some (hex_value a * 16 + hex_value b) behind
        else none)
    else cons_some c next

-- An escaped text, or the text itself where the escapes are wrong.
abbrev pub unescaped : Text → Text
unescaped s = elim (path_unescape s) [ none ↦ s | some t ↦ t ]

abbrev pub is_dash_place : ℕ → Bool
is_dash_place i = i == 8 || (i == 13 || (i == 18 || i == 23))

unfoldable pub uuid_from : ℕ → Text → Bool
uuid_from i [] = true
uuid_from i (c ∷ s) = (if is_dash_place i then c == b'-' else is_hex_digit c) && uuid_from (suc i) s

-- `looksLikeUUID`
unfoldable pub looks_like_uuid : Text → Bool
unfolding uuid_from
looks_like_uuid s = length s == 36 && uuid_from 0 s

-- A port in a vmess document: a number (as `int` cuts it), a text, or something else.
pub data JsonPort : Type 0 where
  port_number : ℤ → JsonPort
  port_text : Text → JsonPort
  port_other : JsonPort

-- `anyPort`
unfoldable pub any_port : JsonPort → Option ℤ
any_port (port_number n) = some n
any_port (port_text s) = atoi (trim_space s)
any_port port_other = none
