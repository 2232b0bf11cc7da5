-- ===== src/Subscriptions.antt =====
-- Subscriptions (backend/internal/subscriptions/subscriptions.go): what they are, the links in a
-- body, the traffic header and the merge with the stored servers. Fetching is in Subscriptions/Update.
pub mod Update
pub mod Merged
pub mod Parsed
pub mod Isolated
pub mod Endless
mod Tests
use connective.Prelude.{
  ℕ, zero, suc, ◌&&◌, ◌||◌, ◌==◌, not, Bool, true, false, if◌then◌else◌, List, [], ◌∷◌, Option,
  none, some, Text, codes, is_empty, text_eq, trim_space, contains, has_prefix, cut_first, split,
  map, Result, ok, err, ◌>>=◌, ◌>>◌, guard,
}
use connective.Prelude.Int.{ℤ, pos, ltb_ℤ}
use connective.Update.Version.Number.{atoi}
use connective.Servers.{Server, server_key}
use connective.Servers.Base64.{decode, pad, std_alphabet, url_alphabet}

-- A time that was never set is `none`; `some n` is time.Unix(n, 0).
pub record Traffic : Type 0 where
  pub upload : ℤ
  pub download : ℤ
  pub total : ℤ
  pub expire : Option ℤ
  pub has_limit : Bool
  pub has_exp : Bool

abbrev pub no_traffic : Traffic
no_traffic = record {
  upload = pos 0;
  download = pos 0;
  total = pos 0;
  expire = none;
  has_limit = false;
  has_exp = false;
}

pub data SubscriptionError : Type 0 where
  no_id no_url bad_url_scheme : SubscriptionError

pub data UpdateError : Type 0 where
  invalid : SubscriptionError → UpdateError
  fetch_failed : Text → UpdateError
  no_links none_parsed : UpdateError

pub record Subscription : Type 0 where
  pub id : Text
  pub name : Text
  pub url : Text
  pub more_urls : List Text
  pub user_agent : Text
  pub enabled : Bool
  pub update_interval : ℤ
  pub last_update : ℕ
  pub traffic : Traffic
  pub server_count : ℕ
  -- The empty text is `none`.
  pub last_error : Option UpdateError

pub record UpdateResult : Type 0 where
  pub servers : List Server
  pub res_traffic : Traffic

-- `Validate`
unfoldable pub validate_subscription : Subscription → Result SubscriptionError (Unit {0})
validate_subscription sub = do
  guard (not (is_empty (trim_space sub.id))) no_id
  guard (not (is_empty (trim_space sub.url))) no_url
  guard
      (has_prefix (trim_space sub.url) (codes "http://")
        || has_prefix (trim_space sub.url) (codes "https://"))
      bad_url_scheme

-- strings.TrimSuffix with "\r".
unfoldable pub trim_return : Text → Text
trim_return [] = []
trim_return (c ∷ []) = if c == 13 then [] else c ∷ []
trim_return (c ∷ d ∷ s) = c ∷ trim_return (d ∷ s)

abbrev pub is_link_line : Text → Bool
is_link_line line =
    not (is_empty line || has_prefix line (codes "#")) && contains line (codes "://")

-- The loop of `linkLines`.
unfoldable pub collect_links : List Text → List Text
unfolding trim_return
collect_links [] = []
collect_links (l ∷ lines) =
    let rest = collect_links lines in
    let line = trim_space (trim_return l) in if is_link_line line then line ∷ rest else rest

-- `linkLines`
unfoldable pub link_lines : Text → List Text
link_lines body = collect_links (split 10 body)

abbrev pub has_no_links : List Text → Bool
has_no_links [] = true
has_no_links (_ ∷ _) = false

-- The lines, or those of the next reading when there are none.
abbrev pub or_links : List Text → List Text → List Text
or_links a b = if has_no_links a then b else a

abbrev pub decoded_lines : Option Text → List Text
decoded_lines none = []
decoded_lines (some t) = link_lines t

-- `SplitLinks`
unfoldable pub split_links : Text → List Text
unfolding link_lines
split_links text =
    let body = trim_space text in
    if is_empty body
    then []
    else or_links (link_lines body) (
        or_links (decoded_lines (decode std_alphabet (pad body)))
          (decoded_lines (decode url_alphabet (pad body))))

-- The switch of `ParseUserInfo`.
unfoldable pub set_traffic : Text → ℤ → Traffic → Traffic
set_traffic key n t =
    if text_eq key (codes "upload")
    then record t { upload = n }
    else if text_eq key (codes "download")
    then record t { download = n }
    else if text_eq key (codes "total")
    then record t { total = n; has_limit = ltb_ℤ (pos 0) n }
    else if text_eq key (codes "expire") && ltb_ℤ (pos 0) n
    then record t { expire = some n; has_exp = true }
    else t

abbrev pub read_pair : Option (Text × Text) → Traffic → Traffic
read_pair none t = t
read_pair (some (key, value)) t = elim (atoi (trim_space value)) [
  | none ↦ t
  | some n ↦ set_traffic (trim_space key) n t
]

unfoldable pub read_parts : List Text → Traffic → Traffic
read_parts [] t = t
read_parts (p ∷ parts) t = read_parts parts (read_pair (cut_first b'=' (trim_space p)) t)

-- `ParseUserInfo`
unfoldable pub parse_user_info : Text → Traffic
parse_user_info header = read_parts (split b';' header) no_traffic

-- `byKey`: the last of the servers with this key.
unfoldable pub by_key : Text → List Server → Option Server
by_key key [] = none
by_key key (s ∷ rest) =
    let later = by_key key rest in
    elim later [ some o ↦ some o | none ↦ if text_eq (server_key s) key then some s else none ]

-- The local data of `old` on the fresh server.
abbrev pub with_local : Server → Option Server → Server
with_local f none = f
with_local f (some old) = record f {
  id = old.id;
  favorite = old.favorite;
  custom_name = old.custom_name;
  latency_ms = old.latency_ms;
  last_test = old.last_test;
  health = old.health;
}

-- `Merge`
unfoldable pub merge : List Server → List Server → List Server
merge existing [] = []
merge existing (f ∷ fresh) = with_local f (by_key (server_key f) existing) ∷ merge existing fresh
