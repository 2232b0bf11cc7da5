-- ===== src/Subscriptions/Update.antt =====
-- Fetching and refreshing subscriptions: `HTTPFetcher`, `UpdateOne`, `UpdateAll`, `Update` and
-- `parseBody` of backend/internal/subscriptions/subscriptions.go.
use connective.Prelude.{
  ℕ, suc, ◌&&◌, ◌||◌, ltb, leb, not, Bool, if◌then◌else◌, List, [], ◌∷◌, ◌++◌, Option, none, some,
  Text, codes, is_empty, trim_space, length, Result, ok, err, ◌>>◌, guard,
}
use connective.Servers.{Server, server_key, is_among}
use connective.Servers.Base64.{decode, pad, std_alphabet}
use connective.Servers.Links.{Library, LinkError, parse_share_link}
use connective.Update.Version.{wrap}
use connective.Subscriptions.{
  Traffic, Subscription, UpdateError, invalid, fetch_failed, no_links, none_parsed, UpdateResult,
  validate_subscription, split_links, parse_user_info,
}

-- What an HTTP server answers, as far as the code reads it.
pub record Response : Type 0 where
  pub status : ℕ
  pub content : Text
  pub userinfo_header : Text

pub data FetchError : Type 0 where
  bad_proxy unsupported_proxy_scheme request_failed bad_status body_too_long : FetchError

pub record HttpFetcher : Type 0 where
  pub proxy_url : Text
  pub try_proxy : Bool
  -- The scheme of a proxy's address by url.Parse, and the answer to a GET by way of a proxy, or of
  -- none when the second text is empty.
  pub proxy_scheme : Text → Option Text
  pub get : Text → Text → Option Response

abbrev pub max_subscription_bytes : ℕ
max_subscription_bytes = 10485760

-- `parseProxyURL`
unfoldable pub parse_proxy_url : HttpFetcher → Text → Result FetchError (Unit {0})
parse_proxy_url f raw = elim (f.proxy_scheme raw) [
  | none ↦ err bad_proxy
  | some scheme ↦
      guard (is_among scheme (codes "http" ∷ codes "https" ∷ codes "socks5" ∷ []))
        unsupported_proxy_scheme
]

-- No more than a byte over the limit is read: io.LimitReader.
abbrev pub read_body : Response → Result FetchError (Text × Text)
read_body r =
    if ltb r.status 200 || leb 300 r.status
    then err bad_status
    else if ltb max_subscription_bytes (length r.content)
    then err body_too_long
    else ok (r.content, r.userinfo_header)

abbrev pub answered : Option Response → Result FetchError (Text × Text)
answered none = err request_failed
answered (some r) = read_body r

-- `HTTPFetcher.fetchVia`
unfoldable pub fetch_via : HttpFetcher → Text → Text → Result FetchError (Text × Text)
fetch_via f url proxy =
    (if is_empty proxy then ok tt else parse_proxy_url f proxy) >> answered (f.get url proxy)

-- `HTTPFetcher.Fetch`
unfoldable pub fetch_http : HttpFetcher → Text → Result FetchError (Text × Text)
fetch_http f url =
    let direct = fetch_via f url [] in
    if f.try_proxy && not (is_empty f.proxy_url)
    then elim (fetch_via f url f.proxy_url) [ ok r ↦ ok r | err e ↦ direct ]
    else direct

-- `Fetcher`: the body and the header, or the text of the error.
abbrev pub Fetcher : Type 0
Fetcher = Text → Result Text (Text × Text)

abbrev pub cons_server : Server → Option (List Server) → Option (List Server)
cons_server s none = none
cons_server s (some rest) = some (s ∷ rest)

-- One round of the loop of `parseBody`: a server is added unless its key was seen, and `next` goes on
-- with the keys seen.
abbrev pub link_step :
    Text
    → List Text
    → (List Text → Option (List Server))
    → Option (Result LinkError Server)
    → Option (List Server)
link_step sub_id seen next none = none
link_step sub_id seen next (some (err e)) = next seen
link_step sub_id seen next (some (ok s)) =
    if is_among (server_key s) seen
    then next seen
    else cons_server (record s { subscription_id = sub_id }) (next (server_key s ∷ seen))

-- The loop; `fresh` gives the ids and `n` counts the links.
unfoldable pub parse_links :
    Library → ℕ → (ℕ → Text) → ℕ → Text → List Text → List Text → Option (List Server)
parse_links lib calls fresh n sub_id seen [] = some []
parse_links lib calls fresh n sub_id seen (l ∷ links) =
    link_step sub_id seen (λ keys. parse_links lib calls fresh (suc n) sub_id keys links)
      (parse_share_link lib calls (fresh n) l)

abbrev pub some_servers : Traffic → List Server → Result UpdateError UpdateResult
some_servers t [] = err none_parsed
some_servers t (s ∷ rest) = ok (record { servers = s ∷ rest; res_traffic = t })

-- `parseBody`; `none` where a link needs more calls of the parser than `calls`.
unfoldable pub parse_body :
    Library → ℕ → (ℕ → Text) → Text → Text → Text → Option (Result UpdateError UpdateResult)
parse_body lib calls fresh body userinfo sub_id = elim (split_links body) [
  | [] ↦ some (err no_links)
  | l ∷ links ↦ elim (parse_links lib calls fresh 0 sub_id [] (l ∷ links)) [
    | none ↦ none
    | some found ↦ some (some_servers (parse_user_info userinfo) found)
  ]
]

abbrev pub decoded_or_same : Text → Option Text → Text
decoded_or_same more (some t) = t
decoded_or_same more none = more

-- The loop over `MoreURLs`.
unfoldable pub with_more : Fetcher → Text → List Text → Text
with_more fetch body [] = body
with_more fetch body (u ∷ urls) =
    let skipped = with_more fetch body urls in
    let extra = trim_space u in
    if is_empty extra then skipped else elim (fetch extra) [
      | err e ↦ skipped
      | ok (more, _) ↦
          with_more fetch
            (body ++ 10 ∷ decoded_or_same more (decode std_alphabet (pad (trim_space more)))) urls
    ]

abbrev pub parse_fetched :
    Library
    → ℕ
    → (ℕ → Text)
    → Fetcher
    → Subscription
    → Result UpdateError (Text × Text)
    → Option (Result UpdateError UpdateResult)
parse_fetched lib calls fresh fetch sub (err e) = some (err e)
parse_fetched lib calls fresh fetch sub (ok (body, userinfo)) =
    parse_body lib calls fresh (with_more fetch body sub.more_urls) userinfo sub.id

-- `UpdateOne`
unfoldable pub update_one :
    Library → ℕ → (ℕ → Text) → Fetcher → Subscription → Option (Result UpdateError UpdateResult)
update_one lib calls fresh fetch sub =
    parse_fetched lib calls fresh fetch sub
      (wrap invalid (validate_subscription sub) >> wrap fetch_failed (fetch sub.url))

-- `Update`
unfoldable pub update :
    Library → ℕ → (ℕ → Text) → Fetcher → Text → Text → Option (Result UpdateError UpdateResult)
update lib calls fresh fetch url sub_id = elim (fetch url) [
  | err e ↦ some (err (fetch_failed e))
  | ok (body, userinfo) ↦ parse_body lib calls fresh body userinfo sub_id
]

-- The copy with its new metadata; `now` is time.Now().
abbrev pub refreshed : ℕ → Subscription → Result UpdateError UpdateResult → Subscription
refreshed now sub (err e) = record sub { last_error = some e }
refreshed now sub (ok res) = record sub {
  last_error = none;
  last_update = now;
  traffic = res.res_traffic;
  server_count = length res.servers;
}

abbrev pub servers_of : Result UpdateError UpdateResult → List Server
servers_of (err e) = []
servers_of (ok res) = res.servers

-- One round of the loop of `UpdateAll`.
abbrev pub update_next :
    ℕ
    → Subscription
    → Option (Result UpdateError UpdateResult)
    → Option (List Server × List Subscription)
    → Option (List Server × List Subscription)
update_next now sub none rest = none
update_next now sub (some r) none = none
update_next now sub (some r) (some (all, out)) =
    some (servers_of r ++ all, refreshed now sub r ∷ out)

abbrev pub kept :
    Subscription
    → Option (List Server × List Subscription)
    → Option (List Server × List Subscription)
kept sub none = none
kept sub (some (all, out)) = some (all, sub ∷ out)

-- `UpdateAll`; `fresh i` gives the ids of the subscription at place `i`, `times i` the time when its
-- refresh ends.
unfoldable pub update_all :
    Library
    → ℕ
    → (ℕ → ℕ → Text)
    → (ℕ → ℕ)
    → Fetcher
    → ℕ
    → List Subscription
    → Option (List Server × List Subscription)
update_all lib calls fresh times fetch i [] = some ([], [])
update_all lib calls fresh times fetch i (sub ∷ subs) =
    let rest = update_all lib calls fresh times fetch (suc i) subs in
    if sub.enabled
    then update_next (times i) sub (update_one lib calls (fresh i) fetch sub) rest
    else kept sub rest
