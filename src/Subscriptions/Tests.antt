-- ===== src/Subscriptions/Tests.antt =====
-- Subscriptions refreshed and merged.
use connective.Prelude.{
  true, false, List, [], ◌∷◌, none, some, Text, codes, Any, ok, ◌≡◌, inl, inr, refl, sym,
  trim_space, split, has_prefix, text_eq, contains, cut_first, cut_last, trim_prefix, has_char,
}
use mathlib.Core.Path.{subst}
use connective.Prelude.Int.{pos}
use connective.Update.Version.Number.{atoi, format}
use connective.Servers.{Server, server_key, validate_server, normalize_server, is_among}
use connective.Servers.Hosts.{scheme_of, before_text, split_host_port, looks_like_uuid, net_split}
use connective.Servers.Links.{parse_share_link, parse_vless, vless_server}
use connective.Servers.Tests.{library, found}
use connective.Subscriptions.{
  Subscription, UpdateResult, no_traffic, merge, split_links, link_lines, collect_links,
  parse_user_info, read_parts, validate_subscription, trim_return,
}
use connective.Subscriptions.Update.{
  Fetcher, update_one, update_all, parse_body, parse_links, with_more,
}
use connective.Subscriptions.Merged.{EachMerged, merge-EachMerged}
use connective.Subscriptions.Parsed.{IsRefresh, update_one-IsRefresh}
use connective.Subscriptions.Isolated.{Outcomes, update_all-Outcomes}
use connective.Subscriptions.Endless.{IsEmptyShadowsocks, parse_body-endless}

abbrev stored : List Server
stored = record found { id = codes "old"; favorite = true } ∷ []

merge-EachMerged_example : EachMerged stored (found ∷ []) (merge stored (found ∷ []))
merge-EachMerged_example = merge-EachMerged stored (found ∷ [])

abbrev sub : Subscription
sub = record {
  id = codes "s";
  name = codes "home";
  url = codes "https://a";
  more_urls = [];
  user_agent = [];
  enabled = true;
  update_interval = pos 0;
  last_update = 0;
  traffic = no_traffic;
  server_count = 0;
  last_error = none;
}

abbrev fetch : Fetcher
fetch url = ok (codes "vless://x", [])

abbrev result : UpdateResult
result = record {
  servers = record found { subscription_id = codes "s" } ∷ [];
  res_traffic = no_traffic;
}

updated : update_one library 1 (λ n. codes "n") fetch sub ≡ some (ok result)
unfolding update_one validate_subscription trim_space has_prefix parse_body split_links with_more
    collect_links split contains parse_links parse_share_link text_eq scheme_of before_text
    parse_vless split_host_port cut_last cut_first has_char looks_like_uuid net_split vless_server
    is_among normalize_server server_key validate_server link_lines parse_user_info trim_return atoi
    format read_parts
updated = refl

update_one-IsRefresh_example : IsRefresh (codes "s") result
update_one-IsRefresh_example =
    update_one-IsRefresh library 1 (λ n. codes "n") (λ n. refl) fetch sub result updated

abbrev subs : List Subscription
subs = record sub { enabled = false } ∷ sub ∷ []

abbrev after : List Subscription
after = record sub { enabled = false } ∷ record sub { last_update = 7; server_count = 1 } ∷ []

all_updated :
    update_all library 1 (λ i n. codes "n") (λ i. 7) fetch 0 subs ≡ some (result.servers, after)
unfolding update_all update_one validate_subscription trim_space has_prefix parse_body split_links
    with_more collect_links split contains parse_links parse_share_link text_eq scheme_of
    before_text parse_vless split_host_port cut_last cut_first has_char looks_like_uuid net_split
    vless_server is_among normalize_server server_key validate_server link_lines parse_user_info
    trim_return atoi format read_parts
all_updated = refl

update_all-Outcomes_example :
    Outcomes
      (λ i. update_one library 1 (λ n. codes "n") fetch)
      (λ i. 7)
      0
      subs
      (result.servers, after)
update_all-Outcomes_example =
    update_all-Outcomes library 1 (λ i n. codes "n") (λ i. 7) fetch (λ i n. refl) subs 0
      (result.servers, after) all_updated

abbrev poisoned : Text
poisoned = codes "vless://x\nss://"

poisoned_links : split_links poisoned ≡ codes "vless://x" ∷ codes "ss://" ∷ []
unfolding split_links trim_space collect_links split has_prefix contains
poisoned_links = refl

empty_ss : IsEmptyShadowsocks library (codes "ss://")
unfolding trim_space scheme_of before_text has_prefix cut_first trim_prefix
empty_ss = record { not_empty = refl; is_ss = refl; no_body = refl }

parse_body-endless_example : parse_body library 1000 (λ n. codes "n") poisoned [] (codes "s") ≡ none
parse_body-endless_example =
    parse_body-endless library 1000 (λ n. codes "n") poisoned [] (codes "s")
      (subst (Any (IsEmptyShadowsocks library)) (sym poisoned_links) (inr (inl empty_ss)))
