-- ===== src/Subscriptions/Endless.antt =====
-- A link that is never parsed keeps the whole refresh from returning.
use connective.Prelude.{
  ℕ, suc, false, List, [], ◌∷◌, Option, none, some, Bool-cases, Text, codes, is_empty, text_eq,
  trim_space, length, Any, Result, ok, err, ◌≡◌, inl, inr, refl, sym, ◌∙◌,
}
use mathlib.Core.Path.{subst}
use connective.Servers.{Server, server_key, is_among}
use connective.Servers.Hosts.{scheme_of}
use connective.Servers.Links.{Library, LinkError, parse_shadowsocks, by_scheme, parse_share_link}
use connective.Servers.Links.Passes.{body_of, empty_body_endless}
use connective.Subscriptions.{no_links, split_links, parse_user_info}
use connective.Subscriptions.Update.{link_step, parse_links, some_servers, parse_body}

-- A link such as `ss://` or `ss://#name`.
pub record IsEmptyShadowsocks (lib : Library) (link : Text) : Type 0 where
  pub not_empty : is_empty (trim_space link) ≡ false
  pub is_ss : lib.to_lower (scheme_of (trim_space link)) ≡ codes "ss"
  pub no_body : length (body_of (trim_space link)) ≡ 0

by_ss :
    (lib : Library) (calls : ℕ) (fresh scheme link : Text)
    → scheme ≡ codes "ss"
    → by_scheme lib calls fresh scheme link ≡ parse_shadowsocks calls fresh link
by_ss lib calls fresh scheme link e =
    subst (λ x. by_scheme lib calls fresh x link ≡ parse_shadowsocks calls fresh link) (sym e)
      (unfold text_eq in refl)

parse_share_link-endless :
    (lib : Library) (calls : ℕ) (fresh link : Text)
    → IsEmptyShadowsocks lib link
    → parse_share_link lib calls fresh link ≡ none
unfolding parse_share_link
parse_share_link-endless lib calls fresh link h = rw (h.not_empty) (
    by_ss lib calls fresh _ (trim_space link) h.is_ss
    ∙ empty_body_endless calls fresh (trim_space link) h.no_body)

link_step-none :
    (sub_id : Text) (seen : List Text) (next : List Text → Option (List Server))
    (o : Option (Result LinkError Server))
    → ((keys : List Text) → next keys ≡ none)
    → link_step sub_id seen next o ≡ none
link_step-none sub_id seen next none h = refl
link_step-none sub_id seen next (some (err e)) h = h seen
link_step-none sub_id seen next (some (ok s)) h = elim (Bool-cases (is_among (server_key s) seen)) [
  | inl e ↦ rw e (h seen)
  | inr e ↦ rw (e, h (server_key s ∷ seen)) refl
]

parse_links-endless :
    (lib : Library) (calls : ℕ) (fresh : ℕ → Text) (sub_id : Text) (links : List Text) (n : ℕ)
    (seen : List Text)
    → Any (IsEmptyShadowsocks lib) links
    → parse_links lib calls fresh n sub_id seen links ≡ none
unfolding parse_links
parse_links-endless lib calls fresh sub_id [] n seen h = absurd h
parse_links-endless lib calls fresh sub_id (l ∷ links) n seen (inl h) =
    rw (parse_share_link-endless lib calls (fresh n) l h) refl
parse_links-endless lib calls fresh sub_id (l ∷ links) n seen (inr h) =
    link_step-none sub_id seen (λ keys. parse_links lib calls fresh (suc n) sub_id keys links)
      (parse_share_link lib calls (fresh n) l)
      (λ keys. parse_links-endless lib calls fresh sub_id links (suc n) keys h)

-- One bad entry poisons a whole subscription: when one of the links in a body is a shadowsocks link
-- with an empty body, `parseBody` does not return, whatever the other links are and however many calls
-- of `parseShadowsocks` are allowed.
pub parse_body-endless :
    (lib : Library) (calls : ℕ) (fresh : ℕ → Text) (body userinfo sub_id : Text)
    → Any (IsEmptyShadowsocks lib) (split_links body)
    → parse_body lib calls fresh body userinfo sub_id ≡ none
unfolding parse_body
parse_body-endless lib calls fresh body userinfo sub_id h = go (split_links body) h
  where
    go :
        (links : List Text)
        → Any (IsEmptyShadowsocks lib) links
        → elim links [
          | [] ↦ some (err no_links)
          | l ∷ rest ↦ elim (parse_links lib calls fresh 0 sub_id [] (l ∷ rest)) [
            | none ↦ none
            | some found ↦ some (some_servers (parse_user_info userinfo) found)
          ]
        ]
          ≡ none
    go [] h = absurd h
    go (l ∷ rest) h = rw (parse_links-endless lib calls fresh sub_id (l ∷ rest) 0 [] h) refl
