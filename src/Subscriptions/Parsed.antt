-- ===== src/Subscriptions/Parsed.antt =====
-- What `parseBody` and `UpdateOne` promise of the servers they return.
use connective.Prelude.{
  ℕ, suc, false, List, [], ◌∷◌, Option, none, some, Bool-cases, Text, is_empty, All, Result, ok,
  err, ◌≡◌, inl, inr, refl,
}
use mathlib.Core.Path.{subst}
use connective.Servers.{Server, server_key, is_among, validate_server}
use connective.Servers.Links.{Library, LinkError, parse_share_link}
use connective.Servers.Links.Usable.{IsUsable}
use connective.Servers.Links.Parsed.{parse_share_link-IsUsable}
use connective.Subscriptions.{
  Traffic, Subscription, UpdateError, no_links, UpdateResult, split_links, parse_user_info,
}
use connective.Subscriptions.Update.{
  Fetcher, cons_server, link_step, parse_links, some_servers, parse_body, with_more, parse_fetched,
  update_one,
}

-- A server that the subscription with this id may bring.
abbrev pub IsBrought : Text → Server → Type 0
IsBrought sub_id s = (s.subscription_id ≡ sub_id) × IsUsable s

-- No two servers have the same key, and none has a key seen before.
abbrev pub DistinctKeys : List Text → List Server → Type 0
DistinctKeys seen [] = Unit
DistinctKeys seen (s ∷ rest) =
    (is_among (server_key s) seen ≡ false) × DistinctKeys (server_key s ∷ seen) rest

tagged :
    (sub_id : Text) (s : Server)
    → IsUsable s
    → IsBrought sub_id (record s { subscription_id = sub_id })
unfolding validate_server
tagged sub_id s u = (
  refl,
  record {
    is_valid = u.is_valid;
    has_id = u.has_id;
    has_transport = u.has_transport;
    has_security = u.has_security;
    has_credential = u.has_credential;
  },
)

-- What `parse_links` finds.
abbrev pub Found : Text → List Text → List Server → Type 0
Found sub_id seen found = All (IsBrought sub_id) found × DistinctKeys seen found

cons_server-Found :
    (sub_id : Text) (seen : List Text) (s : Server) (o : Option (List Server)) (found : List Server)
    → IsUsable s
    → is_among (server_key s) seen ≡ false
    → ((r : List Server) → o ≡ some r → Found sub_id (server_key s ∷ seen) r)
    → cons_server (record s { subscription_id = sub_id }) o ≡ some found
    → Found sub_id seen found
unfolding server_key
cons_server-Found sub_id seen s none found u a ih h = cc
cons_server-Found sub_id seen s (some rest) found u a ih h =
    let q : record s { subscription_id = sub_id } ∷ rest ≡ found = cc in
    let (b, d) = ih rest refl in subst (Found sub_id seen) q ((tagged sub_id s u, b), (a, d))

link_step-Found :
    (sub_id : Text) (seen : List Text) (next : List Text → Option (List Server))
    (o : Option (Result LinkError Server)) (found : List Server)
    → ((s : Server) → o ≡ some (ok s) → IsUsable s)
    → ((keys : List Text) (r : List Server) → next keys ≡ some r → Found sub_id keys r)
    → link_step sub_id seen next o ≡ some found
    → Found sub_id seen found
link_step-Found sub_id seen next none found u ih h = cc
link_step-Found sub_id seen next (some (err e)) found u ih h = ih seen found h
link_step-Found sub_id seen next (some (ok s)) found u ih h =
    elim (Bool-cases (is_among (server_key s) seen)) [
      | inl e ↦ ih seen found (rw e at h)
      | inr e ↦
          cons_server-Found sub_id seen s (next (server_key s ∷ seen)) found (u s refl) e
            (ih (server_key s ∷ seen)) (rw e at h)
    ]

module _ (lib : Library) (calls : ℕ) (fresh : ℕ → Text) (ids : (n : ℕ) → is_empty (fresh n) ≡ false)
    (sub_id : Text) where
  parse_links-Found :
      (links : List Text) (n : ℕ) (seen : List Text) (found : List Server)
      → parse_links lib calls fresh n sub_id seen links ≡ some found
      → Found sub_id seen found
  unfolding parse_links
  parse_links-Found [] n seen found h =
      let q : [] ≡ found = cc in subst (Found sub_id seen) q (tt, tt)
  parse_links-Found (l ∷ links) n seen found h =
      link_step-Found sub_id seen (λ keys. parse_links lib calls fresh (suc n) sub_id keys links)
        (parse_share_link lib calls (fresh n) l) found
        (λ s e. parse_share_link-IsUsable lib calls (fresh n) l s (ids n) e)
        (parse_links-Found links (suc n)) h

-- A list that is not empty.
abbrev pub HasSome : List Server → Type 0
HasSome [] = ⊥
HasSome (_ ∷ _) = Unit

-- What a refresh that succeeds brings.
abbrev pub IsRefresh : Text → UpdateResult → Type 0
IsRefresh sub_id r =
    HasSome r.servers × All (IsBrought sub_id) r.servers × DistinctKeys [] r.servers

some_servers-IsRefresh :
    (sub_id : Text) (t : Traffic) (found : List Server) (r : UpdateResult)
    → Found sub_id [] found
    → some_servers t found ≡ ok r
    → IsRefresh sub_id r
some_servers-IsRefresh sub_id t [] r f h = cc
some_servers-IsRefresh sub_id t (s ∷ rest) r f h =
    let q : record { servers = s ∷ rest; res_traffic = t } ≡ r = cc in
    subst (IsRefresh sub_id) q (tt, f.0, f.1)

module _ (lib : Library) (calls : ℕ) (fresh : ℕ → Text)
    (ids : (n : ℕ) → is_empty (fresh n) ≡ false) where
  parse_body-IsRefresh :
      (body userinfo sub_id : Text) (r : UpdateResult)
      → parse_body lib calls fresh body userinfo sub_id ≡ some (ok r)
      → IsRefresh sub_id r
  unfolding parse_body
  parse_body-IsRefresh body userinfo sub_id r h = go (split_links body) h
    where
      found_next :
          (links : List Text) (o : Option (List Server))
          → parse_links lib calls fresh 0 sub_id [] links ≡ o
          → elim o [
            | none ↦ none
            | some found ↦ some (some_servers (parse_user_info userinfo) found)
          ]
            ≡ some (ok r)
          → IsRefresh sub_id r
      found_next links none e h = cc
      found_next links (some found) e h =
          some_servers-IsRefresh sub_id (parse_user_info userinfo) found r
            (parse_links-Found lib calls fresh ids sub_id links 0 [] found e) cc

      go :
          (links : List Text)
          → elim links [
            | [] ↦ some (err no_links)
            | l ∷ rest ↦ elim (parse_links lib calls fresh 0 sub_id [] (l ∷ rest)) [
              | none ↦ none
              | some found ↦ some (some_servers (parse_user_info userinfo) found)
            ]
          ]
            ≡ some (ok r)
          → IsRefresh sub_id r
      go [] h = cc
      go (l ∷ rest) h =
          found_next (l ∷ rest) (parse_links lib calls fresh 0 sub_id [] (l ∷ rest)) refl h

  parse_fetched-IsRefresh :
      (fetch : Fetcher) (sub : Subscription) (f : Result UpdateError (Text × Text))
      (r : UpdateResult)
      → parse_fetched lib calls fresh fetch sub f ≡ some (ok r)
      → IsRefresh sub.id r
  parse_fetched-IsRefresh fetch sub (err e) r h = cc
  parse_fetched-IsRefresh fetch sub (ok (body, userinfo)) r h =
      parse_body-IsRefresh (with_more fetch body sub.more_urls) userinfo sub.id r h

  -- When `UpdateOne` succeeds, and new ids are not empty, it brings at least one server; no two have the
  -- same key, each carries the id of the subscription, and each passes `Validate`, has its defaults and
  -- the secret of its protocol.
  pub update_one-IsRefresh :
      (fetch : Fetcher) (sub : Subscription) (r : UpdateResult)
      → update_one lib calls fresh fetch sub ≡ some (ok r)
      → IsRefresh sub.id r
  unfolding update_one
  update_one-IsRefresh fetch sub r h = parse_fetched-IsRefresh fetch sub _ r h
