-- ===== src/Subscriptions/Merged.antt =====
-- `Merge`: what comes from the subscription and what stays of the stored servers.
use connective.Prelude.{
  false, List, [], ◌∷◌, ◌++◌, Option, none, some, Text, text_eq, text_eq_iff, All, ◌≡◌, ◌≢◌, ◌⊎◌,
  inl, inr, refl, ap, Bool-cases, Option-cases,
}
use mathlib.Core.Path.{subst}
use connective.Servers.{Server, server_key}
use connective.Subscriptions.{by_key, with_local, merge}

-- The fields that a subscription brings.
pub record SameRemote (f m : Server) : Type 0 where
  pub name_same : m.name ≡ f.name
  pub subscription_same : m.subscription_id ≡ f.subscription_id
  pub address_same : m.address ≡ f.address
  pub port_same : m.port ≡ f.port
  pub protocol_same : m.protocol ≡ f.protocol
  pub transport_same : m.transport ≡ f.transport
  pub security_same : m.security ≡ f.security
  pub uuid_same : m.uuid ≡ f.uuid
  pub password_same : m.password ≡ f.password
  pub method_same : m.method ≡ f.method
  pub flow_same : m.flow ≡ f.flow
  pub public_key_same : m.public_key ≡ f.public_key
  pub short_id_same : m.short_id ≡ f.short_id
  pub sni_same : m.sni ≡ f.sni
  pub fingerprint_same : m.fingerprint ≡ f.fingerprint
  pub alpn_same : m.alpn ≡ f.alpn
  pub path_same : m.path ≡ f.path
  pub host_same : m.host ≡ f.host
  pub service_name_same : m.service_name ≡ f.service_name
  pub country_same : m.country ≡ f.country
  pub tags_same : m.tags ≡ f.tags

-- The fields that belong to the user of this machine.
pub record SameLocal (old m : Server) : Type 0 where
  pub id_same : m.id ≡ old.id
  pub favorite_same : m.favorite ≡ old.favorite
  pub custom_name_same : m.custom_name ≡ old.custom_name
  pub latency_same : m.latency_ms ≡ old.latency_ms
  pub last_test_same : m.last_test ≡ old.last_test
  pub health_same : m.health ≡ old.health

abbrev pub LacksKey : Text → List Server → Type 0
LacksKey key = All (λ s. server_key s ≢ key)

-- `old` is the last of the servers with the key.
pub record IsLastWith (key : Text) (existing : List Server) (old : Server) : Type 0 where
  pub before : List Server
  pub after : List Server
  pub parts : existing ≡ before ++ old ∷ after
  pub has_key : server_key old ≡ key
  pub no_later : LacksKey key after

-- The local fields are those of the stored server with the key, or those of the fresh one.
abbrev pub MergedFrom : List Server → Server → Server → Type 0
MergedFrom existing f m =
    SameRemote f m
    × ((LacksKey (server_key f) existing × SameLocal f m)
        ⊎ ((old : Server) × IsLastWith (server_key f) existing old × SameLocal old m))

abbrev pub EachMerged : List Server → List Server → List Server → Type 0
EachMerged existing [] [] = Unit
EachMerged existing (f ∷ fresh) (m ∷ merged) =
    MergedFrom existing f m × EachMerged existing fresh merged
EachMerged existing _ _ = ⊥

key_differs : (a b : Text) → text_eq a b ≡ false → a ≢ b
key_differs a b h e = cc (h, (text_eq_iff a b).1 e)

last_behind :
    (key : Text) (s : Server) {rest : List Server} {old : Server}
    → IsLastWith key rest old
    → IsLastWith key (s ∷ rest) old
last_behind key s l = record {
  before = s ∷ l.before;
  after = l.after;
  parts = ap (λ r. s ∷ r) l.parts;
  has_key = l.has_key;
  no_later = l.no_later;
}

by_key-none :
    (key : Text) (existing : List Server) → by_key key existing ≡ none → LacksKey key existing
unfolding by_key
by_key-none key [] h = tt
by_key-none key (s ∷ rest) h = elim (Option-cases (by_key key rest)) [
  | inr (o, e) ↦ cc (rw e at h)
  | inl e ↦ elim (Bool-cases (text_eq (server_key s) key)) [
    | inl b ↦ cc (rw (e, b) at h)
    | inr b ↦ (key_differs (server_key s) key b, by_key-none key rest e)
  ]
]

by_key-some :
    (key : Text) (existing : List Server) (old : Server)
    → by_key key existing ≡ some old
    → IsLastWith key existing old
unfolding by_key
by_key-some key [] old h = cc
by_key-some key (s ∷ rest) old h = elim (Option-cases (by_key key rest)) [
  | inr (o, e) ↦
      let q : by_key key rest ≡ some old = cc (rw e at h) in
      last_behind key s (by_key-some key rest old q)
  | inl e ↦ elim (Bool-cases (text_eq (server_key s) key)) [
    | inr b ↦ cc (rw (e, b) at h)
    | inl b ↦
        let same : s ≡ old = cc (rw (e, b) at h) in
        subst (IsLastWith key (s ∷ rest)) same (record {
          before = [];
          after = rest;
          parts = refl;
          has_key = (text_eq_iff (server_key s) key).0 b;
          no_later = by_key-none key rest e;
        })
  ]
]

same_remote : (f : Server) (o : Option Server) → SameRemote f (with_local f o)
same_remote f none = record {
  name_same = refl;
  subscription_same = refl;
  address_same = refl;
  port_same = refl;
  protocol_same = refl;
  transport_same = refl;
  security_same = refl;
  uuid_same = refl;
  password_same = refl;
  method_same = refl;
  flow_same = refl;
  public_key_same = refl;
  short_id_same = refl;
  sni_same = refl;
  fingerprint_same = refl;
  alpn_same = refl;
  path_same = refl;
  host_same = refl;
  service_name_same = refl;
  country_same = refl;
  tags_same = refl;
}
same_remote f (some old) = record {
  name_same = refl;
  subscription_same = refl;
  address_same = refl;
  port_same = refl;
  protocol_same = refl;
  transport_same = refl;
  security_same = refl;
  uuid_same = refl;
  password_same = refl;
  method_same = refl;
  flow_same = refl;
  public_key_same = refl;
  short_id_same = refl;
  sni_same = refl;
  fingerprint_same = refl;
  alpn_same = refl;
  path_same = refl;
  host_same = refl;
  service_name_same = refl;
  country_same = refl;
  tags_same = refl;
}

same_local : (m old : Server) → SameLocal old (with_local m (some old))
same_local m old = record {
  id_same = refl;
  favorite_same = refl;
  custom_name_same = refl;
  latency_same = refl;
  last_test_same = refl;
  health_same = refl;
}

same_self : (f : Server) → SameLocal f f
same_self f = same_local f f

merged_from :
    (existing : List Server) (f : Server) (o : Option Server)
    → by_key (server_key f) existing ≡ o
    → MergedFrom existing f (with_local f o)
merged_from existing f none h =
    (same_remote f none, inl (by_key-none (server_key f) existing h, same_self f))
merged_from existing f (some old) h = (
  same_remote f (some old),
  inr (old, by_key-some (server_key f) existing old h, same_local f old),
)

-- `Merge` answers one server for each fresh one, in their order. Its connection fields, its name, tags
-- and subscription are the fresh ones; its id, favourite mark, custom name and test results are those of
-- the last stored server with the same key, or the fresh ones when no stored server has the key.
pub merge-EachMerged :
    (existing fresh : List Server) → EachMerged existing fresh (merge existing fresh)
unfolding merge
merge-EachMerged existing [] = tt
merge-EachMerged existing (f ∷ fresh) =
    (merged_from existing f (by_key (server_key f) existing) refl, merge-EachMerged existing fresh)

key_kept : (f : Server) (o : Option Server) → server_key (with_local f o) ≡ server_key f
unfolding server_key
key_kept f none = refl
key_kept f (some old) = refl

local_twice : (f : Server) (o : Option Server) → with_local (with_local f o) o ≡ with_local f o
local_twice f none = refl
local_twice f (some old) = refl

-- Merging with the same stored servers a second time changes nothing.
pub merge_idem :
    (existing fresh : List Server) → merge existing (merge existing fresh) ≡ merge existing fresh
unfolding merge
merge_idem existing [] = refl
merge_idem existing (f ∷ fresh) =
    let o = by_key (server_key f) existing in
    rw (key_kept f o, local_twice f o, merge_idem existing fresh) refl
