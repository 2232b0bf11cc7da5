-- ===== src/Update/Github/Newest.antt =====
-- `Check` answers with the newest release that serves the query.
use connective.Prelude.{
  ℕ, suc, ◌||◌, not, Bool, true, false, ◌&&◌, Bool-cases, codes, text_eq, text_eq_iff, &&_true,
  arith, if-cases, List, [], ◌∷◌, ◌++◌, Option, none, some, Text, All, Result, ok, err, bind-ok,
  guard_iff, ◌≡◌, inl, inr, refl, ap, ◌∙◌,
}
use mathlib.Core.Path.{subst}
use connective.Update.Version.{VersionError, is_newer_than, wrap}
use connective.Update.Manifest.{SignedManifest}
use connective.Update.Manager.Check.{Query}
use connective.Update.Provider.{MatchError, match_query, IsServed, match_query_iff}
use connective.Update.Github.{
  GhRelease, GithubError, tag_version, looked_version, not_configured, canceled, bad_match,
  Documents, manifest_candidates, find_manifest, resolve_artifacts, check_detached, from_manifest,
  release_from, is_no_update, is_limited, Looked, passed, unversioned, considered, look, after_read,
  after_look, scan_releases, check_github,
}

-- A release that may be answered: no draft, no prerelease on the stable channel, and a tag whose version
-- is newer than the current one.
pub record IsEligible (q : Query) (r : GhRelease) : Type 0 where
  pub published : r.draft ≡ false
  pub fits_channel : q.query_channel ≡ codes "stable" → r.prerelease ≡ false
  pub version : Text
  pub tagged : tag_version r.tag_name ≡ ok version
  pub is_newer : is_newer_than q.query_current version ≡ ok true

newer_version :
    (q : Query) (o : Result VersionError Text)
    → looked_version q o ≡ considered
    → (v : Text) × (o ≡ ok v) × (is_newer_than q.query_current v ≡ ok true)
newer_version q (err e) h = cc
newer_version q (ok v) h = (v, refl, ground arith)

considered-IsEligible : (q : Query) (r : GhRelease) → look q r ≡ considered → IsEligible q r
unfolding look
considered-IsEligible q r h = elim (if-cases r.draft passed _ considered h) [
  | inl (_, k) ↦ cc
  | inr (d, k) ↦
      elim (if-cases (text_eq q.query_channel (codes "stable") && r.prerelease) passed _ considered
        k) [
          | inl (_, l) ↦ cc
          | inr (p, l) ↦
              let (v, t, n) = newer_version q (tag_version r.tag_name) l in
              record {
                published = d;
                fits_channel =
                    λ e. ground (arith, p, (text_eq_iff q.query_channel (codes "stable")).1 e);
                version = v;
                tagged = t;
                is_newer = n;
              }
        ]
]

eligible-considered : (q : Query) (r : GhRelease) → IsEligible q r → look q r ≡ considered
unfolding look
eligible-considered q r e =
    elim (Bool-cases (text_eq q.query_channel (codes "stable") && r.prerelease)) [
      | inl b ↦
          let both = &&_true (text_eq q.query_channel (codes "stable")) r.prerelease b in
          let f = e.fits_channel ((text_eq_iff q.query_channel (codes "stable")).0 both.0) in
          cc (both.1, f)
      | inr b ↦ rw (e.published, b, e.tagged, looked_version, e.is_newer) refl
    ]

-- The release answered, its place in the list, and that no earlier one would have served.
pub record IsNewest (docs : Documents) (q : Query) (rels : List GhRelease) (rel : SignedManifest)
    : Type 0 where
  pub newer : List GhRelease
  pub chosen : GhRelease
  pub older : List GhRelease
  pub place : rels ≡ newer ++ chosen ∷ older
  pub is_eligible : IsEligible q chosen
  pub is_read : release_from docs chosen q ≡ ok rel
  pub none_newer :
      All (λ r. IsEligible q r → (e : GithubError) × (release_from docs r q ≡ err e)) newer

later :
    (docs : Documents) (q : Query) (r : GhRelease) (rels : List GhRelease) (rel : SignedManifest)
    → (IsEligible q r → (e : GithubError) × (release_from docs r q ≡ err e))
    → IsNewest docs q rels rel
    → IsNewest docs q (r ∷ rels) rel
later docs q r rels rel n h = record {
  newer = r ∷ h.newer;
  chosen = h.chosen;
  older = h.older;
  place = ap (λ x. r ∷ x) h.place;
  is_eligible = h.is_eligible;
  is_read = h.is_read;
  none_newer = (n, h.none_newer);
}

-- Going on with the rest of the list finds the newest there.
Finds :
    Documents
    → Query
    → List GhRelease
    → (ℕ → List GithubError → Result GithubError SignedManifest)
    → Type 0
Finds docs q rels next =
    (skipped : ℕ) (errors : List GithubError) (rel : SignedManifest)
    → next skipped errors ≡ ok rel
    → IsNewest docs q rels rel

read-IsNewest :
    (docs : Documents) (stopped : Bool) (q : Query) (r : GhRelease) (rels : List GhRelease)
    (next : ℕ → List GithubError → Result GithubError SignedManifest) (skipped : ℕ)
    (errors : List GithubError) (o : Result GithubError SignedManifest) (rel : SignedManifest)
    → release_from docs r q ≡ o
    → look q r ≡ considered
    → Finds docs q rels next
    → after_read stopped next skipped errors o ≡ ok rel
    → IsNewest docs q (r ∷ rels) rel
unfolding Finds
read-IsNewest docs stopped q r rels next skipped errors (ok s) rel e l f h = record {
  newer = [];
  chosen = r;
  older = rels;
  place = refl;
  is_eligible = considered-IsEligible q r l;
  is_read = e ∙ h;
  none_newer = tt;
}
read-IsNewest docs stopped q r rels next skipped errors (err x) rel e l f h =
    later docs q r rels rel (λ _. (x, e))
      (elim (if-cases (is_no_update x) (next (suc skipped) errors) _ (ok rel) h) [
        | inl (_, k) ↦ f (suc skipped) errors rel k
        | inr (_, k) ↦
            elim (if-cases (is_limited x || stopped) (err x) (next (suc skipped) (errors ++ x ∷ []))
              (ok rel) k) [
                | inl (_, m) ↦ cc
                | inr (_, m) ↦ f (suc skipped) (errors ++ x ∷ []) rel m
              ]
      ])

look-IsNewest :
    (docs : Documents) (stopped : Bool) (q : Query) (r : GhRelease) (rels : List GhRelease)
    (next : ℕ → List GithubError → Result GithubError SignedManifest) (skipped : ℕ)
    (errors : List GithubError) (k : Looked) (rel : SignedManifest)
    → look q r ≡ k
    → Finds docs q rels next
    → after_look stopped next skipped errors (release_from docs r q) k ≡ ok rel
    → IsNewest docs q (r ∷ rels) rel
unfolding Finds
look-IsNewest docs stopped q r rels next skipped errors passed rel l f h =
    later docs q r rels rel (λ c. cc (l, eligible-considered q r c)) (f skipped errors rel h)
look-IsNewest docs stopped q r rels next skipped errors unversioned rel l f h =
    later docs q r rels rel (λ c. cc (l, eligible-considered q r c)) (f (suc skipped) errors rel h)
look-IsNewest docs stopped q r rels next skipped errors considered rel l f h =
    read-IsNewest docs stopped q r rels next skipped errors (release_from docs r q) rel refl l f h

scan_releases-IsNewest :
    (docs : Documents) (stopped : Bool) (q : Query) (rels : List GhRelease) (skipped : ℕ)
    (errors : List GithubError) (rel : SignedManifest)
    → scan_releases docs stopped q rels skipped errors ≡ ok rel
    → IsNewest docs q rels rel
unfolding scan_releases Finds
scan_releases-IsNewest docs stopped q [] skipped errors rel h = cc
scan_releases-IsNewest docs stopped q (r ∷ rels) skipped errors rel h =
    look-IsNewest docs stopped q r rels (scan_releases docs stopped q rels) skipped errors
      (look q r) rel refl (scan_releases-IsNewest docs stopped q rels) h

wrapped : (r : Result MatchError (Unit {0})) (u : Unit {0}) → wrap bad_match r ≡ ok u → r ≡ ok tt
wrapped (ok a) u h = refl
wrapped (err e) u h = cc

from_manifest-IsServed :
    (docs : Documents) (r : GhRelease) (q : Query) (o : Option (Text × Text)) (rel : SignedManifest)
    → from_manifest docs r q o ≡ ok rel
    → IsServed rel.manifest q
from_manifest-IsServed docs r q none rel h = cc
from_manifest-IsServed docs r q (some (man_url, sig_url)) rel h =
    let (sm, _, h1) = bind-ok (docs.manifest_at man_url) _ rel h in
    let (u, m, h2) = bind-ok (wrap bad_match (match_query sm.manifest q)) _ rel h1 in
    let (_, _, h3) = bind-ok (check_detached docs sig_url sm) _ rel h2 in
    let (artifacts, _, h4) = bind-ok (resolve_artifacts r.assets sm.manifest.artifacts) _ rel h3 in
    let same : record sm { manifest = record sm.manifest { artifacts = artifacts } } ≡ rel = cc in
    let served = (match_query_iff sm.manifest q).0 (wrapped (match_query sm.manifest q) u m) in
    subst (λ x. IsServed x.manifest q) same
      (record {
        same_channel = served.same_channel;
        same_platform = served.same_platform;
        same_arch = served.same_arch;
        upgrade = served.upgrade;
      })

-- When `Check` answers with a release: it is no draft, no prerelease on the stable channel, and its tag
-- carries a version newer than the current one; on every earlier release of the list with these
-- properties `releaseFrom` fails; and its manifest is for the channel, platform and architecture that were asked for,
-- and is an upgrade that its minimum allows.
pub check_github-IsNewest :
    (docs : Documents) (is_configured before stopped : Bool) (q : Query)
    (list : Result GithubError (List GhRelease)) (rel : SignedManifest)
    → check_github docs is_configured before stopped q list ≡ ok rel
    → (rels : List GhRelease) × (list ≡ ok rels)
      × IsNewest docs q rels rel
      × IsServed rel.manifest q
unfolding check_github release_from
check_github-IsNewest docs is_configured before stopped q list rel h =
    let (_, h1) = (guard_iff is_configured not_configured _ rel).0 h in
    let (_, h2) = (guard_iff (not before) canceled _ rel).0 h1 in
    let (rels, e, h3) = bind-ok list _ rel h2 in
    let n = scan_releases-IsNewest docs stopped q rels 0 [] rel h3 in
    (
      rels,
      e,
      n,
      from_manifest-IsServed docs n.chosen q
          (find_manifest n.chosen.assets (manifest_candidates q.query_platform)) rel n.is_read,
    )
