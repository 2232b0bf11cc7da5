-- ===== src/Update/Github.antt =====
-- The GitHub provider (backend/internal/update/github.go): which release `Check` answers with. The
-- documents behind an address are parameters; the requests themselves are not modelled.
pub mod Newest
mod Tests
use connective.Prelude.{
  ℕ, zero, suc, ◌+◌, ◌==◌, ◌&&◌, ◌||◌, not, Bool, true, false, if◌then◌else◌, List, [], ◌∷◌, ◌++◌,
  Option, none, some, Text, codes, is_empty, text_eq, trim_space, trim_prefix, contains, length,
  Result, ok, err, ◌>>=◌, ◌>>◌, guard,
}
use connective.Servers.{is_among}
use connective.Update.Version.{VersionError, parse_version, is_newer_than, wrap}
use connective.Update.Manifest.{Artifact, Manifest, SignedManifest}
use connective.Update.Manager.Check.{Query}
use connective.Update.Provider.{MatchError, no_match, invalid_version, not_acceptable, match_query}

pub record GhAsset : Type 0 where
  pub asset_name : Text
  pub download_url : Text

-- `ghRelease`, the fields that the code reads.
pub record GhRelease : Type 0 where
  pub tag_name : Text
  pub prerelease : Bool
  pub draft : Bool
  pub assets : List GhAsset

-- `no_update` is the sentinel for which IsNoUpdate answers true; `limited` is throttling.
pub data GithubError : Type 0 where
  no_update_here limited fetch_error bad_manifest bad_signature asset_missing not_configured
        canceled :
      GithubError
  bad_match : MatchError → GithubError

-- What stands behind an address: getBytes with ParseSignedManifest, and getBytes.
pub record Documents : Type 0 where
  pub manifest_at : Text → Result GithubError SignedManifest
  pub text_at : Text → Result GithubError Text

-- `tagVersion`
unfoldable pub tag_version : Text → Result VersionError Text
tag_version tag =
    let t = trim_prefix (codes "V") (trim_prefix (codes "v") (trim_space tag)) in
    parse_version t >>= λ _. ok t

-- `byName`: the last asset of this name, with its address.
unfoldable pub asset_url : Text → List GhAsset → Option Text
asset_url name [] = none
asset_url name (a ∷ assets) =
    let later = asset_url name assets in
    elim later [
      | some u ↦ some u
      | none ↦ if text_eq a.asset_name name then some a.download_url else none
    ]

abbrev pub manifest_asset : Text
manifest_asset = codes "update-manifest.json"

abbrev pub sig_asset : Text
sig_asset = codes "update-manifest.json.sig"

unfoldable pub distinct_names : List Text → List Text → List Text
distinct_names seen [] = []
distinct_names seen (n ∷ names) =
    let again = distinct_names seen names in
    let first = distinct_names (n ∷ seen) names in if is_among n seen then again else n ∷ first

-- `manifestCandidates`
unfoldable pub manifest_candidates : Text → List Text
unfolding distinct_names
manifest_candidates platform = distinct_names [] (
    (codes "update-manifest-" ++ (platform ++ codes ".json"))
    ∷ manifest_asset
    ∷ (if text_eq platform (codes "linux") then codes "update-manifest-linux.json" ∷ [] else []))

abbrev pub or_url : Option Text → Option Text → Text
or_url (some u) o = u
or_url none (some u) = u
or_url none none = []

-- The first candidate with an address, and the address of its signature, or the empty text.
unfoldable pub find_manifest : List GhAsset → List Text → Option (Text × Text)
find_manifest assets [] = none
find_manifest assets (want ∷ names) =
    let rest = find_manifest assets names in
    elim (asset_url want assets) [
      | none ↦ rest
      | some u ↦
          if is_empty u
          then rest
          else some
              (u, or_url (asset_url (want ++ codes ".sig") assets) (asset_url sig_asset assets))
    ]

abbrev pub wanted_name : Artifact → Text
wanted_name a = if is_empty a.url then a.filename else a.url

abbrev pub with_url : Artifact → Option Text → Result GithubError Artifact
with_url a none = err asset_missing
with_url a (some u) = if is_empty u then err asset_missing else ok (record a { url = u })

-- The loop that resolves relative addresses.
unfoldable pub resolve_artifacts : List GhAsset → List Artifact → Result GithubError (List Artifact)
unfolding asset_url
resolve_artifacts assets [] = ok []
resolve_artifacts assets (a ∷ artifacts) = do
  b ← if contains a.url (codes "://") then ok a else with_url a (asset_url (wanted_name a) assets)
  rest ← resolve_artifacts assets artifacts
  ok (b ∷ rest)

-- The detached signature agrees with the embedded one, when there is one.
unfoldable pub check_detached : Documents → Text → SignedManifest → Result GithubError (Unit {0})
check_detached docs sig_url sm =
    if is_empty sig_url
    then ok tt
    else docs.text_at sig_url >>= λ sig.
        guard (text_eq (trim_space sig) (trim_space sm.signature)) bad_signature

abbrev pub from_manifest :
    Documents → GhRelease → Query → Option (Text × Text) → Result GithubError SignedManifest
from_manifest docs r q none = err no_update_here
from_manifest docs r q (some (man_url, sig_url)) = do
  sm ← docs.manifest_at man_url
  m ← wrap bad_match (match_query sm.manifest q)
  d ← check_detached docs sig_url sm
  artifacts ← resolve_artifacts r.assets sm.manifest.artifacts
  ok (record sm { manifest = record sm.manifest { artifacts = artifacts } })

-- `releaseFrom`
unfoldable pub release_from : Documents → GhRelease → Query → Result GithubError SignedManifest
unfolding find_manifest resolve_artifacts check_detached
release_from docs r q =
    from_manifest docs r q (find_manifest r.assets (manifest_candidates q.query_platform))

-- `IsNoUpdate`
abbrev pub is_no_update : GithubError → Bool
is_no_update no_update_here = true
is_no_update (bad_match (invalid_version _)) = false
is_no_update (bad_match _) = true
is_no_update _ = false

abbrev pub is_limited : GithubError → Bool
is_limited limited = true
is_limited _ = false

-- What becomes of one release of the list: passed over without a word, skipped as unreadable, or read.
pub data Looked : Type 0 where
  passed unversioned considered : Looked

abbrev pub looked_version : Query → Result VersionError Text → Looked
looked_version q (err e) = unversioned
looked_version q (ok ver) = elim (is_newer_than q.query_current ver) [
  | err e ↦ passed
  | ok newer ↦ if newer then considered else passed
]

unfoldable pub look : Query → GhRelease → Looked
unfolding tag_version
look q r =
    if r.draft
    then passed
    else if text_eq q.query_channel (codes "stable") && r.prerelease
    then passed
    else looked_version q (tag_version r.tag_name)

-- The end of `Check`, when no release serves: `skipped` counts all that were skipped.
abbrev pub nothing_served : ℕ → List GithubError → GithubError
nothing_served skipped [] = no_update_here
nothing_served skipped (e ∷ errors) = if length (e ∷ errors) == skipped then e else no_update_here

-- What follows when a release was read; `stopped` says that the context is cancelled.
abbrev pub after_read :
    Bool
    → (ℕ → List GithubError → Result GithubError SignedManifest)
    → ℕ
    → List GithubError
    → Result GithubError SignedManifest
    → Result GithubError SignedManifest
after_read stopped next skipped errors (ok rel) = ok rel
after_read stopped next skipped errors (err e) =
    let benign = next (suc skipped) errors in
    let hard = next (suc skipped) (errors ++ e ∷ []) in
    if is_no_update e then benign else if is_limited e || stopped then err e else hard

abbrev pub after_look :
    Bool
    → (ℕ → List GithubError → Result GithubError SignedManifest)
    → ℕ
    → List GithubError
    → Result GithubError SignedManifest
    → Looked
    → Result GithubError SignedManifest
after_look stopped next skipped errors rel passed = next skipped errors
after_look stopped next skipped errors rel unversioned = next (suc skipped) errors
after_look stopped next skipped errors rel considered = after_read stopped next skipped errors rel

-- The loop of `Check` over the releases, newest first.
unfoldable pub scan_releases :
    Documents
    → Bool
    → Query
    → List GhRelease
    → ℕ
    → List GithubError
    → Result GithubError SignedManifest
unfolding look release_from
scan_releases docs stopped q [] skipped errors = err (nothing_served skipped errors)
scan_releases docs stopped q (r ∷ rels) skipped errors =
    after_look stopped (scan_releases docs stopped q rels) skipped errors (release_from docs r q)
      (look q r)

-- `GitHubProvider.Check`, on the list of releases or the error of listing them. The context is cancelled
-- before, during the scan, or not.
unfoldable pub check_github :
    Documents
    → Bool
    → Bool
    → Bool
    → Query
    → Result GithubError (List GhRelease)
    → Result GithubError SignedManifest
unfolding scan_releases
check_github docs is_configured stopped_before stopped q rels = do
  guard is_configured not_configured
  guard (not stopped_before) canceled
  rs ← rels
  scan_releases docs stopped q rs 0 []
