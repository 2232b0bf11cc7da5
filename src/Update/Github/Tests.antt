-- ===== src/Update/Github/Tests.antt =====
-- A release chosen among three.
use connective.Prelude.{
  true, false, List, [], ◌∷◌, codes, Result, ok, err, ◌≡◌, refl, text_eq, trim_space, split,
  contains, has_prefix, trim_prefix,
}
use connective.Servers.{is_among}
use connective.Update.Version.Number.{atoi}
use connective.Update.Version.{
  parse_version, component, compare_version, compare_pre, acceptable, is_newer_than,
}
use connective.Update.Manifest.{SignedManifest}
use connective.Update.Manifest.Tests.{current, manifest}
use connective.Update.Manager.Check.{Query}
use connective.Update.Provider.{match_query, IsServed}
use connective.Update.Github.{
  GhRelease, Documents, GithubError, fetch_error, manifest_asset, check_github, scan_releases, look,
  tag_version, release_from, find_manifest, manifest_candidates, asset_url, distinct_names,
  resolve_artifacts, check_detached,
}
use connective.Update.Github.Newest.{IsNewest, check_github-IsNewest}

abbrev query : Query
query = record {
  query_channel = codes "stable";
  query_platform = codes "linux";
  query_arch = codes "amd64";
  query_current = current;
}

abbrev signed : SignedManifest
signed = record { manifest = manifest; signature = []; key_id = codes "k" }

abbrev documents : Documents
documents = record { manifest_at = λ url. ok signed; text_at = λ url. err fetch_error }

abbrev plain : GhRelease
plain = record {
  tag_name = codes "v0.2.10";
  prerelease = false;
  draft = false;
  assets = record { asset_name = manifest_asset; download_url = codes "https://m" } ∷ [];
}

abbrev releases : List GhRelease
releases =
    record plain { tag_name = codes "v0.3.0"; prerelease = true }
    ∷ record plain { tag_name = codes "v0.2.11"; assets = [] }
    ∷ plain
    ∷ []

abbrev listed : Result GithubError (List GhRelease)
listed = ok releases

answered : check_github documents true false false query listed ≡ ok signed
unfolding check_github scan_releases look tag_version release_from find_manifest manifest_candidates
    asset_url distinct_names resolve_artifacts check_detached match_query acceptable parse_version
    trim_space component split atoi compare_version compare_pre text_eq is_newer_than contains
    has_prefix trim_prefix is_among
answered = refl

check_github-IsNewest_example :
    (rels : List GhRelease) × (listed ≡ ok rels)
    × IsNewest documents query rels signed
    × IsServed manifest query
check_github-IsNewest_example =
    check_github-IsNewest documents true false false query listed signed answered
