-- ===== src/Update/Provider/Tests.antt =====
-- The signed manifest of the manifest tests, and a query that it serves.
use connective.Prelude.{◌≡◌, ◌↔◌, refl, ok, codes, text_eq, trim_space, split}
use connective.Update.Version.Number.{atoi}
use connective.Update.Version.{parse_version, component, compare_version, compare_pre, acceptable}
use connective.Update.Manifest.Tests.{current, manifest}
use connective.Update.Manager.Check.{Query}
use connective.Update.Provider.{match_query, IsServed, match_query_iff}

abbrev query : Query
query = record {
  query_channel = codes "stable";
  query_platform = codes "linux";
  query_arch = codes "amd64";
  query_current = current;
}

matches : match_query manifest query ≡ ok tt
unfolding match_query acceptable parse_version trim_space component split atoi compare_version
    compare_pre text_eq
matches = refl

match_query_iff_example : (match_query manifest query ≡ ok tt) ↔ IsServed manifest query
match_query_iff_example = match_query_iff manifest query
