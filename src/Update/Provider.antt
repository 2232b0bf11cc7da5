-- ===== src/Update/Provider.antt =====
-- What every release provider is asked, and the match of a manifest with it
-- (backend/internal/update/provider.go). The providers themselves fetch over HTTP or read files.
mod Tests
use connective.Prelude.{
  Bool, true, false, Bool-cases, if◌then◌else◌, Text, codes, text_eq, text_eq_iff, text_eq_refl,
  Result, ok, err, ◌>>=◌, ◌>>◌, guard, Result-cases, ◌≡◌, ◌↔◌, ◌⊎◌, inl, inr, refl, sym, ap, ◌∙◌,
  arith,
}
use connective.Prelude.Int.{pos}
use connective.Update.Version.{Version, VersionError, PolicyError, parse_version, acceptable}
use connective.Update.Version.Policy.{IsUpgrade, acceptable_iff}
use connective.Update.Manifest.{Manifest}
use connective.Update.Manager.Check.{Query}

-- `no_match` and `not_acceptable` mean no update, `invalid_version` is a failure.
pub data MatchError : Type 0 where
  no_match : MatchError
  invalid_version : VersionError → MatchError
  not_acceptable : PolicyError → MatchError

abbrev pub refusal : Result VersionError Version → PolicyError → MatchError
refusal (ok v) e = not_acceptable e
refusal (err x) e = invalid_version x

abbrev pub judged : Text → Result PolicyError (Unit {0}) → Result MatchError (Unit {0})
judged version (ok u) = ok u
judged version (err e) = err (refusal (parse_version version) e)

-- `MatchQuery`
unfoldable pub match_query : Manifest → Query → Result MatchError (Unit {0})
match_query m q =
    if text_eq m.channel q.query_channel
    then (if text_eq m.platform q.query_platform
        then (if text_eq m.arch q.query_arch
            then judged m.version (acceptable q.query_current m.version m.min_version)
            else err no_match)
        else err no_match)
    else err no_match

-- The manifest serves the query.
pub record IsServed (m : Manifest) (q : Query) : Type 0 where
  pub same_channel : m.channel ≡ q.query_channel
  pub same_platform : m.platform ≡ q.query_platform
  pub same_arch : m.arch ≡ q.query_arch
  pub upgrade : IsUpgrade q.query_current m.version m.min_version

judged-ok :
    (version : Text) (r : Result PolicyError (Unit {0})) → judged version r ≡ ok tt → r ≡ ok tt
judged-ok version (ok u) h = refl
judged-ok version (err e) h = cc

match_query_sound : (m : Manifest) (q : Query) → match_query m q ≡ ok tt → IsServed m q
unfolding match_query
match_query_sound m q h = elim (Bool-cases (text_eq m.channel q.query_channel)) [
  | inr e ↦ ground arith
  | inl e ↦ elim (Bool-cases (text_eq m.platform q.query_platform)) [
    | inr f ↦ ground arith
    | inl f ↦ elim (Bool-cases (text_eq m.arch q.query_arch)) [
      | inr g ↦ ground arith
      | inl g ↦
          let accepted =
            judged-ok m.version (acceptable q.query_current m.version m.min_version)
              (rw (e, f, g) at h) in
          record {
            same_channel = (text_eq_iff m.channel q.query_channel).0 e;
            same_platform = (text_eq_iff m.platform q.query_platform).0 f;
            same_arch = (text_eq_iff m.arch q.query_arch).0 g;
            upgrade = (acceptable_iff q.query_current m.version m.min_version).0 accepted;
          }
    ]
  ]
]

match_query_complete : (m : Manifest) (q : Query) → IsServed m q → match_query m q ≡ ok tt
unfolding match_query
match_query_complete m q s =
    rw
      (
        (text_eq_iff m.channel q.query_channel).1 s.same_channel,
        (text_eq_iff m.platform q.query_platform).1 s.same_platform,
        (text_eq_iff m.arch q.query_arch).1 s.same_arch,
        (acceptable_iff q.query_current m.version m.min_version).1 s.upgrade,
      )
      refl

-- A manifest matches a query exactly when channel, platform and architecture are those asked for and its
-- version is an upgrade of the current one that its minimum allows.
pub match_query_iff : (m : Manifest) (q : Query) → (match_query m q ≡ ok tt) ↔ IsServed m q
match_query_iff m q = (match_query_sound m q, match_query_complete m q)
