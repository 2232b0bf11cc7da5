-- ===== src/Update/Manifest/Validity.antt =====
-- What a manifest that passed `Manifest.Validate` satisfies.
use connective.Prelude.{
  true, false, not, ◌||◌, ◌==◌, ==_iff, List, [], ◌∷◌, Text, codes, text_eq, text_eq_iff, is_empty,
  contains, length, Result, ok, err, guard_iff, ◌>>=◌, ◌≡◌, ◌≢◌, ◌⊎◌, inl, inr, refl, arith, All,
  Bool-cases,
}
use connective.Prelude.Int.{ℤ, pos, negsuc, ◌<ℤ◌, leb_ℤ}
use connective.Update.Version.{Version, VersionError, parse_version, wrap, valid_channel}
use connective.Update.Manifest.{
  Artifact, Manifest, bad_from_version, artifact_error, unsupported_schema, unknown_channel,
  missing_platform, missing_arch, no_artifacts, manifest_version, manifest_min_version,
  artifact_full, artifact_delta, artifact_key, is_blank, is_hex, is_schema, has_none, check_version,
  validate_artifact, validate_artifacts, validate, is_seen,
}

-- An absent version, or one that parses.
abbrev pub Parses : Text → Type 0
Parses s = (v : Version) × (parse_version s ≡ ok v)

pub record IsValidArtifact (a : Artifact) : Type 0 where
  pub known_type : (a.type ≡ artifact_full) ⊎ (a.type ≡ artifact_delta)
  pub named : is_blank a.filename ≡ false
  pub confined : contains a.filename (codes "..") ≡ false
  pub nonempty : pos 0 <ℤ a.size
  pub hash_length : length a.sha256 ≡ 64
  pub hash_hex : is_hex a.sha256 ≡ true
  pub located : is_blank a.url ≡ false
  pub source_parses : (is_empty a.from_version ≡ true) ⊎ Parses a.from_version

wrap-ok : {E F A : Type 0} (f : E → F) (r : Result E A) (a : A) → wrap f r ≡ ok a → r ≡ ok a
wrap-ok f (ok b) a h = ground arith
wrap-ok f (err e) a h = cc

bind-ok :
    {E A B : Type 0} (r : Result E A) (k : A → Result E B) (b : B)
    → (r >>= k) ≡ ok b
    → (a : A) × (r ≡ ok a) × (k a ≡ ok b)
bind-ok (ok a) k b h = (a, refl, h)
bind-ok (err e) k b h = cc

check_version-ok :
    {E A : Type 0} (f : VersionError → E) (s : Text) (next : Result E A) (a : A)
    → check_version f s next ≡ ok a
    → ((is_empty s ≡ true) ⊎ Parses s) × (next ≡ ok a)
unfolding check_version
check_version-ok f s next a h = elim (Bool-cases (is_empty s)) [
  | inl e ↦ (inl e, rw e at h)
  | inr e ↦
      let (v, p, q) = bind-ok (wrap f (parse_version s)) (λ _. next) a (rw e at h) in
      (inr (v, wrap-ok f (parse_version s) v p), q)
]

-- The guards of `validate_artifact`, read off one by one.
module _ (a : Artifact) (h : validate_artifact a ≡ ok tt) where
  validate_artifact-tests :
      ((text_eq a.type artifact_full || text_eq a.type artifact_delta) ≡ true)
      × (is_blank a.filename ≡ false)
      × (contains a.filename (codes "..") ≡ false)
      × (leb_ℤ a.size (pos 0) ≡ false)
      × ((length a.sha256 == 64) ≡ true)
      × (is_hex a.sha256 ≡ true)
      × (is_blank a.url ≡ false)
      × (check_version bad_from_version a.from_version (ok tt) ≡ ok tt)
  unfolding validate_artifact
  validate_artifact-tests = ground arith

  validate_artifact-valid : IsValidArtifact a
  validate_artifact-valid =
      let t = validate_artifact-tests in
      record {
        known_type =
            ground (arith, text_eq_iff a.type artifact_full, text_eq_iff a.type artifact_delta);
        named = t.1;
        confined = t.2;
        nonempty = ground arith;
        hash_length = (==_iff _ _).0 t.4;
        hash_hex = t.5;
        located = t.6;
        source_parses = (check_version-ok bad_from_version a.from_version (ok tt) tt t.7).0;
      }

-- No two artifacts of the list have the same type and source version.
abbrev pub Distinct : List Artifact → Type 0
Distinct [] = Unit
Distinct (a ∷ as') =
    All (λ b. ¬ ((a.type ≡ b.type) × (a.from_version ≡ b.from_version))) as' × Distinct as'

abbrev pub DeltaHasSource : Artifact → Type 0
DeltaHasSource a = a.type ≡ artifact_delta → is_empty a.from_version ≡ false

-- What the loop establishes, given the keys that it has met.
record Checked (seen : List Text) (as' : List Artifact) : Type 0 where
  valid : All IsValidArtifact as'
  sources : All DeltaHasSource as'
  new : All (λ b. is_seen (artifact_key b) seen ≡ false) as'
  distinct : Distinct as'

not_seen-tail :
    (k x : Text) (seen : List Text)
    → is_seen k (x ∷ seen) ≡ false
    → (x ≢ k) × (is_seen k seen ≡ false)
unfolding is_seen
not_seen-tail k x seen h = (λ e. ground (arith, (text_eq_iff x k).1 e), ground arith)

drop_key :
    (x : Text) (seen : List Text) (as' : List Artifact)
    → All (λ b. is_seen (artifact_key b) (x ∷ seen) ≡ false) as'
    → All (λ b. is_seen (artifact_key b) seen ≡ false) as'
drop_key x seen [] h = tt
drop_key x seen (a ∷ as') h = ((not_seen-tail _ x seen h.0).1, drop_key x seen as' h.1)

differs :
    (a : Artifact) (seen : List Text) (as' : List Artifact)
    → All (λ b. is_seen (artifact_key b) (artifact_key a ∷ seen) ≡ false) as'
    → All (λ b. ¬ ((a.type ≡ b.type) × (a.from_version ≡ b.from_version))) as'
differs a seen [] h = tt
differs a seen (b ∷ as') h =
    (λ e. (not_seen-tail _ _ seen h.0).0 (cc (e.0, e.1)), differs a seen as' h.1)

validate_artifacts-round :
    (seen : List Text) (a : Artifact) (as' : List Artifact)
    → validate_artifacts seen (a ∷ as') ≡ ok tt
    → (validate_artifact a ≡ ok tt)
      × DeltaHasSource a
      × (is_seen (artifact_key a) seen ≡ false)
      × (validate_artifacts (artifact_key a ∷ seen) as' ≡ ok tt)
unfolding validate_artifacts
validate_artifacts-round seen a as' h =
    let (u, p, q) = bind-ok (wrap artifact_error (validate_artifact a)) _ tt h in
    (
      wrap-ok artifact_error (validate_artifact a) tt p,
      λ e. ground (arith, text_eq_iff a.type artifact_delta),
      ground arith,
      ground arith,
    )

validate_artifacts-Checked :
    (seen : List Text) (as' : List Artifact)
    → validate_artifacts seen as' ≡ ok tt
    → Checked seen as'
validate_artifacts-Checked seen [] h = record { valid = tt; sources = tt; new = tt; distinct = tt }
validate_artifacts-Checked seen (a ∷ as') h =
    let (v, s, n, k) = validate_artifacts-round seen a as' h in
    let c = validate_artifacts-Checked (artifact_key a ∷ seen) as' k in
    record {
      valid = (validate_artifact-valid a v, c.valid);
      sources = (s, c.sources);
      new = (n, drop_key (artifact_key a) seen as' c.new);
      distinct = (differs a seen as' c.new, c.distinct);
    }

pub record IsWellFormed (m : Manifest) : Type 0 where
  pub schema_known : m.schema ≡ pos 1
  pub version_parses : Parses m.version
  pub channel_known : valid_channel m.channel ≡ true
  pub minimum_parses : (is_empty m.min_version ≡ true) ⊎ Parses m.min_version
  pub platform_named : is_blank m.platform ≡ false
  pub arch_named : is_blank m.arch ≡ false
  pub some_artifact : m.artifacts ≢ []
  pub all_valid : All IsValidArtifact m.artifacts
  pub deltas_sourced : All DeltaHasSource m.artifacts
  pub no_duplicates : Distinct m.artifacts

is_schema-one : (z : ℤ) → is_schema z ≡ true → z ≡ pos 1
is_schema-one (pos n) h = ground (arith, (==_iff n 1).0 h)
is_schema-one (negsuc n) h = cc

has_none-ne : (as' : List Artifact) → has_none as' ≡ false → as' ≢ []
has_none-ne [] h e = cc
has_none-ne (a ∷ as') h e = cc

-- A manifest that passes validation has schema 1, a version and an optional minimum that parse, a known
-- channel, a platform and an architecture, and at least one artifact; each artifact has a known type,
-- a confined file name, a positive size, a hash of 64 hexadecimal digits and a URL; each delta names
-- its source version; and no two artifacts have the same type and source version.
pub validate-IsWellFormed : (m : Manifest) → validate m ≡ ok tt → IsWellFormed m
unfolding validate
validate-IsWellFormed m h =
    let (schema, h1) = (guard_iff (is_schema m.schema) unsupported_schema _ tt).0 h in
    let (v, p, h2) = bind-ok (wrap manifest_version (parse_version m.version)) _ tt h1 in
    let (channel, h3) = (guard_iff (valid_channel m.channel) unknown_channel _ tt).0 h2 in
    let (minimum, h4) = check_version-ok manifest_min_version m.min_version _ tt h3 in
    let (plat, h5) = (guard_iff (not (is_blank m.platform)) missing_platform _ tt).0 h4 in
    let (arch, h6) = (guard_iff (not (is_blank m.arch)) missing_arch _ tt).0 h5 in
    let (some_art, h7) = (guard_iff (not (has_none m.artifacts)) no_artifacts _ tt).0 h6 in
    let c = validate_artifacts-Checked [] m.artifacts h7 in
    record {
      schema_known = is_schema-one m.schema schema;
      version_parses = (v, wrap-ok manifest_version (parse_version m.version) v p);
      channel_known = channel;
      minimum_parses = minimum;
      platform_named = ground arith;
      arch_named = ground arith;
      some_artifact = has_none-ne m.artifacts (ground arith);
      all_valid = c.valid;
      deltas_sourced = c.sources;
      no_duplicates = c.distinct;
    }
