-- ===== src/Update/Manifest.antt =====
-- Manifests (backend/internal/update/manifest.go), their signatures (verify.go) and the choice of an
-- artifact (artifacts.go). The JSON codec is not modelled: a manifest is the decoded struct, and
-- `canonical` stands for its deterministic bytes; Ed25519 is a parameter.
pub mod Best
pub mod Selection
pub mod Trust
pub mod Validity
pub mod Tests
use connective.Prelude.{
  ℕ, zero, suc, ◌+◌, ◌-◌, ◌*◌, ◌/◌, ◌%◌, ltb, Bool, true, false, not, ◌&&◌, ◌||◌, leb, ◌==◌,
  if◌then◌else◌, List, [], ◌∷◌, ◌++◌, Option, none, some, Text, codes, text_eq, is_empty,
  trim_space, contains, length, Result, ok, err, ◌>>=◌, ◌>>◌, guard, Ordering,
}
use connective.Prelude.Int.{ℤ, pos, ltb_ℤ, leb_ℤ}
use connective.Update.Version.{
  Version, VersionError, parse_version, compare_version, valid_channel, wrap,
}

pub record Artifact : Type 0 where
  pub type : Text
  pub filename : Text
  pub size : ℤ
  pub sha256 : Text
  pub url : Text
  pub from_version : Text

pub record Manifest : Type 0 where
  pub schema : ℤ
  pub version : Text
  pub channel : Text
  pub release_date : Text
  pub release_notes : List Text
  pub min_version : Text
  pub platform : Text
  pub arch : Text
  pub artifacts : List Artifact

pub record SignedManifest : Type 0 where
  pub manifest : Manifest
  pub signature : Text
  pub key_id : Text

abbrev pub artifact_full : Text
artifact_full = codes "full"

abbrev pub artifact_delta : Text
artifact_delta = codes "delta"

abbrev pub is_blank : Text → Bool
is_blank s = is_empty (trim_space s)

abbrev pub is_hex_digit : ℕ → Bool
is_hex_digit c =
    (leb b'0' c && leb c b'9') || ((leb b'a' c && leb c b'f') || (leb b'A' c && leb c b'F'))

unfoldable pub is_hex : Text → Bool
is_hex [] = true
is_hex (c ∷ s) = is_hex_digit c && is_hex s

pub data ArtifactError : Type 0 where
  unknown_type missing_filename unsafe_filename bad_size bad_sha256 missing_url : ArtifactError
  bad_from_version : VersionError → ArtifactError

-- An optional version: absent, or one that parses.
unfoldable pub check_version : {E A : Type 0} → (VersionError → E) → Text → Result E A → Result E A
check_version f s next = if is_empty s then next else wrap f (parse_version s) >>= (λ _. next)

-- `Artifact.Validate`. A hash of 64 hexadecimal characters is ASCII, so its length in characters is
-- its length in bytes.
unfoldable pub validate_artifact : Artifact → Result ArtifactError (Unit {0})
validate_artifact a = do
  guard (text_eq a.type artifact_full || text_eq a.type artifact_delta) unknown_type
  guard (not (is_blank a.filename)) missing_filename
  guard (not (contains a.filename (codes ".."))) unsafe_filename
  guard (not (leb_ℤ a.size (pos 0))) bad_size
  guard (length a.sha256 == 64 && is_hex a.sha256) bad_sha256
  guard (not (is_blank a.url)) missing_url
  check_version bad_from_version a.from_version (ok tt)

pub data ManifestError : Type 0 where
  unsupported_schema unknown_channel missing_platform missing_arch no_artifacts : ManifestError
  manifest_version manifest_min_version : VersionError → ManifestError
  artifact_error : ArtifactError → ManifestError
  delta_needs_from : ManifestError
  duplicate_artifact : Text → ManifestError
  unsigned no_key_id : ManifestError

abbrev pub artifact_key : Artifact → Text
artifact_key a = a.type ++ (b'|' ∷ a.from_version)

unfoldable pub is_seen : Text → List Text → Bool
is_seen k [] = false
is_seen k (x ∷ xs) = text_eq x k || is_seen k xs

-- The loop over the artifacts; `seen` holds the keys met so far.
unfoldable pub validate_artifacts : List Text → List Artifact → Result ManifestError (Unit {0})
validate_artifacts seen [] = ok tt
validate_artifacts seen (a ∷ rest) = do
  wrap artifact_error (validate_artifact a)
  guard (not (text_eq a.type artifact_delta && is_empty a.from_version)) delta_needs_from
  guard (not (is_seen (artifact_key a) seen)) (duplicate_artifact (artifact_key a))
  validate_artifacts (artifact_key a ∷ seen) rest

-- `ManifestSchema` is 1.
abbrev pub is_schema : ℤ → Bool
is_schema (pos n) = n == 1
is_schema _ = false

abbrev pub has_none {ℓ} : {A : Type ℓ} → List A → Bool
has_none [] = true
has_none (_ ∷ _) = false

-- `Manifest.Validate`
unfoldable pub validate : Manifest → Result ManifestError (Unit {0})
validate m = do
  guard (is_schema m.schema) unsupported_schema
  v ← wrap manifest_version (parse_version m.version)
  guard (valid_channel m.channel) unknown_channel
  check_version manifest_min_version m.min_version (do
    guard (not (is_blank m.platform)) missing_platform
    guard (not (is_blank m.arch)) missing_arch
    guard (not (has_none m.artifacts)) no_artifacts
    validate_artifacts [] m.artifacts)

-- The checks of `ParseSignedManifest`, after the JSON is decoded.
unfoldable pub check_signed : SignedManifest → Result ManifestError SignedManifest
check_signed sm = do
  validate sm.manifest
  guard (not (is_blank sm.signature)) unsigned
  guard (not (is_blank sm.key_id)) no_key_id
  ok sm

-- `fullArtifactOf`: the first full artifact.
unfoldable pub full_artifact_of : List Artifact → Option Artifact
full_artifact_of [] = none
full_artifact_of (a ∷ rest) = if text_eq a.type artifact_full then some a else full_artifact_of rest

pub data SelectError : Type 0 where
  bad_current_version : VersionError → SelectError
  no_full_artifact : SelectError

abbrev pub is_eq : Ordering → Bool
is_eq Ordering.eq = true
is_eq _ = false

abbrev pub parses_to : Version → Result VersionError Version → Bool
parses_to cur (err _) = false
parses_to cur (ok from) = is_eq (compare_version from cur)

-- Is this delta made from exactly the current version?
unfoldable pub fits_current : Version → Artifact → Bool
fits_current cur a = parses_to cur (parse_version a.from_version)

abbrev pub is_smaller : Artifact → Option Artifact → Bool
is_smaller a none = true
is_smaller a (some d) = ltb_ℤ a.size d.size

-- One round of the loop of `SelectArtifact`, over the pair (full, delta).
unfoldable pub consider :
    Version → Option Artifact × Option Artifact → Artifact → Option Artifact × Option Artifact
unfolding fits_current
consider cur (full, delta) a =
    if text_eq a.type artifact_full
    then (elim full [ none ↦ some a | some f ↦ some f ], delta)
    else if text_eq a.type artifact_delta
    then (full, if fits_current cur a && is_smaller a delta then some a else delta)
    else (full, delta)

unfoldable pub scan :
    Version → Option Artifact × Option Artifact → List Artifact → Option Artifact × Option Artifact
unfolding consider
scan cur best [] = best
scan cur best (a ∷ rest) = scan cur (consider cur best a) rest

abbrev pub choose : Option Artifact × Option Artifact → Result SelectError Artifact
choose (none, _) = err no_full_artifact
choose (some full, none) = ok full
choose (some full, some delta) = ok (if ltb_ℤ delta.size full.size then delta else full)

unfoldable pub select_artifact : Text → Manifest → Result SelectError Artifact
unfolding scan
select_artifact current m = do
  cur ← wrap bad_current_version (parse_version current)
  choose (scan cur (none, none) m.artifacts)

-- `VerifyManifest`. Ed25519 and the canonical encoding are the environment's.
pub record Crypto : Type 0 where
  pub ed25519_verify : Text → Text → Text → Bool
  pub canonical : Manifest → Text

pub data TrustError : Type 0 where
  no_keys untrusted_key bad_encoding bad_signature : TrustError

unfoldable pub find_key : Text → List (Text × Text) → Option Text
find_key k [] = none
find_key k ((id, pub_key) ∷ rest) = if text_eq id k then some pub_key else find_key k rest

abbrev pub hex_value : ℕ → ℕ
hex_value c = if leb c b'9' then c - b'0' else if leb c b'F' then c - b'A' + 10 else c - b'a' + 10

-- hex.DecodeString: pairs of hexadecimal digits.
unfoldable pub hex_decode : Text → Option Text
hex_decode [] = some []
hex_decode (a ∷ []) = none
hex_decode (a ∷ b ∷ s) =
    let rest = hex_decode s in
    if is_hex_digit a && is_hex_digit b
    then elim rest [ none ↦ none | some t ↦ some ((hex_value a * 16 + hex_value b) ∷ t) ]
    else none

abbrev pub check_decoded : Crypto → Text → Manifest → Option Text → Result TrustError (Unit {0})
check_decoded c key m none = err bad_encoding
check_decoded c key m (some sig) = guard (c.ed25519_verify key (c.canonical m) sig) bad_signature

abbrev pub check_key : Crypto → SignedManifest → Option Text → Result TrustError (Unit {0})
check_key c sm none = err untrusted_key
check_key c sm (some key) = check_decoded c key sm.manifest (hex_decode (trim_space sm.signature))

unfoldable pub verify_manifest :
    Crypto → List (Text × Text) → SignedManifest → Result TrustError (Unit {0})
verify_manifest c keys sm =
    if has_none keys then err no_keys else check_key c sm (find_key sm.key_id keys)

-- hex.EncodeToString: two lower-case digits for each byte.
abbrev pub hex_char : ℕ → ℕ
hex_char d = if ltb d 10 then b'0' + d else b'a' + (d - 10)

unfoldable pub hex_encode : Text → Text
hex_encode [] = []
hex_encode (b ∷ s) = hex_char (b / 16) ∷ hex_char (b % 16) ∷ hex_encode s

-- `SignManifest`; `sign` is ed25519.Sign with the operator's private key.
unfoldable pub sign_manifest : Crypto → (Text → Text) → Manifest → Text → SignedManifest
sign_manifest c sign m key_id = record {
  manifest = m;
  signature = hex_encode (sign (c.canonical m));
  key_id = key_id;
}
