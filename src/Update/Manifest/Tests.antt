-- ===== src/Update/Manifest/Tests.antt =====
-- A signed manifest with a full artifact and a delta, and the theorems at it.
use connective.Prelude.{
  ◌≡◌, ◌⊎◌, ◌↔◌, refl, [], ◌∷◌, ok, err, none, ◌%◌, codes, Text, trim_space, split, text_eq,
  text_eq_refl, arith, length, List, contains, has_prefix,
}
use connective.Prelude.Int.{pos}
use connective.Update.Version.Number.{atoi}
use connective.Update.Version.{
  Version, parse_version, valid_channel, compare_version, compare_pre, component,
}
use connective.Update.Manifest.{
  Artifact, Manifest, SignedManifest, Crypto, artifact_full, artifact_delta, select_artifact, scan,
  consider, fits_current, validate, validate_artifact, validate_artifacts, check_version, is_hex,
  is_seen, verify_manifest, sign_manifest, find_key, full_artifact_of, no_full_artifact,
}
use connective.Update.Manifest.Selection.{IsChosen, select_artifact_lem}
use connective.Update.Manifest.Trust.{IsSigned, verify_manifest_iff, verify-sign}
use connective.Update.Manifest.Validity.{IsWellFormed, validate-IsWellFormed}

abbrev pub current : Text
current = codes "0.2.9"

abbrev pub current_version : Version
current_version = record { major = 0; minor = 2; patch = 9; pre = [] }

abbrev pub sha : Text
sha = codes "0123456789abcdef0123456789abcdef0123456789abcdef0123456789abcdef"

abbrev pub full : Artifact
full = record {
  type = artifact_full;
  filename = codes "app.zip";
  size = pos 900;
  sha256 = sha;
  url = codes "https://x/app.zip";
  from_version = [];
}

abbrev pub delta : Artifact
delta = record {
  type = artifact_delta;
  filename = codes "app.delta";
  size = pos 90;
  sha256 = sha;
  url = codes "https://x/app.delta";
  from_version = current;
}

abbrev pub manifest : Manifest
manifest = record {
  schema = pos 1;
  version = codes "0.2.10";
  channel = codes "stable";
  release_date = codes "2026-01-02";
  release_notes = [];
  min_version = codes "0.2";
  platform = codes "linux";
  arch = codes "amd64";
  artifacts = full ∷ delta ∷ [];
}

-- A signature scheme that signs the length of the message, over the version alone.
abbrev pub sign : Text → Text
sign msg = (length msg % 256) ∷ []

abbrev pub crypto : Crypto
crypto = record {
  ed25519_verify = λ key msg sig. text_eq sig (sign msg);
  canonical = λ m. m.version;
}

abbrev pub key_id : Text
key_id = codes "k1"

abbrev pub keys : List (Text × Text)
keys = (key_id, codes "key") ∷ []

abbrev pub signed : SignedManifest
signed = sign_manifest crypto sign manifest key_id

chooses_delta : select_artifact current manifest ≡ ok delta
unfolding select_artifact scan consider fits_current parse_version trim_space component split atoi
    compare_version compare_pre text_eq
chooses_delta = refl

select_artifact_lem_example :
    ((full_artifact_of manifest.artifacts ≡ none)
      × (select_artifact current manifest ≡ err no_full_artifact))
    ⊎ ((a : Artifact) × (select_artifact current manifest ≡ ok a)
        × IsChosen current_version manifest.artifacts a)
unfolding parse_version trim_space component split atoi
select_artifact_lem_example = select_artifact_lem current manifest current_version refl

verify_manifest_iff_example :
    (verify_manifest crypto keys signed ≡ ok tt) ↔ IsSigned crypto keys signed
verify_manifest_iff_example = verify_manifest_iff crypto keys signed

verify-sign_example :
    verify_manifest crypto keys (sign_manifest crypto sign manifest key_id) ≡ ok tt
unfolding find_key text_eq
verify-sign_example =
    verify-sign crypto sign (codes "key") keys manifest key_id (λ msg. text_eq_refl (sign msg))
      (λ msg. (omega arith, tt)) refl

validates : validate manifest ≡ ok tt
unfolding validate validate_artifacts validate_artifact check_version parse_version trim_space
    component split atoi text_eq is_hex is_seen contains has_prefix valid_channel
validates = refl

validate-IsWellFormed_example : IsWellFormed manifest
validate-IsWellFormed_example = validate-IsWellFormed manifest validates
