-- ===== src/Update/Manifest/Trust.antt =====
-- Signatures: `VerifyManifest` fails closed, and accepts what `SignManifest` makes.
use connective.Prelude.{
  ℕ, ◌/◌, ◌%◌, ◌<◌, true, false, List, [], ◌∷◌, Option, none, some, Text, is_space, Solid,
  trim_space, trim_space-Solid, ok, ◌≡◌, ◌↔◌, refl, ap, ◌∙◌, arith, All, Bool-cases, inl, inr,
}
use connective.Update.Manifest.{
  Manifest, SignedManifest, Crypto, find_key, hex_decode, hex_value, is_hex_digit, check_decoded,
  check_key, verify_manifest, hex_char, hex_encode, sign_manifest, has_none,
}

-- A signature by a trusted key.
pub record IsSigned (c : Crypto) (keys : List (Text × Text)) (sm : SignedManifest) : Type 0 where
  pub key : Text
  pub sig : Text
  pub trusted : find_key sm.key_id keys ≡ some key
  pub decodes : hex_decode (trim_space sm.signature) ≡ some sig
  pub verifies : c.ed25519_verify key (c.canonical sm.manifest) sig ≡ true

check_decoded_sound :
    (c : Crypto) (key : Text) (m : Manifest) (o : Option Text)
    → check_decoded c key m o ≡ ok tt
    → (sig : Text) × (o ≡ some sig) × (c.ed25519_verify key (c.canonical m) sig ≡ true)
check_decoded_sound c key m none h = cc
check_decoded_sound c key m (some sig) h = (sig, refl, ground arith)

check_key_sound :
    (c : Crypto) (keys : List (Text × Text)) (sm : SignedManifest) (o : Option Text)
    → find_key sm.key_id keys ≡ o
    → check_key c sm o ≡ ok tt
    → IsSigned c keys sm
check_key_sound c keys sm none e h = cc
check_key_sound c keys sm (some key) e h =
    let (sig, d, v) =
      check_decoded_sound c key sm.manifest (hex_decode (trim_space sm.signature)) h in
    record { key = key; sig = sig; trusted = e; decodes = d; verifies = v }

verify_manifest_sound :
    (c : Crypto) (keys : List (Text × Text)) (sm : SignedManifest)
    → verify_manifest c keys sm ≡ ok tt
    → IsSigned c keys sm
unfolding verify_manifest
verify_manifest_sound c keys sm h = elim (Bool-cases (has_none keys)) [
  | inl e ↦ cc (rw e at h)
  | inr e ↦ check_key_sound c keys sm (find_key sm.key_id keys) refl (rw e at h)
]

find_key-has_none :
    (k key : Text) (keys : List (Text × Text)) → find_key k keys ≡ some key → has_none keys ≡ false
unfolding find_key
find_key-has_none k key [] h = cc
find_key-has_none k key (_ ∷ keys) h = refl

verify_manifest_complete :
    (c : Crypto) (keys : List (Text × Text)) (sm : SignedManifest)
    → IsSigned c keys sm
    → verify_manifest c keys sm ≡ ok tt
unfolding verify_manifest
verify_manifest_complete c keys sm s =
    rw (find_key-has_none sm.key_id s.key keys s.trusted, s.trusted, s.decodes, s.verifies)

-- `VerifyManifest` accepts a manifest exactly when its key id names a trusted key, its signature is
-- hexadecimal, and that key verifies the signature over the manifest's canonical bytes. So an empty
-- key set, an unknown key, a bad encoding and a bad signature are all refused.
pub verify_manifest_iff :
    (c : Crypto) (keys : List (Text × Text)) (sm : SignedManifest)
    → (verify_manifest c keys sm ≡ ok tt) ↔ IsSigned c keys sm
verify_manifest_iff c keys sm =
    (verify_manifest_sound c keys sm, verify_manifest_complete c keys sm)

hex_char-lem :
    (d : ℕ)
    → d < 16
    → (is_hex_digit (hex_char d) ≡ true)
      × (hex_value (hex_char d) ≡ d)
      × (is_space (hex_char d) ≡ false)
hex_char-lem d h = (ground arith, ground arith, unfold is_space in (ground arith))

hex_decode-encode : (s : Text) → All (λ b. b < 256) s → hex_decode (hex_encode s) ≡ some s
unfolding hex_decode hex_encode
hex_decode-encode [] h = refl
hex_decode-encode (b ∷ s) h =
    ground (arith, hex_char-lem (b / 16), hex_char-lem (b % 16), hex_decode-encode s h.1)

hex_encode-Solid : (s : Text) → All (λ b. b < 256) s → Solid (hex_encode s)
unfolding hex_encode
hex_encode-Solid [] h = tt
hex_encode-Solid (b ∷ s) h = (
  (hex_char-lem (b / 16) (omega arith)).2,
  ((hex_char-lem (b % 16) (omega arith)).2, hex_encode-Solid s h.1),
)

-- A manifest that release tooling signs is accepted by every build that trusts the matching public
-- key under the same id, where the signature is a string of bytes and Ed25519 verifies what it signs.
pub verify-sign :
    (c : Crypto) (sign : Text → Text) (key : Text) (keys : List (Text × Text)) (m : Manifest)
    (key_id : Text)
    → ((msg : Text) → c.ed25519_verify key msg (sign msg) ≡ true)
    → ((msg : Text) → All (λ b. b < 256) (sign msg))
    → find_key key_id keys ≡ some key
    → verify_manifest c keys (sign_manifest c sign m key_id) ≡ ok tt
unfolding sign_manifest
verify-sign c sign key keys m key_id verifies bytes trusted =
    let sig = sign (c.canonical m) in
    verify_manifest_complete c keys _ (record {
      key = key;
      sig = sig;
      trusted = trusted;
      decodes =
          ap hex_decode
            (trim_space-Solid (hex_encode sig) (hex_encode-Solid sig (bytes (c.canonical m))))
          ∙ hex_decode-encode sig (bytes (c.canonical m));
      verifies = verifies (c.canonical m);
    })
