-- ===== src/Signature/Laws.antt =====
-- What src/signature.rs accepts, and that it accepts what it signs.
use sci_capsule.Prelude.{
  ◌≡◌, refl, true, some, Bytes, arith, length, ok, nat_eq, list_eq, eq_iff, some_of_ne_none,
  ok-injective,
}
use sci_capsule.Crypto.{Crypto, IsLawful, Json, ReadsBack, key_length, signature_length}
use sci_capsule.Signature.{
  SignatureEnvelope, signature_envelope_version, signature_algorithm, validate, from_json, to_json,
  signing_message, sign_capsule, verify_capsule_signature_with_key,
  verify_capsule_signature_with_public_key_bytes,
}

pub record IsEnvelope (e : SignatureEnvelope) : Type 0 where
  pub version : e.version ≡ signature_envelope_version
  pub algorithm : e.algorithm ≡ signature_algorithm
  pub fits : length e.signature ≡ signature_length

validate-IsEnvelope : (e : SignatureEnvelope) → validate e ≡ ok tt → IsEnvelope e
unfolding validate
validate-IsEnvelope e h = ground (arith, eq_iff e.algorithm signature_algorithm)

IsEnvelope-validate : (e : SignatureEnvelope) → IsEnvelope e → validate e ≡ ok tt
unfolding validate
IsEnvelope-validate e v =
    ground (arith, eq_iff e.algorithm signature_algorithm, v.version, v.algorithm, v.fits)

module _ (crypto : Crypto) where
  -- A valid envelope under a valid key, whose signature is one of the domain-separated capsule.
  pub record IsVerified (capsule_bytes : Bytes) (e : SignatureEnvelope) (public_key : Bytes)
      : Type 0 where
    pub envelope : IsEnvelope e
    pub key_fits : length public_key ≡ key_length
    pub key : crypto.VerifyingKey
    pub is_key : crypto.key_from_bytes public_key ≡ some key
    pub signature : crypto.Signature
    pub is_signature : crypto.signature_from_bytes e.signature ≡ some signature
    pub verifies : crypto.verify_strict key (signing_message capsule_bytes) signature ≡ true

  pub verify-IsVerified :
      (capsule_bytes : Bytes) (e : SignatureEnvelope) (public_key : Bytes)
      → verify_capsule_signature_with_public_key_bytes crypto capsule_bytes e public_key ≡ ok tt
      → IsVerified capsule_bytes e public_key
  unfolding verify_capsule_signature_with_public_key_bytes verify_capsule_signature_with_key
  verify-IsVerified capsule_bytes e public_key h =
      let (key, is_key) = some_of_ne_none (crypto.key_from_bytes public_key) (ground arith) in
      let (signature, is_signature) =
        some_of_ne_none (crypto.signature_from_bytes e.signature) (ground arith) in
      record {
        envelope = validate-IsEnvelope e (ground arith);
        key_fits = ground arith;
        key = key;
        is_key = is_key;
        signature = signature;
        is_signature = is_signature;
        verifies = ground arith;
      }

  IsVerified-verify :
      (capsule_bytes : Bytes) (e : SignatureEnvelope) (public_key : Bytes)
      → IsVerified capsule_bytes e public_key
      → verify_capsule_signature_with_public_key_bytes crypto capsule_bytes e public_key ≡ ok tt
  unfolding verify_capsule_signature_with_public_key_bytes verify_capsule_signature_with_key
  IsVerified-verify capsule_bytes e public_key v =
      ground
        (arith, v.key_fits, v.is_key, IsEnvelope-validate e v.envelope, v.is_signature, v.verifies)

  IsVerified-sign :
      IsLawful crypto
      → (capsule_bytes pem : Bytes) (e : SignatureEnvelope) (key : crypto.SigningKey)
      → crypto.signing_key_from_pem pem ≡ some key
      → sign_capsule crypto capsule_bytes pem ≡ ok e
      → IsVerified capsule_bytes e (crypto.key_to_bytes (crypto.public_key key))
  unfolding sign_capsule
  IsVerified-sign lawful capsule_bytes pem e key is_key h =
      let signature = crypto.sign key (signing_message capsule_bytes) in
      let signed : SignatureEnvelope = record {
        version = signature_envelope_version;
        algorithm = signature_algorithm;
        signature = crypto.signature_to_bytes signature;
      } in
      let same : signed ≡ e = ok-injective (rw is_key at h) in
      rw (← same) (record {
        envelope = record {
          version = refl;
          algorithm = refl;
          fits = lawful.length-signature_to_bytes signature;
        };
        key_fits = lawful.length-key_to_bytes (crypto.public_key key);
        key = crypto.public_key key;
        is_key = lawful.key_from_bytes-key_to_bytes (crypto.public_key key);
        signature = signature;
        is_signature = lawful.signature_from_bytes-signature_to_bytes signature;
        verifies = lawful.verify_strict-sign key (signing_message capsule_bytes);
      })

from_json-to_json :
    (json : Json SignatureEnvelope) (reads : ReadsBack json) (e : SignatureEnvelope)
    (encoded : Bytes)
    → to_json json e ≡ ok encoded
    → from_json json encoded ≡ ok e
unfolding to_json from_json
from_json-to_json json reads e encoded h =
    let (text, printed) = some_of_ne_none (json.to_vec_pretty e) (ground arith) in
    ground (arith, reads.from_slice-to_vec_pretty e text printed)

-- What `sign_capsule` returns reads back from its JSON, and verifies under the signer's public key
-- over the same capsule, where the cryptographic primitives and the JSON printer are lawful.
pub verify-sign_capsule :
    (crypto : Crypto) (json : Json SignatureEnvelope)
    → IsLawful crypto
    → ReadsBack json
    → (capsule_bytes pem encoded : Bytes) (e : SignatureEnvelope) (key : crypto.SigningKey)
    → crypto.signing_key_from_pem pem ≡ some key
    → sign_capsule crypto capsule_bytes pem ≡ ok e
    → to_json json e ≡ ok encoded
    → (from_json json encoded ≡ ok e)
      × (verify_capsule_signature_with_public_key_bytes crypto capsule_bytes e
            (crypto.key_to_bytes (crypto.public_key key))
          ≡ ok tt)
verify-sign_capsule crypto json lawful reads capsule_bytes pem encoded e key is_key h j = (
  from_json-to_json json reads e encoded j,
  IsVerified-verify crypto capsule_bytes e _
      (IsVerified-sign crypto lawful capsule_bytes pem e key is_key h),
)
