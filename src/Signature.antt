-- ===== src/Signature.antt =====
-- src/signature.rs: detached signature envelopes over the bytes of a capsule.
pub mod Laws
use sci_capsule.Prelude.{
  ℕ, not, Option, none, some, ◌∷◌, [], ◌++◌, Bytes, codes, ◌==◌, nat_eq, list_eq, length, Result,
  ok, reject_if, ok_or, if◌then◌else◌, ◌>>=◌, ◌>>◌,
}
use sci_capsule.Crypto.{Crypto, Json, key_length, signature_length}

abbrev pub signature_envelope_version : ℕ
signature_envelope_version = 1

abbrev pub signature_algorithm : Bytes
signature_algorithm = codes "ed25519"

abbrev signing_domain : Bytes
signing_domain = codes "SciCapsule detached signature v1" ++ 0 ∷ []

pub record SignatureEnvelope : Type 0 where
  pub version : ℕ
  pub algorithm : Bytes
  pub signature : Bytes

-- The messages of `SignatureModelError`.
pub data SignatureModelError : Type 0 where
  invalid_envelope_json serialize_failed : SignatureModelError
  unsupported_version : ℕ → SignatureModelError
  unsupported_algorithm : Bytes → SignatureModelError
  invalid_signature_length invalid_public_key_length : ℕ → SignatureModelError
  invalid_private_key_pem invalid_public_key_pem : SignatureModelError
  invalid_public_key_bytes invalid_signature_bytes verification_failed : SignatureModelError

unfoldable pub validate : SignatureEnvelope → Result SignatureModelError (Unit {0})
validate e = do
  reject_if (not (e.version == signature_envelope_version)) (unsupported_version e.version)
  reject_if (not (e.algorithm == signature_algorithm)) (unsupported_algorithm e.algorithm)
  reject_if (not (length e.signature == signature_length))
      (invalid_signature_length (length e.signature))

module _ (json : Json SignatureEnvelope) where
  unfoldable pub from_json : Bytes → Result SignatureModelError SignatureEnvelope
  from_json encoded = do
    envelope ← ok_or (json.from_slice encoded) invalid_envelope_json
    validate envelope
    ok envelope

  unfoldable pub to_json : SignatureEnvelope → Result SignatureModelError Bytes
  to_json e = do
    validate e
    encoded ← ok_or (json.to_vec_pretty e) serialize_failed
    ok (encoded ++ b'\n' ∷ [])

unfoldable pub signing_message : Bytes → Bytes
signing_message capsule_bytes = signing_domain ++ capsule_bytes

module _ (crypto : Crypto) where
  unfoldable pub sign_capsule : Bytes → Bytes → Result SignatureModelError SignatureEnvelope
  sign_capsule capsule_bytes private_key_pem = do
    signing_key ← ok_or (crypto.signing_key_from_pem private_key_pem) invalid_private_key_pem
    let signature = crypto.sign signing_key (signing_message capsule_bytes)
    ok (record {
      version = signature_envelope_version;
      algorithm = signature_algorithm;
      signature = crypto.signature_to_bytes signature;
    })

  unfoldable pub verify_capsule_signature_with_key :
      Bytes → SignatureEnvelope → crypto.VerifyingKey → Result SignatureModelError (Unit {0})
  verify_capsule_signature_with_key capsule_bytes envelope verifying_key = do
    validate envelope
    signature ← ok_or (crypto.signature_from_bytes envelope.signature) invalid_signature_bytes
    reject_if (not (crypto.verify_strict verifying_key (signing_message capsule_bytes) signature))
        verification_failed

  unfoldable pub verify_capsule_signature :
      Bytes → SignatureEnvelope → Bytes → Result SignatureModelError (Unit {0})
  verify_capsule_signature capsule_bytes envelope public_key_pem = do
    verifying_key ← ok_or (crypto.key_from_pem public_key_pem) invalid_public_key_pem
    verify_capsule_signature_with_key capsule_bytes envelope verifying_key

  unfoldable pub verify_capsule_signature_with_public_key_bytes :
      Bytes → SignatureEnvelope → Bytes → Result SignatureModelError (Unit {0})
  verify_capsule_signature_with_public_key_bytes capsule_bytes envelope public_key = do
    reject_if (not (length public_key == key_length))
        (invalid_public_key_length (length public_key))
    verifying_key ← ok_or (crypto.key_from_bytes public_key) invalid_public_key_bytes
    verify_capsule_signature_with_key capsule_bytes envelope verifying_key
