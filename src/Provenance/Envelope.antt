-- ===== src/Provenance/Envelope.antt =====
-- src/provenance.rs: `DsseEnvelope`, its pre-authentication encoding, signing and verification.
use sci_capsule.Prelude.{
  ℕ, not, Option, none, List, [], ◌∷◌, ◌++◌, Bytes, codes, ltb, ◌==◌, nat_eq, list_eq, length,
  is_empty, to_string, Result, ok, reject_if, ok_or, map_err, ◌>>=◌, ◌>>◌,
}
use sci_capsule.Crypto.{Crypto, Json, Base64, signature_length}
use sci_capsule.Trust.{TrustPolicy, TrustPolicyError, TrustDecision, max_signatures}
use sci_capsule.Trust.Verify.{verify_raw_ed25519_signatures}
use sci_capsule.Provenance.{
  JsonValues, ProvenanceStatement, ProvenanceError, dsse_in_toto_json_payload_type,
  max_provenance_payload_bytes, from_json, matches_capsule, empty_payload, payload_too_large,
  no_signatures, too_many_signatures, invalid_private_key, invalid_envelope_json,
  serialize_envelope_failed, unsupported_payload_type, invalid_base64_payload,
  invalid_base64_signature, signature_length_mismatch, trust_failed, subject_mismatch,
}

pub record DsseSignature : Type 0 where
  pub keyid : Option Bytes
  pub sig : Bytes

pub record DsseEnvelope : Type 0 where
  pub payload_type : Bytes
  pub payload : Bytes
  pub signatures : List DsseSignature

pub record VerifiedProvenance (Value : Type 0) : Type 0 where
  pub statement : ProvenanceStatement Value
  pub trust : TrustDecision

abbrev pub Fallible : Type 0 → Type 0
Fallible A = Result (ProvenanceError TrustPolicyError) A

unfoldable pub dsse_pae : Bytes → Bytes → Bytes
dsse_pae payload_type payload =
    codes "DSSEv1 "
    ++ (to_string (length payload_type)
        ++ b' ' ∷ (payload_type ++ b' ' ∷ (to_string (length payload) ++ b' ' ∷ payload)))

unfoldable pub validate_signature_count : ℕ → Fallible (Unit {0})
validate_signature_count count = do
  reject_if (count == 0) no_signatures
  reject_if (ltb max_signatures count) (too_many_signatures count)

module _ (base64 : Base64) where
  -- The loop over the signatures of an envelope.
  unfoldable pub decode_signatures : List DsseSignature → Fallible (List Bytes)
  decode_signatures [] = ok []
  decode_signatures (signature ∷ signatures) = do
    decoded ← ok_or (base64.decode_vec signature.sig) invalid_base64_signature
    reject_if (not (length decoded == signature_length))
        (signature_length_mismatch (length decoded))
    rest ← decode_signatures signatures
    ok (decoded ∷ rest)

  unfoldable pub decode_authenticated_parts : DsseEnvelope → Fallible (Bytes × List Bytes)
  decode_authenticated_parts envelope = do
    reject_if (not (envelope.payload_type == dsse_in_toto_json_payload_type))
        (unsupported_payload_type envelope.payload_type)
    validate_signature_count (length envelope.signatures)
    payload ← ok_or (base64.decode_vec envelope.payload) invalid_base64_payload
    reject_if (is_empty payload) empty_payload
    reject_if (ltb max_provenance_payload_bytes (length payload))
        (payload_too_large (length payload))
    signatures ← decode_signatures envelope.signatures
    ok (payload, signatures)

  module _ (json : Json DsseEnvelope) where
    unfoldable pub envelope_from_json : Bytes → Fallible DsseEnvelope
    envelope_from_json encoded = ok_or (json.from_slice encoded) invalid_envelope_json

    unfoldable pub envelope_to_json : DsseEnvelope → Fallible Bytes
    envelope_to_json envelope = do
      _ ← decode_authenticated_parts envelope
      encoded ← ok_or (json.to_vec_pretty envelope) serialize_envelope_failed
      ok (encoded ++ b'\n' ∷ [])

module _ (crypto : Crypto) (base64 : Base64) where
  -- The loop over the private keys.
  unfoldable pub sign_all : Bytes → List Bytes → Fallible (List DsseSignature)
  sign_all authenticated [] = ok []
  sign_all authenticated (private_key_pem ∷ pems) = do
    signing_key ← ok_or (crypto.signing_key_from_pem private_key_pem) invalid_private_key
    let signature = crypto.sign signing_key authenticated
    rest ← sign_all authenticated pems
    ok (
        record { keyid = none; sig = base64.encode_string (crypto.signature_to_bytes signature) }
        ∷ rest)

  module _ (values : JsonValues) (json : Json (ProvenanceStatement values.Value)) where
    unfoldable pub sign_statement : Bytes → List Bytes → Fallible DsseEnvelope
    sign_statement statement_bytes private_key_pems = do
      reject_if (is_empty statement_bytes) empty_payload
      reject_if (ltb max_provenance_payload_bytes (length statement_bytes))
          (payload_too_large (length statement_bytes))
      validate_signature_count (length private_key_pems)
      _ ← from_json values json statement_bytes
      signatures ←
          sign_all (dsse_pae dsse_in_toto_json_payload_type statement_bytes) private_key_pems
      ok (record {
        payload_type = dsse_in_toto_json_payload_type;
        payload = base64.encode_string statement_bytes;
        signatures = signatures;
      })

    -- `clock` and `policies` are what the trust policy's verification takes.
    unfoldable pub verify_for_capsule :
        Json TrustPolicy
        → Option ℕ
        → DsseEnvelope
        → Bytes
        → TrustPolicy
        → Fallible (VerifiedProvenance values.Value)
    verify_for_capsule policies clock envelope capsule_bytes policy = do
      (payload, signatures) ← decode_authenticated_parts base64 envelope
      let authenticated = dsse_pae envelope.payload_type payload
      trust ←
          map_err trust_failed
            (verify_raw_ed25519_signatures crypto policies clock policy authenticated signatures)
      statement ← from_json values json payload
      reject_if (not (matches_capsule crypto statement capsule_bytes)) subject_mismatch
      ok (record { statement = statement; trust = trust })
