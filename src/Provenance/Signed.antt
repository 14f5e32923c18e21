-- ===== src/Provenance/Signed.antt =====
-- src/provenance.rs: an envelope that `sign_statement` makes is decoded and verified again.
use sci_capsule.Prelude.{
  ◌≡◌, refl, sym, ap, subst, true, none, some, List, [], ◌∷◌, Bytes, arith, length, is_empty, ltb,
  eq_refl, nat_eq, list_eq, ok, ok-injective, reject-eq-ok, require-eq-ok, >>=-eq-ok, >>-eq-ok,
}
use sci_capsule.Crypto.{Crypto, IsLawful, Decodes, Json, Base64, signature_length}
use sci_capsule.Provenance.{
  JsonValues, ProvenanceStatement, max_provenance_payload_bytes, from_json, empty_payload,
  payload_too_large, invalid_private_key, dsse_in_toto_json_payload_type,
}
use sci_capsule.Provenance.Envelope.{
  DsseEnvelope, DsseSignature, dsse_pae, validate_signature_count, decode_signatures,
  decode_authenticated_parts, sign_all, sign_statement,
}
use sci_capsule.Trust
use sci_capsule.Trust.{TrustPolicyError}
use sci_capsule.Trust.Verify.{raw_signature_verifies}

module _ (crypto : Crypto) where
  -- Each signature is the one of the key at its place, and verifies under that key.
  unfoldable pub SignedBy : Bytes → List Bytes → List Bytes → Type 0
  SignedBy message [] [] = Unit
  SignedBy message (pem ∷ pems) (raw ∷ raws) =
      ((k : crypto.SigningKey) × (crypto.signing_key_from_pem pem ≡ some k)
        × (length raw ≡ signature_length)
        × (raw_signature_verifies crypto (crypto.public_key k) message raw ≡ true))
      × SignedBy message pems raws
  SignedBy message _ _ = ⊥

  module _ (lawful : IsLawful crypto) (base64 : Base64) (decodes : Decodes base64)
      (values : JsonValues) (json : Json (ProvenanceStatement values.Value)) where
    raw_signature_verifies-sign :
        (k : crypto.SigningKey) (message : Bytes)
        → raw_signature_verifies crypto
            (crypto.public_key k)
            message
            (crypto.signature_to_bytes (crypto.sign k message))
          ≡ true
    unfolding raw_signature_verifies
    raw_signature_verifies-sign k message =
        rw
          (
            raw_signature_verifies,
            lawful.signature_from_bytes-signature_to_bytes (crypto.sign k message),
          )
          (lawful.verify_strict-sign k message)

    decode_one :
        (raw : Bytes) (rest : List DsseSignature) (raws : List Bytes)
        → length raw ≡ signature_length
        → decode_signatures base64 rest ≡ ok raws
        → decode_signatures base64 (record { keyid = none; sig = base64.encode_string raw } ∷ rest)
          ≡ ok (raw ∷ raws)
    unfolding decode_signatures
    decode_one raw rest raws fits hd =
        ground (arith, decodes.decode_vec-encode_string raw, fits, hd)

    decode-sign_all :
        (message : Bytes) (pems : List Bytes) (signatures : List DsseSignature)
        → sign_all crypto base64 message pems ≡ ok signatures
        → (raws : List Bytes) × (decode_signatures base64 signatures ≡ ok raws)
          × SignedBy message pems raws
          × (length signatures ≡ length pems)
    unfolding sign_all decode_signatures SignedBy
    decode-sign_all message [] signatures h =
        ([], rw (sym (ok-injective h)) refl, tt, ap length (sym (ok-injective h)))
    decode-sign_all message (pem ∷ pems) signatures h =
        let (k, hk, h) = require-eq-ok (crypto.signing_key_from_pem pem) invalid_private_key _ h in
        let (rest, hr, h) = >>=-eq-ok (sign_all crypto base64 message pems) _ h in
        let (raws, hd, hs, hl) = decode-sign_all message pems rest hr in
        let raw = crypto.signature_to_bytes (crypto.sign k message) in
        let fits = lawful.length-signature_to_bytes (crypto.sign k message) in
        let signature : DsseSignature = record { keyid = none; sig = base64.encode_string raw } in
        let e : signature ∷ rest ≡ signatures = ok-injective h in
        (
          raw ∷ raws,
          subst (λ s. decode_signatures base64 s ≡ ok (raw ∷ raws)) e
              (decode_one raw rest raws fits hd),
          ((k, hk, fits, raw_signature_verifies-sign k message), hs),
          subst (λ s. length s ≡ length (pem ∷ pems)) e (omega (arith, hl)),
        )

    -- With lawful primitives: an envelope that is signed decodes to the statement's bytes and one
    -- signature for each key, which has 64 bytes and verifies under that key over what the
    -- verifier encodes.
    pub decode-sign_statement :
        (statement_bytes : Bytes) (pems : List Bytes) (envelope : DsseEnvelope)
        → sign_statement crypto base64 values json statement_bytes pems ≡ ok envelope
        → (raws : List Bytes) × (decode_authenticated_parts base64 envelope
            ≡ ok (statement_bytes, raws))
          × SignedBy (dsse_pae envelope.payload_type statement_bytes) pems raws
    unfolding sign_statement decode_authenticated_parts
    decode-sign_statement statement_bytes pems envelope h =
        let message = dsse_pae dsse_in_toto_json_payload_type statement_bytes in
        let (he, h) = reject-eq-ok (is_empty statement_bytes) empty_payload _ h in
        let (hl, h) =
          reject-eq-ok (ltb max_provenance_payload_bytes (length statement_bytes))
            (payload_too_large (length statement_bytes)) _ h in
        let (hc, h) = >>-eq-ok (validate_signature_count (length pems)) _ h in
        let (_, _, h) =
          >>=-eq-ok (from_json {Trust = TrustPolicyError} values json statement_bytes) _ h in
        let (signatures, hs, h) = >>=-eq-ok (sign_all crypto base64 message pems) _ h in
        let (raws, hd, signed, same) = decode-sign_all message pems signatures hs in
        rw (sym (ok-injective h)) (
          raws,
          rw
              (
                eq_refl dsse_in_toto_json_payload_type,
                same,
                hc,
                decodes.decode_vec-encode_string statement_bytes,
                he,
                hl,
                hd,
              )
              refl,
          signed,
        )

    -- Only as many keys sign as a trust policy takes signatures.
    pub sign_statement-count :
        (statement_bytes : Bytes) (pems : List Bytes) (envelope : DsseEnvelope)
        → sign_statement crypto base64 values json statement_bytes pems ≡ ok envelope
        → Trust.validate_signature_count (length pems) ≡ ok tt
    unfolding sign_statement validate_signature_count Trust.validate_signature_count
    sign_statement-count statement_bytes pems envelope h =
        let (_, h) = reject-eq-ok (is_empty statement_bytes) empty_payload _ h in
        let (_, h) =
          reject-eq-ok (ltb max_provenance_payload_bytes (length statement_bytes))
            (payload_too_large (length statement_bytes)) _ h in
        let (hc, _) = >>-eq-ok (validate_signature_count (length pems)) _ h in ground (arith, hc)
