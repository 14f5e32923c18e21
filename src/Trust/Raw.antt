-- ===== src/Trust/Raw.antt =====
-- The two verification loops of src/trust.rs, over signature envelopes and over raw signatures.
use sci_capsule.Prelude.{
  ℕ, ◌≡◌, refl, some, List, [], ◌∷◌, Bytes, arith, length, All, any, Result-cases, inl, inr, ok,
  nat_eq, list_eq, is_ok, map,
}
use sci_capsule.Crypto.{Crypto, Json}
use sci_capsule.Signature
use sci_capsule.Signature.{
  SignatureEnvelope, signing_message, verify_capsule_signature_with_public_key_bytes,
  verify_capsule_signature_with_key,
}
use sci_capsule.Trust.{TrustPolicy, TrustedKey}
use sci_capsule.Trust.Validate.{validate}
use sci_capsule.Trust.Verify.{
  key_matches, match_signers, match_raw_signers, check_signature_lengths, raw_signature_verifies,
  verify_at_unix_seconds, verify, verify_raw_ed25519_signatures,
}
use sci_capsule.Trust.WellFormed.Policy.{IsTrustedKey, validate_iff}

abbrev pub AllValid : List SignatureEnvelope → Type 0
AllValid = All (λ s. Signature.validate s ≡ ok tt)

abbrev pub raw_signatures : List SignatureEnvelope → List Bytes
raw_signatures = map (λ (s : SignatureEnvelope). s.signature)

length-raw_signatures : (ss : List SignatureEnvelope) → length (raw_signatures ss) ≡ length ss
length-raw_signatures [] = refl
length-raw_signatures (s ∷ ss) = omega (arith, length-raw_signatures ss)

check_signature_lengths-raw_signatures :
    (ss : List SignatureEnvelope)
    → AllValid ss
    → check_signature_lengths (raw_signatures ss) ≡ ok tt
unfolding check_signature_lengths Signature.validate
check_signature_lengths-raw_signatures [] _ = refl
check_signature_lengths-raw_signatures (s ∷ ss) (v, vs) =
    ground (arith, check_signature_lengths-raw_signatures ss vs)

module _ (crypto : Crypto) (capsule_bytes : Bytes) where
  is_ok-raw_signature_verifies :
      (key : TrustedKey) (k : IsTrustedKey crypto key) (s : SignatureEnvelope)
      → Signature.validate s ≡ ok tt
      → is_ok (verify_capsule_signature_with_public_key_bytes crypto capsule_bytes s key.public_key)
        ≡ raw_signature_verifies crypto k.verifying_key (signing_message capsule_bytes) s.signature
  unfolding verify_capsule_signature_with_public_key_bytes verify_capsule_signature_with_key
      raw_signature_verifies
  is_ok-raw_signature_verifies key k s v = ground (arith, k.key_fits, k.is_key)

  key_matches-eq-any :
      (key : TrustedKey) (k : IsTrustedKey crypto key) (ss : List SignatureEnvelope)
      → AllValid ss
      → key_matches crypto capsule_bytes ss key
        ≡ any
            (raw_signature_verifies crypto k.verifying_key (signing_message capsule_bytes))
            (raw_signatures ss)
  unfolding key_matches any
  key_matches-eq-any key k [] _ = refl
  key_matches-eq-any key k (s ∷ ss) (v, vs) =
      rw (is_ok-raw_signature_verifies key k s v, key_matches-eq-any key k ss vs)

  match_raw_signers-eq-match_signers :
      (p : TrustPolicy) (now : ℕ) (ss : List SignatureEnvelope) (keys : List TrustedKey)
      → AllValid ss
      → All (IsTrustedKey crypto) keys
      → match_raw_signers crypto p now (signing_message capsule_bytes) (raw_signatures ss) keys
        ≡ ok (match_signers crypto p now capsule_bytes ss keys)
  unfolding match_raw_signers match_signers
  match_raw_signers-eq-match_signers p now ss [] vs _ = refl
  match_raw_signers-eq-match_signers p now ss (key ∷ keys) vs (k, ks) = ground (
    arith,
    k.key_fits,
    k.is_key,
    key_matches-eq-any key k ss vs,
    match_raw_signers-eq-match_signers p now ss keys vs ks,
  )

  -- On valid envelopes, verifying their raw signatures over the domain-separated message gives the
  -- same decision, or the same error, as verifying the envelopes over the capsule.
  pub verify_raw-eq-verify :
      (json : Json TrustPolicy) (p : TrustPolicy) (now : ℕ) (ss : List SignatureEnvelope)
      → AllValid ss
      → verify_raw_ed25519_signatures crypto json
          (some now)
          p
          (signing_message capsule_bytes)
          (raw_signatures ss)
        ≡ verify crypto json (some now) p capsule_bytes ss
  unfolding verify verify_at_unix_seconds verify_raw_ed25519_signatures
  verify_raw-eq-verify json p now ss vs = elim (Result-cases (validate crypto p)) [
    | inl (tt, e) ↦ rw (
      e,
      length-raw_signatures ss,
      check_signature_lengths-raw_signatures ss vs,
      match_raw_signers-eq-match_signers p now ss p.trusted_keys vs
          ((validate_iff crypto p).0 e).keys,
    )
    | inr (f, e) ↦ rw e
  ]
