-- ===== src/Trust/Verify.antt =====
-- src/trust.rs: `verify_at_unix_seconds`, `verify` and `verify_raw_ed25519_signatures`, the
-- policy's JSON and its digest.
use sci_capsule.Prelude.{
  ℕ, Bool, false, not, ◌&&◌, Option, none, some, List, [], ◌∷◌, ◌++◌, Bytes, codes, ltb, leb, ◌==◌,
  nat_eq, list_eq, if◌then◌else◌, length, any, count_if, to_hex, Result, ok, reject_if, ok_or,
  is_ok, ◌>>=◌, ◌>>◌,
}
use sci_capsule.Crypto.{Crypto, Json, key_length, signature_length}
use sci_capsule.Signature.{SignatureEnvelope, verify_capsule_signature_with_public_key_bytes}
use sci_capsule.Trust.{
  TrustPolicyError, TrustedKey, RevokedKey, TrustPolicy, TrustDecision, Check,
  trust_policy_lifecycle_version, validate_signature_count, invalid_json, serialize_failed,
  public_key_length, invalid_public_key, invalid_signature_length, threshold_not_met,
  clock_before_epoch, not_valid_before, expired_at, threshold_unreachable, expect_failed,
}
use sci_capsule.Trust.Validate.{validate}

unfoldable pub enforces_lifecycle : TrustPolicy → Bool
enforces_lifecycle p = p.version == trust_policy_lifecycle_version

-- The loop over the lengths of the raw signatures.
unfoldable pub check_signature_lengths : List Bytes → Check
check_signature_lengths [] = ok tt
check_signature_lengths (signature ∷ signatures) = do
  reject_if (not (length signature == signature_length))
      (invalid_signature_length (length signature))
  check_signature_lengths signatures

module _ (crypto : Crypto) where
  unfoldable pub sha256_digest : Bytes → Bytes
  sha256_digest bytes = codes "sha256:" ++ to_hex (crypto.sha256 bytes)

  unfoldable pub public_key_digest : Bytes → Bytes
  public_key_digest bytes = sha256_digest bytes

  unfoldable pub key_is_revoked : TrustPolicy → TrustedKey → ℕ → Bool
  key_is_revoked p key now =
      let fingerprint = public_key_digest key.public_key in
      any
        (λ (r : RevokedKey).
          r.public_key_sha256 == fingerprint && leb r.revoked_at_unix_seconds now)
        p.revoked_keys

  -- The body of `validate_at_unix_seconds` for a version 2 policy with the window `from`, `until`.
  unfoldable pub validate_window : TrustPolicy → ℕ → ℕ → ℕ → Check
  validate_window p from until now =
      let active = count_if (λ key. not (key_is_revoked p key now)) p.trusted_keys in
      do
        reject_if (ltb now from) (not_valid_before from now)
        reject_if (leb until now) (expired_at until now)
        reject_if (ltb active p.minimum_signatures)
            (threshold_unreachable active p.minimum_signatures)

  unfoldable pub validate_at_unix_seconds : TrustPolicy → ℕ → Check
  unfolding enforces_lifecycle
  validate_at_unix_seconds p now =
      if enforces_lifecycle p
      then (do
        from ← ok_or p.valid_from_unix_seconds expect_failed
        until ← ok_or p.valid_until_unix_seconds expect_failed
        validate_window p from until now)
      else ok tt

  -- Whether one of the signatures verifies under the trusted key.
  unfoldable pub key_matches : Bytes → List SignatureEnvelope → TrustedKey → Bool
  key_matches capsule_bytes signatures key =
      any
        (λ signature. is_ok (
          verify_capsule_signature_with_public_key_bytes crypto capsule_bytes signature
            key.public_key))
        signatures

  -- The loop over the trusted keys.
  unfoldable pub match_signers :
      TrustPolicy → ℕ → Bytes → List SignatureEnvelope → List TrustedKey → List Bytes
  match_signers p now capsule_bytes signatures [] = []
  match_signers p now capsule_bytes signatures (key ∷ keys) =
      let rest = match_signers p now capsule_bytes signatures keys in
      if key_is_revoked p key now
      then rest
      else if key_matches capsule_bytes signatures key
      then key.name ∷ rest
      else rest

  unfoldable pub raw_signature_verifies : crypto.VerifyingKey → Bytes → Bytes → Bool
  raw_signature_verifies verifying_key message bytes = elim (crypto.signature_from_bytes bytes) [
    | none ↦ false
    | some signature ↦ crypto.verify_strict verifying_key message signature
  ]

  unfoldable pub match_raw_signers :
      TrustPolicy → ℕ → Bytes → List Bytes → List TrustedKey → Result TrustPolicyError (List Bytes)
  match_raw_signers p now message signatures [] = ok []
  match_raw_signers p now message signatures (key ∷ keys) =
      let rest = match_raw_signers p now message signatures keys in
      if key_is_revoked p key now then rest else do
        reject_if (not (length key.public_key == key_length))
            (public_key_length key.name (length key.public_key))
        verifying_key ← ok_or (crypto.key_from_bytes key.public_key) (invalid_public_key key.name)
        names ← rest
        if any (raw_signature_verifies verifying_key message) signatures
            then ok (key.name ∷ names)
            else ok names

  module _ (json : Json TrustPolicy) where
    unfoldable pub from_json : Bytes → Result TrustPolicyError TrustPolicy
    from_json encoded = do
      policy ← ok_or (json.from_slice encoded) invalid_json
      validate crypto policy
      ok policy

    unfoldable pub to_json : TrustPolicy → Result TrustPolicyError Bytes
    to_json p = do
      validate crypto p
      encoded ← ok_or (json.to_vec_pretty p) serialize_failed
      ok (encoded ++ b'\n' ∷ [])

    unfoldable pub policy_digest : TrustPolicy → Result TrustPolicyError Bytes
    policy_digest p = do encoded ← to_json p; ok (sha256_digest encoded)

    unfoldable pub finish_decision :
        TrustPolicy → List Bytes → Result TrustPolicyError TrustDecision
    finish_decision p matched_signers = do
      reject_if (ltb (length matched_signers) p.minimum_signatures)
          (threshold_not_met (length matched_signers) p.minimum_signatures)
      digest ← policy_digest p
      ok (record {
        required_signatures = p.minimum_signatures;
        matched_signers = matched_signers;
        policy_digest = digest;
        policy_version = p.version;
        policy_id = p.policy_id;
        policy_revision = p.revision;
      })

    unfoldable pub verify_at_unix_seconds :
        TrustPolicy → Bytes → List SignatureEnvelope → ℕ → Result TrustPolicyError TrustDecision
    verify_at_unix_seconds p capsule_bytes signatures now = do
      validate crypto p
      validate_at_unix_seconds p now
      validate_signature_count (length signatures)
      finish_decision p (match_signers p now capsule_bytes signatures p.trusted_keys)

    -- `clock` is the system time, or `none` where it is before the Unix epoch.
    unfoldable pub verify :
        Option ℕ
        → TrustPolicy
        → Bytes
        → List SignatureEnvelope
        → Result TrustPolicyError TrustDecision
    verify clock p capsule_bytes signatures = do
      now ← ok_or clock clock_before_epoch
      verify_at_unix_seconds p capsule_bytes signatures now

    unfoldable pub verify_raw_ed25519_signatures :
        Option ℕ → TrustPolicy → Bytes → List Bytes → Result TrustPolicyError TrustDecision
    verify_raw_ed25519_signatures clock p message signatures = do
      validate crypto p
      now ← ok_or clock clock_before_epoch
      validate_at_unix_seconds p now
      validate_signature_count (length signatures)
      check_signature_lengths signatures
      matched ← match_raw_signers p now message signatures p.trusted_keys
      finish_decision p matched
