-- ===== src/Trust/Validate.antt =====
-- src/trust.rs: `TrustPolicy::validate`, in the order of its checks.
use sci_capsule.Prelude.{
  ℕ, Bool, true, false, not, ◌||◌, Option, none, some, List, [], ◌∷◌, Bytes, ltb, leb, ◌==◌, nat_eq,
  list_eq, if◌then◌else◌, length, is_empty, contains, ok, err, reject_if, ok_or, ◌>>=◌, ◌>>◌,
}
use sci_capsule.Crypto.{Crypto, key_length}
use sci_capsule.Signature.{signature_algorithm}
use sci_capsule.Trust.{
  TrustedKey, RevokedKey, TrustPolicy, Check, trust_policy_version, trust_policy_lifecycle_version,
  max_trusted_keys, validate_key_name, validate_digest, unsupported_version, lifecycle_fields_in_v1,
  missing_policy_id, missing_revision, zero_revision, broken_revision_chain, missing_valid_from,
  missing_valid_until, empty_validity, revocation_reason_length, duplicate_revoked_key,
  unsupported_algorithm, no_trusted_keys, too_many_trusted_keys, zero_minimum_signatures,
  minimum_exceeds_keys, duplicate_key_name, public_key_length, invalid_public_key,
  duplicate_public_key,
}

abbrev is_some {ℓ} : {A : Type ℓ} → Option A → Bool
is_some none = false
is_some (some a) = true

unfoldable pub validate_v1 : TrustPolicy → Check
validate_v1 p =
    reject_if
      (is_some p.policy_id
        || is_some p.revision
        || is_some p.previous_policy_sha256
        || is_some p.valid_from_unix_seconds
        || is_some p.valid_until_unix_seconds
        || not (is_empty p.revoked_keys))
      lifecycle_fields_in_v1

-- The match on the previous digest and the revision.
unfoldable pub validate_revision_chain : Option Bytes → ℕ → Check
validate_revision_chain none revision = reject_if (not (revision == 1)) broken_revision_chain
validate_revision_chain (some digest) revision =
    if ltb 1 revision then validate_digest digest else err broken_revision_chain

-- The loop over `revoked_keys`; `revoked` holds the fingerprints met so far.
unfoldable pub validate_revoked_keys : List Bytes → List RevokedKey → Check
validate_revoked_keys revoked [] = ok tt
validate_revoked_keys revoked (entry ∷ entries) = do
  validate_digest entry.public_key_sha256
  reject_if (is_empty entry.reason || ltb 256 (length entry.reason)) revocation_reason_length
  reject_if (contains revoked entry.public_key_sha256) duplicate_revoked_key
  validate_revoked_keys (entry.public_key_sha256 ∷ revoked) entries

unfoldable pub validate_v2 : TrustPolicy → Check
validate_v2 p = do
  policy_id ← ok_or p.policy_id missing_policy_id
  validate_key_name policy_id
  revision ← ok_or p.revision missing_revision
  reject_if (revision == 0) zero_revision
  validate_revision_chain p.previous_policy_sha256 revision
  from ← ok_or p.valid_from_unix_seconds missing_valid_from
  until ← ok_or p.valid_until_unix_seconds missing_valid_until
  reject_if (leb until from) empty_validity
  validate_revoked_keys [] p.revoked_keys

-- The two matches on the version.
unfoldable pub validate_version : TrustPolicy → Check
validate_version p = do
  reject_if (not (p.version == trust_policy_version || p.version == trust_policy_lifecycle_version))
      (unsupported_version p.version)
  if p.version == trust_policy_version then validate_v1 p else validate_v2 p

-- The checks on the algorithm, the number of keys and the threshold.
unfoldable pub validate_threshold : TrustPolicy → Check
validate_threshold p = do
  reject_if (not (p.algorithm == signature_algorithm)) (unsupported_algorithm p.algorithm)
  reject_if (is_empty p.trusted_keys) no_trusted_keys
  reject_if (ltb max_trusted_keys (length p.trusted_keys))
      (too_many_trusted_keys (length p.trusted_keys))
  reject_if (p.minimum_signatures == 0) zero_minimum_signatures
  reject_if (ltb (length p.trusted_keys) p.minimum_signatures)
      (minimum_exceeds_keys p.minimum_signatures (length p.trusted_keys))

module _ (crypto : Crypto) where
  -- The loop over `trusted_keys`, with the names and the public keys met so far.
  unfoldable pub validate_trusted_keys : List Bytes → List Bytes → List TrustedKey → Check
  validate_trusted_keys names public_keys [] = ok tt
  validate_trusted_keys names public_keys (key ∷ keys) = do
    validate_key_name key.name
    reject_if (contains names key.name) (duplicate_key_name key.name)
    reject_if (not (length key.public_key == key_length))
        (public_key_length key.name (length key.public_key))
    _ ← ok_or (crypto.key_from_bytes key.public_key) (invalid_public_key key.name)
    reject_if (contains public_keys key.public_key) duplicate_public_key
    validate_trusted_keys (key.name ∷ names) (key.public_key ∷ public_keys) keys

  unfoldable pub validate : TrustPolicy → Check
  validate p = do
    validate_version p
    validate_threshold p
    validate_trusted_keys [] [] p.trusted_keys
