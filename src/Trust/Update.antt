-- ===== src/Trust/Update.antt =====
-- src/trust.rs: policies from named PEM keys, and the controlled update to the next revision.
use sci_capsule.Prelude.{
  ℕ, not, none, some, List, [], ◌∷◌, ◌++◌, Bytes, codes, ltb, ◌==◌, nat_eq, list_eq, if◌then◌else◌,
  any, contains, find, checked_add, Result, ok, reject_if, ok_or, ◌>>=◌, ◌>>◌,
}
use sci_capsule.Crypto.{Crypto, Json}
use sci_capsule.Signature.{signature_algorithm}
use sci_capsule.Trust.{
  TrustPolicyError, TrustedKey, RevokedKey, TrustPolicy, trust_policy_version,
  trust_policy_lifecycle_version, invalid_public_key_pem, update_requires_v2,
  current_digest_mismatch, successor_precedes, revision_overflow, duplicate_revoked_name,
  unknown_revoked_name, expect_failed,
}
use sci_capsule.Trust.Validate.{validate}
use sci_capsule.Trust.Verify.{enforces_lifecycle, public_key_digest, policy_digest}

-- One more entry, unless the fingerprint is listed.
unfoldable pub revoke_fingerprint : Bytes → ℕ → List RevokedKey → List RevokedKey
revoke_fingerprint fingerprint at revoked =
    if any (λ (r : RevokedKey). r.public_key_sha256 == fingerprint) revoked
    then revoked
    else revoked
      ++ record {
        public_key_sha256 = fingerprint;
        revoked_at_unix_seconds = at;
        reason = codes "controlled policy update";
      }
        ∷ []

module _ (crypto : Crypto) where
  -- The loop that reads each PEM text.
  unfoldable pub read_pem_keys : List (Bytes × Bytes) → Result TrustPolicyError (List TrustedKey)
  read_pem_keys [] = ok []
  read_pem_keys ((name, pem) ∷ keys) = do
    verifying_key ← ok_or (crypto.key_from_pem pem) (invalid_public_key_pem name)
    trusted_keys ← read_pem_keys keys
    ok (record { name = name; public_key = crypto.key_to_bytes verifying_key } ∷ trusted_keys)

  unfoldable pub from_named_pem_keys :
      ℕ → List (Bytes × Bytes) → Result TrustPolicyError TrustPolicy
  from_named_pem_keys minimum_signatures keys = do
    trusted_keys ← read_pem_keys keys
    let policy : TrustPolicy = record {
      version = trust_policy_version;
      algorithm = signature_algorithm;
      policy_id = none;
      revision = none;
      previous_policy_sha256 = none;
      valid_from_unix_seconds = none;
      valid_until_unix_seconds = none;
      revoked_keys = [];
      minimum_signatures = minimum_signatures;
      trusted_keys = trusted_keys;
    }
    validate crypto policy
    ok policy

  unfoldable pub from_named_pem_keys_v2 :
      Bytes → ℕ → ℕ → ℕ → List (Bytes × Bytes) → Result TrustPolicyError TrustPolicy
  from_named_pem_keys_v2 policy_id from until minimum_signatures keys = do
    legacy ← from_named_pem_keys minimum_signatures keys
    let policy : TrustPolicy = record {
      version = trust_policy_lifecycle_version;
      algorithm = legacy.algorithm;
      policy_id = some policy_id;
      revision = some 1;
      previous_policy_sha256 = none;
      valid_from_unix_seconds = some from;
      valid_until_unix_seconds = some until;
      revoked_keys = [];
      minimum_signatures = minimum_signatures;
      trusted_keys = legacy.trusted_keys;
    }
    validate crypto policy
    ok policy

  -- The loop over `revoked_names`; `names` holds those met so far.
  unfoldable pub revoke_names :
      List TrustedKey
      → ℕ
      → List Bytes
      → List Bytes
      → List RevokedKey
      → Result TrustPolicyError (List RevokedKey)
  revoke_names trusted_keys at names [] revoked = ok revoked
  revoke_names trusted_keys at names (name ∷ rest) revoked = do
    reject_if (contains names name) (duplicate_revoked_name name)
    key ←
        ok_or (find (λ (key : TrustedKey). key.name == name) trusted_keys)
          (unknown_revoked_name name)
    revoke_names trusted_keys at (name ∷ names) rest
        (revoke_fingerprint (public_key_digest crypto key.public_key) at revoked)

  -- The part of the update behind the check of the current digest.
  unfoldable pub link_successor :
      TrustPolicy
      → Bytes
      → ℕ
      → ℕ
      → ℕ
      → List (Bytes × Bytes)
      → List Bytes
      → Result TrustPolicyError TrustPolicy
  link_successor p current_digest from until minimum_signatures keys revoked_names = do
    current_valid_from ← ok_or p.valid_from_unix_seconds expect_failed
    reject_if (ltb from current_valid_from) (successor_precedes from current_valid_from)
    policy_id ← ok_or p.policy_id expect_failed
    base ← from_named_pem_keys_v2 policy_id from until minimum_signatures keys
    current_revision ← ok_or p.revision expect_failed
    revision ← ok_or (checked_add current_revision 1) revision_overflow
    revoked ← revoke_names p.trusted_keys from [] revoked_names p.revoked_keys
    let next : TrustPolicy = record base {
      revision = some revision;
      previous_policy_sha256 = some current_digest;
      revoked_keys = revoked;
    }
    validate crypto next
    ok next

  unfoldable pub update_from_named_pem_keys :
      Json TrustPolicy
      → TrustPolicy
      → Bytes
      → ℕ
      → ℕ
      → ℕ
      → List (Bytes × Bytes)
      → List Bytes
      → Result TrustPolicyError TrustPolicy
  update_from_named_pem_keys json p expected from until minimum_signatures keys revoked_names = do
    validate crypto p
    reject_if (not (enforces_lifecycle p)) update_requires_v2
    current_digest ← policy_digest crypto json p
    reject_if (not (expected == current_digest)) (current_digest_mismatch expected current_digest)
    link_successor p current_digest from until minimum_signatures keys revoked_names
