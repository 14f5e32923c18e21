-- ===== src/Trust.antt =====
-- src/trust.rs: trust policies, their errors, and the checks on single fields.
pub mod Validate
pub mod WellFormed
pub mod Decision
pub mod Threshold
pub mod Raw
pub mod Repeats
pub mod Revocation
pub mod Revoking
pub mod Successor
pub mod Panics
pub mod Lineage
pub mod RoundTrip
pub mod Verify
pub mod Update
use sci_capsule.Prelude.{
  ℕ, Bool, not, ◌||◌, Option, List, Bytes, codes, ltb, ◌==◌, nat_eq, length, is_empty, all,
  is_alphanumeric, is_lower_hex, strip_prefix, Result, reject_if, ok_or, ◌>>=◌, ◌>>◌,
}

-- The messages of `TrustPolicyError`, one constructor for each place that makes one.
-- `expect_failed` stands for the panic of an `expect` on a field that `validate` has checked.
pub data TrustPolicyError : Type 0 where
  invalid_json serialize_failed : TrustPolicyError
  invalid_public_key_pem : Bytes → TrustPolicyError
  unsupported_version : ℕ → TrustPolicyError
  lifecycle_fields_in_v1 : TrustPolicyError
  missing_policy_id missing_revision zero_revision broken_revision_chain : TrustPolicyError
  missing_valid_from missing_valid_until empty_validity : TrustPolicyError
  digest_form revocation_reason_length duplicate_revoked_key : TrustPolicyError
  unsupported_algorithm : Bytes → TrustPolicyError
  no_trusted_keys : TrustPolicyError
  too_many_trusted_keys : ℕ → TrustPolicyError
  zero_minimum_signatures : TrustPolicyError
  minimum_exceeds_keys : ℕ → ℕ → TrustPolicyError
  empty_key_name : TrustPolicyError
  long_key_name : ℕ → TrustPolicyError
  key_name_characters : Bytes → TrustPolicyError
  duplicate_key_name : Bytes → TrustPolicyError
  public_key_length : Bytes → ℕ → TrustPolicyError
  invalid_public_key : Bytes → TrustPolicyError
  duplicate_public_key : TrustPolicyError
  no_signatures : TrustPolicyError
  too_many_signatures : ℕ → TrustPolicyError
  invalid_signature_length : ℕ → TrustPolicyError
  threshold_not_met : ℕ → ℕ → TrustPolicyError
  clock_before_epoch : TrustPolicyError
  not_valid_before : ℕ → ℕ → TrustPolicyError
  expired_at : ℕ → ℕ → TrustPolicyError
  threshold_unreachable : ℕ → ℕ → TrustPolicyError
  update_requires_v2 : TrustPolicyError
  current_digest_mismatch : Bytes → Bytes → TrustPolicyError
  successor_precedes : ℕ → ℕ → TrustPolicyError
  revision_overflow : TrustPolicyError
  duplicate_revoked_name unknown_revoked_name : Bytes → TrustPolicyError
  expect_failed : TrustPolicyError

pub record TrustedKey : Type 0 where
  pub name : Bytes
  pub public_key : Bytes

pub record RevokedKey : Type 0 where
  pub public_key_sha256 : Bytes
  pub revoked_at_unix_seconds : ℕ
  pub reason : Bytes

pub record TrustPolicy : Type 0 where
  pub version : ℕ
  pub algorithm : Bytes
  pub policy_id : Option Bytes
  pub revision : Option ℕ
  pub previous_policy_sha256 : Option Bytes
  pub valid_from_unix_seconds : Option ℕ
  pub valid_until_unix_seconds : Option ℕ
  pub revoked_keys : List RevokedKey
  pub minimum_signatures : ℕ
  pub trusted_keys : List TrustedKey

pub record TrustDecision : Type 0 where
  pub required_signatures : ℕ
  pub matched_signers : List Bytes
  pub policy_digest : Bytes
  pub policy_version : ℕ
  pub policy_id : Option Bytes
  pub policy_revision : Option ℕ

abbrev pub trust_policy_version : ℕ
trust_policy_version = 1

abbrev pub trust_policy_lifecycle_version : ℕ
trust_policy_lifecycle_version = 2

abbrev pub max_trusted_keys : ℕ
max_trusted_keys = 64

abbrev pub max_signatures : ℕ
max_signatures = 64

abbrev pub max_key_name_bytes : ℕ
max_key_name_bytes = 64

abbrev pub Outcome {ℓ} : Type ℓ → Type ℓ
Outcome = Result TrustPolicyError

abbrev pub Check : Type 0
Check = Result TrustPolicyError (Unit {0})

unfoldable pub is_key_name_byte : ℕ → Bool
is_key_name_byte b = is_alphanumeric b || b == b'-' || b == b'_' || b == b'.'

unfoldable pub validate_key_name : Bytes → Check
validate_key_name name = do
  reject_if (is_empty name) empty_key_name
  reject_if (ltb max_key_name_bytes (length name)) (long_key_name (length name))
  reject_if (not (all is_key_name_byte name)) (key_name_characters name)

unfoldable pub validate_digest : Bytes → Check
validate_digest value = do
  hex ← ok_or (strip_prefix (codes "sha256:") value) digest_form
  reject_if (not (length hex == 64) || not (all is_lower_hex hex)) digest_form

unfoldable pub validate_signature_count : ℕ → Check
validate_signature_count count = do
  reject_if (count == 0) no_signatures
  reject_if (ltb max_signatures count) (too_many_signatures count)
