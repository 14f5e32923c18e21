-- ===== src/Tests/Trust.antt =====
-- Policies, signatures and updates over the `Toy` primitives.
use sci_capsule.Prelude.{
  ℕ, ◌≡◌, refl, none, some, List, [], ◌∷◌, Bytes, codes, length, contains, ok, err, nat_eq, list_eq,
  any, all, count_if, find, strip_prefix, to_hex, checked_add, is_alphanumeric, is_lower_hex,
  list_beq,
}
use sci_capsule.Crypto.{Json}
use sci_capsule.Signature
use sci_capsule.Signature.{
  SignatureEnvelope, sign_capsule, signing_message, verify_capsule_signature_with_public_key_bytes,
  verify_capsule_signature_with_key,
}
use sci_capsule.Trust
use sci_capsule.Trust.{
  TrustPolicy, TrustedKey, RevokedKey, TrustDecision, validate_key_name, validate_digest,
  validate_signature_count, is_key_name_byte, current_digest_mismatch, expect_failed, expired_at,
}
use sci_capsule.Trust.Validate
use sci_capsule.Trust.Validate.{validate}
use sci_capsule.Trust.Verify.{
  sha256_digest, public_key_digest, key_is_revoked, validate_window, validate_at_unix_seconds,
  to_json, policy_digest, finish_decision, key_matches, match_signers, verify_at_unix_seconds,
  enforces_lifecycle,
}
use sci_capsule.Trust.Update.{
  read_pem_keys, from_named_pem_keys, from_named_pem_keys_v2, revoke_fingerprint, revoke_names,
  link_successor, update_from_named_pem_keys,
}
use sci_capsule.Tests.Toy.{toy, zeros}

-- Prints what tells the policies below apart. It prints only, and reads nothing.
abbrev pub demo_json : Json TrustPolicy
demo_json = record {
  to_vec_pretty = λ p.
      some (p.version ∷ p.minimum_signatures ∷ length p.revoked_keys ∷ length p.trusted_keys ∷ []);
  from_slice = λ _. none;
}

abbrev pub keys : List (Bytes × Bytes)
keys = (codes "alice", 1 ∷ []) ∷ (codes "bob", 2 ∷ []) ∷ (codes "carol", 3 ∷ []) ∷ []

-- Opens everything that `validate` calls.
unfoldable pub run_validate : TrustPolicy → Trust.Check
unfolding validate Validate.validate_version Validate.validate_v1 Validate.validate_v2
    Validate.validate_revision_chain Validate.validate_revoked_keys Validate.validate_threshold
    Validate.validate_trusted_keys validate_key_name validate_digest is_key_name_byte
    is_alphanumeric is_lower_hex all any contains strip_prefix list_beq
run_validate = validate toy

unfoldable pub run_create : Bytes → ℕ → ℕ → ℕ → List (Bytes × Bytes) → Trust.Outcome TrustPolicy
unfolding run_validate from_named_pem_keys_v2 from_named_pem_keys read_pem_keys
run_create = from_named_pem_keys_v2 toy

unfoldable pub run_update :
    TrustPolicy → Bytes → ℕ → ℕ → ℕ → List (Bytes × Bytes) → List Bytes → Trust.Outcome TrustPolicy
unfolding run_create update_from_named_pem_keys link_successor revoke_names revoke_fingerprint
    policy_digest to_json sha256_digest public_key_digest to_hex find checked_add enforces_lifecycle
run_update = update_from_named_pem_keys toy demo_json

unfoldable pub run_verify :
    TrustPolicy → Bytes → List SignatureEnvelope → ℕ → Trust.Outcome TrustDecision
unfolding run_update verify_at_unix_seconds validate_at_unix_seconds validate_window
    validate_signature_count finish_decision match_signers key_matches key_is_revoked count_if
    verify_capsule_signature_with_public_key_bytes verify_capsule_signature_with_key
    Signature.validate signing_message
run_verify = verify_at_unix_seconds toy demo_json

abbrev pub base : TrustPolicy
base = record {
  version = 2;
  algorithm = codes "ed25519";
  policy_id = some (codes "release");
  revision = some 1;
  previous_policy_sha256 = none;
  valid_from_unix_seconds = some 100;
  valid_until_unix_seconds = some 200;
  revoked_keys = [];
  minimum_signatures = 2;
  trusted_keys =
      record { name = codes "alice"; public_key = 1 ∷ zeros 31 }
      ∷ record { name = codes "bob"; public_key = 2 ∷ zeros 31 }
      ∷ record { name = codes "carol"; public_key = 3 ∷ zeros 31 }
      ∷ [];
}

pub create_base : run_create (codes "release") 100 200 2 keys ≡ ok base
unfolding run_create
create_base = refl

abbrev pub base_digest : Bytes
base_digest = sha256_digest toy (2 ∷ 2 ∷ 0 ∷ 3 ∷ b'\n' ∷ [])

-- The next revision: alice is revoked, and the other two keys stay.
abbrev pub next : TrustPolicy
next = record {
  version = 2;
  algorithm = codes "ed25519";
  policy_id = some (codes "release");
  revision = some 2;
  previous_policy_sha256 = some base_digest;
  valid_from_unix_seconds = some 150;
  valid_until_unix_seconds = some 300;
  revoked_keys =
      record {
        public_key_sha256 = public_key_digest toy (1 ∷ zeros 31);
        revoked_at_unix_seconds = 150;
        reason = codes "controlled policy update";
      }
      ∷ [];
  minimum_signatures = 1;
  trusted_keys =
      record { name = codes "alice"; public_key = 1 ∷ zeros 31 }
      ∷ record { name = codes "bob"; public_key = 2 ∷ zeros 31 }
      ∷ [];
}

abbrev pub next_keys : List (Bytes × Bytes)
next_keys = (codes "alice", 1 ∷ []) ∷ (codes "bob", 2 ∷ []) ∷ []

pub update_base : run_update base base_digest 150 300 1 next_keys (codes "alice" ∷ []) ≡ ok next
unfolding run_update
update_base = refl

abbrev pub third_digest : Bytes
third_digest = sha256_digest toy (2 ∷ 1 ∷ 1 ∷ 2 ∷ b'\n' ∷ [])

abbrev pub third : TrustPolicy
third = record next {
  revision = some 3;
  previous_policy_sha256 = some third_digest;
  valid_from_unix_seconds = some 160;
  valid_until_unix_seconds = some 400;
  trusted_keys = record { name = codes "dora"; public_key = 4 ∷ zeros 31 } ∷ [];
}

abbrev pub third_keys : List (Bytes × Bytes)
third_keys = (codes "dora", 4 ∷ []) ∷ []

pub update_next : run_update next third_digest 160 400 1 third_keys [] ≡ ok third
unfolding run_update
update_next = refl

abbrev pub capsule : Bytes
capsule = codes "capsule"

-- The envelope that signer `k` makes over the capsule.
abbrev pub envelope : ℕ → SignatureEnvelope
envelope k = record {
  version = 1;
  algorithm = codes "ed25519";
  signature = toy.signature_to_bytes (toy.sign k (signing_message capsule));
}

abbrev pub two_signatures : List SignatureEnvelope
two_signatures = envelope 3 ∷ envelope 1 ∷ []

abbrev pub decision : TrustDecision
decision = record {
  required_signatures = 2;
  matched_signers = codes "alice" ∷ codes "carol" ∷ [];
  policy_digest = base_digest;
  policy_version = 2;
  policy_id = some (codes "release");
  policy_revision = some 1;
}

pub verify_base : run_verify base capsule two_signatures 120 ≡ ok decision
unfolding run_verify
verify_base = refl

-- One signer twice does not meet a threshold of two.
pub verify_twice :
    run_verify base capsule (envelope 1 ∷ envelope 1 ∷ []) 120 ≡ err (Trust.threshold_not_met 1 2)
unfolding run_verify
verify_twice = refl

verify_expired : run_verify base capsule two_signatures 200 ≡ err (expired_at 200 200)
unfolding run_verify
verify_expired = refl

verify_revoked : run_verify next capsule (envelope 1 ∷ []) 150 ≡ err (Trust.threshold_not_met 0 1)
unfolding run_verify
verify_revoked = refl

pub verify_next :
    run_verify next capsule (envelope 2 ∷ envelope 1 ∷ []) 150
    ≡ ok (record {
      required_signatures = 1;
      matched_signers = codes "bob" ∷ [];
      policy_digest = sha256_digest toy (2 ∷ 1 ∷ 1 ∷ 2 ∷ b'\n' ∷ []);
      policy_version = 2;
      policy_id = some (codes "release");
      policy_revision = some 2;
    })
unfolding run_verify
verify_next = refl
