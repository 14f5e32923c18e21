-- ===== src/Trust/Panics.antt =====
-- The `expect` calls of src/trust.rs never panic: `validate` has checked their fields.
use sci_capsule.Trust.Threshold.{verify_at_unix_seconds_iff}
use sci_capsule.Prelude.{
  ℕ, ◌≢◌, Option, none, some, List, [], ◌∷◌, Bytes, arith, Result-cases, Option-cases, inl, inr,
  Result, err, nat_eq, list_eq, ◌≤◌, ◌≡◌, ◌∙◌, true, ok,
}
use sci_capsule.Crypto.{Crypto, Json}
use sci_capsule.Signature.{SignatureEnvelope}
use sci_capsule.Trust.{
  TrustPolicyError, TrustPolicy, TrustedKey, RevokedKey, validate_key_name, validate_digest,
  validate_signature_count, expect_failed, TrustDecision,
}
use sci_capsule.Trust.Validate.{
  validate, validate_v1, validate_v2, validate_version, validate_threshold, validate_trusted_keys,
  validate_revision_chain, validate_revoked_keys,
}
use sci_capsule.Trust.Verify.{
  validate_window, validate_at_unix_seconds, finish_decision, to_json, policy_digest,
  verify_at_unix_seconds, verify, enforces_lifecycle,
}
use sci_capsule.Trust.WellFormed.Policy.{IsWellFormed, validate_iff}

-- Not the panic of an `expect`.
abbrev pub NoPanic {ℓ} : {A : Type ℓ} → Result TrustPolicyError A → Type ℓ
NoPanic r = r ≢ err expect_failed

validate_key_name-NoPanic : (name : Bytes) → NoPanic (validate_key_name name)
unfolding validate_key_name
validate_key_name-NoPanic name = ground arith

validate_digest-NoPanic : (value : Bytes) → NoPanic (validate_digest value)
unfolding validate_digest
validate_digest-NoPanic value = ground arith

validate_revoked_keys-NoPanic :
    (seen : List Bytes) (entries : List RevokedKey) → NoPanic (validate_revoked_keys seen entries)
unfolding validate_revoked_keys
validate_revoked_keys-NoPanic seen [] = ground arith
validate_revoked_keys-NoPanic seen (r ∷ entries) = ground (
  arith,
  validate_digest-NoPanic r.public_key_sha256,
  validate_revoked_keys-NoPanic (r.public_key_sha256 ∷ seen) entries,
)

validate_revision_chain-NoPanic : (o : Option Bytes) (n : ℕ) → NoPanic (validate_revision_chain o n)
unfolding validate_revision_chain
validate_revision_chain-NoPanic none n = ground arith
validate_revision_chain-NoPanic (some d) n = ground (arith, validate_digest-NoPanic d)

validate_v2-NoPanic : (p : TrustPolicy) → NoPanic (validate_v2 p)
unfolding validate_v2
validate_v2-NoPanic p = elim (Option-cases p.policy_id) [
  | inl e ↦ ground arith
  | inr (id, e) ↦ elim (Option-cases p.revision) [
    | inl f ↦ ground (arith, validate_key_name-NoPanic id)
    | inr (n, f) ↦ ground (
      arith,
      validate_key_name-NoPanic id,
      validate_revision_chain-NoPanic p.previous_policy_sha256 n,
      validate_revoked_keys-NoPanic [] p.revoked_keys,
    )
  ]
]

validate_version-NoPanic : (p : TrustPolicy) → NoPanic (validate_version p)
unfolding validate_version validate_v1
validate_version-NoPanic p = ground (arith, validate_v2-NoPanic p)

validate_threshold-NoPanic : (p : TrustPolicy) → NoPanic (validate_threshold p)
unfolding validate_threshold
validate_threshold-NoPanic p = ground arith

module _ (crypto : Crypto) where
  validate_trusted_keys-NoPanic :
      (names keys : List Bytes) (ks : List TrustedKey)
      → NoPanic (validate_trusted_keys crypto names keys ks)
  unfolding validate_trusted_keys
  validate_trusted_keys-NoPanic names keys [] = ground arith
  validate_trusted_keys-NoPanic names keys (k ∷ ks) = ground (
    arith,
    validate_key_name-NoPanic k.name,
    validate_trusted_keys-NoPanic (k.name ∷ names) (k.public_key ∷ keys) ks,
  )

  pub validate-NoPanic : (p : TrustPolicy) → NoPanic (validate crypto p)
  unfolding validate
  validate-NoPanic p = ground (
    arith,
    validate_version-NoPanic p,
    validate_threshold-NoPanic p,
    validate_trusted_keys-NoPanic [] [] p.trusted_keys,
  )

  validate_at-NoPanic :
      (p : TrustPolicy) (now : ℕ)
      → IsWellFormed crypto p
      → NoPanic (validate_at_unix_seconds crypto p now)
  unfolding validate_at_unix_seconds validate_window
  validate_at-NoPanic p now w = elim w.has_version [
    | inl (v, _) ↦ ground arith
    | inr (v, is_v2) ↦ ground (arith, is_v2.has_from, is_v2.has_until)
  ]

  module _ (json : Json TrustPolicy) where
    pub policy_digest-NoPanic : (p : TrustPolicy) → NoPanic (policy_digest crypto json p)
    unfolding policy_digest to_json
    policy_digest-NoPanic p = ground (arith, validate-NoPanic p)

    -- Verification never panics on an `expect`, whatever the policy, the signatures and the clock.
    pub verify_never_panics :
        (clock : Option ℕ) (p : TrustPolicy) (capsule_bytes : Bytes)
        (signatures : List SignatureEnvelope)
        → verify crypto json clock p capsule_bytes signatures ≢ err expect_failed
    unfolding verify verify_at_unix_seconds finish_decision validate_signature_count
    verify_never_panics none p capsule_bytes signatures = ground arith
    verify_never_panics (some now) p capsule_bytes signatures =
        elim (Result-cases (validate crypto p)) [
          | inl (tt, e) ↦ ground (
            arith,
            validate_at-NoPanic p now ((validate_iff crypto p).0 e),
            policy_digest-NoPanic p,
          )
          | inr (f, e) ↦ ground (arith, validate-NoPanic p)
        ]

-- Where a policy with a lifecycle authorizes signatures, the decision has a revision, which the
-- runner and the Hub take out of it without a check.
pub verify-has_revision :
    (crypto : Crypto) (json : Json TrustPolicy) (p : TrustPolicy) (capsule_bytes : Bytes)
    (signatures : List SignatureEnvelope) (now : ℕ) (d : TrustDecision)
    → enforces_lifecycle p ≡ true
    → verify_at_unix_seconds crypto json p capsule_bytes signatures now ≡ ok d
    → (revision : ℕ) × (d.policy_revision ≡ some revision) × (1 ≤ revision)
unfolding enforces_lifecycle
verify-has_revision crypto json p capsule_bytes signatures now d v2 h =
    let a = (verify_at_unix_seconds_iff crypto json p now capsule_bytes signatures d).0 h in
    elim a.well_formed.has_version [
      | inl (one, _) ↦ absurd (ground (arith, one, v2))
      | inr (_, v) ↦ (v.revision, a.revision ∙ v.has_revision, v.is_positive)
    ]
