-- ===== src/Tests/TrustExamples.antt =====
-- The theorems about signatures and trust policies at concrete inputs.
use sci_capsule.Prelude.{
  ◌+◌, ◌≡◌, ◌≢◌, ◌↔◌, inl, inr, refl, true, false, some, List, [], ◌∷◌, Bytes, codes, arith, All,
  Any, contains, ok, err, nat_eq, list_eq, list_beq,
}
use sci_capsule.Crypto.{Json}
use sci_capsule.Signature
use sci_capsule.Signature.{
  SignatureEnvelope, sign_capsule, signing_message, verify_capsule_signature_with_public_key_bytes,
}
use sci_capsule.Signature.Laws.{verify-sign_capsule}
use sci_capsule.Trust.{TrustPolicy, TrustedKey, TrustDecision, expect_failed}
use sci_capsule.Trust.Validate.{validate}
use sci_capsule.Trust.Verify.{
  key_is_revoked, to_json, from_json, policy_digest, sha256_digest, verify_at_unix_seconds, verify,
  verify_raw_ed25519_signatures,
}
use sci_capsule.Trust.WellFormed.Policy.{IsWellFormed, validate_iff}
use sci_capsule.Trust.Threshold.{IsAuthorized, verify_at_unix_seconds_iff}
use sci_capsule.Trust.Raw.{raw_signatures, verify_raw-eq-verify}
use sci_capsule.Trust.Repeats.{SameSignatures, verify_same_signatures}
use sci_capsule.Trust.Revocation.{revoked_key_never_counts, authorized_earlier}
use sci_capsule.Trust.Panics.{verify_never_panics}
use sci_capsule.Trust.Successor.{IsSuccessor, update-IsSuccessor}
use sci_capsule.Trust.Lineage.{
  Lineage, created, updated, self, child, revision_counts_updates, revocation_takes_effect,
  revoked_stays_revoked,
}
use sci_capsule.Tests.Toy.{toy, toy-IsLawful, zeros}
use sci_capsule.Tests.Only.{
  SignatureEnvelope-discrete, TrustPolicy-discrete, only, only-prints, only-ReadsBack,
}
use sci_capsule.Tests.Trust.{
  demo_json, keys, base, base_digest, next, next_keys, capsule, envelope, two_signatures, decision,
  run_create, run_update, run_verify, third, third_digest, third_keys, update_next, create_base,
  update_base,
}

validate_iff_example : (validate toy base ≡ ok tt) ↔ IsWellFormed toy base
validate_iff_example = validate_iff toy base

verify_at_unix_seconds_iff_example :
    (verify_at_unix_seconds toy demo_json base capsule two_signatures 120 ≡ ok decision)
    ↔ IsAuthorized toy demo_json base 120 capsule two_signatures decision
verify_at_unix_seconds_iff_example =
    verify_at_unix_seconds_iff toy demo_json base 120 capsule two_signatures decision

verify_raw-eq-verify_example :
    verify_raw_ed25519_signatures toy demo_json
      (some 120)
      base
      (signing_message capsule)
      (raw_signatures two_signatures)
    ≡ verify toy demo_json (some 120) base capsule two_signatures
unfolding Signature.validate list_beq
verify_raw-eq-verify_example =
    verify_raw-eq-verify toy capsule demo_json base 120 two_signatures (refl, (refl, tt))

swapped : SameSignatures two_signatures (envelope 1 ∷ envelope 1 ∷ envelope 3 ∷ [])
swapped s = ground arith

verify_same_signatures_example :
    verify_at_unix_seconds toy demo_json base capsule two_signatures 120
    ≡ verify_at_unix_seconds toy demo_json base capsule
        (envelope 1 ∷ envelope 1 ∷ envelope 3 ∷ [])
        120
verify_same_signatures_example =
    verify_same_signatures toy two_signatures (envelope 1 ∷ envelope 1 ∷ envelope 3 ∷ []) swapped
      demo_json base capsule 120 (omega arith) (omega arith)

abbrev alice : TrustedKey
alice = record { name = codes "alice"; public_key = 1 ∷ zeros 31 }

abbrev next_decision : TrustDecision
next_decision = record {
  required_signatures = 1;
  matched_signers = codes "bob" ∷ [];
  policy_digest = sha256_digest toy (2 ∷ 1 ∷ 1 ∷ 2 ∷ b'\n' ∷ []);
  policy_version = 2;
  policy_id = some (codes "release");
  policy_revision = some 2;
}

both : List SignatureEnvelope
both = envelope 2 ∷ envelope 1 ∷ []

revoked_key_never_counts_example : contains (codes "bob" ∷ []) (codes "alice") ≡ false
unfolding run_verify both
revoked_key_never_counts_example =
    revoked_key_never_counts toy next capsule both demo_json 150 next_decision alice refl (inl refl)
      (inl (refl, omega arith))

authorized_earlier_example :
    (d : TrustDecision) × (verify_at_unix_seconds toy demo_json base capsule two_signatures 110
      ≡ ok d)
    × ((n : Bytes)
        → contains decision.matched_signers n ≡ true
        → contains d.matched_signers n ≡ true)
unfolding run_verify
authorized_earlier_example =
    authorized_earlier toy base capsule two_signatures demo_json 110 120 decision (omega arith)
      (inr (100, 200, refl, refl, omega arith, omega arith)) refl

verify_never_panics_example :
    verify toy demo_json (some 120) base capsule two_signatures ≢ err expect_failed
verify_never_panics_example =
    verify_never_panics toy demo_json (some 120) base capsule two_signatures

update-IsSuccessor_example :
    IsSuccessor toy demo_json base base_digest 150 300 1 (codes "alice" ∷ []) next
unfolding run_update
update-IsSuccessor_example =
    update-IsSuccessor toy demo_json base base_digest 150 300 1 next_keys (codes "alice" ∷ []) next
      refl

base-Lineage : Lineage toy demo_json 0 base
unfolding run_create
base-Lineage = created (codes "release") 100 200 2 keys create_base

revision_counts_updates_example : next.revision ≡ some (1 + 1)
unfolding run_update
revision_counts_updates_example =
    revision_counts_updates toy demo_json
      (updated base_digest 150 300 1 next_keys (codes "alice" ∷ []) base-Lineage update_base)

revocation_takes_effect_example :
    All
      (λ name.
        Any
          (λ (key : TrustedKey). (key.name ≡ name) × (key_is_revoked toy next key 160 ≡ true))
          base.trusted_keys)
      (codes "alice" ∷ [])
unfolding run_update
revocation_takes_effect_example =
    revocation_takes_effect toy demo_json 0 base next base_digest 150 300 1 next_keys
      (codes "alice" ∷ []) 160 base-Lineage update_base (omega arith)

revoked_stays_revoked_example : key_is_revoked toy third alice 160 ≡ true
unfolding run_verify
revoked_stays_revoked_example =
    revoked_stays_revoked toy demo_json next third alice 160
      (child third_digest 160 400 1 third_keys [] self update_next) refl

abbrev signed : SignatureEnvelope
signed = envelope 5

abbrev envelope_json : Json SignatureEnvelope
envelope_json = only SignatureEnvelope-discrete signed

abbrev policy_json : Json TrustPolicy
policy_json = only TrustPolicy-discrete base

signed_prints : Signature.to_json envelope_json signed ≡ ok (codes "{}\n")
unfolding Signature.to_json Signature.validate list_beq
signed_prints = rw (only-prints SignatureEnvelope-discrete signed)

verify-sign_capsule_example :
    (Signature.from_json envelope_json (codes "{}\n") ≡ ok signed)
    × (verify_capsule_signature_with_public_key_bytes toy capsule signed (5 ∷ zeros 31) ≡ ok tt)
unfolding sign_capsule
verify-sign_capsule_example =
    verify-sign_capsule toy envelope_json toy-IsLawful
      (only-ReadsBack SignatureEnvelope-discrete signed) capsule (5 ∷ []) (codes "{}\n") signed 5
      refl refl signed_prints
