-- ===== src/Product/Trusting.antt =====
-- src/product_main.rs: what `verify_trusted_command` has shown, and what
-- `update_trust_policy_command` has written, when they succeed.
use sci_capsule.Prelude.{
  ℕ, ◌≡◌, sym, ap, subst, ◌∙◌, Option, some, List, Bytes, ok, map_err, ok-injective, require-eq-ok,
}
use sci_capsule.Action.{lift, >>=-succeeds}
use sci_capsule.Crypto.{Crypto, Json}
use sci_capsule.Files.{Location, Entries, Disk}
use sci_capsule.Extraction.Materialize.{Capsule}
use sci_capsule.Cli.Commands.{Container}
use sci_capsule.Signature.{SignatureEnvelope}
use sci_capsule.Trust.{TrustPolicy, TrustDecision, clock_before_epoch}
use sci_capsule.Trust.Verify
use sci_capsule.Trust.Verify.{policy_digest, verify, verify_at_unix_seconds}
use sci_capsule.Trust.Threshold.{IsAuthorized, verify_at_unix_seconds_iff}
use sci_capsule.Product.{
  Report, trusted, trust_failed, max_auth_capsule_bytes, read_decoded, read_policy, read_envelopes,
  verify_trusted_command,
}
use sci_capsule.Product.Reading.{
  Holds, AreEnvelopes, lift-map_err-succeeds, read_decoded-succeeds, read_policy-succeeds,
  read_envelopes-succeeds,
}

module _ (locate : Bytes → Location) (crypto : Crypto) (policy_json : Json TrustPolicy) where
  -- `verify` is `verify_at_unix_seconds` at the time of the clock.
  pub verify-IsAuthorized :
      (clock : Option ℕ) (p : TrustPolicy) (bytes : Bytes) (signatures : List SignatureEnvelope)
      (decision : TrustDecision)
      → verify crypto policy_json clock p bytes signatures ≡ ok decision
      → (now : ℕ) × (clock ≡ some now)
        × IsAuthorized crypto policy_json p now bytes signatures decision
  unfolding verify
  verify-IsAuthorized clock p bytes signatures decision h =
      let (now, time, h) = require-eq-ok clock clock_before_epoch _ h in
      (
        now,
        time,
        (verify_at_unix_seconds_iff crypto policy_json p now bytes signatures decision).0 h,
      )

  -- The files that a decision rests on, as they were read.
  pub record IsDecided (container : Container) (json : Json SignatureEnvelope) (clock : Option ℕ)
      (capsule_path policy_path : Bytes) (signature_paths : List Bytes) (entries : Entries)
      : Type 0 where
    pub capsule_bytes : Bytes
    pub capsule : Capsule
    pub policy_bytes : Bytes
    pub policy : TrustPolicy
    pub signatures : List SignatureEnvelope
    pub now : ℕ
    pub decision : TrustDecision
    pub holds_capsule : Holds locate entries capsule_path capsule_bytes
    pub decoded : container.decode capsule_bytes ≡ some capsule
    pub holds_policy : Holds locate entries policy_path policy_bytes
    pub is_policy : Verify.from_json crypto policy_json policy_bytes ≡ ok policy
    pub envelopes : AreEnvelopes locate json entries signature_paths signatures
    pub time : clock ≡ some now
    pub authorized : IsAuthorized crypto policy_json policy now capsule_bytes signatures decision

  -- `verify_trusted_command`, with whatever failures in store, succeeds only on the decision that
  -- the policy in its file, with the envelopes in theirs and at the time of the clock, authorizes
  -- the very bytes of the capsule file, which decode; it reports the signers and the threshold of
  -- this decision, and it changes nothing.
  pub verify_trusted_command-IsDecided :
      (container : Container) (json : Json SignatureEnvelope) (clock : Option ℕ)
      (capsule_path policy_path : Bytes) (signature_paths : List Bytes) (d d' : Disk)
      (report : Report)
      → verify_trusted_command locate crypto policy_json container json clock capsule_path
          policy_path signature_paths d
        ≡ (ok report, d')
      → (decided : IsDecided container json clock capsule_path policy_path signature_paths
          d.entries)
        × (report
            ≡ trusted capsule_path
                (container.name decided.capsule)
                decided.decision.matched_signers
                decided.decision.required_signatures)
        × (d'.entries ≡ d.entries)
  unfolding verify_trusted_command
  verify_trusted_command-IsDecided container json clock capsule_path policy_path signature_paths d
        d' report h =
      let ((bytes, capsule), d1, h1, h) =
        >>=-succeeds (read_decoded locate container capsule_path max_auth_capsule_bytes) _ d h in
      let (policy, d2, h2, h) =
        >>=-succeeds (read_policy locate crypto policy_json policy_path) _ d1 h in
      let (signatures, d3, h3, h) =
        >>=-succeeds (read_envelopes locate json signature_paths) _ d2 h in
      let outcome = verify crypto policy_json clock policy bytes signatures in
      let (decision, d4, h4, h) = >>=-succeeds (lift (map_err trust_failed outcome)) _ d3 h in
      let (holds_capsule, decoded, same1) =
        read_decoded-succeeds locate container capsule_path max_auth_capsule_bytes d d1 h1 in
      let (policy_bytes, holds_policy, is_policy, same2) =
        read_policy-succeeds locate crypto policy_json policy_path d1 d2 h2 in
      let (envelopes, same3) = read_envelopes-succeeds locate json signature_paths d2 d3 h3 in
      let (verifies, same4) = lift-map_err-succeeds trust_failed outcome d3 h4 in
      let (now, time, authorized) =
        verify-IsAuthorized clock policy bytes signatures decision verifies in
      (
        record {
          capsule_bytes = bytes;
          capsule = capsule;
          policy_bytes = policy_bytes;
          policy = policy;
          signatures = signatures;
          now = now;
          decision = decision;
          holds_capsule = holds_capsule;
          decoded = decoded;
          holds_policy = subst (λ f. Holds locate f policy_path policy_bytes) same1 holds_policy;
          is_policy = is_policy;
          envelopes =
              subst (λ f. AreEnvelopes locate json f signature_paths signatures) (same2 ∙ same1)
                envelopes;
          time = time;
          authorized = authorized;
        },
        ok-injective (ap (λ x. x.0) (sym h)),
        ap (λ x. x.1.entries) (sym h) ∙ ap (λ s. s.entries) same4 ∙ same3 ∙ same2 ∙ same1,
      )
