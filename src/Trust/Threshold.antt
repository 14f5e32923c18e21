-- ===== src/Trust/Threshold.antt =====
-- `verify_at_unix_seconds` of src/trust.rs authorizes exactly where the policy's threshold of
-- distinct, unrevoked keys is met inside the validity window.
use sci_capsule.Prelude.{
  ℕ, ◌≤◌, ◌<◌, ◌≡◌, ◌↔◌, ◌⊎◌, inl, inr, refl, ap, Bool, true, false, not, some, List, ◌∷◌, Bytes,
  arith, length, count_if, contains, Distinct, Bool-cases, ok, >>-eq-ok, nat_eq, list_eq,
}
use sci_capsule.Crypto.{Crypto, Json}
use sci_capsule.Signature.{SignatureEnvelope}
use sci_capsule.Trust.{
  TrustPolicy, TrustedKey, TrustDecision, validate_signature_count, max_signatures,
}
use sci_capsule.Trust.Validate.{validate}
use sci_capsule.Trust.Verify.{
  key_is_revoked, match_signers, validate_window, validate_at_unix_seconds, policy_digest,
  finish_decision, verify_at_unix_seconds,
}
use sci_capsule.Trust.WellFormed.Fields.{validate_signature_count_iff}
use sci_capsule.Trust.WellFormed.Policy.{IsWellFormed, validate_iff, key_names}
use sci_capsule.Trust.Decision.{
  IsSigner, Signers, none_left, counted, passed, Signers-match_signers, key_is_revoked_iff,
}

-- Version 1 has no window; version 2 is valid from its start until before its end.
abbrev pub InWindow : TrustPolicy → ℕ → Type 0
InWindow p now =
    (p.version ≡ 1)
    ⊎ ((from until : ℕ) × (p.valid_from_unix_seconds ≡ some from)
        × (p.valid_until_unix_seconds ≡ some until)
        × (from ≤ now)
        × (now < until))

module _ (crypto : Crypto) (p : TrustPolicy) (now : ℕ) (capsule_bytes : Bytes)
    (signatures : List SignatureEnvelope) where
  abbrev pub SignersHere : List TrustedKey → List Bytes → Type 0
  SignersHere = Signers crypto p now capsule_bytes signatures

  -- The signers are determined.
  Signers-unique :
      {keys : List TrustedKey} {names names' : List Bytes}
      → SignersHere keys names
      → SignersHere keys names'
      → names ≡ names'
  Signers-unique none_left none_left = refl
  Signers-unique (counted {key = k} s r) (counted s' r') =
      ap (λ ns. k.name ∷ ns) (Signers-unique r r')
  Signers-unique (counted s r) (passed n r') = absurd (n s)
  Signers-unique (passed n r) (counted s r') = absurd (n s)
  Signers-unique (passed n r) (passed n' r') = Signers-unique r r'

  abbrev pub is_active : TrustedKey → Bool
  is_active = λ key. not (key_is_revoked crypto p key now)

  is_active-IsSigner :
      (key : TrustedKey) → IsSigner crypto p now capsule_bytes signatures key → is_active key ≡ true
  is_active-IsSigner key s = elim (Bool-cases (key_is_revoked crypto p key now)) [
    | inl r ↦ absurd (s.0 ((key_is_revoked_iff crypto p now key).0 r))
    | inr r ↦ rw r
  ]

  pub Signers-le-count_if :
      {keys : List TrustedKey} {names : List Bytes}
      → SignersHere keys names
      → length names ≤ count_if is_active keys
  unfolding count_if
  Signers-le-count_if none_left = omega arith
  Signers-le-count_if (counted {key = k} s r) =
      ground (arith, is_active-IsSigner k s, Signers-le-count_if r)
  Signers-le-count_if (passed n r) = ground (arith, Signers-le-count_if r)

  pub Signers-contains :
      {keys : List TrustedKey} {names : List Bytes} (n : Bytes)
      → SignersHere keys names
      → contains (key_names keys) n ≡ false
      → contains names n ≡ false
  unfolding contains
  Signers-contains n none_left h = refl
  Signers-contains n (counted s r) h = ground (arith, Signers-contains n r)
  Signers-contains n (passed s r) h = ground (arith, Signers-contains n r)

  pub Signers-Distinct :
      {keys : List TrustedKey} {names : List Bytes}
      → SignersHere keys names
      → Distinct (key_names keys)
      → Distinct names
  Signers-Distinct none_left d = tt
  Signers-Distinct (counted {key = k} s r) (fresh, d) =
      (Signers-contains k.name r fresh, Signers-Distinct r d)
  Signers-Distinct (passed n r) (fresh, d) = Signers-Distinct r d

module _ (crypto : Crypto) (json : Json TrustPolicy) where
  pub record IsAuthorized (p : TrustPolicy) (now : ℕ) (capsule_bytes : Bytes)
      (signatures : List SignatureEnvelope) (d : TrustDecision) : Type 0 where
    pub well_formed : IsWellFormed crypto p
    pub in_window : InWindow p now
    pub has_signature : 1 ≤ length signatures
    pub signatures_fit : length signatures ≤ max_signatures
    pub signers : Signers crypto p now capsule_bytes signatures p.trusted_keys d.matched_signers
    pub enough : p.minimum_signatures ≤ length d.matched_signers
    pub named_once : Distinct d.matched_signers
    pub requires : d.required_signatures ≡ p.minimum_signatures
    pub digest : policy_digest crypto json p ≡ ok d.policy_digest
    pub version : d.policy_version ≡ p.version
    pub policy_id : d.policy_id ≡ p.policy_id
    pub revision : d.policy_revision ≡ p.revision

  pub finish_decision_sound :
      (p : TrustPolicy) (names : List Bytes) (d : TrustDecision)
      → finish_decision crypto json p names ≡ ok d
      → (p.minimum_signatures ≤ length names)
        × (policy_digest crypto json p ≡ ok d.policy_digest)
        × (d ≡ record {
          required_signatures = p.minimum_signatures;
          matched_signers = names;
          policy_digest = d.policy_digest;
          policy_version = p.version;
          policy_id = p.policy_id;
          policy_revision = p.revision;
        })
  unfolding finish_decision
  finish_decision_sound p names d h = ground arith

  pub validate_at_sound :
      (p : TrustPolicy) (now : ℕ)
      → IsWellFormed crypto p
      → validate_at_unix_seconds crypto p now ≡ ok tt
      → InWindow p now
  unfolding validate_at_unix_seconds validate_window
  validate_at_sound p now w h = elim w.has_version [
    | inl (v, _) ↦ inl v
    | inr (v, is_v2) ↦ inr (
      is_v2.from,
      is_v2.until,
      is_v2.has_from,
      is_v2.has_until,
      ground (arith, is_v2.has_from, is_v2.has_until),
      ground (arith, is_v2.has_from, is_v2.has_until),
    )
  ]

  pub validate_at_complete :
      (p : TrustPolicy) (now : ℕ)
      → InWindow p now
      → p.minimum_signatures
        ≤ count_if (λ key. not (key_is_revoked crypto p key now)) p.trusted_keys
      → validate_at_unix_seconds crypto p now ≡ ok tt
  unfolding validate_at_unix_seconds validate_window
  validate_at_complete p now (inl v) enough = ground arith
  validate_at_complete p now (inr (from, until, f, u, after, before)) enough = ground arith

  verify_sound :
      (p : TrustPolicy) (now : ℕ) (capsule_bytes : Bytes) (signatures : List SignatureEnvelope)
      (d : TrustDecision)
      → verify_at_unix_seconds crypto json p capsule_bytes signatures now ≡ ok d
      → IsAuthorized p now capsule_bytes signatures d
  unfolding verify_at_unix_seconds
  verify_sound p now capsule_bytes signatures d h =
      let (valid, h1) = >>-eq-ok (validate crypto p) _ h in
      let (timely, h2) = >>-eq-ok (validate_at_unix_seconds crypto p now) _ h1 in
      let (sized, h3) = >>-eq-ok (validate_signature_count (length signatures)) _ h2 in
      let w = (validate_iff crypto p).0 valid in
      let names = match_signers crypto p now capsule_bytes signatures p.trusted_keys in
      let (enough, digest, e) = finish_decision_sound p names d h3 in
      let s = Signers-match_signers crypto p now capsule_bytes signatures p.trusted_keys in
      let matched : d.matched_signers ≡ names = ap (λ (x : TrustDecision). x.matched_signers) e in
      record {
        well_formed = w;
        in_window = validate_at_sound p now w timely;
        has_signature = ((validate_signature_count_iff _).0 sized).0;
        signatures_fit = ((validate_signature_count_iff _).0 sized).1;
        signers = rw matched s;
        enough = rw matched enough;
        named_once =
            rw matched (Signers-Distinct crypto p now capsule_bytes signatures s w.named_once);
        requires = ap (λ (x : TrustDecision). x.required_signatures) e;
        digest = digest;
        version = ap (λ (x : TrustDecision). x.policy_version) e;
        policy_id = ap (λ (x : TrustDecision). x.policy_id) e;
        revision = ap (λ (x : TrustDecision). x.policy_revision) e;
      }

  verify_complete :
      (p : TrustPolicy) (now : ℕ) (capsule_bytes : Bytes) (signatures : List SignatureEnvelope)
      (d : TrustDecision)
      → IsAuthorized p now capsule_bytes signatures d
      → verify_at_unix_seconds crypto json p capsule_bytes signatures now ≡ ok d
  unfolding verify_at_unix_seconds finish_decision
  verify_complete p now capsule_bytes signatures d a =
      let names = match_signers crypto p now capsule_bytes signatures p.trusted_keys in
      let s = Signers-match_signers crypto p now capsule_bytes signatures p.trusted_keys in
      let matched : names ≡ d.matched_signers =
        Signers-unique crypto p now capsule_bytes signatures s a.signers in
      rw
        (
          (validate_iff crypto p).1 a.well_formed,
          validate_at_complete p now a.in_window (
              omega (
                arith,
                Signers-le-count_if crypto p now capsule_bytes signatures a.signers,
                a.enough,
              )),
          (validate_signature_count_iff (length signatures)).1 (a.has_signature, a.signatures_fit),
          matched,
        )
        (ground (arith, a.enough, a.digest, a.requires, a.version, a.policy_id, a.revision))

  -- `verify_at_unix_seconds` returns the decision `d` exactly if `d` is authorized: the policy is
  -- well formed and in its validity window, there are 1 to 64 signatures, the matched names are
  -- those of the trusted keys, each counted once, that are not revoked and under which some
  -- signature verifies, they are as many as the policy requires, and `d` carries the policy's
  -- digest, version, identity and revision.
  pub verify_at_unix_seconds_iff :
      (p : TrustPolicy) (now : ℕ) (capsule_bytes : Bytes) (signatures : List SignatureEnvelope)
      (d : TrustDecision)
      → (verify_at_unix_seconds crypto json p capsule_bytes signatures now ≡ ok d)
        ↔ IsAuthorized p now capsule_bytes signatures d
  verify_at_unix_seconds_iff p now capsule_bytes signatures d = (
    verify_sound p now capsule_bytes signatures d,
    verify_complete p now capsule_bytes signatures d,
  )
