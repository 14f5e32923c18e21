-- ===== src/Provenance/Verified.antt =====
-- src/provenance.rs: what `verify_for_capsule` has established when it succeeds.
use sci_capsule.Prelude.{
  ℕ, ◌≤◌, ◌≡◌, refl, sym, ap, subst, ◌⊎◌, inl, inr, true, false, not, some, List, [], ◌∷◌, Bytes,
  arith, length, not-eq-false, Any, All, All-map, any, any_sound, contains, Distinct, nat_eq,
  list_eq, Bool-cases, Option-cases, some_of_ne_none, Result-cases, ok, err, map_err, map_err-eq-ok,
  ok-injective, reject-eq-ok, >>=-eq-ok, >>-eq-ok,
}
use sci_capsule.Crypto.{Crypto, Json, Base64}
use sci_capsule.Trust.{
  TrustPolicy, TrustedKey, TrustPolicyError, TrustDecision, validate_signature_count,
}
use sci_capsule.Trust.Validate.{validate}
use sci_capsule.Trust.WellFormed.Policy.{IsWellFormed, key_names, validate_iff}
use sci_capsule.Trust.Threshold.{InWindow, finish_decision_sound, validate_at_sound}
use sci_capsule.Trust.Verify.{
  key_is_revoked, check_signature_lengths, validate_at_unix_seconds, match_raw_signers,
  raw_signature_verifies, verify_raw_ed25519_signatures,
}
use sci_capsule.Provenance.{
  JsonValues, ProvenanceStatement, from_json, matches_capsule, trust_failed, subject_mismatch,
}
use sci_capsule.Provenance.Envelope.{
  DsseEnvelope, VerifiedProvenance, dsse_pae, decode_authenticated_parts, verify_for_capsule,
}

module _ (crypto : Crypto) where
  -- The key is a trusted one that is not revoked, and one of the signatures verifies under it.
  pub record Counts (p : TrustPolicy) (now : ℕ) (message : Bytes) (signatures : List Bytes)
      (name : Bytes) (key : TrustedKey) : Type 0 where
    pub named : key.name ≡ name
    pub unrevoked : key_is_revoked crypto p key now ≡ false
    pub verifying_key : crypto.VerifyingKey
    pub is_key : crypto.key_from_bytes key.public_key ≡ some verifying_key
    pub signed :
        Any
          (λ bytes.
            (s : crypto.Signature) × (crypto.signature_from_bytes bytes ≡ some s)
            × (crypto.verify_strict verifying_key message s ≡ true))
          signatures

  module _ (p : TrustPolicy) (now : ℕ) (message : Bytes) (signatures : List Bytes) where
    verifies_sound :
        (k : crypto.VerifyingKey) (bytes : Bytes)
        → raw_signature_verifies crypto k message bytes ≡ true
        → (s : crypto.Signature) × (crypto.signature_from_bytes bytes ≡ some s)
          × (crypto.verify_strict k message s ≡ true)
    unfolding raw_signature_verifies
    verifies_sound k bytes h = elim (Option-cases (crypto.signature_from_bytes bytes)) [
      | inl e ↦ absurd (ground (arith, e, h))
      | inr (s, e) ↦ (s, e, ground (arith, e, h))
    ]

    count_one :
        (key : TrustedKey) (keys : List TrustedKey) (names : List Bytes)
        → key_is_revoked crypto p key now ≡ false
        → ((k : crypto.VerifyingKey) × (crypto.key_from_bytes key.public_key ≡ some k))
        → ((rest : List Bytes) × (match_raw_signers crypto p now message signatures keys ≡ ok rest))
          ⊎ ((f : TrustPolicyError) × (match_raw_signers crypto p now message signatures keys
                ≡ err f))
        → match_raw_signers crypto p now message signatures (key ∷ keys) ≡ ok names
        → (match_raw_signers crypto p now message signatures keys ≡ ok names)
          ⊎ ((rest : List Bytes) × (match_raw_signers crypto p now message signatures keys
                ≡ ok rest)
              × (names ≡ key.name ∷ rest)
              × Counts p now message signatures key.name key)
    unfolding match_raw_signers
    count_one key keys names e (k, hk) (inr (f, hf)) h = absurd (ground (arith, e, hk, hf, h))
    count_one key keys names e (k, hk) (inl (rest, hr)) h =
        elim (Bool-cases (any (raw_signature_verifies crypto k message) signatures)) [
          | inl t ↦ inr (
            rest,
            hr,
            ground (arith, e, hk, hr, t, h),
            record {
              named = refl;
              unrevoked = e;
              verifying_key = k;
              is_key = hk;
              signed =
                  any_sound (raw_signature_verifies crypto k message) (verifies_sound k) signatures
                    t;
            },
          )
          | inr t ↦ inl (ground (arith, e, hk, hr, t, h))
        ]

    -- One round of the loop: the key is passed over, or it counts.
    match_raw_signers-cons :
        (key : TrustedKey) (keys : List TrustedKey) (names : List Bytes)
        → match_raw_signers crypto p now message signatures (key ∷ keys) ≡ ok names
        → (match_raw_signers crypto p now message signatures keys ≡ ok names)
          ⊎ ((rest : List Bytes) × (match_raw_signers crypto p now message signatures keys
                ≡ ok rest)
              × (names ≡ key.name ∷ rest)
              × Counts p now message signatures key.name key)
    unfolding match_raw_signers
    match_raw_signers-cons key keys names h = elim (Bool-cases (key_is_revoked crypto p key now)) [
      | inl e ↦ inl (ground (arith, e, h))
      | inr e ↦
          count_one key keys names e
            (some_of_ne_none (crypto.key_from_bytes key.public_key) (ground (arith, e, h)))
            (Result-cases (match_raw_signers crypto p now message signatures keys)) h
    ]

    match_raw_signers-nil :
        (names : List Bytes)
        → match_raw_signers crypto p now message signatures [] ≡ ok names
        → [] ≡ names
    unfolding match_raw_signers
    match_raw_signers-nil names h = ok-injective h

    match_raw_signers_sound :
        (keys : List TrustedKey) (names : List Bytes)
        → match_raw_signers crypto p now message signatures keys ≡ ok names
        → All (λ n. Any (Counts p now message signatures n) keys) names
    match_raw_signers_sound [] names h =
        subst (All (λ n. Any (Counts p now message signatures n) []))
          (match_raw_signers-nil names h) tt
    match_raw_signers_sound (key ∷ keys) names h = elim (match_raw_signers-cons key keys names h) [
      | inl h' ↦ All-map (λ n. inr) names (match_raw_signers_sound keys names h')
      | inr (rest, h', e, c) ↦
          subst (All (λ n. Any (Counts p now message signatures n) (key ∷ keys))) (sym e)
            (inl c, All-map (λ n. inr) rest (match_raw_signers_sound keys rest h'))
    ]

    match_raw_signers-contains :
        (keys : List TrustedKey) (names : List Bytes) (n : Bytes)
        → match_raw_signers crypto p now message signatures keys ≡ ok names
        → contains (key_names keys) n ≡ false
        → contains names n ≡ false
    unfolding contains
    match_raw_signers-contains [] names n h _ =
        subst (λ ns. contains ns n ≡ false) (match_raw_signers-nil names h) refl
    match_raw_signers-contains (key ∷ keys) names n h absent =
        elim (match_raw_signers-cons key keys names h) [
          | inl h' ↦ match_raw_signers-contains keys names n h' (ground (arith, absent))
          | inr (rest, h', e, _) ↦
              rw e (ground (arith, absent, match_raw_signers-contains keys rest n h'))
        ]

    match_raw_signers-Distinct :
        (keys : List TrustedKey) (names : List Bytes)
        → match_raw_signers crypto p now message signatures keys ≡ ok names
        → Distinct (key_names keys)
        → Distinct names
    match_raw_signers-Distinct [] names h _ = subst Distinct (match_raw_signers-nil names h) tt
    match_raw_signers-Distinct (key ∷ keys) names h (absent, distinct) =
        elim (match_raw_signers-cons key keys names h) [
          | inl h' ↦ match_raw_signers-Distinct keys names h' distinct
          | inr (rest, h', e, _) ↦ subst Distinct (sym e) (
            match_raw_signers-contains keys rest key.name h' absent,
            match_raw_signers-Distinct keys rest h' distinct,
          )
        ]

-- Enough distinct keys of a well-formed policy in its window count.
pub record IsTrusted (crypto : Crypto) (now : ℕ) (message : Bytes) (signatures : List Bytes)
    (p : TrustPolicy) (names : List Bytes) : Type 0 where
  pub policy_well_formed : IsWellFormed crypto p
  pub in_window : InWindow p now
  pub counted : All (λ n. Any (Counts crypto p now message signatures n) p.trusted_keys) names
  pub counted_once : Distinct names
  pub enough : p.minimum_signatures ≤ length names

verify_raw_sound :
    (crypto : Crypto) (policies : Json TrustPolicy) (now : ℕ) (message : Bytes)
    (signatures : List Bytes) (p : TrustPolicy) (d : TrustDecision)
    → verify_raw_ed25519_signatures crypto policies (some now) p message signatures ≡ ok d
    → IsTrusted crypto now message signatures p d.matched_signers
unfolding verify_raw_ed25519_signatures
verify_raw_sound crypto policies now message signatures p d h =
    let (valid, h) = >>-eq-ok (validate crypto p) _ h in
    let (timely, h) = >>-eq-ok (validate_at_unix_seconds crypto p now) _ h in
    let (_, h) = >>-eq-ok (validate_signature_count (length signatures)) _ h in
    let (_, h) = >>-eq-ok (check_signature_lengths signatures) _ h in
    let (names, hn, h) =
      >>=-eq-ok (match_raw_signers crypto p now message signatures p.trusted_keys) _ h in
    let (enough, _, e) = finish_decision_sound crypto policies p names d h in
    let w = (validate_iff crypto p).0 valid in
    rw (ap (λ (x : TrustDecision). x.matched_signers) e) (record {
      policy_well_formed = w;
      in_window = validate_at_sound crypto policies p now w timely;
      counted = match_raw_signers_sound crypto p now message signatures p.trusted_keys names hn;
      counted_once =
          match_raw_signers-Distinct crypto p now message signatures p.trusted_keys names hn
            w.named_once;
      enough = enough;
    })

module _ (crypto : Crypto) (base64 : Base64) (values : JsonValues)
    (json : Json (ProvenanceStatement values.Value)) (policies : Json TrustPolicy) where
  -- The decoded parts of the envelope, the policy, and the statement are related as verification
  -- is meant to relate them.
  pub record IsAuthentic (now : ℕ) (envelope : DsseEnvelope) (capsule_bytes : Bytes)
      (p : TrustPolicy) (v : VerifiedProvenance values.Value) : Type 0 where
    pub payload : Bytes
    pub signatures : List Bytes
    pub decoded : decode_authenticated_parts base64 envelope ≡ ok (payload, signatures)
    pub trusted :
        IsTrusted crypto now
          (dsse_pae envelope.payload_type payload)
          signatures
          p
          v.trust.matched_signers
    pub parsed : from_json {Trust = TrustPolicyError} values json payload ≡ ok v.statement
    pub about_capsule : matches_capsule crypto v.statement capsule_bytes ≡ true

  -- Provenance that is verified for a capsule has enough distinct signers: each is an unrevoked key
  -- of a well-formed policy that is in its window, under which one of the envelope's signatures verifies over the encoding
  -- of the payload type with the decoded payload, and the statement is what this payload parses to
  -- and has the capsule's digest.
  pub verify_for_capsule_sound :
      (now : ℕ) (envelope : DsseEnvelope) (capsule_bytes : Bytes) (p : TrustPolicy)
      (v : VerifiedProvenance values.Value)
      → verify_for_capsule crypto base64 values json policies (some now) envelope capsule_bytes p
        ≡ ok v
      → IsAuthentic now envelope capsule_bytes p v
  unfolding verify_for_capsule
  verify_for_capsule_sound now envelope capsule_bytes p v h =
      let ((payload, signatures), hd, h) =
        >>=-eq-ok (decode_authenticated_parts base64 envelope) _ h in
      let message = dsse_pae envelope.payload_type payload in
      let (trust, ht, h) =
        >>=-eq-ok
          (map_err trust_failed
            (verify_raw_ed25519_signatures crypto policies (some now) p message signatures))
          _ h in
      let (statement, hs, h) = >>=-eq-ok (from_json values json payload) _ h in
      let (hm, h) =
        reject-eq-ok (not (matches_capsule crypto statement capsule_bytes)) subject_mismatch _ h in
      let trusted =
        verify_raw_sound crypto policies now message signatures p trust
          (map_err-eq-ok trust_failed _ ht) in
      let e = sym (ok-injective h) in
      rw e (record {
        payload = payload;
        signatures = signatures;
        decoded = hd;
        trusted = trusted;
        parsed = hs;
        about_capsule = not-eq-false _ hm;
      })
