-- ===== src/Provenance/Accepted.antt =====
-- src/provenance.rs: provenance that every key of a policy has signed is verified.
use sci_capsule.Prelude.{
  ℕ, ◌≡◌, refl, inl, inr, true, false, not, some, List, [], ◌∷◌, Bytes, arith, length, le→ltb,
  count_if, Any, All, any, ok,
}
use sci_capsule.Crypto.{Crypto, IsLawful, Decodes, Json, Base64}
use sci_capsule.Trust.{
  TrustPolicy, TrustPolicyError, TrustedKey, TrustDecision, validate_signature_count,
}
use sci_capsule.Trust.WellFormed.Policy.{IsWellFormed, IsTrustedKey, key_names, validate_iff}
use sci_capsule.Trust.Threshold.{InWindow, validate_at_complete}
use sci_capsule.Trust.Verify.{
  key_is_revoked, match_raw_signers, raw_signature_verifies, check_signature_lengths,
  finish_decision, verify_raw_ed25519_signatures, policy_digest,
}
use sci_capsule.Provenance.{JsonValues, ProvenanceStatement, from_json, matches_capsule}
use sci_capsule.Provenance.Envelope.{DsseEnvelope, dsse_pae, sign_statement, verify_for_capsule}
use sci_capsule.Provenance.Signed.{SignedBy, decode-sign_statement, sign_statement-count}

module _ (crypto : Crypto) where
  -- One of the private keys belongs to the trusted key.
  abbrev pub HasSigner : List Bytes → TrustedKey → Type 0
  HasSigner pems key =
      Any
        (λ pem.
          (k : crypto.SigningKey) × (crypto.signing_key_from_pem pem ≡ some k)
          × (key.public_key ≡ crypto.key_to_bytes (crypto.public_key k)))
        pems

  any-SignedBy :
      (lawful : IsLawful crypto) (message : Bytes) (pems raws : List Bytes) (key : TrustedKey)
      (v : crypto.VerifyingKey)
      → crypto.key_from_bytes key.public_key ≡ some v
      → SignedBy crypto message pems raws
      → HasSigner pems key
      → any (raw_signature_verifies crypto v message) raws ≡ true
  unfolding SignedBy any
  any-SignedBy lawful message [] [] key v hv _ h = elim h [ ]
  any-SignedBy lawful message [] (raw ∷ raws) key v hv s h = elim s [ ]
  any-SignedBy lawful message (pem ∷ pems) [] key v hv s h = elim s [ ]
  any-SignedBy lawful message (pem ∷ pems) (raw ∷ raws) key v hv ((k, hk, _, ok'), _)
        (inl (k', hk', e)) =
      let read = lawful.key_from_bytes-key_to_bytes (crypto.public_key k') in
      let same : k ≡ k' = cc in
      let same_key : v ≡ crypto.public_key k = cc in rw (same_key, ok') refl
  any-SignedBy lawful message (pem ∷ pems) (raw ∷ raws) key v hv (_, s) (inr h) =
      ground (arith, any-SignedBy lawful message pems raws key v hv s h)

  check-SignedBy :
      (message : Bytes) (pems raws : List Bytes)
      → SignedBy crypto message pems raws
      → (check_signature_lengths raws ≡ ok tt) × (length raws ≡ length pems)
  unfolding SignedBy check_signature_lengths
  check-SignedBy message [] [] _ = (refl, refl)
  check-SignedBy message [] (raw ∷ raws) s = elim s [ ]
  check-SignedBy message (pem ∷ pems) [] s = elim s [ ]
  check-SignedBy message (pem ∷ pems) (raw ∷ raws) ((k, hk, fits, _), s) =
      ground (arith, fits, check-SignedBy message pems raws s)

  match_raw_signers-all :
      (lawful : IsLawful crypto) (p : TrustPolicy) (now : ℕ) (message : Bytes)
      (pems raws : List Bytes) (keys : List TrustedKey)
      → SignedBy crypto message pems raws
      → All (IsTrustedKey crypto) keys
      → All (λ key. key_is_revoked crypto p key now ≡ false) keys
      → All (HasSigner pems) keys
      → match_raw_signers crypto p now message raws keys ≡ ok (key_names keys)
  unfolding match_raw_signers
  match_raw_signers-all lawful p now message pems raws [] s _ _ _ = refl
  match_raw_signers-all lawful p now message pems raws (key ∷ keys) s (t, ts) (u, us) (h, hs) =
      ground (
        arith,
        t.key_fits,
        t.is_key,
        u,
        any-SignedBy lawful message pems raws key t.verifying_key t.is_key s h,
        match_raw_signers-all lawful p now message pems raws keys s ts us hs,
      )

  count_if-all :
      (p : TrustPolicy) (now : ℕ) (keys : List TrustedKey)
      → All (λ key. key_is_revoked crypto p key now ≡ false) keys
      → count_if (λ key. not (key_is_revoked crypto p key now)) keys ≡ length keys
  unfolding count_if
  count_if-all p now [] _ = refl
  count_if-all p now (key ∷ keys) (u, us) = ground (arith, u, count_if-all p now keys us)

  length-key_names : (keys : List TrustedKey) → length (key_names keys) ≡ length keys
  length-key_names [] = refl
  length-key_names (key ∷ keys) = omega (arith, length-key_names keys)

module _ (crypto : Crypto) (lawful : IsLawful crypto) (base64 : Base64) (decodes : Decodes base64)
    (values : JsonValues) (json : Json (ProvenanceStatement values.Value))
    (policies : Json TrustPolicy) where
  -- The decision where every key of the policy counts.
  abbrev pub full_decision : TrustPolicy → Bytes → TrustDecision
  full_decision p digest = record {
    required_signatures = p.minimum_signatures;
    matched_signers = key_names p.trusted_keys;
    policy_digest = digest;
    policy_version = p.version;
    policy_id = p.policy_id;
    policy_revision = p.revision;
  }

  verify_raw-all :
      (now : ℕ) (message : Bytes) (pems raws : List Bytes) (p : TrustPolicy) (digest : Bytes)
      → SignedBy crypto message pems raws
      → validate_signature_count (length pems) ≡ ok tt
      → IsWellFormed crypto p
      → InWindow p now
      → All (λ key. key_is_revoked crypto p key now ≡ false) p.trusted_keys
      → All (HasSigner crypto pems) p.trusted_keys
      → policy_digest crypto policies p ≡ ok digest
      → verify_raw_ed25519_signatures crypto policies (some now) p message raws
        ≡ ok (full_decision p digest)
  unfolding verify_raw_ed25519_signatures finish_decision
  verify_raw-all now message pems raws p digest s count w timely unrevoked signers d =
      let (lengths, same) = check-SignedBy crypto message pems raws s in
      let active = count_if-all crypto p now p.trusted_keys unrevoked in
      let named = length-key_names crypto p.trusted_keys in
      rw
        (
          (validate_iff crypto p).1 w,
          validate_at_complete crypto policies p now timely (omega (arith, active, w.can_meet)),
          same,
          count,
          lengths,
          match_raw_signers-all crypto lawful p now message pems raws p.trusted_keys s w.keys
              unrevoked signers,
          le→ltb (length (key_names p.trusted_keys)) p.minimum_signatures
              (omega (arith, named, w.can_meet)),
          d,
        )
        refl

  -- With lawful primitives: a statement about the capsule that is signed with a private key for
  -- each key of a well-formed policy, none of them revoked, is verified inside the policy's
  -- window, where the policy's digest can be computed: the result is the statement and the
  -- decision in which every key of the policy counts.
  pub verify-sign_statement :
      (now : ℕ) (statement_bytes : Bytes) (pems : List Bytes) (envelope : DsseEnvelope)
      (capsule_bytes : Bytes) (p : TrustPolicy) (statement : ProvenanceStatement values.Value)
      (digest : Bytes)
      → sign_statement crypto base64 values json statement_bytes pems ≡ ok envelope
      → from_json {Trust = TrustPolicyError} values json statement_bytes ≡ ok statement
      → matches_capsule crypto statement capsule_bytes ≡ true
      → IsWellFormed crypto p
      → InWindow p now
      → All (λ key. key_is_revoked crypto p key now ≡ false) p.trusted_keys
      → All (HasSigner crypto pems) p.trusted_keys
      → policy_digest crypto policies p ≡ ok digest
      → verify_for_capsule crypto base64 values json policies (some now) envelope capsule_bytes p
        ≡ ok (record { statement = statement; trust = full_decision p digest })
  unfolding verify_for_capsule
  verify-sign_statement now statement_bytes pems envelope capsule_bytes p statement digest h parsed
        about w timely unrevoked signers d =
      let (raws, decoded, s) =
        decode-sign_statement crypto lawful base64 decodes values json statement_bytes pems envelope
          h in
      let count =
        sign_statement-count crypto lawful base64 decodes values json statement_bytes pems envelope
          h in
      rw
        (
          decoded,
          verify_raw-all now (dsse_pae envelope.payload_type statement_bytes) pems raws p digest s
              count w timely unrevoked signers d,
          parsed,
          about,
        )
        refl
