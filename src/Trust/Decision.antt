-- ===== src/Trust/Decision.antt =====
-- What a successful verification of src/trust.rs means: who signed, and under which policy.
use sci_capsule.Prelude.{
  ℕ, ◌≤◌, ◌≡◌, ◌↔◌, inl, inr, true, List, [], ◌∷◌, Bytes, arith, Any, any_sound, any_complete,
  Bool-cases, Result, ok, err, nat_eq, list_eq, eq_iff, is_ok,
}
use sci_capsule.Crypto.{Crypto}
use sci_capsule.Signature.{SignatureEnvelope, verify_capsule_signature_with_public_key_bytes}
use sci_capsule.Trust.{TrustPolicy, TrustedKey, RevokedKey}
use sci_capsule.Trust.Verify.{public_key_digest, key_is_revoked, key_matches, match_signers}

module _ (crypto : Crypto) where
  -- An entry of the revocation list names the key's fingerprint, at a time that has come.
  abbrev pub IsRevoked : TrustPolicy → ℕ → TrustedKey → Type 0
  IsRevoked p now key =
      Any
        (λ (r : RevokedKey).
          (r.public_key_sha256 ≡ public_key_digest crypto key.public_key)
          × (r.revoked_at_unix_seconds ≤ now))
        p.revoked_keys

  pub key_is_revoked_iff :
      (p : TrustPolicy) (now : ℕ) (key : TrustedKey)
      → (key_is_revoked crypto p key now ≡ true) ↔ IsRevoked p now key
  unfolding key_is_revoked
  key_is_revoked_iff p now key =
      let fingerprint = public_key_digest crypto key.public_key in
      (
        any_sound _ (λ (r : RevokedKey) h. ground (arith, eq_iff r.public_key_sha256 fingerprint))
            p.revoked_keys,
        any_complete _
            (λ (r : RevokedKey) h. ground (arith, eq_iff r.public_key_sha256 fingerprint))
            p.revoked_keys,
      )

  -- One of the signatures verifies under the key.
  abbrev pub HasSigned : Bytes → List SignatureEnvelope → TrustedKey → Type 0
  HasSigned capsule_bytes signatures key =
      Any
        (λ s.
          verify_capsule_signature_with_public_key_bytes crypto capsule_bytes s key.public_key
          ≡ ok tt)
        signatures

  is_ok_iff {ℓ} : {E : Type ℓ} (r : Result E (Unit {0})) → (is_ok r ≡ true) ↔ (r ≡ ok tt)
  is_ok_iff (ok tt) = ground arith
  is_ok_iff (err e) = (λ h. cc, λ h. cc)

  pub key_matches_iff :
      (capsule_bytes : Bytes) (signatures : List SignatureEnvelope) (key : TrustedKey)
      → (key_matches crypto capsule_bytes signatures key ≡ true)
        ↔ HasSigned capsule_bytes signatures key
  unfolding key_matches
  key_matches_iff capsule_bytes signatures key = (
    any_sound _ (λ s. (is_ok_iff _).0) signatures,
    any_complete _ (λ s. (is_ok_iff _).1) signatures,
  )

  -- A trusted key that is not revoked, has signed, and has the name.
  abbrev pub IsSigner : TrustPolicy → ℕ → Bytes → List SignatureEnvelope → TrustedKey → Type 0
  IsSigner p now capsule_bytes signatures key =
      (¬ IsRevoked p now key) × HasSigned capsule_bytes signatures key

  -- The matched names stand for distinct positions of the list of keys.
  pub data Signers (p : TrustPolicy) (now : ℕ) (capsule_bytes : Bytes)
      (signatures : List SignatureEnvelope) : List TrustedKey → List Bytes → Type 0 where
    none_left : Signers p now capsule_bytes signatures [] []
    counted :
        {key : TrustedKey} {keys : List TrustedKey} {names : List Bytes}
        → IsSigner p now capsule_bytes signatures key
        → Signers p now capsule_bytes signatures keys names
        → Signers p now capsule_bytes signatures (key ∷ keys) (key.name ∷ names)
    passed :
        {key : TrustedKey} {keys : List TrustedKey} {names : List Bytes}
        → ¬ IsSigner p now capsule_bytes signatures key
        → Signers p now capsule_bytes signatures keys names
        → Signers p now capsule_bytes signatures (key ∷ keys) names

  pub Signers-match_signers :
      (p : TrustPolicy) (now : ℕ) (capsule_bytes : Bytes) (signatures : List SignatureEnvelope)
      (keys : List TrustedKey)
      → Signers p now capsule_bytes signatures keys
          (match_signers crypto p now capsule_bytes signatures keys)
  unfolding match_signers
  Signers-match_signers p now capsule_bytes signatures [] = none_left
  Signers-match_signers p now capsule_bytes signatures (key ∷ keys) =
      let rest = Signers-match_signers p now capsule_bytes signatures keys in
      let revoked = key_is_revoked_iff p now key in
      let matches = key_matches_iff capsule_bytes signatures key in
      elim (Bool-cases (key_is_revoked crypto p key now)) [
        | inl r ↦ rw r (passed (λ s. s.0 (revoked.0 r)) rest)
        | inr r ↦ elim (Bool-cases (key_matches crypto capsule_bytes signatures key)) [
          | inl m ↦ rw (r, m) (counted (λ h. cc (revoked.1 h), matches.0 m) rest)
          | inr m ↦ rw (r, m) (passed (λ s. cc (matches.1 s.1)) rest)
        ]
      ]
