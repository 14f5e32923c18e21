-- ===== src/Trust/Revocation.antt =====
-- Revocation in src/trust.rs: a revoked key never counts, and time only takes signers away.
use sci_capsule.Prelude.{
  ℕ, ◌≤◌, ◌≡◌, inl, inr, refl, true, false, List, [], ◌∷◌, Bytes, arith, length, Any, contains,
  Distinct, ok, nat_eq, list_eq, eq_iff, eq_refl,
}
use sci_capsule.Crypto.{Crypto, Json}
use sci_capsule.Signature.{SignatureEnvelope}
use sci_capsule.Trust.{TrustPolicy, TrustedKey, TrustDecision, RevokedKey}
use sci_capsule.Trust.Verify.{verify_at_unix_seconds, match_signers, public_key_digest}
use sci_capsule.Trust.WellFormed.Policy.{key_names}
use sci_capsule.Trust.Decision.{
  IsRevoked, Signers, none_left, counted, passed, Signers-match_signers,
}
use sci_capsule.Trust.Threshold.{
  InWindow, verify_at_unix_seconds_iff, Signers-contains, Signers-Distinct,
}
use sci_capsule.Trust.Repeats.{Occurs}

IsRevoked-later :
    (crypto : Crypto) (p : TrustPolicy) (now later : ℕ) (key : TrustedKey)
    → now ≤ later
    → IsRevoked crypto p now key
    → IsRevoked crypto p later key
IsRevoked-later crypto p now later key le = go p.revoked_keys
  where
    go :
        (rs : List RevokedKey)
        → Any
            (λ (r : RevokedKey).
              (r.public_key_sha256 ≡ public_key_digest crypto key.public_key)
              × (r.revoked_at_unix_seconds ≤ now))
            rs
        → Any
            (λ (r : RevokedKey).
              (r.public_key_sha256 ≡ public_key_digest crypto key.public_key)
              × (r.revoked_at_unix_seconds ≤ later))
            rs
    go [] h = elim h [ ]
    go (r ∷ rs) (inl (e, t)) = inl (e, omega arith)
    go (r ∷ rs) (inr h) = inr (go rs h)

module _ (crypto : Crypto) (p : TrustPolicy) (capsule_bytes : Bytes)
    (signatures : List SignatureEnvelope) where
  module _ (now later : ℕ) (le : now ≤ later) where
    Signers-earlier :
        {keys : List TrustedKey} {names names' : List Bytes}
        → Signers crypto p later capsule_bytes signatures keys names'
        → Signers crypto p now capsule_bytes signatures keys names
        → (length names' ≤ length names)
          × ((n : Bytes) → contains names' n ≡ true → contains names n ≡ true)
    unfolding contains
    Signers-earlier none_left none_left = (omega arith, λ n h. h)
    Signers-earlier (counted s r) (counted s' r') =
        let (le, sub) = Signers-earlier r r' in (omega arith, λ n h. ground (arith, sub n))
    Signers-earlier (counted {key = k} s r) (passed n r') =
        absurd (n (λ h. s.0 (IsRevoked-later crypto p now later k le h), s.1))
    Signers-earlier (passed s r) (counted s' r') =
        let (le, sub) = Signers-earlier r r' in (omega arith, λ n h. ground (arith, sub n))
    Signers-earlier (passed s r) (passed s' r') = Signers-earlier r r'

  contains-key_names :
      (key : TrustedKey) (keys : List TrustedKey)
      → Occurs key keys
      → contains (key_names keys) key.name ≡ true
  unfolding contains
  contains-key_names key [] h = elim h [ ]
  contains-key_names key (k ∷ keys) (inl h) = rw (h, eq_refl key.name)
  contains-key_names key (k ∷ keys) (inr h) = ground (arith, contains-key_names key keys h)

  Signers-revoked :
      (now : ℕ) (key : TrustedKey) {keys : List TrustedKey} {names : List Bytes}
      → Signers crypto p now capsule_bytes signatures keys names
      → Distinct (key_names keys)
      → Occurs key keys
      → IsRevoked crypto p now key
      → contains names key.name ≡ false
  unfolding contains
  Signers-revoked now key none_left d o r = refl
  Signers-revoked now key (counted {key = k} {keys = ks} s rest) (fresh, d) (inl e) r =
      absurd (s.0 (rw e r))
  Signers-revoked now key (counted {key = k} {keys = ks} s rest) (fresh, d) (inr o) r = ground (
    arith,
    Signers-revoked now key rest d o r,
    contains-key_names key ks o,
    eq_iff k.name key.name,
  )
  Signers-revoked now key (passed {key = k} s rest) (fresh, d) (inl e) r =
      rw (← e) (Signers-contains crypto p now capsule_bytes signatures k.name rest fresh)
  Signers-revoked now key (passed s rest) (fresh, d) (inr o) r = Signers-revoked now key rest d o r

  module _ (json : Json TrustPolicy) where
    -- In a successful verification the name of a revoked trusted key is not among the matched
    -- signers, whatever was signed.
    pub revoked_key_never_counts :
        (now : ℕ) (d : TrustDecision) (key : TrustedKey)
        → verify_at_unix_seconds crypto json p capsule_bytes signatures now ≡ ok d
        → Occurs key p.trusted_keys
        → IsRevoked crypto p now key
        → contains d.matched_signers key.name ≡ false
    revoked_key_never_counts now d key h o r =
        let a = (verify_at_unix_seconds_iff crypto json p now capsule_bytes signatures d).0 h in
        Signers-revoked now key a.signers a.well_formed.named_once o r

    -- If a policy authorizes at a later time, it authorized at each earlier time of its validity
    -- window, with all the signers of the later decision.
    pub authorized_earlier :
        (now later : ℕ) (d : TrustDecision)
        → now ≤ later
        → InWindow p now
        → verify_at_unix_seconds crypto json p capsule_bytes signatures later ≡ ok d
        → (d' : TrustDecision) × (verify_at_unix_seconds crypto json p capsule_bytes signatures now
            ≡ ok d')
          × ((n : Bytes)
              → contains d.matched_signers n ≡ true
              → contains d'.matched_signers n ≡ true)
    authorized_earlier now later d le w h =
        let a = (verify_at_unix_seconds_iff crypto json p later capsule_bytes signatures d).0 h in
        let s = Signers-match_signers crypto p now capsule_bytes signatures p.trusted_keys in
        let (fewer, sub) = Signers-earlier now later le a.signers s in
        let d' : TrustDecision = record d {
          matched_signers = match_signers crypto p now capsule_bytes signatures p.trusted_keys;
        } in
        (
          d',
          (verify_at_unix_seconds_iff crypto json p now capsule_bytes signatures d').1 (record {
            well_formed = a.well_formed;
            in_window = w;
            has_signature = a.has_signature;
            signatures_fit = a.signatures_fit;
            signers = s;
            enough = omega (arith, a.enough);
            named_once =
                Signers-Distinct crypto p now capsule_bytes signatures s a.well_formed.named_once;
            requires = a.requires;
            digest = a.digest;
            version = a.version;
            policy_id = a.policy_id;
            revision = a.revision;
          }),
          sub,
        )
