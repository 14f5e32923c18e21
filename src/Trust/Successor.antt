-- ===== src/Trust/Successor.antt =====
-- `update_from_named_pem_keys` of src/trust.rs: the next revision, linked to the current one.
use sci_capsule.Prelude.{
  ℕ, ◌+◌, ◌≤◌, ◌≡◌, refl, not, some, List, [], Bytes, All, ok, >>=-eq-ok, >>-eq-ok, ok-injective,
  reject-eq-ok, require-eq-ok, sym, ap, ◌∙◌, ltb→le, not-eq-false, checked_add-eq-some, nat_eq,
  list_eq, eq_iff, ◌==◌, checked_add, u64_max, ltb,
}
use sci_capsule.Crypto.{Crypto, Json}
use sci_capsule.Trust.{
  TrustPolicy, RevokedKey, current_digest_mismatch, update_requires_v2, expect_failed,
  successor_precedes, revision_overflow,
}
use sci_capsule.Trust.Validate.{validate}
use sci_capsule.Trust.Verify.{enforces_lifecycle, policy_digest}
use sci_capsule.Trust.Update.{
  from_named_pem_keys, from_named_pem_keys_v2, revoke_names, link_successor,
  update_from_named_pem_keys,
}
use sci_capsule.Trust.WellFormed.Policy.{IsWellFormed, validate_iff}
use sci_capsule.Trust.Repeats.{Occurs}
use sci_capsule.Trust.Revoking.{OldOrAt, NameRevoked, revoke_names_sound, revoke_names-OldOrAt}

module _ (crypto : Crypto) where
  pub record IsCreated (id : Bytes) (from until minimum : ℕ) (p : TrustPolicy) : Type 0 where
    pub is_v2 : p.version ≡ 2
    pub has_id : p.policy_id ≡ some id
    pub first : p.revision ≡ some 1
    pub has_from : p.valid_from_unix_seconds ≡ some from
    pub has_until : p.valid_until_unix_seconds ≡ some until
    pub requires : p.minimum_signatures ≡ minimum
    pub none_revoked : p.revoked_keys ≡ []
    pub well_formed : validate crypto p ≡ ok tt

  pub from_named_pem_keys_v2-IsCreated :
      (id : Bytes) (from until minimum : ℕ) (keys : List (Bytes × Bytes)) (p : TrustPolicy)
      → from_named_pem_keys_v2 crypto id from until minimum keys ≡ ok p
      → IsCreated id from until minimum p
  unfolding from_named_pem_keys_v2
  from_named_pem_keys_v2-IsCreated id from until minimum keys p h =
      let (legacy, _, h1) = >>=-eq-ok (from_named_pem_keys crypto minimum keys) _ h in
      let (valid, h2) = >>-eq-ok _ _ h1 in
      let e : _ ≡ p = ok-injective h2 in
      rw (← e) (record {
        is_v2 = refl;
        has_id = refl;
        first = refl;
        has_from = refl;
        has_until = refl;
        requires = refl;
        none_revoked = refl;
        well_formed = valid;
      })

  -- The policy `n` takes up where the policy `p` with the digest `digest` ends.
  pub record IsLinked (p : TrustPolicy) (digest : Bytes) (from until minimum : ℕ)
      (revoked_names : List Bytes) (n : TrustPolicy) : Type 0 where
    pub well_formed : IsWellFormed crypto n
    pub is_v2 : n.version ≡ 2
    pub same_id : n.policy_id ≡ p.policy_id
    pub revision : ℕ
    pub had_revision : p.revision ≡ some revision
    pub has_revision : n.revision ≡ some (revision + 1)
    pub no_overflow : revision + 1 ≤ u64_max
    pub linked : n.previous_policy_sha256 ≡ some digest
    pub start : ℕ
    pub had_from : p.valid_from_unix_seconds ≡ some start
    pub has_from : n.valid_from_unix_seconds ≡ some from
    pub has_until : n.valid_until_unix_seconds ≡ some until
    pub not_before : start ≤ from
    pub requires : n.minimum_signatures ≡ minimum
    pub carried : (r : RevokedKey) → Occurs r p.revoked_keys → Occurs r n.revoked_keys
    pub dated : (r : RevokedKey) → Occurs r n.revoked_keys → OldOrAt from p.revoked_keys r
    pub revokes : All (NameRevoked crypto p.trusted_keys n.revoked_keys) revoked_names

  link_successor-IsLinked :
      (p : TrustPolicy) (digest : Bytes) (from until minimum : ℕ) (keys : List (Bytes × Bytes))
      (revoked_names : List Bytes) (n : TrustPolicy)
      → link_successor crypto p digest from until minimum keys revoked_names ≡ ok n
      → IsLinked p digest from until minimum revoked_names n
  unfolding link_successor
  link_successor-IsLinked p digest from until minimum keys revoked_names n h =
      let (start, had_from, h5) = require-eq-ok p.valid_from_unix_seconds expect_failed _ h in
      let (not_before, h6) = reject-eq-ok (ltb from start) (successor_precedes from start) _ h5 in
      let (id, had_id, h7) = require-eq-ok p.policy_id expect_failed _ h6 in
      let (base, made, h8) =
        >>=-eq-ok (from_named_pem_keys_v2 crypto id from until minimum keys) _ h7 in
      let (revision, had_revision, h9) = require-eq-ok p.revision expect_failed _ h8 in
      let (next_revision, advanced, h10) =
        require-eq-ok (checked_add revision 1) revision_overflow _ h9 in
      let (revoked, revoking, h11) =
        >>=-eq-ok (revoke_names crypto p.trusted_keys from [] revoked_names p.revoked_keys) _ h10 in
      let next : TrustPolicy = record base {
        revision = some next_revision;
        previous_policy_sha256 = some digest;
        revoked_keys = revoked;
      } in
      let (valid, h12) = >>-eq-ok (validate crypto next) (ok next) h11 in
      let b = from_named_pem_keys_v2-IsCreated id from until minimum keys base made in
      let (carried, revokes) =
        revoke_names_sound crypto p.trusted_keys from [] revoked_names p.revoked_keys revoked
          revoking in
      let e : next ≡ n = ok-injective h12 in
      let (advanced_by, fits) = checked_add-eq-some revision 1 next_revision advanced in
      rw (← e) (record {
        well_formed = (validate_iff crypto next).0 valid;
        is_v2 = b.is_v2;
        same_id = b.has_id ∙ sym had_id;
        revision = revision;
        had_revision = had_revision;
        has_revision = ap some advanced_by;
        no_overflow = fits;
        linked = refl;
        start = start;
        had_from = had_from;
        has_from = b.has_from;
        has_until = b.has_until;
        not_before = ltb→le from start not_before;
        requires = b.requires;
        carried = carried;
        dated = λ r o.
            revoke_names-OldOrAt crypto p.trusted_keys from [] revoked_names p.revoked_keys revoked
              r revoking o;
        revokes = revokes;
      })

module _ (crypto : Crypto) (json : Json TrustPolicy) where
  -- The next revision of the policy `p`, whose digest was expected.
  pub record IsSuccessor (p : TrustPolicy) (expected : Bytes) (from until minimum : ℕ)
      (revoked_names : List Bytes) (n : TrustPolicy) : Type 0 where
    pub was_well_formed : IsWellFormed crypto p
    pub was_v2 : p.version ≡ 2
    pub is_current : policy_digest crypto json p ≡ ok expected
    pub link : IsLinked crypto p expected from until minimum revoked_names n

  -- A successful update gives the next revision: both policies are well formed version 2 policies
  -- with one identity, the revision grows by one without overflow, the expected digest is the
  -- current policy's and is the link to it, the start does not move back, the new window and
  -- threshold are those asked for, every revocation is carried over, each other entry is dated at
  -- the new start, and the fingerprint of each key named for revocation is listed.
  pub update-IsSuccessor :
      (p : TrustPolicy) (expected : Bytes) (from until minimum : ℕ) (keys : List (Bytes × Bytes))
      (revoked_names : List Bytes) (n : TrustPolicy)
      → update_from_named_pem_keys crypto json p expected from until minimum keys revoked_names
        ≡ ok n
      → IsSuccessor p expected from until minimum revoked_names n
  unfolding update_from_named_pem_keys enforces_lifecycle
  update-IsSuccessor p expected from until minimum keys revoked_names n h =
      let (was_valid, h1) = >>-eq-ok (validate crypto p) _ h in
      let (lifecycle, h2) = reject-eq-ok (not (p.version == 2)) update_requires_v2 _ h1 in
      let (digest, is_digest, h3) = >>=-eq-ok (policy_digest crypto json p) _ h2 in
      let (same, h4) =
        reject-eq-ok (not (expected == digest)) (current_digest_mismatch expected digest) _ h3 in
      let e = (eq_iff expected digest).0 (not-eq-false _ same) in
      record {
        was_well_formed = (validate_iff crypto p).0 was_valid;
        was_v2 = (eq_iff p.version 2).0 (not-eq-false _ lifecycle);
        is_current = rw e is_digest;
        link =
            rw e
              (link_successor-IsLinked crypto p digest from until minimum keys revoked_names n h4);
      }
