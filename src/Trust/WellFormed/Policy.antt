-- ===== src/Trust/WellFormed/Policy.antt =====
-- `TrustPolicy::validate` of src/trust.rs accepts exactly the well-formed policies.
use sci_capsule.Prelude.{
  ℕ, ◌≤◌, ◌<◌, ◌≡◌, ◌↔◌, ◌⊎◌, refl, none, some, List, [], ◌∷◌, Bytes, arith, length, All, Distinct,
  Fresh, Fresh-nil, Fresh-cons_iff, ok, map, nat_eq, list_eq, eq_iff, some_of_ne_none, >>-eq-ok,
}
use sci_capsule.Crypto.{Crypto, key_length}
use sci_capsule.Signature.{signature_algorithm}
use sci_capsule.Trust.{TrustPolicy, TrustedKey, validate_key_name, max_trusted_keys}
use sci_capsule.Trust.Validate.{
  validate, validate_v1, validate_v2, validate_version, validate_threshold, validate_trusted_keys,
}
use sci_capsule.Trust.WellFormed.Fields.{
  IsKeyName, validate_key_name_iff, IsRevocation, IsChained, fingerprints,
  validate_revision_chain_iff, validate_revoked_keys-iff_Fresh,
}

-- Version 1 has no lifecycle field.
pub record IsV1 (p : TrustPolicy) : Type 0 where
  pub no_id : p.policy_id ≡ none
  pub no_revision : p.revision ≡ none
  pub no_previous : p.previous_policy_sha256 ≡ none
  pub no_from : p.valid_from_unix_seconds ≡ none
  pub no_until : p.valid_until_unix_seconds ≡ none
  pub no_revoked : p.revoked_keys ≡ []

-- Version 2 has an identity, a revision chained to its predecessor, a validity window that is not
-- empty, and a revocation list with no fingerprint twice.
pub record IsV2 (p : TrustPolicy) : Type 0 where
  pub policy_id : Bytes
  pub has_id : p.policy_id ≡ some policy_id
  pub id_fits : IsKeyName policy_id
  pub revision : ℕ
  pub has_revision : p.revision ≡ some revision
  pub is_positive : 1 ≤ revision
  pub is_chained : IsChained p.previous_policy_sha256 revision
  pub from : ℕ
  pub has_from : p.valid_from_unix_seconds ≡ some from
  pub until : ℕ
  pub has_until : p.valid_until_unix_seconds ≡ some until
  pub window : from < until
  pub revocations : All IsRevocation p.revoked_keys
  pub revoked_once : Distinct (fingerprints p.revoked_keys)

validate_v1_iff : (p : TrustPolicy) → (validate_v1 p ≡ ok tt) ↔ IsV1 p
unfolding validate_v1
validate_v1_iff p = ground arith

validate_v2_sound : (p : TrustPolicy) → validate_v2 p ≡ ok tt → IsV2 p
unfolding validate_v2
validate_v2_sound p h =
    let (id, has_id) = some_of_ne_none p.policy_id (ground arith) in
    let (revision, has_revision) = some_of_ne_none p.revision (ground arith) in
    let (from, has_from) = some_of_ne_none p.valid_from_unix_seconds (ground arith) in
    let (until, has_until) = some_of_ne_none p.valid_until_unix_seconds (ground arith) in
    record {
      policy_id = id;
      has_id = has_id;
      id_fits = ground (arith, validate_key_name_iff id);
      revision = revision;
      has_revision = has_revision;
      is_positive = ground arith;
      is_chained = ground (arith, validate_revision_chain_iff p.previous_policy_sha256 revision);
      from = from;
      has_from = has_from;
      until = until;
      has_until = has_until;
      window = ground arith;
      revocations = ground (arith, validate_revoked_keys-iff_Fresh [] p.revoked_keys);
      revoked_once = ground (arith, validate_revoked_keys-iff_Fresh [] p.revoked_keys);
    }

validate_v2_complete : (p : TrustPolicy) → IsV2 p → validate_v2 p ≡ ok tt
unfolding validate_v2
validate_v2_complete p v = ground (
  arith,
  v.has_id,
  (validate_key_name_iff v.policy_id).1 v.id_fits,
  v.has_revision,
  (validate_revision_chain_iff p.previous_policy_sha256 v.revision).1 v.is_chained,
  v.has_from,
  v.has_until,
  (validate_revoked_keys-iff_Fresh [] p.revoked_keys).1
      (v.revocations, v.revoked_once, Fresh-nil (fingerprints p.revoked_keys)),
)

record MeetsThreshold (p : TrustPolicy) : Type 0 where
  has_algorithm : p.algorithm ≡ signature_algorithm
  key_bound : length p.trusted_keys ≤ max_trusted_keys
  needs_one : 1 ≤ p.minimum_signatures
  can_meet : p.minimum_signatures ≤ length p.trusted_keys

validate_threshold_sound : (p : TrustPolicy) → validate_threshold p ≡ ok tt → MeetsThreshold p
unfolding validate_threshold
validate_threshold_sound p h = ground (arith, eq_iff p.algorithm signature_algorithm)

validate_threshold_complete : (p : TrustPolicy) → MeetsThreshold p → validate_threshold p ≡ ok tt
unfolding validate_threshold
validate_threshold_complete p m = grind (arith, eq_iff p.algorithm signature_algorithm)

-- The version is known, and the fields are those of the version.
abbrev pub HasVersion : TrustPolicy → Type 0
HasVersion p = ((p.version ≡ 1) × IsV1 p) ⊎ ((p.version ≡ 2) × IsV2 p)

validate_version_iff : (p : TrustPolicy) → (validate_version p ≡ ok tt) ↔ HasVersion p
unfolding validate_version
validate_version_iff p =
    ground (arith, validate_v1_iff p, validate_v2_sound p, validate_v2_complete p)

abbrev pub key_names : List TrustedKey → List Bytes
key_names = map (λ (k : TrustedKey). k.name)

abbrev pub public_keys : List TrustedKey → List Bytes
public_keys = map (λ (k : TrustedKey). k.public_key)

module _ (crypto : Crypto) where
  pub record IsTrustedKey (key : TrustedKey) : Type 0 where
    pub is_name : IsKeyName key.name
    pub key_fits : length key.public_key ≡ key_length
    pub verifying_key : crypto.VerifyingKey
    pub is_key : crypto.key_from_bytes key.public_key ≡ some verifying_key

  pub record IsWellFormed (p : TrustPolicy) : Type 0 where
    pub has_version : HasVersion p
    pub has_algorithm : p.algorithm ≡ signature_algorithm
    pub key_bound : length p.trusted_keys ≤ max_trusted_keys
    pub needs_one : 1 ≤ p.minimum_signatures
    pub can_meet : p.minimum_signatures ≤ length p.trusted_keys
    pub keys : All IsTrustedKey p.trusted_keys
    pub named_once : Distinct (key_names p.trusted_keys)
    pub keyed_once : Distinct (public_keys p.trusted_keys)

  IsTrustedKey-validate :
      (key : TrustedKey) (v : crypto.VerifyingKey)
      → validate_key_name key.name ≡ ok tt
      → length key.public_key ≡ key_length
      → crypto.key_from_bytes key.public_key ≡ some v
      → IsTrustedKey key
  IsTrustedKey-validate key v n l e = record {
    is_name = (validate_key_name_iff key.name).0 n;
    key_fits = l;
    verifying_key = v;
    is_key = e;
  }

  validate_trusted_keys_sound :
      (names keys : List Bytes) (ks : List TrustedKey)
      → validate_trusted_keys crypto names keys ks ≡ ok tt
      → All IsTrustedKey ks
        × (Distinct (key_names ks) × Fresh names (key_names ks))
        × (Distinct (public_keys ks) × Fresh keys (public_keys ks))
  unfolding validate_trusted_keys
  validate_trusted_keys_sound names keys [] h = (tt, (tt, tt), (tt, tt))
  validate_trusted_keys_sound names keys (k ∷ ks) h =
      let (v, is_key) = some_of_ne_none (crypto.key_from_bytes k.public_key) (ground arith) in
      let rest =
        validate_trusted_keys_sound (k.name ∷ names) (k.public_key ∷ keys) ks (ground arith) in
      ground (
        arith,
        IsTrustedKey-validate k v,
        Fresh-cons_iff k.name names (key_names ks),
        Fresh-cons_iff k.public_key keys (public_keys ks),
      )

  validate_trusted_keys_complete :
      (names keys : List Bytes) (ks : List TrustedKey)
      → All IsTrustedKey ks
      → Distinct (key_names ks) × Fresh names (key_names ks)
      → Distinct (public_keys ks) × Fresh keys (public_keys ks)
      → validate_trusted_keys crypto names keys ks ≡ ok tt
  unfolding validate_trusted_keys
  validate_trusted_keys_complete names keys [] _ _ _ = refl
  validate_trusted_keys_complete names keys (k ∷ ks) (t, ts) (dn, fn) (dk, fk) = ground (
    arith,
    t.is_key,
    t.key_fits,
    (validate_key_name_iff k.name).1 t.is_name,
    Fresh-cons_iff k.name names (key_names ks),
    Fresh-cons_iff k.public_key keys (public_keys ks),
    validate_trusted_keys_complete (k.name ∷ names) (k.public_key ∷ keys) ks ts,
  )

  validate_sound : (p : TrustPolicy) → validate crypto p ≡ ok tt → IsWellFormed p
  unfolding validate
  validate_sound p h =
      let (version_ok, h') = >>-eq-ok (validate_version p) _ h in
      let (threshold_ok, keys_ok) = >>-eq-ok (validate_threshold p) _ h' in
      let m = validate_threshold_sound p threshold_ok in
      let (all_keys, (names, _), (keys, _)) =
        validate_trusted_keys_sound [] [] p.trusted_keys keys_ok in
      record {
        has_version = (validate_version_iff p).0 version_ok;
        has_algorithm = m.has_algorithm;
        key_bound = m.key_bound;
        needs_one = m.needs_one;
        can_meet = m.can_meet;
        keys = all_keys;
        named_once = names;
        keyed_once = keys;
      }

  validate_complete : (p : TrustPolicy) → IsWellFormed p → validate crypto p ≡ ok tt
  unfolding validate
  validate_complete p w = rw (
    (validate_version_iff p).1 w.has_version,
    validate_threshold_complete p (record {
      has_algorithm = w.has_algorithm;
      key_bound = w.key_bound;
      needs_one = w.needs_one;
      can_meet = w.can_meet;
    }),
    validate_trusted_keys_complete [] [] p.trusted_keys w.keys
        (w.named_once, Fresh-nil (key_names p.trusted_keys))
        (w.keyed_once, Fresh-nil (public_keys p.trusted_keys)),
  )

  -- `validate` accepts a policy exactly if it is well formed: a known version with that version's
  -- fields, the Ed25519 algorithm, 1 to 64 valid keys with no name and no key twice, and a
  -- threshold from 1 to the number of keys.
  pub validate_iff : (p : TrustPolicy) → (validate crypto p ≡ ok tt) ↔ IsWellFormed p
  validate_iff p = (validate_sound p, validate_complete p)
