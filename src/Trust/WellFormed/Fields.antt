-- ===== src/Trust/WellFormed/Fields.antt =====
-- The checks on names, digests, counts and the revocation list of src/trust.rs.
use sci_capsule.Prelude.{
  ℕ, ◌≤◌, ◌<◌, ◌≡◌, ◌≢◌, ◌↔◌, ◌⊎◌, refl, true, Option, none, some, List, [], ◌∷◌, ◌++◌, Bytes,
  codes, arith, length, All, all, Distinct, ok, strip_prefix, strip_prefix_iff, is_lower_hex,
  is_alphanumeric, Option-cases, inl, inr, Fresh-cons_iff, Fresh, map, nat_eq, list_eq,
}
use sci_capsule.Trust.{
  RevokedKey, validate_key_name, validate_digest, validate_signature_count, is_key_name_byte,
}
use sci_capsule.Trust.Validate.{validate_revision_chain, validate_revoked_keys}

abbrev pub IsKeyNameByte : ℕ → Type 0
IsKeyNameByte b =
    ((b'0' ≤ b) × (b ≤ b'9'))
    ⊎ ((b'a' ≤ b) × (b ≤ b'z'))
    ⊎ ((b'A' ≤ b) × (b ≤ b'Z'))
    ⊎ (b ≡ b'-')
    ⊎ (b ≡ b'_')
    ⊎ (b ≡ b'.')

pub record IsKeyName (name : Bytes) : Type 0 where
  pub not_empty : name ≢ []
  pub fits : length name ≤ 64
  pub bytes : All IsKeyNameByte name

IsKeyNameByte-iff : (b : ℕ) → (is_key_name_byte b ≡ true) ↔ IsKeyNameByte b
unfolding is_key_name_byte is_alphanumeric
IsKeyNameByte-iff b = ground arith

key_name_bytes_iff : (name : Bytes) → (all is_key_name_byte name ≡ true) ↔ All IsKeyNameByte name
unfolding all
key_name_bytes_iff [] = (λ _. tt, λ _. refl)
key_name_bytes_iff (b ∷ name) = ground (arith, IsKeyNameByte-iff b, key_name_bytes_iff name)

pub validate_key_name_iff : (name : Bytes) → (validate_key_name name ≡ ok tt) ↔ IsKeyName name
unfolding validate_key_name
validate_key_name_iff [] = (λ h. cc, λ k. absurd (k.not_empty refl))
validate_key_name_iff (b ∷ name) = ground (arith, key_name_bytes_iff (b ∷ name))

abbrev pub IsLowerHex : ℕ → Type 0
IsLowerHex b = ((b'0' ≤ b) × (b ≤ b'9')) ⊎ ((b'a' ≤ b) × (b ≤ b'f'))

-- `sha256:` and 64 lowercase hexadecimal digits.
pub record IsDigest (value : Bytes) : Type 0 where
  pub hex : Bytes
  pub spelled : value ≡ codes "sha256:" ++ hex
  pub hex_length : length hex ≡ 64
  pub hex_digits : All IsLowerHex hex

IsLowerHex-iff : (b : ℕ) → (is_lower_hex b ≡ true) ↔ IsLowerHex b
unfolding is_lower_hex
IsLowerHex-iff b = ground arith

pub lower_hexes_iff : (s : Bytes) → (all is_lower_hex s ≡ true) ↔ All IsLowerHex s
unfolding all
lower_hexes_iff [] = (λ _. tt, λ _. refl)
lower_hexes_iff (b ∷ s) = ground (arith, IsLowerHex-iff b, lower_hexes_iff s)

abbrev digest_prefix : Bytes
digest_prefix = codes "sha256:"

validate_digest_sound : (value : Bytes) → validate_digest value ≡ ok tt → IsDigest value
unfolding validate_digest
validate_digest_sound value h = elim (Option-cases (strip_prefix digest_prefix value)) [
  | inl e ↦ cc (rw e at h)
  | inr (hex, e) ↦ record {
    hex = hex;
    spelled = (strip_prefix_iff digest_prefix value hex).0 e;
    hex_length = ground arith;
    hex_digits = ground (arith, lower_hexes_iff hex);
  }
]

validate_digest_complete : (value : Bytes) → IsDigest value → validate_digest value ≡ ok tt
unfolding validate_digest
validate_digest_complete value d =
    ground (arith, (strip_prefix_iff digest_prefix value d.hex).1 d.spelled, lower_hexes_iff d.hex)

pub validate_digest_iff : (value : Bytes) → (validate_digest value ≡ ok tt) ↔ IsDigest value
validate_digest_iff value = (validate_digest_sound value, validate_digest_complete value)

pub validate_signature_count_iff :
    (n : ℕ) → (validate_signature_count n ≡ ok tt) ↔ ((1 ≤ n) × (n ≤ 64))
unfolding validate_signature_count
validate_signature_count_iff n = ground arith

-- Revision 1 has no predecessor, and every later one names its predecessor's digest.
abbrev pub IsChained : Option Bytes → ℕ → Type 0
IsChained none revision = revision ≡ 1
IsChained (some digest) revision = (1 < revision) × IsDigest digest

pub validate_revision_chain_iff :
    (previous : Option Bytes) (revision : ℕ)
    → (validate_revision_chain previous revision ≡ ok tt) ↔ IsChained previous revision
unfolding validate_revision_chain
validate_revision_chain_iff none revision = ground arith
validate_revision_chain_iff (some digest) revision = ground (arith, validate_digest_iff digest)

pub record IsRevocation (entry : RevokedKey) : Type 0 where
  pub fingerprint : IsDigest entry.public_key_sha256
  pub has_reason : 1 ≤ length entry.reason
  pub reason_fits : length entry.reason ≤ 256

abbrev pub fingerprints : List RevokedKey → List Bytes
fingerprints = map (λ (r : RevokedKey). r.public_key_sha256)

pub validate_revoked_keys-iff_Fresh :
    (seen : List Bytes) (entries : List RevokedKey)
    → (validate_revoked_keys seen entries ≡ ok tt) ↔ (
        All IsRevocation entries
        × Distinct (fingerprints entries)
        × Fresh seen (fingerprints entries))
unfolding validate_revoked_keys
validate_revoked_keys-iff_Fresh seen [] = ground arith
validate_revoked_keys-iff_Fresh seen (r ∷ entries) = ground (
  arith,
  validate_digest_iff r.public_key_sha256,
  validate_revoked_keys-iff_Fresh (r.public_key_sha256 ∷ seen) entries,
  Fresh-cons_iff r.public_key_sha256 seen (fingerprints entries),
)
