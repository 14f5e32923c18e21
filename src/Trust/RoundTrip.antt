-- ===== src/Trust/RoundTrip.antt =====
-- The JSON form of a policy of src/trust.rs.
use sci_capsule.Prelude.{◌≡◌, Bytes, arith, ok, some_of_ne_none}
use sci_capsule.Crypto.{Crypto, Json, ReadsBack}
use sci_capsule.Trust.{TrustPolicy}
use sci_capsule.Trust.Verify.{from_json, to_json, policy_digest, sha256_digest}
use sci_capsule.Trust.WellFormed.Policy.{IsWellFormed, validate_iff}

module _ (crypto : Crypto) (json : Json TrustPolicy) where
  pub from_json-to_json :
      ReadsBack json
      → (p : TrustPolicy) (encoded : Bytes) → to_json crypto json p ≡ ok encoded
      → (from_json crypto json encoded ≡ ok p)
        × IsWellFormed crypto p
        × (policy_digest crypto json p ≡ ok (sha256_digest crypto encoded))
  unfolding to_json from_json policy_digest
  from_json-to_json reads p encoded h =
      let (text, printed) = some_of_ne_none (json.to_vec_pretty p) (ground arith) in
      (
        ground (arith, reads.from_slice-to_vec_pretty p text printed),
        (validate_iff crypto p).0 (ground arith),
        ground arith,
      )
