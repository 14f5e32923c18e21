-- ===== src/Crypto.antt =====
-- What the program takes from `ed25519_dalek`, `sha2` and `serde_json`: operations that the model
-- has as parameters, and the documented behaviour that some theorems assume.
use sci_capsule.Prelude.{ℕ, ◌<◌, ◌≡◌, Bool, true, Option, some, ◌∷◌, [], ◌++◌, Bytes, length, All}

pub record Crypto : Type 1 where
  pub VerifyingKey : Type 0
  pub SigningKey : Type 0
  pub Signature : Type 0
  -- `VerifyingKey::from_bytes` and `to_bytes`, over 32 bytes
  pub key_from_bytes : Bytes → Option VerifyingKey
  pub key_to_bytes : VerifyingKey → Bytes
  -- `VerifyingKey::from_public_key_pem`, `SigningKey::from_pkcs8_pem`
  pub key_from_pem : Bytes → Option VerifyingKey
  pub signing_key_from_pem : Bytes → Option SigningKey
  pub public_key : SigningKey → VerifyingKey
  pub sign : SigningKey → Bytes → Signature
  -- `Signature::try_from(&[u8])` and `to_bytes`
  pub signature_from_bytes : Bytes → Option Signature
  pub signature_to_bytes : Signature → Bytes
  pub verify_strict : VerifyingKey → Bytes → Signature → Bool
  -- `Sha256::digest`
  pub sha256 : Bytes → Bytes

abbrev pub key_length : ℕ
key_length = 32

abbrev pub signature_length : ℕ
signature_length = 64

-- Keys and signatures have their fixed sizes and read back, a signature verifies under its
-- signer's public key, and a digest is 32 bytes.
pub record IsLawful (c : Crypto) : Type 0 where
  pub length-key_to_bytes : (k : c.VerifyingKey) → length (c.key_to_bytes k) ≡ key_length
  pub key_from_bytes-key_to_bytes :
      (k : c.VerifyingKey) → c.key_from_bytes (c.key_to_bytes k) ≡ some k
  pub length-signature_to_bytes :
      (s : c.Signature) → length (c.signature_to_bytes s) ≡ signature_length
  pub signature_from_bytes-signature_to_bytes :
      (s : c.Signature) → c.signature_from_bytes (c.signature_to_bytes s) ≡ some s
  pub verify_strict-sign :
      (k : c.SigningKey) (m : Bytes) → c.verify_strict (c.public_key k) m (c.sign k m) ≡ true
  pub length-sha256 : (m : Bytes) → length (c.sha256 m) ≡ 32
  pub sha256-IsByte : (m : Bytes) → All (λ b. b < 256) (c.sha256 m)

-- `serde_json::to_vec_pretty` and `serde_json::from_slice` at one type.
pub record Json (A : Type 0) : Type 0 where
  pub to_vec_pretty : A → Option Bytes
  pub from_slice : Bytes → Option A

-- What is printed reads back, with white space behind it.
pub record ReadsBack {A : Type 0} (json : Json A) : Type 0 where
  pub from_slice-to_vec_pretty :
      (a : A) (encoded : Bytes)
      → json.to_vec_pretty a ≡ some encoded
      → json.from_slice (encoded ++ b'\n' ∷ []) ≡ some a

-- `base64ct::Base64`: `encode_string` and `decode_vec`.
pub record Base64 : Type 0 where
  pub encode_string : Bytes → Bytes
  pub decode_vec : Bytes → Option Bytes

-- What is encoded is decoded.
pub record Decodes (base64 : Base64) : Type 0 where
  pub decode_vec-encode_string :
      (bytes : Bytes) → base64.decode_vec (base64.encode_string bytes) ≡ some bytes
