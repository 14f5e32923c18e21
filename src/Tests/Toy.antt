-- ===== src/Tests/Toy.antt =====
-- A small lawful instance of the cryptographic primitives and of the JSON printers.
use sci_capsule.Prelude.{
  ℕ, zero, suc, ◌+◌, ◌*◌, ◌%◌, refl, Bool, ◌&&◌, Option, none, some, [], ◌∷◌, Bytes, arith, ◌==◌,
  nat_eq, list_eq, eq_refl, if◌then◌else◌,
}
use sci_capsule.Crypto.{Crypto, IsLawful}

abbrev pub zeros : ℕ → Bytes
zeros zero = []
zeros (suc n) = 0 ∷ zeros n

abbrev checksum : Bytes → ℕ
checksum [] = 7
checksum (b ∷ bs) = (b + 31 * checksum bs) % 65521

abbrev toy_key_from_bytes : Bytes → Option ℕ
toy_key_from_bytes [] = none
toy_key_from_bytes (k ∷ rest) = if rest == zeros 31 then some k else none

abbrev toy_pem : Bytes → Option ℕ
toy_pem (k ∷ []) = some k
toy_pem _ = none

abbrev toy_signature_from_bytes : Bytes → Option (ℕ × ℕ)
toy_signature_from_bytes (k ∷ c ∷ rest) = if rest == zeros 62 then some (k, c) else none
toy_signature_from_bytes _ = none

abbrev toy_signature_to_bytes : ℕ × ℕ → Bytes
toy_signature_to_bytes (k, c) = k ∷ c ∷ zeros 62

abbrev toy_verify : ℕ → Bytes → ℕ × ℕ → Bool
toy_verify k m (j, c) = k == j && c == checksum m

abbrev pub toy : Crypto
toy = record {
  VerifyingKey = ℕ;
  SigningKey = ℕ;
  Signature = ℕ × ℕ;
  key_from_bytes = toy_key_from_bytes;
  key_to_bytes = λ k. k ∷ zeros 31;
  key_from_pem = toy_pem;
  signing_key_from_pem = toy_pem;
  public_key = λ k. k;
  sign = λ k m. (k, checksum m);
  signature_from_bytes = toy_signature_from_bytes;
  signature_to_bytes = toy_signature_to_bytes;
  verify_strict = toy_verify;
  sha256 = λ m. (checksum m % 256) ∷ zeros 31;
}

pub toy-IsLawful : IsLawful toy
toy-IsLawful = record {
  length-key_to_bytes = λ k. refl;
  key_from_bytes-key_to_bytes = λ k. rw (eq_refl (zeros 31));
  length-signature_to_bytes = λ s. refl;
  signature_from_bytes-signature_to_bytes = λ s. rw (eq_refl (zeros 62));
  verify_strict-sign = λ k m. rw (eq_refl k, eq_refl (checksum m));
  length-sha256 = λ m. refl;
  sha256-IsByte = λ m. omega arith;
}
