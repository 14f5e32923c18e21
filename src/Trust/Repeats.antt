-- ===== src/Trust/Repeats.antt =====
-- Signatures count as a set: src/trust.rs counts distinct trusted keys, not signature files.
use sci_capsule.Prelude.{
  ℕ, ◌≤◌, ◌≡◌, ◌↔◌, inl, inr, refl, Bool, true, List, [], ◌∷◌, Bytes, arith, length, Any, any,
  Bool-cases, is_ok,
}
use sci_capsule.Crypto.{Crypto, Json}
use sci_capsule.Signature.{SignatureEnvelope, verify_capsule_signature_with_public_key_bytes}
use sci_capsule.Trust.{TrustPolicy, TrustedKey, max_signatures, validate_signature_count}
use sci_capsule.Trust.Verify.{key_matches, match_signers, verify_at_unix_seconds}
use sci_capsule.Trust.WellFormed.Fields.{validate_signature_count_iff}

abbrev pub Occurs : {A : Type 0} → A → List A → Type 0
Occurs a = Any (λ x. x ≡ a)

-- The same signatures occur, in any order and any number of times.
abbrev pub SameSignatures : List SignatureEnvelope → List SignatureEnvelope → Type 0
SameSignatures xs ys = (s : SignatureEnvelope) → Occurs s xs ↔ Occurs s ys

pub any-of-Occurs :
    {A : Type 0} (p : A → Bool) (a : A) (xs : List A) → Occurs a xs → p a ≡ true → any p xs ≡ true
unfolding any
any-of-Occurs p a [] h e = elim h [ ]
any-of-Occurs p a (x ∷ xs) (inl h) e = rw (h, e)
any-of-Occurs p a (x ∷ xs) (inr h) e = ground (arith, any-of-Occurs p a xs h e)

pub Any-witness :
    {A : Type 0} (P : A → Type 0) (xs : List A) → Any P xs → (a : A) × Occurs a xs × P a
Any-witness P [] h = elim h [ ]
Any-witness P (x ∷ xs) (inl h) = (x, inl refl, h)
Any-witness P (x ∷ xs) (inr h) = let (a, o, t) = Any-witness P xs h in (a, inr o, t)

pub any-witness :
    {A : Type 0} (p : A → Bool) (xs : List A)
    → any p xs ≡ true
    → (a : A) × Occurs a xs × (p a ≡ true)
unfolding any
any-witness p [] h = cc
any-witness p (x ∷ xs) h = elim (Bool-cases (p x)) [
  | inl e ↦ (x, inl refl, e)
  | inr e ↦ let (a, o, t) = any-witness p xs (ground arith) in (a, inr o, t)
]

Bool-eq_of_iff : (a b : Bool) → (a ≡ true → b ≡ true) → (b ≡ true → a ≡ true) → a ≡ b
Bool-eq_of_iff a b f g = ground arith

any-SameSignatures :
    (p : SignatureEnvelope → Bool) (xs ys : List SignatureEnvelope)
    → SameSignatures xs ys
    → any p xs ≡ any p ys
any-SameSignatures p xs ys same =
    Bool-eq_of_iff (any p xs) (any p ys)
      (λ h. let (a, o, t) = any-witness p xs h in any-of-Occurs p a ys ((same a).0 o) t)
      (λ h. let (a, o, t) = any-witness p ys h in any-of-Occurs p a xs ((same a).1 o) t)

validate_signature_count-SameSignatures :
    (xs ys : List SignatureEnvelope)
    → SameSignatures xs ys
    → length xs ≤ max_signatures
    → length ys ≤ max_signatures
    → validate_signature_count (length xs) ≡ validate_signature_count (length ys)
validate_signature_count-SameSignatures [] [] same _ _ = refl
validate_signature_count-SameSignatures [] (y ∷ ys) same _ _ = absurd ((same y).1 (inl refl))
validate_signature_count-SameSignatures (x ∷ xs) [] same _ _ = absurd ((same x).0 (inl refl))
validate_signature_count-SameSignatures (x ∷ xs) (y ∷ ys) same hx hy = rw (
  (validate_signature_count_iff (length (x ∷ xs))).1 (omega arith),
  (validate_signature_count_iff (length (y ∷ ys))).1 (omega arith),
)

module _ (crypto : Crypto) (xs ys : List SignatureEnvelope) (same : SameSignatures xs ys) where
  match_signers-SameSignatures :
      (p : TrustPolicy) (now : ℕ) (capsule_bytes : Bytes) (keys : List TrustedKey)
      → match_signers crypto p now capsule_bytes xs keys
        ≡ match_signers crypto p now capsule_bytes ys keys
  unfolding match_signers key_matches
  match_signers-SameSignatures p now capsule_bytes [] = refl
  match_signers-SameSignatures p now capsule_bytes (key ∷ keys) = rw (
    match_signers-SameSignatures p now capsule_bytes keys,
    any-SameSignatures
        (λ s.
          is_ok
            (verify_capsule_signature_with_public_key_bytes crypto capsule_bytes s key.public_key))
        xs ys same,
  )

  -- Repeating or reordering signatures changes nothing, within the limit on their number: two lists
  -- in which the same signatures occur get the same decision, or the same error.
  pub verify_same_signatures :
      (json : Json TrustPolicy) (p : TrustPolicy) (capsule_bytes : Bytes) (now : ℕ)
      → length xs ≤ max_signatures
      → length ys ≤ max_signatures
      → verify_at_unix_seconds crypto json p capsule_bytes xs now
        ≡ verify_at_unix_seconds crypto json p capsule_bytes ys now
  unfolding verify_at_unix_seconds
  verify_same_signatures json p capsule_bytes now hx hy = rw (
    match_signers-SameSignatures p now capsule_bytes p.trusted_keys,
    validate_signature_count-SameSignatures xs ys same hx hy,
  )
