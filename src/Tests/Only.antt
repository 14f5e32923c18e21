-- ===== src/Tests/Only.antt =====
-- A JSON printer that knows a single value: it shows that the law of the printers can hold.
use mathlib.Core.Logic.{ite}
use native.Mathlib.Decide.{ℕ_discrete}
use sci_capsule.Prelude.{
  ◌≡◌, refl, none, some, [], ◌∷◌, ◌++◌, Bytes, codes, ◌==◌, list_eq, list_beq, nat_eq,
  if◌then◌else◌,
}
use sci_capsule.Crypto.{Json, ReadsBack}
use sci_capsule.Signature.{SignatureEnvelope}
use sci_capsule.Trust.{TrustPolicy}

pub SignatureEnvelope-discrete : Discrete SignatureEnvelope
SignatureEnvelope-discrete = hlevel ℕ_discrete

pub TrustPolicy-discrete : Discrete TrustPolicy
TrustPolicy-discrete = hlevel ℕ_discrete

module _ {A : Type 0} (dec : Discrete A) (value : A) where
  abbrev pub only : Json A
  only = record {
    to_vec_pretty = λ a. ite (dec a value) (some (codes "{}")) none;
    from_slice = λ bytes. if bytes == codes "{}\n" then some value else none;
  }

  pub only-prints : only.to_vec_pretty value ≡ some (codes "{}")
  only-prints = go (dec value value)
    where
      go : (d : Dec (value ≡ value)) → ite d (some (codes "{}")) none ≡ some (codes "{}")
      go (yes e) = refl
      go (no e) = absurd (e refl)

  pub only-ReadsBack : ReadsBack only
  unfolding list_beq
  only-ReadsBack = record {
    from_slice-to_vec_pretty = λ a encoded h. reads a encoded (dec a value) h;
  }
    where
      reads :
          (a : A) (encoded : Bytes) (d : Dec (a ≡ value))
          → ite d (some (codes "{}")) none ≡ some encoded
          → only.from_slice (encoded ++ b'\n' ∷ []) ≡ some a
      reads a encoded (yes e) h = let same : codes "{}" ≡ encoded = cc in rw (e, ← same) refl
      reads a encoded (no e) h = cc
