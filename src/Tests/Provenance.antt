-- ===== src/Tests/Provenance.antt =====
-- Statements and envelopes over the `Toy` primitives, and examples of the theorems on them.
use sci_capsule.Prelude.{
  ℕ, ◌≡◌, ◌↔◌, refl, arith, true, ok, none, some, [], ◌∷◌, Bytes, List, codes, ◌==◌, if◌then◌else◌,
  nat_eq, list_eq, inl, inr, list_beq, split_once, all, any, is_alphabetic, is_alphanumeric,
  is_lower, is_upper, is_digit, to_string, write_digits, Result, All, false,
}
use sci_capsule.Crypto.{Json, Base64, Decodes}
use sci_capsule.Provenance
use sci_capsule.Provenance.{
  JsonValues, ProvenanceStatement, validate_type_uri, capsule_statement, matches_capsule, from_json,
  builder_id,
}
use sci_capsule.Provenance.Envelope.{
  DsseEnvelope, VerifiedProvenance, dsse_pae, sign_statement, sign_all, validate_signature_count,
  verify_for_capsule, decode_authenticated_parts, DsseSignature,
}
use sci_capsule.Provenance.Statement.{matches-capsule_statement}
use sci_capsule.Provenance.Pae.{dsse_pae_injective}
use sci_capsule.Provenance.Signed.{SignedBy, decode-sign_statement}
use sci_capsule.Provenance.Accepted.{verify-sign_statement, full_decision, HasSigner}
use sci_capsule.Provenance.Verified.{IsAuthentic, verify_for_capsule_sound}
use sci_capsule.Trust.{TrustPolicyError}
use sci_capsule.Trust.Threshold.{InWindow}
use sci_capsule.Trust.WellFormed.Policy.{IsWellFormed, validate_iff}
use sci_capsule.Trust.Verify.{policy_digest, key_is_revoked}
use sci_capsule.Tests.Toy.{toy, toy-IsLawful}
use sci_capsule.Tests.Trust.{base, base_digest, demo_json, run_validate, run_update}

abbrev values : JsonValues
values = record { Value = Unit; is_null = λ _. true; is_object = λ _. true; empty_object = tt }

abbrev plain : Base64
plain = record { encode_string = λ bytes. bytes; decode_vec = λ text. some text }

plain-Decodes : Decodes plain
plain-Decodes = record { decode_vec-encode_string = λ bytes. refl }

abbrev capsule : Bytes
capsule = 5 ∷ 6 ∷ []

abbrev statement : ProvenanceStatement Unit
unfolding capsule_statement
statement =
    capsule_statement toy values (codes "demo") capsule (codes "ci:x") (codes "make:y")
      (codes "git:z") (codes "00")

-- Reads the text "s" as the statement.
abbrev reader : Json (ProvenanceStatement Unit)
reader = record {
  to_vec_pretty = λ _. none;
  from_slice = λ bytes. if bytes == codes "s" then some statement else none;
}

abbrev pems : List Bytes
pems = (1 ∷ []) ∷ (2 ∷ []) ∷ (3 ∷ []) ∷ []

abbrev message : Bytes
unfolding dsse_pae to_string write_digits
message = dsse_pae Provenance.dsse_in_toto_json_payload_type (codes "s")

abbrev signature : ℕ → DsseSignature
signature k = record { keyid = none; sig = toy.signature_to_bytes (toy.sign k message) }

abbrev envelope : DsseEnvelope
envelope = record {
  payload_type = Provenance.dsse_in_toto_json_payload_type;
  payload = codes "s";
  signatures = signature 1 ∷ signature 2 ∷ signature 3 ∷ [];
}

-- Opens everything that reading a statement calls.
unfoldable run_from_json :
    Bytes → Result (Provenance.ProvenanceError TrustPolicyError) (ProvenanceStatement Unit)
unfolding from_json Provenance.validate validate_type_uri Provenance.validate_parameters
    Provenance.is_scheme Provenance.is_scheme_byte Provenance.is_ascii Provenance.is_whitespace
    Provenance.is_control split_once all any is_alphabetic is_alphanumeric is_lower is_upper
    is_digit list_beq capsule_statement
run_from_json = from_json values reader

reads_statement : from_json {Trust = TrustPolicyError} values reader (codes "s") ≡ ok statement
unfolding run_from_json
reads_statement = refl

signs : sign_statement toy plain values reader (codes "s") pems ≡ ok envelope
unfolding run_from_json sign_statement sign_all validate_signature_count message dsse_pae
signs = refl

about : matches_capsule toy statement capsule ≡ true
unfolding capsule_statement
about =
    (matches-capsule_statement toy toy-IsLawful values (codes "demo") capsule (codes "ci:x")
        (codes "make:y") (codes "git:z") (codes "00") capsule).1
      refl

base-IsWellFormed : IsWellFormed toy base
unfolding run_validate
base-IsWellFormed = (validate_iff toy base).0 refl

base_timely : InWindow base 120
base_timely = inr (100, 200, refl, refl, omega arith, omega arith)

base_digests : policy_digest toy demo_json base ≡ ok base_digest
unfolding run_update
base_digests = refl

unrevoked : All (λ key. key_is_revoked toy base key 120 ≡ false) base.trusted_keys
unfolding key_is_revoked any
unrevoked = (refl, (refl, (refl, tt)))

base_signers : All (HasSigner toy pems) base.trusted_keys
base_signers =
    (inl (1, refl, refl), (inr (inl (2, refl, refl)), (inr (inr (inl (3, refl, refl))), tt)))

dsse_pae_injective_example : (codes "a" ≡ codes "a") × (codes "b c" ≡ codes "b c")
dsse_pae_injective_example =
    dsse_pae_injective (codes "a") (codes "b c") (codes "a") (codes "b c") (omega arith)
      (omega arith) (omega arith) (omega arith) refl

matches-capsule_statement_example :
    (matches_capsule toy
        (capsule_statement toy values
          (codes "demo")
          capsule
          (codes "ci:x")
          (codes "make:y")
          (codes "git:z")
          (codes "00"))
        (7 ∷ [])
      ≡ true)
    ↔ (toy.sha256 (7 ∷ []) ≡ toy.sha256 capsule)
matches-capsule_statement_example =
    matches-capsule_statement toy toy-IsLawful values (codes "demo") capsule (codes "ci:x")
      (codes "make:y") (codes "git:z") (codes "00") (7 ∷ [])

decode-sign_statement_example :
    (raws : List Bytes) × (decode_authenticated_parts plain envelope ≡ ok (codes "s", raws))
    × SignedBy toy (dsse_pae envelope.payload_type (codes "s")) pems raws
decode-sign_statement_example =
    decode-sign_statement toy toy-IsLawful plain plain-Decodes values reader (codes "s") pems
      envelope signs

verify-sign_statement_example :
    verify_for_capsule toy plain values reader demo_json (some 120) envelope capsule base
    ≡ ok (record {
      statement = statement;
      trust =
          full_decision toy toy-IsLawful plain plain-Decodes values reader demo_json base
            base_digest;
    })
verify-sign_statement_example =
    verify-sign_statement toy toy-IsLawful plain plain-Decodes values reader demo_json 120
      (codes "s") pems envelope capsule base statement base_digest signs reads_statement about
      base-IsWellFormed base_timely unrevoked base_signers base_digests

abbrev accepted : VerifiedProvenance Unit
accepted = record {
  statement = statement;
  trust =
      full_decision toy toy-IsLawful plain plain-Decodes values reader demo_json base base_digest;
}

verified :
    verify_for_capsule toy plain values reader demo_json (some 120) envelope capsule base
    ≡ ok accepted
verified =
    verify-sign_statement toy toy-IsLawful plain plain-Decodes values reader demo_json 120
      (codes "s") pems envelope capsule base statement base_digest signs reads_statement about
      base-IsWellFormed base_timely unrevoked base_signers base_digests

verify_for_capsule_sound_example :
    IsAuthentic toy plain values reader demo_json 120 envelope capsule base accepted
verify_for_capsule_sound_example =
    verify_for_capsule_sound toy plain values reader demo_json 120 envelope capsule base accepted
      verified
