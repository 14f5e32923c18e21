-- ===== src/Tests/Signing.antt =====
-- A run of `sign_command`, and an example of its theorem.
use mathlib.Core.Logic.{ite}
use sci_capsule.Prelude.{
  ◌≡◌, ◌<◌, refl, none, some, Result, ok, [], ◌∷◌, Bytes, codes, checked_add, list_beq, arith,
  list_eq, nat_eq, length, subst,
}
use sci_capsule.Crypto.{Json}
use sci_capsule.Files.{Entries, Disk, still, attempt}
use sci_capsule.Files.Access.{
  read_open_file, read_regular_input_bounded, open_regular_nofollow, write_new_capsule,
}
use sci_capsule.Signature
use sci_capsule.Signature.{SignatureEnvelope, sign_capsule, signing_message}
use sci_capsule.Product.{
  ProductError, Report, signed, verified, max_signature_envelope_bytes, is_utf8, read_bounded,
  read_decoded, read_regular_utf8_bounded, write_output, sign_command, verify_signature_command,
}
use sci_capsule.Product.Signing.{IsShort, verify_signature_command-sign_command}
use sci_capsule.Tests.Toy.{toy, toy-IsLawful}
use sci_capsule.Tests.Only.{SignatureEnvelope-discrete, only, only-prints, only-ReadsBack}
use sci_capsule.Tests.Container.{one_file}
use sci_capsule.Tests.Extracting.{root_only}
use sci_capsule.Tests.Product.{locate, encoded, with_file}

abbrev envelope : SignatureEnvelope
envelope = record {
  version = 1;
  algorithm = codes "ed25519";
  signature = toy.signature_to_bytes (toy.sign 5 (signing_message encoded));
}

abbrev json : Json SignatureEnvelope
json = only SignatureEnvelope-discrete envelope

short_text :
    (e : SignatureEnvelope) (text : Bytes) (d : Dec (e ≡ envelope))
    → ite d (some (codes "{}")) none ≡ some text
    → length text < max_signature_envelope_bytes
short_text e text (yes p) h =
    let same : codes "{}" ≡ text = cc h in
    subst (λ t. length t < max_signature_envelope_bytes) same (omega arith)
short_text e text (no p) h = cc h

json-IsShort : IsShort json
json-IsShort = record {
  length-to_vec_pretty = λ e text v h. short_text e text (SignatureEnvelope-discrete e envelope) h;
}

abbrev given : Entries
given =
    with_file (codes "public") (5 ∷ [])
      (with_file (codes "private") (5 ∷ []) (with_file (codes "c") encoded root_only))

run_sign : Result ProductError Report × Disk
unfolding sign_command read_decoded read_bounded read_regular_utf8_bounded is_utf8 write_output
    read_regular_input_bounded read_open_file open_regular_nofollow write_new_capsule attempt
    sign_capsule signing_message Signature.to_json Signature.validate list_beq checked_add
run_sign =
    sign_command locate toy one_file json (codes "c") (codes "private") (codes "c.sig")
      (still given)

abbrev signed_report : Report
signed_report = signed (codes "c") (codes "run") (codes "c.sig")

sign_succeeds : run_sign.0 ≡ ok signed_report
unfolding run_sign
sign_succeeds = rw (only-prints SignatureEnvelope-discrete envelope) refl

verify_signature_command-sign_command_example :
    (name : Bytes) × (signed_report ≡ signed (codes "c") name (codes "c.sig"))
    × (verify_signature_command locate toy one_file json
          (codes "c")
          (codes "c.sig")
          (codes "public")
          (still run_sign.1.entries)
        ≡ (ok (verified (codes "c") name (codes "c.sig")), still run_sign.1.entries))
unfolding run_sign
verify_signature_command-sign_command_example =
    verify_signature_command-sign_command locate toy one_file json (codes "c") (codes "private")
      (codes "c.sig") (codes "public") (5 ∷ []) (5 ∷ []) 5 (still given) run_sign.1 signed_report
      toy-IsLawful (only-ReadsBack SignatureEnvelope-discrete envelope) json-IsShort refl refl refl
      refl (omega arith) refl (λ i. (sign_succeeds i, run_sign.1))
