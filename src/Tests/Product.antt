-- ===== src/Tests/Product.antt =====
-- Runs of the commands on trust policies and of `execute`, and examples of their theorems.
use sci_capsule.Prelude.{
  ◌≡◌, refl, none, some, Option, Result, ok, [], ◌∷◌, ◌++◌, List, codes, Bytes, checked_add,
  list_beq, list_eq, nat_eq, split, starts_with, contains,
}
use sci_capsule.Crypto.{Json}
use sci_capsule.Files.{
  Location, Entries, Disk, regular, still, attempt, update, below, create_dir_all,
}
use sci_capsule.Files.Directories.{IsTree, IsTree-enter}
use sci_capsule.Files.Access.{read_open_file, read_regular_input_bounded, open_regular_nofollow}
use sci_capsule.Extraction.{
  default_extraction_limits, preflight, check_payloads, portable_path, push_components, insert_path,
  path_lt, check_conflicts, find_ancestor,
}
use sci_capsule.Extraction.Materialize.{
  extract_capsule, in_staging, publish, conclude, materialize_payloads, materialize_payload,
  write_payload, reject_existing_destination,
}
use sci_capsule.Signature
use sci_capsule.Signature.{SignatureEnvelope, signing_message}
use sci_capsule.Trust.{TrustPolicy, TrustDecision}
use sci_capsule.Trust.Verify
use sci_capsule.Trust.Verify.{verify}
use sci_capsule.Product.{
  ProductError, Report, trusted, read_bounded, read_decoded, read_policy, read_envelope,
  read_envelopes, verify_trusted_command,
}
use sci_capsule.Product.Trusting.{IsDecided, verify_trusted_command-IsDecided}
use sci_capsule.Execution.{RunCommand}
use sci_capsule.Execution.Authorize.{Process, authorize, materialize, prepare}
use sci_capsule.Execution.Prepared.{IsPrepared, prepare-IsPrepared}
use sci_capsule.Tests.Toy.{toy}
use sci_capsule.Tests.Trust.{base, decision, run_verify}
use sci_capsule.Tests.Container.{one_file}
use sci_capsule.Tests.Extracting.{root_only, root_only-IsTree}

-- A path is a name in the root directory.
abbrev pub locate : Bytes → Location
locate path = path ∷ []

abbrev pub encoded : Bytes
encoded = 3 ∷ codes "run" ++ 1 ∷ 2 ∷ []

-- Reads every file as the same policy.
abbrev policy_json : Json TrustPolicy
policy_json = record {
  to_vec_pretty = λ p. some (2 ∷ 2 ∷ 0 ∷ 3 ∷ []);
  from_slice = λ bytes. some base;
}

-- Reads a file as the envelope of the signer that its first byte names.
abbrev envelope_of : Bytes → Option SignatureEnvelope
envelope_of [] = none
envelope_of (k ∷ rest) = some (record {
  version = 1;
  algorithm = codes "ed25519";
  signature = toy.signature_to_bytes (toy.sign k (signing_message encoded));
})

abbrev json : Json SignatureEnvelope
json = record { to_vec_pretty = λ e. none; from_slice = envelope_of }

abbrev pub with_file : Bytes → Bytes → Entries → Entries
with_file name bytes entries = update entries (name ∷ []) (some (regular bytes))

abbrev given : Entries
given = with_file (codes "k") (3 ∷ []) (
    with_file (codes "a") (1 ∷ [])
      (with_file (codes "p") (123 ∷ []) (with_file (codes "c") encoded root_only)))

abbrev envelopes : List Bytes
envelopes = codes "k" ∷ codes "a" ∷ []

run_trusted : Result ProductError Report × Disk
unfolding run_verify verify_trusted_command read_decoded read_bounded read_policy read_envelopes
    read_envelope read_regular_input_bounded read_open_file open_regular_nofollow attempt verify
    Verify.from_json Signature.from_json list_beq
run_trusted =
    verify_trusted_command locate toy policy_json one_file json (some 120) (codes "c") (codes "p")
      envelopes (still given)

abbrev trusted_report : Report
trusted_report = trusted (codes "c") (codes "run") (codes "alice" ∷ codes "carol" ∷ []) 2

trusted_succeeds : run_trusted.0 ≡ ok trusted_report
unfolding run_trusted
trusted_succeeds = refl

verify_trusted_command-IsDecided_example :
    (decided : IsDecided locate toy policy_json one_file json
      (some 120)
      (codes "c")
      (codes "p")
      envelopes
      given)
    × (trusted_report
        ≡ trusted
            (codes "c")
            (one_file.name decided.capsule)
            decided.decision.matched_signers
            decided.decision.required_signatures)
    × (run_trusted.1.entries ≡ given)
unfolding run_trusted
verify_trusted_command-IsDecided_example =
    verify_trusted_command-IsDecided locate toy policy_json one_file json (some 120) (codes "c")
      (codes "p") envelopes (still given) run_trusted.1 trusted_report
      (λ i. (trusted_succeeds i, run_trusted.1))

abbrev command : RunCommand
command = record {
  capsule = codes "c";
  policy = codes "p";
  signatures = envelopes;
  limits = default_extraction_limits;
  timeout_seconds = 1;
  max_output_bytes = 10;
  environment = (codes "A", codes "B") ∷ [];
  arguments = codes "x" ∷ [];
}

run_prepare : Result ProductError (TrustDecision × Process) × Disk
unfolding run_trusted prepare authorize materialize extract_capsule in_staging publish conclude
    materialize_payloads materialize_payload write_payload reject_existing_destination below
    create_dir_all preflight check_payloads portable_path push_components split starts_with contains
    checked_add insert_path path_lt check_conflicts find_ancestor
run_prepare =
    prepare locate toy policy_json one_file json (some 120) (codes "tmp") (codes "work" ∷ [])
      command (still given)

abbrev process : Process
process = record {
  program = codes "run" ∷ codes "root" ∷ codes "work" ∷ [];
  arguments = codes "x" ∷ [];
  current_dir = codes "root" ∷ codes "work" ∷ [];
  environment = (codes "A", codes "B") ∷ [];
}

prepare_succeeds : run_prepare.0 ≡ ok (decision, process)
unfolding run_prepare
prepare_succeeds = refl

given-IsTree : IsTree given
unfolding list_beq
given-IsTree =
    IsTree-enter _ (regular (3 ∷ [])) (codes "k") []
      (IsTree-enter _ (regular (1 ∷ [])) (codes "a") []
        (IsTree-enter _ (regular (123 ∷ [])) (codes "p") []
          (IsTree-enter root_only (regular encoded) (codes "c") [] root_only-IsTree refl refl) refl
          refl)
        refl refl)
      refl refl

prepare-IsPrepared_example :
    IsPrepared locate toy policy_json one_file json
      (some 120)
      (codes "work" ∷ [])
      command
      given
      run_prepare.1.entries
      decision
      process
unfolding run_prepare
prepare-IsPrepared_example =
    prepare-IsPrepared locate toy policy_json one_file json (some 120) (codes "tmp")
      (codes "work" ∷ []) command (still given) run_prepare.1 decision process given-IsTree
      (λ i. (prepare_succeeds i, run_prepare.1))
