-- ===== src/Hub.antt =====
-- src/hub_cli.rs: Hub run requests, their validation, and the arguments that `hub_run` gives to
-- the runner.
pub mod Requests
pub mod Delivery
use sci_capsule.Prelude.{
  ℕ, Bool, true, false, not, ◌||◌, Option, none, some, List, [], ◌∷◌, ◌++◌, Bytes, codes, ltb, ◌==◌,
  nat_eq, list_eq, length, is_empty, contains, checked_add, to_string, Result, ok, reject_if, ok_or,
  ◌>>=◌, ◌>>◌,
}
use sci_capsule.Crypto.{signature_length}
use sci_capsule.Signature.{SignatureEnvelope, signature_envelope_version, signature_algorithm}
use sci_capsule.Trust.{max_signatures}
use sci_capsule.Extraction.{path_lt}
use sci_capsule.Execution.{
  max_timeout_seconds, max_environment_entries, max_environment_bytes, max_arguments,
  max_argument_bytes,
}

abbrev pub hub_request_schema_version : ℕ
hub_request_schema_version = 1

pub record HubEnvironmentEntry : Type 0 where
  pub name : Bytes
  pub value : Bytes

pub record HubRunRequest : Type 0 where
  pub schema_version : ℕ
  pub signatures : List SignatureEnvelope
  pub timeout_seconds : ℕ
  pub max_files : ℕ
  pub max_bytes : ℕ
  pub environment : List HubEnvironmentEntry
  pub arguments : List Bytes

-- The messages of `ProductError::operation` that validation makes.
pub data RequestError : Type 0 where
  unsupported_schema_version : ℕ → RequestError
  no_signature invalid_envelope unsorted_signatures : RequestError
  too_many_signatures : ℕ → RequestError
  timeout_range : RequestError
  too_many_entries invalid_entry unsorted_environment environment_overflow : RequestError
  environment_too_large : ℕ → RequestError
  too_many_arguments invalid_argument : RequestError
  arguments_too_large : ℕ → RequestError

abbrev pub Check : Type 0
Check = Result RequestError (Unit {0})

-- `previous >= next`, where there is a previous one.
unfoldable pub is_out_of_order : Option Bytes → Bytes → Bool
is_out_of_order none next = false
is_out_of_order (some previous) next = not (path_lt previous next)

-- The loop over the signatures.
unfoldable pub validate_signatures : Option Bytes → List SignatureEnvelope → Check
validate_signatures previous [] = ok tt
validate_signatures previous (s ∷ signatures) = do
  reject_if
      (not (s.version == signature_envelope_version)
        || not (s.algorithm == signature_algorithm)
        || not (length s.signature == signature_length))
      invalid_envelope
  reject_if (is_out_of_order previous s.signature) unsorted_signatures
  validate_signatures (some s.signature) signatures

-- The loop over the environment, from the previous name and the total so far.
unfoldable pub environment_total :
    Option Bytes → ℕ → List HubEnvironmentEntry → Result RequestError ℕ
environment_total previous total [] = ok total
environment_total previous total (entry ∷ environment) = do
  reject_if (is_empty entry.name || contains entry.name 0 || contains entry.value 0) invalid_entry
  reject_if (is_out_of_order previous entry.name) unsorted_environment
  named ← ok_or (checked_add total (length entry.name)) environment_overflow
  total ← ok_or (checked_add named (length entry.value)) environment_overflow
  environment_total (some entry.name) total environment

unfoldable pub validate_environment : List HubEnvironmentEntry → Check
validate_environment environment = do
  reject_if (ltb max_environment_entries (length environment)) too_many_entries
  total ← environment_total none 0 environment
  reject_if (ltb max_environment_bytes total) (environment_too_large total)

-- The `try_fold` over the arguments.
unfoldable pub argument_total : ℕ → List Bytes → Option ℕ
argument_total total [] = some total
argument_total total (argument ∷ arguments) = elim (contains argument 0) [
  | true ↦ none
  | false ↦ elim (checked_add total (length argument)) [
    | none ↦ none
    | some total ↦ argument_total total arguments
  ]
]

unfoldable pub validate_arguments : List Bytes → Check
validate_arguments arguments = do
  reject_if (ltb max_arguments (length arguments)) too_many_arguments
  total ← ok_or (argument_total 0 arguments) invalid_argument
  reject_if (ltb max_argument_bytes total) (arguments_too_large total)

unfoldable pub validate : HubRunRequest → Check
validate r = do
  reject_if (not (r.schema_version == hub_request_schema_version))
      (unsupported_schema_version r.schema_version)
  reject_if (is_empty r.signatures) no_signature
  reject_if (ltb max_signatures (length r.signatures)) (too_many_signatures (length r.signatures))
  validate_signatures none r.signatures
  reject_if (r.timeout_seconds == 0 || ltb max_timeout_seconds r.timeout_seconds) timeout_range
  validate_environment r.environment
  validate_arguments r.arguments

unfoldable pub signature_arguments : List Bytes → List Bytes → List Bytes
signature_arguments [] rest = rest
signature_arguments (path ∷ paths) rest =
    codes "--signature" ∷ path ∷ signature_arguments paths rest

unfoldable pub environment_arguments : List HubEnvironmentEntry → List Bytes → List Bytes
environment_arguments [] rest = rest
environment_arguments (entry ∷ environment) rest =
    codes "--env" ∷ (entry.name ++ b'=' ∷ entry.value) ∷ environment_arguments environment rest

unfoldable pub argument_tail : List Bytes → List Bytes
argument_tail [] = []
argument_tail (argument ∷ arguments) = codes "--" ∷ argument ∷ arguments

-- The `run_args` of `hub_run`, from the paths of the snapshots.
unfoldable pub run_arguments : Bytes → Bytes → List Bytes → HubRunRequest → List Bytes
run_arguments capsule policy signatures r =
    codes "run"
    ∷ capsule
    ∷ codes "--policy"
    ∷ policy
    ∷ signature_arguments signatures (
        codes "--timeout-seconds"
        ∷ to_string r.timeout_seconds
        ∷ codes "--max-files"
        ∷ to_string r.max_files
        ∷ codes "--max-bytes"
        ∷ to_string r.max_bytes
        ∷ environment_arguments r.environment (argument_tail r.arguments))
