-- ===== src/Execution.antt =====
-- src/execution_cli.rs: the run command, its bounds, and the checks on environment and arguments.
pub mod Arguments
pub mod Authorize
pub mod Authorized
pub mod Prepared
pub mod Capture
pub mod Limits
pub mod Parse
pub mod Bounds
pub mod Wait
pub mod WaitLoop
pub mod Outcomes
use sci_capsule.Prelude.{
  ℕ, ◌+◌, ◌*◌, Bool, true, false, ◌||◌, Option, none, some, List, [], ◌∷◌, ◌++◌, Bytes, codes, ltb,
  ◌==◌, nat_eq, list_eq, length, is_empty, contains, starts_with, split_once, parse_u64,
  checked_add, Result, ok, err, reject_if, ok_or, ◌>>=◌, ◌>>◌, if◌then◌else◌,
}
use sci_capsule.Trust.{max_signatures}
use sci_capsule.Extraction.{ExtractionLimits, default_extraction_limits}

abbrev pub default_timeout_seconds : ℕ
default_timeout_seconds = 300

abbrev pub max_timeout_seconds : ℕ
max_timeout_seconds = 86400

abbrev pub default_max_output_bytes : ℕ
default_max_output_bytes = 16 * 1024 * 1024

abbrev pub max_output_limit : ℕ
max_output_limit = 64 * 1024 * 1024

abbrev pub max_environment_entries : ℕ
max_environment_entries = 128

abbrev pub max_environment_bytes : ℕ
max_environment_bytes = 64 * 1024

abbrev pub max_arguments : ℕ
max_arguments = 256

abbrev pub max_argument_bytes : ℕ
max_argument_bytes = 64 * 1024

pub record RunCommand : Type 0 where
  pub capsule : Bytes
  pub policy : Bytes
  pub signatures : List Bytes
  pub limits : ExtractionLimits
  pub timeout_seconds : ℕ
  pub max_output_bytes : ℕ
  pub environment : List (Bytes × Bytes)
  pub arguments : List Bytes

pub data OptionName : Type 0 where
  policy_option signature_option max_files_option max_bytes_option : OptionName
  timeout_option max_output_option env_option : OptionName

-- The messages of `ProductError::usage` that the parser makes.
pub data UsageError : Type 0 where
  no_command unknown_command : UsageError
  only_once requires_value requires_integer out_of_range : OptionName → UsageError
  too_many_signatures missing_signature missing_capsule missing_policy : UsageError
  environment_form environment_entry : Bytes → UsageError
  too_many_entries environment_overflow : UsageError
  duplicate_variable : Bytes → UsageError
  environment_too_large : ℕ → UsageError
  too_many_arguments argument_overflow : UsageError
  arguments_too_large : ℕ → UsageError
  unknown_option unexpected_argument : Bytes → UsageError

abbrev pub Outcome : Type 0 → Type 0
Outcome A = Result UsageError A

unfoldable pub parse_environment : Bytes → Outcome (Bytes × Bytes)
parse_environment raw = do
  (name, value) ← ok_or (split_once b'=' raw) (environment_form raw)
  reject_if (is_empty name || contains name 0 || contains value 0) (environment_entry raw)
  ok (name, value)

-- The loop of `validate_environment`, from the names and the total so far.
unfoldable pub environment_total : List Bytes → ℕ → List (Bytes × Bytes) → Outcome ℕ
environment_total names total [] = ok total
environment_total names total ((name, value) ∷ environment) = do
  reject_if (contains names name) (duplicate_variable name)
  named ← ok_or (checked_add total (length name)) environment_overflow
  total ← ok_or (checked_add named (length value)) environment_overflow
  environment_total (name ∷ names) total environment

unfoldable pub validate_environment : List (Bytes × Bytes) → Outcome (Unit {0})
validate_environment environment = do
  reject_if (ltb max_environment_entries (length environment)) too_many_entries
  total ← environment_total [] 0 environment
  reject_if (ltb max_environment_bytes total) (environment_too_large total)

-- The `try_fold` over the arguments.
unfoldable pub argument_total : ℕ → List Bytes → Option ℕ
argument_total total [] = some total
argument_total total (argument ∷ arguments) = elim (checked_add total (length argument)) [
  | none ↦ none
  | some total ↦ argument_total total arguments
]

unfoldable pub validate_argument_limits : List Bytes → Outcome (Unit {0})
validate_argument_limits arguments = do
  reject_if (ltb max_arguments (length arguments)) too_many_arguments
  total ← ok_or (argument_total 0 arguments) argument_overflow
  reject_if (ltb max_argument_bytes total) (arguments_too_large total)
