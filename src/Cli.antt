-- ===== src/Cli.antt =====
-- src/lib.rs: the command line of the core commands, `pack`, `inspect`, `verify` and `extract`.
pub mod Parse
pub mod Arguments
pub mod Commands
pub mod Packing
pub mod Packed
pub mod Extracting
use sci_capsule.Prelude.{
  ℕ, Bool, true, false, ◌&&◌, ◌||◌, Option, none, some, List, [], ◌∷◌, ◌++◌, Bytes, codes, ltb,
  ◌==◌, nat_eq, list_eq, if◌then◌else◌, length, is_empty, starts_with, Result, ok, err, reject_if,
  ok_or, ◌>>=◌, ◌>>◌, parse_u64,
}
use sci_capsule.Files.Access.{FileError}
use sci_capsule.Extraction.{ExtractionLimits, ExtractionError}

pub data Command : Type 0 where
  help version : Command
  -- `name`, `entrypoint`, `output`, `payload_specs`, `limits`
  pack : Bytes → Bytes → Bytes → List Bytes → ExtractionLimits → Command
  inspect verify : Bytes → Command
  -- `capsule`, `output`, `limits`, `json`
  extract : Bytes → Bytes → ExtractionLimits → Bool → Command

pub data OptionName : Type 0 where
  name_option entrypoint_option output_option max_files_option max_bytes_option : OptionName

-- The messages of `CliError::usage` and of `CliError::operation`.
pub data UsageError : Type 0 where
  only_once requires_value requires_integer missing : OptionName → UsageError
  json_only_once missing_capsule no_payloads max_bytes_too_large configured_limit_too_large
        empty_name :
      UsageError
  unknown_option unexpected_argument unknown_command one_file : Bytes → UsageError
  -- the number of the mappings and the limit
  too_many_mappings : ℕ → ℕ → UsageError
  mapping_form empty_source invalid_payload_path invalid_entrypoint : Bytes → UsageError

pub data OperationError : Type 0 where
  too_many_payloads : ℕ → ℕ → OperationError
  accounting_underflow accounting_overflow cannot_build cannot_encode : OperationError
  invalid_capsule : OperationError
  file : FileError → OperationError
  cannot_extract : ExtractionError → OperationError

pub data CliError : Type 0 where
  usage : UsageError → CliError
  operation : OperationError → CliError

-- `CliError::is_usage`, from which the exit code follows.
unfoldable pub is_usage : CliError → Bool
is_usage (usage e) = true
is_usage (operation e) = false

abbrev pub Parsing : Type 0 → Type 0
Parsing A = Result UsageError A
