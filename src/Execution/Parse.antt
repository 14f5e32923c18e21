-- ===== src/Execution/Parse.antt =====
-- src/execution_cli.rs: `parse`, the command line of `scicapsule run`.
use sci_capsule.Prelude.{
  ℕ, true, false, ◌||◌, Option, none, some, List, [], ◌∷◌, ◌++◌, Bytes, codes, ltb, ◌==◌, nat_eq,
  list_eq, length, is_empty, starts_with, parse_u64, ok, err, reject_if, ok_or, ◌>>=◌, ◌>>◌,
  if◌then◌else◌,
}
use sci_capsule.Trust.{max_signatures}
use sci_capsule.Extraction.{default_extraction_limits}
use sci_capsule.Execution.{
  OptionName, Outcome, RunCommand, default_max_output_bytes, default_timeout_seconds, env_option,
  max_bytes_option, max_files_option, max_output_limit, max_output_option, max_timeout_seconds,
  missing_capsule, missing_policy, missing_signature, no_command, only_once, out_of_range,
  parse_environment, policy_option, requires_integer, requires_value, signature_option,
  timeout_option, too_many_signatures, unexpected_argument, unknown_command, unknown_option,
  validate_argument_limits, validate_environment,
}

-- The local variables of `parse`; the option is `none` where its `_seen` flag is not set.
pub record ParseState : Type 0 where
  pub capsule : Option Bytes
  pub policy : Option Bytes
  pub signatures : List Bytes
  pub max_files : Option ℕ
  pub max_bytes : Option ℕ
  pub timeout_seconds : Option ℕ
  pub max_output_bytes : Option ℕ
  pub environment : List (Bytes × Bytes)
  pub arguments : List Bytes

abbrev pub initial : ParseState
initial = record {
  capsule = none;
  policy = none;
  signatures = [];
  max_files = none;
  max_bytes = none;
  timeout_seconds = none;
  max_output_bytes = none;
  environment = [];
  arguments = [];
}

-- `take_value`, from the argument behind the option.
unfoldable pub take_value : OptionName → Option Bytes → Outcome Bytes
take_value o none = err (requires_value o)
take_value o (some value) = if is_empty value then err (requires_value o) else ok value

unfoldable pub take_unique_value :
    {A : Type 0} → OptionName → Option Bytes → Option A → Outcome Bytes
take_unique_value o value (some _) = err (only_once o)
take_unique_value o value none = take_value o value

-- The body of each option's case.
unfoldable pub apply_option : OptionName → Option Bytes → ParseState → Outcome ParseState
apply_option policy_option value s = do
  raw ← take_unique_value policy_option value s.policy
  ok (record s { policy = some raw })
apply_option signature_option value s = do
  raw ← take_value signature_option value
  let signatures = s.signatures ++ raw ∷ []
  reject_if (ltb max_signatures (length signatures)) too_many_signatures
  ok (record s { signatures = signatures })
apply_option max_files_option value s = do
  raw ← take_unique_value max_files_option value s.max_files
  n ← ok_or (parse_u64 raw) (requires_integer max_files_option)
  ok (record s { max_files = some n })
apply_option max_bytes_option value s = do
  raw ← take_unique_value max_bytes_option value s.max_bytes
  n ← ok_or (parse_u64 raw) (requires_integer max_bytes_option)
  ok (record s { max_bytes = some n })
apply_option timeout_option value s = do
  raw ← take_unique_value timeout_option value s.timeout_seconds
  n ← ok_or (parse_u64 raw) (requires_integer timeout_option)
  reject_if (n == 0 || ltb max_timeout_seconds n) (out_of_range timeout_option)
  ok (record s { timeout_seconds = some n })
apply_option max_output_option value s = do
  raw ← take_unique_value max_output_option value s.max_output_bytes
  n ← ok_or (parse_u64 raw) (requires_integer max_output_option)
  reject_if (n == 0 || ltb max_output_limit n) (out_of_range max_output_option)
  ok (record s { max_output_bytes = some n })
apply_option env_option value s = do
  raw ← take_value env_option value
  entry ← parse_environment raw
  let environment = s.environment ++ entry ∷ []
  validate_environment environment
  ok (record s { environment = environment })

unfoldable pub option_name : Bytes → Option OptionName
option_name argument =
    if argument == codes "--policy"
    then some policy_option
    else if argument == codes "--signature"
    then some signature_option
    else if argument == codes "--max-files"
    then some max_files_option
    else if argument == codes "--max-bytes"
    then some max_bytes_option
    else if argument == codes "--timeout-seconds"
    then some timeout_option
    else if argument == codes "--max-output-bytes"
    then some max_output_option
    else if argument == codes "--env"
    then some env_option
    else none

-- The cases of an argument that is no option.
unfoldable pub apply_positional : Bytes → ParseState → Outcome ParseState
apply_positional argument s =
    if starts_with argument b'-' then err (unknown_option argument) else elim s.capsule [
      | none ↦ ok (record s { capsule = some argument })
      | some _ ↦ err (unexpected_argument argument)
    ]

-- The loop once `--` has been seen.
unfoldable pub push_arguments : ParseState → List Bytes → Outcome ParseState
push_arguments s [] = ok s
push_arguments s (argument ∷ rest) = do
  let arguments = s.arguments ++ argument ∷ []
  validate_argument_limits arguments
  push_arguments (record s { arguments = arguments }) rest

-- The loop before `--`.
unfoldable pub parse_arguments : ParseState → List Bytes → Outcome ParseState
parse_arguments s [] = ok s
parse_arguments s (argument ∷ []) = elim (option_name argument) [
  | some o ↦ apply_option o none s
  | none ↦ if argument == codes "--" then ok s else apply_positional argument s
]
parse_arguments s (argument ∷ value ∷ rest) = elim (option_name argument) [
  | some o ↦ do s' ← apply_option o (some value) s; parse_arguments s' rest
  | none ↦ elim (argument == codes "--") [
    | true ↦ push_arguments s (value ∷ rest)
    | false ↦ do s' ← apply_positional argument s; parse_arguments s' (value ∷ rest)
  ]
]

abbrev pub or_default : Option ℕ → ℕ → ℕ
or_default none n = n
or_default (some m) n = m

unfoldable pub finish : ParseState → Outcome RunCommand
finish s = do
  reject_if (is_empty s.signatures) missing_signature
  capsule ← ok_or s.capsule missing_capsule
  policy ← ok_or s.policy missing_policy
  ok (record {
    capsule = capsule;
    policy = policy;
    signatures = s.signatures;
    limits = record {
      max_files = or_default s.max_files default_extraction_limits.max_files;
      max_total_bytes = or_default s.max_bytes default_extraction_limits.max_total_bytes;
    };
    timeout_seconds = or_default s.timeout_seconds default_timeout_seconds;
    max_output_bytes = or_default s.max_output_bytes default_max_output_bytes;
    environment = s.environment;
    arguments = s.arguments;
  })

unfoldable pub parse : List Bytes → Outcome RunCommand
parse [] = err no_command
parse (command ∷ rest) = do
  reject_if (if command == codes "run" then false else true) unknown_command
  s ← parse_arguments initial rest
  finish s
