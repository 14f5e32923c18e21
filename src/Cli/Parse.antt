-- ===== src/Cli/Parse.antt =====
-- src/lib.rs: `parse_command`, `parse_pack` and `parse_extract`.
use sci_capsule.Prelude.{
  ℕ, Bool, true, false, ◌&&◌, ◌||◌, Option, none, some, List, [], ◌∷◌, ◌++◌, Bytes, codes, ltb,
  ◌==◌, nat_eq, list_eq, if◌then◌else◌, length, is_empty, starts_with, ok, err, reject_if, ok_or,
  ◌>>=◌, ◌>>◌, parse_u64,
}
use sci_capsule.Extraction.{default_extraction_limits}
use sci_capsule.Cli.{
  Command, OptionName, Parsing, help, version, pack, inspect, verify, extract, name_option,
  entrypoint_option, output_option, max_files_option, max_bytes_option, only_once, requires_value,
  requires_integer, missing, json_only_once, missing_capsule, no_payloads, unknown_option,
  unexpected_argument, unknown_command, one_file, too_many_mappings,
}

-- From the argument behind the option, if there is one.
unfoldable pub take_unique_value :
    {A : Type 0} → OptionName → Option Bytes → Option A → Parsing Bytes
take_unique_value o value (some _) = err (only_once o)
take_unique_value o none none = err (requires_value o)
take_unique_value o (some value) none = if is_empty value then err (requires_value o) else ok value

-- A limit that has not been given is `none`, where the source has a flag beside the default.
abbrev pub or_default : Option ℕ → ℕ → ℕ
or_default none n = n
or_default (some m) n = m

-- The local variables of `parse_pack`.
pub record PackState : Type 0 where
  pub name : Option Bytes
  pub entrypoint : Option Bytes
  pub output : Option Bytes
  pub max_files : Option ℕ
  pub max_bytes : Option ℕ
  pub payload_specs : List Bytes

abbrev pub pack_start : PackState
pack_start = record {
  name = none;
  entrypoint = none;
  output = none;
  max_files = none;
  max_bytes = none;
  payload_specs = [];
}

unfoldable pub pack_option : Bytes → Option OptionName
pack_option argument =
    if argument == codes "--name"
    then some name_option
    else if argument == codes "--entrypoint"
    then some entrypoint_option
    else if argument == codes "--output"
    then some output_option
    else if argument == codes "--max-files"
    then some max_files_option
    else if argument == codes "--max-bytes"
    then some max_bytes_option
    else none

-- The body of each option's case.
unfoldable pub apply_pack_option : OptionName → Option Bytes → PackState → Parsing PackState
apply_pack_option name_option value s = do
  raw ← take_unique_value name_option value s.name
  ok (record s { name = some raw })
apply_pack_option entrypoint_option value s = do
  raw ← take_unique_value entrypoint_option value s.entrypoint
  ok (record s { entrypoint = some raw })
apply_pack_option output_option value s = do
  raw ← take_unique_value output_option value s.output
  ok (record s { output = some raw })
apply_pack_option max_files_option value s = do
  raw ← take_unique_value max_files_option value s.max_files
  n ← ok_or (parse_u64 raw) (requires_integer max_files_option)
  ok (record s { max_files = some n })
apply_pack_option max_bytes_option value s = do
  raw ← take_unique_value max_bytes_option value s.max_bytes
  n ← ok_or (parse_u64 raw) (requires_integer max_bytes_option)
  ok (record s { max_bytes = some n })

unfoldable pub pack_positional : Bytes → PackState → Parsing PackState
pack_positional argument s =
    if starts_with argument b'-'
    then err (unknown_option argument)
    else ok (record s { payload_specs = s.payload_specs ++ argument ∷ [] })

-- The loop over the arguments.
unfoldable pub parse_pack_arguments : PackState → List Bytes → Parsing PackState
parse_pack_arguments s [] = ok s
parse_pack_arguments s (argument ∷ []) = elim (pack_option argument) [
  | some o ↦ apply_pack_option o none s
  | none ↦ pack_positional argument s
]
parse_pack_arguments s (argument ∷ value ∷ rest) = elim (pack_option argument) [
  | some o ↦ do s' ← apply_pack_option o (some value) s; parse_pack_arguments s' rest
  | none ↦ do s' ← pack_positional argument s; parse_pack_arguments s' (value ∷ rest)
]

-- The checks behind the loop.
unfoldable pub finish_pack : PackState → Parsing Command
finish_pack s = do
  name ← ok_or s.name (missing name_option)
  entrypoint ← ok_or s.entrypoint (missing entrypoint_option)
  output ← ok_or s.output (missing output_option)
  reject_if (is_empty s.payload_specs) no_payloads
  let max_files = or_default s.max_files default_extraction_limits.max_files
  reject_if (ltb max_files (length s.payload_specs))
      (too_many_mappings (length s.payload_specs) max_files)
  ok (
      pack name entrypoint output s.payload_specs (record {
        max_files = max_files;
        max_total_bytes = or_default s.max_bytes default_extraction_limits.max_total_bytes;
      }))

abbrev pub asks_help : List Bytes → Bool
asks_help [] = false
asks_help (argument ∷ []) = argument == codes "-h" || argument == codes "--help"
asks_help (argument ∷ value ∷ rest) = false

unfoldable pub parse_pack : List Bytes → Parsing Command
parse_pack args =
    if asks_help args then ok help else (do s ← parse_pack_arguments pack_start args; finish_pack s)

-- The local variables of `parse_extract`.
pub record ExtractState : Type 0 where
  pub capsule : Option Bytes
  pub output : Option Bytes
  pub max_files : Option ℕ
  pub max_bytes : Option ℕ
  pub json : Bool

abbrev pub extract_start : ExtractState
extract_start = record {
  capsule = none;
  output = none;
  max_files = none;
  max_bytes = none;
  json = false;
}

unfoldable pub extract_option : Bytes → Option OptionName
extract_option argument =
    if argument == codes "--output"
    then some output_option
    else if argument == codes "--max-files"
    then some max_files_option
    else if argument == codes "--max-bytes"
    then some max_bytes_option
    else none

-- The body of each case of an option that takes a value; `extract` has no other such options.
unfoldable pub apply_extract_option :
    OptionName → Option Bytes → ExtractState → Parsing ExtractState
apply_extract_option max_files_option value s = do
  raw ← take_unique_value max_files_option value s.max_files
  n ← ok_or (parse_u64 raw) (requires_integer max_files_option)
  ok (record s { max_files = some n })
apply_extract_option max_bytes_option value s = do
  raw ← take_unique_value max_bytes_option value s.max_bytes
  n ← ok_or (parse_u64 raw) (requires_integer max_bytes_option)
  ok (record s { max_bytes = some n })
apply_extract_option output_option value s = do
  raw ← take_unique_value output_option value s.output
  ok (record s { output = some raw })
apply_extract_option name_option value s = ok s
apply_extract_option entrypoint_option value s = ok s

-- The other cases.
unfoldable pub extract_flag : Bytes → ExtractState → Parsing ExtractState
extract_flag argument s =
    if argument == codes "--json"
    then (if s.json then err json_only_once else ok (record s { json = true }))
    else if starts_with argument b'-'
    then err (unknown_option argument)
    else elim s.capsule [
      | none ↦ ok (record s { capsule = some argument })
      | some _ ↦ err (unexpected_argument argument)
    ]

-- The loop over the arguments.
unfoldable pub parse_extract_arguments : ExtractState → List Bytes → Parsing ExtractState
parse_extract_arguments s [] = ok s
parse_extract_arguments s (argument ∷ []) = elim (extract_option argument) [
  | some o ↦ apply_extract_option o none s
  | none ↦ extract_flag argument s
]
parse_extract_arguments s (argument ∷ value ∷ rest) = elim (extract_option argument) [
  | some o ↦ do s' ← apply_extract_option o (some value) s; parse_extract_arguments s' rest
  | none ↦ do s' ← extract_flag argument s; parse_extract_arguments s' (value ∷ rest)
]

unfoldable pub finish_extract : ExtractState → Parsing Command
finish_extract s = do
  capsule ← ok_or s.capsule missing_capsule
  output ← ok_or s.output (missing output_option)
  ok (
      extract capsule output
        (record {
          max_files = or_default s.max_files default_extraction_limits.max_files;
          max_total_bytes = or_default s.max_bytes default_extraction_limits.max_total_bytes;
        })
        s.json)

unfoldable pub parse_extract : List Bytes → Parsing Command
parse_extract args =
    if asks_help args
    then ok help
    else (do s ← parse_extract_arguments extract_start args; finish_extract s)

-- The cases of `parse_command` from the two commands on one file on.
unfoldable pub parse_file_command : Bytes → List Bytes → Parsing Command
parse_file_command command (file ∷ []) =
    if command == codes "inspect"
    then ok (inspect file)
    else if command == codes "verify"
    then ok (verify file)
    else err (unknown_command command)
parse_file_command command rest =
    if command == codes "inspect" || command == codes "verify"
    then err (one_file command)
    else err (unknown_command command)

unfoldable pub parse_command : List Bytes → Parsing Command
parse_command [] = ok help
parse_command (command ∷ rest) =
    let single = is_empty rest in
    if single && (command == codes "-h" || command == codes "--help")
    then ok help
    else if single && (command == codes "-V" || command == codes "--version")
    then ok version
    else if command == codes "pack"
    then parse_pack rest
    else if command == codes "extract"
    then parse_extract rest
    else parse_file_command command rest
