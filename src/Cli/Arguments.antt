-- ===== src/Cli/Arguments.antt =====
-- src/lib.rs: the arguments that ask for a command, and that `parse_command` reads them back.
use sci_capsule.Prelude.{
  ℕ, ◌≤◌, ◌≡◌, refl, sym, ap, ◌∙◌, Bool, true, false, none, some, List, [], ◌∷◌, ◌++◌, Bytes, codes,
  ◌==◌, nat_eq, list_eq, list_beq, length, is_empty, starts_with, ok, All, append_assoc, append-nil,
  le→ltb, u64_max, to_string, parse_u64-to_string, is_empty-to_string,
}
use sci_capsule.Extraction.{ExtractionLimits}
use sci_capsule.Cli.{
  Command, OptionName, help, version, pack, inspect, verify, extract, name_option,
  entrypoint_option, output_option, max_files_option, max_bytes_option,
}
use sci_capsule.Cli.Parse.{
  take_unique_value, PackState, pack_option, apply_pack_option, pack_positional,
  parse_pack_arguments, finish_pack, parse_pack, extract_option, apply_extract_option, extract_flag,
  parse_extract_arguments, finish_extract, parse_extract, parse_file_command, parse_command,
}

abbrev json_arguments : Bool → List Bytes
json_arguments true = codes "--json" ∷ []
json_arguments false = []

-- How a caller spells a command, with every option.
abbrev pub command_arguments : Command → List Bytes
command_arguments help = codes "--help" ∷ []
command_arguments version = codes "--version" ∷ []
command_arguments (pack name entrypoint output specs limits) =
    codes "pack"
    ∷ codes "--name"
    ∷ name
    ∷ codes "--entrypoint"
    ∷ entrypoint
    ∷ codes "--output"
    ∷ output
    ∷ codes "--max-files"
    ∷ to_string limits.max_files
    ∷ codes "--max-bytes"
    ∷ to_string limits.max_total_bytes
    ∷ specs
command_arguments (inspect file) = codes "inspect" ∷ file ∷ []
command_arguments (verify file) = codes "verify" ∷ file ∷ []
command_arguments (extract capsule output limits json) =
    codes "extract"
      ∷ codes "--output"
      ∷ output
      ∷ codes "--max-files"
      ∷ to_string limits.max_files
      ∷ codes "--max-bytes"
      ∷ to_string limits.max_total_bytes
      ∷ json_arguments json
    ++ capsule ∷ []

-- The commands that arguments can ask for.
pub record IsPackable (name entrypoint output : Bytes) (specs : List Bytes)
    (limits : ExtractionLimits) : Type 0 where
  pub name_given : is_empty name ≡ false
  pub entrypoint_given : is_empty entrypoint ≡ false
  pub output_given : is_empty output ≡ false
  pub specs_given : is_empty specs ≡ false
  pub no_options : All (λ spec. starts_with spec b'-' ≡ false) specs
  pub few : length specs ≤ limits.max_files
  pub files_fit : limits.max_files ≤ u64_max
  pub bytes_fit : limits.max_total_bytes ≤ u64_max

pub record IsExtractable (capsule output : Bytes) (limits : ExtractionLimits) : Type 0 where
  pub output_given : is_empty output ≡ false
  pub no_option : starts_with capsule b'-' ≡ false
  pub files_fit : limits.max_files ≤ u64_max
  pub bytes_fit : limits.max_total_bytes ≤ u64_max

abbrev pub IsExpressible : Command → Type 0
IsExpressible help = Unit {0}
IsExpressible version = Unit {0}
IsExpressible (pack name entrypoint output specs limits) =
    IsPackable name entrypoint output specs limits
IsExpressible (inspect file) = Unit {0}
IsExpressible (verify file) = Unit {0}
IsExpressible (extract capsule output limits json) = IsExtractable capsule output limits

take_fresh :
    (o : OptionName) (value : Bytes)
    → is_empty value ≡ false
    → take_unique_value {A = Bytes} o (some value) none ≡ ok value
unfolding take_unique_value
take_fresh o value h = rw h refl

take_number :
    (o : OptionName) (n : ℕ)
    → take_unique_value {A = ℕ} o (some (to_string n)) none ≡ ok (to_string n)
unfolding take_unique_value
take_number o n = rw (is_empty-to_string n) refl

pack_option-none : (a : Bytes) → starts_with a b'-' ≡ false → pack_option a ≡ none
unfolding pack_option list_beq starts_with
pack_option-none [] h = refl
pack_option-none (c ∷ a) h = rw h refl

-- The mappings are all kept, in their order.
push_specs :
    (s : PackState) (specs : List Bytes)
    → All (λ spec. starts_with spec b'-' ≡ false) specs
    → parse_pack_arguments s specs ≡ ok (record s { payload_specs = s.payload_specs ++ specs })
unfolding parse_pack_arguments pack_positional
push_specs s [] _ = ap (λ l. ok (record s { payload_specs = l })) (sym (append-nil s.payload_specs))
push_specs s (spec ∷ []) (h, _) = rw (parse_pack_arguments, pack_option-none spec h, h) refl
push_specs s (spec ∷ next ∷ rest) (h, hs) =
    rw (parse_pack_arguments, pack_option-none spec h, h)
      (push_specs (record s { payload_specs = s.payload_specs ++ spec ∷ [] }) (next ∷ rest) hs
        ∙ ap (λ l. ok (record s { payload_specs = l }))
            (append_assoc s.payload_specs (spec ∷ []) (next ∷ rest)))

parse-pack :
    (name entrypoint output : Bytes) (specs : List Bytes) (limits : ExtractionLimits)
    → IsPackable name entrypoint output specs limits
    → parse_command (command_arguments (pack name entrypoint output specs limits))
      ≡ ok (pack name entrypoint output specs limits)
unfolding parse_command parse_pack parse_pack_arguments pack_option apply_pack_option finish_pack
    list_beq
parse-pack name entrypoint output specs limits h =
    rw
      (
        take_fresh name_option name h.name_given,
        take_fresh entrypoint_option entrypoint h.entrypoint_given,
        take_fresh output_option output h.output_given,
        take_number max_files_option limits.max_files,
        parse_u64-to_string limits.max_files h.files_fit,
        take_number max_bytes_option limits.max_total_bytes,
        parse_u64-to_string limits.max_total_bytes h.bytes_fit,
      )
      (rw (push_specs all specs h.no_options, h.specs_given, le→ltb _ _ h.few) refl)
  where
    all : PackState
    all = record {
      name = some name;
      entrypoint = some entrypoint;
      output = some output;
      max_files = some limits.max_files;
      max_bytes = some limits.max_total_bytes;
      payload_specs = [];
    }

extract_option-none : (a : Bytes) → starts_with a b'-' ≡ false → extract_option a ≡ none
unfolding extract_option list_beq starts_with
extract_option-none [] h = refl
extract_option-none (c ∷ a) h = rw h refl

not_json : (a : Bytes) → starts_with a b'-' ≡ false → (a == codes "--json") ≡ false
unfolding list_beq starts_with
not_json [] h = refl
not_json (c ∷ a) h = rw h refl

parse-extract :
    (capsule output : Bytes) (limits : ExtractionLimits) (json : Bool)
    → IsExtractable capsule output limits
    → parse_command (command_arguments (extract capsule output limits json))
      ≡ ok (extract capsule output limits json)
unfolding parse_command parse_extract parse_extract_arguments extract_option apply_extract_option
    extract_flag finish_extract list_beq
parse-extract capsule output limits true h =
    rw
      (
        take_fresh output_option output h.output_given,
        take_number max_files_option limits.max_files,
        parse_u64-to_string limits.max_files h.files_fit,
        take_number max_bytes_option limits.max_total_bytes,
        parse_u64-to_string limits.max_total_bytes h.bytes_fit,
      )
      (rw
        (
          extract_option-none capsule h.no_option,
          extract_flag,
          not_json capsule h.no_option,
          h.no_option,
        )
        refl)
parse-extract capsule output limits false h =
    rw
      (
        take_fresh output_option output h.output_given,
        take_number max_files_option limits.max_files,
        parse_u64-to_string limits.max_files h.files_fit,
        take_number max_bytes_option limits.max_total_bytes,
        parse_u64-to_string limits.max_total_bytes h.bytes_fit,
      )
      (rw
        (
          extract_option-none capsule h.no_option,
          extract_flag,
          not_json capsule h.no_option,
          h.no_option,
        )
        refl)

-- `parse_command` reads every command back from the arguments that spell it with all its options,
-- where the command can be spelled: its paths and its name are not empty, its positional arguments
-- do not start with `-`, its limits are numbers of 64 bits, and a `pack` has between one payload
-- mapping and as many as its own limit allows.
pub parse-command_arguments :
    (command : Command)
    → IsExpressible command
    → parse_command (command_arguments command) ≡ ok command
unfolding parse_command parse_file_command list_beq
parse-command_arguments help h = refl
parse-command_arguments version h = refl
parse-command_arguments (pack name entrypoint output specs limits) h =
    parse-pack name entrypoint output specs limits h
parse-command_arguments (inspect file) h = refl
parse-command_arguments (verify file) h = refl
parse-command_arguments (extract capsule output limits json) h =
    parse-extract capsule output limits json h
