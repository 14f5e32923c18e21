-- ===== src/Cli/Commands.antt =====
-- src/lib.rs: what `pack`, `inspect`, `verify` and `extract` do on the file system.
use sci_capsule.Prelude.{
  ℕ, ◌≡◌, ◌+◌, ◌-◌, Bool, true, false, ◌&&◌, ◌||◌, Option, none, some, List, [], ◌∷◌, Bytes, ltb,
  leb, ◌==◌, nat_eq, list_eq, if◌then◌else◌, length, is_empty, checked_add, split_once, ok_or,
}
use sci_capsule.Action.{Action, pure, lift, raise_if, ◌>>=◌, ◌>>◌, map_error}
use sci_capsule.Files.{Location, Disk}
use sci_capsule.Files.Access.{FileError, read_regular_input_bounded, write_new_capsule}
use sci_capsule.Extraction.{
  ExtractionLimits, Payload, max_capsule_metadata_bytes, default_extraction_limits,
}
use sci_capsule.Extraction.Materialize.{Capsule, ExtractionSummary, extract_capsule}
use sci_capsule.Cli.{
  Command, CliError, usage, operation, help, version, pack, inspect, verify, extract, empty_name,
  too_many_payloads, accounting_underflow, accounting_overflow, cannot_build, cannot_encode,
  invalid_capsule, file, cannot_extract, max_bytes_too_large, configured_limit_too_large,
  mapping_form, empty_source, invalid_payload_path, invalid_entrypoint,
}

abbrev pub default_capsule_read_limit : ℕ
default_capsule_read_limit = default_extraction_limits.max_total_bytes + max_capsule_metadata_bytes

-- The packages scirust_capsule and scirust_capsule_schema: `CapsulePath::new`, which keeps the text
-- that it accepts, `Capsule::new` from the name, the entrypoint and the payloads, `encode`,
-- `decode`, and the manifest as pretty-printed JSON.
pub record Container : Type 0 where
  pub accepts_path : Bytes → Bool
  pub new_capsule : Bytes → Bytes → List Payload → Option Capsule
  pub encode : Capsule → Option Bytes
  pub decode : Bytes → Option Capsule
  pub name : Capsule → Bytes
  pub manifest_json : Capsule → Bytes

-- `decode` reads back what `encode` has written.
abbrev pub IsLawful : Container → Type 0
IsLawful container =
    (capsule : Capsule) (encoded : Bytes)
    → container.encode capsule ≡ some encoded
    → container.decode encoded ≡ some capsule

-- What a command prints, by its parts.
pub data Output : Type 0 where
  help_text version_text : Output
  -- the number of payloads, their bytes, the output file, the encoded bytes
  packed : ℕ → ℕ → Bytes → ℕ → Output
  manifest : Bytes → Output
  -- the file, the capsule's name, the number of its payloads
  verified : Bytes → Bytes → ℕ → Output
  -- the summary, and whether it is printed as JSON
  extracted : ExtractionSummary → Bool → Output

abbrev pub Running : Type 0 → Type 0
Running A = Action Disk CliError A

-- The code points with the property White_Space, by the length of their UTF-8 encoding.
abbrev is_blank1 : ℕ → Bool
is_blank1 a = a == 32 || (leb 9 a && leb a 13)

abbrev is_blank2 : ℕ → ℕ → Bool
is_blank2 a b = a == 0xC2 && (b == 0x85 || b == 0xA0)

abbrev is_blank3 : ℕ → ℕ → ℕ → Bool
is_blank3 a b c =
    (a == 0xE1 && b == 0x9A && c == 0x80)
    || (a == 0xE2 && b == 0x80 && (leb 0x80 c && leb c 0x8A || c == 0xA8 || c == 0xA9 || c == 0xAF))
    || (a == 0xE2 && b == 0x81 && c == 0x9F)
    || (a == 0xE3 && b == 0x80 && c == 0x80)

-- `trim().is_empty()` of a text in UTF-8.
unfoldable pub is_blank : Bytes → Bool
is_blank [] = true
is_blank (a ∷ []) = is_blank1 a
is_blank (a ∷ b ∷ []) = (is_blank1 a && is_blank1 b) || is_blank2 a b
is_blank (a ∷ b ∷ c ∷ rest) =
    (is_blank1 a && is_blank (b ∷ c ∷ rest))
    || (is_blank2 a b && is_blank (c ∷ rest))
    || (is_blank3 a b c && is_blank rest)

unfoldable pub checked_sub : ℕ → ℕ → Option ℕ
checked_sub a b = if ltb a b then none else some (a - b)

-- A limit that cannot be made one more is a usage error; every other failure is one of operation.
abbrev pub file_error : FileError → CliError
file_error FileError.read_limit_too_large = usage configured_limit_too_large
file_error FileError.non_regular = operation (file FileError.non_regular)
file_error (FileError.cannot_open e) = operation (file (FileError.cannot_open e))
file_error (FileError.cannot_inspect e) = operation (file (FileError.cannot_inspect e))
file_error (FileError.cannot_read e) = operation (file (FileError.cannot_read e))
file_error (FileError.too_long n m) = operation (file (FileError.too_long n m))
file_error (FileError.exceeded n) = operation (file (FileError.exceeded n))
file_error (FileError.cannot_create e) = operation (file (FileError.cannot_create e))
file_error (FileError.cannot_write e) = operation (file (FileError.cannot_write e))

-- `locate` is the place that the system finds for a path, and `staging_name` the name that
-- `tempfile` finds.
module _ (container : Container) (locate : Bytes → Location) where
  -- The rest of the loop's body, once the mapping is known to be well formed.
  unfoldable pub pack_source : ℕ → ℕ → Bytes → Bytes → Running (Payload × ℕ)
  pack_source max_total_bytes total capsule_path source_path = do
    remaining ← lift (ok_or (checked_sub max_total_bytes total) (operation accounting_underflow))
    bytes ← map_error file_error (read_regular_input_bounded (locate source_path) remaining)
    total ← lift (ok_or (checked_add total (length bytes)) (operation accounting_overflow))
    pure (record { path = capsule_path; bytes = bytes }, total)

  -- The body of the loop over the mappings, from the bytes counted so far.
  unfoldable pub pack_payload : ℕ → ℕ → Bytes → Running (Payload × ℕ)
  pack_payload max_total_bytes total spec = do
    (capsule_path, source_path) ← lift (ok_or (split_once b'=' spec) (usage (mapping_form spec)))
    raise_if (is_empty source_path) (usage (empty_source spec))
    raise_if (if container.accepts_path capsule_path then false else true)
        (usage (invalid_payload_path capsule_path))
    pack_source max_total_bytes total capsule_path source_path

  -- The loop, from the bytes counted so far.
  unfoldable pub pack_payloads : ℕ → ℕ → List Bytes → Running (List Payload × ℕ)
  pack_payloads max_total_bytes total [] = pure ([], total)
  pack_payloads max_total_bytes total (spec ∷ specs) = do
    (payload, total) ← pack_payload max_total_bytes total spec
    (payloads, total) ← pack_payloads max_total_bytes total specs
    pure (payload ∷ payloads, total)

  -- The part of `pack_command` behind the loop.
  unfoldable pub write_packed : Bytes → Bytes → Bytes → List Payload → ℕ → Running Output
  write_packed name entrypoint output payloads total = do
    capsule ← lift (ok_or (container.new_capsule name entrypoint payloads) (operation cannot_build))
    encoded ← lift (ok_or (container.encode capsule) (operation cannot_encode))
    map_error file_error (write_new_capsule (locate output) encoded)
    pure (packed (length capsule.payloads) total output (length encoded))

  unfoldable pub pack_command :
      Bytes → Bytes → Bytes → List Bytes → ExtractionLimits → Running Output
  pack_command name entrypoint output specs limits = do
    raise_if (is_blank name) (usage empty_name)
    raise_if (ltb limits.max_files (length specs))
        (operation (too_many_payloads (length specs) limits.max_files))
    raise_if (if container.accepts_path entrypoint then false else true)
        (usage (invalid_entrypoint entrypoint))
    (payloads, total) ← pack_payloads limits.max_total_bytes 0 specs
    write_packed name entrypoint output payloads total

  unfoldable pub read_capsule : Bytes → ℕ → Running Capsule
  read_capsule path maximum_bytes = do
    encoded ← map_error file_error (read_regular_input_bounded (locate path) maximum_bytes)
    lift (ok_or (container.decode encoded) (operation invalid_capsule))

  unfoldable pub inspect_command : Bytes → Running Output
  inspect_command path = do
    capsule ← read_capsule path default_capsule_read_limit
    pure (manifest (container.manifest_json capsule))

  unfoldable pub verify_command : Bytes → Running Output
  verify_command path = do
    capsule ← read_capsule path default_capsule_read_limit
    pure (verified path (container.name capsule) (length capsule.payloads))

  unfoldable pub extract_command : Bytes → Bytes → Bytes → ExtractionLimits → Bool → Running Output
  extract_command staging_name capsule_path output limits json = do
    maximum_bytes ← lift (
        ok_or (checked_add limits.max_total_bytes max_capsule_metadata_bytes)
          (usage max_bytes_too_large))
    capsule ← read_capsule capsule_path maximum_bytes
    summary ←
        map_error (λ e. operation (cannot_extract e))
          (extract_capsule staging_name capsule (locate output) limits)
    pure (extracted summary json)

  -- The match of `run` on the parsed command.
  unfoldable pub run_command : Bytes → Command → Running Output
  run_command staging_name help = pure help_text
  run_command staging_name version = pure version_text
  run_command staging_name (pack name entrypoint output specs limits) =
      pack_command name entrypoint output specs limits
  run_command staging_name (inspect path) = inspect_command path
  run_command staging_name (verify path) = verify_command path
  run_command staging_name (extract capsule output limits json) =
      extract_command staging_name capsule output limits json
