-- ===== src/Extraction.antt =====
-- src/extraction.rs: limits, errors, `portable_path` and `preflight`; the extraction is in Materialize.
pub mod Paths
pub mod Conflicts
pub mod Limits
pub mod Materialize
pub mod Placing
pub mod Trees
pub mod Places
pub mod Loop
pub mod Steps
pub mod Publishing
pub mod Extracted
pub mod Failing
pub mod Succeeding
use sci_capsule.Prelude.{
  ℕ, Bool, ◌||◌, Option, none, some, List, [], ◌∷◌, ◌++◌, ◌*◌, Bytes, codes, ltb, ◌==◌, nat_eq,
  list_eq, if◌then◌else◌, length, is_empty, contains, starts_with, split, checked_add, Result, ok,
  err, reject_if, ok_or, ◌>>=◌, ◌>>◌,
}
use sci_capsule.Files.{Location, IoError}

abbrev pub max_capsule_metadata_bytes : ℕ
max_capsule_metadata_bytes = 16 * 1024 * 1024

pub record ExtractionLimits : Type 0 where
  pub max_files : ℕ
  pub max_total_bytes : ℕ

abbrev pub default_extraction_limits : ExtractionLimits
default_extraction_limits = record { max_files = 4096; max_total_bytes = 1024 * 1024 * 1024 }

-- What `Capsule::payloads` yields: the path and the bytes of each payload.
pub record Payload : Type 0 where
  pub path : Bytes
  pub bytes : Bytes

-- A relative `PathBuf`, as its components.
abbrev pub PathBuf : Type 0
PathBuf = List Bytes

pub data PathReason : Type 0 where
  not_relative special_component non_portable_syntax no_parent : PathReason

-- The `operation` of an I/O error.
pub data IoOperation : Type 0 where
  inspect_destination create_staging create_directory create_file : IoOperation
  write_file sync_file publish_at : IoOperation

pub data ExtractionError : Type 0 where
  too_many_files too_many_bytes : ℕ → ℕ → ExtractionError
  size_overflow : ExtractionError
  invalid_path : Bytes → PathReason → ExtractionError
  duplicate_path : Bytes → ExtractionError
  -- `file`, `descendant`
  conflicting_paths : Bytes → Bytes → ExtractionError
  invalid_destination : ExtractionError
  destination_exists : Location → ExtractionError
  io : IoOperation → Location → IoError → ExtractionError

abbrev pub Outcome : Type 0 → Type 0
Outcome A = Result ExtractionError A

-- The `for` loop over the components, from the path that has been pushed so far.
unfoldable pub push_components : Bytes → PathBuf → List Bytes → Outcome PathBuf
push_components path relative [] = ok relative
push_components path relative (component ∷ components) = do
  reject_if (is_empty component || component == codes "." || component == codes "..")
      (invalid_path path special_component)
  reject_if (contains component b'\\' || contains component b':' || contains component 0)
      (invalid_path path non_portable_syntax)
  push_components path (relative ++ component ∷ []) components

unfoldable pub portable_path : Bytes → Outcome PathBuf
portable_path path = do
  reject_if (is_empty path || starts_with path b'/') (invalid_path path not_relative)
  push_components path [] (split b'/' path)

-- `str`'s order, by bytes.
unfoldable pub path_lt : Bytes → Bytes → Bool
path_lt [] [] = Bool.false
path_lt [] (d ∷ ds) = Bool.true
path_lt (c ∷ cs) [] = Bool.false
path_lt (c ∷ cs) (d ∷ ds) = ltb c d || (if c == d then path_lt cs ds else Bool.false)

-- `BTreeSet::insert` of a path that is not there: the set in its order.
unfoldable pub insert_path : Bytes → List Bytes → List Bytes
insert_path path [] = path ∷ []
insert_path path (q ∷ paths) =
    if path_lt path q then path ∷ q ∷ paths else q ∷ insert_path path paths

-- The loop over the payloads, from the total and the paths so far.
unfoldable pub check_payloads : ℕ → List Bytes → List Payload → Outcome (ℕ × List Bytes)
check_payloads total_bytes paths [] = ok (total_bytes, paths)
check_payloads total_bytes paths (payload ∷ payloads) = do
  _ ← portable_path payload.path
  total_bytes ← ok_or (checked_add total_bytes (length payload.bytes)) size_overflow
  reject_if (contains paths payload.path) (duplicate_path payload.path)
  check_payloads total_bytes (insert_path payload.path paths) payloads

-- The loop over the proper prefixes of one path, from the prefix so far: the first one that is
-- itself a payload.
unfoldable pub find_ancestor : List Bytes → Bytes → List Bytes → Option Bytes
find_ancestor paths prefix [] = none
find_ancestor paths prefix (component ∷ []) = none
find_ancestor paths prefix (component ∷ next ∷ components) =
    let extended = if is_empty prefix then component else prefix ++ b'/' ∷ component in
    let rest = find_ancestor paths extended (next ∷ components) in
    if contains paths extended then some extended else rest

-- The loop over the paths.
unfoldable pub check_conflicts : List Bytes → List Bytes → Outcome (Unit {0})
check_conflicts paths [] = ok tt
check_conflicts paths (path ∷ remaining) = elim (find_ancestor paths [] (split b'/' path)) [
  | some prefix ↦ err (conflicting_paths prefix path)
  | none ↦ check_conflicts paths remaining
]

pub record Preflight : Type 0 where
  pub file_count : ℕ
  pub total_bytes : ℕ

unfoldable pub preflight : List Payload → ExtractionLimits → Outcome Preflight
preflight payloads limits = do
  reject_if (ltb limits.max_files (length payloads))
      (too_many_files (length payloads) limits.max_files)
  (total_bytes, paths) ← check_payloads 0 [] payloads
  reject_if (ltb limits.max_total_bytes total_bytes)
      (too_many_bytes total_bytes limits.max_total_bytes)
  check_conflicts paths paths
  ok (record { file_count = length payloads; total_bytes = total_bytes })
