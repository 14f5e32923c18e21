-- ===== src/Extraction/Materialize.antt =====
-- src/extraction.rs: `extract_capsule`, `reject_existing_destination` and `rename_no_replace`, on
-- the file system of Files.
use sci_capsule.Prelude.{ℕ, Option, none, some, List, [], ◌∷◌, Bytes, Result, ok, err, ok_or}
use sci_capsule.Action.{Action, pure, lift, ◌>>=◌, ◌>>◌, map_error}
use sci_capsule.Files.{
  Location, Node, Disk, IoError, make_directory, create_new, write_all, sync_all, symlink_metadata,
  remove_dir_all, rename_no_replace, create_dir_all,
}
use sci_capsule.Extraction.{
  PathBuf, Payload, Preflight, ExtractionLimits, ExtractionError, invalid_path, no_parent,
  invalid_destination, destination_exists, io, inspect_destination, create_staging,
  create_directory, create_file, write_file, sync_file, publish_at, portable_path, preflight,
}

-- What the extraction reads of a `Capsule`.
pub record Capsule : Type 0 where
  pub entrypoint : Bytes
  pub payloads : List Payload

pub record ExtractionSummary : Type 0 where
  pub destination : Location
  pub entrypoint : Location
  pub file_count : ℕ
  pub total_bytes : ℕ

abbrev pub Extracting : Type 0 → Type 0
Extracting A = Action Disk ExtractionError A

-- `Path::join` with a relative path.
abbrev pub join_path : Location → PathBuf → Location
join_path base [] = base
join_path base (name ∷ relative) = join_path (name ∷ base) relative

-- `Path::parent`, which the root, the one place without a name, does not have either.
abbrev pub parent : Location → Option Location
parent [] = none
parent (name ∷ up) = some up

-- The match on what `symlink_metadata` says of the destination.
abbrev pub absence : Location → Result IoError Node → Result ExtractionError (Unit {0})
absence destination (ok node) = err (destination_exists destination)
absence destination (err IoError.not_found) = ok tt
absence destination (err IoError.already_exists) =
    err (io inspect_destination destination IoError.already_exists)
absence destination (err IoError.not_permitted) =
    err (io inspect_destination destination IoError.not_permitted)
absence destination (err IoError.system_error) =
    err (io inspect_destination destination IoError.system_error)

unfoldable pub reject_existing_destination : Location → Extracting (Unit {0})
reject_existing_destination destination d =
    let (r, d') = symlink_metadata destination d in (absence destination r, d')

-- The part of the loop's body behind `portable_path`.
unfoldable pub write_payload : Location → Location → Bytes → Extracting (Unit {0})
write_payload target target_parent bytes = do
  map_error (io create_directory target_parent) (create_dir_all target_parent)
  map_error (io create_file target) (create_new target)
  map_error (io write_file target) (write_all target bytes)
  map_error (io sync_file target) sync_all

-- The body of the loop over the payloads.
unfoldable pub materialize_payload : Location → Payload → Extracting (Unit {0})
materialize_payload staging payload = do
  relative ← lift (portable_path payload.path)
  target_parent ←
      lift (ok_or (parent (join_path staging relative)) (invalid_path payload.path no_parent))
  write_payload (join_path staging relative) target_parent payload.bytes

unfoldable pub materialize_payloads : Location → List Payload → Extracting (Unit {0})
materialize_payloads staging [] = pure tt
materialize_payloads staging (payload ∷ payloads) = do
  materialize_payload staging payload
  materialize_payloads staging payloads

-- From the rename to the end.
unfoldable pub conclude : Location → Capsule → Location → Preflight → Extracting ExtractionSummary
conclude staging capsule destination checked = do
  map_error (io publish_at destination) (rename_no_replace staging destination)
  relative ← lift (portable_path capsule.entrypoint)
  pure (record {
    destination = destination;
    entrypoint = join_path destination relative;
    file_count = checked.file_count;
    total_bytes = checked.total_bytes;
  })

-- From the loop to the end.
unfoldable pub publish : Location → Capsule → Location → Preflight → Extracting ExtractionSummary
publish staging capsule destination checked = do
  materialize_payloads staging capsule.payloads
  reject_existing_destination destination
  conclude staging capsule destination checked

-- The scope of a `TempDir`, which is removed at its end, on an error too.
unfoldable pub in_staging : {A : Type 0} → Location → Extracting A → Extracting A
in_staging staging body d = let (r, d') = body d in (r, (remove_dir_all staging d').1)

-- `name` is the one that `tempfile` has found for the staging directory.
unfoldable pub extract_capsule :
    Bytes → Capsule → Location → ExtractionLimits → Extracting ExtractionSummary
extract_capsule name capsule destination limits = do
  checked ← lift (preflight capsule.payloads limits)
  up ← lift (ok_or (parent destination) invalid_destination)
  reject_existing_destination destination
  map_error (io create_staging up) (make_directory (name ∷ up))
  in_staging (name ∷ up) (publish (name ∷ up) capsule destination checked)
