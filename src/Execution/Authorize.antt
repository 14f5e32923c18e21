-- ===== src/Execution/Authorize.antt =====
-- src/execution_cli.rs: the first half of `execute`, up to the start of the child.
use sci_capsule.Prelude.{
  ℕ, Bool, true, false, not, Option, List, ◌∷◌, Bytes, codes, checked_add, Result, ok, err, ok_or,
  map_err,
}
use sci_capsule.Action.{pure, lift, raise_if, ◌>>=◌, ◌>>◌, map_error}
use sci_capsule.Crypto.{Crypto, Json}
use sci_capsule.Files.{
  Location, Node, regular, directory, link, special, make_directory, remove_dir_all,
  symlink_metadata, attempt, untouched, Syscall,
}
use sci_capsule.Extraction.{max_capsule_metadata_bytes}
use sci_capsule.Extraction.Materialize.{Capsule, extract_capsule}
use sci_capsule.Cli.Commands.{Container}
use sci_capsule.Signature.{SignatureEnvelope}
use sci_capsule.Trust.{TrustPolicy, TrustDecision}
use sci_capsule.Trust.Verify.{enforces_lifecycle, verify}
use sci_capsule.Product.{
  Acting, ProductError, max_bytes_too_large, lifecycle_required, trust_failed,
  cannot_create_run_directory, cannot_materialize, cannot_inspect_entrypoint,
  entrypoint_not_regular, cannot_make_executable, read_decoded, read_policy, read_envelopes,
}
use sci_capsule.Execution.{RunCommand}

-- What `Command::spawn` is given: the program, its arguments, the directory, and the environment,
-- which is cleared before.
pub record Process : Type 0 where
  pub program : Location
  pub arguments : List Bytes
  pub current_dir : Location
  pub environment : List (Bytes × Bytes)

-- `is_file` of a link's own metadata.
abbrev pub is_file : Node → Bool
is_file (regular bytes) = true
is_file directory = false
is_file link = false
is_file special = false

-- `set_permissions`; a node's permissions are not part of the disk.
abbrev pub set_permissions : Location → Syscall (Unit {0})
set_permissions l = attempt untouched (λ entries. (ok tt, entries))

-- The part in the private run directory, up to the arguments of the child.
unfoldable pub materialize : Bytes → Location → RunCommand → Capsule → Acting Process
materialize staging_name run_directory command capsule = do
  summary ←
      map_error cannot_materialize
        (extract_capsule staging_name capsule (codes "root" ∷ run_directory) command.limits)
  node ← map_error cannot_inspect_entrypoint (symlink_metadata summary.entrypoint)
  raise_if (not (is_file node)) entrypoint_not_regular
  map_error cannot_make_executable (set_permissions summary.entrypoint)
  pure (record {
    program = summary.entrypoint;
    arguments = command.arguments;
    current_dir = summary.destination;
    environment = command.environment;
  })

-- The run directory is removed where no child is started in it.
abbrev pub or_remove_directory : Location → Result ProductError Process → Acting Process
or_remove_directory run_directory (ok process) d = (ok process, d)
or_remove_directory run_directory (err e) d = (err e, (remove_dir_all run_directory d).1)

module _ (locate : Bytes → Location) (crypto : Crypto) (policy_json : Json TrustPolicy)
    (container : Container) (json : Json SignatureEnvelope) (clock : Option ℕ) where
  -- Up to the decision.
  unfoldable pub authorize : RunCommand → Acting (Capsule × TrustDecision)
  authorize command = do
    maximum_encoded_bytes ← lift (
        ok_or (checked_add command.limits.max_total_bytes max_capsule_metadata_bytes)
          max_bytes_too_large)
    (capsule_bytes, capsule) ← read_decoded locate container command.capsule maximum_encoded_bytes
    policy ← read_policy locate crypto policy_json command.policy
    raise_if (not (enforces_lifecycle policy)) lifecycle_required
    signatures ← read_envelopes locate json command.signatures
    trust ←
        lift
          (map_err trust_failed (verify crypto policy_json clock policy capsule_bytes signatures))
    pure (capsule, trust)

  -- `run_directory` is the one that `tempfile` makes, and `staging_name` the name that it finds.
  unfoldable pub prepare : Bytes → Location → RunCommand → Acting (TrustDecision × Process)
  prepare staging_name run_directory command = do
    (capsule, trust) ← authorize command
    map_error cannot_create_run_directory (make_directory run_directory)
    process ← λ d.
        let (r, d') = materialize staging_name run_directory command capsule d in
        or_remove_directory run_directory r d'
    pure (trust, process)
