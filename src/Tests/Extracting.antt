-- ===== src/Tests/Extracting.antt =====
-- Runs of `extract_capsule`, and examples of its theorems.
use sci_capsule.Prelude.{
  ◌≡◌, refl, none, some, Option, Result, ok, err, [], ◌∷◌, List, codes, contains, split,
  starts_with, list_beq, checked_add, nat_eq, list_eq, arith, head_eq, ◌==◌, if◌then◌else◌, ℕ,
}
use sci_capsule.Files
use sci_capsule.Files.{
  Location, Entries, Disk, Node, directory, regular, still, attempt, below, create_dir_all, update,
}
use sci_capsule.Files.Directories.{IsTree}
use sci_capsule.Extraction
use sci_capsule.Extraction.{
  Payload, ExtractionLimits, ExtractionError, Preflight, portable_path, preflight,
  default_extraction_limits, push_components, path_lt, insert_path, check_payloads, find_ancestor,
  check_conflicts,
}
use sci_capsule.Extraction.Limits.{Fits, preflight_iff}
use sci_capsule.Extraction.Materialize.{
  Capsule, ExtractionSummary, extract_capsule, in_staging, publish, conclude, materialize_payloads,
  materialize_payload, write_payload, reject_existing_destination,
}
use sci_capsule.Extraction.Publishing.{IsExtracted}
use sci_capsule.Extraction.Extracted.{extract_capsule-IsExtracted}
use sci_capsule.Extraction.Failing.{extract_capsule-fails}
use sci_capsule.Extraction.Succeeding.{extract_capsule-Fits}
use sci_capsule.Tests.Extraction.{tree, preflight_tree, run_preflight}

abbrev capsule : Capsule
capsule = record { entrypoint = codes "bin/run"; payloads = tree }

abbrev out : Location
out = codes "out" ∷ []

abbrev pub root_only : Entries
root_only l = if l == [] then some directory else none

pub root_only-IsTree : IsTree root_only
unfolding list_beq
root_only-IsTree = record { root = refl; parents = λ n p h. absurd (h refl) }

tree-Fits : Fits tree default_extraction_limits
unfolding run_preflight
tree-Fits =
    ((preflight_iff tree default_extraction_limits (record { file_count = 2; total_bytes = 3 })).0
      preflight_tree).0

-- Opens everything that `extract_capsule` calls.
run : List (Option ℕ) → Result ExtractionError ExtractionSummary × Disk
unfolding extract_capsule in_staging publish conclude materialize_payloads materialize_payload
    write_payload reject_existing_destination attempt below create_dir_all preflight check_payloads
    portable_path push_components split starts_with contains list_beq checked_add insert_path
    path_lt check_conflicts find_ancestor
run faults =
    extract_capsule (codes "tmp") capsule out default_extraction_limits
      (record { entries = root_only; faults = faults })

run_still :
    (run []).0
    ≡ ok (record {
      destination = out;
      entrypoint = codes "run" ∷ codes "bin" ∷ out;
      file_count = 2;
      total_bytes = 3;
    })
unfolding run
run_still = refl

run_file : (run []).1.entries (codes "run" ∷ codes "bin" ∷ out) ≡ some (regular (3 ∷ []))
unfolding run
run_file = refl

run_staging : (run []).1.entries (codes "tmp" ∷ []) ≡ none
unfolding run
run_staging = refl

-- The write of the first file fails after a byte.
abbrev broken : List (Option ℕ)
broken = none ∷ none ∷ none ∷ none ∷ some 1 ∷ []

write_failure :
    (run broken).0
    ≡ err (
        Extraction.io Extraction.write_file
          (codes "x" ∷ codes "data" ∷ codes "tmp" ∷ [])
          Files.system_error)
unfolding run
write_failure = refl

extract_capsule-Fits_example :
    (summary : ExtractionSummary) × (f' : Entries) × (extract_capsule
        (codes "tmp")
        capsule
        out
        default_extraction_limits
        (still root_only)
      ≡ (ok summary, still f'))
unfolding list_beq contains
extract_capsule-Fits_example =
    extract_capsule-Fits (codes "tmp") capsule (codes "out") [] default_extraction_limits root_only
      root_only-IsTree tree-Fits refl refl refl refl (λ e. absurd (omega (arith, head_eq e)))

extract_capsule-IsExtracted_example :
    IsExtracted capsule out default_extraction_limits root_only (run []).1.entries (record {
      destination = out;
      entrypoint = codes "run" ∷ codes "bin" ∷ out;
      file_count = 2;
      total_bytes = 3;
    })
unfolding run
extract_capsule-IsExtracted_example =
    extract_capsule-IsExtracted (codes "tmp") capsule out default_extraction_limits
      (still root_only) (run []).1
      (record {
        destination = out;
        entrypoint = codes "run" ∷ codes "bin" ∷ out;
        file_count = 2;
        total_bytes = 3;
      })
      root_only-IsTree (λ i. (run_still i, (run []).1))

extract_capsule-fails_example : (run broken).1.entries out ≡ none
unfolding run list_beq contains
extract_capsule-fails_example =
    extract_capsule-fails (codes "tmp") capsule out default_extraction_limits
      (record { entries = root_only; faults = broken }) (run broken).1
      (Extraction.io Extraction.write_file (codes "x" ∷ codes "data" ∷ codes "tmp" ∷ [])
        Files.system_error)
      root_only-IsTree refl (λ i. (write_failure i, (run broken).1)) out (λ up _. refl)
