-- ===== src/Tests/Extraction.antt =====
-- Runs of `portable_path` and `preflight`, and examples of their theorems.
use sci_capsule.Prelude.{
  ◌≡◌, refl, ◌↔◌, ok, err, [], ◌∷◌, List, codes, contains, split, starts_with, list_beq,
  checked_add, nat_eq, list_eq, length,
}
use sci_capsule.Extraction
use sci_capsule.Extraction.{
  Payload, PathBuf, ExtractionLimits, Preflight, portable_path, preflight,
  default_extraction_limits, push_components, path_lt, insert_path, check_payloads, find_ancestor,
  check_conflicts,
}
use sci_capsule.Extraction.Limits.{Fits, preflight_iff, payload_bytes}

abbrev bin_run : PathBuf
bin_run = codes "bin" ∷ codes "run" ∷ []

-- Opens everything that `preflight` calls.
unfoldable pub run_preflight : List Payload → ExtractionLimits → Extraction.Outcome Preflight
unfolding preflight check_payloads portable_path push_components split starts_with contains list_beq
    checked_add insert_path path_lt check_conflicts find_ancestor
run_preflight = preflight

abbrev pub tree : List Payload
tree =
    record { path = codes "data/x"; bytes = 1 ∷ 2 ∷ [] }
    ∷ record { path = codes "bin/run"; bytes = 3 ∷ [] }
    ∷ []

pub preflight_tree :
    run_preflight tree default_extraction_limits ≡ ok (record { file_count = 2; total_bytes = 3 })
unfolding run_preflight
preflight_tree = refl

preflight_few_bytes :
    run_preflight tree (record { max_files = 2; max_total_bytes = 2 })
    ≡ err (Extraction.too_many_bytes 3 2)
unfolding run_preflight
preflight_few_bytes = refl

preflight_conflict :
    run_preflight
      (record { path = codes "bin/run"; bytes = [] }
        ∷ record { path = codes "bin"; bytes = [] }
        ∷ [])
      default_extraction_limits
    ≡ err (Extraction.conflicting_paths (codes "bin") (codes "bin/run"))
unfolding run_preflight
preflight_conflict = refl

preflight_parent :
    run_preflight (record { path = codes "a/../b"; bytes = [] } ∷ []) default_extraction_limits
    ≡ err (Extraction.invalid_path (codes "a/../b") Extraction.special_component)
unfolding run_preflight
preflight_parent = refl

preflight_iff_example :
    (preflight tree default_extraction_limits ≡ ok (record { file_count = 2; total_bytes = 3 }))
    ↔ (Fits tree default_extraction_limits × (2 ≡ length tree) × (3 ≡ payload_bytes tree))
preflight_iff_example =
    preflight_iff tree default_extraction_limits (record { file_count = 2; total_bytes = 3 })
