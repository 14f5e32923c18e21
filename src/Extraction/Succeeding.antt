-- ===== src/Extraction/Succeeding.antt =====
-- src/extraction.rs: where `extract_capsule` succeeds.
use sci_capsule.Prelude.{
  ◌≡◌, refl, sym, ap, subst, ◌∙◌, ◌≢◌, ◌⊎◌, inl, inr, true, none, some, List, [], ◌∷◌, Bytes, arith,
  ◌==◌, nat_eq, list_eq, list_beq, if◌then◌else◌, ok, Bool-cases, Option-cases, head_eq, contains,
  All, length, length-append,
}
use sci_capsule.Files.{Location, Entries, directory, still, below, update, untouched, enter, moved}
use sci_capsule.Files.Ancestors.{below-eq-some}
use sci_capsule.Files.Calls.{attempt_undisturbed, enter_fits, update_same}
use sci_capsule.Files.Directories.{IsTree, IsTree-enter}
use sci_capsule.Extraction.{Payload, Preflight, ExtractionLimits}
use sci_capsule.Extraction.Limits.{Fits, paths_of, preflight_iff, payload_bytes}
use sci_capsule.Extraction.Materialize.{
  Capsule, ExtractionSummary, join_path, publish, conclude, in_staging, extract_capsule,
}
use sci_capsule.Extraction.Trees.{files, tree, overlay}
use sci_capsule.Extraction.Places.{files-cons, Lies, Apart-Fits}
use sci_capsule.Extraction.Loop.{Free, place_root, subtree, loop_fits}
use sci_capsule.Extraction.Steps.{reject_fits, rename_fits, below-sibling}
use sci_capsule.Extraction.Extracted.{staged_tree, loop_outside}
use sci_capsule.Extraction.Failing.{member_portable}
use sci_capsule.Extraction.Placing.{place}
use sci_capsule.Extraction.Publishing.{staging_start, portable_all}

abbrev empty_tree : Entries
empty_tree l = if l == [] then some directory else none

empty_tree_cases : (l : Location) → (empty_tree l ≡ none) ⊎ (empty_tree l ≡ some directory)
empty_tree_cases l = elim (Bool-cases (l == [])) [
  | inl e ↦ inr (rw e refl)
  | inr e ↦ inl (rw e refl)
]

-- In a new staging directory every place is free.
Free-empty : (ps : List Payload) → All Lies ps → All (Free empty_tree) (files ps)
unfolding list_beq
Free-empty [] _ = tt
Free-empty (p ∷ ps) (h, hs) =
    subst (All (Free empty_tree)) (sym (files-cons p ps h.relative h.portable))
      ((ap empty_tree h.place_eq, λ l _. empty_tree_cases l), Free-empty ps hs)

tree_root : (ps : List Payload) → All Lies ps → tree ps [] ≡ some directory
unfolding list_beq
tree_root [] _ = refl
tree_root (p ∷ ps) (h, hs) =
    let rest = overlay (files ps) empty_tree in
    ap (λ fs. overlay fs empty_tree []) (files-cons p ps h.relative h.portable)
    ∙ ap (λ q. place q p.bytes rest []) h.place_eq
    ∙ place_root h.name h.up p.bytes rest

below-parent : (n : Bytes) (up : Location) → below (n ∷ up) up ≡ none
below-parent n up = elim (Option-cases (below (n ∷ up) up)) [
  | inl e ↦ e
  | inr (r, e) ↦
      absurd (omega (arith, ap length (below-eq-some (n ∷ up) up r e), length-append r (n ∷ up)))
]

-- With no failure of the system in store, `extract_capsule` succeeds from a file system in which
-- every entry stands in a directory, where `preflight` accepts the payloads, the entrypoint is one
-- of them, the destination is a new name in an existing directory, and the name found for the
-- staging directory is another new name there: what `preflight` checks is enough for every
-- directory and every file to be made.
pub extract_capsule-Fits :
    (name : Bytes) (capsule : Capsule) (n : Bytes) (up : Location) (limits : ExtractionLimits)
    (f : Entries)
    → IsTree f
    → Fits capsule.payloads limits
    → contains (paths_of capsule.payloads) capsule.entrypoint ≡ true
    → f up ≡ some directory
    → f (n ∷ up) ≡ none
    → f (name ∷ up) ≡ none
    → name ≢ n
    → (summary : ExtractionSummary) × (f' : Entries) × (extract_capsule name capsule
          (n ∷ up)
          limits
          (still f)
        ≡ (ok summary, still f'))
unfolding extract_capsule in_staging publish conclude
extract_capsule-Fits name capsule n up limits f t fits listed is_dir absent new differ =
    let staging : Location = name ∷ up in
    let checked : Preflight = record {
      file_count = length capsule.payloads;
      total_bytes = payload_bytes capsule.payloads;
    } in
    let e0 = (preflight_iff capsule.payloads limits checked).1 (fits, refl, refl) in
    let f1 = update f staging (some directory) in
    let t1 = IsTree-enter f directory name up t is_dir new in
    let lies = portable_all capsule.payloads limits fits in
    let apart : staging ≢ n ∷ up = λ q. differ (head_eq q) in
    let free : All (Free (subtree staging f1)) (files capsule.payloads) =
      subst (λ g. All (Free g) (files capsule.payloads)) (sym (staging_start f staging t new))
        (Free-empty capsule.payloads lies) in
    let (f2, e2) =
      loop_fits staging capsule.payloads f1 lies t1 (update_same f staging (some directory))
        (Apart-Fits capsule.payloads limits fits) free in
    let outside =
      loop_outside name up capsule.payloads f (still f1) (still f2) t is_dir new refl lies e2 in
    let apart_below : below staging (n ∷ up) ≡ none = below-sibling name n up [] apart in
    let dest : f2 (n ∷ up) ≡ none = outside (n ∷ up) apart_below ∙ absent in
    let dir : f2 up ≡ some directory = outside up (below-parent name up) ∙ is_dir in
    let top : f2 staging ≡ some directory =
      ap (λ g. g [])
        (staged_tree name up capsule.payloads limits f (still f1) (still f2) t fits is_dir new refl
          e2)
      ∙ tree_root capsule.payloads lies in
    let (relative, entry) =
      member_portable capsule.payloads capsule.entrypoint fits.portable listed in
    let f3 = moved staging (n ∷ up) f2 in
    (
      record {
        destination = n ∷ up;
        entrypoint = join_path (n ∷ up) relative;
        file_count = length capsule.payloads;
        total_bytes = payload_bytes capsule.payloads;
      },
      (λ p. elim (below staging p) [ none ↦ f3 p | some r ↦ none ]),
      rw
          (
            e0,
            reject_fits (n ∷ up) f absent,
            attempt_undisturbed untouched (enter directory staging) f,
            enter_fits directory name up f is_dir new,
            e2,
            reject_fits (n ∷ up) f2 dest,
            rename_fits staging n up f2 top dir dest apart_below,
            entry,
            attempt_undisturbed untouched
                (λ f. (ok tt, λ p. elim (below staging p) [ none ↦ f p | some r ↦ none ])) f3,
          )
          refl,
    )
