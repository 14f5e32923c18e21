-- ===== src/Extraction/Publishing.antt =====
-- src/extraction.rs: what `extract_capsule` leaves of the file system.
use mathlib.Core.Path.{fun_ext}
use sci_capsule.Prelude.{
  ◌≡◌, refl, sym, ap, ◌∙◌, ◌≢◌, inl, inr, none, some, List, [], ◌∷◌, ◌++◌, Bytes, ◌==◌, nat_eq,
  list_eq, if◌then◌else◌, ok, ok-injective, tail_eq, eq_iff, All, All-map, length,
}
use sci_capsule.Action.{>>=-succeeds, map_error, map_error-succeeds, lift}
use sci_capsule.Files.{
  Location, Entries, Disk, directory, below, update, untouched, enter, moved, make_directory,
  rename_no_replace, remove_dir_all,
}
use sci_capsule.Files.Ancestors.{==-cases, same-append}
use sci_capsule.Files.Calls.{attempt-succeeds, enter-succeeds, update_same, update_other}
use sci_capsule.Files.Directories.{IsTree}
use sci_capsule.Extraction.{
  PathBuf, Payload, Preflight, ExtractionLimits, preflight, portable_path, io, publish_at,
  create_staging,
}
use sci_capsule.Extraction.Limits.{Fits, payload_bytes}
use sci_capsule.Extraction.Materialize.{
  Capsule, ExtractionSummary, join_path, materialize_payloads, reject_existing_destination, publish,
  conclude, in_staging, extract_capsule,
}
use sci_capsule.Extraction.Trees.{tree}
use sci_capsule.Extraction.Places.{Lies, Lies-portable}
use sci_capsule.Extraction.Loop.{subtree}
use sci_capsule.Extraction.Steps.{reject-succeeds, rename-succeeds, absent_below}

-- What the part behind the staging directory's creation went through.
pub publish-succeeds :
    (staging : Location) (capsule : Capsule) (n : Bytes) (up : Location) (checked : Preflight)
    (d d' : Disk) {summary : ExtractionSummary}
    → publish staging capsule (n ∷ up) checked d ≡ (ok summary, d')
    → (d1 : Disk) × (relative : PathBuf) × (materialize_payloads staging capsule.payloads d
        ≡ (ok tt, d1))
      × (below staging (n ∷ up) ≡ none)
      × (d'.entries ≡ moved staging (n ∷ up) d1.entries)
      × (portable_path capsule.entrypoint ≡ ok relative)
      × (summary ≡ record {
        destination = n ∷ up;
        entrypoint = join_path (n ∷ up) relative;
        file_count = checked.file_count;
        total_bytes = checked.total_bytes;
      })
unfolding publish conclude
publish-succeeds staging capsule n up checked d d' h =
    let (_, d1, h1, h) = >>=-succeeds (materialize_payloads staging capsule.payloads) _ d h in
    let (_, d2, h2, h) = >>=-succeeds (reject_existing_destination (n ∷ up)) _ d1 h in
    let (_, d3, h3, h) =
      >>=-succeeds (map_error (io publish_at (n ∷ up)) (rename_no_replace staging (n ∷ up))) _ d2
        h in
    let (relative, d4, h4, h) = >>=-succeeds (lift (portable_path capsule.entrypoint)) _ d3 h in
    let (apart, e) =
      rename-succeeds staging n up d2 d3
        (map_error-succeeds (io publish_at (n ∷ up)) (rename_no_replace staging (n ∷ up)) d2 h3) in
    let (_, e2) = reject-succeeds (n ∷ up) d1 d2 h2 in
    (
      d1,
      relative,
      h1,
      apart,
      ap (λ x. x.1.entries) (sym h)
          ∙ ap (λ x. x.1.entries) (sym h4)
          ∙ e
          ∙ ap (moved staging (n ∷ up)) e2,
      ap (λ x. x.0) h4,
      ok-injective (ap (λ x. x.0) (sym h)),
    )

-- A destination without a name is refused.
pub refuses_root :
    (name : Bytes) (capsule : Capsule) (limits : ExtractionLimits) (d d' : Disk)
    {summary : ExtractionSummary}
    → extract_capsule name capsule [] limits d ≢ (ok summary, d')
unfolding extract_capsule
refuses_root name capsule limits d d' h =
    let (checked, d1, h1, h) = >>=-succeeds (lift (preflight capsule.payloads limits)) _ d h in
    cc (ap (λ x. x.0) h)

-- What an extraction that succeeds went through.
pub record Passed (name : Bytes) (capsule : Capsule) (n : Bytes) (up : Location)
    (limits : ExtractionLimits) (d d' : Disk) (summary : ExtractionSummary) : Type 0 where
  pub checked : Preflight
  pub start : Disk
  pub ended : Disk
  pub fits : preflight capsule.payloads limits ≡ ok checked
  pub absent : d.entries (n ∷ up) ≡ none
  pub in_directory : d.entries up ≡ some directory
  pub new : d.entries (name ∷ up) ≡ none
  pub started : start.entries ≡ update d.entries (name ∷ up) (some directory)
  pub published : publish (name ∷ up) capsule (n ∷ up) checked start ≡ (ok summary, ended)
  pub dropped : d' ≡ (remove_dir_all (name ∷ up) ended).1

pub passed :
    (name : Bytes) (capsule : Capsule) (n : Bytes) (up : Location) (limits : ExtractionLimits)
    (d d' : Disk) (summary : ExtractionSummary)
    → extract_capsule name capsule (n ∷ up) limits d ≡ (ok summary, d')
    → Passed name capsule n up limits d d' summary
unfolding extract_capsule in_staging
passed name capsule n up limits d d' summary h =
    let staging : Location = name ∷ up in
    let (checked, d0, h0, h) = >>=-succeeds (lift (preflight capsule.payloads limits)) _ d h in
    let (_, d1, h1, h) = >>=-succeeds (reject_existing_destination (n ∷ up)) _ d0 h in
    let (_, d2, h2, h) =
      >>=-succeeds (map_error (io create_staging up) (make_directory staging)) _ d1 h in
    let (absent, e1) = reject-succeeds (n ∷ up) d0 d1 h1 in
    let e0 : d0.entries ≡ d.entries = ap (λ x. x.1.entries) (sym h0) in
    let (n', up', e, is_dir, new, e2) = enter-succeeds directory staging d1.entries d2.entries (
      attempt-succeeds untouched (enter directory staging) d1
        (map_error-succeeds (io create_staging up) (make_directory staging) d1 h2)) in
    let same : d1.entries ≡ d.entries = e1 ∙ e0 in
    record {
      checked = checked;
      start = d2;
      ended = (publish staging capsule (n ∷ up) checked d2).1;
      fits = ap (λ x. x.0) h0;
      absent = ap (λ f. f (n ∷ up)) (sym e0) ∙ absent;
      in_directory = ap (λ f. f up) (sym same) ∙ ap d1.entries (tail_eq e) ∙ is_dir;
      new = ap (λ f. f staging) (sym same) ∙ new;
      started = e2 ∙ ap (λ f. update f staging (some directory)) same;
      published = λ i. ((h i).0, (publish staging capsule (n ∷ up) checked d2).1);
      dropped = ap (λ x. x.1) (sym h);
    }

-- What a successful extraction leaves: below the destination exactly the payloads, and everywhere
-- else what was there.
pub record IsExtracted (capsule : Capsule) (destination : Location) (limits : ExtractionLimits)
    (before after : Entries) (summary : ExtractionSummary) : Type 0 where
  pub fits : Fits capsule.payloads limits
  pub extracted : (r : Location) → after (r ++ destination) ≡ tree capsule.payloads r
  pub elsewhere : (p : Location) → below destination p ≡ none → after p ≡ before p
  pub was_absent : before destination ≡ none
  pub at : summary.destination ≡ destination
  pub entry :
      (relative : PathBuf)
      → portable_path capsule.entrypoint ≡ ok relative
      → summary.entrypoint ≡ join_path destination relative
  pub file_count : summary.file_count ≡ length capsule.payloads
  pub total_bytes : summary.total_bytes ≡ payload_bytes capsule.payloads

-- The new staging directory is empty.
pub staging_start :
    (f : Entries) (staging : Location)
    → IsTree f
    → f staging ≡ none
    → subtree staging (update f staging (some directory))
      ≡ (λ l. if l == [] then some directory else none)
staging_start f staging t h = fun_ext λ r. elim (==-cases r []) [
  | inl (e, g) ↦
      ap (λ x. update f staging (some directory) (x ++ staging)) g
      ∙ update_same f staging (some directory)
      ∙ rw e refl
  | inr (e, g) ↦
      let other : r ++ staging ≢ staging = λ q.
        g (
          (eq_iff r []).0 (sym (same-append r [] staging) ∙ (eq_iff (r ++ staging) staging).1 q)) in
      update_other f staging (some directory) (r ++ staging) other
      ∙ absent_below f t staging h r
      ∙ rw e refl
]

pub portable_all : (ps : List Payload) (limits : ExtractionLimits) → Fits ps limits → All Lies ps
portable_all ps limits h = All-map Lies-portable ps h.portable
