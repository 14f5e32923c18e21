-- ===== src/Extraction/Extracted.antt =====
-- src/extraction.rs: what `extract_capsule` leaves, where it succeeds and where it fails.
use sci_capsule.Prelude.{
  ◌≡◌, refl, sym, ap, subst, ◌∙◌, ◌≢◌, inl, inr, true, Option, none, some, List, [], ◌∷◌, ◌++◌,
  Bytes, arith, nat_eq, list_eq, ok, Option-cases, ok-injective, some_of_ne_none, All,
}
use sci_capsule.Files.{Location, Entries, Disk, Node, directory, below, update, moved}
use sci_capsule.Files.Ancestors.{is_ancestor, ==-cases, below-append, below-eq-some}
use sci_capsule.Files.Calls.{update_other}
use sci_capsule.Files.Directories.{IsTree, IsTree-enter, IsTree-ancestors}
use sci_capsule.Extraction.{Payload, ExtractionLimits}
use sci_capsule.Extraction.Limits.{Fits, preflight_iff}
use sci_capsule.Extraction.Materialize.{
  Capsule, ExtractionSummary, join_path, materialize_payloads, extract_capsule,
}
use sci_capsule.Extraction.Trees.{files, tree, spread, spread-overlay}
use sci_capsule.Extraction.Places.{Lies, Apart-Fits}
use sci_capsule.Extraction.Loop.{subtree, loop-succeeds, loop-keeps}
use sci_capsule.Extraction.Steps.{remove_dir_all-keeps, absent_below, below-sibling}
use sci_capsule.Extraction.Publishing.{
  Passed, passed, IsExtracted, publish-succeeds, refuses_root, staging_start, portable_all,
}

-- A place outside the new staging directory holds what it held, and nothing above the staging
-- directory is absent.
module _ (before : Entries) (t : IsTree before) (name : Bytes) (up : Location)
    (in_directory : before up ≡ some directory) (new : before (name ∷ up) ≡ none) where
  pub outside_start :
      (p : Location)
      → below (name ∷ up) p ≡ none
      → (update before (name ∷ up) (some directory) p ≡ before p)
        × (is_ancestor p (name ∷ up) ≡ true → before p ≢ none)
  unfolding is_ancestor
  outside_start p b =
      let other : p ≢ name ∷ up =
        λ q. cc (b, ap (below (name ∷ up)) q, below-append [] (name ∷ up)) in
      (
        update_other before (name ∷ up) (some directory) p other,
        λ a. elim (==-cases p up) [
          | inl (e, g) ↦ λ n. cc (n, ap before g, in_directory)
          | inr (e, g) ↦
              let a : is_ancestor p up ≡ true = ground (arith, e, a) in
              λ n. cc (n, IsTree-ancestors before t p up (λ z. cc (z, in_directory)) a)
        ],
      )

  pub below_new : (p r : Location) → below (name ∷ up) p ≡ some r → before p ≡ none
  below_new p r e =
      ap before (below-eq-some (name ∷ up) p r e) ∙ absent_below before t (name ∷ up) new r

moved_outside :
    (s l p : Location) (f : Entries) (v : Option Node)
    → below l p ≡ none
    → (below s p ≡ none → f p ≡ v)
    → ((r : Location) → below s p ≡ some r → v ≡ none)
    → moved s l f p ≡ v
moved_outside s l p f v b h g = elim (Option-cases (below s p)) [
  | inl e ↦ rw (moved, b, e) (h e)
  | inr (r, e) ↦ rw (moved, b, e) (sym (g r e))
]

moved_inside : (s l r : Location) (f : Entries) → moved s l f (r ++ l) ≡ f (r ++ s)
moved_inside s l r f = rw (moved, below-append r l) refl

-- What the loop has left alone.
pub loop_outside :
    (name : Bytes) (up : Location) (ps : List Payload) (before : Entries) (d d1 : Disk)
    → IsTree before
    → before up ≡ some directory
    → before (name ∷ up) ≡ none
    → d.entries ≡ update before (name ∷ up) (some directory)
    → All Lies ps
    → materialize_payloads (name ∷ up) ps d ≡ (ok tt, d1)
    → (p : Location) → below (name ∷ up) p ≡ none
    → d1.entries p ≡ before p
loop_outside name up ps before d d1 t is_dir new start lies loop p b =
    let (same, above) = outside_start before t name up is_dir new p b in
    ap (λ x. x.1.entries p) (sym loop)
    ∙ loop-keeps (name ∷ up) ps d p (before p) lies b above (ap (λ f. f p) start ∙ same)

-- What the loop has made in the new staging directory.
pub staged_tree :
    (name : Bytes) (up : Location) (ps : List Payload) (limits : ExtractionLimits)
    (before : Entries) (d d1 : Disk)
    → IsTree before
    → Fits ps limits
    → before up ≡ some directory
    → before (name ∷ up) ≡ none
    → d.entries ≡ update before (name ∷ up) (some directory)
    → materialize_payloads (name ∷ up) ps d ≡ (ok tt, d1)
    → subtree (name ∷ up) d1.entries ≡ tree ps
staged_tree name up ps limits before d d1 t fits is_dir new start loop =
    let t2 : IsTree d.entries =
      subst IsTree (sym start) (IsTree-enter before directory name up t is_dir new) in
    loop-succeeds (name ∷ up) ps d d1 (portable_all ps limits fits) t2 loop
    ∙ ap (λ f. spread (files ps) (subtree (name ∷ up) f)) start
    ∙ ap (spread (files ps)) (staging_start before (name ∷ up) t new)
    ∙ spread-overlay (files ps) _ (Apart-Fits ps limits fits)

extracted :
    (name : Bytes) (capsule : Capsule) (n : Bytes) (up : Location) (limits : ExtractionLimits)
    (d d' : Disk) (summary : ExtractionSummary)
    → IsTree d.entries
    → Passed name capsule n up limits d d' summary
    → IsExtracted capsule (n ∷ up) limits d.entries d'.entries summary
extracted name capsule n up limits d d' summary t h =
    let staging : Location = name ∷ up in
    let (fits, count, total) = (preflight_iff capsule.payloads limits h.checked).0 h.fits in
    let (d3, relative, loop, apart, moves, entry, e) =
      publish-succeeds staging capsule n up h.checked h.start h.ended h.published in
    let lies = portable_all capsule.payloads limits fits in
    let made =
      staged_tree name up capsule.payloads limits d.entries h.start d3 t fits h.in_directory h.new
        h.started loop in
    let differ : staging ≢ n ∷ up =
      λ q. cc (apart, ap (below staging) (sym q), below-append [] staging) in
    record {
      fits = fits;
      extracted = λ r.
          ap (λ x. x.entries (r ++ n ∷ up)) h.dropped
          ∙ remove_dir_all-keeps staging h.ended (r ++ n ∷ up) (tree capsule.payloads r)
              (ap (λ f. f (r ++ n ∷ up)) moves
                ∙ moved_inside staging (n ∷ up) r d3.entries
                ∙ ap (λ f. f r) made)
              (λ z. absurd (z (below-sibling name n up r differ)));
      elsewhere = λ p b.
          ap (λ x. x.entries p) h.dropped
          ∙ remove_dir_all-keeps staging h.ended p (d.entries p)
              (ap (λ f. f p) moves
                ∙ moved_outside staging (n ∷ up) p d3.entries (d.entries p) b
                    (loop_outside name up capsule.payloads d.entries h.start d3 t h.in_directory
                      h.new h.started lies loop p)
                    (below_new d.entries t name up h.in_directory h.new p))
              (λ z.
                let (r, e) = some_of_ne_none (below staging p) z in
                below_new d.entries t name up h.in_directory h.new p r e);
      was_absent = h.absent;
      at = ap (λ x. x.destination) e;
      entry =
          λ r g. ap (λ x. x.entrypoint) e ∙ ap (join_path (n ∷ up)) (ok-injective (sym entry ∙ g));
      file_count = ap (λ x. x.file_count) e ∙ count;
      total_bytes = ap (λ x. x.total_bytes) e ∙ total;
    }

-- From a file system in which every entry stands in a directory, and whatever failures the system
-- has in store, `extract_capsule` succeeds only where `preflight` accepts the payloads and nothing
-- is at the destination; there is then below the destination exactly the tree of the payloads,
-- each with its bytes, with no more directories than they need; every place that is not below the
-- destination holds what it held before; and the summary names the destination, the entrypoint in
-- it, the number of the files and the sum of their sizes.
pub extract_capsule-IsExtracted :
    (name : Bytes) (capsule : Capsule) (destination : Location) (limits : ExtractionLimits)
    (d d' : Disk) (summary : ExtractionSummary)
    → IsTree d.entries
    → extract_capsule name capsule destination limits d ≡ (ok summary, d')
    → IsExtracted capsule destination limits d.entries d'.entries summary
extract_capsule-IsExtracted name capsule [] limits d d' summary t h =
    absurd (refuses_root name capsule limits d d' h)
extract_capsule-IsExtracted name capsule (n ∷ up) limits d d' summary t h =
    extracted name capsule n up limits d d' summary t
      (passed name capsule n up limits d d' summary h)
