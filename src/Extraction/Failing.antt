-- ===== src/Extraction/Failing.antt =====
-- src/extraction.rs: what `extract_capsule` leaves where it fails.
use sci_capsule.Prelude.{
  ◌≡◌, refl, sym, ap, subst, ◌∙◌, ◌≢◌, ◌⊎◌, inl, inr, true, false, Option, none, some, List, [],
  ◌∷◌, Bytes, arith, ◌==◌, nat_eq, list_eq, ok, err, Bool-cases, tail_eq, eq_iff, contains, All,
}
use sci_capsule.Action.{◌>>◌, map_error, map_error-succeeds, map_error-fails, >>=-fails, lift}
use sci_capsule.Files.{
  Location, Disk, Node, directory, below, untouched, enter, make_directory, rename_no_replace,
}
use sci_capsule.Files.Ancestors.{is_ancestor, below-append}
use sci_capsule.Files.Calls.{attempt-succeeds, attempt-keeps, enter-succeeds}
use sci_capsule.Files.Directories.{IsTree, enter_keeps_at}
use sci_capsule.Extraction.{
  PathBuf, Payload, Preflight, ExtractionLimits, ExtractionError, preflight, portable_path, io,
  publish_at, create_staging,
}
use sci_capsule.Extraction.Paths.{IsPortable, portable_path_iff}
use sci_capsule.Extraction.Limits.{paths_of, preflight_iff}
use sci_capsule.Extraction.Materialize.{
  Capsule, parent, materialize_payloads, reject_existing_destination, publish, conclude, in_staging,
  extract_capsule,
}
use sci_capsule.Extraction.Places.{Lies}
use sci_capsule.Extraction.Loop.{loop-keeps}
use sci_capsule.Extraction.Steps.{reject-keeps, rename-fails, remove_dir_all-keeps}
use sci_capsule.Extraction.Extracted.{outside_start}
use sci_capsule.Extraction.Publishing.{portable_all}

-- The rename and what follows it.
conclude-fails :
    (staging : Location) (capsule : Capsule) (n : Bytes) (up : Location) (checked : Preflight)
    (d d' : Disk) (relative : PathBuf) {e : ExtractionError}
    → portable_path capsule.entrypoint ≡ ok relative
    → conclude staging capsule (n ∷ up) checked d ≡ (err e, d')
    → d'.entries ≡ d.entries
unfolding conclude
conclude-fails staging capsule n up checked d d' relative {e} entry fail =
    let rename = rename_no_replace staging (n ∷ up) in
    elim (>>=-fails (map_error (io publish_at (n ∷ up)) rename) _ d fail) [
      | inl h ↦
          let (e', h) = map_error-fails (io publish_at (n ∷ up)) rename d h in
          rename-fails staging n up d h
      | inr (_, d1, h1, fail) ↦
          elim (>>=-fails (lift (portable_path capsule.entrypoint)) _ d1 fail) [
            | inl h ↦ cc (ap (λ x. x.0) h, entry)
            | inr (_, d2, h2, fail) ↦ cc (ap (λ x. x.0) fail)
          ]
    ]

-- The part behind the staging directory's creation, where it fails on a portable entrypoint.
publish-fails :
    (name : Bytes) (capsule : Capsule) (n : Bytes) (up : Location) (checked : Preflight)
    (d d' : Disk) (p : Location) (v : Option Node) {e : ExtractionError}
    → ((relative : PathBuf) × (portable_path capsule.entrypoint ≡ ok relative))
    → All Lies capsule.payloads
    → below (name ∷ up) p ≡ none
    → (is_ancestor p (name ∷ up) ≡ true → v ≢ none)
    → d.entries p ≡ v
    → publish (name ∷ up) capsule (n ∷ up) checked d ≡ (err e, d')
    → d'.entries p ≡ v
unfolding publish
publish-fails name capsule n up checked d d' p v (relative, entry) lies b above h fail =
    let staging : Location = name ∷ up in
    let loop = loop-keeps staging capsule.payloads d p v lies b above h in
    elim (>>=-fails (materialize_payloads staging capsule.payloads) _ d fail) [
      | inl e1 ↦ subst (λ x. x.1.entries p ≡ v) e1 loop
      | inr (_, d1, h1, fail) ↦
          let k1 : d1.entries p ≡ v = ap (λ x. x.1.entries p) (sym h1) ∙ loop in
          let k2 : (reject_existing_destination (n ∷ up) d1).1.entries p ≡ v =
            ap (λ f. f p) (reject-keeps (n ∷ up) d1) ∙ k1 in
          elim (>>=-fails (reject_existing_destination (n ∷ up)) _ d1 fail) [
            | inl e2 ↦ subst (λ x. x.1.entries p ≡ v) e2 k2
            | inr (_, d2, h2, fail) ↦
                let k2 : d2.entries p ≡ v = ap (λ x. x.1.entries p) (sym h2) ∙ k2 in
                ap (λ f. f p)
                  (conclude-fails staging capsule n up checked d2 d' relative entry fail)
                ∙ k2
          ]
    ]

-- One of the payloads' paths is portable.
pub member_portable :
    (ps : List Payload) (path : Bytes)
    → All (λ (p : Payload). (r : PathBuf) × IsPortable p.path r) ps
    → contains (paths_of ps) path ≡ true
    → (r : PathBuf) × (portable_path path ≡ ok r)
unfolding contains
member_portable [] path _ h = cc h
member_portable (p ∷ ps) path ((r, hr), hs) h = elim (==-cases_bytes p.path path) [
  | inl e ↦ (r, ap portable_path (sym e) ∙ (portable_path_iff p.path r).1 hr)
  | inr e ↦ member_portable ps path hs (ground (arith, e, h))
]
  where
    ==-cases_bytes : (a b : Bytes) → (a ≡ b) ⊎ ((a == b) ≡ false)
    ==-cases_bytes a b = elim (Bool-cases (a == b)) [
      | inl e ↦ inl ((eq_iff a b).0 e)
      | inr e ↦ inr e
    ]

-- From the staging directory's creation on.
staged-fails :
    (name : Bytes) (capsule : Capsule) (n : Bytes) (up : Location) (limits : ExtractionLimits)
    (checked : Preflight) (d d' : Disk) (p : Location) {e : ExtractionError}
    → IsTree d.entries
    → contains (paths_of capsule.payloads) capsule.entrypoint ≡ true
    → preflight capsule.payloads limits ≡ ok checked
    → below (name ∷ up) p ≡ none
    → (map_error (io create_staging up) (make_directory (name ∷ up))
          >> in_staging (name ∷ up) (publish (name ∷ up) capsule (n ∷ up) checked))
        d
      ≡ (err e, d')
    → d'.entries p ≡ d.entries p
unfolding in_staging
staged-fails name capsule n up limits checked d d' p t listed fits b fail =
    let staging : Location = name ∷ up in
    let create = make_directory staging in
    let other : p ≢ staging = λ q. cc (b, ap (below staging) q, below-append [] staging) in
    elim (>>=-fails (map_error (io create_staging up) create) _ d fail) [
      | inl h ↦
          ap (λ x. x.1.entries p) (sym h)
          ∙ attempt-keeps untouched (enter directory staging) (λ f. f p ≡ d.entries p) d
              (enter_keeps_at directory staging p (d.entries p) d.entries refl
                (λ q. absurd (other q)))
              (λ _. refl)
      | inr (_, d1, h1, fail) ↦
          let (n', up', e, is_dir, new, start) =
            enter-succeeds directory staging d.entries d1.entries (
              attempt-succeeds untouched (enter directory staging) d
                (map_error-succeeds (io create_staging up) create d h1)) in
          let is_dir : d.entries up ≡ some directory = ap d.entries (tail_eq e) ∙ is_dir in
          let (same, above) = outside_start d.entries t name up is_dir new p b in
          let (fits, _, _) = (preflight_iff capsule.payloads limits checked).0 fits in
          let body = publish staging capsule (n ∷ up) checked d1 in
          let kept : body.1.entries p ≡ d.entries p =
            publish-fails name capsule n up checked d1 body.1 p (d.entries p)
              (member_portable capsule.payloads capsule.entrypoint fits.portable listed)
              (portable_all capsule.payloads limits fits) b above (ap (λ f. f p) start ∙ same)
              (λ i. ((fail i).0, body.1)) in
          ap (λ x. x.1.entries p) (sym fail)
          ∙ remove_dir_all-keeps staging body.1 p (d.entries p) kept (λ z. absurd (z b))
    ]

-- Where `extract_capsule` fails, on a capsule whose entrypoint is one of its payloads and from a
-- file system in which every entry stands in a directory, then, whatever failures the system had
-- in store, every place outside the staging directory holds what it held before: the destination
-- is not made, not even in part.
pub extract_capsule-fails :
    (name : Bytes) (capsule : Capsule) (destination : Location) (limits : ExtractionLimits)
    (d d' : Disk) (e : ExtractionError)
    → IsTree d.entries
    → contains (paths_of capsule.payloads) capsule.entrypoint ≡ true
    → extract_capsule name capsule destination limits d ≡ (err e, d')
    → (p : Location) → ((up : Location) → parent destination ≡ some up → below (name ∷ up) p ≡ none)
    → d'.entries p ≡ d.entries p
unfolding extract_capsule
extract_capsule-fails name capsule [] limits d d' e t listed fail p b =
    elim (>>=-fails (lift (preflight capsule.payloads limits)) _ d fail) [
      | inl h ↦ ap (λ x. x.1.entries p) (sym h)
      | inr (checked, d1, h1, fail) ↦
          ap (λ x. x.1.entries p) (sym fail) ∙ ap (λ x. x.1.entries p) (sym h1)
    ]
extract_capsule-fails name capsule (n ∷ up) limits d d' e t listed fail p b =
    elim (>>=-fails (lift (preflight capsule.payloads limits)) _ d fail) [
      | inl h ↦ ap (λ x. x.1.entries p) (sym h)
      | inr (checked, d1, h1, fail) ↦
          let e1 : d1.entries ≡ d.entries = ap (λ x. x.1.entries) (sym h1) in
          elim (>>=-fails (reject_existing_destination (n ∷ up)) _ d1 fail) [
            | inl h ↦
                ap (λ x. x.1.entries p) (sym h) ∙ ap (λ f. f p) (reject-keeps (n ∷ up) d1 ∙ e1)
            | inr (_, d2, h2, fail) ↦
                let e2 : d2.entries ≡ d.entries =
                  ap (λ x. x.1.entries) (sym h2) ∙ reject-keeps (n ∷ up) d1 ∙ e1 in
                staged-fails name capsule n up limits checked d2 d' p (subst IsTree (sym e2) t)
                  listed (ap (λ x. x.0) h1) (b up refl) fail
                ∙ ap (λ f. f p) e2
          ]
    ]
