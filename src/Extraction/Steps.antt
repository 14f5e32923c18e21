-- ===== src/Extraction/Steps.antt =====
-- src/extraction.rs: what the calls of `extract_capsule` around its loop leave.
use sci_capsule.Prelude.{
  ◌≡◌, refl, sym, ap, ◌∙◌, ◌≢◌, inl, inr, Bool, true, false, Option, none, some, [], ◌∷◌, ◌++◌,
  Bytes, arith, nat_eq, list_eq, if◌then◌else◌, Result, ok, err, Option-cases, append_cancel,
  length, length-append,
}
use sci_capsule.Files.{
  Location, Entries, Disk, Node, IoError, directory, still, below, untouched, attempt, is_absent,
  is_directory, moved, rename_no_replace, not_found, not_permitted, already_exists, remove_dir_all,
}
use sci_capsule.Files.Ancestors.{below-eq-some}
use sci_capsule.Files.Calls.{
  attempt-succeeds, attempt-keeps, attempt-result, attempt-outcome, attempt_undisturbed,
}
use sci_capsule.Files.Directories.{IsTree}
use sci_capsule.Extraction.Materialize.{absence, reject_existing_destination}

looked : Location → Entries → Result IoError Node × Entries
looked l f = (elim (f l) [ none ↦ err not_found | some node ↦ ok node ], f)

absence-ok :
    (l : Location) (o : Option Node)
    → absence l (elim o [ none ↦ err not_found | some node ↦ ok node ]) ≡ ok tt
    → o ≡ none
absence-ok l none h = refl
absence-ok l (some n) h = cc h

-- The check passes where there is nothing, and changes nothing.
pub reject-keeps :
    (l : Location) (d : Disk) → (reject_existing_destination l d).1.entries ≡ d.entries
unfolding reject_existing_destination looked
reject-keeps l d = attempt-keeps untouched (looked l) (λ f. f ≡ d.entries) d refl (λ _. refl)

pub reject-succeeds :
    (l : Location) (d d' : Disk)
    → reject_existing_destination l d ≡ (ok tt, d')
    → (d.entries l ≡ none) × (d'.entries ≡ d.entries)
unfolding reject_existing_destination looked
reject-succeeds l d d' h =
    let e : absence l (attempt untouched (looked l) d).0 ≡ ok tt = ap (λ x. x.0) h in
    let found : d.entries l ≡ none = elim (attempt-result untouched (looked l) d) [
      | inl g ↦ absence-ok l (d.entries l) (ap (absence l) (sym g) ∙ e)
      | inr g ↦ cc (ap (absence l) g, e)
    ] in
    (found, ap (λ x. x.1.entries) (sym h) ∙ reject-keeps l d)

pub reject_fits :
    (l : Location) (f : Entries)
    → f l ≡ none
    → reject_existing_destination l (still f) ≡ (ok tt, still f)
unfolding reject_existing_destination looked
reject_fits l f h = rw (attempt_undisturbed untouched (looked l) f, h) refl

renamed :
    (source : Location) (n : Bytes) (up : Location) (f : Entries)
    → Result IoError (Unit {0}) × Entries
renamed source n up f =
    if is_absent (f source)
    then (err not_found, f)
    else (if is_directory (f up)
        then (if is_absent (f (n ∷ up))
            then (elim (below source (n ∷ up)) [
              | none ↦ (ok tt, moved source (n ∷ up) f)
              | some r ↦ (err not_permitted, f)
            ])
            else (err already_exists, f))
        else (err not_found, f))

renaming :
    (a b c : Bool) (o : Option Location) (m f f' : Entries)
    → ◌≡◌ {A = Result IoError (Unit {0}) × Entries}
        (if a
          then (err not_found, f)
          else (if b
              then (if c
                  then (elim o [ none ↦ (ok tt, m) | some r ↦ (err not_permitted, f) ])
                  else (err already_exists, f))
              else (err not_found, f)))
        (ok tt, f')
    → (o ≡ none) × (f' ≡ m)
renaming true b c o m f f' h = cc (ap (λ x. x.0) h)
renaming false false c o m f f' h = cc (ap (λ x. x.0) h)
renaming false true false o m f f' h = cc (ap (λ x. x.0) h)
renaming false true true none m f f' h = (refl, sym (ap (λ x. x.1) h))
renaming false true true (some r) m f f' h = cc (ap (λ x. x.0) h)

pub rename-succeeds :
    (source : Location) (n : Bytes) (up : Location) (d d' : Disk)
    → rename_no_replace source (n ∷ up) d ≡ (ok tt, d')
    → (below source (n ∷ up) ≡ none) × (d'.entries ≡ moved source (n ∷ up) d.entries)
unfolding renamed
rename-succeeds source n up d d' h =
    renaming (is_absent (d.entries source)) (is_directory (d.entries up))
      (is_absent (d.entries (n ∷ up))) (below source (n ∷ up)) (moved source (n ∷ up) d.entries)
      d.entries d'.entries (attempt-succeeds untouched (renamed source n up) d h)

pub rename_fits :
    (source : Location) (n : Bytes) (up : Location) (f : Entries)
    → f source ≡ some directory
    → f up ≡ some directory
    → f (n ∷ up) ≡ none
    → below source (n ∷ up) ≡ none
    → rename_no_replace source (n ∷ up) (still f) ≡ (ok tt, still (moved source (n ∷ up) f))
unfolding renamed
rename_fits source n up f h h' g b =
    rw (attempt_undisturbed untouched (renamed source n up) f, h, h', g, b) refl

-- A failed rename changes nothing.
rename_keeps :
    (R : Result IoError (Unit {0}) × Entries → Type 0) (a b c : Bool) (o : Option Location)
    (m f : Entries)
    → ((e : IoError) → R (err e, f))
    → (o ≡ none → R (ok tt, m))
    → R (
        if a
        then (err not_found, f)
        else (if b
            then (if c
                then (elim o [ none ↦ (ok tt, m) | some r ↦ (err not_permitted, f) ])
                else (err already_exists, f))
            else (err not_found, f)))
rename_keeps R true b c o m f h g = h not_found
rename_keeps R false false c o m f h g = h not_found
rename_keeps R false true false o m f h g = h already_exists
rename_keeps R false true true none m f h g = g refl
rename_keeps R false true true (some r) m f h g = h not_permitted

pub rename-fails :
    (source : Location) (n : Bytes) (up : Location) (d : Disk) {e : IoError} {d' : Disk}
    → rename_no_replace source (n ∷ up) d ≡ (err e, d')
    → d'.entries ≡ d.entries
unfolding renamed
rename-fails source n up d {e} {d'} h =
    attempt-outcome untouched (renamed source n up)
      (λ x. x ≡ (err e, d'.entries) → d'.entries ≡ d.entries) d
      (rename_keeps (λ x. x ≡ (err e, d'.entries) → d'.entries ≡ d.entries)
        (is_absent (d.entries source)) (is_directory (d.entries up))
        (is_absent (d.entries (n ∷ up))) (below source (n ∷ up)) (moved source (n ∷ up) d.entries)
        d.entries (λ _ g. sym (ap (λ x. x.1) g)) (λ _ g. cc (ap (λ x. x.0) g)))
      (λ k g. sym (ap (λ x. x.1) g)) (λ i. ((h i).0, (h i).1.entries))

-- Removing the staging directory keeps what is outside it.
remove_keeps :
    (o : Option Location) (old v : Option Node)
    → old ≡ v
    → (o ≢ none → v ≡ none)
    → elim o [ none ↦ old | some r ↦ none ] ≡ v
remove_keeps none old v h g = h
remove_keeps (some r) old v h g = sym (g (λ e. cc e))

pub remove_dir_all-keeps :
    (l : Location) (d : Disk) (p : Location) (v : Option Node)
    → d.entries p ≡ v
    → (below l p ≢ none → v ≡ none)
    → (remove_dir_all l d).1.entries p ≡ v
remove_dir_all-keeps l d p v h g =
    attempt-keeps untouched (λ f. (ok tt, λ p. elim (below l p) [ none ↦ f p | some r ↦ none ]))
      (λ f. f p ≡ v) d (remove_keeps (below l p) (d.entries p) v h g) (λ _. h)

-- There is nothing below nothing.
pub absent_below :
    (f : Entries) → IsTree f → (s : Location) → f s ≡ none → (r : Location) → f (r ++ s) ≡ none
absent_below f t s h [] = h
absent_below f t s h (n ∷ r) = elim (Option-cases (f (n ∷ r ++ s))) [
  | inl e ↦ e
  | inr (x, e) ↦ cc (t.parents n (r ++ s) (λ z. cc (e, z)), absent_below f t s h r)
]

-- Two directories with one parent have nothing in common.
pub below-sibling :
    (n m : Bytes) (up r : Location) → n ∷ up ≢ m ∷ up → below (n ∷ up) (r ++ m ∷ up) ≡ none
below-sibling n m up r h = elim (Option-cases (below (n ∷ up) (r ++ m ∷ up))) [
  | inl e ↦ e
  | inr (s, e) ↦
      let g : r ++ m ∷ up ≡ s ++ n ∷ up = below-eq-some (n ∷ up) (r ++ m ∷ up) s e in
      let same : length r ≡ length s =
        omega (arith, ap length g, length-append r (m ∷ up), length-append s (n ∷ up)) in
      absurd (h (sym (append_cancel r s (m ∷ up) (n ∷ up) same g).1))
]
