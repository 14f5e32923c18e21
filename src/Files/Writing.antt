-- ===== src/Files/Writing.antt =====
-- src/lib.rs and src/product_main.rs: what the creation of a new file leaves.
use sci_capsule.Prelude.{
  ℕ, ◌≡◌, refl, sym, ap, ◌∙◌, ◌≢◌, Option, none, some, [], ◌∷◌, Bytes, nat_eq, list_eq, Result, ok,
  err, ◌⊎◌, inl, inr, length, ◌≤◌, ◌<◌, u64_max,
}
use sci_capsule.Action.{◌>>◌, map_error, >>=-succeeds, >>=-keeps, map_error-succeeds}
use sci_capsule.Files.{
  Location, Node, Entries, Disk, regular, directory, still, update, untouched, enter, create_new,
  write_all, sync_all, take_bytes,
}
use sci_capsule.Files.Ancestors.{==-cases}
use sci_capsule.Files.Calls.{
  attempt-succeeds, attempt-keeps, attempt_undisturbed, enter-succeeds, enter_fits, update_same,
  update_other,
}
use sci_capsule.Files.Directories.{enter_keeps_at}
use sci_capsule.Files.Access.{
  FileError, cannot_create, cannot_write, or_remove, write_new_capsule, read_regular_input_bounded,
}
use sci_capsule.Files.Reading.{read_fits}

pub update-update :
    (f : Entries) (l : Location) (a b : Option Node) (p : Location)
    → update (update f l a) l b p ≡ update f l b p
update-update f l a b p = elim (==-cases p l) [ inl (e, g) ↦ rw e refl | inr (e, g) ↦ rw e refl ]

-- A new file holds what was written, and nothing else has changed.
pub record IsWritten (l : Location) (bytes : Bytes) (before after : Entries) : Type 0 where
  pub was_absent : before l ≡ none
  pub written : (p : Location) → after p ≡ update before l (some (regular bytes)) p

or_remove-ok :
    (l : Location) (r : Result FileError (Unit {0})) (d d' : Disk)
    → or_remove l r d ≡ (ok tt, d')
    → (r ≡ ok tt) × (d ≡ d')
or_remove-ok l (ok u) d d' h = (refl, ap (λ x. x.1) h)
or_remove-ok l (err e) d d' h = cc (ap (λ x. x.0) h)

pub write-succeeds :
    (l : Location) (bytes : Bytes) (d d' : Disk)
    → write_new_capsule l bytes d ≡ (ok tt, d')
    → IsWritten l bytes d.entries d'.entries
unfolding write_new_capsule
write-succeeds l bytes d d' h =
    let body = map_error cannot_write (write_all l bytes >> sync_all) in
    let (_, d1, h1, h) = >>=-succeeds (map_error cannot_create (create_new l)) _ d h in
    let (n, up, e, is_dir, absent, e1) = enter-succeeds (regular []) l d.entries d1.entries (
      attempt-succeeds untouched (enter (regular []) l) d
        (map_error-succeeds cannot_create (create_new l) d h1)) in
    let (fine, same) = or_remove-ok l (body d1).0 (body d1).1 d' h in
    let (_, d2, h2, h3) = >>=-succeeds (write_all l bytes) _ d1 (
      map_error-succeeds cannot_write (write_all l bytes >> sync_all) d1
        (λ i. (fine i, (body d1).1))) in
    let e2 =
      ap (λ x. x.1)
        (attempt-succeeds (λ k f. update f l (some (regular (take_bytes k bytes))))
          (λ f. (ok tt, update f l (some (regular bytes)))) d1 h2) in
    let e3 = ap (λ x. x.1) (attempt-succeeds untouched (λ f. (ok tt, f)) d2 h3) in
    record {
      was_absent = absent;
      written = λ p.
          ap (λ s. s.entries p) (sym same)
          ∙ ap (λ f. f p) (sym e3)
          ∙ ap (λ f. f p) (sym e2)
          ∙ ap (λ f. update f l (some (regular bytes)) p) e1
          ∙ update-update d.entries l (some (regular [])) (some (regular bytes)) p;
    }

-- Removing, writing and syncing touch one place.
module _ (l p : Location) (v : Option Node) (other : p ≢ l) where
  or_remove-keeps :
      (r : Result FileError (Unit {0})) (d : Disk)
      → d.entries p ≡ v
      → (or_remove l r d).1.entries p ≡ v
  or_remove-keeps (ok u) d h = h
  or_remove-keeps (err e) d h =
      attempt-keeps untouched (λ f. (ok tt, update f l none)) (λ f. f p ≡ v) d
        (update_other d.entries l none p other ∙ h) (λ _. h)

  write-keeps :
      (bytes : Bytes) (d : Disk)
      → d.entries p ≡ v
      → ((write_all l bytes >> sync_all) d).1.entries p ≡ v
  write-keeps bytes d h =
      let kept : (write_all l bytes d).1.entries p ≡ v =
        attempt-keeps (λ k f. update f l (some (regular (take_bytes k bytes))))
          (λ f. (ok tt, update f l (some (regular bytes)))) (λ f. f p ≡ v) d
          (update_other d.entries l (some (regular bytes)) p other ∙ h)
          (λ k. update_other d.entries l (some (regular (take_bytes k bytes))) p other ∙ h) in
      >>=-keeps (λ s. s.entries p ≡ v) (write_all l bytes) (λ _. sync_all) d kept
        (λ _ _.
          attempt-keeps untouched (λ f. (ok tt, f)) (λ f. f p ≡ v) (write_all l bytes d).1 kept
            (λ _. kept))

-- Whatever `write_new_capsule` returns, and whatever failures the system has in store, it changes
-- no place but its own, and not even that one where something was there before: it never
-- overwrites, and it never removes a file that it has not made.
pub write_new_capsule-keeps :
    (l : Location) (bytes : Bytes) (d : Disk) (p : Location)
    → (p ≢ l) ⊎ (d.entries l ≢ none)
    → (write_new_capsule l bytes d).1.entries p ≡ d.entries p
unfolding write_new_capsule
write_new_capsule-keeps l bytes d p h =
    let create = map_error cannot_create (create_new l) in
    let taken : p ≡ l → d.entries p ≢ none =
      λ e. elim h [ inl g ↦ absurd (g e) | inr g ↦ λ z. g (ap d.entries (sym e) ∙ z) ] in
    let kept : (create_new l d).1.entries p ≡ d.entries p =
      attempt-keeps untouched (enter (regular []) l) (λ f. f p ≡ d.entries p) d
        (enter_keeps_at (regular []) l p (d.entries p) d.entries refl taken) (λ _. refl) in
    >>=-keeps (λ s. s.entries p ≡ d.entries p) create _ d kept
      λ _ e.
        let d1 = (create_new l d).1 in
        let (n, up, _, _, absent, _) = enter-succeeds (regular []) l d.entries d1.entries (
          attempt-succeeds untouched (enter (regular []) l) d
            (map_error-succeeds cannot_create (create_new l) d (λ i. (e i, d1)))) in
        let other : p ≢ l = λ q. taken q (ap d.entries q ∙ absent) in
        let body = map_error cannot_write (write_all l bytes >> sync_all) in
        or_remove-keeps l p (d.entries p) other (body d1).0 (body d1).1
          (write-keeps l p (d.entries p) other bytes d1 kept)

pub write_fits :
    (n : Bytes) (up : Location) (bytes : Bytes) (f : Entries)
    → f up ≡ some directory
    → f (n ∷ up) ≡ none
    → (f' : Entries) × (write_new_capsule (n ∷ up) bytes (still f) ≡ (ok tt, still f'))
unfolding write_new_capsule
write_fits n up bytes f is_dir absent =
    let l : Location = n ∷ up in
    let f1 = update f l (some (regular [])) in
    let f2 = update f1 l (some (regular bytes)) in
    (
      f2,
      rw
          (
            attempt_undisturbed untouched (enter (regular []) l) f,
            enter_fits (regular []) n up f is_dir absent,
            attempt_undisturbed (λ k f. update f l (some (regular (take_bytes k bytes))))
                (λ f. (ok tt, update f l (some (regular bytes)))) f1,
            attempt_undisturbed untouched (λ f. (ok tt, f)) f2,
          )
          refl,
    )

-- With no failure in store, `write_new_capsule` of a new name in an existing directory succeeds,
-- and a bounded read of that name then returns what was written, where the bound is at least its
-- length and less than the greatest `u64`.
pub read-write_new_capsule :
    (n : Bytes) (up : Location) (bytes : Bytes) (maximum : ℕ) (f : Entries)
    → f up ≡ some directory
    → f (n ∷ up) ≡ none
    → length bytes ≤ maximum
    → maximum < u64_max
    → (f' : Entries) × (write_new_capsule (n ∷ up) bytes (still f) ≡ (ok tt, still f'))
      × (read_regular_input_bounded (n ∷ up) maximum (still f') ≡ (ok bytes, still f'))
read-write_new_capsule n up bytes maximum f is_dir absent short bound =
    let (f', e) = write_fits n up bytes f is_dir absent in
    let written = write-succeeds (n ∷ up) bytes (still f) (still f') e in
    let content : f' (n ∷ up) ≡ some (regular bytes) =
      written.written (n ∷ up) ∙ update_same f (n ∷ up) (some (regular bytes)) in
    (f', e, read_fits (n ∷ up) maximum f' bytes content short bound)
