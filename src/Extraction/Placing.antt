-- ===== src/Extraction/Placing.antt =====
-- src/extraction.rs: what the body of the loop of `extract_capsule` does to the file system.
use sci_capsule.Prelude.{
  ◌≡◌, refl, sym, ap, subst, ◌∙◌, ◌≢◌, ◌⊎◌, inl, inr, true, Option, none, some, [], ◌∷◌, Bytes,
  ◌==◌, nat_eq, list_eq, eq_refl, list_beq, if◌then◌else◌, ok,
}
use sci_capsule.Action.{map_error, >>=-succeeds, >>=-keeps, map_error-succeeds}
use sci_capsule.Files.{
  Location, Entries, Disk, Node, regular, directory, still, update, enter, untouched, take_bytes,
  create_new, create_dir_all, write_all, sync_all,
}
use sci_capsule.Files.Ancestors.{is_ancestor, ==-cases, same-append, is_ancestor-append}
use sci_capsule.Files.Calls.{
  attempt-succeeds, attempt-keeps, attempt_undisturbed, enter-succeeds, enter_fits, update_same,
  update_other,
}
use sci_capsule.Files.Directories.{
  IsTree, IsTree-enter, with_directories, create_dir_all-succeeds, create_dir_all-keeps,
  create_dir_all_fits, enter_keeps_at,
}
use sci_capsule.Extraction.{io, create_directory, create_file, write_file, sync_file}
use sci_capsule.Extraction.Materialize.{write_payload}

-- A tree with one more file in it, and the directories that it needs.
abbrev pub place : Location → Bytes → Entries → Entries
place q bytes entries p =
    if p == q then some (regular bytes) else (if is_ancestor p q then some directory else entries p)

-- A file may change what it holds.
IsTree-rewrite :
    (entries : Entries) (l : Location) (old new : Bytes)
    → IsTree entries
    → entries l ≡ some (regular old)
    → IsTree (update entries l (some (regular new)))
IsTree-rewrite entries l old new t h = record {
  root = stays [] t.root;
  parents = λ n up e. elim (==-cases (n ∷ up) l) [
    | inl (b, q) ↦ stays up (t.parents n up (λ z. cc (z, ap entries q, h)))
    | inr (b, q) ↦ stays up (
        t.parents n up
          (subst (λ o. o ≢ none) (update_other entries l (some (regular new)) (n ∷ up) q) e))
  ];
}
  where
    stays :
        (p : Location)
        → entries p ≡ some directory
        → update entries l (some (regular new)) p ≡ some directory
    stays p e = update_other entries l _ p (λ q. cc (e, ap entries q, h)) ∙ e

-- What the body of the loop went through when it succeeds.
written :
    (l up : Location) (bytes : Bytes) (d d' : Disk)
    → write_payload l up bytes d ≡ (ok tt, d')
    → (d1 : Disk) × (create_dir_all up d ≡ (ok tt, d1))
      × (enter (regular []) l d1.entries ≡ (ok tt, update d1.entries l (some (regular []))))
      × (d1.entries l ≡ none)
      × (d'.entries ≡ update (update d1.entries l (some (regular []))) l (some (regular bytes)))
unfolding write_payload
written l up bytes d d' h =
    let (_, d1, h1, h) =
      >>=-succeeds (map_error (io create_directory up) (create_dir_all up)) _ d h in
    let (_, d2, h2, h) = >>=-succeeds (map_error (io create_file l) (create_new l)) _ d1 h in
    let (_, d3, h3, h) = >>=-succeeds (map_error (io write_file l) (write_all l bytes)) _ d2 h in
    let e1 =
      attempt-succeeds untouched (enter (regular []) l) d1
        (map_error-succeeds (io create_file l) (create_new l) d1 h2) in
    let (n', up', e, is_dir, absent, e2) = enter-succeeds (regular []) l d1.entries d2.entries e1 in
    let e3 =
      ap (λ x. x.1)
        (attempt-succeeds (λ k f. update f l (some (regular (take_bytes k bytes))))
          (λ f. (ok tt, update f l (some (regular bytes)))) d2
          (map_error-succeeds (io write_file l) (write_all l bytes) d2 h3)) in
    let e4 =
      ap (λ x. x.1)
        (attempt-succeeds untouched (λ f. (ok tt, f)) d3
          (map_error-succeeds (io sync_file l) sync_all d3 h)) in
    (
      d1,
      map_error-succeeds (io create_directory up) (create_dir_all up) d h1,
      subst (λ f. enter (regular []) l d1.entries ≡ (ok tt, f)) e2 e1,
      absent,
      sym e4 ∙ sym e3 ∙ ap (λ f. update f l (some (regular bytes))) e2,
    )

placed :
    (n : Bytes) (up : Location) (bytes : Bytes) (f f1 : Entries) (p : Location)
    → f1 p ≡ with_directories up f p
    → update (update f1 (n ∷ up) (some (regular []))) (n ∷ up) (some (regular bytes)) p
      ≡ place (n ∷ up) bytes f p
unfolding is_ancestor
placed n up bytes f f1 p h = elim (==-cases p (n ∷ up)) [
  | inl (e, q) ↦ rw e refl
  | inr (e, q) ↦ rw e h
]

pub write_payload-succeeds :
    (n : Bytes) (up : Location) (bytes : Bytes) (d d' : Disk)
    → IsTree d.entries
    → write_payload (n ∷ up) up bytes d ≡ (ok tt, d')
    → ((p : Location) → d'.entries p ≡ place (n ∷ up) bytes d.entries p) × IsTree d'.entries
write_payload-succeeds n up bytes d d' t h =
    let l : Location = n ∷ up in
    let (d1, h1, h2, absent, e) = written l up bytes d d' h in
    let (made, t1) = create_dir_all-succeeds up d d1 t h1 in
    let is_dir : d1.entries up ≡ some directory = made up ∙ rw (eq_refl up) refl in
    let t2 = IsTree-enter d1.entries (regular []) n up t1 is_dir absent in
    (
      λ p. ap (λ f. f p) e ∙ placed n up bytes d.entries d1.entries p (made p),
      subst IsTree (sym e) (
          IsTree-rewrite (update d1.entries l (some (regular []))) l [] bytes t2
            (update_same d1.entries l (some (regular [])))),
    )

-- A call on one place keeps what another holds.
module _ (l : Location) (d : Disk) (p : Location) (v : Option Node) (q : p ≢ l)
    (h : d.entries p ≡ v) where
  create_new-keeps : (create_new l d).1.entries p ≡ v
  create_new-keeps =
      attempt-keeps untouched (enter (regular []) l) (λ f. f p ≡ v) d
        (enter_keeps_at (regular []) l p v d.entries h (λ e. absurd (q e))) (λ _. h)

  write_all-keeps : (bytes : Bytes) → (write_all l bytes d).1.entries p ≡ v
  write_all-keeps bytes =
      attempt-keeps (λ k f. update f l (some (regular (take_bytes k bytes))))
        (λ f. (ok tt, update f l (some (regular bytes)))) (λ f. f p ≡ v) d
        (update_other d.entries l (some (regular bytes)) p q ∙ h)
        (λ k. update_other d.entries l (some (regular (take_bytes k bytes))) p q ∙ h)

sync_all-keeps :
    (d : Disk) (p : Location) (v : Option Node) → d.entries p ≡ v → (sync_all d).1.entries p ≡ v
sync_all-keeps d p v h = attempt-keeps untouched (λ f. (ok tt, f)) (λ f. f p ≡ v) d h (λ _. h)

-- Whatever it returns, the body keeps what is elsewhere, and what was there above its file.
pub write_payload-keeps :
    (n : Bytes) (up : Location) (bytes : Bytes) (d : Disk) (p : Location) (v : Option Node)
    → p ≢ n ∷ up
    → (is_ancestor p (n ∷ up) ≡ true → v ≢ none)
    → d.entries p ≡ v
    → (write_payload (n ∷ up) up bytes d).1.entries p ≡ v
unfolding write_payload is_ancestor
write_payload-keeps n up bytes d p v q g h =
    let l : Location = n ∷ up in
    >>=-keeps (λ s. s.entries p ≡ v) (map_error (io create_directory up) (create_dir_all up)) _ d
      (create_dir_all-keeps up d p v h g)
      λ _ _.
        let d1 = (create_dir_all up d).1 in
        let k1 : d1.entries p ≡ v = create_dir_all-keeps up d p v h g in
        let d2 = (create_new l d1).1 in
        let k2 : d2.entries p ≡ v = create_new-keeps l d1 p v q k1 in
        let d3 = (write_all l bytes d2).1 in
        let k3 : d3.entries p ≡ v = write_all-keeps l d2 p v q k2 bytes in
        >>=-keeps (λ s. s.entries p ≡ v) (map_error (io create_file l) (create_new l)) _ d1 k2
          λ _ _.
            >>=-keeps (λ s. s.entries p ≡ v) (map_error (io write_file l) (write_all l bytes)) _ d2
              k3 λ _ _. sync_all-keeps d3 p v k3

-- Where nothing is in store, the body succeeds if its file is not there and no file is above it.
pub write_payload_fits :
    (n : Bytes) (up : Location) (bytes : Bytes) (f : Entries)
    → IsTree f
    → f (n ∷ up) ≡ none
    → ((p : Location) → is_ancestor p (n ∷ up) ≡ true → (f p ≡ none) ⊎ (f p ≡ some directory))
    → (f' : Entries) × (write_payload (n ∷ up) up bytes (still f) ≡ (ok tt, still f'))
unfolding write_payload is_ancestor list_beq
write_payload_fits n up bytes f t h g =
    let l : Location = n ∷ up in
    let (f1, e1) = create_dir_all_fits up f t g in
    let (made, _) = create_dir_all-succeeds up (still f) (still f1) t e1 in
    let is_dir : f1 up ≡ some directory = made up ∙ rw (eq_refl up) refl in
    let absent : f1 l ≡ none =
      made l ∙ rw (same-append (n ∷ []) [] up, is_ancestor-append (n ∷ []) [] up) h in
    let f2 = update f1 l (some (regular [])) in
    let f3 = update f2 l (some (regular bytes)) in
    (
      f3,
      rw
          (
            e1,
            attempt_undisturbed untouched (enter (regular []) l) f1,
            enter_fits (regular []) n up f1 is_dir absent,
            attempt_undisturbed (λ k f. update f l (some (regular (take_bytes k bytes))))
                (λ f. (ok tt, update f l (some (regular bytes)))) f2,
            attempt_undisturbed untouched (λ f. (ok tt, f)) f3,
          )
          refl,
    )
