-- ===== src/Tests/Files.antt =====
-- Examples of the theorems on reading and writing files.
use sci_capsule.Prelude.{
  ◌≡◌, ◌↔◌, refl, inl, some, none, true, head_eq, tail_eq, ok, err, [], ◌∷◌, codes, list_beq, arith,
  suc, list_eq, nat_eq,
}
use sci_capsule.Files.{Location, Entries, regular, still, attempt, update}
use sci_capsule.Files.Access.{
  OpenFile, read_open_file, read_regular_input_bounded, write_new_capsule, exceeded,
}
use sci_capsule.Files.Reading.{
  IsRead, IsRegular, read_open_file-succeeds, read_regular_input_bounded_iff,
}
use sci_capsule.Files.Writing.{write_new_capsule-keeps, read-write_new_capsule}
use sci_capsule.Tests.Extracting.{root_only}

abbrev note : Location
note = codes "note" ∷ []

abbrev holding : Entries
holding = update root_only note (some (regular (1 ∷ 2 ∷ [])))

-- A file that says it is empty and holds two bytes, as some of the system's own files do.
abbrev growing : OpenFile
growing = record { is_file = true; len = 0; bytes = 1 ∷ 2 ∷ [] }

growing_refused : (read_open_file 1 2 growing (still root_only)).0 ≡ err (exceeded 1)
unfolding read_open_file attempt
growing_refused = refl

growing_read :
    read_open_file 2 (suc 2) growing (still root_only) ≡ (ok (1 ∷ 2 ∷ []), still root_only)
unfolding read_open_file attempt
growing_read = refl

read_open_file-succeeds_example : IsRead 2 growing (still root_only) (still root_only) (1 ∷ 2 ∷ [])
read_open_file-succeeds_example =
    read_open_file-succeeds 2 growing (still root_only) (still root_only) (1 ∷ 2 ∷ []) growing_read

read_regular_input_bounded_iff_example :
    (read_regular_input_bounded note 2 (still holding) ≡ (ok (1 ∷ 2 ∷ []), still holding))
    ↔ IsRegular note 2 (still holding) (still holding) (1 ∷ 2 ∷ [])
read_regular_input_bounded_iff_example = read_regular_input_bounded_iff note 2 holding (1 ∷ 2 ∷ [])

-- The write of a new file fails after a byte; what was there is kept.
write_new_capsule-keeps_example :
    (write_new_capsule
        (codes "new" ∷ [])
        (3 ∷ 4 ∷ [])
        (record { entries = holding; faults = none ∷ some 1 ∷ [] })).1.entries
      note
    ≡ holding note
unfolding list_beq
write_new_capsule-keeps_example =
    write_new_capsule-keeps (codes "new" ∷ []) (3 ∷ 4 ∷ [])
      (record { entries = holding; faults = none ∷ some 1 ∷ [] }) note
      (inl (λ e. absurd (omega (arith, head_eq (tail_eq (head_eq e))))))

read-write_new_capsule_example :
    (f' : Entries) × (write_new_capsule note (3 ∷ []) (still root_only) ≡ (ok tt, still f'))
    × (read_regular_input_bounded note 5 (still f') ≡ (ok (3 ∷ []), still f'))
unfolding list_beq
read-write_new_capsule_example =
    read-write_new_capsule (codes "note") [] (3 ∷ []) 5 root_only refl refl (omega arith)
      (omega arith)
