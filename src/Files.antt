-- ===== src/Files.antt =====
-- The file system as src/extraction.rs, src/product_main.rs and src/lib.rs use it: the calls that
-- they make of `std::fs`, of `rustix` and of `tempfile`. They are calls of the operating system,
-- so they can fail for a reason of its own, which the state has in store.
pub mod Ancestors
pub mod Calls
pub mod Directories
pub mod Access
pub mod Reading
pub mod Writing
use sci_capsule.Prelude.{
  ℕ, Bool, true, false, Option, none, some, List, [], ◌∷◌, ◌++◌, Bytes, ◌==◌, nat_eq, list_eq,
  if◌then◌else◌, Result, ok, err, zero, suc,
}
use sci_capsule.Action.{Action, pure, ◌>>◌}

-- A place in the tree of directories: its names from the last one up to the root.
abbrev pub Location : Type 0
Location = List Bytes

pub data Node : Type 0 where
  regular : Bytes → Node
  directory link special : Node

abbrev pub Entries : Type 0
Entries = Location → Option Node

-- `faults` is what the system has in store for the calls to come, in their order: none lets a
-- call go on, `some k` makes it fail, a write after `k` bytes. Calls beyond the list go on.
pub record Disk : Type 0 where
  pub entries : Entries
  pub faults : List (Option ℕ)

pub data IoError : Type 0 where
  already_exists not_found not_permitted system_error : IoError

-- A disk with no fault in store.
abbrev pub still : Entries → Disk
still entries = record { entries = entries; faults = [] }

abbrev pub Syscall : Type 0 → Type 0
Syscall A = Action Disk IoError A

-- One call: what it does to the entries when it goes on, and when it fails.
unfoldable pub attempt :
    {A : Type 0} → (ℕ → Entries → Entries) → (Entries → Result IoError A × Entries) → Syscall A
attempt failed call d = elim d.faults [
  | [] ↦ let (r, entries) = call d.entries in (r, record { entries = entries; faults = [] })
  | fault ∷ faults ↦ elim fault [
    | none ↦ let (r, entries) = call d.entries in (r, record { entries = entries; faults = faults })
    | some k ↦ (err system_error, record { entries = failed k d.entries; faults = faults })
  ]
]

abbrev pub untouched : ℕ → Entries → Entries
untouched k entries = entries

abbrev pub update : Entries → Location → Option Node → Entries
update entries l node p = if p == l then node else entries p

abbrev pub is_directory : Option Node → Bool
is_directory none = false
is_directory (some (regular bytes)) = false
is_directory (some directory) = true
is_directory (some link) = false
is_directory (some special) = false

abbrev pub is_absent : Option Node → Bool
is_absent none = true
is_absent (some node) = false

-- `mkdir` and `open` with `O_CREAT | O_EXCL` make an entry where there is none, in a directory.
abbrev pub enter : Node → Location → Entries → Result IoError (Unit {0}) × Entries
enter node [] entries = (err already_exists, entries)
enter node (name ∷ parent) entries =
    if is_directory (entries parent)
    then (if is_absent (entries (name ∷ parent))
        then (ok tt, update entries (name ∷ parent) (some node))
        else (err already_exists, entries))
    else (err not_found, entries)

abbrev pub make_directory : Location → Syscall (Unit {0})
make_directory l = attempt untouched (enter directory l)

abbrev pub create_new : Location → Syscall (Unit {0})
create_new l = attempt untouched (enter (regular []) l)

abbrev pub take_bytes : ℕ → Bytes → Bytes
take_bytes zero bytes = []
take_bytes (suc n) [] = []
take_bytes (suc n) (c ∷ bytes) = c ∷ take_bytes n bytes

-- `write_all` to a file that was opened as a new one.
abbrev pub write_all : Location → Bytes → Syscall (Unit {0})
write_all l bytes =
    attempt (λ k entries. update entries l (some (regular (take_bytes k bytes))))
      (λ entries. (ok tt, update entries l (some (regular bytes))))

abbrev pub sync_all : Syscall (Unit {0})
sync_all = attempt untouched (λ entries. (ok tt, entries))

-- `symlink_metadata`
abbrev pub symlink_metadata : Location → Syscall Node
symlink_metadata l =
    attempt untouched
      (λ entries. (elim (entries l) [ none ↦ err not_found | some node ↦ ok node ], entries))

abbrev pub remove_file : Location → Syscall (Unit {0})
remove_file l = attempt untouched (λ entries. (ok tt, update entries l none))

-- The names that lead down from `base` to a place at or below it, the last one first.
unfoldable pub below : Location → Location → Option Location
below base [] = if [] == base then some [] else none
below base (name ∷ parent) =
    let rest = below base parent in
    if name ∷ parent == base then some [] else elim rest [ none ↦ none | some r ↦ some (name ∷ r) ]

-- What a `TempDir` does when it is dropped: it removes the directory with all that is in it, or,
-- on a failure, does not.
abbrev pub remove_dir_all : Location → Syscall (Unit {0})
remove_dir_all l =
    attempt untouched
      (λ entries. (ok tt, λ p. elim (below l p) [ none ↦ entries p | some r ↦ none ]))

abbrev pub moved : Location → Location → Entries → Entries
moved source destination entries p = elim (below destination p) [
  | some r ↦ entries (r ++ source)
  | none ↦ elim (below source p) [ none ↦ entries p | some r ↦ none ]
]

-- `renameat2` with `RENAME_NOREPLACE`, of a directory.
abbrev pub rename_no_replace : Location → Location → Syscall (Unit {0})
rename_no_replace source destination = attempt untouched λ entries. elim destination [
  | [] ↦ (err already_exists, entries)
  | name ∷ parent ↦
      if is_absent (entries source)
      then (err not_found, entries)
      else (if is_directory (entries parent)
          then (if is_absent (entries (name ∷ parent))
              then (elim (below source (name ∷ parent)) [
                | none ↦ (ok tt, moved source (name ∷ parent) entries)
                | some r ↦ (err not_permitted, entries)
              ])
              else (err already_exists, entries))
          else (err not_found, entries))
]

-- `create_dir_all`: up to the first directory that is there, and then down again.
unfoldable pub create_dir_all : Location → Syscall (Unit {0})
create_dir_all [] = pure tt
create_dir_all (name ∷ parent) = λ d.
    let rest = create_dir_all parent in
    if is_directory (d.entries (name ∷ parent))
    then (ok tt, d)
    else (if is_absent (d.entries (name ∷ parent))
        then (rest >> make_directory (name ∷ parent)) d
        else (err already_exists, d))
