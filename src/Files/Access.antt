-- ===== src/Files/Access.antt =====
-- src/lib.rs and src/product_main.rs: bounded reads of regular files, and the creation of new ones.
-- The two files have these functions in the same form, with errors of their own.
use sci_capsule.Prelude.{
  ℕ, Bool, true, false, not, Option, none, some, [], Bytes, ltb, length, checked_add, Result, ok,
  err, ok_or,
}
use sci_capsule.Action.{Action, pure, lift, raise_if, ◌>>=◌, ◌>>◌, map_error}
use sci_capsule.Files.{
  Location, Node, Disk, IoError, Syscall, not_found, not_permitted, regular, directory, link,
  special, attempt, untouched, create_new, write_all, sync_all, remove_file, take_bytes,
}

-- A file that has been opened: what `metadata` says of it, and the bytes that are there to read
-- when it is read, which may have become others.
pub record OpenFile : Type 0 where
  pub is_file : Bool
  pub len : ℕ
  pub bytes : Bytes

pub data FileError : Type 0 where
  read_limit_too_large non_regular : FileError
  cannot_open cannot_inspect cannot_read : IoError → FileError
  -- the size and the limit
  too_long : ℕ → ℕ → FileError
  exceeded : ℕ → FileError
  cannot_create cannot_write : IoError → FileError

abbrev pub Accessing : Type 0 → Type 0
Accessing A = Action Disk FileError A

-- What `open` gives with `O_NOFOLLOW`, by the node that is there.
abbrev pub opened : Option Node → Result IoError OpenFile
opened none = err not_found
opened (some (regular bytes)) = ok (record { is_file = true; len = length bytes; bytes = bytes })
opened (some directory) = ok (record { is_file = false; len = 0; bytes = [] })
opened (some link) = err not_permitted
opened (some special) = ok (record { is_file = false; len = 0; bytes = [] })

-- `open_regular_nofollow`, on Unix.
unfoldable pub open_regular_nofollow : Location → Accessing OpenFile
open_regular_nofollow l =
    map_error cannot_open (attempt untouched (λ entries. (opened (entries l), entries)))

-- `metadata` of an open file, and `take(limit).read_to_end`.
abbrev pub metadata : Syscall (Unit {0})
metadata = attempt untouched (λ entries. (ok tt, entries))

abbrev pub read_to_end : ℕ → OpenFile → Syscall Bytes
read_to_end limit file = attempt untouched (λ entries. (ok (take_bytes limit file.bytes), entries))

-- What follows the opening.
unfoldable pub read_open_file : ℕ → ℕ → OpenFile → Accessing Bytes
read_open_file maximum_bytes read_limit file = do
  map_error cannot_inspect metadata
  raise_if (not file.is_file) non_regular
  raise_if (ltb maximum_bytes file.len) (too_long file.len maximum_bytes)
  bytes ← map_error cannot_read (read_to_end read_limit file)
  raise_if (ltb maximum_bytes (length bytes)) (exceeded maximum_bytes)
  pure bytes

unfoldable pub read_regular_input_bounded : Location → ℕ → Accessing Bytes
read_regular_input_bounded l maximum_bytes = do
  read_limit ← lift (ok_or (checked_add maximum_bytes 1) read_limit_too_large)
  file ← open_regular_nofollow l
  read_open_file maximum_bytes read_limit file

-- The same function of src/product_main.rs.
abbrev pub read_regular_file_bounded : Location → ℕ → Accessing Bytes
read_regular_file_bounded = read_regular_input_bounded

-- The file is removed where it cannot be written; whether that works is not looked at.
abbrev pub or_remove : Location → Result FileError (Unit {0}) → Accessing (Unit {0})
or_remove l (ok u) d = (ok u, d)
or_remove l (err e) d = (err e, (remove_file l d).1)

unfoldable pub write_new_capsule : Location → Bytes → Accessing (Unit {0})
write_new_capsule l bytes = do
  map_error cannot_create (create_new l)
  λ d.
      let (result, d') = map_error cannot_write (write_all l bytes >> sync_all) d in
      or_remove l result d'

-- The same function of src/product_main.rs.
abbrev pub write_new_file : Location → Bytes → Accessing (Unit {0})
write_new_file = write_new_capsule
