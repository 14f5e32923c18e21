-- ===== src/Files/Calls.antt =====
-- What a call of the file system leaves, when it goes on and when it fails.
use sci_capsule.Prelude.{
  ℕ, ◌≡◌, refl, sym, ap, ◌≢◌, ◌⊎◌, inl, inr, Bool, true, false, Option, none, some, List, [], ◌∷◌,
  Bytes, nat_eq, list_eq, if◌then◌else◌, Result, ok, err, eq_refl,
}
use sci_capsule.Files.{
  Location, Node, directory, Entries, Disk, IoError, system_error, already_exists, not_found,
  attempt, update, is_directory, is_absent, enter,
}
use sci_capsule.Files.Ancestors.{==-cases}

module _ {A : Type 0} (failed : ℕ → Entries → Entries)
    (call : Entries → Result IoError A × Entries) where
  -- A call that succeeds did what it does.
  attempt_cases :
      (entries : Entries) (faults : List (Option ℕ)) {a : A} {d' : Disk}
      → attempt failed call (record { entries = entries; faults = faults }) ≡ (ok a, d')
      → call entries ≡ (ok a, d'.entries)
  unfolding attempt
  attempt_cases entries [] h = λ i. ((h i).0, (h i).1.entries)
  attempt_cases entries (none ∷ faults) h = λ i. ((h i).0, (h i).1.entries)
  attempt_cases entries (some k ∷ faults) h = cc (ap (λ x. x.0) h)

  pub attempt-succeeds :
      (d : Disk) {a : A} {d' : Disk}
      → attempt failed call d ≡ (ok a, d')
      → call d.entries ≡ (ok a, d'.entries)
  attempt-succeeds d h = attempt_cases d.entries d.faults h

  -- What holds of the entries after the call and after its failure holds of them in any case.
  attempt_keeps :
      (R : Entries → Type 0) (entries : Entries) (faults : List (Option ℕ))
      → R (call entries).1
      → ((k : ℕ) → R (failed k entries))
      → R (attempt failed call (record { entries = entries; faults = faults })).1.entries
  unfolding attempt
  attempt_keeps R entries [] h g = h
  attempt_keeps R entries (none ∷ faults) h g = h
  attempt_keeps R entries (some k ∷ faults) h g = g k

  pub attempt-keeps :
      (R : Entries → Type 0) (d : Disk)
      → R (call d.entries).1
      → ((k : ℕ) → R (failed k d.entries))
      → R (attempt failed call d).1.entries
  attempt-keeps R d = attempt_keeps R d.entries d.faults

  attempt_outcome :
      (R : Result IoError A × Entries → Type 0) (entries : Entries) (faults : List (Option ℕ))
      → R (call entries)
      → ((k : ℕ) → R (err system_error, failed k entries))
      → let d : Disk = record { entries = entries; faults = faults } in
        R ((attempt failed call d).0, (attempt failed call d).1.entries)
  unfolding attempt
  attempt_outcome R entries [] h g = h
  attempt_outcome R entries (none ∷ faults) h g = h
  attempt_outcome R entries (some k ∷ faults) h g = g k

  pub attempt-outcome :
      (R : Result IoError A × Entries → Type 0) (d : Disk)
      → R (call d.entries)
      → ((k : ℕ) → R (err system_error, failed k d.entries))
      → R ((attempt failed call d).0, (attempt failed call d).1.entries)
  attempt-outcome R d = attempt_outcome R d.entries d.faults

  -- A call returns what it does, or fails for the system's own reason.
  attempt_result :
      (entries : Entries) (faults : List (Option ℕ))
      → let d : Disk = record { entries = entries; faults = faults } in
        ((attempt failed call d).0 ≡ (call entries).0)
        ⊎ ((attempt failed call d).0 ≡ err system_error)
  unfolding attempt
  attempt_result entries [] = inl refl
  attempt_result entries (none ∷ faults) = inl refl
  attempt_result entries (some k ∷ faults) = inr refl

  pub attempt-result :
      (d : Disk)
      → ((attempt failed call d).0 ≡ (call d.entries).0)
        ⊎ ((attempt failed call d).0 ≡ err system_error)
  attempt-result d = attempt_result d.entries d.faults

  -- Where nothing is in store, a call goes on.
  pub attempt_undisturbed :
      (entries : Entries)
      → attempt failed call (record { entries = entries; faults = [] })
        ≡ ((call entries).0, record { entries = (call entries).1; faults = [] })
  unfolding attempt
  attempt_undisturbed entries = refl

pub is_directory-true : (o : Option Node) → is_directory o ≡ true → o ≡ some directory
is_directory-true none h = cc h
is_directory-true (some Node.directory) h = refl
is_directory-true (some (Node.regular b)) h = cc h
is_directory-true (some Node.link) h = cc h
is_directory-true (some Node.special) h = cc h

pub is_absent-true : (o : Option Node) → is_absent o ≡ true → o ≡ none
is_absent-true none h = refl
is_absent-true (some n) h = cc h

pub is_absent-false : (o : Option Node) → is_absent o ≡ false → o ≢ none
is_absent-false none h = cc h
is_absent-false (some n) h = λ e. cc e

entered :
    (b c : Bool) (u f f' : Entries)
    → ◌≡◌ {A = Result IoError (Unit {0}) × Entries}
        (if b then (if c then (ok tt, u) else (err already_exists, f)) else (err not_found, f))
        (ok tt, f')
    → (b ≡ true) × (c ≡ true) × (f' ≡ u)
entered true true u f f' h = (refl, refl, sym (ap (λ x. x.1) h))
entered true false u f f' h = cc (ap (λ x. x.0) h)
entered false c u f f' h = cc (ap (λ x. x.0) h)

-- The entry that is made stands in a directory, where there was none.
pub enter-succeeds :
    (node : Node) (l : Location) (entries entries' : Entries)
    → enter node l entries ≡ (ok tt, entries')
    → (name : Bytes) × (parent : Location) × (l ≡ name ∷ parent)
      × (entries parent ≡ some directory)
      × (entries l ≡ none)
      × (entries' ≡ update entries l (some node))
enter-succeeds node [] entries entries' h = cc (ap (λ x. x.0) h)
enter-succeeds node (name ∷ parent) entries entries' h =
    let (e, g, h) =
      entered (is_directory (entries parent)) (is_absent (entries (name ∷ parent)))
        (update entries (name ∷ parent) (some node)) entries entries' h in
    (name, parent, refl, is_directory-true _ e, is_absent-true _ g, h)

pub enter_fits :
    (node : Node) (name : Bytes) (parent : Location) (entries : Entries)
    → entries parent ≡ some directory
    → entries (name ∷ parent) ≡ none
    → enter node (name ∷ parent) entries ≡ (ok tt, update entries (name ∷ parent) (some node))
enter_fits node name parent entries h g = rw (h, g) refl

-- Making an entry changes at most one place, which had none.
enter_keeps :
    (R : Result IoError (Unit {0}) × Entries → Type 0) (b c : Bool) (u f : Entries)
    → ((e : IoError) → R (err e, f))
    → (c ≡ true → R (ok tt, u))
    → R (if b then (if c then (ok tt, u) else (err already_exists, f)) else (err not_found, f))
enter_keeps R true true u f h g = g refl
enter_keeps R true false u f h g = h already_exists
enter_keeps R false c u f h g = h not_found

pub enter-keeps :
    (R : Entries → Type 0) (node : Node) (l : Location) (entries : Entries)
    → R entries
    → (entries l ≡ none → R (update entries l (some node)))
    → R (enter node l entries).1
enter-keeps R node [] entries h g = h
enter-keeps R node (name ∷ parent) entries h g =
    enter_keeps (λ x. R x.1) (is_directory (entries parent)) (is_absent (entries (name ∷ parent)))
      (update entries (name ∷ parent) (some node)) entries (λ _. h) (λ e. g (is_absent-true _ e))

module _ (entries : Entries) (l : Location) (node : Option Node) where
  pub update_same : update entries l node l ≡ node
  update_same = rw (eq_refl l) refl

  pub update_other : (p : Location) → p ≢ l → update entries l node p ≡ entries p
  update_other p h = elim (==-cases p l) [ inl (e, g) ↦ absurd (h g) | inr (e, g) ↦ rw e refl ]
