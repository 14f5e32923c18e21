-- ===== src/Files/Directories.antt =====
-- What `create_dir_all` leaves.
use sci_capsule.Prelude.{
  ◌≡◌, refl, sym, ap, subst, ◌∙◌, ◌≢◌, ◌⊎◌, inl, inr, Bool, true, false, ◌||◌, Option, none, some,
  [], ◌∷◌, Bytes, arith, ◌==◌, nat_eq, list_eq, if◌then◌else◌, Result, ok, err, Bool-cases, eq_refl,
  eq_iff, tail_eq, list_beq,
}
use sci_capsule.Action.{◌>>◌, >>=-succeeds, >>=-keeps}
use sci_capsule.Files.{
  still, IoError, Location, Node, directory, Entries, Disk, update, is_directory, is_absent, enter,
  make_directory, create_dir_all, untouched, already_exists,
}
use sci_capsule.Files.Ancestors.{is_ancestor, ==-cases, same-append, is_ancestor-append}
use sci_capsule.Files.Calls.{
  attempt-succeeds, attempt-keeps, attempt_undisturbed, is_directory-true, enter-succeeds,
  enter_fits, enter-keeps, update_other,
}

-- Every entry stands in a directory.
pub record IsTree (entries : Entries) : Type 0 where
  pub root : entries [] ≡ some directory
  pub parents :
      (name : Bytes) (parent : Location)
      → entries (name ∷ parent) ≢ none
      → entries parent ≡ some directory

-- Everything above an entry is a directory.
pub IsTree-ancestors :
    (entries : Entries)
    → IsTree entries
    → (p l : Location) → entries l ≢ none
    → is_ancestor p l ≡ true
    → entries p ≡ some directory
unfolding is_ancestor
IsTree-ancestors entries t p [] h a = cc a
IsTree-ancestors entries t p (name ∷ l) h a = elim (==-cases p l) [
  | inl (e, g) ↦ ap entries g ∙ t.parents name l h
  | inr (e, g) ↦
      let above : entries l ≢ none = λ n. cc (n, t.parents name l h) in
      IsTree-ancestors entries t p l above (ground (arith, e, a))
]

-- A new entry in a directory leaves a tree.
pub IsTree-enter :
    (entries : Entries) (node : Node) (name : Bytes) (parent : Location)
    → IsTree entries
    → entries parent ≡ some directory
    → entries (name ∷ parent) ≡ none
    → IsTree (update entries (name ∷ parent) (some node))
IsTree-enter entries node name parent t h g = record {
  root = update_other entries (name ∷ parent) (some node) [] (λ e. cc e) ∙ t.root;
  parents = λ n l e.
      let old : entries l ≡ some directory = elim (==-cases (n ∷ l) (name ∷ parent)) [
        | inl (b, q) ↦ ap entries (tail_eq q) ∙ h
        | inr (b, q) ↦
            t.parents n l
              (subst (λ o. o ≢ none) (update_other entries (name ∷ parent) (some node) (n ∷ l) q) e)
      ] in
      update_other entries (name ∷ parent) (some node) l (λ q. cc (old, ap entries q, g)) ∙ old;
}

abbrev pub with_directories : Location → Entries → Entries
with_directories l entries p = if p == l || is_ancestor p l then some directory else entries p

with_directories-idle :
    (entries : Entries)
    → IsTree entries
    → (l : Location) → entries l ≡ some directory
    → (p : Location) → entries p ≡ with_directories l entries p
with_directories-idle entries t l h p = elim (==-cases p l) [
  | inl (e, g) ↦ ap entries g ∙ h ∙ rw e refl
  | inr (e, g) ↦ elim (Bool-cases (is_ancestor p l)) [
    | inl a ↦ IsTree-ancestors entries t p l (λ n. cc (n, h)) a ∙ rw (e, a) refl
    | inr a ↦ rw (e, a) refl
  ]
]

-- Which way `create_dir_all` went.
descent :
    (b c : Bool) (d : Disk) (r : Result IoError (Unit {0}) × Disk) {d' : Disk}
    → (if b then (ok tt, d) else (if c then r else (err already_exists, d))) ≡ (ok tt, d')
    → ((b ≡ true) × (d ≡ d')) ⊎ ((b ≡ false) × (r ≡ (ok tt, d')))
descent true c d r h = inl (refl, ap (λ x. x.1) h)
descent false true d r h = inr (refl, h)
descent false false d r h = cc (ap (λ x. x.0) h)

-- What `create_dir_all` has made when it succeeds: the directory and those above it.
pub create_dir_all-succeeds :
    (l : Location) (d d' : Disk)
    → IsTree d.entries
    → create_dir_all l d ≡ (ok tt, d')
    → ((p : Location) → d'.entries p ≡ with_directories l d.entries p) × IsTree d'.entries
unfolding create_dir_all is_ancestor
create_dir_all-succeeds [] d d' t h =
    let e = ap (λ x. x.1.entries) h in
    subst (λ f. ((p : Location) → f p ≡ with_directories [] d.entries p) × IsTree f) e
      (with_directories-idle d.entries t [] t.root, t)
create_dir_all-succeeds (name ∷ l) d d' t h =
    elim (descent (is_directory (d.entries (name ∷ l))) (is_absent (d.entries (name ∷ l))) d
      ((create_dir_all l >> make_directory (name ∷ l)) d) h) [
        | inl (b, e) ↦
            subst (λ f. ((p : Location) → f p ≡ with_directories (name ∷ l) d.entries p) × IsTree f)
              (ap (λ x. x.entries) e)
              (with_directories-idle d.entries t (name ∷ l) (is_directory-true _ b), t)
        | inr (b, h) ↦
            let (_, d1, h1, h) =
              >>=-succeeds (create_dir_all l) (λ _. make_directory (name ∷ l)) d h in
            let (ih, t1) = create_dir_all-succeeds l d d1 t h1 in
            let (n, up, e, hp, ha, hu) =
              enter-succeeds directory (name ∷ l) d1.entries d'.entries
                (attempt-succeeds untouched (enter directory (name ∷ l)) d1 h) in
            let hp' : d1.entries l ≡ some directory = ap d1.entries (tail_eq e) ∙ hp in
            (
              λ p. ap (λ f. f p) hu ∙ made (p == name ∷ l) (p == l) (is_ancestor p l) _ _ _ (ih p),
              subst IsTree (sym hu) (IsTree-enter d1.entries directory name l t1 hp' ha),
            )
      ]
  where
    made :
        (b c a : Bool) (o o' x : Option Node)
        → o ≡ (if c || a then x else o')
        → (if b then x else o) ≡ (if b || (c || a) then x else o')
    made true c a o o' x h = refl
    made false c a o o' x h = h

-- A new entry keeps what `p` holds, where that is not nothing or `p` is another place.
pub enter_keeps_at :
    (node : Node) (l p : Location) (v : Option Node) (entries : Entries)
    → entries p ≡ v
    → (p ≡ l → v ≢ none)
    → (enter node l entries).1 p ≡ v
enter_keeps_at node l p v entries h g =
    enter-keeps (λ f. f p ≡ v) node l entries h
      λ absent. elim (==-cases p l) [
        | inl (e, q) ↦ absurd (g q (sym h ∙ ap entries q ∙ absent))
        | inr (e, q) ↦ update_other entries l (some node) p q ∙ h
      ]

branches :
    (R : Result IoError (Unit {0}) × Disk → Type 0) (b c : Bool) (d : Disk)
    (r : Result IoError (Unit {0}) × Disk)
    → ((x : Result IoError (Unit {0})) → R (x, d))
    → R r
    → R (if b then (ok tt, d) else (if c then r else (err already_exists, d)))
branches R true c d r h g = h (ok tt)
branches R false true d r h g = g
branches R false false d r h g = h (err already_exists)

-- Whatever it returns, it changes only what was absent at or above the directory.
pub create_dir_all-keeps :
    (l : Location) (d : Disk) (p : Location) (v : Option Node)
    → d.entries p ≡ v
    → ((p == l || is_ancestor p l) ≡ true → v ≢ none)
    → (create_dir_all l d).1.entries p ≡ v
unfolding create_dir_all is_ancestor
create_dir_all-keeps [] d p v h g = h
create_dir_all-keeps (name ∷ l) d p v h g =
    branches (λ x. x.1.entries p ≡ v) (is_directory (d.entries (name ∷ l)))
      (is_absent (d.entries (name ∷ l))) d ((create_dir_all l >> make_directory (name ∷ l)) d)
      (λ _. h)
      (>>=-keeps (λ s. s.entries p ≡ v) (create_dir_all l) (λ _. make_directory (name ∷ l)) d
        (create_dir_all-keeps l d p v h (λ e. g (ground (arith, e))))
        (λ _ _.
          let kept : (create_dir_all l d).1.entries p ≡ v =
            create_dir_all-keeps l d p v h (λ e. g (ground (arith, e))) in
          let s = (create_dir_all l d).1 in
          attempt-keeps untouched (enter directory (name ∷ l)) (λ f. f p ≡ v) s
            (enter_keeps_at directory (name ∷ l) p v s.entries kept (λ e. g (at_least e)))
            (λ _. kept)))
  where
    at_least : p ≡ name ∷ l → (p == name ∷ l || is_ancestor p (name ∷ l)) ≡ true
    at_least e = rw ((eq_iff p (name ∷ l)).1 e) refl

-- Where nothing is in store, it succeeds if no file is at or above the directory.
pub create_dir_all_fits :
    (l : Location) (f : Entries)
    → IsTree f
    → ((p : Location) → (p == l || is_ancestor p l) ≡ true → (f p ≡ none) ⊎ (f p ≡ some directory))
    → (f' : Entries) × (create_dir_all l (still f) ≡ (ok tt, still f'))
unfolding create_dir_all is_ancestor list_beq
create_dir_all_fits [] f t h = (f, refl)
create_dir_all_fits (name ∷ l) f t h = elim (h (name ∷ l) here) [
  | inr e ↦ (f, rw e refl)
  | inl e ↦
      let (f1, e1) = create_dir_all_fits l f t (λ p a. h p (ground (arith, a))) in
      let (made, _) = create_dir_all-succeeds l (still f) (still f1) t e1 in
      let parent : f1 l ≡ some directory = made l ∙ rw (eq_refl l) refl in
      let absent : f1 (name ∷ l) ≡ none = made (name ∷ l) ∙ rw (lower.0, lower.1) e in
      (
        update f1 (name ∷ l) (some directory),
        rw
            (
              e,
              e1,
              attempt_undisturbed untouched (enter directory (name ∷ l)) f1,
              enter_fits directory name l f1 parent absent,
            )
            refl,
      )
]
  where
    here : (name ∷ l == name ∷ l || is_ancestor (name ∷ l) (name ∷ l)) ≡ true
    here = rw (eq_refl (name ∷ l)) refl

    lower : ((name ∷ l == l) ≡ false) × (is_ancestor (name ∷ l) l ≡ false)
    lower = (same-append (name ∷ []) [] l, is_ancestor-append (name ∷ []) [] l)
