-- ===== src/Extraction/Conflicts.antt =====
-- src/extraction.rs: the conflicts between files and directories that `preflight` looks for.
use sci_capsule.Prelude.{
  ℕ, ◌≡◌, refl, sym, ap, subst, ◌∙◌, ◌≢◌, ◌↔◌, false, none, List, [], ◌∷◌, ◌++◌, Bytes, arith,
  nat_eq, list_eq, is_empty, contains, if◌then◌else◌, split, All, join, join-one, join-append, ok,
  Option-cases, inl, inr,
}
use sci_capsule.Extraction.{PathBuf, find_ancestor, check_conflicts}
use sci_capsule.Extraction.Paths.{IsSafe, IsPortable, IsPortable-split}

-- No proper ancestor directory of the path `r` is one of the files `paths`.
abbrev pub NoAncestor : List Bytes → PathBuf → Type 0
NoAncestor paths r =
    (c : Bytes) (i : PathBuf) (x : Bytes) (rest : PathBuf)
    → r ≡ c ∷ i ++ x ∷ rest
    → contains paths (join b'/' (c ∷ i)) ≡ false

abbrev extend_one : Bytes → Bytes → Bytes
extend_one prefix c = if is_empty prefix then c else prefix ++ b'/' ∷ c

extend : Bytes → List Bytes → Bytes
extend prefix [] = prefix
extend prefix (c ∷ cs) = extend (extend_one prefix c) cs

extend-join : (d : ℕ) (p : Bytes) (cs : List Bytes) → extend (d ∷ p) cs ≡ join b'/' ((d ∷ p) ∷ cs)
unfolding extend
extend-join d p [] = sym (join-one b'/' (d ∷ p))
extend-join d p (c ∷ cs) = extend-join d (p ++ b'/' ∷ c) cs ∙ join-append b'/' (d ∷ p) c cs

extend-start : (c : Bytes) (cs : List Bytes) → c ≢ [] → extend [] (c ∷ cs) ≡ join b'/' (c ∷ cs)
unfolding extend
extend-start [] cs h = absurd (h refl)
extend-start (d ∷ c) cs h = extend-join d c cs

find_ancestor_sound :
    (paths : List Bytes) (prefix c : Bytes) (i : PathBuf) (x : Bytes) (rest : PathBuf)
    → find_ancestor paths prefix (c ∷ i ++ x ∷ rest) ≡ none
    → contains paths (extend prefix (c ∷ i)) ≡ false
unfolding find_ancestor extend
find_ancestor_sound paths prefix c [] x rest h = ground (arith, h)
find_ancestor_sound paths prefix c (y ∷ i) x rest h =
    find_ancestor_sound paths (extend_one prefix c) y i x rest (ground (arith, h))

find_ancestor_complete :
    (paths : List Bytes) (prefix : Bytes) (cs : List Bytes)
    → ((c : Bytes) (i : PathBuf) (x : Bytes) (rest : PathBuf)
        → cs ≡ c ∷ i ++ x ∷ rest
        → contains paths (extend prefix (c ∷ i)) ≡ false)
    → find_ancestor paths prefix cs ≡ none
unfolding find_ancestor extend
find_ancestor_complete paths prefix [] h = refl
find_ancestor_complete paths prefix (c ∷ []) h = refl
find_ancestor_complete paths prefix (c ∷ d ∷ cs) h = rw (h c [] d cs refl) (
    find_ancestor_complete paths (extend_one prefix c) (d ∷ cs)
      (λ c' i x rest e. h c (c' ∷ i) x rest (ap (λ t. c ∷ t) e)))

-- On a portable path the loop finds nothing exactly where no ancestor is a file.
pub find_ancestor_iff :
    (paths : List Bytes) (path : Bytes) (r : PathBuf)
    → IsPortable path r
    → (find_ancestor paths [] (split b'/' path) ≡ none) ↔ NoAncestor paths r
find_ancestor_iff paths path r h = rw (IsPortable-split path r h) (
  (λ g c i x rest e.
      rw (sym (extend-start c i (first_ne c i x rest e))) (
        find_ancestor_sound paths [] c i x rest
          (subst (λ t. find_ancestor paths [] t ≡ none) e g))),
  (λ g.
      find_ancestor_complete paths [] r
        (λ c i x rest e. rw (extend-start c i (first_ne c i x rest e)) (g c i x rest e))),
)
  where
    first_ne :
        (c : Bytes) (i : PathBuf) (x : Bytes) (rest : PathBuf) → r ≡ c ∷ i ++ x ∷ rest → c ≢ []
    first_ne c i x rest e = (subst (All IsSafe) e h.safe).0.ne_empty

pub check_conflicts_iff :
    (paths remaining : List Bytes)
    → (check_conflicts paths remaining ≡ ok tt)
      ↔ All (λ path. find_ancestor paths [] (split b'/' path) ≡ none) remaining
unfolding check_conflicts
check_conflicts_iff paths [] = (λ _. tt, λ _. refl)
check_conflicts_iff paths (p ∷ ps) = elim (Option-cases (find_ancestor paths [] (split b'/' p))) [
  | inl e ↦ ground (arith, e, check_conflicts_iff paths ps)
  | inr f ↦ ground (arith, f.1)
]
