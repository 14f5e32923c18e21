-- ===== src/Extraction/Paths.antt =====
-- src/extraction.rs: what `portable_path` accepts.
use sci_capsule.Prelude.{
  ◌≡◌, refl, sym, ap, subst, ◌∙◌, ◌≢◌, ◌↔◌, Bool, false, ◌||◌, List, [], ◌∷◌, ◌++◌, Bytes, codes,
  arith, ◌==◌, nat_eq, list_eq, eq_iff, is_empty, contains, starts_with, split, All, Lacks, join,
  inl, inr, eq-cases, split-cons, join-split, split-join, split-Lacks, split-nil, split-same, ok,
  reject-eq-ok, append_assoc, append-nil, ok-injective, contains-Lacks,
}
use sci_capsule.Extraction.{
  PathBuf, special_component, non_portable_syntax, not_relative, invalid_path, push_components,
  portable_path,
}

-- A component that names a file or a directory below the destination on every platform.
pub record IsSafe (component : Bytes) : Type 0 where
  pub ne_empty : component ≢ []
  pub ne_current : component ≢ codes "."
  pub ne_parent : component ≢ codes ".."
  pub lacks_backslash : Lacks b'\\' component
  pub lacks_colon : Lacks b':' component
  pub lacks_nul : Lacks 0 component

is_special : Bytes → Bool
is_special c = is_empty c || c == codes "." || c == codes ".."

is_foreign : Bytes → Bool
is_foreign c = contains c b'\\' || contains c b':' || contains c 0

IsSafe-sound : (c : Bytes) → is_special c ≡ false → is_foreign c ≡ false → IsSafe c
unfolding is_special is_foreign
IsSafe-sound c h h' = record {
  ne_empty = λ e. ground (arith, e);
  ne_current = λ e. ground (arith, (eq_iff c (codes ".")).1 e);
  ne_parent = λ e. ground (arith, (eq_iff c (codes "..")).1 e);
  lacks_backslash = ground (arith, contains-Lacks b'\\' c);
  lacks_colon = ground (arith, contains-Lacks b':' c);
  lacks_nul = ground (arith, contains-Lacks 0 c);
}

IsSafe-complete : (c : Bytes) → IsSafe c → (is_special c ≡ false) × (is_foreign c ≡ false)
unfolding is_special is_foreign
IsSafe-complete [] h = absurd (h.ne_empty refl)
IsSafe-complete (d ∷ c) h = ground (
  arith,
  eq_iff (d ∷ c) (codes "."),
  eq_iff (d ∷ c) (codes ".."),
  contains-Lacks b'\\' (d ∷ c),
  contains-Lacks b':' (d ∷ c),
  contains-Lacks 0 (d ∷ c),
  h.ne_current,
  h.ne_parent,
  h.lacks_backslash,
  h.lacks_colon,
  h.lacks_nul,
)

push_components_sound :
    (path : Bytes) (relative : PathBuf) (components : List Bytes) {r : PathBuf}
    → push_components path relative components ≡ ok r
    → (r ≡ relative ++ components) × All IsSafe components
unfolding push_components is_special is_foreign
push_components_sound path relative [] h = (rw (append-nil relative) (sym (ok-injective h)), tt)
push_components_sound path relative (c ∷ cs) h =
    let (h1, h) = reject-eq-ok (is_special c) (invalid_path path special_component) _ h in
    let (h2, h) = reject-eq-ok (is_foreign c) (invalid_path path non_portable_syntax) _ h in
    let (e, hs) = push_components_sound path (relative ++ c ∷ []) cs h in
    (e ∙ append_assoc relative (c ∷ []) cs, (IsSafe-sound c h1 h2, hs))

push_components_complete :
    (path : Bytes) (relative : PathBuf) (components : List Bytes)
    → All IsSafe components
    → push_components path relative components ≡ ok (relative ++ components)
unfolding push_components is_special is_foreign
push_components_complete path relative [] _ = rw (append-nil relative) refl
push_components_complete path relative (c ∷ cs) (hc, hs) =
    let (h1, h2) = IsSafe-complete c hc in
    rw (h1, h2)
      (push_components_complete path (relative ++ c ∷ []) cs hs
        ∙ ap ok (append_assoc relative (c ∷ []) cs))

cons_ne_nil : {A : Type 0} {x : A} {xs : List A} → x ∷ xs ≢ []
cons_ne_nil h = cc

IsSafe-relative :
    (path : Bytes) → All IsSafe (split b'/' path) → (is_empty path || starts_with path b'/') ≡ false
unfolding starts_with
IsSafe-relative [] h = absurd ((subst (All IsSafe) (split-nil b'/') h).0.ne_empty refl)
IsSafe-relative (c ∷ s) h = elim (eq-cases c b'/') [
  | inl p ↦
      absurd (
        (subst (All IsSafe) (ap (λ d. split b'/' (d ∷ s)) p ∙ split-same b'/' s) h).0.ne_empty refl)
  | inr ne ↦ ground (arith, ne)
]

-- What the accepted components satisfy.
pub record IsPortable (path : Bytes) (r : PathBuf) : Type 0 where
  pub ne_nil : r ≢ []
  pub joined : join b'/' r ≡ path
  pub slashes : All (Lacks b'/') r
  pub safe : All IsSafe r

portable_path_sound : (path : Bytes) (r : PathBuf) → portable_path path ≡ ok r → IsPortable path r
unfolding portable_path
portable_path_sound path r h =
    let (_, h) =
      reject-eq-ok (is_empty path || starts_with path b'/') (invalid_path path not_relative) _ h in
    let (e, hs) = push_components_sound path [] (split b'/' path) h in
    let (w, ws, ew) = split-cons b'/' path in
    rw e (record {
      ne_nil = λ n. absurd (cons_ne_nil (sym ew ∙ n));
      joined = join-split b'/' path;
      slashes = split-Lacks b'/' path;
      safe = hs;
    })

pub IsPortable-split : (path : Bytes) (r : PathBuf) → IsPortable path r → split b'/' path ≡ r
IsPortable-split path [] h = absurd (h.ne_nil refl)
IsPortable-split path (w ∷ ws) h = ap (split b'/') (sym h.joined) ∙ split-join b'/' w ws h.slashes

portable_path_complete :
    (path : Bytes) (r : PathBuf) → IsPortable path r → portable_path path ≡ ok r
unfolding portable_path
portable_path_complete path [] h = absurd (h.ne_nil refl)
portable_path_complete path (w ∷ ws) h =
    let e = IsPortable-split path (w ∷ ws) h in
    rw (IsSafe-relative path (subst (All IsSafe) (sym e) h.safe), e)
      (push_components_complete path [] (w ∷ ws) h.safe)

-- `portable_path` gives the components `r` exactly where `r` is not empty, the path is the
-- components joined by slashes, and each component has no slash, backslash, colon or NUL and is
-- neither empty nor `.` nor `..`.
pub portable_path_iff :
    (path : Bytes) (r : PathBuf) → (portable_path path ≡ ok r) ↔ IsPortable path r
portable_path_iff path r = (portable_path_sound path r, portable_path_complete path r)
