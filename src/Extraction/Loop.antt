-- ===== src/Extraction/Loop.antt =====
-- src/extraction.rs: what the loop of `extract_capsule` over the payloads leaves.
use sci_capsule.Prelude.{
  ◌≡◌, refl, sym, ap, subst, ◌∙◌, ◌≢◌, ◌⊎◌, inl, inr, true, Option, none, some, List, [], ◌∷◌, ◌++◌,
  Bytes, nat_eq, list_eq, ok, All, Bool-cases, list_beq,
}
use mathlib.Core.Path.{fun_ext}
use sci_capsule.Action.{>>=-succeeds, >>=-keeps}
use sci_capsule.Files.{Location, Entries, Disk, Node, directory, still, below}
use sci_capsule.Files.Ancestors.{
  is_ancestor, ==-cases, same-append, is_ancestor-append, below-append, below-eq-some,
  above-or-below,
}
use sci_capsule.Files.Directories.{IsTree, IsTree-ancestors}
use sci_capsule.Extraction.{Payload}
use sci_capsule.Extraction.Materialize.{
  join_path, write_payload, materialize_payload, materialize_payloads,
}
use sci_capsule.Extraction.Placing.{
  place, write_payload-succeeds, write_payload-keeps, write_payload_fits,
}
use sci_capsule.Extraction.Trees.{File, files, spread, Apart, IsApart}
use sci_capsule.Extraction.Places.{Lies, join_path-append, files-cons}

-- What is below a place.
abbrev pub subtree : Location → Entries → Entries
subtree staging f r = f (r ++ staging)

-- The body of the loop on a payload whose path is portable.
body_eq :
    (staging : Location) (p : Payload) (d : Disk) (h : Lies p)
    → materialize_payload staging p d
      ≡ write_payload (h.name ∷ h.up ++ staging) (h.up ++ staging) p.bytes d
unfolding materialize_payload
body_eq staging p d h =
    let e : join_path staging h.relative ≡ h.name ∷ h.up ++ staging =
      join_path-append [] staging h.relative ∙ ap (λ t. t ++ staging) h.place_eq in
    rw (h.portable, e) refl

subtree-place :
    (q staging : Location) (bytes : Bytes) (f : Entries) (r : Location)
    → place (q ++ staging) bytes f (r ++ staging) ≡ place q bytes (subtree staging f) r
subtree-place q staging bytes f r =
    rw (same-append r q staging, is_ancestor-append r q staging) refl

-- What one payload does to the tree in the staging directory.
one_payload :
    (staging : Location) (p : Payload) (h : Lies p) (d d' : Disk)
    → IsTree d.entries
    → write_payload (h.name ∷ h.up ++ staging) (h.up ++ staging) p.bytes d ≡ (ok tt, d')
    → (subtree staging d'.entries
        ≡ place (join_path [] h.relative) p.bytes (subtree staging d.entries))
      × IsTree d'.entries
one_payload staging p h d d' t e =
    let (made, t') = write_payload-succeeds h.name (h.up ++ staging) p.bytes d d' t e in
    (
      (fun_ext λ r.
          made (r ++ staging)
          ∙ subtree-place (h.name ∷ h.up) staging p.bytes d.entries r
          ∙ ap (λ q. place q p.bytes (subtree staging d.entries) r) (sym h.place_eq)),
      t',
    )

pub loop-succeeds :
    (staging : Location) (ps : List Payload) (d d' : Disk)
    → All Lies ps
    → IsTree d.entries
    → materialize_payloads staging ps d ≡ (ok tt, d')
    → subtree staging d'.entries ≡ spread (files ps) (subtree staging d.entries)
unfolding materialize_payloads
loop-succeeds staging [] d d' _ t h = ap (λ x. subtree staging x.1.entries) (sym h)
loop-succeeds staging (p ∷ ps) d d' (hp, hs) t h =
    let (_, d1, h1, h) = >>=-succeeds (materialize_payload staging p) _ d h in
    let (one, t1) = one_payload staging p hp d d1 t (sym (body_eq staging p d hp) ∙ h1) in
    loop-succeeds staging ps d1 d' hs t1 h
    ∙ ap (spread (files ps)) one
    ∙ ap (λ fs. spread fs (subtree staging d.entries))
        (sym (files-cons p ps hp.relative hp.portable))

-- Whatever it returns, the loop keeps what is outside the staging directory.
pub loop-keeps :
    (staging : Location) (ps : List Payload) (d : Disk) (p : Location) (v : Option Node)
    → All Lies ps
    → below staging p ≡ none
    → (is_ancestor p staging ≡ true → v ≢ none)
    → d.entries p ≡ v
    → (materialize_payloads staging ps d).1.entries p ≡ v
unfolding materialize_payloads
loop-keeps staging [] d p v _ b g h = h
loop-keeps staging (x ∷ ps) d p v (hx, hs) b g h =
    let l : Location = hx.name ∷ hx.up ++ staging in
    let other : p ≢ l = λ e. cc (b, ap (below staging) e, below-append (hx.name ∷ hx.up) staging) in
    let above : is_ancestor p l ≡ true → v ≢ none = λ a.
      elim (above-or-below staging p (hx.name ∷ hx.up) a) [
        | inl (r, e) ↦ cc (b, e)
        | inr e ↦ g e
      ] in
    let kept : (materialize_payload staging x d).1.entries p ≡ v =
      ap (λ x. x.1.entries p) (body_eq staging x d hx)
      ∙ write_payload-keeps hx.name (hx.up ++ staging) x.bytes d p v other above h in
    >>=-keeps (λ s. s.entries p ≡ v) (materialize_payload staging x) _ d kept
      λ _ _. loop-keeps staging ps (materialize_payload staging x d).1 p v hs b g kept

-- No file is at a place to be, or above it, and nothing is at the place itself.
abbrev pub Free : Entries → File → Type 0
Free f (q, bytes) =
    (f q ≡ none) × ((l : Location) → is_ancestor l q ≡ true → (f l ≡ none) ⊎ (f l ≡ some directory))

Free-place :
    (q : Location) (bytes : Bytes) (f : Entries) (x : File)
    → IsApart q x.0
    → Free f x
    → Free (place q bytes f) x
Free-place q bytes f (p, b) apart (absent, above) = (
  elim (==-cases p q) [
    | inl (e, g) ↦ absurd (apart.distinct (sym g))
    | inr (e, g) ↦ rw (e, apart.not_below) absent
  ],
  λ l a. elim (==-cases l q) [
    | inl (e, g) ↦ cc (a, ap (λ t. is_ancestor t p) g, apart.not_above)
    | inr (e, g) ↦ elim (Bool-cases (is_ancestor l q)) [
      | inl x ↦ inr (rw (e, x) refl)
      | inr x ↦ subst (λ o. (o ≡ none) ⊎ (o ≡ some directory)) (sym (rw (e, x) refl)) (above l a)
    ]
  ],
)

Free-places :
    (q : Location) (bytes : Bytes) (f : Entries) (fs : List File)
    → All (λ (x : File). IsApart q x.0) fs
    → All (Free f) fs
    → All (Free (place q bytes f)) fs
Free-places q bytes f [] _ _ = tt
Free-places q bytes f (x ∷ fs) (a, others) (h, hs) =
    (Free-place q bytes f x a h, Free-places q bytes f fs others hs)

-- What is above a free place in the staging directory is a directory or nothing.
above-Free :
    (staging q : Location) (bytes : Bytes) (f : Entries)
    → IsTree f
    → f staging ≡ some directory
    → Free (subtree staging f) (q, bytes)
    → (p : Location) → is_ancestor p (q ++ staging) ≡ true
    → (f p ≡ none) ⊎ (f p ≡ some directory)
above-Free staging q bytes f t s (_, h) p a = elim (above-or-below staging p q a) [
  | inl (r, e) ↦
      let at : p ≡ r ++ staging = below-eq-some staging p r e in
      let above : is_ancestor r q ≡ true =
        sym (is_ancestor-append r q staging)
        ∙ ap (λ x. is_ancestor x (q ++ staging)) (sym at)
        ∙ a in
      subst (λ x. (f x ≡ none) ⊎ (f x ≡ some directory)) (sym at) (h r above)
  | inr e ↦ inr (IsTree-ancestors f t p staging (λ n. cc (n, s)) e)
]

root_above : (n : Bytes) (up : Location) → is_ancestor [] (n ∷ up) ≡ true
unfolding is_ancestor list_beq
root_above n [] = refl
root_above n (m ∷ up) = root_above m up

pub place_root :
    (n : Bytes) (up : Location) (bytes : Bytes) (f : Entries)
    → place (n ∷ up) bytes f [] ≡ some directory
unfolding list_beq
place_root n up bytes f = rw (root_above n up) refl

-- Where nothing is in store, the loop succeeds on files that are apart, into free places.
pub loop_fits :
    (staging : Location) (ps : List Payload) (f : Entries)
    → All Lies ps
    → IsTree f
    → f staging ≡ some directory
    → Apart (files ps)
    → All (Free (subtree staging f)) (files ps)
    → (f' : Entries) × (materialize_payloads staging ps (still f) ≡ (ok tt, still f'))
unfolding materialize_payloads
loop_fits staging [] f _ t s a h = (f, refl)
loop_fits staging (p ∷ ps) f (hp, hs) t s a h =
    let fs = files-cons p ps hp.relative hp.portable in
    let (a, others) = subst Apart fs a in
    let (h, hfs) = subst (All (Free (subtree staging f))) fs h in
    let q : Location = hp.name ∷ hp.up in
    let free : Free (subtree staging f) (q, p.bytes) =
      subst (λ x. Free (subtree staging f) (x, p.bytes)) hp.place_eq h in
    let (f1, e1) =
      write_payload_fits hp.name (hp.up ++ staging) p.bytes f t free.0
        (above-Free staging q p.bytes f t s free) in
    let (one, t1) = one_payload staging p hp (still f) (still f1) t e1 in
    let s1 : f1 staging ≡ some directory =
      ap (λ g. g []) one
      ∙ ap (λ x. place x p.bytes (subtree staging f) []) hp.place_eq
      ∙ place_root hp.name hp.up p.bytes (subtree staging f) in
    let (f2, e2) = loop_fits staging ps f1 hs t1 s1 others (
      subst (λ g. All (Free g) (files ps)) (sym one)
        (Free-places (join_path [] hp.relative) p.bytes (subtree staging f) (files ps) a hfs)) in
    let e : materialize_payload staging p (still f) ≡ (ok tt, still f1) =
      body_eq staging p (still f) hp ∙ e1 in
    (f2, rw e e2)
