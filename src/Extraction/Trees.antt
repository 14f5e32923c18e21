-- ===== src/Extraction/Trees.antt =====
-- src/extraction.rs: the tree of files that the payloads of a capsule make up.
use mathlib.Core.Path.{fun_ext}
use sci_capsule.Prelude.{
  ◌≡◌, refl, sym, ap, ◌∙◌, ◌≢◌, inl, inr, false, none, some, List, [], ◌∷◌, Bytes, ◌==◌, nat_eq,
  list_eq, if◌then◌else◌, ok, err, All, Bool-cases,
}
use sci_capsule.Files.{Location, Entries, directory}
use sci_capsule.Files.Ancestors.{is_ancestor, ==-cases}
use sci_capsule.Extraction.{Payload, portable_path}
use sci_capsule.Extraction.Materialize.{join_path}
use sci_capsule.Extraction.Placing.{place}

-- A file by its place below the top of the tree, with what it holds.
abbrev pub File : Type 0
File = Location × Bytes

abbrev pub files : List Payload → List File
files [] = []
files (payload ∷ payloads) = elim (portable_path payload.path) [
  | ok relative ↦ (join_path [] relative, payload.bytes) ∷ files payloads
  | err e ↦ files payloads
]

-- The files over a tree, where the first of two at one place is the one that counts.
abbrev pub overlay : List File → Entries → Entries
overlay [] f = f
overlay ((q, bytes) ∷ fs) f = place q bytes (overlay fs f)

-- A directory with the payloads in it, and no more directories than they need.
abbrev pub tree : List Payload → Entries
tree payloads = overlay (files payloads) (λ l. if l == [] then some directory else none)

-- The files put there one after the other.
abbrev pub spread : List File → Entries → Entries
spread [] f = f
spread ((q, bytes) ∷ fs) f = spread fs (place q bytes f)

pub record IsApart (p q : Location) : Type 0 where
  pub distinct : p ≢ q
  pub not_above : is_ancestor p q ≡ false
  pub not_below : is_ancestor q p ≡ false

abbrev pub Apart : List File → Type 0
Apart [] = Unit {0}
Apart ((q, bytes) ∷ fs) = All (λ (f : File). IsApart q f.0) fs × Apart fs

place_swap :
    (p q : Location) (a b : Bytes) (f : Entries)
    → IsApart p q
    → (l : Location) → place p a (place q b f) l ≡ place q b (place p a f) l
place_swap p q a b f h l = elim (==-cases l p) [
  | inl (e, g) ↦ elim (==-cases l q) [
    | inl (e', g') ↦ absurd (h.distinct (sym g ∙ g'))
    | inr (e', g') ↦ rw (e, e', ap (λ t. is_ancestor t q) g ∙ h.not_above) refl
  ]
  | inr (e, g) ↦ elim (==-cases l q) [
    | inl (e', g') ↦ rw (e, e', ap (λ t. is_ancestor t p) g' ∙ h.not_below) refl
    | inr (e', g') ↦ elim (Bool-cases (is_ancestor l p)) [
      | inl x ↦ elim (Bool-cases (is_ancestor l q)) [
        | inl y ↦ rw (e, e', x, y) refl
        | inr y ↦ rw (e, e', x, y) refl
      ]
      | inr x ↦ rw (e, e', x) refl
    ]
  ]
]

place-spread :
    (q : Location) (a : Bytes) (fs : List File) (f : Entries)
    → All (λ (g : File). IsApart q g.0) fs
    → spread fs (place q a f) ≡ place q a (spread fs f)
place-spread q a [] f h = refl
place-spread q a ((p, b) ∷ fs) f (h, hs) =
    ap (spread fs) (fun_ext λ l. sym (place_swap q p a b f h l))
    ∙ place-spread q a fs (place p b f) hs

-- Where the files are apart, their order does not matter.
pub spread-overlay : (fs : List File) (f : Entries) → Apart fs → spread fs f ≡ overlay fs f
spread-overlay [] f h = refl
spread-overlay ((q, b) ∷ fs) f (h, hs) =
    place-spread q b fs f h ∙ ap (place q b) (spread-overlay fs f hs)
