-- ===== src/Prelude/Splitting.antt =====
-- Laws of `strip_prefix`, `split_once` and `split`.
use mathlib.Core.Path.{◌≡◌, refl, sym, subst}
use mathlib.Core.Logic.{◌↔◌, ◌≢◌, inl, inr}
use mathlib.Core.Option.{some}
use mathlib.Core.Bool.{false}
use mathlib.Core.List.{List, [], ◌∷◌, ◌++◌, append_assoc}
use Prim.Native.Nat.{ℕ}
use native.Mathlib.Omega.{arith}
use sci_capsule.Prelude.Tests.{nat_eq, eq-cases}
use sci_capsule.Prelude.Lists.{All, contains}
use sci_capsule.Prelude.Text.{Bytes, strip_prefix, split_once, split}

pub strip_prefix_iff : (p s t : Bytes) → (strip_prefix p s ≡ some t) ↔ (s ≡ p ++ t)
unfolding strip_prefix
strip_prefix_iff [] s t = (λ h. cc, λ h. cc)
strip_prefix_iff (c ∷ p) [] t = (λ h. cc, λ h. cc)
strip_prefix_iff (c ∷ p) (d ∷ s) t = ground (arith, strip_prefix_iff p s t)

-- `sep` does not occur.
abbrev pub Lacks : ℕ → Bytes → Type 0
Lacks sep = All (λ c. c ≢ sep)

pub contains-Lacks : (c : ℕ) (s : Bytes) → (contains s c ≡ false) ↔ Lacks c s
unfolding contains
contains-Lacks c [] = ground arith
contains-Lacks c (d ∷ s) = ground (arith, contains-Lacks c s)

-- The first occurrence of the separator splits.
pub split_once-append :
    (sep : ℕ) (a b : Bytes) → Lacks sep a → split_once sep (a ++ sep ∷ b) ≡ some (a, b)
unfolding split_once
split_once-append sep [] b h = ground arith
split_once-append sep (c ∷ a) b (hc, ha) = ground (arith, split_once-append sep a b ha)

pub split_once_sound :
    (sep : ℕ) (s a b : Bytes) → split_once sep s ≡ some (a, b) → (s ≡ a ++ sep ∷ b) × Lacks sep a
unfolding split_once
split_once_sound sep [] a b h = cc
split_once_sound sep (c ∷ s) [] b h = ground arith
split_once_sound sep (c ∷ s) (d ∷ a) b h = ground (arith, split_once_sound sep s a b)

-- The inverse of `split`: the pieces with the separator between them.
unfoldable pub join : ℕ → List Bytes → Bytes
join sep [] = []
join sep (w ∷ []) = w
join sep (w ∷ v ∷ ws) = w ++ sep ∷ join sep (v ∷ ws)

pub join-cons :
    (sep c : ℕ) (w : Bytes) (ws : List Bytes) → join sep ((c ∷ w) ∷ ws) ≡ c ∷ join sep (w ∷ ws)
unfolding join
join-cons sep c w [] = refl
join-cons sep c w (v ∷ ws) = refl

pub join-nil :
    (sep : ℕ) (w : Bytes) (ws : List Bytes) → join sep ([] ∷ w ∷ ws) ≡ sep ∷ join sep (w ∷ ws)
unfolding join
join-nil sep w ws = refl

pub join-one : (sep : ℕ) (w : Bytes) → join sep (w ∷ []) ≡ w
unfolding join
join-one sep w = refl

pub split-nil : (sep : ℕ) → split sep [] ≡ [] ∷ []
unfolding split
split-nil sep = refl

pub split-same : (sep : ℕ) (s : Bytes) → split sep (sep ∷ s) ≡ [] ∷ split sep s
unfolding split
split-same sep s = ground arith

pub split-other :
    (sep c : ℕ) (s w : Bytes) (ws : List Bytes)
    → c ≢ sep
    → split sep s ≡ w ∷ ws
    → split sep (c ∷ s) ≡ (c ∷ w) ∷ ws
unfolding split
split-other sep c s w ws h e = ground (arith, e)

-- `split` yields at least one piece.
pub split-cons : (sep : ℕ) (s : Bytes) → (w : Bytes) × (ws : List Bytes) × (split sep s ≡ w ∷ ws)
split-cons sep [] = ([], [], split-nil sep)
split-cons sep (c ∷ s) =
    let (w, ws, e) = split-cons sep s in
    elim (eq-cases c sep) [
      | inl p ↦ ([], split sep s, rw p (split-same sep s))
      | inr h ↦ (c ∷ w, ws, split-other sep c s w ws h e)
    ]

pub join-split : (sep : ℕ) (s : Bytes) → join sep (split sep s) ≡ s
join-split sep [] = rw (split-nil sep) (join-one sep [])
join-split sep (c ∷ s) =
    let (w, ws, e) = split-cons sep s in
    let ih = subst (λ x. join sep x ≡ s) e (join-split sep s) in
    elim (eq-cases c sep) [
      | inl p ↦ rw (p, split-same sep s, e, join-nil sep w ws, ih) refl
      | inr h ↦ rw (split-other sep c s w ws h e, join-cons sep c w ws, ih) refl
    ]

pub split-Lacks : (sep : ℕ) (s : Bytes) → All (Lacks sep) (split sep s)
split-Lacks sep [] = rw (split-nil sep) (tt, tt)
split-Lacks sep (c ∷ s) =
    let (w, ws, e) = split-cons sep s in
    let ih = subst (All (Lacks sep)) e (split-Lacks sep s) in
    elim (eq-cases c sep) [
      | inl p ↦ rw p (subst (All (Lacks sep)) (sym (split-same sep s)) (tt, split-Lacks sep s))
      | inr h ↦ subst (All (Lacks sep)) (sym (split-other sep c s w ws h e)) ((h, ih.0), ih.1)
    ]

-- Pieces without the separator are found again.
pub split-join :
    (sep : ℕ) (w : Bytes) (ws : List Bytes)
    → All (Lacks sep) (w ∷ ws)
    → split sep (join sep (w ∷ ws)) ≡ w ∷ ws
split-join sep (c ∷ w) ws ((hc, hw), hws) =
    rw (join-cons sep c w ws)
      (split-other sep c (join sep (w ∷ ws)) w ws hc (split-join sep w ws (hw, hws)))
split-join sep [] [] _ = rw (join-one sep []) (split-nil sep)
split-join sep [] (v ∷ ws) (_, hws) =
    rw (join-nil sep v ws, split-same sep (join sep (v ∷ ws)), split-join sep v ws hws) refl

-- Two pieces joined beforehand.
pub join-append :
    (sep : ℕ) (a b : Bytes) (ws : List Bytes)
    → join sep ((a ++ sep ∷ b) ∷ ws) ≡ join sep (a ∷ b ∷ ws)
unfolding join
join-append sep a b [] = refl
join-append sep a b (w ∷ ws) = append_assoc a (sep ∷ b) (sep ∷ join sep (w ∷ ws))
