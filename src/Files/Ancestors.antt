-- ===== src/Files/Ancestors.antt =====
-- The places above and below a place in the tree of directories.
use sci_capsule.Prelude.{
  ◌≡◌, refl, sym, ap, subst, ◌∙◌, ◌≢◌, ◌⊎◌, inl, inr, Bool, true, false, ◌||◌, Option, none, some,
  [], ◌∷◌, ◌++◌, arith, ◌==◌, nat_eq, list_eq, eq_iff, eq_refl, length, Bytes, length-append,
  append_cancel, Bool-cases,
}
use sci_capsule.Files.{Location, below}

-- Whether `p` is a proper ancestor of `q`.
unfoldable pub is_ancestor : Location → Location → Bool
is_ancestor p [] = false
is_ancestor p (name ∷ q) = p == q || is_ancestor p q

pub ==-cases : (p q : Location) → (((p == q) ≡ true) × (p ≡ q)) ⊎ (((p == q) ≡ false) × (p ≢ q))
==-cases p q = elim (Bool-cases (p == q)) [
  | inl e ↦ inl (e, (eq_iff p q).0 e)
  | inr e ↦ inr (e, λ h. cc (e, (eq_iff p q).1 h))
]

append_longer : (r s : Location) {name : Bytes} → name ∷ r ++ s ≢ s
append_longer r s {name} e = omega (arith, length-append (name ∷ r) s, ap length e)

below-here : (s : Location) → below s s ≡ some []
unfolding below
below-here [] = rw (eq_refl {A = Location} []) refl
below-here (name ∷ s) = rw (eq_refl (name ∷ s)) refl

below-cons :
    (s : Location) (name : Bytes) (p : Location)
    → name ∷ p ≢ s
    → below s (name ∷ p) ≡ elim (below s p) [ none ↦ none | some r ↦ some (name ∷ r) ]
unfolding below
below-cons s name p h = elim (==-cases (name ∷ p) s) [
  | inl (e, g) ↦ absurd (h g)
  | inr (e, g) ↦ rw e refl
]

below-root : (s : Location) → [] ≢ s → below s [] ≡ none
unfolding below
below-root s h = elim (==-cases [] s) [ inl (e, g) ↦ absurd (h g) | inr (e, g) ↦ rw e refl ]

pub below-append : (r s : Location) → below s (r ++ s) ≡ some r
below-append [] s = below-here s
below-append (name ∷ r) s =
    rw (below-cons s name (r ++ s) (append_longer r s), below-append r s) refl

below_one :
    (s : Location) (name : Bytes) (p r : Location) (o : Option Location)
    → ((r : Location) → o ≡ some r → p ≡ r ++ s)
    → elim o [ none ↦ none | some r ↦ some (name ∷ r) ] ≡ some r
    → name ∷ p ≡ r ++ s
below_one s name p r none f h = cc h
below_one s name p r (some q) f h =
    let e : name ∷ q ≡ r = cc h in subst (λ t. name ∷ p ≡ t ++ s) e (ap (λ t. name ∷ t) (f q refl))

-- What is below a place is reached from it.
pub below-eq-some : (s p r : Location) → below s p ≡ some r → p ≡ r ++ s
below-eq-some s [] r h = elim (==-cases [] s) [
  | inl (e, g) ↦
      let e : some [] ≡ some r = sym (below-here s) ∙ ap (below s) (sym g) ∙ h in
      let e' : [] ≡ r = cc e in subst (λ t. [] ≡ t ++ s) e' g
  | inr (e, g) ↦ let e : none ≡ some r = sym (below-root s g) ∙ h in cc e
]
below-eq-some s (name ∷ p) r h = elim (==-cases (name ∷ p) s) [
  | inl (e, g) ↦
      let e : some [] ≡ some r = sym (below-here s) ∙ ap (below s) (sym g) ∙ h in
      let e' : [] ≡ r = cc e in subst (λ t. name ∷ p ≡ t ++ s) e' g
  | inr (e, g) ↦
      below_one s name p r (below s p) (below-eq-some s p) (sym (below-cons s name p g) ∙ h)
]

-- An ancestor is shorter, and reached by taking names away.
pub ancestor-splits :
    (p q : Location)
    → is_ancestor p q ≡ true
    → (name : Bytes) × (r : Location) × (q ≡ name ∷ r ++ p)
unfolding is_ancestor
ancestor-splits p [] h = cc h
ancestor-splits p (name ∷ q) h = elim (==-cases p q) [
  | inl (e, g) ↦ (name, [], ap (λ t. name ∷ t) (sym g))
  | inr (e, g) ↦
      let h : is_ancestor p q ≡ true = ground (arith, e, h) in
      let (n, r, e) = ancestor-splits p q h in (name, n ∷ r, ap (λ t. name ∷ t) e)
]

pub ancestor-of-append : (name : Bytes) (r p : Location) → is_ancestor p (name ∷ r ++ p) ≡ true
unfolding is_ancestor
ancestor-of-append name [] p = rw (eq_refl p) refl
ancestor-of-append name (n ∷ r) p = ground (arith, ancestor-of-append n r p)

pub same-append : (r q s : Location) → (r ++ s == q ++ s) ≡ (r == q)
same-append r q s = elim (==-cases r q) [
  | inl (e, g) ↦ (eq_iff (r ++ s) (q ++ s)).1 (ap (λ t. t ++ s) g) ∙ sym e
  | inr (e, g) ↦ elim (==-cases (r ++ s) (q ++ s)) [
    | inl (e', g') ↦
        let h : length r ≡ length q =
          omega (arith, ap length g', length-append r s, length-append q s) in
        absurd (g (append_cancel r q s s h g').0)
    | inr (e', g') ↦ e' ∙ sym e
  ]
]

pub is_ancestor-append : (r q s : Location) → is_ancestor (r ++ s) (q ++ s) ≡ is_ancestor r q
unfolding is_ancestor
is_ancestor-append r [] s = elim (Bool-cases (is_ancestor (r ++ s) s)) [
  | inl e ↦
      let (name, t, h) = ancestor-splits (r ++ s) s e in
      absurd
        (omega (arith, ap length h, length-append (name ∷ t) (r ++ s), length-append r s, length t))
  | inr e ↦ e
]
is_ancestor-append r (name ∷ q) s = rw (same-append r q s, is_ancestor-append r q s) refl

-- A place at or above a place below `s` is below `s` or above it.
pub above-or-below :
    (s p : Location) (xs : Location)
    → is_ancestor p (xs ++ s) ≡ true
    → ((r : Location) × (below s p ≡ some r)) ⊎ (is_ancestor p s ≡ true)
unfolding is_ancestor
above-or-below s p [] h = inr h
above-or-below s p (x ∷ xs) h = elim (==-cases p (xs ++ s)) [
  | inl (e, g) ↦ inl (xs, ap (below s) g ∙ below-append xs s)
  | inr (e, g) ↦ above-or-below s p xs (ground (arith, e, h))
]
