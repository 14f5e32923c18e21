-- ===== src/Action.antt =====
-- An operation on a state that can fail: the state comes back after an error too, since what was
-- written stays written. `do` is Rust's `?` between such operations.
use sci_capsule.Prelude.{
  ◌≡◌, refl, ap, ◌⊎◌, inl, inr, Bool, true, false, Result, ok, err, map_err, map_err-eq-ok,
}

abbrev pub Action : Type 0 → Type 0 → Type 0 → Type 0
Action S E A = S → Result E A × S

module _ {S E : Type 0} where
  abbrev pub pure : {A : Type 0} → A → Action S E A
  pure a s = (ok a, s)

  abbrev pub raise : {A : Type 0} → E → Action S E A
  raise e s = (err e, s)

  abbrev pub lift : {A : Type 0} → Result E A → Action S E A
  lift r s = (r, s)

  abbrev pub raise_if : Bool → E → Action S E (Unit {0})
  raise_if true e = raise e
  raise_if false e = pure tt

  -- What follows an operation, from its result and the state that it leaves.
  abbrev follow : {A B : Type 0} → Result E A → (A → Action S E B) → Action S E B
  follow (ok a) f s = f a s
  follow (err e) f s = (err e, s)

  infixl 5 ◌>>=◌ ◌>>◌
  abbrev pub ◌>>=◌ : {A B : Type 0} → Action S E A → (A → Action S E B) → Action S E B
  ◌>>=◌ m f s = follow (m s).0 f (m s).1

  abbrev pub ◌>>◌ : {B : Type 0} → Action S E (Unit {0}) → Action S E B → Action S E B
  m >> k = m >>= λ _. k

-- `map_err` on an operation.
abbrev pub map_error : {S E F A : Type 0} → (E → F) → Action S E A → Action S F A
map_error f m s = (map_err f (m s).0, (m s).1)

module _ {S E : Type 0} where
  -- What an operation that succeeds went through.
  then_cases :
      {A B : Type 0} (r : Result E A) (s' : S) (f : A → Action S E B) {b : B} {t : S}
      → follow r f s' ≡ (ok b, t)
      → (a : A) × (r ≡ ok a) × (f a s' ≡ (ok b, t))
  then_cases (ok a) s' f h = (a, refl, h)
  then_cases (err e) s' f h = cc (ap (λ x. x.0) h)

  pub >>=-succeeds :
      {A B : Type 0} (m : Action S E A) (f : A → Action S E B) (s : S) {b : B} {t : S}
      → (m >>= f) s ≡ (ok b, t)
      → (a : A) × (s' : S) × (m s ≡ (ok a, s')) × (f a s' ≡ (ok b, t))
  >>=-succeeds m f s h =
      let (a, e, h) = then_cases (m s).0 (m s).1 f h in (a, (m s).1, (λ i. (e i, (m s).1)), h)

  -- Where an operation that fails has failed.
  fails_cases :
      {A B : Type 0} (r : Result E A) (s' : S) (f : A → Action S E B) {e : E} {t : S}
      → follow r f s' ≡ (err e, t)
      → ((r ≡ err e) × (s' ≡ t)) ⊎ ((a : A) × (r ≡ ok a) × (f a s' ≡ (err e, t)))
  fails_cases (ok a) s' f h = inr (a, refl, h)
  fails_cases (err e) s' f h = inl (cc (ap (λ x. x.0) h), ap (λ x. x.1) h)

  pub >>=-fails :
      {A B : Type 0} (m : Action S E A) (f : A → Action S E B) (s : S) {e : E} {t : S}
      → (m >>= f) s ≡ (err e, t)
      → (m s ≡ (err e, t)) ⊎ ((a : A) × (s' : S) × (m s ≡ (ok a, s')) × (f a s' ≡ (err e, t)))
  >>=-fails m f s h = elim (fails_cases (m s).0 (m s).1 f h) [
    | inl (e, q) ↦ inl (λ i. (e i, q i))
    | inr (a, e, q) ↦ inr (a, (m s).1, (λ i. (e i, (m s).1)), q)
  ]

  -- A relation between states that every part keeps, whatever its result, the whole keeps.
  then_keeps :
      {A B : Type 0} (R : S → Type 0) (r : Result E A) (s' : S) (f : A → Action S E B)
      → R s'
      → ((a : A) → r ≡ ok a → R (f a s').1)
      → R (follow r f s').1
  then_keeps R (ok a) s' f h k = k a refl
  then_keeps R (err e) s' f h k = h

  pub >>=-keeps :
      {A B : Type 0} (R : S → Type 0) (m : Action S E A) (f : A → Action S E B) (s : S)
      → R (m s).1
      → ((a : A) → (m s).0 ≡ ok a → R (f a (m s).1).1)
      → R ((m >>= f) s).1
  >>=-keeps R m f s h k = then_keeps R (m s).0 (m s).1 f h k

pub map_error-succeeds :
    {S E F A : Type 0} (f : E → F) (m : Action S E A) (s : S) {a : A} {t : S}
    → map_error f m s ≡ (ok a, t)
    → m s ≡ (ok a, t)
map_error-succeeds f m s h i = (map_err-eq-ok f (m s).0 (ap (λ x. x.0) h) i, (h i).1)

map_err-fails :
    {E F A : Type 0} (f : E → F) (r : Result E A) {e : F}
    → map_err f r ≡ err e
    → (e' : E) × (r ≡ err e')
map_err-fails f (ok a) h = cc h
map_err-fails f (err e') h = (e', refl)

pub map_error-fails :
    {S E F A : Type 0} (f : E → F) (m : Action S E A) (s : S) {e : F} {t : S}
    → map_error f m s ≡ (err e, t)
    → (e' : E) × (m s ≡ (err e', t))
map_error-fails f m s h =
    let (e', g) = map_err-fails f (m s).0 (ap (λ x. x.0) h) in (e', λ i. (g i, (h i).1))
