-- ===== src/Prelude/Lists.antt =====
-- Lists measured by native numbers, membership, and predicates on lists.
use Prim.Native.Nat.{ℕ, zero, suc, ◌+◌, ◌≤◌}
use mathlib.Core.Path.{◌≡◌, refl}
use mathlib.Core.Bool.{Bool, true, false, ◌||◌, ◌&&◌}
use mathlib.Core.Logic.{◌↔◌, ◌⊎◌, inl, inr}
use mathlib.Core.Option.{Option, none, some}
use mathlib.Core.List.{List, [], ◌∷◌, ◌++◌}
use native.Mathlib.Omega.{arith}
use sci_capsule.Prelude.Tests.{Eq, ◌==◌, if◌then◌else◌, Bool-cases}

module _ {ℓ} {A : Type ℓ} where
  abbrev pub length : List A → ℕ
  length [] = 0
  length (x ∷ xs) = suc (length xs)

  abbrev pub get_elem? : List A → ℕ → Option A
  get_elem? [] i = none
  get_elem? (x ∷ xs) zero = some x
  get_elem? (x ∷ xs) (suc i) = get_elem? xs i

  abbrev pub is_empty : List A → Bool
  is_empty [] = true
  is_empty (x ∷ xs) = false

  -- `Iterator::any`, `Iterator::all`
  unfoldable pub any : (A → Bool) → List A → Bool
  any p [] = false
  any p (x ∷ xs) = p x || any p xs

  unfoldable pub all : (A → Bool) → List A → Bool
  all p [] = true
  all p (x ∷ xs) = p x && all p xs

  -- `Iterator::filter(..).count()`
  unfoldable pub count_if : (A → Bool) → List A → ℕ
  count_if p [] = 0
  count_if p (x ∷ xs) = if p x then suc (count_if p xs) else count_if p xs

  -- `Iterator::find`
  unfoldable pub find : (A → Bool) → List A → Option A
  find p [] = none
  find p (x ∷ xs) = if p x then some x else find p xs

  pub length-append : (xs ys : List A) → length (xs ++ ys) ≡ length xs + length ys
  length-append [] ys = omega arith
  length-append (x ∷ xs) ys = omega (arith, length-append xs ys)

  pub any-append : (p : A → Bool) (xs ys : List A) → any p (xs ++ ys) ≡ (any p xs || any p ys)
  unfolding any
  any-append p [] ys = refl
  any-append p (x ∷ xs) ys = ground (arith, any-append p xs ys)

  pub count_if-le-length : (p : A → Bool) (xs : List A) → count_if p xs ≤ length xs
  unfolding count_if
  count_if-le-length p [] = omega arith
  count_if-le-length p (x ∷ xs) = ground (arith, count_if-le-length p xs)

module _ {ℓ κ} {A : Type ℓ} where
  abbrev pub All : (A → Type κ) → List A → Type κ
  All P [] = Unit
  All P (x ∷ xs) = P x × All P xs

  pub All-append : (P : A → Type κ) (xs ys : List A) → All P xs → All P ys → All P (xs ++ ys)
  All-append P [] ys _ hy = hy
  All-append P (x ∷ xs) ys (px, hx) hy = (px, All-append P xs ys hx hy)

pub all_iff {ℓ} :
    {A : Type ℓ} (p : A → Bool) (xs : List A) → (all p xs ≡ true) ↔ All (λ x. p x ≡ true) xs
unfolding all
all_iff p [] = (λ _. tt, λ _. refl)
all_iff p (x ∷ xs) = ground (arith, all_iff p xs)

-- A set of the elements met so far. Rust's `BTreeSet` is used for membership only, unless a
-- comment says otherwise.
module _ {ℓ} {A : Type ℓ} ⦃e : Eq A⦄ where
  unfoldable pub contains : List A → A → Bool
  contains [] a = false
  contains (x ∷ xs) a = x == a || contains xs a

  -- No element occurs twice.
  abbrev pub Distinct : List A → Type 0
  Distinct [] = Unit
  Distinct (x ∷ xs) = (contains xs x ≡ false) × Distinct xs

  pub contains-append :
      (xs ys : List A) (a : A) → contains (xs ++ ys) a ≡ (contains xs a || contains ys a)
  unfolding contains
  contains-append [] ys a = refl
  contains-append (x ∷ xs) ys a = ground (arith, contains-append xs ys a)

  -- No element of the second list is in the first.
  abbrev pub Fresh : List A → List A → Type 0
  Fresh seen = All (λ x. contains seen x ≡ false)

  pub Fresh-cons_iff :
      (x : A) (seen xs : List A) → Fresh (x ∷ seen) xs ↔ (Fresh seen xs × (contains xs x ≡ false))
  unfolding contains
  Fresh-cons_iff x seen [] = ground arith
  Fresh-cons_iff x seen (y ∷ xs) =
      ground (arith, Fresh-cons_iff x seen xs, e.test_iff x y, e.test_iff y x)

  pub Fresh-nil : (xs : List A) → Fresh [] xs
  unfolding contains
  Fresh-nil [] = tt
  Fresh-nil (x ∷ xs) = (refl, Fresh-nil xs)

module _ {ℓ} {A : Type ℓ} where
  abbrev pub Any : (A → Type 0) → List A → Type 0
  Any P [] = ⊥
  Any P (x ∷ xs) = P x ⊎ Any P xs

module _ {ℓ} {A : Type ℓ} {P : A → Type 0} (p : A → Bool) where
  pub any_sound : ((x : A) → p x ≡ true → P x) → (xs : List A) → any p xs ≡ true → Any P xs
  unfolding any
  any_sound reads [] h = cc
  any_sound reads (x ∷ xs) h = elim (Bool-cases (p x)) [
    | inl e ↦ inl (reads x e)
    | inr e ↦ inr (any_sound reads xs (ground arith))
  ]

  pub any_complete : ((x : A) → P x → p x ≡ true) → (xs : List A) → Any P xs → any p xs ≡ true
  unfolding any
  any_complete reads [] h = elim h [ ]
  any_complete reads (x ∷ xs) (inl h) = ground (arith, reads x h)
  any_complete reads (x ∷ xs) (inr h) = ground (arith, any_complete reads xs h)

module _ {ℓ} {A : Type ℓ} {P : A → Type 0} where
  pub Any-map : {Q : A → Type 0} → ((x : A) → P x → Q x) → (xs : List A) → Any P xs → Any Q xs
  Any-map f [] h = elim h [ ]
  Any-map f (x ∷ xs) (inl h) = inl (f x h)
  Any-map f (x ∷ xs) (inr h) = inr (Any-map f xs h)

  pub All-map : {Q : A → Type 0} → ((x : A) → P x → Q x) → (xs : List A) → All P xs → All Q xs
  All-map f [] _ = tt
  All-map f (x ∷ xs) (h, hs) = (f x h, All-map f xs hs)

module _ {ℓ} {A : Type ℓ} where
  pub head_eq : {x y : A} {xs ys : List A} → x ∷ xs ≡ y ∷ ys → x ≡ y
  head_eq h = cc

  pub tail_eq : {x y : A} {xs ys : List A} → x ∷ xs ≡ y ∷ ys → xs ≡ ys
  tail_eq h = cc

  cons_eq : {x y : A} {xs ys : List A} → x ≡ y → xs ≡ ys → x ∷ xs ≡ y ∷ ys
  cons_eq h h' = cc

  -- Lists with first parts of the same length are equal part by part.
  pub append_cancel :
      (xs ys us vs : List A) → length xs ≡ length ys → xs ++ us ≡ ys ++ vs → (xs ≡ ys) × (us ≡ vs)
  append_cancel [] [] us vs _ h = (refl, h)
  append_cancel [] (y ∷ ys) us vs e h = absurd (omega (arith, e))
  append_cancel (x ∷ xs) [] us vs e h = absurd (omega (arith, e))
  append_cancel (x ∷ xs) (y ∷ ys) us vs e h =
      let (e', h') = append_cancel xs ys us vs (omega (arith, e)) (tail_eq h) in
      (cons_eq (head_eq h) e', h')
