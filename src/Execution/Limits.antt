-- ===== src/Execution/Limits.antt =====
-- src/execution_cli.rs: what `validate_environment` and `validate_argument_limits` accept.
use sci_capsule.Prelude.{
  ℕ, ◌+◌, ◌≤◌, ◌≡◌, refl, sym, ap, subst, ◌∙◌, ◌↔◌, some, List, [], ◌∷◌, ◌++◌, Bytes, arith, nat_eq,
  list_eq, ltb, ltb→le, le→ltb, contains, contains-append, Distinct, Fresh, Fresh-cons_iff,
  Fresh-nil, length, length-append, ok, u64_max, checked_add, checked_add-eq-some, checked_add_fits,
  require-eq-ok, reject-eq-ok, ok-injective, >>=-eq-ok, reject_if-eq-ok, Option-cases, inl, inr,
}
use sci_capsule.Execution.{
  max_environment_entries, max_environment_bytes, max_arguments, max_argument_bytes,
  environment_total, validate_environment, argument_total, validate_argument_limits,
  duplicate_variable, environment_overflow, too_many_entries, environment_too_large,
  argument_overflow, arguments_too_large, too_many_arguments,
}

abbrev pub names_of : List (Bytes × Bytes) → List Bytes
names_of [] = []
names_of ((name, value) ∷ environment) = name ∷ names_of environment

abbrev pub environment_bytes : List (Bytes × Bytes) → ℕ
environment_bytes [] = 0
environment_bytes ((name, value) ∷ environment) =
    length name + length value + environment_bytes environment

abbrev pub argument_bytes : List Bytes → ℕ
argument_bytes [] = 0
argument_bytes (argument ∷ arguments) = length argument + argument_bytes arguments

-- The variables are few, small and set once.
pub record EnvironmentFits (environment : List (Bytes × Bytes)) : Type 0 where
  pub few : length environment ≤ max_environment_entries
  pub small : environment_bytes environment ≤ max_environment_bytes
  pub once : Distinct (names_of environment)

pub record ArgumentsFit (arguments : List Bytes) : Type 0 where
  pub few : length arguments ≤ max_arguments
  pub small : argument_bytes arguments ≤ max_argument_bytes

environment_total_sound :
    (names : List Bytes) (total : ℕ) (environment : List (Bytes × Bytes)) (t : ℕ)
    → environment_total names total environment ≡ ok t
    → (t ≡ total + environment_bytes environment)
      × Distinct (names_of environment)
      × Fresh names (names_of environment)
unfolding environment_total
environment_total_sound names total [] t h = (sym (ok-injective h) ∙ omega arith, tt, tt)
environment_total_sound names total ((name, value) ∷ environment) t h =
    let (hc, h) = reject-eq-ok (contains names name) (duplicate_variable name) _ h in
    let (named, h1, h) = require-eq-ok (checked_add total (length name)) environment_overflow _ h in
    let (next, h2, h) = require-eq-ok (checked_add named (length value)) environment_overflow _ h in
    let (e1, _) = checked_add-eq-some total (length name) named h1 in
    let (e2, _) = checked_add-eq-some named (length value) next h2 in
    let (e, distinct, fresh) = environment_total_sound (name ∷ names) next environment t h in
    let (fresh, absent) = (Fresh-cons_iff name names (names_of environment)).0 fresh in
    (omega (arith, e, e1, e2), (absent, distinct), (hc, fresh))

environment_total_complete :
    (names : List Bytes) (total : ℕ) (environment : List (Bytes × Bytes))
    → total + environment_bytes environment ≤ u64_max
    → Distinct (names_of environment)
    → Fresh names (names_of environment)
    → environment_total names total environment ≡ ok (total + environment_bytes environment)
unfolding environment_total
environment_total_complete names total [] b _ _ = ap ok (omega arith)
environment_total_complete names total ((name, value) ∷ environment) b (absent, distinct)
      (hc, fresh) =
    rw
      (
        hc,
        checked_add_fits total (length name) (omega (arith, b)),
        checked_add_fits (total + length name) (length value) (omega (arith, b)),
      )
      (environment_total_complete (name ∷ names) (total + length name + length value) environment
          (omega (arith, b)) distinct
          ((Fresh-cons_iff name names (names_of environment)).1 (fresh, absent))
        ∙ ap ok (omega arith))

validate_environment_sound :
    (environment : List (Bytes × Bytes))
    → validate_environment environment ≡ ok tt
    → EnvironmentFits environment
unfolding validate_environment
validate_environment_sound environment h =
    let (hn, h) =
      reject-eq-ok (ltb max_environment_entries (length environment)) too_many_entries _ h in
    let (t, ht, h) = >>=-eq-ok (environment_total [] 0 environment) _ h in
    let (e, distinct, _) = environment_total_sound [] 0 environment t ht in
    let hb = ltb→le max_environment_bytes t (reject_if-eq-ok _ (environment_too_large t) h) in
    record { few = ltb→le _ _ hn; small = omega (arith, e, hb); once = distinct }

validate_environment_complete :
    (environment : List (Bytes × Bytes))
    → EnvironmentFits environment
    → validate_environment environment ≡ ok tt
unfolding validate_environment
validate_environment_complete environment f =
    let e : 0 + environment_bytes environment ≡ environment_bytes environment = omega arith in
    rw
      (
        le→ltb _ _ f.few,
        environment_total_complete [] 0 environment (omega (arith, f.small)) f.once
            (Fresh-nil (names_of environment)),
        e,
        le→ltb _ _ f.small,
      )
      refl

-- The runner accepts an environment exactly where it has at most 128 variables, no variable twice,
-- and at most 65536 bytes of names and values together.
pub validate_environment_iff :
    (environment : List (Bytes × Bytes))
    → (validate_environment environment ≡ ok tt) ↔ EnvironmentFits environment
validate_environment_iff environment =
    (validate_environment_sound environment, validate_environment_complete environment)

argument_total_complete :
    (total : ℕ) (arguments : List Bytes)
    → total + argument_bytes arguments ≤ u64_max
    → argument_total total arguments ≡ some (total + argument_bytes arguments)
unfolding argument_total
argument_total_complete total [] b = ap some (omega arith)
argument_total_complete total (argument ∷ arguments) b =
    rw (argument_total, checked_add_fits total (length argument) (omega (arith, b)))
      (argument_total_complete (total + length argument) arguments (omega (arith, b))
        ∙ ap some (omega arith))

pub validate_argument_limits_complete :
    (arguments : List Bytes) → ArgumentsFit arguments → validate_argument_limits arguments ≡ ok tt
unfolding validate_argument_limits
validate_argument_limits_complete arguments f =
    let e : 0 + argument_bytes arguments ≡ argument_bytes arguments = omega arith in
    rw
      (
        le→ltb _ _ f.few,
        argument_total_complete 0 arguments (omega (arith, f.small)),
        e,
        le→ltb _ _ f.small,
      )
      refl

argument_total_sound :
    (total : ℕ) (arguments : List Bytes) (t : ℕ)
    → argument_total total arguments ≡ some t
    → t ≡ total + argument_bytes arguments
unfolding argument_total
argument_total_sound total [] t h = ground arith
argument_total_sound total (argument ∷ arguments) t h =
    elim (Option-cases (checked_add total (length argument))) [
      | inl n ↦ absurd (ground (arith, n, h))
      | inr (next, n) ↦
          let ih = argument_total_sound next arguments t (ground (arith, n, h)) in
          let (e, _) = checked_add-eq-some total (length argument) next n in omega (arith, ih, e)
    ]

pub ArgumentsFit-validate_argument_limits :
    (arguments : List Bytes) → validate_argument_limits arguments ≡ ok tt → ArgumentsFit arguments
unfolding validate_argument_limits
ArgumentsFit-validate_argument_limits arguments h =
    let (hn, h) = reject-eq-ok (ltb max_arguments (length arguments)) too_many_arguments _ h in
    let (t, ht, h) = require-eq-ok (argument_total 0 arguments) argument_overflow _ h in
    let e = argument_total_sound 0 arguments t ht in
    let hb = ltb→le max_argument_bytes t (reject_if-eq-ok _ (arguments_too_large t) h) in
    record { few = ltb→le _ _ hn; small = omega (arith, e, hb) }

names_of-append : (a b : List (Bytes × Bytes)) → names_of (a ++ b) ≡ names_of a ++ names_of b
names_of-append [] b = refl
names_of-append ((name, value) ∷ a) b = ap (λ t. name ∷ t) (names_of-append a b)

environment_bytes-append :
    (a b : List (Bytes × Bytes))
    → environment_bytes (a ++ b) ≡ environment_bytes a + environment_bytes b
environment_bytes-append [] b = omega arith
environment_bytes-append ((name, value) ∷ a) b = omega (arith, environment_bytes-append a b)

argument_bytes-append :
    (a b : List Bytes) → argument_bytes (a ++ b) ≡ argument_bytes a + argument_bytes b
argument_bytes-append [] b = omega arith
argument_bytes-append (x ∷ a) b = omega (arith, argument_bytes-append a b)

Distinct-prefix : (a b : List Bytes) → Distinct (a ++ b) → Distinct a
Distinct-prefix [] b _ = tt
Distinct-prefix (x ∷ a) b (h, hs) =
    (ground (arith, contains-append a b x, h), Distinct-prefix a b hs)

-- What fits also fits without its end.
pub EnvironmentFits-prefix :
    (a b : List (Bytes × Bytes)) → EnvironmentFits (a ++ b) → EnvironmentFits a
EnvironmentFits-prefix a b f = record {
  few = omega (arith, f.few, length-append a b);
  small = omega (arith, f.small, environment_bytes-append a b);
  once = Distinct-prefix (names_of a) (names_of b) (subst Distinct (names_of-append a b) f.once);
}

pub ArgumentsFit-prefix : (a b : List Bytes) → ArgumentsFit (a ++ b) → ArgumentsFit a
ArgumentsFit-prefix a b f = record {
  few = omega (arith, f.few, length-append a b);
  small = omega (arith, f.small, argument_bytes-append a b);
}
