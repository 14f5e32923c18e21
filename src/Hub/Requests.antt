-- ===== src/Hub/Requests.antt =====
-- src/hub_cli.rs: what a valid Hub request promises of its environment and arguments.
use sci_capsule.Prelude.{
  ℕ, ◌+◌, ◌≡◌, refl, sym, ap, ◌∙◌, true, false, ◌||◌, Option, none, some, List, [], ◌∷◌, Bytes,
  arith, nat_eq, list_eq, eq_iff, is_empty, ltb, ltb→le, contains, Distinct, length, All, ok,
  checked_add, checked_add-eq-some, require-eq-ok, reject-eq-ok, ok-injective, >>=-eq-ok,
  reject_if-eq-ok, not-eq-false, Bool-cases, Option-cases, inl, inr, true≢false,
}
use sci_capsule.Extraction.{path_lt}
use sci_capsule.Execution.{
  max_environment_entries, max_environment_bytes, max_arguments, max_argument_bytes,
}
use sci_capsule.Execution.Limits.{
  EnvironmentFits, ArgumentsFit, names_of, environment_bytes, argument_bytes,
}
use sci_capsule.Hub.{
  HubEnvironmentEntry, is_out_of_order, environment_total, validate_environment, argument_total,
  validate_arguments, invalid_entry, unsorted_environment, environment_overflow, too_many_entries,
  environment_too_large, too_many_arguments, invalid_argument, arguments_too_large,
}

-- The entries as the runner keeps them.
abbrev pub pairs : List HubEnvironmentEntry → List (Bytes × Bytes)
pairs [] = []
pairs (entry ∷ environment) = (entry.name, entry.value) ∷ pairs environment

-- An entry that an environment can have.
pub record IsEntry (entry : HubEnvironmentEntry) : Type 0 where
  pub named : is_empty entry.name ≡ false
  pub name_text : contains entry.name 0 ≡ false
  pub value_text : contains entry.value 0 ≡ false

IsEntry-test :
    (entry : HubEnvironmentEntry)
    → (is_empty entry.name || contains entry.name 0 || contains entry.value 0) ≡ false
    → IsEntry entry
IsEntry-test entry h = record {
  named = ground (arith, h);
  name_text = ground (arith, h);
  value_text = ground (arith, h);
}

path_lt_irrefl : (a : Bytes) → path_lt a a ≡ false
unfolding path_lt
path_lt_irrefl [] = refl
path_lt_irrefl (c ∷ a) = ground (arith, path_lt_irrefl a)

path_lt_trans : (a b c : Bytes) → path_lt a b ≡ true → path_lt b c ≡ true → path_lt a c ≡ true
unfolding path_lt
path_lt_trans [] [] c h h' = cc
path_lt_trans [] (y ∷ b) [] h h' = cc
path_lt_trans [] (y ∷ b) (z ∷ c) h h' = refl
path_lt_trans (x ∷ a) [] c h h' = cc
path_lt_trans (x ∷ a) (y ∷ b) [] h h' = cc
path_lt_trans (x ∷ a) (y ∷ b) (z ∷ c) h h' = ground (arith, h, h', path_lt_trans a b c)

-- Names in strictly ascending order, above the previous one.
abbrev Ascending : Option Bytes → List Bytes → Type 0
Ascending previous [] = Unit
Ascending previous (name ∷ names) =
    (is_out_of_order previous name ≡ false) × Ascending (some name) names

Ascending-lower :
    (p q : Bytes) (names : List Bytes)
    → path_lt p q ≡ true
    → Ascending (some q) names
    → Ascending (some p) names
unfolding is_out_of_order
Ascending-lower p q [] h _ = tt
Ascending-lower p q (n ∷ names) h (hn, hs) =
    (rw (path_lt_trans p q n h (not-eq-false (path_lt q n) hn)) refl, hs)

Ascending-contains :
    (previous : Bytes) (names : List Bytes)
    → Ascending (some previous) names
    → contains names previous ≡ false
unfolding contains is_out_of_order
Ascending-contains previous [] _ = refl
Ascending-contains previous (n ∷ names) (hn, hs) =
    let less = not-eq-false (path_lt previous n) hn in
    let rest = Ascending-contains previous names (Ascending-lower previous n names less hs) in
    elim (Bool-cases (list_eq.test n previous)) [
      | inl e ↦ absurd (
          true≢false
            (sym less ∙ ap (path_lt previous) ((eq_iff n previous).0 e) ∙ path_lt_irrefl previous))
      | inr e ↦ rw (e, rest) refl
    ]

Ascending-Distinct :
    (previous : Option Bytes) (names : List Bytes) → Ascending previous names → Distinct names
Ascending-Distinct previous [] _ = tt
Ascending-Distinct previous (n ∷ names) (_, hs) =
    (Ascending-contains n names hs, Ascending-Distinct (some n) names hs)

environment_total_sound :
    (previous : Option Bytes) (total : ℕ) (environment : List HubEnvironmentEntry) (t : ℕ)
    → environment_total previous total environment ≡ ok t
    → (t ≡ total + environment_bytes (pairs environment))
      × Ascending previous (names_of (pairs environment))
      × All IsEntry environment
unfolding environment_total
environment_total_sound previous total [] t h = (sym (ok-injective h) ∙ omega arith, tt, tt)
environment_total_sound previous total (entry ∷ environment) t h =
    let (hi, h) =
      reject-eq-ok (is_empty entry.name || contains entry.name 0 || contains entry.value 0)
        invalid_entry _ h in
    let (ho, h) = reject-eq-ok (is_out_of_order previous entry.name) unsorted_environment _ h in
    let (named, h1, h) =
      require-eq-ok (checked_add total (length entry.name)) environment_overflow _ h in
    let (next, h2, h) =
      require-eq-ok (checked_add named (length entry.value)) environment_overflow _ h in
    let (e1, _) = checked_add-eq-some total (length entry.name) named h1 in
    let (e2, _) = checked_add-eq-some named (length entry.value) next h2 in
    let (e, ascending, entries) = environment_total_sound (some entry.name) next environment t h in
    (omega (arith, e, e1, e2), (ho, ascending), (IsEntry-test entry hi, entries))

length-pairs :
    (environment : List HubEnvironmentEntry) → length (pairs environment) ≡ length environment
length-pairs [] = refl
length-pairs (entry ∷ environment) = omega (arith, length-pairs environment)

-- A valid request's environment is one that the runner takes.
pub EnvironmentFits-validate_environment :
    (environment : List HubEnvironmentEntry)
    → validate_environment environment ≡ ok tt
    → EnvironmentFits (pairs environment) × All IsEntry environment
unfolding validate_environment
EnvironmentFits-validate_environment environment h =
    let (hn, h) =
      reject-eq-ok (ltb max_environment_entries (length environment)) too_many_entries _ h in
    let (t, ht, h) = >>=-eq-ok (environment_total none 0 environment) _ h in
    let (e, ascending, entries) = environment_total_sound none 0 environment t ht in
    let hb = ltb→le max_environment_bytes t (reject_if-eq-ok _ (environment_too_large t) h) in
    let hl = ltb→le max_environment_entries (length environment) hn in
    (
      record {
        few = omega (arith, hl, length-pairs environment);
        small = omega (arith, e, hb);
        once = Ascending-Distinct none (names_of (pairs environment)) ascending;
      },
      entries,
    )

argument_total_sound :
    (total : ℕ) (arguments : List Bytes) (t : ℕ)
    → argument_total total arguments ≡ some t
    → t ≡ total + argument_bytes arguments
unfolding argument_total
argument_total_sound total [] t h = ground arith
argument_total_sound total (argument ∷ arguments) t h = elim (Bool-cases (contains argument 0)) [
  | inl e ↦ absurd (ground (arith, e, h))
  | inr e ↦ elim (Option-cases (checked_add total (length argument))) [
    | inl n ↦ absurd (ground (arith, e, n, h))
    | inr (next, n) ↦
        let ih = argument_total_sound next arguments t (ground (arith, e, n, h)) in
        let (e', _) = checked_add-eq-some total (length argument) next n in omega (arith, ih, e')
  ]
]

pub ArgumentsFit-validate_arguments :
    (arguments : List Bytes) → validate_arguments arguments ≡ ok tt → ArgumentsFit arguments
unfolding validate_arguments
ArgumentsFit-validate_arguments arguments h =
    let (hn, h) = reject-eq-ok (ltb max_arguments (length arguments)) too_many_arguments _ h in
    let (t, ht, h) = require-eq-ok (argument_total 0 arguments) invalid_argument _ h in
    let e = argument_total_sound 0 arguments t ht in
    let hb = ltb→le max_argument_bytes t (reject_if-eq-ok _ (arguments_too_large t) h) in
    record { few = ltb→le _ _ hn; small = omega (arith, e, hb) }
