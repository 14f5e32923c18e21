-- ===== src/Execution/Bounds.antt =====
-- src/execution_cli.rs: the bounds that every parsed run command keeps.
use sci_capsule.Prelude.{
  ℕ, ◌≤◌, ◌≡◌, subst, true, false, ◌||◌, Option, none, some, List, [], ◌∷◌, ◌++◌, Bytes, codes,
  arith, nat_eq, list_eq, ◌==◌, length, is_empty, ltb, ltb→le, parse_u64, ok, Option-cases,
  Bool-cases, inl, inr, >>=-eq-ok, >>-eq-ok, reject-eq-ok, require-eq-ok, ok-injective, starts_with,
  reject_if, if◌then◌else◌,
}
use sci_capsule.Trust.{max_signatures}
use sci_capsule.Execution.{
  RunCommand, OptionName, policy_option, signature_option, max_files_option, max_bytes_option,
  timeout_option, max_output_option, env_option, max_timeout_seconds, max_output_limit,
  validate_environment, parse_environment, requires_integer, out_of_range, too_many_signatures,
  missing_signature, missing_capsule, missing_policy, unknown_command, validate_argument_limits,
  default_timeout_seconds, default_max_output_bytes,
}
use sci_capsule.Execution.Limits.{
  EnvironmentFits, ArgumentsFit, validate_environment_iff, ArgumentsFit-validate_argument_limits,
}
use sci_capsule.Execution.Parse.{
  ParseState, initial, take_value, take_unique_value, apply_option, apply_positional,
  push_arguments, parse_arguments, option_name, finish, parse, or_default,
}

-- A value that is set is positive and at most the limit.
abbrev InRange : ℕ → Option ℕ → Type 0
InRange limit none = Unit
InRange limit (some n) = (1 ≤ n) × (n ≤ limit)

record IsBounded (s : ParseState) : Type 0 where
  signatures : length s.signatures ≤ max_signatures
  timeout : InRange max_timeout_seconds s.timeout_seconds
  output : InRange max_output_limit s.max_output_bytes
  environment : EnvironmentFits s.environment
  arguments : ArgumentsFit s.arguments

-- The paths and the sizes are not bounded.
IsBounded-paths_and_sizes :
    (s : ParseState) (capsule policy : Option Bytes) (max_files max_bytes : Option ℕ)
    → IsBounded s
    → IsBounded (record s {
      capsule = capsule;
      policy = policy;
      max_files = max_files;
      max_bytes = max_bytes;
    })
IsBounded-paths_and_sizes s capsule policy max_files max_bytes b = record {
  signatures = b.signatures;
  timeout = b.timeout;
  output = b.output;
  environment = b.environment;
  arguments = b.arguments;
}

IsBounded-apply_option :
    (o : OptionName) (value : Option Bytes) (s s' : ParseState)
    → IsBounded s
    → apply_option o value s ≡ ok s'
    → IsBounded s'
unfolding apply_option
IsBounded-apply_option policy_option value s s' b h =
    let (raw, _, h) = >>=-eq-ok (take_unique_value policy_option value s.policy) _ h in
    subst IsBounded (ok-injective h)
      (IsBounded-paths_and_sizes s s.capsule (some raw) s.max_files s.max_bytes b)
IsBounded-apply_option signature_option value s s' b h =
    let (raw, _, h) = >>=-eq-ok (take_value signature_option value) _ h in
    let (few, h) =
      reject-eq-ok (ltb max_signatures (length (s.signatures ++ raw ∷ []))) too_many_signatures _
        h in
    subst IsBounded (ok-injective h) (record {
      signatures = ltb→le _ _ few;
      timeout = b.timeout;
      output = b.output;
      environment = b.environment;
      arguments = b.arguments;
    })
IsBounded-apply_option max_files_option value s s' b h =
    let (raw, _, h) = >>=-eq-ok (take_unique_value max_files_option value s.max_files) _ h in
    let (n, _, h) = require-eq-ok (parse_u64 raw) (requires_integer max_files_option) _ h in
    subst IsBounded (ok-injective h)
      (IsBounded-paths_and_sizes s s.capsule s.policy (some n) s.max_bytes b)
IsBounded-apply_option max_bytes_option value s s' b h =
    let (raw, _, h) = >>=-eq-ok (take_unique_value max_bytes_option value s.max_bytes) _ h in
    let (n, _, h) = require-eq-ok (parse_u64 raw) (requires_integer max_bytes_option) _ h in
    subst IsBounded (ok-injective h)
      (IsBounded-paths_and_sizes s s.capsule s.policy s.max_files (some n) b)
IsBounded-apply_option timeout_option value s s' b h =
    let (raw, _, h) = >>=-eq-ok (take_unique_value timeout_option value s.timeout_seconds) _ h in
    let (n, _, h) = require-eq-ok (parse_u64 raw) (requires_integer timeout_option) _ h in
    let (range, h) =
      reject-eq-ok (n == 0 || ltb max_timeout_seconds n) (out_of_range timeout_option) _ h in
    subst IsBounded (ok-injective h) (record {
      signatures = b.signatures;
      timeout = (ground (arith, range), ground (arith, range));
      output = b.output;
      environment = b.environment;
      arguments = b.arguments;
    })
IsBounded-apply_option max_output_option value s s' b h =
    let (raw, _, h) =
      >>=-eq-ok (take_unique_value max_output_option value s.max_output_bytes) _ h in
    let (n, _, h) = require-eq-ok (parse_u64 raw) (requires_integer max_output_option) _ h in
    let (range, h) =
      reject-eq-ok (n == 0 || ltb max_output_limit n) (out_of_range max_output_option) _ h in
    subst IsBounded (ok-injective h) (record {
      signatures = b.signatures;
      timeout = b.timeout;
      output = (ground (arith, range), ground (arith, range));
      environment = b.environment;
      arguments = b.arguments;
    })
IsBounded-apply_option env_option value s s' b h =
    let (raw, _, h) = >>=-eq-ok (take_value env_option value) _ h in
    let (entry, _, h) = >>=-eq-ok (parse_environment raw) _ h in
    let (valid, h) = >>-eq-ok (validate_environment (s.environment ++ entry ∷ [])) _ h in
    subst IsBounded (ok-injective h) (record {
      signatures = b.signatures;
      timeout = b.timeout;
      output = b.output;
      environment = (validate_environment_iff _).0 valid;
      arguments = b.arguments;
    })

IsBounded-apply_positional :
    (argument : Bytes) (s s' : ParseState)
    → IsBounded s
    → apply_positional argument s ≡ ok s'
    → IsBounded s'
unfolding apply_positional
IsBounded-apply_positional argument s s' b h = elim (Bool-cases (starts_with argument b'-')) [
  | inl e ↦ absurd (ground (arith, e, h))
  | inr e ↦ elim (Option-cases s.capsule) [
    | inl e' ↦
        let same : record s { capsule = some argument } ≡ s' = ground (arith, e, e', h) in
        subst IsBounded same
          (IsBounded-paths_and_sizes s (some argument) s.policy s.max_files s.max_bytes b)
    | inr (c, e') ↦ absurd (ground (arith, e, e', h))
  ]
]

IsBounded-push_arguments :
    (s s' : ParseState) (rest : List Bytes)
    → IsBounded s
    → push_arguments s rest ≡ ok s'
    → IsBounded s'
unfolding push_arguments
IsBounded-push_arguments s s' [] b h = subst IsBounded (ok-injective h) b
IsBounded-push_arguments s s' (argument ∷ rest) b h =
    let (fits, h) = >>-eq-ok (validate_argument_limits (s.arguments ++ argument ∷ [])) _ h in
    IsBounded-push_arguments (record s { arguments = s.arguments ++ argument ∷ [] }) s' rest
      (record {
        signatures = b.signatures;
        timeout = b.timeout;
        output = b.output;
        environment = b.environment;
        arguments = ArgumentsFit-validate_argument_limits _ fits;
      })
      h

IsBounded-parse_arguments :
    (s s' : ParseState) (rest : List Bytes)
    → IsBounded s
    → parse_arguments s rest ≡ ok s'
    → IsBounded s'
unfolding parse_arguments
IsBounded-parse_arguments s s' [] b h = subst IsBounded (ok-injective h) b
IsBounded-parse_arguments s s' (argument ∷ []) b h = elim (Option-cases (option_name argument)) [
  | inl e ↦ elim (Bool-cases (list_eq.test argument (codes "--"))) [
    | inl e' ↦ let same : s ≡ s' = ground (arith, e, e', h) in subst IsBounded same b
    | inr e' ↦ IsBounded-apply_positional argument s s' b (ground (arith, e, e', h))
  ]
  | inr (o, e) ↦ IsBounded-apply_option o none s s' b (ground (arith, e, h))
]
IsBounded-parse_arguments s s' (argument ∷ value ∷ rest) b h =
    elim (Option-cases (option_name argument)) [
      | inl e ↦ elim (Bool-cases (list_eq.test argument (codes "--"))) [
        | inl e' ↦ IsBounded-push_arguments s s' (value ∷ rest) b (ground (arith, e, e', h))
        | inr e' ↦
            let (t, ht, h) =
              >>=-eq-ok (apply_positional argument s) (λ t. parse_arguments t (value ∷ rest))
                (ground (arith, e, e', h)) in
            IsBounded-parse_arguments t s' (value ∷ rest)
              (IsBounded-apply_positional argument s t b ht) h
      ]
      | inr (o, e) ↦
          let (t, ht, h) =
            >>=-eq-ok (apply_option o (some value) s) (λ t. parse_arguments t rest)
              (ground (arith, e, h)) in
          IsBounded-parse_arguments t s' rest (IsBounded-apply_option o (some value) s t b ht) h
    ]

-- What the runner can rely on.
pub record IsRunnable (c : RunCommand) : Type 0 where
  pub signed : 1 ≤ length c.signatures
  pub few_signatures : length c.signatures ≤ max_signatures
  pub some_time : 1 ≤ c.timeout_seconds
  pub time_fits : c.timeout_seconds ≤ max_timeout_seconds
  pub some_output : 1 ≤ c.max_output_bytes
  pub output_fits : c.max_output_bytes ≤ max_output_limit
  pub environment_fits : EnvironmentFits c.environment
  pub arguments_fit : ArgumentsFit c.arguments

or_default-InRange :
    (limit n : ℕ) (o : Option ℕ)
    → InRange limit o
    → 1 ≤ n
    → n ≤ limit
    → (1 ≤ or_default o n) × (or_default o n ≤ limit)
or_default-InRange limit n none _ h h' = (h, h')
or_default-InRange limit n (some m) r _ _ = r

nonempty : {A : Type 0} (xs : List A) → is_empty xs ≡ false → 1 ≤ length xs
nonempty [] h = cc
nonempty (x ∷ xs) h = omega arith

IsRunnable-finish : (s : ParseState) (c : RunCommand) → IsBounded s → finish s ≡ ok c → IsRunnable c
unfolding finish
IsRunnable-finish s c b h =
    let (signed, h) = reject-eq-ok (is_empty s.signatures) missing_signature _ h in
    let (capsule, _, h) = require-eq-ok s.capsule missing_capsule _ h in
    let (policy, _, h) = require-eq-ok s.policy missing_policy _ h in
    let (time, time') =
      or_default-InRange max_timeout_seconds default_timeout_seconds s.timeout_seconds b.timeout
        (omega arith) (omega arith) in
    let (output, output') =
      or_default-InRange max_output_limit default_max_output_bytes s.max_output_bytes b.output
        (omega arith) (omega arith) in
    subst IsRunnable (ok-injective h) (record {
      signed = nonempty s.signatures signed;
      few_signatures = b.signatures;
      some_time = time;
      time_fits = time';
      some_output = output;
      output_fits = output';
      environment_fits = b.environment;
      arguments_fit = b.arguments;
    })

IsBounded-initial : IsBounded initial
IsBounded-initial = record {
  signatures = omega arith;
  timeout = tt;
  output = tt;
  environment = record { few = omega arith; small = omega arith; once = tt };
  arguments = record { few = omega arith; small = omega arith };
}

-- Every command that is parsed has between one and the greatest number of signatures, a timeout
-- between 1 and 86400 seconds, an output limit between 1 and 67108864 bytes, an environment of at
-- most 128 distinct variables and 65536 bytes, and at most 256 arguments of 65536 bytes together.
pub parse-IsRunnable :
    (arguments : List Bytes) (c : RunCommand) → parse arguments ≡ ok c → IsRunnable c
unfolding parse
parse-IsRunnable [] c h = cc
parse-IsRunnable (command ∷ rest) c h =
    let (_, h) =
      >>-eq-ok (reject_if (if command == codes "run" then false else true) unknown_command) _ h in
    let (s, hs, h) = >>=-eq-ok (parse_arguments initial rest) _ h in
    IsRunnable-finish s c (IsBounded-parse_arguments initial s rest IsBounded-initial hs) h
