-- ===== src/Execution/Arguments.antt =====
-- src/execution_cli.rs: how `parse` goes through its options.
use sci_capsule.Prelude.{
  ℕ, ◌≤◌, ◌<◌, ◌≡◌, refl, sym, ap, subst, ◌∙◌, false, none, some, List, [], ◌∷◌, ◌++◌, Bytes, codes,
  arith, nat_eq, list_eq, list_beq, le→ltb, is_empty, contains, length, length-append, append_assoc,
  append-nil, split_once-append, Lacks, u64_max, to_string, parse_u64-to_string, is_empty-to_string,
  ok, starts_with,
}
use sci_capsule.Trust.{max_signatures}
use sci_capsule.Execution.{
  OptionName, parse_environment, signature_option, policy_option, timeout_option, max_files_option,
  max_bytes_option, env_option, max_timeout_seconds,
}
use sci_capsule.Execution.Parse.{
  ParseState, option_name, apply_option, apply_positional, take_value, take_unique_value,
  parse_arguments, push_arguments,
}
use sci_capsule.Execution.Limits.{
  EnvironmentFits, ArgumentsFit, ArgumentsFit-prefix, validate_environment_iff,
  validate_argument_limits_complete,
}

pub parse_arguments-option :
    (s s' : ParseState) (argument value : Bytes) (rest : List Bytes) (o : OptionName)
    → option_name argument ≡ some o
    → apply_option o (some value) s ≡ ok s'
    → parse_arguments s (argument ∷ value ∷ rest) ≡ parse_arguments s' rest
unfolding parse_arguments
parse_arguments-option s s' argument value rest o e e' = ground (arith, e, e')

pub take_value-some :
    (o : OptionName) (value : Bytes) → is_empty value ≡ false → take_value o (some value) ≡ ok value
unfolding take_value
take_value-some o value h = ground (arith, h)

pub apply-signature :
    (s : ParseState) (path : Bytes)
    → is_empty path ≡ false
    → length s.signatures < max_signatures
    → apply_option signature_option (some path) s
      ≡ ok (record s { signatures = s.signatures ++ path ∷ [] })
unfolding apply_option
apply-signature s path h b =
    let longer = length-append s.signatures (path ∷ []) in
    let fits : length (s.signatures ++ path ∷ []) ≤ max_signatures = rw longer (omega (arith, b)) in
    rw (take_value-some signature_option path h, le→ltb _ _ fits) refl

pub apply-policy :
    (s : ParseState) (path : Bytes)
    → is_empty path ≡ false
    → s.policy ≡ none
    → apply_option policy_option (some path) s ≡ ok (record s { policy = some path })
unfolding apply_option take_unique_value
apply-policy s path h e = rw (e, take_value-some policy_option path h) refl

pub apply-timeout :
    (s : ParseState) (n : ℕ)
    → 1 ≤ n
    → n ≤ max_timeout_seconds
    → s.timeout_seconds ≡ none
    → apply_option timeout_option (some (to_string n)) s
      ≡ ok (record s { timeout_seconds = some n })
unfolding apply_option take_unique_value
apply-timeout s n h h' e =
    rw
      (
        e,
        take_value-some timeout_option (to_string n) (is_empty-to_string n),
        parse_u64-to_string n (omega (arith, h')),
      )
      (ground (arith, h, h'))

pub apply-max_files :
    (s : ParseState) (n : ℕ)
    → n ≤ u64_max
    → s.max_files ≡ none
    → apply_option max_files_option (some (to_string n)) s ≡ ok (record s { max_files = some n })
unfolding apply_option take_unique_value
apply-max_files s n h e =
    rw
      (
        e,
        take_value-some max_files_option (to_string n) (is_empty-to_string n),
        parse_u64-to_string n h,
      )
      refl

pub apply-max_bytes :
    (s : ParseState) (n : ℕ)
    → n ≤ u64_max
    → s.max_bytes ≡ none
    → apply_option max_bytes_option (some (to_string n)) s ≡ ok (record s { max_bytes = some n })
unfolding apply_option take_unique_value
apply-max_bytes s n h e =
    rw
      (
        e,
        take_value-some max_bytes_option (to_string n) (is_empty-to_string n),
        parse_u64-to_string n h,
      )
      refl

is_empty-append : (a b : Bytes) → is_empty a ≡ false → is_empty (a ++ b) ≡ false
is_empty-append [] b h = cc
is_empty-append (c ∷ a) b h = refl

pub apply-env :
    (s : ParseState) (name value : Bytes)
    → is_empty name ≡ false
    → contains name 0 ≡ false
    → contains value 0 ≡ false
    → Lacks b'=' name
    → EnvironmentFits (s.environment ++ (name, value) ∷ [])
    → apply_option env_option (some (name ++ b'=' ∷ value)) s
      ≡ ok (record s { environment = s.environment ++ (name, value) ∷ [] })
unfolding apply_option parse_environment
apply-env s name value hn h0 h0' lacks fits =
    rw
      (
        take_value-some env_option (name ++ b'=' ∷ value) (is_empty-append name (b'=' ∷ value) hn),
        split_once-append b'=' name value lacks,
        hn,
        h0,
        h0',
        (validate_environment_iff (s.environment ++ (name, value) ∷ [])).1 fits,
      )
      refl

-- The arguments behind `--` are all kept.
pub push_arguments-append :
    (s : ParseState) (arguments : List Bytes)
    → ArgumentsFit (s.arguments ++ arguments)
    → push_arguments s arguments ≡ ok (record s { arguments = s.arguments ++ arguments })
unfolding push_arguments
push_arguments-append s [] f =
    ap (λ a. ok (record s { arguments = a })) (sym (append-nil s.arguments))
push_arguments-append s (a ∷ arguments) f =
    let e = append_assoc s.arguments (a ∷ []) arguments in
    let fits = subst ArgumentsFit (sym e) f in
    rw
      (validate_argument_limits_complete (s.arguments ++ a ∷ [])
        (ArgumentsFit-prefix (s.arguments ++ a ∷ []) arguments fits))
      (push_arguments-append (record s { arguments = s.arguments ++ a ∷ [] }) arguments fits
        ∙ ap (λ a. ok (record s { arguments = a })) e)

pub parse_arguments-arguments :
    (s : ParseState) (argument : Bytes) (rest : List Bytes)
    → parse_arguments s (codes "--" ∷ argument ∷ rest) ≡ push_arguments s (argument ∷ rest)
unfolding parse_arguments option_name list_beq
parse_arguments-arguments s argument rest = refl

pub parse_arguments-capsule :
    (s : ParseState) (c next : Bytes) (rest : List Bytes)
    → s.capsule ≡ none
    → parse_arguments s ((b'/' ∷ c) ∷ next ∷ rest)
      ≡ parse_arguments (record s { capsule = some (b'/' ∷ c) }) (next ∷ rest)
unfolding parse_arguments option_name list_beq apply_positional starts_with
parse_arguments-capsule s c next rest e = ground (arith, e)
