-- ===== src/Hub/Delivery.antt =====
-- src/hub_cli.rs and src/execution_cli.rs: the runner reads from `hub_run`'s arguments exactly what
-- the request says.
use sci_capsule.Prelude.{
  ◌+◌, ◌≤◌, ◌≡◌, refl, sym, ap, subst, ◌∙◌, false, not, ◌||◌, none, some, List, [], ◌∷◌, ◌++◌,
  Bytes, codes, arith, nat_eq, list_eq, list_beq, ltb, ltb→le, is_empty, length, length-append, All,
  append_assoc, append-nil, Lacks, u64_max, to_string, ok, ◌==◌, ◌>>=◌, >>-eq-ok, reject-eq-ok,
}
use sci_capsule.Trust.{max_signatures}
use sci_capsule.Execution.{
  RunCommand, default_max_output_bytes, max_timeout_seconds, signature_option, policy_option,
  timeout_option, max_files_option, max_bytes_option, env_option,
}
use sci_capsule.Execution.Parse.{ParseState, initial, option_name, parse_arguments, finish, parse}
use sci_capsule.Execution.Limits.{EnvironmentFits, ArgumentsFit, EnvironmentFits-prefix}
use sci_capsule.Execution.Arguments.{
  parse_arguments-option, apply-signature, apply-policy, apply-timeout, apply-max_files,
  apply-max_bytes, apply-env, push_arguments-append, parse_arguments-arguments,
  parse_arguments-capsule,
}
use sci_capsule.Hub.{
  HubEnvironmentEntry, HubRunRequest, validate, validate_signatures, validate_environment,
  signature_arguments, environment_arguments, argument_tail, run_arguments,
  hub_request_schema_version, unsupported_schema_version, no_signature, too_many_signatures,
  timeout_range,
}
use sci_capsule.Hub.Requests.{
  pairs, IsEntry, EnvironmentFits-validate_environment, ArgumentsFit-validate_arguments,
}

abbrev pub NoEquals : List HubEnvironmentEntry → Type 0
NoEquals = All (λ entry. Lacks b'=' entry.name)

parse-signature_arguments :
    (s : ParseState) (paths rest : List Bytes)
    → All (λ path. is_empty path ≡ false) paths
    → length s.signatures + length paths ≤ max_signatures
    → parse_arguments s (signature_arguments paths rest)
      ≡ parse_arguments (record s { signatures = s.signatures ++ paths }) rest
unfolding signature_arguments option_name list_beq
parse-signature_arguments s [] rest _ b =
    ap (λ p. parse_arguments (record s { signatures = p }) rest) (sym (append-nil s.signatures))
parse-signature_arguments s (path ∷ paths) rest (h, hs) b =
    let s' = record s { signatures = s.signatures ++ path ∷ [] } in
    let longer = length-append s.signatures (path ∷ []) in
    parse_arguments-option s s' (codes "--signature") path (signature_arguments paths rest)
      signature_option refl (apply-signature s path h (omega (arith, b)))
    ∙ parse-signature_arguments s' paths rest hs (rw longer (omega (arith, b)))
    ∙ ap (λ p. parse_arguments (record s { signatures = p }) rest)
        (append_assoc s.signatures (path ∷ []) paths)

parse-environment_arguments :
    (s : ParseState) (environment : List HubEnvironmentEntry) (rest : List Bytes)
    → EnvironmentFits (s.environment ++ pairs environment)
    → All IsEntry environment
    → NoEquals environment
    → parse_arguments s (environment_arguments environment rest)
      ≡ parse_arguments (record s { environment = s.environment ++ pairs environment }) rest
unfolding environment_arguments option_name list_beq
parse-environment_arguments s [] rest _ _ _ =
    ap (λ p. parse_arguments (record s { environment = p }) rest) (sym (append-nil s.environment))
parse-environment_arguments s (entry ∷ environment) rest f (h, hs) (l, ls) =
    let one : Bytes × Bytes = (entry.name, entry.value) in
    let s' = record s { environment = s.environment ++ one ∷ [] } in
    let e = append_assoc s.environment (one ∷ []) (pairs environment) in
    let fits = subst EnvironmentFits (sym e) f in
    parse_arguments-option s s' (codes "--env") (entry.name ++ b'=' ∷ entry.value)
      (environment_arguments environment rest) env_option refl
      (apply-env s entry.name entry.value h.named h.name_text h.value_text l
        (EnvironmentFits-prefix (s.environment ++ one ∷ []) (pairs environment) fits))
    ∙ parse-environment_arguments s' environment rest fits hs ls
    ∙ ap (λ p. parse_arguments (record s { environment = p }) rest) e

parse-argument_tail :
    (s : ParseState) (arguments : List Bytes)
    → ArgumentsFit (s.arguments ++ arguments)
    → parse_arguments s (argument_tail arguments)
      ≡ ok (record s { arguments = s.arguments ++ arguments })
unfolding argument_tail parse_arguments
parse-argument_tail s [] f =
    ap (λ a. ok (record s { arguments = a })) (sym (append-nil s.arguments))
parse-argument_tail s (a ∷ arguments) f =
    parse_arguments-arguments s a arguments ∙ push_arguments-append s (a ∷ arguments) f

-- What validation says of the fields that the command line carries.
record IsDeliverable (r : HubRunRequest) : Type 0 where
  signed : is_empty r.signatures ≡ false
  signatures_fit : length r.signatures ≤ max_signatures
  some_time : 1 ≤ r.timeout_seconds
  time_fits : r.timeout_seconds ≤ max_timeout_seconds
  environment_fits : EnvironmentFits (pairs r.environment)
  entries : All IsEntry r.environment
  arguments_fit : ArgumentsFit r.arguments

IsDeliverable-validate : (r : HubRunRequest) → validate r ≡ ok tt → IsDeliverable r
unfolding validate
IsDeliverable-validate r h =
    let (_, h) =
      reject-eq-ok (not (r.schema_version == hub_request_schema_version))
        (unsupported_schema_version r.schema_version) _ h in
    let (signed, h) = reject-eq-ok (is_empty r.signatures) no_signature _ h in
    let (hn, h) =
      reject-eq-ok (ltb max_signatures (length r.signatures))
        (too_many_signatures (length r.signatures)) _ h in
    let (_, h) = >>-eq-ok (validate_signatures none r.signatures) _ h in
    let (ht, h) =
      reject-eq-ok (r.timeout_seconds == 0 || ltb max_timeout_seconds r.timeout_seconds)
        timeout_range _ h in
    let (he, h) = >>-eq-ok (validate_environment r.environment) _ h in
    let (fits, entries) = EnvironmentFits-validate_environment r.environment he in
    record {
      signed = signed;
      signatures_fit = ltb→le _ _ hn;
      some_time = ground (arith, ht);
      time_fits = ground (arith, ht);
      environment_fits = fits;
      entries = entries;
      arguments_fit = ArgumentsFit-validate_arguments r.arguments h;
    }

-- The command that a request stands for.
abbrev pub command_for : Bytes → Bytes → List Bytes → HubRunRequest → RunCommand
command_for capsule policy signatures r = record {
  capsule = capsule;
  policy = policy;
  signatures = signatures;
  limits = record { max_files = r.max_files; max_total_bytes = r.max_bytes };
  timeout_seconds = r.timeout_seconds;
  max_output_bytes = default_max_output_bytes;
  environment = pairs r.environment;
  arguments = r.arguments;
}

module _ (r : HubRunRequest) (d : IsDeliverable r) (files : r.max_files ≤ u64_max)
    (bytes : r.max_bytes ≤ u64_max) where
  parse-limits :
      (s : ParseState) (rest : List Bytes)
      → s.timeout_seconds ≡ none
      → s.max_files ≡ none
      → s.max_bytes ≡ none
      → parse_arguments s (
          codes "--timeout-seconds"
          ∷ to_string r.timeout_seconds
          ∷ codes "--max-files"
          ∷ to_string r.max_files
          ∷ codes "--max-bytes"
          ∷ to_string r.max_bytes
          ∷ rest)
        ≡ parse_arguments
            (record s {
              timeout_seconds = some r.timeout_seconds;
              max_files = some r.max_files;
              max_bytes = some r.max_bytes;
            })
            rest
  unfolding option_name list_beq
  parse-limits s rest e e' e'' =
      let s1 : ParseState = record s { timeout_seconds = some r.timeout_seconds } in
      let s2 : ParseState = record s1 { max_files = some r.max_files } in
      parse_arguments-option s s1 _ _ _ timeout_option refl
        (apply-timeout s r.timeout_seconds d.some_time d.time_fits e)
      ∙ parse_arguments-option s1 s2 _ _ _ max_files_option refl
          (apply-max_files s1 r.max_files files e')
      ∙ parse_arguments-option s2 (record s2 { max_bytes = some r.max_bytes }) _ _ _
          max_bytes_option refl (apply-max_bytes s2 r.max_bytes bytes e'')

  parse-options :
      (c policy : Bytes) (signatures : List Bytes)
      → NoEquals r.environment
      → length signatures ≡ length r.signatures
      → All (λ path. is_empty path ≡ false) signatures
      → is_empty policy ≡ false
      → (parse (run_arguments (b'/' ∷ c) policy signatures r))
        ≡ finish (record {
          capsule = some (b'/' ∷ c);
          policy = some policy;
          signatures = signatures;
          max_files = some r.max_files;
          max_bytes = some r.max_bytes;
          timeout_seconds = some r.timeout_seconds;
          max_output_bytes = none;
          environment = pairs r.environment;
          arguments = r.arguments;
        })
  unfolding parse run_arguments option_name list_beq
  parse-options c policy signatures no_equals same nonempty named =
      let s1 : ParseState = record initial { capsule = some (b'/' ∷ c) } in
      let s2 : ParseState = record s1 { policy = some policy } in
      let s3 : ParseState = record s2 { signatures = signatures } in
      let s4 : ParseState = record s3 {
        timeout_seconds = some r.timeout_seconds;
        max_files = some r.max_files;
        max_bytes = some r.max_bytes;
      } in
      let s5 : ParseState = record s4 { environment = pairs r.environment } in
      ap (λ m. m >>= finish)
        (parse_arguments-capsule initial c (codes "--policy") _ refl
          ∙ parse_arguments-option s1 s2 (codes "--policy") policy _ policy_option refl
              (apply-policy s1 policy named refl)
          ∙ parse-signature_arguments s2 signatures _ nonempty
              (omega (arith, same, d.signatures_fit))
          ∙ parse-limits s3 _ refl refl refl
          ∙ parse-environment_arguments s4 r.environment _ d.environment_fits d.entries no_equals
          ∙ parse-argument_tail s5 r.arguments d.arguments_fit)

is_empty-length :
    {A B : Type 0} (xs : List A) (ys : List B)
    → length xs ≡ length ys
    → is_empty ys ≡ false
    → is_empty xs ≡ false
is_empty-length xs [] e h = cc
is_empty-length [] (y ∷ ys) e h = absurd (omega (arith, e))
is_empty-length (x ∷ xs) (y ∷ ys) e h = refl

-- A valid Hub request whose sizes are `u64`s and whose variable names have no `=` is what the
-- runner executes: from the arguments of `hub_run`, with an absolute capsule path, a policy path
-- that is not empty and one path that is not empty for each signature, `parse` reads the
-- request's limits, timeout, environment and arguments, and the default output limit.
pub parse-run_arguments :
    (r : HubRunRequest) (c policy : Bytes) (signatures : List Bytes)
    → validate r ≡ ok tt
    → r.max_files ≤ u64_max
    → r.max_bytes ≤ u64_max
    → NoEquals r.environment
    → length signatures ≡ length r.signatures
    → All (λ path. is_empty path ≡ false) signatures
    → is_empty policy ≡ false
    → parse (run_arguments (b'/' ∷ c) policy signatures r)
      ≡ ok (command_for (b'/' ∷ c) policy signatures r)
unfolding finish
parse-run_arguments r c policy signatures valid files bytes no_equals same nonempty named =
    let d = IsDeliverable-validate r valid in
    parse-options r d files bytes c policy signatures no_equals same nonempty named
    ∙ rw (is_empty-length signatures r.signatures same d.signed) refl
