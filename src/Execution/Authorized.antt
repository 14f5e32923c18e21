-- ===== src/Execution/Authorized.antt =====
-- src/execution_cli.rs: what holds when `execute` comes to start a child.
use sci_capsule.Prelude.{
  ℕ, ◌≡◌, refl, sym, ap, subst, ◌∙◌, true, not, Option, none, some, ◌∷◌, Bytes, codes, checked_add,
  Result, ok, err, ok_or, map_err, ok-injective, not-eq-false,
}
use sci_capsule.Action.{lift, raise_if, map_error, >>=-succeeds, map_error-succeeds}
use sci_capsule.Crypto.{Crypto, Json}
use sci_capsule.Files.{
  Location, Node, Entries, Disk, IoError, regular, untouched, symlink_metadata, not_found,
}
use sci_capsule.Files.Calls.{attempt-succeeds}
use sci_capsule.Files.Directories.{IsTree}
use sci_capsule.Files.Reading.{raise_if-succeeds}
use sci_capsule.Extraction.{max_capsule_metadata_bytes}
use sci_capsule.Extraction.Materialize.{Capsule, ExtractionSummary, extract_capsule}
use sci_capsule.Extraction.Publishing.{IsExtracted}
use sci_capsule.Extraction.Extracted.{extract_capsule-IsExtracted}
use sci_capsule.Cli.Commands.{Container}
use sci_capsule.Cli.Packing.{lift-succeeds}
use sci_capsule.Signature.{SignatureEnvelope}
use sci_capsule.Trust.{TrustPolicy, TrustDecision}
use sci_capsule.Trust.Verify.{enforces_lifecycle, verify}
use sci_capsule.Product.{
  ProductError, max_bytes_too_large, lifecycle_required, trust_failed, cannot_materialize,
  cannot_inspect_entrypoint, entrypoint_not_regular, cannot_make_executable, read_decoded,
  read_policy, read_envelopes,
}
use sci_capsule.Product.Reading.{
  Holds, AreEnvelopes, lift-map_err-succeeds, read_decoded-succeeds, read_policy-succeeds,
  read_envelopes-succeeds,
}
use sci_capsule.Product.Trusting.{IsDecided, verify-IsAuthorized}
use sci_capsule.Execution.{RunCommand}
use sci_capsule.Execution.Authorize.{
  Process, is_file, set_permissions, authorize, materialize, or_remove_directory,
}

is_file-true : (node : Node) → is_file node ≡ true → (bytes : Bytes) × (node ≡ regular bytes)
is_file-true (regular bytes) h = (bytes, refl)
is_file-true Node.directory h = cc h
is_file-true Node.link h = cc h
is_file-true Node.special h = cc h

found :
    (o : Option Node) {node : Node}
    → ◌≡◌ {A = Result IoError Node}
        (elim o [ none ↦ err not_found | some node ↦ ok node ])
        (ok node)
    → o ≡ some node
found none h = cc h
found (some n) h = ap some (ok-injective h)

pub or_remove_directory-ok :
    (l : Location) (r : Result ProductError Process) (d d' : Disk) {process : Process}
    → or_remove_directory l r d ≡ (ok process, d')
    → (r ≡ ok process) × (d ≡ d')
or_remove_directory-ok l (ok p) d d' h = (ap (λ x. x.0) h, ap (λ x. x.1) h)
or_remove_directory-ok l (err e) d d' h = cc (ap (λ x. x.0) h)

-- The child's program is a regular file in the extracted tree.
pub record IsMaterialized (run_directory : Location) (command : RunCommand) (capsule : Capsule)
    (before after : Entries) (process : Process) : Type 0 where
  pub summary : ExtractionSummary
  pub extracted :
      IsExtracted capsule (codes "root" ∷ run_directory) command.limits before after summary
  pub bytes : Bytes
  pub content : after process.program ≡ some (regular bytes)
  pub started : process ≡ record {
    program = summary.entrypoint;
    arguments = command.arguments;
    current_dir = summary.destination;
    environment = command.environment;
  }

pub materialize-succeeds :
    (staging : Bytes) (run_directory : Location) (command : RunCommand) (capsule : Capsule)
    (d d' : Disk) {process : Process}
    → IsTree d.entries
    → materialize staging run_directory command capsule d ≡ (ok process, d')
    → IsMaterialized run_directory command capsule d.entries d'.entries process
unfolding materialize
materialize-succeeds staging run_directory command capsule d d' {process} t h =
    let root : Location = codes "root" ∷ run_directory in
    let act = extract_capsule staging capsule root command.limits in
    let (summary, d1, h1, h) = >>=-succeeds (map_error cannot_materialize act) _ d h in
    let look = symlink_metadata summary.entrypoint in
    let (node, d2, h2, h) = >>=-succeeds (map_error cannot_inspect_entrypoint look) _ d1 h in
    let (_, d3, h3, h) =
      >>=-succeeds (raise_if (not (is_file node)) entrypoint_not_regular) _ d2 h in
    let permit = set_permissions summary.entrypoint in
    let (_, d4, h4, h) = >>=-succeeds (map_error cannot_make_executable permit) _ d3 h in
    let done =
      extract_capsule-IsExtracted staging capsule root command.limits d d1 summary t
        (map_error-succeeds cannot_materialize act d h1) in
    let e2 =
      attempt-succeeds untouched
        (λ f. (elim (f summary.entrypoint) [ none ↦ err not_found | some node ↦ ok node ], f)) d1
        (map_error-succeeds cannot_inspect_entrypoint look d1 h2) in
    let (regular_node, same3) =
      raise_if-succeeds (not (is_file node)) entrypoint_not_regular d2 h3 in
    let e4 =
      attempt-succeeds untouched (λ f. (ok tt, f)) d3
        (map_error-succeeds cannot_make_executable permit d3 h4) in
    let (bytes, is_regular) = is_file-true node (not-eq-false (is_file node) regular_node) in
    let same : d'.entries ≡ d1.entries =
      ap (λ x. x.1.entries) (sym h)
      ∙ ap (λ x. x.1) (sym e4)
      ∙ ap (λ s. s.entries) (sym same3)
      ∙ ap (λ x. x.1) (sym e2) in
    let process_eq = ok-injective (ap (λ x. x.0) (sym h)) in
    record {
      summary = summary;
      extracted =
          subst (λ f. IsExtracted capsule root command.limits d.entries f summary) (sym same) done;
      bytes = bytes;
      content =
          ap d'.entries (ap (λ (p : Process). p.program) process_eq)
          ∙ ap (λ f. f summary.entrypoint) same
          ∙ found (d1.entries summary.entrypoint) (ap (λ x. x.0) e2)
          ∙ ap some is_regular;
      started = process_eq;
    }

module _ (locate : Bytes → Location) (crypto : Crypto) (policy_json : Json TrustPolicy)
    (container : Container) (json : Json SignatureEnvelope) (clock : Option ℕ) where
  abbrev pub Decided : RunCommand → Entries → Type 0
  Decided command entries =
      IsDecided locate crypto policy_json container json clock command.capsule command.policy
        command.signatures entries

  pub authorize-succeeds :
      (command : RunCommand) (d d' : Disk) {capsule : Capsule} {decision : TrustDecision}
      → authorize locate crypto policy_json container json clock command d
        ≡ (ok (capsule, decision), d')
      → (decided : Decided command d.entries) × (decided.capsule ≡ capsule)
        × (decided.decision ≡ decision)
        × (enforces_lifecycle decided.policy ≡ true)
        × (d'.entries ≡ d.entries)
  unfolding authorize
  authorize-succeeds command d d' {capsule} {decision} h =
      let limit = checked_add command.limits.max_total_bytes max_capsule_metadata_bytes in
      let (maximum, d0, h0, h) = >>=-succeeds (lift (ok_or limit max_bytes_too_large)) _ d h in
      let ((bytes, decoded), d1, h1, h) =
        >>=-succeeds (read_decoded locate container command.capsule maximum) _ d0 h in
      let (policy, d2, h2, h) =
        >>=-succeeds (read_policy locate crypto policy_json command.policy) _ d1 h in
      let (_, d3, h3, h) =
        >>=-succeeds (raise_if (not (enforces_lifecycle policy)) lifecycle_required) _ d2 h in
      let (signatures, d4, h4, h) =
        >>=-succeeds (read_envelopes locate json command.signatures) _ d3 h in
      let outcome = verify crypto policy_json clock policy bytes signatures in
      let (trust, d5, h5, h) = >>=-succeeds (lift (map_err trust_failed outcome)) _ d4 h in
      let (_, same0) = lift-succeeds limit max_bytes_too_large d h0 in
      let (holds_capsule, decodes, same1) =
        read_decoded-succeeds locate container command.capsule maximum d0 d1 h1 in
      let (policy_bytes, holds_policy, is_policy, same2) =
        read_policy-succeeds locate crypto policy_json command.policy d1 d2 h2 in
      let (lifecycle, same3) =
        raise_if-succeeds (not (enforces_lifecycle policy)) lifecycle_required d2 h3 in
      let (envelopes, same4) = read_envelopes-succeeds locate json command.signatures d3 d4 h4 in
      let (verifies, same5) = lift-map_err-succeeds trust_failed outcome d4 h5 in
      let (now, time, authorized) =
        verify-IsAuthorized locate crypto policy_json clock policy bytes signatures trust
          verifies in
      let start : d0.entries ≡ d.entries = ap (λ s. s.entries) same0 in
      let upto1 : d1.entries ≡ d.entries = same1 ∙ start in
      let upto3 : d3.entries ≡ d.entries = ap (λ s. s.entries) (sym same3) ∙ same2 ∙ upto1 in
      let result = ok-injective (ap (λ x. x.0) h) in
      (
        record {
          capsule_bytes = bytes;
          capsule = decoded;
          policy_bytes = policy_bytes;
          policy = policy;
          signatures = signatures;
          now = now;
          decision = trust;
          holds_capsule = subst (λ f. Holds locate f command.capsule bytes) start holds_capsule;
          decoded = decodes;
          holds_policy = subst (λ f. Holds locate f command.policy policy_bytes) upto1 holds_policy;
          is_policy = is_policy;
          envelopes =
              subst (λ f. AreEnvelopes locate json f command.signatures signatures) upto3 envelopes;
          time = time;
          authorized = authorized;
        },
        ap (λ x. x.0) result,
        ap (λ x. x.1) result,
        not-eq-false (enforces_lifecycle policy) lifecycle,
        ap (λ x. x.1.entries) (sym h) ∙ ap (λ s. s.entries) same5 ∙ same4 ∙ upto3,
      )
