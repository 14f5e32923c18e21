-- ===== src/Execution/Prepared.antt =====
-- src/execution_cli.rs: what holds of the process that `execute` comes to start.
use sci_capsule.Prelude.{
  ℕ, ◌≡◌, sym, ap, subst, ◌∙◌, true, Option, none, some, [], ◌∷◌, ◌++◌, append_assoc, Bytes, codes,
  ok, ok-injective, Option-cases, inl, inr,
}
use sci_capsule.Action.{map_error, >>=-succeeds, map_error-succeeds}
use sci_capsule.Crypto.{Crypto, Json}
use sci_capsule.Files.{
  Location, Entries, Disk, regular, directory, below, update, enter, untouched, make_directory,
}
use sci_capsule.Files.Ancestors.{below-append, below-eq-some}
use sci_capsule.Files.Calls.{attempt-succeeds, enter-succeeds, update_other}
use sci_capsule.Files.Directories.{IsTree, IsTree-enter}
use sci_capsule.Extraction.Materialize.{Capsule}
use sci_capsule.Extraction.Trees.{tree}
use sci_capsule.Cli.Commands.{Container}
use sci_capsule.Signature.{SignatureEnvelope}
use sci_capsule.Trust.{TrustPolicy, TrustDecision}
use sci_capsule.Trust.Verify.{enforces_lifecycle}
use sci_capsule.Product.{cannot_create_run_directory}
use sci_capsule.Execution.{RunCommand}
use sci_capsule.Execution.Authorize.{Process, authorize, materialize, or_remove_directory, prepare}
use sci_capsule.Execution.Authorized.{
  Decided, authorize-succeeds, materialize-succeeds, or_remove_directory-ok,
}

below_child : (name : Bytes) (l p : Location) → below l p ≡ none → below (name ∷ l) p ≡ none
below_child name l p h = elim (Option-cases (below (name ∷ l) p)) [
  | inl e ↦ e
  | inr (r, e) ↦
      let place = below-eq-some (name ∷ l) p r e ∙ sym (append_assoc r (name ∷ []) l) in
      cc (h, ap (below l) place, below-append (r ++ name ∷ []) l)
]

module _ (locate : Bytes → Location) (crypto : Crypto) (policy_json : Json TrustPolicy)
    (container : Container) (json : Json SignatureEnvelope) (clock : Option ℕ) where
  pub record IsPrepared (run_directory : Location) (command : RunCommand) (before after : Entries)
      (decision : TrustDecision) (process : Process) : Type 0 where
    pub decided : Decided locate crypto policy_json container json clock command before
    pub is_decision : decided.decision ≡ decision
    pub lifecycle : enforces_lifecycle decided.policy ≡ true
    pub was_absent : before run_directory ≡ none
    pub materialized :
        (r : Location) → after (r ++ codes "root" ∷ run_directory) ≡ tree decided.capsule.payloads r
    pub program_bytes : Bytes
    pub is_program : after process.program ≡ some (regular program_bytes)
    pub is_current_dir : process.current_dir ≡ codes "root" ∷ run_directory
    pub is_arguments : process.arguments ≡ command.arguments
    pub is_environment : process.environment ≡ command.environment
    pub elsewhere : (p : Location) → below run_directory p ≡ none → after p ≡ before p

  -- From a file system in which every entry stands in a directory, and whatever failures the
  -- system has in store, `execute` comes to start a process only where the policy in its file, with
  -- the envelopes in theirs and at the time of the clock, enforces the lifecycle rules and
  -- authorizes the very bytes of the capsule file, which decode. The run directory is then new, the
  -- directory `root` in it holds exactly the tree of this capsule's payloads, the program is a
  -- regular file there is, the process has the arguments and the environment of the command and
  -- runs in `root`, and every place that is not below the run directory holds what it held before.
  pub prepare-IsPrepared :
      (staging : Bytes) (run_directory : Location) (command : RunCommand) (d d' : Disk)
      (decision : TrustDecision) (process : Process)
      → IsTree d.entries
      → prepare locate crypto policy_json container json clock staging run_directory command d
        ≡ (ok (decision, process), d')
      → IsPrepared run_directory command d.entries d'.entries decision process
  unfolding prepare
  prepare-IsPrepared staging run_directory command d d' decision process t h =
      let act = authorize locate crypto policy_json container json clock command in
      let ((capsule, trust), d1, h1, h) = >>=-succeeds act _ d h in
      let make = map_error cannot_create_run_directory (make_directory run_directory) in
      let (_, d2, h2, h) = >>=-succeeds make _ d1 h in
      let fill = materialize staging run_directory command capsule in
      let (started, d3, h3, h) =
        >>=-succeeds (λ d. or_remove_directory run_directory (fill d).0 (fill d).1) _ d2 h in
      let (decided, is_capsule, is_decision, lifecycle, same1) =
        authorize-succeeds locate crypto policy_json container json clock command d d1 h1 in
      let made =
        attempt-succeeds untouched (enter directory run_directory) d1
          (map_error-succeeds cannot_create_run_directory (make_directory run_directory) d1 h2) in
      let (name, parent, is_place, in_directory, new, changed) =
        enter-succeeds directory run_directory d1.entries d2.entries made in
      let t1 : IsTree d1.entries = subst IsTree (sym same1) t in
      let t2 : IsTree d2.entries =
        subst IsTree (ap (λ l. update d1.entries l (some directory)) (sym is_place) ∙ sym changed) (
          IsTree-enter d1.entries directory name parent t1 in_directory
            (ap d1.entries (sym is_place) ∙ new)) in
      let (filled, same3) = or_remove_directory-ok run_directory (fill d2).0 (fill d2).1 d3 h3 in
      let m =
        materialize-succeeds staging run_directory command capsule d2 d3 t2
          (λ i. (filled i, same3 i)) in
      let result = ok-injective (ap (λ x. x.0) h) in
      let last : d'.entries ≡ d3.entries = ap (λ x. x.1.entries) (sym h) in
      let is_process : process ≡ started = ap (λ x. x.1) (sym result) in
      record {
        decided = decided;
        is_decision = is_decision ∙ ap (λ x. x.0) result;
        lifecycle = lifecycle;
        was_absent = ap (λ f. f run_directory) (sym same1) ∙ new;
        materialized = λ r.
            ap (λ f. f (r ++ codes "root" ∷ run_directory)) last
            ∙ m.extracted.extracted r
            ∙ ap (λ (c : Capsule). tree c.payloads r) (sym is_capsule);
        program_bytes = m.bytes;
        is_program =
            ap (λ f. f process.program) last
            ∙ ap (λ (p : Process). d3.entries p.program) is_process
            ∙ m.content;
        is_current_dir =
            ap (λ (p : Process). p.current_dir) (is_process ∙ m.started) ∙ m.extracted.at;
        is_arguments = ap (λ (p : Process). p.arguments) (is_process ∙ m.started);
        is_environment = ap (λ (p : Process). p.environment) (is_process ∙ m.started);
        elsewhere = λ p b.
            ap (λ f. f p) last
            ∙ m.extracted.elsewhere p (below_child (codes "root") run_directory p b)
            ∙ ap (λ f. f p) changed
            ∙ update_other d1.entries run_directory (some directory) p
                (λ q. cc (b, ap (below run_directory) q, below-append [] run_directory))
            ∙ ap (λ f. f p) same1;
      }
