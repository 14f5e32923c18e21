-- ===== src/Execution/Outcomes.antt =====
-- src/execution_cli.rs: when the supervised child makes `execute` succeed, and the order of the
-- kill and the drains.
use sci_capsule.Prelude.{
  ℕ, ◌≡◌, ◌≢◌, refl, ap, subst, true, false, Option, some, List, [], ◌∷◌, Bytes, arith, Any, inl,
  inr, Result, ok, err, ◌⊎◌, some_of_ne_none,
}
use sci_capsule.Crypto.{Base64, Json}
use sci_capsule.Trust.{TrustDecision}
use sci_capsule.Execution.Capture.{CaptureOutcome}
use sci_capsule.Execution.Wait.{
  ExitStatus, success, ExecutionResult, ExecutionError, Effect, kill_group, wait_child, Received,
  Poll, Finished, wait_loop, capture_failed, success_status, result_for, to_json, finish_execution,
  supervise,
}
use sci_capsule.Execution.WaitLoop.{Decides, KilledFirst, wait_loop-Decides, wait_loop-effects}

err_ne_ok : {E A : Type 0} {e : E} {a : A} → ◌≢◌ {A = Result E A} (err e) (ok a)
err_ne_ok h = cc

module _ (base64 : Base64) (capsule_name entrypoint : Bytes) (trust : TrustDecision)
    (json : Json ExecutionResult) where
  finish_execution-KilledFirst :
      (out errors : Received) (effects effects' : List Effect) (r : Result ExecutionError Finished)
      (r' : Result ExecutionError Bytes)
      → ((effects ≡ []) × ((f : Finished) × (r ≡ ok f))) ⊎ (effects ≡ kill_group ∷ wait_child ∷ [])
      → finish_execution base64 capsule_name entrypoint trust json out errors (effects, r)
        ≡ (effects', r')
      → KilledFirst effects'
  unfolding finish_execution
  finish_execution-KilledFirst out errors effects effects' (ok f) r' (inl (e, _)) h =
      subst KilledFirst (ap (λ x. x.0) h) (rw e tt)
  finish_execution-KilledFirst out errors effects effects' (err x) r' (inl (_, (f, e))) h =
      absurd (err_ne_ok e)
  finish_execution-KilledFirst out errors effects effects' (ok f) r' (inr e) h =
      subst KilledFirst (ap (λ x. x.0) h) (rw e tt)
  finish_execution-KilledFirst out errors effects effects' (err x) r' (inr e) h =
      subst KilledFirst (ap (λ x. x.0) h) (rw e tt)

  -- What makes the report a success.
  pub record IsSuccess (finished : Finished) (out errors : CaptureOutcome) (encoded : Bytes)
      : Type 0 where
    pub in_time : finished.0 ≡ false
    pub exit_success : success finished.1 ≡ true
    pub captured : capture_failed out errors ≡ false
    pub revision : ℕ
    pub has_revision : trust.policy_revision ≡ some revision
    pub printed :
        to_json json (
          result_for base64 capsule_name entrypoint trust revision success_status finished.1 out
            errors)
        ≡ ok encoded

  -- While the polls show an exit, a failure or a clock at the deadline, the wait ends: there is a
  -- result, and no stream is drained before the process group has been killed.
  pub supervise_ends :
      (deadline : ℕ) (reaped : Option ExitStatus) (polls : List Poll) (out errors : Received)
      → Any (Decides deadline) polls
      → (effects : List Effect) × (r : Result ExecutionError Bytes) × (supervise base64 capsule_name
            entrypoint trust json deadline reaped polls out errors
          ≡ some (effects, r))
        × KilledFirst effects
  unfolding supervise
  supervise_ends deadline reaped polls out errors h =
      let ((effects, r), e) =
        some_of_ne_none (wait_loop deadline reaped polls)
          (wait_loop-Decides deadline reaped polls h) in
      let done =
        finish_execution base64 capsule_name entrypoint trust json out errors (effects, r) in
      (
        done.0,
        done.1,
        ground (arith, e),
        finish_execution-KilledFirst out errors effects done.0 r done.1
            (wait_loop-effects deadline reaped polls effects r e) refl,
      )
