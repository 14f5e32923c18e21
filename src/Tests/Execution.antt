-- ===== src/Tests/Execution.antt =====
-- Runs of the supervision of a child, and examples of its theorems.
use sci_capsule.Prelude.{
  ℕ, ◌≡◌, ◌≤◌, refl, ok, err, some, none, [], ◌∷◌, Bytes, List, Result, codes, arith, inl, inr,
}
use sci_capsule.Crypto.{Base64, Json}
use sci_capsule.Trust.Verify.{enforces_lifecycle}
use sci_capsule.Trust.Panics.{verify-has_revision}
use sci_capsule.Execution.Wait
use sci_capsule.Execution.Wait.{
  ExecutionResult, ExecutionError, Effect, Received, received, recv_timeout, receive_capture_until,
  Poll, exited, running, poll_failed, kill_group, wait_child, drain, stdout, stderr, failed,
  supervise, wait_loop, finish_execution, report, result_for, to_json, status_name, success,
  capture_failed, has_error, captured_errors,
}
use sci_capsule.Execution.WaitLoop.{KilledFirst}
use sci_capsule.Execution.Outcomes.{supervise_ends}
use sci_capsule.Tests.Toy.{toy}
use sci_capsule.Tests.Trust.{
  base, capsule, two_signatures, decision, demo_json, verify_base, run_verify,
}

abbrev plain : Base64
plain = record { encode_string = λ bytes. bytes; decode_vec = λ text. some text }

abbrev status_code : Wait.Status → ℕ
status_code Wait.timeout = 0
status_code Wait.capture_error = 1
status_code Wait.success_status = 2
status_code Wait.nonzero = 3

-- Prints the status.
abbrev printer : Json ExecutionResult
printer = record { to_vec_pretty = λ r. some (status_code r.status ∷ []); from_slice = λ _. none }

abbrev quiet : Received
quiet = received (record { bytes = []; error = none })

unfoldable run_supervise : List Poll → Received → Wait.Supervised
unfolding supervise wait_loop finish_execution report result_for to_json status_name success
    capture_failed has_error captured_errors receive_capture_until
run_supervise polls out =
    supervise plain (codes "demo") (codes "run") decision printer 50 (some none) polls out quiet

exits_in_time :
    run_supervise (running 10 ∷ exited (some 0) ∷ []) quiet
    ≡ some (kill_group ∷ drain stdout ∷ drain stderr ∷ kill_group ∷ [], ok (2 ∷ b'\n' ∷ []))
unfolding run_supervise
exits_in_time = refl

times_out :
    run_supervise (running 10 ∷ running 50 ∷ []) quiet
    ≡ some (
      kill_group ∷ wait_child ∷ kill_group ∷ drain stdout ∷ drain stderr ∷ kill_group ∷ [],
      err (failed (0 ∷ b'\n' ∷ [])),
    )
unfolding run_supervise
times_out = refl

drain_fails :
    run_supervise (exited (some 0) ∷ []) recv_timeout
    ≡ some
        (kill_group ∷ drain stdout ∷ drain stderr ∷ kill_group ∷ [], err (failed (1 ∷ b'\n' ∷ [])))
unfolding run_supervise
drain_fails = refl

supervise_ends_example :
    (effects : List Effect) × (r : Result ExecutionError Bytes) × (supervise plain
        (codes "demo")
        (codes "run")
        decision
        printer
        50
        (some none)
        (running 10 ∷ running 60 ∷ [])
        quiet
        quiet
      ≡ some (effects, r))
    × KilledFirst effects
supervise_ends_example =
    supervise_ends plain (codes "demo") (codes "run") decision printer 50 (some none)
      (running 10 ∷ running 60 ∷ []) quiet quiet (inr (inl (omega arith)))

verify-has_revision_example :
    (revision : ℕ) × (decision.policy_revision ≡ some revision) × (1 ≤ revision)
unfolding enforces_lifecycle run_verify
verify-has_revision_example =
    verify-has_revision toy demo_json base capsule two_signatures 120 decision refl verify_base
