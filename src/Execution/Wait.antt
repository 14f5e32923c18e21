-- ===== src/Execution/Wait.antt =====
-- src/execution_cli.rs: the end of `execute`, from the started child to the result, with the
-- effects in their order.
use sci_capsule.Prelude.{
  ℕ, suc, Bool, true, false, not, ◌||◌, Option, none, some, List, [], ◌∷◌, ◌++◌, Bytes, leb, Result,
  ok, err, ok_or, ◌>>=◌, if◌then◌else◌, zero,
}
use sci_capsule.Crypto.{Base64, Json}
use sci_capsule.Trust.{TrustDecision}
use sci_capsule.Execution.Capture.{CaptureOutcome, CaptureError, drain_exceeded, disconnected}

abbrev pub execution_result_schema_version : ℕ
execution_result_schema_version = 2

-- `ExitStatus::code`: none where a signal ended the child.
abbrev pub ExitStatus : Type 0
ExitStatus = Option ℕ

unfoldable pub success : ExitStatus → Bool
success none = false
success (some zero) = true
success (some (suc n)) = false

pub data Stream : Type 0 where
  stdout stderr : Stream

pub data Status : Type 0 where
  timeout capture_error success_status nonzero : Status

pub record ExecutionResult : Type 0 where
  pub schema_version : ℕ
  pub status : Status
  pub capsule_name : Bytes
  pub entrypoint : Bytes
  pub matched_signers : List Bytes
  pub required_signatures : ℕ
  pub policy_digest : Bytes
  pub policy_revision : ℕ
  pub exit_code : ExitStatus
  pub stdout_base64 : Bytes
  pub stderr_base64 : Bytes
  pub capture_errors : List (Stream × CaptureError)

-- The errors behind the start of the child; `failed` carries the result's JSON.
pub data ExecutionError : Type 0 where
  cannot_reap cannot_wait cannot_serialize expect_failed : ExecutionError
  failed : Bytes → ExecutionError

pub data Effect : Type 0 where
  kill_group wait_child : Effect
  drain : Stream → Effect

-- What `recv_timeout` gives before the drain's deadline.
pub data Received : Type 0 where
  received : CaptureOutcome → Received
  recv_timeout recv_disconnected : Received

unfoldable pub receive_capture_until : Received → CaptureOutcome
receive_capture_until (received outcome) = outcome
receive_capture_until recv_timeout = record { bytes = []; error = some drain_exceeded }
receive_capture_until recv_disconnected = record { bytes = []; error = some disconnected }

-- One `try_wait`, with the clock where the child still runs.
pub data Poll : Type 0 where
  exited : ExitStatus → Poll
  running : ℕ → Poll
  poll_failed : Poll

-- The loop's `break`: whether the deadline passed, and the status.
abbrev pub Finished : Type 0
Finished = Bool × ExitStatus

-- What supervision comes to, none while the child runs on.
abbrev pub Supervised : Type 0
Supervised = Option (List Effect × Result ExecutionError Bytes)

-- The wait loop over the polls: none while the child runs on. `reaped` is what `wait` gives after
-- the kill at the deadline.
unfoldable pub wait_loop :
    ℕ → Option ExitStatus → List Poll → Option (List Effect × Result ExecutionError Finished)
wait_loop deadline reaped [] = none
wait_loop deadline reaped (exited status ∷ polls) = some ([], ok (false, status))
wait_loop deadline reaped (poll_failed ∷ polls) =
    some (kill_group ∷ wait_child ∷ [], err cannot_wait)
wait_loop deadline reaped (running now ∷ polls) =
    let rest = wait_loop deadline reaped polls in
    let last : Result ExecutionError Finished = elim reaped [
      | none ↦ err cannot_reap
      | some status ↦ ok (true, status)
    ] in
    if leb deadline now then some (kill_group ∷ wait_child ∷ [], last) else rest

unfoldable pub has_error : CaptureOutcome → Bool
has_error o = elim o.error [ none ↦ false | some _ ↦ true ]

unfoldable pub capture_failed : CaptureOutcome → CaptureOutcome → Bool
capture_failed out errors = has_error out || has_error errors

unfoldable pub status_name : Bool → Bool → ExitStatus → Status
status_name true capture status = timeout
status_name false true status = capture_error
status_name false false status = if success status then success_status else nonzero

unfoldable pub captured_errors : Stream → CaptureOutcome → List (Stream × CaptureError)
captured_errors stream o = elim o.error [ none ↦ [] | some e ↦ (stream, e) ∷ [] ]

unfoldable pub to_json : Json ExecutionResult → ExecutionResult → Result ExecutionError Bytes
to_json json r = do
  encoded ← ok_or (json.to_vec_pretty r) cannot_serialize
  ok (encoded ++ b'\n' ∷ [])

module _ (base64 : Base64) (capsule_name entrypoint : Bytes) (trust : TrustDecision) where
  unfoldable pub result_for :
      ℕ → Status → ExitStatus → CaptureOutcome → CaptureOutcome → ExecutionResult
  result_for revision status exit_status out errors = record {
    schema_version = execution_result_schema_version;
    status = status;
    capsule_name = capsule_name;
    entrypoint = entrypoint;
    matched_signers = trust.matched_signers;
    required_signatures = trust.required_signatures;
    policy_digest = trust.policy_digest;
    policy_revision = revision;
    exit_code = exit_status;
    stdout_base64 = base64.encode_string out.bytes;
    stderr_base64 = base64.encode_string errors.bytes;
    capture_errors = captured_errors stdout out ++ captured_errors stderr errors;
  }

  module _ (json : Json ExecutionResult) where
    -- From the drained streams to the value that `execute` returns.
    unfoldable pub report : Finished → CaptureOutcome → CaptureOutcome → Result ExecutionError Bytes
    report (timed_out, status) out errors =
        let capture = capture_failed out errors in
        do
          revision ← ok_or trust.policy_revision expect_failed
          encoded ←
              to_json json
                (result_for revision (status_name timed_out capture status) status out errors)
          if timed_out || capture || not (success status) then err (failed encoded) else ok encoded

    -- The effects end with the kill of the guard that is dropped.
    unfoldable pub finish_execution :
        Received
        → Received
        → List Effect × Result ExecutionError Finished
        → List Effect × Result ExecutionError Bytes
    finish_execution out errors (effects, err e) =
        (effects ++ drain stdout ∷ drain stderr ∷ kill_group ∷ [], err e)
    finish_execution out errors (effects, ok finished) = (
      effects ++ kill_group ∷ drain stdout ∷ drain stderr ∷ kill_group ∷ [],
      report finished (receive_capture_until out) (receive_capture_until errors),
    )

    unfoldable pub supervise :
        ℕ
        → Option ExitStatus
        → List Poll
        → Received
        → Received
        → Option (List Effect × Result ExecutionError Bytes)
    supervise deadline reaped polls out errors = elim (wait_loop deadline reaped polls) [
      | none ↦ none
      | some w ↦ some (finish_execution out errors w)
    ]
