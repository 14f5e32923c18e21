-- ===== src/Execution/WaitLoop.antt =====
-- src/execution_cli.rs: the wait loop of `execute`: when the child exits in time, and that it ends.
use sci_capsule.Prelude.{
  ℕ, ◌≤◌, ◌<◌, ◌≡◌, ◌≢◌, refl, subst, false, Option, none, some, List, [], ◌∷◌, arith, leb, Any,
  inl, inr, Bool-cases, Option-cases, Result, ok, ◌⊎◌,
}
use sci_capsule.Execution.Wait.{
  ExitStatus, ExecutionError, Effect, kill_group, wait_child, drain, Poll, exited, running,
  poll_failed, Finished, wait_loop,
}

-- The child exits with the status while the clock is before the deadline.
pub data ExitsBefore (deadline : ℕ) : List Poll → ExitStatus → Type 0 where
  here :
      {status : ExitStatus} {polls : List Poll}
      → ExitsBefore deadline (exited status ∷ polls) status
  later :
      {now : ℕ} {status : ExitStatus} {polls : List Poll}
      → now < deadline
      → ExitsBefore deadline polls status
      → ExitsBefore deadline (running now ∷ polls) status

pub wait_loop_sound :
    (deadline : ℕ) (reaped : Option ExitStatus) (polls : List Poll) (effects : List Effect)
    (status : ExitStatus)
    → wait_loop deadline reaped polls ≡ some (effects, ok (false, status))
    → ExitsBefore deadline polls status
unfolding wait_loop
wait_loop_sound deadline reaped [] effects status h = cc
wait_loop_sound deadline reaped (exited s ∷ polls) effects status h =
    let e : s ≡ status = cc in subst (ExitsBefore deadline (exited s ∷ polls)) e here
wait_loop_sound deadline reaped (poll_failed ∷ polls) effects status h = cc
wait_loop_sound deadline reaped (running now ∷ polls) effects status h =
    elim (Bool-cases (leb deadline now)) [
      | inl e ↦ elim (Option-cases reaped) [
        | inl n ↦ absurd (ground (arith, e, n, h))
        | inr (reap, n) ↦ absurd (ground (arith, e, n, h))
      ]
      | inr e ↦
          later (ground (arith, e))
            (wait_loop_sound deadline reaped polls effects status (ground (arith, e, h)))
    ]

pub wait_loop_complete :
    (deadline : ℕ) (reaped : Option ExitStatus) (polls : List Poll) (status : ExitStatus)
    → ExitsBefore deadline polls status
    → wait_loop deadline reaped polls ≡ some ([], ok (false, status))
unfolding wait_loop
wait_loop_complete deadline reaped _ status here = refl
wait_loop_complete deadline reaped _ status (later before rest) =
    ground (arith, before, wait_loop_complete deadline reaped _ status rest)

-- The child has exited, cannot be polled, or the clock has reached the deadline.
abbrev pub Decides : ℕ → Poll → Type 0
Decides deadline (exited status) = Unit
Decides deadline poll_failed = Unit
Decides deadline (running now) = deadline ≤ now

pub wait_loop-Decides :
    (deadline : ℕ) (reaped : Option ExitStatus) (polls : List Poll)
    → Any (Decides deadline) polls
    → wait_loop deadline reaped polls ≢ none
unfolding wait_loop
wait_loop-Decides deadline reaped [] h = elim h [ ]
wait_loop-Decides deadline reaped (exited s ∷ polls) h = λ e. cc
wait_loop-Decides deadline reaped (poll_failed ∷ polls) h = λ e. cc
wait_loop-Decides deadline reaped (running now ∷ polls) (inl h) = λ e. ground (arith, h, e)
wait_loop-Decides deadline reaped (running now ∷ polls) (inr h) =
    let rest = wait_loop-Decides deadline reaped polls h in λ e. ground (arith, rest, e)

-- No stream is drained before the process group has been killed.
abbrev pub KilledFirst : List Effect → Type 0
KilledFirst [] = Unit
KilledFirst (kill_group ∷ effects) = Unit
KilledFirst (wait_child ∷ effects) = KilledFirst effects
KilledFirst (drain stream ∷ effects) = ⊥

pub wait_loop-effects :
    (deadline : ℕ) (reaped : Option ExitStatus) (polls : List Poll) (effects : List Effect)
    (r : Result ExecutionError Finished)
    → wait_loop deadline reaped polls ≡ some (effects, r)
    → ((effects ≡ []) × ((f : Finished) × (r ≡ ok f))) ⊎ (effects ≡ kill_group ∷ wait_child ∷ [])
unfolding wait_loop
wait_loop-effects deadline reaped [] effects r h = cc
wait_loop-effects deadline reaped (exited s ∷ polls) effects r h = inl (cc, ((false, s), cc))
wait_loop-effects deadline reaped (poll_failed ∷ polls) effects r h = inr cc
wait_loop-effects deadline reaped (running now ∷ polls) effects r h =
    elim (Bool-cases (leb deadline now)) [
      | inl e ↦ inr (ground (arith, e, h))
      | inr e ↦ wait_loop-effects deadline reaped polls effects r (ground (arith, e, h))
    ]
