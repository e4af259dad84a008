-- ===== src/Request/Endings.antt =====
-- How a request ends: src/core/request_impl.cpp under the steps that src/core/engine_impl.cpp takes.
use hux.Base.{
  ℕ, Bool, true, false, List, [], ◌∷◌, ◌≡◌, ◌⊎◌, inl, inr, refl, ap, ◌∙◌, arith, All, some, sym,
  Bool-cases,
}
use hux.Types.{
  Status, ErrorInfo, source_reusable, transfer_complete, target_ready, failed_safe, cancelled_safe,
  RequestState, succeeded, failed, cancelled, draining, is_terminal,
}
use hux.Request.{
  Request, Kind, CompletionEvent, add_stage, has_stage, has_error, new_request, on_subop_complete,
  cancel, outcome, wait, fail, note_error, abandoning,
}
use hux.Request.Steps.{
  Op, sets_state, marks_stage, completes, cancels, notes_error, fails, step, run,
  on_subop_complete-stages, run-abandoning,
}

-- The engine names no terminal state to `set_state`, and marks two stages only.
abbrev pub IsEngineOp : Op → Type 0
IsEngineOp (sets_state s) = is_terminal s ≡ false
IsEngineOp (marks_stage s) = (s ≡ transfer_complete) ⊎ (s ≡ target_ready)
IsEngineOp _ = Unit

abbrev is_succeeded : RequestState → Bool
is_succeeded succeeded = true
is_succeeded _ = false

abbrev is_failed : RequestState → Bool
is_failed failed = true
is_failed _ = false

abbrev is_cancelled : RequestState → Bool
is_cancelled cancelled = true
is_cancelled _ = false

-- The stages that a request has published agree with its state, and a request whose cancellation
-- was accepted drains until it ends.
pub record Agrees (r : Request) : Type 0 where
  pub admitted : r.stages.accepted_bit ≡ true
  pub reusable : r.stages.source_reusable_bit ≡ is_succeeded r.state
  pub failed_is : r.stages.failed_safe_bit ≡ is_failed r.state
  pub cancelled_is : r.stages.cancelled_safe_bit ≡ is_cancelled r.state
  pub complete : r.state ≡ succeeded → r.stages.transfer_complete_bit ≡ true
  pub ready : r.state ≡ succeeded → r.stages.target_ready_bit ≡ true
  pub drains : r.cancel_requested ≡ true → is_terminal r.state ≡ false → r.state ≡ draining

on_subop_complete-state :
    (r : Request) (ev : CompletionEvent)
    → ((on_subop_complete r ev).0.state ≡ r.state)
      × ((on_subop_complete r ev).0.cancel_requested ≡ r.cancel_requested)
unfolding on_subop_complete
on_subop_complete-state r ev = ground arith

note_error-keeps :
    (r : Request) (e : ErrorInfo)
    → ((note_error r e).state ≡ r.state)
      × ((note_error r e).stages ≡ r.stages)
      × ((note_error r e).cancel_requested ≡ r.cancel_requested)
unfolding note_error
note_error-keeps r e = ground arith

fail_live :
    (r : Request) (e : ErrorInfo)
    → is_terminal r.state ≡ false
    → ((fail r e).state ≡ failed) × ((fail r e).stages ≡ add_stage r.stages failed_safe)
unfolding fail
fail_live r e h = ground arith

fail_ended : (r : Request) (e : ErrorInfo) → is_terminal r.state ≡ true → fail r e ≡ r
unfolding fail
fail_ended r e h = rw h refl

Agrees-same :
    (r s : Request)
    → s.state ≡ r.state
    → s.stages ≡ r.stages
    → s.cancel_requested ≡ r.cancel_requested
    → Agrees r
    → Agrees s
Agrees-same r s p q c v = ground arith

Agrees-failed :
    (r s : Request)
    → s.state ≡ failed
    → s.stages ≡ add_stage r.stages failed_safe
    → is_terminal r.state ≡ false
    → Agrees r
    → Agrees s
Agrees-failed r s p q live v = ground arith

step-Agrees : (r : Request) (o : Op) → IsEngineOp o → Agrees r → Agrees (step r o)
unfolding step
step-Agrees r (sets_state s) h v = ground arith
step-Agrees r (completes ev) h v =
    let kept = on_subop_complete-state r ev in
    Agrees-same r _ kept.0 (on_subop_complete-stages r ev) kept.1 v
step-Agrees r (notes_error e) h v =
    let kept = note_error-keeps r e in Agrees-same r _ kept.0 kept.1 kept.2 v
step-Agrees r (fails e) h v = elim (Bool-cases (is_terminal r.state)) [
  | inl t ↦ rw (fail_ended r e t) v
  | inr live ↦ Agrees-failed r _ (fail_live r e live).0 (fail_live r e live).1 live v
]
step-Agrees r _ h v = ground arith

pub run-Agrees : (r : Request) (os : List Op) → All IsEngineOp os → Agrees r → Agrees (run r os)
unfolding run
run-Agrees r [] h v = v
run-Agrees r (o ∷ os) h v = run-Agrees (step r o) os h.1 (step-Agrees r o h.0 v)

pub new_request-Agrees : (id : ℕ) (k : Kind) (total peer : ℕ) → Agrees (new_request id k total peer)
unfolding new_request
new_request-Agrees id k total peer = ground arith

-- After any history of the methods as the engine calls them, a new request has published
-- SourceReusable exactly if it succeeded, FailedSafe exactly if it failed and CancelledSafe exactly
-- if it was cancelled.
pub ending_stages :
    (id : ℕ) (k : Kind) (total peer : ℕ) (os : List Op)
    → All IsEngineOp os
    → let r = run (new_request id k total peer) os in
      (has_stage r.stages source_reusable ≡ is_succeeded r.state)
      × (has_stage r.stages failed_safe ≡ is_failed r.state)
      × (has_stage r.stages cancelled_safe ≡ is_cancelled r.state)
ending_stages id k total peer os h =
    let v = run-Agrees _ os h (new_request-Agrees id k total peer) in
    (v.reusable, v.failed_is, v.cancelled_is)

outcome-ok :
    (r : Request)
    → is_terminal r.state ≡ true
    → outcome r ≡ Status.ok
    → (r.state ≡ succeeded) × (has_error r ≡ false)
unfolding outcome
outcome-ok r t e = ground arith

-- When a wait says kOk, the request as it ended has published TransferComplete, TargetReady and
-- SourceReusable, and has no error. What the wait was handed is a request in a state that the
-- engine's calls lead to, ended, and the one it began with if that had ended already.
pub wait-ok :
    (r r' : Request)
    → Agrees r'
    → is_terminal r'.state ≡ true
    → (is_terminal r.state ≡ true → r ≡ r')
    → wait r (some r') ≡ Status.ok
    → (has_stage r'.stages transfer_complete ≡ true)
      × (has_stage r'.stages target_ready ≡ true)
      × (has_stage r'.stages source_reusable ≡ true)
      × (has_error r' ≡ false)
unfolding wait
wait-ok r r' v ended same e =
    let told = outcome-ok r' ended final in
    (v.complete told.0, v.ready told.0, v.reusable ∙ ap is_succeeded told.0, told.1)
  where
    final : outcome r' ≡ Status.ok
    final = elim (Bool-cases (is_terminal r.state)) [
      | inl t ↦ ap outcome (sym (same t)) ∙ rw t at e
      | inr f ↦ rw f at e
    ]

step-cancel_requested :
    (r : Request) (o : Op) → r.cancel_requested ≡ true → (step r o).cancel_requested ≡ true
unfolding step
step-cancel_requested r (sets_state s) h = ground arith
step-cancel_requested r (completes ev) h = (on_subop_complete-state r ev).1 ∙ h
step-cancel_requested r _ h = ground arith

run-cancel_requested :
    (r : Request) (os : List Op) → r.cancel_requested ≡ true → (run r os).cancel_requested ≡ true
unfolding run
run-cancel_requested r [] h = h
run-cancel_requested r (o ∷ os) h = run-cancel_requested (step r o) os (step-cancel_requested r o h)

cancel_live :
    (r : Request)
    → is_terminal r.state ≡ false
    → ((cancel r).1 ≡ Status.ok)
      × ((cancel r).0.cancel_requested ≡ true)
      × (abandoning (cancel r).0 ≡ true)
unfolding cancel abandoning
cancel_live r h = ground arith

-- `cancel` is accepted before the end, and after any further calls of the engine the request is
-- being given up, and has ended or is draining, whatever states the engine names.
pub cancel_drains :
    (r : Request) (os : List Op)
    → All IsEngineOp os
    → Agrees r
    → is_terminal r.state ≡ false
    → let r' = run (cancel r).0 os in
      ((cancel r).1 ≡ Status.ok)
      × (abandoning r' ≡ true)
      × ((is_terminal r'.state ≡ true) ⊎ (r'.state ≡ draining))
unfolding step
cancel_drains r os h v live =
    let told = cancel_live r live in
    let after = run-Agrees (cancel r).0 os h (step-Agrees r cancels tt v) in
    (
      told.0,
      run-abandoning _ os told.2,
      elim (Bool-cases (is_terminal (run (cancel r).0 os).state)) [
        | inl ended ↦ inl ended
        | inr going ↦ inr (after.drains (run-cancel_requested _ os told.1) going)
      ],
    )
