-- ===== src/Request/Steps.antt =====
-- Histories of one request: the methods of src/core/request_impl.cpp that change it, in any order.
use hux.Base.{ℕ, true, not, List, [], ◌∷◌, ◌≡◌, refl, ap, ◌∙◌, arith}
use hux.Types.{is_ok, ErrorInfo, Stage, RequestState, is_terminal}
use hux.Request.{
  Request, CompletionEvent, has_stage, has_error, set_state, mark_stage, add_accepted_subops,
  seal_accepted, set_parts, part_finished, abandoning, seal_if_idle, on_subop_complete, outcome,
  cancel, note_error, fail, finish_success, finish_cancelled,
}

pub data Op : Type 0 where
  sets_state : RequestState → Op
  marks_stage : Stage → Op
  adds_accepted : ℕ → Op
  seals : Op
  sets_parts : ℕ → Op
  finishes_part : Op
  seals_if_idle : Op
  completes : CompletionEvent → Op
  cancels : Op
  notes_error : ErrorInfo → Op
  fails : ErrorInfo → Op
  succeeds : Op
  ends_cancelled : Op

unfoldable pub step : Request → Op → Request
unfolding set_state mark_stage add_accepted_subops seal_accepted set_parts part_finished
    seal_if_idle on_subop_complete cancel note_error fail finish_success finish_cancelled
step r (sets_state s) = set_state r s
step r (marks_stage s) = mark_stage r s
step r (adds_accepted n) = add_accepted_subops r n
step r seals = seal_accepted r
step r (sets_parts n) = set_parts r n
step r finishes_part = (part_finished r).0
step r seals_if_idle = (seal_if_idle r).0
step r (completes ev) = (on_subop_complete r ev).0
step r cancels = (cancel r).0
step r (notes_error e) = note_error r e
step r (fails e) = fail r e
step r succeeds = finish_success r
step r ends_cancelled = finish_cancelled r

unfoldable pub run : Request → List Op → Request
run r [] = r
run r (o ∷ os) = run (step r o) os

step-terminal :
    (r : Request) (o : Op)
    → is_terminal r.state ≡ true
    → ((step r o).state ≡ r.state) × ((step r o).error ≡ r.error)
unfolding step
step-terminal r (sets_state s) h = ground arith
step-terminal r _ h = ground arith

outcome-eq : (r s : Request) → s.state ≡ r.state → s.error ≡ r.error → outcome s ≡ outcome r
unfolding outcome
outcome-eq r s p q = ground arith

-- Once ended, a request keeps its state, its error and what a wait on it answers, whatever is
-- called afterwards.
pub run-terminal :
    (r : Request) (os : List Op)
    → is_terminal r.state ≡ true
    → ((run r os).state ≡ r.state) × ((run r os).error ≡ r.error) × (outcome (run r os) ≡ outcome r)
unfolding run
run-terminal r [] h = (refl, refl, refl)
run-terminal r (o ∷ os) h =
    let kept = step-terminal r o h in
    let rest = run-terminal (step r o) os (ap is_terminal kept.0 ∙ h) in
    (rest.0 ∙ kept.0, rest.1 ∙ kept.1, rest.2 ∙ outcome-eq r (step r o) kept.0 kept.1)

step-error : (r : Request) (o : Op) → has_error r ≡ true → (step r o).error ≡ r.error
unfolding step
step-error r (sets_state s) h = ground arith
step-error r _ h = ground arith

-- The first error sticks: a request that has one keeps it, whatever is called afterwards.
run-error : (r : Request) (os : List Op) → has_error r ≡ true → (run r os).error ≡ r.error
unfolding run
run-error r [] h = refl
run-error r (o ∷ os) h =
    run-error (step r o) os (ap (λ e. not (is_ok e.status)) (step-error r o h) ∙ h)
    ∙ step-error r o h

pub on_subop_complete-stages :
    (r : Request) (ev : CompletionEvent) → (on_subop_complete r ev).0.stages ≡ r.stages
unfolding on_subop_complete
on_subop_complete-stages r ev = ground arith

step-stage :
    (r : Request) (o : Op) (s : Stage)
    → has_stage r.stages s ≡ true
    → has_stage (step r o).stages s ≡ true
unfolding step
step-stage r (completes ev) s h = rw (on_subop_complete-stages r ev) h
step-stage r _ s h = ground arith

-- A stage once reached stays reached, whatever is called afterwards.
run-stage :
    (r : Request) (os : List Op) (s : Stage)
    → has_stage r.stages s ≡ true
    → has_stage (run r os).stages s ≡ true
unfolding run
run-stage r [] s h = h
run-stage r (o ∷ os) s h = run-stage (step r o) os s (step-stage r o s h)

step-abandoning : (r : Request) (o : Op) → abandoning r ≡ true → abandoning (step r o) ≡ true
unfolding step abandoning
step-abandoning r (sets_state s) h = ground arith
step-abandoning r _ h = ground arith

-- A request that is being given up stays so, whatever is called afterwards.
pub run-abandoning :
    (r : Request) (os : List Op) → abandoning r ≡ true → abandoning (run r os) ≡ true
unfolding run
run-abandoning r [] h = h
run-abandoning r (o ∷ os) h = run-abandoning (step r o) os (step-abandoning r o h)
