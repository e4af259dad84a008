-- ===== src/Request/Tests.antt =====
-- Requests of src/core/request_impl.cpp on concrete histories.
use hux.Base.{◌⊎◌, ◌+◌, true, false, List, [], ◌∷◌, ◌≡◌, refl, arith}
use hux.Types.{
  Status, ErrorInfo, no_error, RequestState, is_terminal, source_reusable, transfer_complete,
  target_ready, failed_safe, cancelled_safe,
}
use hux.Request.{
  Kind, Request, CompletionEvent, new_request, has_stage, has_error, abandoning, outcome, wait,
  cancel, seal_if_idle, add_accepted_subops, finish_success, on_subop_complete, fail,
}
use hux.Request.Steps.{
  Op, sets_state, adds_accepted, completes, cancels, fails, step, run, run-terminal,
}
use hux.Request.Endings.{ending_stages, wait-ok, cancel_drains, Agrees, new_request-Agrees}
use hux.Request.Counting.{told, complete_all, complete_all-once, seal_race_once}

abbrev fresh : Request
fresh = new_request 7 Kind.write 3 1

abbrev done_event : CompletionEvent
done_event = record {
  request = 7;
  sub_id = 0;
  bytes = 4096;
  status = Status.ok;
  provider_errno = 0;
  may_have_modified_target = false;
}

-- A request of three sub-operations of which one was accepted.
abbrev cut_short : Request
cut_short = add_accepted_subops fresh 1

abbrev broken : ErrorInfo
broken = record no_error { status = Status.transport_error }

abbrev ended : Request
ended = finish_success fresh

complete_all-once_example : (complete_all fresh (done_event ∷ done_event ∷ done_event ∷ [])).1 ≡ 1
unfolding new_request
complete_all-once_example =
    complete_all-once fresh (done_event ∷ done_event ∷ done_event ∷ []) refl refl refl (omega arith)
      (omega arith) (omega arith)

-- One was accepted, and its completion comes after the seal.
seal_race_once_example :
    (complete_all cut_short []).1
      + told (seal_if_idle (complete_all cut_short []).0).1
      + (complete_all (seal_if_idle (complete_all cut_short []).0).0 (done_event ∷ [])).1
    ≡ 1
unfolding new_request add_accepted_subops
seal_race_once_example =
    seal_race_once cut_short [] (done_event ∷ []) refl refl refl (omega arith) (omega arith) refl

abbrev failing : List Op
failing = adds_accepted 1 ∷ completes done_event ∷ fails broken ∷ []

ending_stages_example :
    (has_stage (run fresh failing).stages source_reusable ≡ false)
    × (has_stage (run fresh failing).stages failed_safe ≡ true)
    × (has_stage (run fresh failing).stages cancelled_safe ≡ false)
unfolding new_request run step on_subop_complete fail add_accepted_subops
ending_stages_example = ending_stages 7 Kind.write 3 1 failing (tt, (tt, (tt, tt)))

ended-Agrees : Agrees ended
unfolding new_request finish_success
ended-Agrees = ground arith

wait-ok_example :
    (has_stage ended.stages transfer_complete ≡ true)
    × (has_stage ended.stages target_ready ≡ true)
    × (has_stage ended.stages source_reusable ≡ true)
    × (has_error ended ≡ false)
unfolding new_request finish_success wait outcome
wait-ok_example = wait-ok fresh ended ended-Agrees refl (λ h. cc) refl

cancel_drains_example :
    ((cancel fresh).1 ≡ Status.ok)
    × (abandoning (run (cancel fresh).0 (sets_state RequestState.inflight ∷ [])) ≡ true)
    × ((is_terminal (run (cancel fresh).0 (sets_state RequestState.inflight ∷ [])).state ≡ true)
        ⊎ ((run (cancel fresh).0 (sets_state RequestState.inflight ∷ [])).state
            ≡ RequestState.draining))
unfolding new_request
cancel_drains_example =
    cancel_drains fresh (sets_state RequestState.inflight ∷ []) (refl, tt)
      (new_request-Agrees 7 Kind.write 3 1) refl

run-terminal_example :
    ((run ended (fails broken ∷ cancels ∷ [])).state ≡ ended.state)
    × ((run ended (fails broken ∷ cancels ∷ [])).error ≡ ended.error)
    × (outcome (run ended (fails broken ∷ cancels ∷ [])) ≡ outcome ended)
unfolding new_request finish_success
run-terminal_example = run-terminal ended (fails broken ∷ cancels ∷ []) refl
