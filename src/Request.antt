-- ===== src/Request.antt =====
-- src/core/request_impl.h and request_impl.cpp: the state of one request and its transitions.
-- Each method runs under the request's mutex, so a method is one step; the shared pointers a
-- request holds (regions, connections, lanes) carry no behaviour here and stand in the engine.
pub mod Steps
pub mod Endings
pub mod Counting
mod Tests
use hux.Base.{
  ℕ, suc, ◌+◌, ◌-◌, ◌%◌, ◌^◌, ◌==◌, ltb, leb, if◌then◌else◌, Bool, true, false, ◌&&◌, ◌||◌, not,
  List, [], ◌∷◌, ◌++◌, Option, none, some,
}
use hux.Types.{
  Status, is_ok, ErrorInfo, no_error, Stage, accepted, source_reusable, transfer_complete,
  target_ready, failed_safe, cancelled_safe, RequestState, queued, draining, succeeded, failed,
  cancelled, is_terminal, Span,
}

pub data Kind : Type 0 where
  read write : Kind

-- `CompletionEvent` of src/transport/provider.h.
pub record CompletionEvent : Type 0 where
  pub request : ℕ
  pub sub_id : ℕ
  pub bytes : ℕ
  pub status : Status
  pub provider_errno : ℕ
  pub may_have_modified_target : Bool

-- `stages_`, one bit per Stage.
pub record Stages : Type 0 where
  pub accepted_bit : Bool
  pub source_reusable_bit : Bool
  pub transfer_complete_bit : Bool
  pub target_ready_bit : Bool
  pub failed_safe_bit : Bool
  pub cancelled_safe_bit : Bool

-- `(stages_ & stage_bit(s)) != 0`
abbrev pub has_stage : Stages → Stage → Bool
has_stage b accepted = b.accepted_bit
has_stage b source_reusable = b.source_reusable_bit
has_stage b transfer_complete = b.transfer_complete_bit
has_stage b target_ready = b.target_ready_bit
has_stage b failed_safe = b.failed_safe_bit
has_stage b cancelled_safe = b.cancelled_safe_bit

-- `stages_ |= stage_bit(s)`
abbrev pub add_stage : Stages → Stage → Stages
add_stage b accepted = record b { accepted_bit = true }
add_stage b source_reusable = record b { source_reusable_bit = true }
add_stage b transfer_complete = record b { transfer_complete_bit = true }
add_stage b target_ready = record b { target_ready_bit = true }
add_stage b failed_safe = record b { failed_safe_bit = true }
add_stage b cancelled_safe = record b { cancelled_safe_bit = true }

pub record RemoteTarget : Type 0 where
  pub region : ℕ
  pub generation : ℕ
  pub span : Span

pub record Request : Type 0 where
  pub id : ℕ
  pub kind : Kind
  pub total_subops : ℕ
  pub state : RequestState
  pub completed_subops : ℕ
  pub accepted_subops : ℕ
  pub sealed : Bool
  pub parts_left : ℕ
  pub cancel_requested : Bool
  pub stages : Stages
  pub error : ErrorInfo
  pub peer : ℕ
  pub remote_targets : List RemoteTarget

-- The constructor, and `set_peer`.
unfoldable pub new_request : ℕ → Kind → ℕ → ℕ → Request
new_request id kind total peer = record {
  id = id;
  kind = kind;
  total_subops = total;
  state = queued;
  completed_subops = 0;
  accepted_subops = 0;
  sealed = false;
  parts_left = 0;
  cancel_requested = false;
  stages = record {
    accepted_bit = true;
    source_reusable_bit = false;
    transfer_complete_bit = false;
    target_ready_bit = false;
    failed_safe_bit = false;
    cancelled_safe_bit = false;
  };
  error = no_error;
  peer = peer;
  remote_targets = [];
}

abbrev pub has_error : Request → Bool
has_error r = not (is_ok r.error.status)

-- The first error sticks.
abbrev record_error : Request → ErrorInfo → Request
record_error r e = if is_ok e.status || has_error r then r else record r { error = e }

unfoldable pub set_state : Request → RequestState → Request
set_state r s = if is_terminal r.state || r.cancel_requested then r else record r { state = s }

unfoldable pub mark_stage : Request → Stage → Request
mark_stage r s = record r { stages = add_stage r.stages s }

unfoldable pub add_accepted_subops : Request → ℕ → Request
add_accepted_subops r n = record r { accepted_subops = (r.accepted_subops + n) % 2 ^ 32 }

unfoldable pub seal_accepted : Request → Request
seal_accepted r = record r { sealed = true }

unfoldable pub set_parts : Request → ℕ → Request
set_parts r n = record r { parts_left = n }

-- True when this was the last lane with work to post.
unfoldable pub part_finished : Request → Request × Bool
part_finished r =
    let r' = (if ltb 0 r.parts_left then record r { parts_left = r.parts_left - 1 } else r) in
    (r', r'.parts_left == 0)

unfoldable pub abandoning : Request → Bool
abandoning r = is_terminal r.state || (r.cancel_requested || has_error r)

-- True when nothing of it is outstanding, so that the caller has to end it.
unfoldable pub seal_if_idle : Request → Request × Bool
seal_if_idle r = (
  record r { sealed = true },
  not (is_terminal r.state) && leb r.accepted_subops r.completed_subops,
)

-- What the completed count is measured against.
abbrev pub expected : Request → ℕ
expected r = if r.sealed then r.accepted_subops else r.total_subops

abbrev event_error : CompletionEvent → ErrorInfo
event_error ev = record no_error {
  status = ev.status;
  provider_errno = ev.provider_errno;
  may_have_modified_target = ev.may_have_modified_target;
}

-- True when this was the last outstanding sub-operation.
unfoldable pub on_subop_complete : Request → CompletionEvent → Request × Bool
on_subop_complete r ev =
    let noted = (if is_ok ev.status then r else record_error r (event_error ev)) in
    let r' = record noted { completed_subops = (noted.completed_subops + 1) % 2 ^ 32 } in
    if is_terminal r.state then (r, false) else (r', leb (expected r') r'.completed_subops)

-- What `wait` returns for a request that has ended.
unfoldable pub outcome : Request → Status
outcome r = elim r.state [
  | cancelled ↦ Status.cancelled
  | failed ↦ if has_error r then r.error.status else Status.internal
  | _ ↦ if has_error r then r.error.status else Status.ok
]

-- `wait`: the request when the call begins, and as the condition variable hands it back once it
-- has ended, or `none` when the time ran out first.
unfoldable pub wait : Request → Option Request → Status
wait r later =
    if is_terminal r.state
    then outcome r
    else elim later [ none ↦ Status.timeout | some r' ↦ outcome r' ]

unfoldable pub cancel : Request → Request × Status
cancel r = elim r.state [
  | succeeded ↦ (r, Status.invalid_argument)
  | failed ↦ (r, Status.ok)
  | cancelled ↦ (r, Status.ok)
  | _ ↦ (record r { cancel_requested = true; state = draining }, Status.ok)
]

unfoldable pub note_error : Request → ErrorInfo → Request
note_error r e = if is_terminal r.state then r else record_error r e

unfoldable pub fail : Request → ErrorInfo → Request
fail r e =
    let noted = record_error r e in
    if is_terminal r.state
    then r
    else record noted { stages = add_stage noted.stages failed_safe; state = failed }

unfoldable pub finish_success : Request → Request
finish_success r = if is_terminal r.state then r else record r {
  stages =
      add_stage (add_stage (add_stage r.stages transfer_complete) target_ready) source_reusable;
  state = succeeded;
}

unfoldable pub finish_cancelled : Request → Request
finish_cancelled r =
    if is_terminal r.state
    then r
    else record r { stages = add_stage r.stages cancelled_safe; state = cancelled }

-- kOk once the request has reached the stage, and otherwise why not.
unfoldable pub reached_or : Request → Stage → Status
reached_or r s = if has_stage r.stages s then Status.ok else elim r.state [
  | cancelled ↦ Status.cancelled
  | failed ↦ if has_error r then r.error.status else Status.internal
  | succeeded ↦ if has_error r then r.error.status else Status.internal
  | _ ↦ Status.would_block
]

-- `stream` and `device` say whether the pointers are set; `visible` is what the device backend's
-- `make_visible` answers.
unfoldable pub wait_on : Request → Bool → Bool → Status → Status
wait_on r stream device visible =
    if not stream
    then Status.invalid_argument
    else if not device
    then Status.unsupported
    else if is_ok (reached_or r target_ready)
    then visible
    else reached_or r target_ready

unfoldable pub wait_source_reusable_on : Request → Bool → Bool → Status
wait_source_reusable_on r stream device =
    if not stream then Status.invalid_argument else elim r.kind [
      | read ↦ Status.invalid_argument
      | write ↦ if not device then Status.unsupported else reached_or r source_reusable
    ]

-- `add_remote_target`: a range that follows on in the same region joins the last one.
unfoldable pub add_target : List RemoteTarget → RemoteTarget → List RemoteTarget
add_target [] t = t ∷ []
add_target (last ∷ []) t =
    if last.region == t.region
      && (last.generation == t.generation
          && (last.span.offset + last.span.length) % 2 ^ 64 == t.span.offset)
    then record last {
      span = record {
        offset = last.span.offset;
        length = (last.span.length + t.span.length) % 2 ^ 64;
      };
    }
      ∷ []
    else last ∷ t ∷ []
add_target (a ∷ b ∷ rest) t = a ∷ add_target (b ∷ rest) t

unfoldable pub add_remote_target : Request → RemoteTarget → Request
unfolding add_target
add_remote_target r t = record r { remote_targets = add_target r.remote_targets t }
