-- ===== src/Engine/Post.antt =====
-- `EngineImpl::post_ops`, `part_done`, `end_abandoned`, `claim` and `publish` of
-- src/core/engine_impl.cpp, for the pieces of work of one request. A transport's `submit` is a
-- function of what it is offered. `part_done` and `end_abandoned` run here without a break; Engine/Ending
-- has them lock by lock.
use hux.Base.{
  ℕ, suc, ◌+◌, ◌==◌, ltb, if◌then◌else◌, Bool, true, false, ◌&&◌, ◌||◌, not, List, [], ◌∷◌, take,
  drop, length,
}
use hux.Types.{Status, is_ok, ErrorInfo, RequestState}
use hux.Request.{
  Request, set_state, add_accepted_subops, part_finished, abandoning, seal_if_idle, note_error,
  fail, finish_cancelled,
}
use hux.Cc.{add64}
use hux.Engine.Chunks.{SubOp}
use hux.Engine.Queues.{Queue, keep_completed_locked}

pub record SubmitResult : Type 0 where
  pub accepted : ℕ
  pub status : Status
  pub provider_errno : ℕ

-- A transport, as the lane of one piece of work holds it.
pub record Transport : Type 0 where
  pub name : List ℕ
  pub submit : List SubOp → SubmitResult

-- The ready handoffs sent, as they went out; `sent` counts those that the transport took.
pub record Handoffs : Type 0 where
  pub payloads : List (List ℕ)
  pub sent : ℕ
  pub failed : ℕ

-- The request, the ids in flight, those queued for `poll_completions`, and the counters.
pub record Core : Type 0 where
  pub req : Request
  pub inflight : List ℕ
  pub completion_queue_depth : ℕ
  pub completed : Queue ℕ
  pub requests_failed : ℕ
  pub requests_cancelled : ℕ
  pub requests_succeeded : ℕ
  pub submit_deferred : ℕ
  pub handoffs : Handoffs

abbrev pub has_id : List ℕ → ℕ → Bool
has_id [] id = false
has_id (x ∷ xs) id = if x == id then true else has_id xs id

-- `inflight_.erase(id)`
abbrev pub erase : List ℕ → ℕ → List ℕ
erase [] id = []
erase (x ∷ xs) id = if x == id then erase xs id else x ∷ erase xs id

-- True for whoever takes the request out of flight.
unfoldable pub claim : Core → Core × Bool
claim c = (record c { inflight = erase c.inflight c.req.id }, has_id c.inflight c.req.id)

unfoldable pub publish : Core → Core
publish c = record c {
  completed = (keep_completed_locked c.completion_queue_depth c.completed c.req.id).0;
}

unfoldable pub end_abandoned : Core → Core
unfolding claim publish
end_abandoned c =
    let (c', mine) = claim c in
    if not mine
    then c'
    else if c'.req.cancel_requested
    then publish (record c' {
      requests_cancelled = c'.requests_cancelled + 1;
      req = finish_cancelled c'.req;
    })
    else publish
        (record c' { requests_failed = c'.requests_failed + 1; req = fail c'.req c'.req.error })

-- Only the last lane to finish decides, and only for a request that cannot succeed.
unfoldable pub part_done : Core → Core
unfolding end_abandoned
part_done c =
    let (r', last) = part_finished c.req in
    let (r'', idle) = seal_if_idle r' in
    if not last || not (abandoning r')
    then record c { req = r' }
    else if idle
    then end_abandoned (record c { req = r'' })
    else record c { req = r'' }

-- How many sub-operations a turn offers: whole ones up to the quantum, and at least one.
unfoldable pub turn_size : ℕ → List SubOp → ℕ → ℕ → ℕ
turn_size max_bytes [] taken bytes = taken
turn_size max_bytes (op ∷ ops) taken bytes =
    if ltb 0 taken && ltb max_bytes (add64 bytes op.length)
    then taken
    else turn_size max_bytes ops (suc taken) (add64 bytes op.length)

abbrev pub would_block : Status → Bool
would_block Status.would_block = true
would_block _ = false

-- A turn: what is left of the work, whether nothing is left to submit, what the transport was
-- offered and what it took, and the engine's state.
pub record Turn : Type 0 where
  pub ops : List SubOp
  pub finished : Bool
  pub offered : List SubOp
  pub taken : List SubOp
  pub core : Core

abbrev pub submit_error : Transport → SubmitResult → Request → ErrorInfo
submit_error t sr r = record {
  status = if is_ok sr.status then Status.transport_error else sr.status;
  provider = t.name;
  peer_id = r.peer;
  provider_errno = sr.provider_errno;
  may_have_modified_target = ltb 0 r.accepted_subops;
  detail = if r.accepted_subops == 0 then "submit rejected" else "partial submit";
}

-- What follows a submission of `slice`, the front of `ops`.
unfoldable pub submitted : Transport → SubmitResult → List SubOp → List SubOp → Core → Turn
unfolding part_done
submitted t sr slice ops c =
    let r = add_accepted_subops (set_state c.req RequestState.inflight) sr.accepted in
    let posted = record c { req = r } in
    let left = drop sr.accepted ops in
    let taken = take sr.accepted slice in
    let given_up = set_state (note_error r (submit_error t sr r)) RequestState.draining in
    if ltb sr.accepted (length slice) && would_block sr.status
    then record {
      ops = left;
      finished = false;
      offered = slice;
      taken = taken;
      core = record posted { submit_deferred = posted.submit_deferred + 1 };
    }
    else if sr.accepted == length slice
    then if not (length left == 0)
      then record { ops = left; finished = false; offered = slice; taken = taken; core = posted }
      else record {
        ops = left;
        finished = true;
        offered = slice;
        taken = taken;
        core = part_done posted;
      }
    else record {
      ops = [];
      finished = true;
      offered = slice;
      taken = taken;
      core = part_done (record c { req = given_up });
    }

unfoldable pub post_ops : ℕ → Transport → List SubOp → Core → Turn
unfolding submitted
post_ops max_bytes t ops c =
    let slice = take (turn_size max_bytes ops 0 0) ops in
    if length ops == 0
    then record { ops = []; finished = true; offered = []; taken = []; core = c }
    else if abandoning c.req
    then record { ops = []; finished = true; offered = []; taken = []; core = part_done c }
    else submitted t (t.submit slice) slice ops c
