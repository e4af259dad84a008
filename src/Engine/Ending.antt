-- ===== src/Engine/Ending.antt =====
-- The ways in which src/core/engine_impl.cpp ends a request that transports carry, lock by lock:
-- `part_done` with `end_abandoned`, the loop over completions in `progress`, and
-- `reap_departed_peers`. The two stages that a completed request marks are one step, and so are its
-- handoffs, and the error that a failed one ends with is read in the step that ends it.
use hux.Base.{
  ℕ, ◌+◌, ◌==◌, if◌then◌else◌, Bool, true, false, ◌&&◌, not, List, [], ◌∷◌, ◌++◌, Option, none,
  some,
}
use hux.Types.{Status, is_ok, ErrorInfo, no_error, Stage}
use hux.Control.Message.{encode_ready_handoff}
use hux.Request.{
  Kind, Request, CompletionEvent, RemoteTarget, mark_stage, on_subop_complete, seal_accepted, fail,
  finish_success, finish_cancelled, part_finished, abandoning, seal_if_idle,
}
use hux.Engine.Post.{Core, claim, publish, Handoffs, has_id, erase}

abbrev is_read : Kind → Bool
is_read Kind.read = true
is_read _ = false

abbrev is_write : Kind → Bool
is_write Kind.write = true
is_write _ = false

-- One handoff per range written, by what the transport answers to each.
unfoldable pub send_handoffs : (List ℕ → Status) → ℕ → List RemoteTarget → Handoffs → Handoffs
send_handoffs send id [] h = h
send_handoffs send id (t ∷ ts) h =
    let payload = encode_ready_handoff (record {
      request = id;
      region = t.region;
      generation = t.generation;
      offset = t.span.offset;
      length = t.span.length;
    }) in
    let more : Handoffs = record h { payloads = h.payloads ++ (payload ∷ []) } in
    send_handoffs send id ts (
      if is_ok (send payload)
      then record more { sent = more.sent + 1 }
      else record more { failed = more.failed + 1 })

abbrev pub hand_over : Option (List ℕ → Status) → Request → Handoffs → Handoffs
hand_over none r h = h
hand_over (some send) r h = send_handoffs send r.id r.remote_targets h

-- The stages that a request's last completion lets it claim.
unfoldable pub mark_complete : Bool → Request → Request
mark_complete has_device r =
    let r' = mark_stage r Stage.transfer_complete in
    if has_device && is_read r.kind then mark_stage r' Stage.target_ready else r'

abbrev pub departed : List ℕ → Request → ErrorInfo
departed provider r = record no_error {
  status = Status.peer_disconnected;
  provider = provider;
  peer_id = r.peer;
  may_have_modified_target = is_write r.kind;
  detail = "peer disconnected while the request was in flight";
}

-- How a request is ended: `gone` with the transport of a peer that departed.
pub data Outcome : Type 0 where
  cancelled failed succeeded : Outcome
  gone : List ℕ → Outcome

unfoldable pub count_as : Outcome → Core → Core
count_as cancelled c = record c { requests_cancelled = c.requests_cancelled + 1 }
count_as succeeded c = record c { requests_succeeded = c.requests_succeeded + 1 }
count_as _ c = record c { requests_failed = c.requests_failed + 1 }

unfoldable pub finish_as : Outcome → Request → Request
finish_as cancelled r = finish_cancelled r
finish_as failed r = fail r r.error
finish_as succeeded r = finish_success r
finish_as (gone provider) r = fail r (departed provider r)

-- A thread that is about to take one of the locks under which the engine ends the request, named by
-- what it does next; other threads run before it does. The first five are in `part_done` and
-- `end_abandoned`, the next five in `progress`, and `seals_stranded` in `reap_departed_peers`; the
-- last three are where all of them end it.
pub data Thread : Type 0 where
  finishes_part checks_abandoning seals_if_idle claims_abandoned decides_abandoned : Thread
  counts_event : CompletionEvent → Thread
  claims_completed decides_completed marks_complete hands_over : Thread
  seals_stranded : List ℕ → Thread
  counts finishes : Outcome → Thread
  publishes : Thread

abbrev pub go_on : Bool → Thread → Option Thread
go_on true t = some t
go_on false t = none

-- What a thread does under its next lock, and where it is after that, unless it returns: first the
-- clauses of `part_done` and `end_abandoned`, then those of the loop in `progress`, that of
-- `reap_departed_peers`, and those in which all of them end. `send` is the request's connection, if it
-- has one.
unfoldable pub advance : Option (List ℕ → Status) → Bool → Core → Thread → Core × Option Thread
unfolding claim publish
advance send has_device c finishes_part =
    let (r, last) = part_finished c.req in (record c { req = r }, go_on last checks_abandoning)
advance send has_device c checks_abandoning = (c, go_on (abandoning c.req) seals_if_idle)
advance send has_device c seals_if_idle =
    let (r, idle) = seal_if_idle c.req in (record c { req = r }, go_on idle claims_abandoned)
advance send has_device c claims_abandoned =
    let (c', mine) = claim c in (c', go_on mine decides_abandoned)
advance send has_device c decides_abandoned =
    (c, some (counts (if c.req.cancel_requested then cancelled else failed)))
advance send has_device c (counts_event ev) =
    let (r, last) = on_subop_complete c.req ev in
    (record c { req = r }, go_on last claims_completed)
advance send has_device c claims_completed =
    let (c', mine) = claim c in (c', go_on mine decides_completed)
advance send has_device c decides_completed = (
  c,
  some (
      if c.req.cancel_requested
      then counts cancelled
      else if not (is_ok c.req.error.status)
      then counts failed
      else marks_complete),
)
advance send has_device c marks_complete =
    (record c { req = mark_complete has_device c.req }, some hands_over)
advance send has_device c hands_over =
    (record c { handoffs = hand_over send c.req c.handoffs }, some (counts succeeded))
advance send has_device c (seals_stranded provider) =
    (record c { req = seal_accepted c.req }, some (counts (gone provider)))
advance send has_device c (counts o) = (count_as o c, some (finishes o))
advance send has_device c (finishes o) = (record c { req = finish_as o c.req }, some publishes)
advance send has_device c publishes = (publish c, none)

-- `progress` looks a completion's request up, and goes on only if it is in flight.
unfoldable pub look_up : Core → CompletionEvent → Option Thread
look_up c ev = go_on (has_id c.inflight c.req.id) (counts_event ev)

-- The peer with that id is gone: its request is taken out of flight.
unfoldable pub strand : List ℕ → ℕ → Core → Core × Option Thread
strand provider peer c =
    if has_id c.inflight c.req.id && c.req.peer == peer
    then (record c { inflight = erase c.inflight c.req.id }, some (seals_stranded provider))
    else (c, none)
