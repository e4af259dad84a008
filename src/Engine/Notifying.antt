-- ===== src/Engine/Notifying.antt =====
-- Notifications in src/core/engine_impl.cpp: `notify`, `take_notification`, `end_notifications`,
-- `poll_notifications`, and what `progress` does with a notification, its acknowledgement and its
-- refusal. A request is the object that its shared pointers share; the number of its notification
-- names it in a table of all of them, and `notify_pending_` is the list of those recorded.
use hux.Base.{
  ℕ, ◌+◌, ◌%◌, ◌^◌, ◌==◌, ltb, if◌then◌else◌, Bool, true, false, ◌||◌, not, List, [], ◌∷◌, ◌++◌,
  length, drop, Option, none, some,
}
use hux.Types.{
  Status, is_ok, Result, done, err, ErrorInfo, no_error, RequestState, transfer_complete,
}
use hux.Request.{
  Kind, Request, new_request, set_state, mark_stage, finish_success, finish_cancelled, fail, cancel,
}
use hux.Control.Message.{encode_u64, decode_u64}
use hux.Engine.Post.{has_id}
use hux.Engine.Queues.{Queue, keep_ready_locked, poll}

-- The fields that the engine fills in.
pub record Notification : Type 0 where
  pub peer : ℕ
  pub id : ℕ
  pub payload : List ℕ

pub record Notifying : Type 0 where
  pub requests : ℕ → Option Request
  -- `notify_pending_`
  pub pending : List ℕ
  -- The notifications whose request was published, in order; the completion queue, Engine/Queues,
  -- takes them from there.
  pub published : List ℕ
  -- Those that could not be sent, which `notify` itself reports.
  pub unsent : List ℕ
  -- `notifications_`, and how many were dropped.
  pub received : Queue Notification
  pub next_notify : ℕ
  pub next_request : ℕ
  pub closed : Bool
  pub notifications_sent : ℕ
  pub notifications_received : ℕ
  pub notification_acks_failed : ℕ

abbrev pub change : (ℕ → Option Request) → ℕ → (Request → Request) → ℕ → Option Request
change table id f n =
    if n == id then elim (table n) [ none ↦ none | some r ↦ some (f r) ] else table n

-- `notify_pending_.erase(id)`; a key stands in a map once.
abbrev pub remove : ℕ → List ℕ → List ℕ
remove id [] = []
remove id (x ∷ xs) = if x == id then xs else x ∷ remove id xs

-- The first half of `notify`, up to the request recorded. Its two tests of `closed_` are one here,
-- since this is one step.
unfoldable pub notify : ℕ → Notifying → ℕ → Bool → List ℕ → Notifying × Result ℕ
notify max_payload s peer connected payload =
    let id = s.next_notify in
    let r = set_state (new_request s.next_request Kind.write 0 peer) RequestState.wait_notify_ack in
    if ltb max_payload (length payload)
    then (s, err Status.invalid_argument)
    else if s.closed
    then (s, err Status.invalid_argument)
    else if not connected
    then (s, err Status.peer_disconnected)
    else (
      record s {
        next_notify = (id + 1) % 2 ^ 64;
        next_request = (s.next_request + 1) % 2 ^ 64;
        requests = λ n. if n == id then some r else s.requests n;
        pending = id ∷ s.pending;
      },
      done id,
    )

-- What is sent.
unfoldable pub notification_body : ℕ → List ℕ → List ℕ
notification_body id payload = encode_u64 id ++ payload

abbrev pub send_failed : List ℕ → ℕ → Status → ErrorInfo
send_failed provider peer s = record no_error {
  status = s;
  provider = provider;
  peer_id = peer;
  detail = "control send failed";
}

-- The second half: what the transport answered. The request fails unless something ended it since.
unfoldable pub notify_sent : Notifying → ℕ → List ℕ → ℕ → Status → Notifying
notify_sent s id provider peer status =
    if is_ok status
    then record s { notifications_sent = s.notifications_sent + 1 }
    else if has_id s.pending id
    then record s {
      pending = remove id s.pending;
      unsent = s.unsent ++ (id ∷ []);
      requests = change s.requests id (λ r. fail r (send_failed provider peer status));
    }
    else s

-- Whether `end_notifications` takes the entry out.
abbrev pub matches : ℕ → Bool → Option Request → Bool
matches peer only_cancelled none = false
matches peer only_cancelled (some r) =
    if only_cancelled then r.cancel_requested else peer == 0 || r.peer == peer

abbrev pub ended_with : ErrorInfo → Request → Request
ended_with e r = if is_ok e.status || r.cancel_requested then finish_cancelled r else fail r e

-- The ids for which the test is `want`.
abbrev pub pick : (ℕ → Bool) → Bool → List ℕ → List ℕ
pick test want [] = []
pick test want (x ∷ xs) =
    let rest = pick test want xs in
    if (if want then test x else not (test x)) then x ∷ rest else rest

unfoldable pub end_each : ErrorInfo → Notifying → List ℕ → Notifying
end_each e s [] = s
end_each e s (id ∷ ids) =
    end_each e
      (record s {
        requests = change s.requests id (ended_with e);
        published = s.published ++ (id ∷ []);
      })
      ids

unfoldable pub end_notifications : Notifying → ℕ → Bool → ErrorInfo → Notifying
unfolding end_each
end_notifications s peer only_cancelled e =
    let test = λ (id : ℕ). matches peer only_cancelled (s.requests id) in
    end_each e (record s { pending = pick test false s.pending }) (pick test true s.pending)

-- The end of a notification whose answer came, if nothing ended it before.
unfoldable pub answered : Notifying → ℕ → (Request → Request) → Notifying
answered s id f =
    if has_id s.pending id
    then record s {
      pending = remove id s.pending;
      requests = change s.requests id f;
      published = s.published ++ (id ∷ []);
    }
    else s

unfoldable pub on_notification_ack : Notifying → List ℕ → Notifying
unfolding answered
on_notification_ack s payload = elim (decode_u64 payload) [
  | err e ↦ s
  | done id ↦ answered s id (λ r. finish_success (mark_stage r transfer_complete))
]

abbrev pub queue_full : ℕ → ErrorInfo
queue_full peer = record no_error {
  status = Status.resource_exhausted;
  peer_id = peer;
  detail = "the peer's notification queue was full";
}

unfoldable pub on_notification_refused : Notifying → ℕ → List ℕ → Notifying
unfolding answered
on_notification_refused s peer payload = elim (decode_u64 payload) [
  | err e ↦ s
  | done id ↦ answered s id (λ r. fail r (queue_full peer))
]

-- What goes back over the connection that a notification came on.
pub data Reply : Type 0 where
  ack refusal : List ℕ → Reply

-- `reachable` says that the message has a connection, and `took` what sending an acknowledgement
-- over it answers.
unfoldable pub on_notification :
    ℕ → Notifying → ℕ → List ℕ → Bool → Status → Notifying × Option Reply
on_notification depth s peer payload reachable took = elim (decode_u64 payload) [
  | err e ↦ (s, none)
  | done id ↦
      let n : Notification = record { peer = peer; id = id; payload = drop 8 payload } in
      let (q, queued) = keep_ready_locked depth s.received n in
      let kept = record s { received = q; notifications_received = s.notifications_received + 1 } in
      if queued
      then if not reachable
        then (kept, none)
        else if is_ok took
        then (kept, some (ack (encode_u64 id)))
        else (
          record kept { notification_acks_failed = kept.notification_acks_failed + 1 },
          some (ack (encode_u64 id)),
        )
      else if not reachable
      then (record s { received = q }, none)
      else (record s { received = q }, some (refusal (encode_u64 id)))
]

unfoldable pub poll_notifications : Notifying → ℕ → Notifying × List Notification
unfolding poll
poll_notifications s max_items =
    let (q, out) = poll max_items s.received in (record s { received = q }, out)

-- The caller cancels the request that `notify` gave it.
unfoldable pub cancel_notification : Notifying → ℕ → Notifying
cancel_notification s id = record s { requests = change s.requests id (λ r. (cancel r).0) }

-- `close`, once nothing is in flight.
unfoldable pub close_notifications : Notifying → Notifying
unfolding end_notifications
close_notifications s = end_notifications (record s { closed = true }) 0 false no_error
