-- ===== src/Engine/Exchange.antt =====
-- A notification between two engines of src/core/engine_impl.cpp: sent by one, queued or refused by
-- the other, and its request ended by the answer.
use hux.Base.{
  ℕ, ◌<◌, ◌^◌, ltb, if◌then◌else◌, Bool, true, false, List, [], ◌∷◌, ◌++◌, length, drop, Option,
  none, some, Bool-cases, inl, inr, ◌≡◌, refl, sym, ap, ◌∙◌, arith, append-nil, ==_iff,
}
use hux.Types.{Status, done, is_terminal, transfer_complete}
use hux.Request.{Request, outcome, has_error, mark_stage, finish_success, fail}
use hux.Control.Bytes.{put_u64}
use hux.Control.Message.{encode_u64, decode_u64}
use hux.Control.RoundTrip.{decode_u64-encode}
use hux.Engine.Post.{has_id}
use hux.Engine.Queues.{keep_ready_locked}
use hux.Engine.Notifying.{
  Notifying, Reply, ack, refusal, notification_body, on_notification, on_notification_ack,
  on_notification_refused, answered, queue_full,
}

-- What the sender does with the reply, if one comes.
unfoldable pub hears : Notifying → ℕ → Option Reply → Notifying
hears s peer none = s
hears s peer (some (ack payload)) = on_notification_ack s payload
hears s peer (some (refusal payload)) = on_notification_refused s peer payload

abbrev pub ended_as : Option Request → Option Status
ended_as none = none
ended_as (some r) = if is_terminal r.state then some (outcome r) else none

decode_whole : (id : ℕ) → id < 2 ^ 64 → decode_u64 (encode_u64 id) ≡ done id
decode_whole id fits =
    ap decode_u64 (sym (append-nil (encode_u64 id))) ∙ decode_u64-encode id [] fits

decode_body :
    (id : ℕ) (payload : List ℕ) → id < 2 ^ 64 → decode_u64 (notification_body id payload) ≡ done id
unfolding notification_body
decode_body id payload fits = decode_u64-encode id payload fits

drop-body : (id : ℕ) (payload : List ℕ) → drop 8 (notification_body id payload) ≡ payload
unfolding notification_body encode_u64 put_u64
drop-body id payload = refl

answered-request :
    (s : Notifying) (id : ℕ) (f : Request → Request) (q : Request)
    → has_id s.pending id ≡ true
    → s.requests id ≡ some q
    → (answered s id f).requests id ≡ some (f q)
unfolding answered
answered-request s id f q waits known = rw (waits, (==_iff id id).1 refl, known, answered) refl

ack-outcome :
    (q : Request)
    → is_terminal q.state ≡ false
    → has_error q ≡ false
    → ended_as (some (finish_success (mark_stage q transfer_complete))) ≡ some Status.ok
unfolding finish_success mark_stage outcome
ack-outcome q live clean = ground arith

refusal-outcome :
    (q : Request) (to : ℕ)
    → is_terminal q.state ≡ false
    → has_error q ≡ false
    → ended_as (some (fail q (queue_full to))) ≡ some Status.resource_exhausted
unfolding fail outcome
refusal-outcome q to live clean = ground arith

-- What the receiver does with a body that arrives.
arrived :
    (depth : ℕ) (r : Notifying) (id from : ℕ) (payload : List ℕ) (took : Status)
    → id < 2 ^ 64
    → let (r', reply) = on_notification depth r from (notification_body id payload) true took in
      let room = ltb (length r.received.items) depth in
      (r'.received.items ≡ (
        if room
        then r.received.items ++ (record { peer = from; id = id; payload = payload } ∷ [])
        else r.received.items))
      × (reply ≡ some (if room then ack (encode_u64 id) else refusal (encode_u64 id)))
unfolding on_notification keep_ready_locked
arrived depth r id from payload took fits =
    rw (decode_body id payload fits, drop-body id payload, on_notification)
      (elim (Bool-cases (ltb (length r.received.items) depth)) [
        | inl room ↦ rw (room, keep_ready_locked) (ground arith)
        | inr full ↦ rw (full, keep_ready_locked) (ground arith)
      ])

heard :
    (s : Notifying) (q : Request) (id to : ℕ) (room : Bool)
    → id < 2 ^ 64
    → s.requests id ≡ some q
    → is_terminal q.state ≡ false
    → has_error q ≡ false
    → has_id s.pending id ≡ true
    → ended_as (
        (hears s to (some (if room then ack (encode_u64 id) else refusal (encode_u64 id)))).requests
          id)
      ≡ some (if room then Status.ok else Status.resource_exhausted)
unfolding hears on_notification_ack on_notification_refused
heard s q id to true fits known live clean waits =
    rw (decode_whole id fits, on_notification_ack)
      (ap ended_as (answered-request s id _ q waits known) ∙ ack-outcome q live clean)
heard s q id to false fits known live clean waits =
    rw (decode_whole id fits, on_notification_refused)
      (ap ended_as (answered-request s id _ q waits known) ∙ refusal-outcome q to live clean)

-- A notification that arrives is queued as it was sent if the receiver's queue has room, and
-- dropped if not, and the sender's request, once it hears the reply, ends with kOk exactly in the
-- first case and with kResourceExhausted in the other. The notification has its own number, below
-- 2^64, is still waiting and has no error, and its message has a connection.
pub on_notification-answer :
    (depth : ℕ) (s r : Notifying) (q : Request) (id from to : ℕ) (payload : List ℕ) (took : Status)
    → id < 2 ^ 64
    → s.requests id ≡ some q
    → is_terminal q.state ≡ false
    → has_error q ≡ false
    → has_id s.pending id ≡ true
    → let (r', reply) = on_notification depth r from (notification_body id payload) true took in
      let room = ltb (length r.received.items) depth in
      (r'.received.items ≡ (
        if room
        then r.received.items ++ (record { peer = from; id = id; payload = payload } ∷ [])
        else r.received.items))
      × (ended_as ((hears s to reply).requests id)
          ≡ some (if room then Status.ok else Status.resource_exhausted))
on_notification-answer depth s r q id from to payload took fits known live clean waits =
    let there = arrived depth r id from payload took fits in
    let room = ltb (length r.received.items) depth in
    (
      there.0,
      ap (λ (reply : Option Reply). ended_as ((hears s to reply).requests id)) there.1
          ∙ heard s q id to room fits known live clean waits,
    )
