-- ===== src/Engine/Notified.antt =====
-- Histories of the notifications of src/core/engine_impl.cpp.
use hux.Base.{
  ℕ, ◌+◌, ◌^◌, ◌≤◌, ◌<◌, length, if-all, Bool, true, false, not, List, [], ◌∷◌, Option, none, inl,
  inr, arith,
}
use hux.Types.{Status, is_ok, ErrorInfo, no_error, Result-cases}
use hux.Control.Message.{decode_u64}
use hux.Engine.Notifying.{
  answered, Notifying, notify, notify_sent, end_notifications, on_notification_ack,
  on_notification_refused, on_notification, poll_notifications, cancel_notification,
  close_notifications, Reply,
}
use hux.Engine.Settled.{
  IsSettled, answered-IsSettled, fail-terminal, success-terminal, notify-IsSettled,
  notify_sent-IsSettled, cancel-IsSettled,
}
use hux.Engine.Settling.{next-end_notifications, end_notifications-IsSettled}

-- What happens to the notifications of one engine.
pub data Event : Type 0 where
  -- A call of `notify`: the peer, whether it is connected, the payload; and what the transport then
  -- answered, with the transport's name and the peer.
  notifies : ℕ → Bool → List ℕ → Event
  sends : ℕ → List ℕ → ℕ → Status → Event
  cancels : ℕ → Event
  -- Messages that arrive, from that peer.
  acks : List ℕ → Event
  refusals : ℕ → List ℕ → Event
  arrivals : ℕ → List ℕ → Bool → Status → Event
  polls : ℕ → Event
  -- `end_notifications`: `progress` with the cancelled ones, a peer that goes or is removed.
  ends_all : ℕ → Bool → ErrorInfo → Event
  closes : Event

pub step : ℕ → ℕ → Notifying → Event → Notifying
step max_payload depth s (notifies peer connected payload) =
    (notify max_payload s peer connected payload).0
step max_payload depth s (sends id provider peer status) = notify_sent s id provider peer status
step max_payload depth s (cancels id) = cancel_notification s id
step max_payload depth s (acks payload) = on_notification_ack s payload
step max_payload depth s (refusals peer payload) = on_notification_refused s peer payload
step max_payload depth s (arrivals peer payload reachable took) =
    (on_notification depth s peer payload reachable took).0
step max_payload depth s (polls n) = (poll_notifications s n).0
step max_payload depth s (ends_all peer only_cancelled e) =
    end_notifications s peer only_cancelled e
step max_payload depth s closes = close_notifications s

pub run : ℕ → ℕ → Notifying → List Event → Notifying
run max_payload depth s [] = s
run max_payload depth s (e ∷ es) = run max_payload depth (step max_payload depth s e) es

abbrev pub quiet : Notifying
quiet = record {
  requests = λ n. none;
  pending = [];
  published = [];
  unsent = [];
  received = record { items = []; dropped = 0 };
  next_notify = 1;
  next_request = 1;
  closed = false;
  notifications_sent = 0;
  notifications_received = 0;
  notification_acks_failed = 0;
}

acks-IsSettled :
    (s : Notifying) (payload : List ℕ) → IsSettled s → IsSettled (on_notification_ack s payload)
unfolding on_notification_ack
acks-IsSettled s payload v = elim (Result-cases (decode_u64 payload)) [
  | inl (id, e) ↦ rw (e, on_notification_ack) (answered-IsSettled s id _ success-terminal v)
  | inr (x, e) ↦ rw (e, on_notification_ack) v
]

refusals-IsSettled :
    (s : Notifying) (peer : ℕ) (payload : List ℕ)
    → IsSettled s
    → IsSettled (on_notification_refused s peer payload)
unfolding on_notification_refused
refusals-IsSettled s peer payload v = elim (Result-cases (decode_u64 payload)) [
  | inl (id, e) ↦ rw (e, on_notification_refused) (answered-IsSettled s id _ (fail-terminal _) v)
  | inr (x, e) ↦ rw (e, on_notification_refused) v
]

arrivals-IsSettled :
    (depth : ℕ) (s : Notifying) (peer : ℕ) (payload : List ℕ) (reachable : Bool) (took : Status)
    → IsSettled s
    → IsSettled (on_notification depth s peer payload reachable took).0
unfolding on_notification
arrivals-IsSettled depth s peer payload reachable took v =
    elim (Result-cases (decode_u64 payload)) [
      | inr (x, e) ↦ rw (e, on_notification) v
      | inl (id, e) ↦
          let P = λ (q : Notifying × Option Reply). IsSettled q.0 in
          rw (e, on_notification)
            (if-all P _ _ _ (if-all P (not reachable) _ _ v (if-all P (is_ok took) _ _ v v))
              (if-all P (not reachable) _ _ v v))
    ]

-- A call takes one number at most.
step-next :
    (max_payload depth : ℕ) (s : Notifying) (e : Event)
    → (step max_payload depth s e).next_notify ≤ s.next_notify + 1
unfolding step poll_notifications close_notifications cancel_notification notify notify_sent
    on_notification_ack on_notification_refused on_notification answered
step-next max_payload depth s (notifies peer connected payload) = ground arith
step-next max_payload depth s (sends id provider peer status) = ground arith
step-next max_payload depth s (cancels id) = ground arith
step-next max_payload depth s (acks payload) = ground arith
step-next max_payload depth s (refusals peer payload) = ground arith
step-next max_payload depth s (arrivals peer payload reachable took) = ground arith
step-next max_payload depth s (polls n) = ground arith
step-next max_payload depth s (ends_all peer only_cancelled e) =
    omega (arith, next-end_notifications s peer only_cancelled e)
step-next max_payload depth s closes =
    omega (arith, next-end_notifications (record s { closed = true }) 0 false no_error)

step-IsSettled :
    (max_payload depth : ℕ) (s : Notifying) (e : Event)
    → s.next_notify + 1 < 2 ^ 64
    → IsSettled s
    → IsSettled (step max_payload depth s e)
unfolding step poll_notifications close_notifications
step-IsSettled max_payload depth s (notifies peer connected payload) small v =
    notify-IsSettled max_payload s peer connected payload small v
step-IsSettled max_payload depth s (sends id provider peer status) small v =
    notify_sent-IsSettled s id provider peer status v
step-IsSettled max_payload depth s (cancels id) small v = cancel-IsSettled s id v
step-IsSettled max_payload depth s (acks payload) small v = acks-IsSettled s payload v
step-IsSettled max_payload depth s (refusals peer payload) small v =
    refusals-IsSettled s peer payload v
step-IsSettled max_payload depth s (arrivals peer payload reachable took) small v =
    arrivals-IsSettled depth s peer payload reachable took v
step-IsSettled max_payload depth s (polls n) small v = v
step-IsSettled max_payload depth s (ends_all peer only_cancelled e) small v =
    end_notifications-IsSettled s peer only_cancelled e v
step-IsSettled max_payload depth s closes small v =
    end_notifications-IsSettled (record s { closed = true }) 0 false no_error v

run_from-IsSettled :
    (max_payload depth : ℕ) (s : Notifying) (es : List Event)
    → s.next_notify + length es < 2 ^ 64
    → IsSettled s
    → IsSettled (run max_payload depth s es)
unfolding run
run_from-IsSettled max_payload depth s [] small v = v
run_from-IsSettled max_payload depth s (e ∷ es) small v =
    run_from-IsSettled max_payload depth (step max_payload depth s e) es
      (omega (arith, step-next max_payload depth s e))
      (step-IsSettled max_payload depth s e (omega arith) v)

-- Whatever is sent, cancelled, acknowledged, refused and polled, and whichever peers go, in
-- whatever order: every notification that `notify` recorded is either waiting, its request not
-- ended, or its request has ended and it was published once or reported once by `notify` itself,
-- and not both; no others wait or were ended. There are fewer than 2^64 - 1 such happenings.
pub run-IsSettled :
    (max_payload depth : ℕ) (es : List Event)
    → length es + 1 < 2 ^ 64
    → IsSettled (run max_payload depth quiet es)
run-IsSettled max_payload depth es small =
    run_from-IsSettled max_payload depth quiet es (omega arith) (λ n. ground arith)
