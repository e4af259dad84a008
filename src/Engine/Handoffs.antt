-- ===== src/Engine/Handoffs.antt =====
-- What `progress` of src/core/engine_impl.cpp does with a ready handoff and with the arrivals that a
-- transport reports, and a handoff from the write to the consumer.
use hux.Base.{
  ℕ, ◌+◌, ◌≤◌, ◌<◌, ltb, if◌then◌else◌, true, List, [], ◌∷◌, ◌++◌, map, length, Option, none, some,
  ◌≡◌, refl, sym, ap, ◌∙◌, arith, append_assoc, append-nil, length-append, if-all, All, leb,
  Option-cases, inl, inr,
}
use hux.Types.{Status, is_ok, done, err, Span, within}
use hux.Request.{RemoteTarget}
use hux.Control.Message.{ReadyHandoffBody, encode_ready_handoff, decode_ready_handoff}
use hux.Control.RoundTrip.{IsHandoff, decode_ready_handoff-encode}
use hux.Engine.Chunks.{Regions}
use hux.Engine.Post.{Handoffs}
use hux.Engine.Queues.{Queue, keep_ready_locked}
use hux.Engine.Ending.{send_handoffs}

-- `ReadyEventImpl`, less the device; `addr` is none for a null pointer.
pub record ReadyEvent : Type 0 where
  pub request : ℕ
  pub peer : ℕ
  pub addr : Option ℕ
  pub bytes : ℕ
  pub region : ℕ
  pub generation : ℕ
  pub span : Span

-- `ready_events_` and `ready_handoffs_received`.
pub record Ready : Type 0 where
  pub events : Queue ReadyEvent
  pub received : ℕ

-- Where the bytes are, if this engine holds the region and they are inside it.
abbrev pub address_of : Regions → ReadyHandoffBody → Option ℕ
address_of regions b = elim (regions.find_region b.region) [
  | none ↦ none
  | some lr ↦
      if within (record { offset = b.offset; length = b.length }) lr.length
      then some (lr.base + b.offset)
      else none
]

abbrev pub event_of : Regions → ℕ → ReadyHandoffBody → ReadyEvent
event_of regions peer b = record {
  request = b.request;
  peer = peer;
  addr = address_of regions b;
  bytes = b.length;
  region = b.region;
  generation = b.generation;
  span = record { offset = b.offset; length = b.length };
}

unfoldable pub on_ready_handoff : Regions → ℕ → Ready → ℕ → List ℕ → Ready
on_ready_handoff regions depth s peer payload = elim (decode_ready_handoff payload) [
  | err e ↦ s
  | done b ↦ record {
    events = (keep_ready_locked depth s.events (event_of regions peer b)).0;
    received = s.received + 1;
  }
]

-- Arrivals: the token and the peer that each names.
unfoldable pub on_arrivals : ℕ → Ready → List (ℕ × ℕ) → Ready
on_arrivals depth s [] = s
on_arrivals depth s ((token, from) ∷ more) =
    on_arrivals depth
      (record s {
        events =
            (keep_ready_locked depth s.events (record {
              request = token;
              peer = from;
              addr = none;
              bytes = 0;
              region = 0;
              generation = 0;
              span = record { offset = 0; length = 0 };
            })).0;
      })
      more

-- The messages of one peer, in order.
unfoldable pub hear_all : Regions → ℕ → Ready → ℕ → List (List ℕ) → Ready
unfolding on_ready_handoff
hear_all regions depth s peer [] = s
hear_all regions depth s peer (m ∷ ms) =
    hear_all regions depth (on_ready_handoff regions depth s peer m) peer ms

abbrev pub body_of : ℕ → RemoteTarget → ReadyHandoffBody
body_of id t = record {
  request = id;
  region = t.region;
  generation = t.generation;
  offset = t.span.offset;
  length = t.span.length;
}

-- What the peer is to make of a range written: on plain numbers, where it is in a region that the
-- peer holds and that it ends inside.
abbrev pub expected : Regions → ℕ → ℕ → RemoteTarget → ReadyEvent
expected regions peer id t = record {
  request = id;
  peer = peer;
  addr = elim (regions.find_region t.region) [
    | none ↦ none
    | some lr ↦
        if leb (t.span.offset + t.span.length) lr.length
        then some (lr.base + t.span.offset)
        else none
  ];
  bytes = t.span.length;
  region = t.region;
  generation = t.generation;
  span = t.span;
}

address-expected :
    (regions : Regions) (peer id : ℕ) (t : RemoteTarget)
    → address_of regions (body_of id t) ≡ (expected regions peer id t).addr
address-expected regions peer id t = elim (Option-cases (regions.find_region t.region)) [
  | inl absent ↦ rw (absent, address_of) refl
  | inr (lr, held) ↦ rw held (ground arith)
]

event-expected :
    (regions : Regions) (peer id : ℕ) (t : RemoteTarget)
    → event_of regions peer (body_of id t) ≡ expected regions peer id t
event-expected regions peer id t =
    ap (λ (x : Option ℕ). record (event_of regions peer (body_of id t)) { addr = x })
      (address-expected regions peer id t)

abbrev pub messages_of : ℕ → List RemoteTarget → List (List ℕ)
messages_of id ts = map (λ (t : RemoteTarget). encode_ready_handoff (body_of id t)) ts

send_handoffs-messages :
    (send : List ℕ → Status) (id : ℕ) (ts : List RemoteTarget) (h : Handoffs)
    → (send_handoffs send id ts h).payloads ≡ h.payloads ++ messages_of id ts
unfolding send_handoffs
send_handoffs-messages send id [] h = sym (append-nil h.payloads)
send_handoffs-messages send id (t ∷ ts) h =
    let m = encode_ready_handoff (body_of id t) in
    let more : Handoffs = record h { payloads = h.payloads ++ (m ∷ []) } in
    let h' : Handoffs =
      (if is_ok (send m)
        then record more { sent = more.sent + 1 }
        else record more { failed = more.failed + 1 }) in
    let kept : h'.payloads ≡ h.payloads ++ (m ∷ []) =
      if-all (λ (x : Handoffs). x.payloads ≡ h.payloads ++ (m ∷ [])) (is_ok (send m)) _ _ refl
        refl in
    send_handoffs-messages send id ts h'
    ∙ ap (λ (l : List (List ℕ)). l ++ messages_of id ts) kept
    ∙ append_assoc h.payloads (m ∷ []) (messages_of id ts)

one_heard :
    (regions : Regions) (depth : ℕ) (s : Ready) (peer : ℕ) (b : ReadyHandoffBody)
    → IsHandoff b
    → length s.events.items < depth
    → (on_ready_handoff regions depth s peer (encode_ready_handoff b)).events.items
      ≡ s.events.items ++ (event_of regions peer b ∷ [])
unfolding on_ready_handoff keep_ready_locked
one_heard regions depth s peer b fits room =
    let has_room : ltb (length s.events.items) depth ≡ true = ground arith in
    rw (decode_ready_handoff-encode b fits, on_ready_handoff)
      (rw (has_room, keep_ready_locked) refl)

all_heard :
    (regions : Regions) (depth : ℕ) (s : Ready) (peer id : ℕ) (ts : List RemoteTarget)
    → All (λ (t : RemoteTarget). IsHandoff (body_of id t)) ts
    → length s.events.items + length ts ≤ depth
    → (hear_all regions depth s peer (messages_of id ts)).events.items
      ≡ s.events.items ++ map (expected regions peer id) ts
unfolding hear_all
all_heard regions depth s peer id [] fits room = sym (append-nil s.events.items)
all_heard regions depth s peer id (t ∷ ts) (here, rest) room =
    let b = body_of id t in
    let s' = on_ready_handoff regions depth s peer (encode_ready_handoff b) in
    let one =
      one_heard regions depth s peer b here (omega arith)
      ∙ ap (λ (e : ReadyEvent). s.events.items ++ (e ∷ [])) (event-expected regions peer id t) in
    let grown : length s'.events.items ≡ length s.events.items + 1 =
      ap (λ (l : List ReadyEvent). length l) one
      ∙ length-append s.events.items (expected regions peer id t ∷ []) in
    all_heard regions depth s' peer id ts rest (omega (arith, grown))
    ∙ ap (λ (l : List ReadyEvent). l ++ map (expected regions peer id) ts) one
    ∙ append_assoc s.events.items (expected regions peer id t ∷ []) _

-- The handoffs that a completed write sends, when they come to the peer and its queue has room for
-- them, are one ready event for each range written, in order: the request, the range, and its
-- address in the peer's memory, or none if the peer does not hold the region or the range ends
-- outside it. The numbers of each handoff fit their fields.
pub send_handoffs-heard :
    (send : List ℕ → Status) (id peer depth : ℕ) (ts : List RemoteTarget) (h : Handoffs)
    (regions : Regions) (s : Ready)
    → h.payloads ≡ []
    → All (λ (t : RemoteTarget). IsHandoff (body_of id t)) ts
    → length s.events.items + length ts ≤ depth
    → (hear_all regions depth s peer (send_handoffs send id ts h).payloads).events.items
      ≡ s.events.items ++ map (expected regions peer id) ts
send_handoffs-heard send id peer depth ts h regions s none_yet fits room =
    ap (λ (l : List (List ℕ)). (hear_all regions depth s peer l).events.items)
      (send_handoffs-messages send id ts h
        ∙ ap (λ (l : List (List ℕ)). l ++ messages_of id ts) none_yet)
    ∙ all_heard regions depth s peer id ts fits room
