-- ===== src/Engine/Scenarios.antt =====
-- Registration, notifications, scheduling and submission in src/core/engine_impl.cpp on concrete
-- calls.
use hux.Base.{
  inl, inr, ℕ, ◌≡◌, ◌⊎◌, ◌≤◌, length, true, false, List, [], ◌∷◌, ◌++◌, map, none, some, All, refl,
  arith, ltb, if◌then◌else◌,
}
use hux.Types.{Status, MemoryKind}
use hux.Request.{Kind, Request, RemoteTarget, new_request}
use hux.Region.Registration.{RegionView}
use hux.Engine.Chunks.{
  write, build_subops, admit, chunk_limit, build_loop, split, place_chunk, push_at, cheapest,
}
use hux.Region.Registration.{local_key_for, remote_key_for}
use hux.Engine.Tests.{
  counts, rdma, exporter, host, handle, there, regions, lane, view_of, built, busy, core, work,
  busy-IsWilling, exporter-IsIdentity,
}
use hux.Engine.Registering.{
  Owned, Registrar, Settings, Memory, times, register_memory, cache_registration, hand_out,
  keep_owned, register_new, register_all, find_registration, evict,
}
use hux.Control.RoundTrip.{IsHandoff}
use hux.Engine.Post.{Handoffs}
use hux.Engine.Ending.{send_handoffs}
use hux.Engine.Handoffs.{Ready, body_of, expected, hear_all, send_handoffs-heard}
use hux.Engine.Registered
use hux.Engine.Evicting.{held_with, cache_registration-bounded}
use hux.Engine.Handed.{IsCounted}
use hux.Engine.Served.{IsServed, register_memory-covers}
use hux.Engine.Invalidating.{
  Remote, on_region_invalidate, invalidate_notice, taken_back, on_region_invalidate-notice,
}
use hux.Engine.Notifying.{Notifying, notification_body, on_notification}
use hux.Engine.Settled.{IsSettled}
use hux.Engine.Notified
use hux.Engine.Exchange.{hears, ended_as, on_notification-answer}
use hux.Engine.Scheduling.{
  dependency_state, dependency_loop, Piece, Answers, events_of, Scheduler, drain_pending,
}
use hux.Engine.Draining.{IsReady, passes, passes-finish}
use hux.Engine.Waiting.{taken_of, drain-held}
use hux.Engine.Submitting.{Options, Submitter, prepared, prepare, submit_vector, PeerState}
use hux.Engine.Admitted.{Left, submit_vector-Left}
use hux.Engine.Counted

abbrev adapter : Registrar
adapter = record {
  name = rdma;
  register_region =
      λ start length device access. record { status = Status.ok; local_key = 11; remote_key = 12 };
}

abbrev settings : Settings
settings = record {
  device = host;
  registration_cache_entries = 1;
  backend = none;
  providers = adapter ∷ [];
  identity = exporter;
  generation = 1;
}

-- A registration is made, used again, and dropped; another pushes it out of the cache.
abbrev registrations : List Registered.Call
registrations =
    Registered.registers 4096 4096 15
    ∷ Registered.registers 4096 64 15
    ∷ Registered.deregisters [] 1
    ∷ Registered.drops 1
    ∷ Registered.deregisters [] 2
    ∷ Registered.drops 2
    ∷ Registered.registers 16384 64 15
    ∷ Registered.releases
    ∷ []

run-IsCounted_example : IsCounted (Registered.run settings Registered.fresh registrations)
run-IsCounted_example = Registered.run-IsCounted settings registrations

abbrev owned : ℕ → Owned
owned n = record { number = n; registration = handle.registration }

abbrev cached : Memory
cached = record Registered.fresh {
  cache = owned 0 ∷ owned 1 ∷ [];
  handles = record { memory = handle; owner = owned 1 } ∷ [];
  made = 2;
}

cache_registration-bounded_example :
    let m' = cache_registration 2 cached (owned 2) in
    ((length m'.cache ≤ 2)
      ⊎ All (λ (x : Owned). held_with cached (owned 2) x.number ≡ true) m'.cache)
    × ((n : ℕ)
        → held_with cached (owned 2) n ≡ true
        → times n m'.cache ≡ times n (cached.cache ++ (owned 2 ∷ [])))
cache_registration-bounded_example = cache_registration-bounded 2 cached (owned 2)

abbrev registered : Registered.Call
registered = Registered.registers 4096 4096 15

register_memory-covers_example :
    IsServed settings Registered.fresh 4096 4096 15
      (record handle { id = 1; memory = MemoryKind.host_pageable })
register_memory-covers_example =
    register_memory-covers settings Registered.fresh 4096 4096 15
      (record handle { id = 1; memory = MemoryKind.host_pageable }) (omega arith)
      (unfold register_memory register_new register_all hand_out keep_owned cache_registration evict
          find_registration in
        refl)

abbrev remotes : List Remote
remotes =
    record { peer = 1; region = 4; import = there }
    ∷ record { peer = 1; region = 5; import = there }
    ∷ []

on_region_invalidate-notice_example :
    on_region_invalidate 2 (invalidate_notice handle) remotes ≡ map (taken_back handle) remotes
on_region_invalidate-notice_example =
    on_region_invalidate-notice handle 2 remotes (omega arith) (omega arith) exporter-IsIdentity

abbrev notices : List Notified.Event
notices =
    Notified.notifies 1 true (1 ∷ 2 ∷ [])
    ∷ Notified.notifies 2 true (3 ∷ [])
    ∷ Notified.sends 1 rdma 1 Status.ok
    ∷ Notified.sends 2 rdma 2 Status.would_block
    ∷ Notified.acks (1 ∷ 0 ∷ 0 ∷ 0 ∷ 0 ∷ 0 ∷ 0 ∷ 0 ∷ [])
    ∷ Notified.acks (1 ∷ 0 ∷ 0 ∷ 0 ∷ 0 ∷ 0 ∷ 0 ∷ 0 ∷ [])
    ∷ Notified.cancels 1
    ∷ Notified.closes
    ∷ []

run-IsSettled_example : IsSettled (Notified.run 4096 8 Notified.quiet notices)
run-IsSettled_example = Notified.run-IsSettled 4096 8 notices (omega arith)

abbrev asking : Request
asking = new_request 3 Kind.write 0 2

abbrev asker : Notifying
asker = record Notified.quiet { requests = λ n. some asking; pending = 5 ∷ []; next_notify = 6 }

on_notification-answer_example :
    let (r', reply) =
      on_notification 1 Notified.quiet 1 (notification_body 5 (9 ∷ [])) true Status.ok in
    let room = ltb (length Notified.quiet.received.items) 1 in
    (r'.received.items ≡ (
      if room
      then Notified.quiet.received.items ++ (record { peer = 1; id = 5; payload = 9 ∷ [] } ∷ [])
      else Notified.quiet.received.items))
    × (ended_as ((hears asker 2 reply).requests 5)
        ≡ some (if room then Status.ok else Status.resource_exhausted))
unfolding new_request
on_notification-answer_example =
    on_notification-answer 1 asker Notified.quiet asking 5 1 2 (9 ∷ []) Status.ok (omega arith) refl
      refl refl refl

abbrev complete : Answers
complete = record {
  lane = λ p. busy;
  event = λ n. some (record { recorded = true; query = Status.ok; complete = true });
}

dependency_loop-complete :
    (after : List ℕ) → dependency_loop Status.ok (events_of complete after) ≡ Status.ok
unfolding dependency_loop
dependency_loop-complete [] = refl
dependency_loop-complete (x ∷ after) = dependency_loop-complete after

complete-IsReady : IsReady complete
unfolding dependency_state
complete-IsReady = record {
  willing = λ p. busy-IsWilling;
  met = λ after. rw (dependency_loop-complete after);
}

abbrev piece : Piece
piece = record { request = 7; ops = work; lane = 0; after = 1 ∷ [] }

abbrev scheduler : Scheduler
scheduler = record {
  world = record { requests = λ n. core.req; engine = core };
  pending = piece ∷ record piece { request = 8 } ∷ [];
  rr_cursor = 1;
}

passes-finish_example : (passes 64 (complete ∷ complete ∷ complete ∷ []) scheduler).pending ≡ []
passes-finish_example =
    passes-finish 64 (complete ∷ complete ∷ complete ∷ []) scheduler 2
      (complete-IsReady, (complete-IsReady, (complete-IsReady, tt)))
      (omega arith, (omega arith, tt)) (omega arith)

abbrev unfinished : Answers
unfinished = record complete {
  event = λ n. some (record { recorded = true; query = Status.ok; complete = false });
}

drain-held_example :
    taken_of 7 (drain_pending 64 unfinished scheduler).world ≡ taken_of 7 scheduler.world
drain-held_example =
    drain-held 64 unfinished scheduler 7
      (λ same. inl (inr (inr refl)), (λ same. inl (inr (inr refl)), tt))

abbrev options : Options
options = record { after = 1 ∷ []; notify = false; ready_handoff = false }

abbrev submitter : Submitter
submitter = record {
  scheduler = scheduler;
  closed = false;
  next_request = 7;
  requests_accepted = 0;
  requests_would_block = 0;
  peak_inflight_requests = 0;
}

abbrev peer : PeerState counts 1
peer = record { id = 3; connected = true; lanes = lane ∷ lane ∷ [] }

abbrev views : List RegionView
views = view_of ∷ []

submit_vector-Left_example :
    Left 8 submitter
      (submit_vector counts 1 8 64 64 complete regions submitter peer write views views options)
submit_vector-Left_example =
    submit_vector-Left counts 1 8 64 64 complete regions submitter peer write views views options

prepare-IsCounted_example :
    Counted.IsCounted submitter options (prepared regions write options 7 3 views built)
prepare-IsCounted_example =
    Counted.prepare-IsCounted counts 1 8 64 complete regions submitter peer write views views
      options (prepared regions write options 7 3 views built)
      (unfold prepare dependency_state dependency_loop build_subops admit chunk_limit build_loop
          split place_chunk push_at cheapest local_key_for remote_key_for in
        refl)

-- The second range reaches past the region.
abbrev written : List RemoteTarget
written =
    record { region = 4; generation = 1; span = record { offset = 64; length = 128 } }
    ∷ record { region = 4; generation = 1; span = record { offset = 4090; length = 128 } }
    ∷ []

abbrev handoffs : Handoffs
handoffs = record { payloads = []; sent = 0; failed = 0 }

abbrev ready : Ready
ready = record { events = record { items = []; dropped = 0 }; received = 0 }

written-IsHandoff : All (λ (t : RemoteTarget). IsHandoff (body_of 7 t)) written
written-IsHandoff = (
  record {
    request_fits = omega arith;
    region_fits = omega arith;
    generation_fits = omega arith;
    offset_fits = omega arith;
    length_fits = omega arith;
  },
  (
    record {
      request_fits = omega arith;
      region_fits = omega arith;
      generation_fits = omega arith;
      offset_fits = omega arith;
      length_fits = omega arith;
    },
    tt,
  ),
)

send_handoffs-heard_example :
    (hear_all regions 8 ready 1
      (send_handoffs (λ m. Status.ok) 7 written handoffs).payloads).events.items
    ≡ [] ++ map (expected regions 1 7) written
send_handoffs-heard_example =
    send_handoffs-heard (λ m. Status.ok) 7 1 8 written handoffs regions ready refl written-IsHandoff
      (omega arith)
