-- ===== src/Engine/Registered.antt =====
-- The life of registrations in src/core/engine_impl.cpp, over any calls in any order.
use hux.Base.{ℕ, List, [], ◌∷◌, length, arith}
use hux.Engine.Registering.{
  Memory, Settings, register_memory, deregister_memory, release_cached_registrations, drop_handle,
}
use hux.Engine.Handed.{IsCounted, register_memory-IsCounted}
use hux.Engine.Released.{deregister_memory-IsCounted, release-IsCounted, drop_handle-IsCounted}

-- One call, or the last reference to a handle going.
pub data Call : Type 0 where
  registers : ℕ → ℕ → ℕ → Call
  -- With the handles that each request in flight holds.
  deregisters : List (List ℕ) → ℕ → Call
  drops : ℕ → Call
  releases : Call

pub step : Settings → Memory → Call → Memory
step s m (registers start length access) = (register_memory s m start length access).0
step s m (deregisters inflight id) = (deregister_memory inflight m id).0
step s m (drops id) = drop_handle m id
step s m releases = (release_cached_registrations m).0

pub run : Settings → Memory → List Call → Memory
run s m [] = m
run s m (c ∷ cs) = run s (step s m c) cs

-- An engine that has registered nothing.
abbrev pub fresh : Memory
fresh = record {
  cache = [];
  regions = [];
  handles = [];
  made = 0;
  released = [];
  next_region = 1;
  registrations_created = 0;
  registrations_reused = 0;
}

step-IsCounted : (s : Settings) (m : Memory) (c : Call) → IsCounted m → IsCounted (step s m c)
unfolding step
step-IsCounted s m (registers start length access) v =
    register_memory-IsCounted s m start length access v
step-IsCounted s m (deregisters inflight id) v = deregister_memory-IsCounted inflight m id v
step-IsCounted s m (drops id) v = drop_handle-IsCounted m id v
step-IsCounted s m releases v = release-IsCounted m v

run_from-IsCounted :
    (s : Settings) (m : Memory) (cs : List Call) → IsCounted m → IsCounted (run s m cs)
unfolding run
run_from-IsCounted s m [] v = v
run_from-IsCounted s m (c ∷ cs) v = run_from-IsCounted s (step s m c) cs (step-IsCounted s m c v)

-- Whatever memory is registered, taken back, let go of and released from the cache, in whatever
-- order and whatever the transports answer: each registration made has been released once, or is
-- still alive in the cache or under a handle, and never both; none is twice in the cache.
pub run-IsCounted : (s : Settings) (cs : List Call) → IsCounted (run s fresh cs)
run-IsCounted s cs =
    run_from-IsCounted s fresh cs (record { once = λ n. ground arith; cached = λ n. omega arith })
