-- ===== src/Config.antt =====
-- include/hux/config.h, and `EngineConfig::validate` of src/core/strings.cpp.
use Prim.Native.String.{String}
use hux.Base.{
  ℕ, ◌+◌, ◌^◌, ◌≤◌, ◌<◌, ◌==◌, ltb, if◌then◌else◌, Bool, true, false, ◌&&◌, List, ◌≡◌, ◌↔◌, arith,
}
use hux.Types.{Status, DeviceId}
mod Tests

pub data ProgressMode : Type 0 where
  thread explicit : ProgressMode

pub data CongestionControl : Type 0 where
  off fixed_window adaptive : CongestionControl

pub record EngineConfig : Type 0 where
  pub device : DeviceId
  pub progress : ProgressMode
  pub qp_per_peer : ℕ
  pub chunk_bytes : ℕ
  pub wr_batch : ℕ
  pub cq_batch : ℕ
  pub max_inflight_requests : ℕ
  pub scheduler_quantum_bytes : ℕ
  pub registration_cache_entries : ℕ
  pub cc : CongestionControl
  pub cc_window_bytes : ℕ
  pub notify_queue_depth : ℕ
  pub notify_max_payload : ℕ
  pub completion_queue_depth : ℕ
  pub ready_queue_depth : ℕ
  pub preferred_provider : List ℕ

abbrev pub is_fixed_window : CongestionControl → Bool
is_fixed_window fixed_window = true
is_fixed_window _ = false

abbrev fail : String → Status × String
fail why = (Status.invalid_argument, why)

-- The status and the reason, which is empty for a configuration that is accepted.
unfoldable pub validate : EngineConfig → Status × String
validate c =
    if c.qp_per_peer == 0
    then fail "qp_per_peer must be >= 1"
    else if c.chunk_bytes == 0
    then fail "chunk_bytes must be > 0"
    else if ltb 4_294_967_295 c.chunk_bytes
    then fail "chunk_bytes must fit in 32 bits"
    else if c.wr_batch == 0
    then fail "wr_batch must be >= 1"
    else if c.cq_batch == 0
    then fail "cq_batch must be >= 1"
    else if c.max_inflight_requests == 0
    then fail "max_inflight_requests must be >= 1"
    else if c.notify_queue_depth == 0
    then fail "notify_queue_depth must be >= 1"
    else if c.notify_max_payload == 0
    then fail "notify_max_payload must be > 0"
    else if is_fixed_window c.cc && c.cc_window_bytes == 0
    then fail "cc_window_bytes must be > 0 when cc=fixed_window"
    else if is_fixed_window c.cc && ltb c.cc_window_bytes c.chunk_bytes
    then fail "cc_window_bytes < chunk_bytes would stall every request"
    else (Status.ok, "")

-- A configuration that an engine can run.
pub record IsRunnable (c : EngineConfig) : Type 0 where
  pub some_qp : 0 < c.qp_per_peer
  pub some_chunk : 0 < c.chunk_bytes
  pub chunk_fits : c.chunk_bytes < 2 ^ 32
  pub some_batch : (0 < c.wr_batch) × (0 < c.cq_batch)
  pub some_requests : 0 < c.max_inflight_requests
  pub some_notifications : (0 < c.notify_queue_depth) × (0 < c.notify_max_payload)
  pub window : c.cc ≡ fixed_window → c.chunk_bytes ≤ c.cc_window_bytes

-- A configuration is accepted exactly when it is runnable: every count that must be is at least
-- one, the chunk fits 32 bits, and a fixed window holds a chunk.
pub validate-IsRunnable : (c : EngineConfig) → ((validate c).0 ≡ Status.ok) ↔ IsRunnable c
unfolding validate
validate-IsRunnable c = ground arith
