-- ===== src/Config/Tests.antt =====
-- The default configuration of include/hux/config.h.
use hux.Base.{[], ◌≡◌, ◌↔◌}
use hux.Types.{Status}
use hux.Config.{EngineConfig, thread, off, validate, IsRunnable, validate-IsRunnable}

abbrev defaults : EngineConfig
defaults = record {
  device = record { kind = 0; index = 0 };
  progress = thread;
  qp_per_peer = 1;
  chunk_bytes = 1_048_576;
  wr_batch = 16;
  cq_batch = 16;
  max_inflight_requests = 4096;
  scheduler_quantum_bytes = 1_048_576;
  registration_cache_entries = 64;
  cc = off;
  cc_window_bytes = 4_194_304;
  notify_queue_depth = 1024;
  notify_max_payload = 4096;
  completion_queue_depth = 16_384;
  ready_queue_depth = 16_384;
  preferred_provider = [];
}

validate-IsRunnable_example : ((validate defaults).0 ≡ Status.ok) ↔ IsRunnable defaults
validate-IsRunnable_example = validate-IsRunnable defaults
