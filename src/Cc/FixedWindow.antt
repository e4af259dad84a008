-- ===== src/Cc/FixedWindow.antt =====
-- `FixedWindowController` of src/transport/cc/controller.cpp.
use hux.Base.{ℕ, ◌==◌, ltb, leb, if◌then◌else◌, ◌&&◌}
use hux.Cc.{CcDirection, CcVerdict, allowed, over_budget, Both, at, put, release, add64}

pub record FixedWindowController : Type 0 where
  pub window : ℕ
  pub inflight : Both ℕ
  pub samples : Both ℕ
  pub last_rtt : Both ℕ

unfoldable pub make_cc_fixed_window : ℕ → FixedWindowController
make_cc_fixed_window window = record {
  window = window;
  inflight = record { write_side = 0; read_side = 0 };
  samples = record { write_side = 0; read_side = 0 };
  last_rtt = record { write_side = 0; read_side = 0 };
}

-- An operation larger than the whole window goes out alone.
unfoldable pub allow : FixedWindowController → CcDirection → ℕ → CcVerdict
allow c dir bytes =
    let used = at c.inflight dir in
    if leb (add64 used bytes) c.window
    then allowed
    else if ltb c.window bytes && used == 0
    then allowed
    else over_budget

unfoldable pub on_post : FixedWindowController → CcDirection → ℕ → FixedWindowController
on_post c dir bytes = record c { inflight = put c.inflight dir (add64 (at c.inflight dir) bytes) }

unfoldable pub on_feedback : FixedWindowController → CcDirection → ℕ → ℕ → FixedWindowController
on_feedback c dir bytes rtt = record c {
  inflight = put c.inflight dir (release (at c.inflight dir) bytes);
  samples = put c.samples dir (add64 (at c.samples dir) 1);
  last_rtt = put c.last_rtt dir rtt;
}

unfoldable pub on_error : FixedWindowController → CcDirection → ℕ → FixedWindowController
on_error c dir bytes = record c {
  inflight = put c.inflight dir (release (at c.inflight dir) bytes);
}
