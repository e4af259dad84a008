-- ===== src/Cc/Off.antt =====
-- `OffController` of src/transport/cc/controller.cpp: no limit, and the bytes counted. Each counter
-- is one atomic, and the loop of `release` is its exchange retried until no other thread is between.
use hux.Base.{ℕ, ◌-◌, ◌==◌, ltb, if◌then◌else◌}
use hux.Cc.{CcDirection, CcVerdict, allowed, Both, at, put, add64}

pub record OffController : Type 0 where
  pub inflight : Both ℕ

unfoldable pub make_cc_off : OffController
make_cc_off = record { inflight = record { write_side = 0; read_side = 0 } }

abbrev pub off_allow : OffController → CcDirection → ℕ → CcVerdict
off_allow c dir bytes = allowed

unfoldable pub off_on_post : OffController → CcDirection → ℕ → OffController
off_on_post c dir bytes = record c {
  inflight = put c.inflight dir (add64 (at c.inflight dir) bytes);
}

-- `release`, which `on_feedback` and `on_error` both are.
unfoldable pub off_release : OffController → CcDirection → ℕ → OffController
off_release c dir bytes =
    let cur = at c.inflight dir in
    let dec = (if ltb bytes cur then bytes else cur) in
    if dec == 0 then c else record c { inflight = put c.inflight dir (cur - dec) }
