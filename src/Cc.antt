-- ===== src/Cc.antt =====
-- src/transport/cc/controller.h and controller.cpp: the three congestion controllers. Bytes are
-- uint64s, and a sum that passes 2^64 wraps as in the source; times are nanoseconds.
pub mod FixedWindow
pub mod Off
pub mod Timely
pub mod Budget
mod Tests
use hux.Base.{ℕ, ◌+◌, ◌-◌, ◌%◌, ◌^◌, ltb, if◌then◌else◌, min}

pub data CcDirection : Type 0 where
  write read : CcDirection

pub data CcVerdict : Type 0 where
  allowed over_budget paced : CcVerdict

-- An array indexed by `idx(dir)`.
pub record Both {ℓ} (A : Type ℓ) : Type ℓ where
  pub write_side : A
  pub read_side : A

abbrev pub at {ℓ} : {A : Type ℓ} → Both A → CcDirection → A
at b write = b.write_side
at b read = b.read_side

abbrev pub put {ℓ} : {A : Type ℓ} → Both A → CcDirection → A → Both A
put b write a = record b { write_side = a }
put b read a = record b { read_side = a }

-- `used -= bytes < used ? bytes : used`
abbrev pub release : ℕ → ℕ → ℕ
release used bytes = used - (if ltb bytes used then bytes else used)

-- `used + bytes` in a uint64_t.
abbrev pub add64 : ℕ → ℕ → ℕ
add64 used bytes = (used + bytes) % 2 ^ 64
