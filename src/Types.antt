-- ===== src/Types.antt =====
-- include/hux/status.h, types.h, request.h, and `is_terminal` of src/core/strings.cpp: the
-- enumerations and small structs that every part shares.
use Prim.Native.String.{String}
use hux.Base.{
  ℕ, ◌-◌, ◌≤◌, ◌+◌, ◌==◌, leb, Bool, true, false, ◌&&◌, not, List, [], bit_and, ◌≡◌, refl, arith,
  ◌↔◌, ◌⊎◌, inl, inr,
}

pub data Status : Type 0 where
  ok would_block timeout cancelled unsupported invalid_argument out_of_range not_found : Status
  stale_generation peer_disconnected resource_exhausted device_error transport_error : Status
  internal : Status

-- `inline bool ok(Status)`.
abbrev pub is_ok : Status → Bool
is_ok Status.ok = true
is_ok _ = false

-- A call with an out parameter: `done` is kOk with what was written there, `err` any other status.
pub data Result {ℓ} (A : Type ℓ) : Type ℓ where
  done : A → Result A
  err : Status → Result A

pub Result-cases {ℓ} :
    {A : Type ℓ} (r : Result A) → ((a : A) × (r ≡ done a)) ⊎ ((s : Status) × (r ≡ err s))
Result-cases (done a) = inl (a, refl)
Result-cases (err s) = inr (s, refl)

-- A name or a blob of bytes; `provider_errno` is the bit pattern of its int32_t.
pub record ErrorInfo : Type 0 where
  pub status : Status
  pub provider : List ℕ
  pub peer_id : ℕ
  pub provider_errno : ℕ
  pub may_have_modified_target : Bool
  pub detail : String

-- A default-constructed ErrorInfo, which says kOk.
abbrev pub no_error : ErrorInfo
no_error = record {
  status = Status.ok;
  provider = [];
  peer_id = 0;
  provider_errno = 0;
  may_have_modified_target = false;
  detail = "";
}

pub data Stage : Type 0 where
  accepted source_reusable transfer_complete target_ready failed_safe cancelled_safe : Stage

pub data RequestState : Type 0 where
  queued wait_dependency inflight wait_target_ready wait_notify_ack draining : RequestState
  succeeded failed cancelled : RequestState

abbrev pub is_terminal : RequestState → Bool
is_terminal RequestState.succeeded = true
is_terminal RequestState.failed = true
is_terminal RequestState.cancelled = true
is_terminal _ = false

pub data MemoryKind : Type 0 where
  host_pageable host_pinned device : MemoryKind

-- `kind` is the byte of the DeviceKind and `index` the bit pattern of its int32_t: a descriptor
-- off the wire may hold any.
pub record DeviceId : Type 0 where
  pub kind : ℕ
  pub index : ℕ

abbrev pub eq_device : DeviceId → DeviceId → Bool
eq_device a b = a.kind == b.kind && a.index == b.index

-- The bits of AccessFlags.
abbrev pub access_none : ℕ
access_none = 0

abbrev pub local_read : ℕ
local_read = 1

abbrev pub local_write : ℕ
local_write = 2

abbrev pub remote_read : ℕ
remote_read = 4

abbrev pub remote_write : ℕ
remote_write = 8

abbrev pub has_flag : ℕ → ℕ → Bool
has_flag set bit = not (bit_and set bit == 0)

pub record Span : Type 0 where
  pub offset : ℕ
  pub length : ℕ

-- `Span::within`: compared before adding.
abbrev pub within : Span → ℕ → Bool
within s total = leb s.offset total && leb s.length (total - s.offset)

-- On plain numbers the test says that the span ends inside.
pub within_iff : (s : Span) (total : ℕ) → (within s total ≡ true) ↔ (s.offset + s.length ≤ total)
within_iff s total = ground arith

pub Status-discrete : Discrete Status
Status-discrete = hlevel

pub RequestState-discrete : Discrete RequestState
RequestState-discrete = hlevel
