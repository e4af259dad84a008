-- ===== src/Control/Message.antt =====
-- src/control/control_message.h and control_message.cpp. A message type is the uint16_t on the
-- wire, which may be any; a null out parameter, which every decoder refuses, has no counterpart.
use hux.Base.{ℕ, ◌+◌, ◌==◌, ltb, if◌then◌else◌, Bool, ◌&&◌, not, List, drop, length, replicate}
use hux.Types.{Status, Result, done, err}
use hux.Control.Bytes.{put_u16, put_u32, put_u64, get_u16, get_u32, get_u64, write_at}
use hux.Control.Identity.{Identity, identity_bytes, encode_identity, decode_identity}

abbrev pub control_major : ℕ
control_major = 1

abbrev pub control_minor : ℕ
control_minor = 1

-- ControlType.
abbrev pub ready_handoff_type : ℕ
ready_handoff_type = 1

abbrev pub notification_type : ℕ
notification_type = 2

abbrev pub region_invalidate_type : ℕ
region_invalidate_type = 3

abbrev pub notification_ack_type : ℕ
notification_ack_type = 4

abbrev pub notification_refused_type : ℕ
notification_refused_type = 5

abbrev pub notification_header_bytes : ℕ
notification_header_bytes = 8

pub record ControlHeader : Type 0 where
  pub major : ℕ
  pub minor : ℕ
  pub type : ℕ
  pub flags : ℕ
  pub payload_len : ℕ

abbrev pub control_header_bytes : ℕ
control_header_bytes = 12

-- 64u << 10
abbrev pub control_max_payload : ℕ
control_max_payload = 65536

-- Writes into the twelve bytes at `out`.
unfoldable pub encode_control_header : ControlHeader → List ℕ → List ℕ
encode_control_header h out = write_at 8 (put_u32 h.payload_len) (
    write_at 6 (put_u16 h.flags) (
      write_at 4 (put_u16 h.type)
        (write_at 2 (put_u16 h.minor) (write_at 0 (put_u16 h.major) out))))

-- Reads the twelve bytes at `bytes`.
unfoldable pub decode_control_header : List ℕ → Result ControlHeader
decode_control_header bytes =
    let h : ControlHeader = record {
      major = get_u16 bytes;
      minor = get_u16 (drop 2 bytes);
      type = get_u16 (drop 4 bytes);
      flags = get_u16 (drop 6 bytes);
      payload_len = get_u32 (drop 8 bytes);
    } in
    if not (h.major == control_major)
    then err Status.unsupported
    else if ltb control_max_payload h.payload_len
    then err Status.invalid_argument
    else done h

unfoldable pub encode_u64 : ℕ → List ℕ
encode_u64 v = write_at 0 (put_u64 v) (replicate 8 0)

unfoldable pub decode_u64 : List ℕ → Result ℕ
decode_u64 bytes =
    if ltb (length bytes) 8 then err Status.invalid_argument else done (get_u64 bytes)

pub record RegionInvalidateBody : Type 0 where
  pub region : ℕ
  pub generation : ℕ
  pub has_origin : Bool
  pub origin : Identity

abbrev pub no_identity : Identity
no_identity = record { host = 0; process = 0; engine = 0 }

abbrev pub region_invalidate_bytes : ℕ
region_invalidate_bytes = 12

abbrev pub region_invalidate_with_origin_bytes : ℕ
region_invalidate_with_origin_bytes = region_invalidate_bytes + identity_bytes

unfoldable pub encode_region_invalidate : RegionInvalidateBody → List ℕ
encode_region_invalidate b =
    let out =
      write_at 8 (put_u32 b.generation)
        (write_at 0 (put_u64 b.region) (replicate region_invalidate_bytes 0)) in
    if b.has_origin then encode_identity b.origin out else out

-- The origin of a body that names one; `decode_identity` cannot refuse there, and is asked anyway.
with_origin : RegionInvalidateBody → Result Identity → Result RegionInvalidateBody
with_origin b (done id) = done (record b { origin = id })
with_origin b (err s) = err Status.invalid_argument

unfoldable pub decode_region_invalidate : List ℕ → Result RegionInvalidateBody
unfolding with_origin
decode_region_invalidate bytes =
    let b : RegionInvalidateBody = record {
      region = get_u64 bytes;
      generation = get_u32 (drop 8 bytes);
      has_origin = not (ltb (length bytes) region_invalidate_with_origin_bytes);
      origin = no_identity;
    } in
    if not (length bytes == region_invalidate_bytes)
      && ltb (length bytes) region_invalidate_with_origin_bytes
    then err Status.invalid_argument
    else if b.has_origin
    then with_origin b (decode_identity bytes region_invalidate_bytes)
    else done b

pub record ReadyHandoffBody : Type 0 where
  pub request : ℕ
  pub region : ℕ
  pub generation : ℕ
  pub offset : ℕ
  pub length : ℕ

abbrev pub ready_handoff_bytes : ℕ
ready_handoff_bytes = 36

unfoldable pub encode_ready_handoff : ReadyHandoffBody → List ℕ
encode_ready_handoff b = write_at 28 (put_u64 b.length) (
    write_at 20 (put_u64 b.offset) (
      write_at 16 (put_u32 b.generation) (
        write_at 8 (put_u64 b.region)
          (write_at 0 (put_u64 b.request) (replicate ready_handoff_bytes 0)))))

unfoldable pub decode_ready_handoff : List ℕ → Result ReadyHandoffBody
decode_ready_handoff bytes =
    if not (length bytes == ready_handoff_bytes)
    then err Status.invalid_argument
    else done (record {
      request = get_u64 bytes;
      region = get_u64 (drop 8 bytes);
      generation = get_u32 (drop 16 bytes);
      offset = get_u64 (drop 20 bytes);
      length = get_u64 (drop 28 bytes);
    })
