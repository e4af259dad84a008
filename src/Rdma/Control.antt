-- ===== src/Rdma/Control.antt =====
-- The control channel of src/transport/rdma/rdma_provider.cpp: `send_control`, `broadcast_control`
-- and `poll_control`. What the socket answers to each `recv` is a list given from outside.
use hux.Base.{
  ℕ, zero, suc, ◌+◌, ltb, if◌then◌else◌, Bool, true, false, not, List, [], ◌∷◌, ◌++◌, take, drop,
  length, replicate,
}
use hux.Types.{Status, is_ok, done, err}
use hux.Control.Message.{
  ControlHeader, control_major, control_minor, control_header_bytes, control_max_payload,
  encode_control_header, decode_control_header,
}
use hux.Outbox.{Outbox, Socket, post}

pub record Message : Type 0 where
  pub type : ℕ
  pub payload : List ℕ

-- The header that `send_control` fills in.
abbrev pub header_of : Message → ControlHeader
header_of m = record {
  major = control_major;
  minor = control_minor;
  type = m.type;
  flags = 0;
  payload_len = length m.payload;
}

-- One buffer, so that nothing can come between a header and its payload.
unfoldable pub frame : Message → List ℕ
frame m = encode_control_header (header_of m) (replicate 12 0) ++ m.payload

-- One connection's control channel: `rx` is the partial message carried between polls.
pub record Channel : Type 0 where
  pub open_fd : Bool
  pub outbox : Outbox
  pub rx : List ℕ
  pub peer_closed : Bool

abbrev pub is_disconnected : Status → Bool
is_disconnected Status.peer_disconnected = true
is_disconnected _ = false

-- `s` is the socket as `post` finds it.
unfoldable pub send_control : Channel → Message → Socket → Channel × Status
send_control c m s =
    let o = post (frame m) c.outbox s in
    let sent = record c { outbox = o.outbox } in
    if ltb control_max_payload (length m.payload)
    then (c, Status.invalid_argument)
    else if not c.open_fd
    then (c, Status.peer_disconnected)
    else if is_disconnected o.status
    then (record sent { peer_closed = true }, o.status)
    else (sent, o.status)

-- Each live connection with its socket; the counts of those that took it and that refused it.
unfoldable pub broadcast_control : List (Channel × Socket) → Message → List Channel × ℕ × ℕ
broadcast_control [] m = ([], 0, 0)
broadcast_control ((c, s) ∷ cs) m =
    let (c', status) = send_control c m s in
    let (rest, sent, refused) = broadcast_control cs m in
    if c.peer_closed
    then (c ∷ rest, sent, refused)
    else if is_ok status
    then (c' ∷ rest, sent + 1, refused)
    else (c' ∷ rest, sent, refused + 1)

-- What one `recv` into the buffer of 4096 bytes answers. `again` is EAGAIN or EWOULDBLOCK, `broken`
-- any other error than EINTR.
pub data Recv : Type 0 where
  bytes : List ℕ → Recv
  end_of_file interrupted again broken : Recv

-- The reading loop: what was read, and whether the peer is found gone. A short read ends it, and so
-- does a list that ends.
unfoldable pub read_loop : List Recv → List ℕ × Bool
read_loop [] = ([], false)
read_loop (bytes b ∷ rs) =
    let (more, gone) = read_loop rs in if ltb (length b) 4096 then (b, false) else (b ++ more, gone)
read_loop (end_of_file ∷ rs) = ([], true)
read_loop (interrupted ∷ rs) = read_loop rs
read_loop (again ∷ rs) = ([], false)
read_loop (broken ∷ rs) = ([], true)

-- The parsing loop, with room for `n` messages more: what is handed out, and what stays in `rx`.
unfoldable pub take_messages : ℕ → List ℕ → List Message × List ℕ
take_messages zero rx = ([], rx)
take_messages (suc n) rx =
    if ltb (length rx) control_header_bytes then ([], rx) else elim (decode_control_header rx) [
      | err e ↦ ([], [])
      | done h ↦
          let total = control_header_bytes + h.payload_len in
          let (more, left) = take_messages n (drop total rx) in
          if ltb (length rx) total then ([], rx) else (
            record { type = h.type; payload = take h.payload_len (drop control_header_bytes rx) }
                ∷ more,
            left,
          )
    ]

-- One connection's part of `poll_control`: `flushed` is the outbox after `flush` and what that
-- returned.
unfoldable pub poll_channel : ℕ → Channel → Outbox × Status → List Recv → Channel × List Message
unfolding read_loop take_messages
poll_channel n c (flushed, status) answers =
    let (arrived, gone) = read_loop answers in
    let (out, left) = take_messages n (c.rx ++ arrived) in
    if not c.open_fd then (c, []) else (
      record c {
        outbox = flushed;
        rx = left;
        peer_closed = if c.peer_closed then true else if is_disconnected status then true else gone;
      },
      out,
    )
