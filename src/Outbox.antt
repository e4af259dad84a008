-- ===== src/Outbox.antt =====
-- src/transport/control_outbox.h and control_outbox.cpp: the sending half of a control channel.
-- The socket is not under src/: what each `::send` answers is a list of replies given from outside,
-- and when the list ends the socket is full. `send` takes one byte at least and no more than it was
-- offered, or fails. `bytes_` counts bytes held in memory and does not wrap; its subtractions are
-- exact wherever the queue is well formed (Outbox/Stream).
pub mod Stream
pub mod Posting
pub mod History
mod Tests
use hux.Base.{
  ℕ, zero, suc, ◌+◌, ◌-◌, ◌==◌, ltb, min, if◌then◌else◌, Bool, true, false, ◌||◌, not, List, [],
  ◌∷◌, ◌++◌, take, drop, length,
}
use hux.Types.{Status}

pub data Reply : Type 0 where
  -- One byte more than the number.
  takes : ℕ → Reply
  interrupted : Reply
  full : Reply
  ended : Reply

-- The channel's other side: the replies to come, and the bytes that it has taken.
pub record Socket : Type 0 where
  pub replies : List Reply
  pub wire : List ℕ

pub record Outbox : Type 0 where
  -- `fd_ >= 0`
  pub open_fd : Bool
  pub limit : ℕ
  pub q : List (List ℕ)
  pub front_off : ℕ
  pub bytes : ℕ
  pub broken : Bool

unfoldable pub reset : Bool → ℕ → Outbox
reset open_fd limit = record {
  open_fd = open_fd;
  limit = limit;
  q = [];
  front_off = 0;
  bytes = 0;
  broken = false;
}

-- What the loop of `flush_locked` leaves.
pub record Flushed : Type 0 where
  pub left : List (List ℕ)
  pub off : ℕ
  pub owed : ℕ
  pub socket : Socket
  pub status : Status

abbrev popped : List (List ℕ) → ℕ → List ℕ → List (List ℕ)
popped q off m = if off == length m then q else m ∷ q

abbrev popped_off : ℕ → List ℕ → ℕ
popped_off off m = if off == length m then 0 else off

-- The loop over the queue, its front offset, `bytes_` and the wire, by the replies.
unfoldable pub flush_loop : List Reply → List (List ℕ) → ℕ → ℕ → List ℕ → Flushed
flush_loop rs [] off owed wire = record {
  left = [];
  off = off;
  owed = owed;
  socket = record { replies = rs; wire = wire };
  status = Status.ok;
}
flush_loop [] (m ∷ q) off owed wire = record {
  left = m ∷ q;
  off = off;
  owed = owed;
  socket = record { replies = []; wire = wire };
  status = Status.would_block;
}
flush_loop (takes k ∷ rs) (m ∷ q) off owed wire =
    let n = min (k + 1) (length m - off) in
    flush_loop rs (popped q (off + n) m) (popped_off (off + n) m) (owed - n)
      (wire ++ take n (drop off m))
flush_loop (interrupted ∷ rs) (m ∷ q) off owed wire = flush_loop rs (m ∷ q) off owed wire
flush_loop (full ∷ rs) (m ∷ q) off owed wire = record {
  left = m ∷ q;
  off = off;
  owed = owed;
  socket = record { replies = rs; wire = wire };
  status = Status.would_block;
}
flush_loop (ended ∷ rs) (m ∷ q) off owed wire = record {
  left = m ∷ q;
  off = off;
  owed = owed;
  socket = record { replies = rs; wire = wire };
  status = Status.peer_disconnected;
}

abbrev is_disconnected : Status → Bool
is_disconnected Status.peer_disconnected = true
is_disconnected _ = false

pub record Outcome : Type 0 where
  pub outbox : Outbox
  pub socket : Socket
  pub status : Status

unfoldable pub flush_locked : Outbox → Socket → Outcome
flush_locked o s =
    let f = flush_loop s.replies o.q o.front_off o.bytes s.wire in
    if o.broken || not o.open_fd
    then record { outbox = o; socket = s; status = Status.peer_disconnected }
    else record {
      outbox = record o {
        q = f.left;
        front_off = f.off;
        bytes = f.owed;
        broken = is_disconnected f.status;
      };
      socket = f.socket;
      status = f.status;
    }

-- `flush` is `flush_locked` under the lock.
abbrev pub flush : Outbox → Socket → Outcome
flush = flush_locked

pub record Written : Type 0 where
  pub off : ℕ
  pub socket : Socket
  pub dead : Bool

-- The loop of `post` that writes a message straight out; `rest` is the part not yet written.
unfoldable pub write_loop : List Reply → List ℕ → ℕ → List ℕ → Written
write_loop rs [] off wire = record {
  off = off;
  socket = record { replies = rs; wire = wire };
  dead = false;
}
write_loop [] (b ∷ rest) off wire = record {
  off = off;
  socket = record { replies = []; wire = wire };
  dead = false;
}
write_loop (takes k ∷ rs) (b ∷ rest) off wire =
    let n = min (k + 1) (length (b ∷ rest)) in
    write_loop rs (drop n (b ∷ rest)) (off + n) (wire ++ take n (b ∷ rest))
write_loop (interrupted ∷ rs) (b ∷ rest) off wire = write_loop rs (b ∷ rest) off wire
write_loop (full ∷ rs) (b ∷ rest) off wire = record {
  off = off;
  socket = record { replies = rs; wire = wire };
  dead = false;
}
write_loop (ended ∷ rs) (b ∷ rest) off wire = record {
  off = off;
  socket = record { replies = rs; wire = wire };
  dead = true;
}

-- After the queue was drained: nothing queued, so the message goes straight out.
unfoldable pub post_direct : List ℕ → Outbox → Socket → Outcome
post_direct msg o s =
    let w = write_loop s.replies msg 0 s.wire in
    if w.dead
    then record {
      outbox = record o { broken = true };
      socket = w.socket;
      status = Status.peer_disconnected;
    }
    else if w.off == length msg
    then record { outbox = o; socket = w.socket; status = Status.ok }
    else record {
      outbox = record o {
        bytes = o.bytes + (length msg - w.off);
        q = o.q ++ (msg ∷ []);
        front_off = w.off;
      };
      socket = w.socket;
      status = Status.ok;
    }

unfoldable pub post_queued : List ℕ → Outbox → Socket → Outcome
post_queued msg o s =
    if ltb o.limit (o.bytes + length msg)
    then record { outbox = o; socket = s; status = Status.would_block }
    else record {
      outbox = record o { bytes = o.bytes + length msg; q = o.q ++ (msg ∷ []) };
      socket = s;
      status = Status.ok;
    }

unfoldable pub post_drained : List ℕ → List (List ℕ) → Outcome → Outcome
unfolding post_direct post_queued
post_drained msg [] f = post_direct msg f.outbox f.socket
post_drained msg (m ∷ q) f = post_queued msg f.outbox f.socket

unfoldable pub post : List ℕ → Outbox → Socket → Outcome
unfolding post_drained flush_locked
post [] o s = record { outbox = o; socket = s; status = Status.invalid_argument }
post (b ∷ msg) o s =
    let f = flush_locked o s in
    if o.broken || not o.open_fd
    then record { outbox = o; socket = s; status = Status.peer_disconnected }
    else if is_disconnected f.status
    then f
    else post_drained (b ∷ msg) f.outbox.q f
