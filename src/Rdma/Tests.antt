-- ===== src/Rdma/Tests.antt =====
-- The connections of src/transport/rdma/rdma_provider.cpp on concrete messages and operations.
use hux.Base.{
  ℕ, ◌≤◌, true, false, List, [], ◌∷◌, ◌++◌, ◌≡◌, refl, arith, length, take, drop, append-nil, ◌∙◌,
  some, if◌then◌else◌, ◌==◌,
}
use hux.Types.{Status}
use hux.Control.Bytes.{put_u16, put_u32}
use hux.Control.Message.{encode_control_header}
use hux.Outbox.{
  takes, full, Outbox, post, reset, post_direct, post_queued, post_drained, write_loop,
  flush_locked, flush_loop,
}
use hux.Outbox.Stream.{pending}
use hux.Outbox.History.{fresh, call, calls}
use hux.Rdma.Control.{Message, frame, Channel, bytes, interrupted, poll_channel, read_loop}
use hux.Rdma.Framing.{Parsed}
use hux.Rdma.Sending.{Send, sends, flushes, sender, accepted_of}
use hux.Rdma.Delivery.{Poll, receive, arrived_of, receive-accepted, receive-all}
use hux.Cc.FixedWindow.{
  FixedWindowController, make_cc_fixed_window, allow, on_post, on_feedback, on_error,
}
use hux.Engine.Chunks.{SubOp, write}
use hux.Rdma.Queues.{
  Controller, Limits, Clock, pick_queue_pair_locked, pick_loop, submit_capacity, capacity, anchored,
}
use hux.Rdma.Submit.{submit, post_loop, plan_loop, give_up}
use hux.Rdma.Retire.{success}
use hux.Rdma.Accounts.{
  Step, submits, completes, step, run, opened, ArePossible, IsAccounted, run-IsAccounted,
}
use hux.Rdma.Anchors.{AreAnchored, submit-AreAnchored}

abbrev first : Message
first = record { type = 2; payload = 7 ∷ 8 ∷ [] }

abbrev second : Message
second = record { type = 4; payload = [] }

-- The first goes out in two pieces, the second at once.
abbrev sent : List Send
sent =
    sends first (takes 4 ∷ full ∷ []) ∷ flushes (takes 99 ∷ []) ∷ sends second (takes 99 ∷ []) ∷ []

abbrev idle : Channel
idle = record { open_fd = true; outbox = reset true 64; rx = []; peer_closed = false }

abbrev on_the_wire : List ℕ
on_the_wire = frame first ++ frame second

-- The first message arrives in two parts, the second with the end of it.
abbrev polls : List Poll
polls =
    record { room = 4; answers = bytes (take 5 on_the_wire) ∷ [] }
    ∷ record { room = 4; answers = interrupted ∷ bytes (drop 5 on_the_wire) ∷ [] }
    ∷ []

abbrev quiet : Outbox × Status
quiet = (idle.outbox, Status.ok)

sent-whole : ((sender 64 sent).outbox.broken ≡ false) × ((sender 64 sent).outbox.q ≡ [])
unfolding fresh reset calls call post post_direct post_queued post_drained write_loop flush_locked
    flush_loop frame encode_control_header put_u16 put_u32
sent-whole = (refl, refl)

polls-arrived : arrived_of polls ≡ (sender 64 sent).wire
unfolding arrived_of read_loop fresh reset calls call post post_direct post_queued post_drained
    write_loop flush_locked flush_loop frame encode_control_header put_u16 put_u32
polls-arrived = refl

sent-accepted : length (accepted_of (fresh 64) sent) ≤ 4
unfolding accepted_of
sent-accepted = ground arith

receive-accepted_example :
    let s = sender 64 sent in
    Parsed
      ([] ++ pending s.outbox.q s.outbox.front_off)
      (accepted_of (fresh 64) sent)
      (receive quiet idle polls).1
      (receive quiet idle polls).0.rx
unfolding fresh
receive-accepted_example =
    receive-accepted 64 sent quiet idle polls []
      ((omega arith, omega arith), (tt, ((omega arith, omega arith), tt))) sent-whole.0 refl refl
      (append-nil (arrived_of polls) ∙ polls-arrived)

receive-all_example :
    let (c', out) = receive quiet idle polls in
    out ++ (poll_channel 4 c' quiet []).1 ≡ accepted_of (fresh 64) sent
unfolding fresh
receive-all_example =
    receive-all 64 4 sent quiet idle polls
      ((omega arith, omega arith), (tt, ((omega arith, omega arith), tt))) sent-whole.0 sent-whole.1
      refl refl polls-arrived sent-accepted

abbrev window : Controller
window = record {
  State = FixedWindowController;
  allow = λ c dir bytes now. allow c dir bytes;
  on_post = λ c dir bytes now. on_post c dir bytes;
  on_feedback = λ c dir bytes rtt now. on_feedback c dir bytes rtt;
  on_error = λ c dir bytes now. on_error c dir bytes;
}

-- Two queue pairs of depth 4; every key is of some memory.
abbrev limits : Limits
limits = record { sq_depth = 4; signal_period = 3; qp_count = 2; regions = λ key. some key }

abbrev steady : Clock
steady = record { planned = λ i. i; posted = λ i. i; given_up = λ i. i }

abbrev op_of : ℕ → SubOp
op_of sub_id = record {
  kind = write;
  request = 7;
  sub_id = sub_id;
  local_addr = 4096;
  local_key = 1;
  remote_addr = 8192;
  remote_key = 2;
  length = 512;
}

abbrev batch : List SubOp
batch = op_of 0 ∷ op_of 1 ∷ op_of 2 ∷ []

abbrev wide : FixedWindowController
wide = make_cc_fixed_window 4096

-- The third post is refused; the first queue pair's completion comes, and then a batch again.
abbrev steps : List Step
steps =
    submits (λ i. if i == 2 then 12 else 0) steady batch
    ∷ completes 0 0 success 0 9
    ∷ submits (λ i. 0) steady batch
    ∷ []

steps-ArePossible : ArePossible window limits (opened window limits wide) steps
unfolding step submit post_loop plan_loop pick_queue_pair_locked pick_loop submit_capacity capacity
    anchored make_cc_fixed_window allow on_post give_up
steps-ArePossible = (tt, ((omega arith, omega arith, omega arith, omega arith), (tt, tt)))

run-IsAccounted_example :
    IsAccounted window limits (run window limits (opened window limits wide) steps)
run-IsAccounted_example = run-IsAccounted window limits wide steps (omega arith) steps-ArePossible

submit-AreAnchored_example :
    AreAnchored
      (submit window limits steady (λ i. 0) (opened window limits wide).connection batch).requests
submit-AreAnchored_example =
    submit-AreAnchored window limits steady (λ i. 0) (opened window limits wide).connection batch
      (omega arith) (omega arith) (λ j. refl)
