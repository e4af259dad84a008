-- ===== src/Rdma/Delivery.antt =====
-- Both ends of the control channel of src/transport/rdma/rdma_provider.cpp: `send_control` through the
-- outbox of src/transport/control_outbox.cpp, and `poll_control` on what arrives.
use hux.Base.{
  ℕ, zero, suc, ◌+◌, ◌≤◌, ltb, true, false, List, [], ◌∷◌, ◌++◌, take, drop, length, All, ◌≡◌, refl,
  sym, ap, ◌∙◌, subst, arith, append_assoc, append-nil, take-append-drop, length-drop, drop-drop,
  take-drop-add, All-drop,
}
use hux.Types.{Status}
use hux.Outbox.{Outbox}
use hux.Outbox.Stream.{pending}
use hux.Outbox.History.{fresh}
use hux.Rdma.Control.{Message, Channel, Recv, read_loop, take_messages, poll_channel}
use hux.Rdma.Framing.{
  IsMessage, frames, Parsed, take_messages-Parsed, message-Whole, length-frames, no_frames,
}
use hux.Rdma.Sending.{Send, IsSend, sender, accepted_of, accepted_of-fit, on_the_wire}

-- A poll of the receiving end: how many messages it may hand out, and what the socket answers.
pub record Poll : Type 0 where
  pub room : ℕ
  pub answers : List Recv

unfoldable pub arrived_of : List Poll → List ℕ
arrived_of [] = []
arrived_of (p ∷ ps) = (read_loop p.answers).0 ++ arrived_of ps

-- The messages handed out by polls, and the channel after them. `flushed` is what its own outbox does
-- meanwhile.
unfoldable pub receive : Outbox × Status → Channel → List Poll → Channel × List Message
receive flushed c [] = (c, [])
receive flushed c (p ∷ ps) =
    let (c', out) = poll_channel p.room c flushed p.answers in
    let (c'', more) = receive flushed c' ps in (c'', out ++ more)

poll_channel-open :
    (n : ℕ) (c : Channel) (flushed : Outbox × Status) (answers : List Recv)
    → c.open_fd ≡ true
    → let (c', out) = poll_channel n c flushed answers in
      let (taken, left) = take_messages n (c.rx ++ (read_loop answers).0) in
      (c'.rx ≡ left) × (c'.open_fd ≡ true) × (out ≡ taken)
unfolding poll_channel
poll_channel-open n c flushed answers open_fd = ground arith

-- The channel's other end, however it is polled: the messages handed out, and what is left in `rx`.
receive-Parsed :
    (flushed : Outbox × Status) (c : Channel) (ps : List Poll) (rest : List ℕ) (ms : List Message)
    → All IsMessage ms
    → c.open_fd ≡ true
    → c.rx ++ (arrived_of ps ++ rest) ≡ frames ms
    → Parsed rest ms (receive flushed c ps).1 (receive flushed c ps).0.rx
unfolding receive arrived_of
receive-Parsed flushed c [] rest ms fits open_fd e = record { count = 0; front = refl; others = e }
receive-Parsed flushed c (p ∷ ps) rest ms fits open_fd e =
    let arrived = (read_loop p.answers).0 in
    let whole : (c.rx ++ arrived) ++ (arrived_of ps ++ rest) ≡ frames ms =
      append_assoc c.rx arrived (arrived_of ps ++ rest)
      ∙ ap (λ (l : List ℕ). c.rx ++ l) (sym (append_assoc arrived (arrived_of ps) rest))
      ∙ e in
    let first =
      take_messages-Parsed p.room (c.rx ++ arrived) (arrived_of ps ++ rest) ms fits whole in
    let c' = (poll_channel p.room c flushed p.answers).0 in
    let polled = poll_channel-open p.room c flushed p.answers open_fd in
    let ih =
      receive-Parsed flushed c' ps rest (drop first.count ms)
        (All-drop IsMessage first.count ms fits) polled.1
        (ap (λ (l : List ℕ). l ++ (arrived_of ps ++ rest)) polled.0 ∙ first.others) in
    record {
      count = first.count + ih.count;
      front =
          ap (λ (l : List Message). l ++ (receive flushed c' ps).1) (polled.2 ∙ first.front)
          ∙ ap (λ (l : List Message). take first.count ms ++ l) ih.front
          ∙ take-drop-add first.count ih.count ms;
      others = ih.others ∙ ap frames (drop-drop first.count ih.count ms);
    }

-- However the socket cuts the bytes and whatever each poll has room for, the messages that a
-- connection's polls hand out are, whole and in order, the first of those that the other end's
-- `send_control` said kOk to, and what the polls keep, what is on its way and what the outbox has
-- queued are the frames of the others. The outbox has not broken, each message is within the limit
-- with a type of 16 bits, and the receiving end is open and starts with nothing kept.
pub receive-accepted :
    (limit : ℕ) (ss : List Send) (flushed : Outbox × Status) (c : Channel) (ps : List Poll)
    (rest : List ℕ)
    → All IsSend ss
    → (sender limit ss).outbox.broken ≡ false
    → c.open_fd ≡ true
    → c.rx ≡ []
    → arrived_of ps ++ rest ≡ (sender limit ss).wire
    → let s = sender limit ss in
      Parsed
        (rest ++ pending s.outbox.q s.outbox.front_off)
        (accepted_of (fresh limit) ss)
        (receive flushed c ps).1
        (receive flushed c ps).0.rx
receive-accepted limit ss flushed c ps rest fits whole open_fd idle arrived =
    let s = sender limit ss in
    let queued = pending s.outbox.q s.outbox.front_off in
    receive-Parsed flushed c ps (rest ++ queued) (accepted_of (fresh limit) ss)
      (accepted_of-fit (fresh limit) ss fits) open_fd
      (ap (λ (l : List ℕ). l ++ (arrived_of ps ++ (rest ++ queued))) idle
        ∙ sym (append_assoc (arrived_of ps) rest queued)
        ∙ ap (λ (l : List ℕ). l ++ queued) arrived
        ∙ on_the_wire limit ss fits whole)

take_messages-all :
    (n : ℕ) (ms : List Message)
    → All IsMessage ms
    → length ms ≤ n
    → (take_messages n (frames ms)).0 ≡ ms
unfolding take_messages
take_messages-all zero [] fits room = refl
take_messages-all (suc n) [] fits room =
    let short : ltb (length (frames [])) 12 ≡ true =
      ap (λ (l : List ℕ). ltb (length l) 12) no_frames in
    rw (short, take_messages)
take_messages-all zero (m ∷ ms) fits room = absurd (omega arith)
take_messages-all (suc n) (m ∷ ms) (here, later) room =
    let rx = frames (m ∷ ms) in
    let total : ℕ = 12 + length m.payload in
    let long = length-frames m ms in
    let w = message-Whole m ms rx [] here (append-nil rx) long in
    let header_there : ltb (length rx) 12 ≡ false = ground (arith, long) in
    let all_there : ltb (length rx) (12 + length m.payload) ≡ false = ground (arith, long) in
    let others : (take_messages n (drop (12 + length m.payload) rx)).0 ≡ ms =
      ap (λ (l : List ℕ). (take_messages n l).0) (sym (append-nil _) ∙ w.left)
      ∙ take_messages-all n ms later (omega arith) in
    rw (header_there, w.header, all_there, take_messages) (ground (arith, w.payload, others))

-- One more poll, with room enough, hands out what is left.
last_poll :
    (n : ℕ) (flushed : Outbox × Status) (c : Channel) (ms out : List Message)
    → All IsMessage ms
    → c.open_fd ≡ true
    → length ms ≤ n
    → Parsed [] ms out c.rx
    → out ++ (poll_channel n c flushed []).1 ≡ ms
unfolding read_loop
last_poll n flushed c ms out fits open_fd room p =
    let polled = poll_channel-open n c flushed [] open_fd in
    let left : c.rx ++ [] ≡ frames (drop p.count ms) = p.others in
    let all =
      take_messages-all n (drop p.count ms) (All-drop IsMessage p.count ms fits)
        (omega (arith, length-drop p.count ms)) in
    ap (λ (l : List Message). l ++ (poll_channel n c flushed []).1) p.front
    ∙ ap (λ (l : List Message). take p.count ms ++ l)
        (polled.2 ∙ ap (λ (l : List ℕ). (take_messages n l).0) left ∙ all)
    ∙ take-append-drop p.count ms

receive-open :
    (flushed : Outbox × Status) (c : Channel) (ps : List Poll)
    → c.open_fd ≡ true
    → (receive flushed c ps).0.open_fd ≡ true
unfolding receive
receive-open flushed c [] open_fd = open_fd
receive-open flushed c (p ∷ ps) open_fd =
    receive-open flushed (poll_channel p.room c flushed p.answers).0 ps
      (poll_channel-open p.room c flushed p.answers open_fd).1

nothing_owed : (o : Outbox) → o.q ≡ [] → [] ++ pending o.q o.front_off ≡ []
unfolding pending
nothing_owed o e = rw e

-- Once everything sent has arrived and the outbox is empty, one more poll with room for every
-- message has handed out exactly those that `send_control` said kOk to, in order, each once. The
-- outbox has not broken, each message is within the limit with a type of 16 bits, and the receiving
-- end is open and starts with nothing kept.
pub receive-all :
    (limit n : ℕ) (ss : List Send) (flushed : Outbox × Status) (c : Channel) (ps : List Poll)
    → All IsSend ss
    → (sender limit ss).outbox.broken ≡ false
    → (sender limit ss).outbox.q ≡ []
    → c.open_fd ≡ true
    → c.rx ≡ []
    → arrived_of ps ≡ (sender limit ss).wire
    → length (accepted_of (fresh limit) ss) ≤ n
    → let (c', out) = receive flushed c ps in
      out ++ (poll_channel n c' flushed []).1 ≡ accepted_of (fresh limit) ss
receive-all limit n ss flushed c ps fits whole sent open_fd idle arrived room =
    let s = sender limit ss in
    let p =
      receive-accepted limit ss flushed c ps [] fits whole open_fd idle
        (append-nil (arrived_of ps) ∙ arrived) in
    last_poll n flushed (receive flushed c ps).0 (accepted_of (fresh limit) ss)
      (receive flushed c ps).1 (accepted_of-fit (fresh limit) ss fits)
      (receive-open flushed c ps open_fd) room
      (subst
        (λ (l : List ℕ).
          Parsed l (accepted_of (fresh limit) ss) (receive flushed c ps).1
            (receive flushed c ps).0.rx)
        (nothing_owed s.outbox sent) p)
