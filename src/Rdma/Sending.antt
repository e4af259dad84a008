-- ===== src/Rdma/Sending.antt =====
-- The sending end of the control channel of src/transport/rdma/rdma_provider.cpp: `send_control`
-- through the outbox of src/transport/control_outbox.cpp.
use hux.Base.{
  ℕ, ◌+◌, if◌then◌else◌, Bool, true, false, List, [], ◌∷◌, ◌++◌, map, All, if-all, ◌≡◌, refl, sym,
  ap, ◌∙◌, arith, append_assoc, append-nil,
}
use hux.Types.{is_ok}
use hux.Control.Message.{control_max_payload}
use hux.Outbox.{Reply, Socket, post}
use hux.Outbox.Stream.{joined, pending}
use hux.Outbox.History
use hux.Outbox.History.{Call, call, calls, fresh, Ordered, calls-Ordered}
use hux.Rdma.Control.{send_control, Message, frame, Channel}
use hux.Rdma.Framing.{IsMessage, frames, length-frame}

-- What the sending end does: a message, or a flush by its own polls, with what the socket answers.
pub data Send : Type 0 where
  sends : Message → List Reply → Send
  flushes : List Reply → Send

abbrev pub call_of : Send → Call
call_of (sends m rs) = History.posts (frame m) rs
call_of (flushes rs) = History.flushes rs

abbrev pub sender : ℕ → List Send → History.Channel
sender limit ss = calls (fresh limit) (map call_of ss)

-- The messages that `send_control` said kOk to.
unfoldable pub accepted_of : History.Channel → List Send → List Message
accepted_of c [] = []
accepted_of c (flushes rs ∷ ss) = accepted_of (call c (call_of (flushes rs))) ss
accepted_of c (sends m rs ∷ ss) =
    let later = accepted_of (call c (call_of (sends m rs))) ss in
    if is_ok (post (frame m) c.outbox (record { replies = rs; wire = c.wire })).status
    then m ∷ later
    else later

joined-frames : (ms : List Message) → joined (map frame ms) ≡ frames ms
unfolding joined frames
joined-frames [] = refl
joined-frames (m ∷ ms) = ap (λ (l : List ℕ). frame m ++ l) (joined-frames ms)

one_more :
    (accepted : List (List ℕ)) (m : Message) (later : List Message) (ok : Bool)
    → (if ok then accepted ++ (frame m ∷ []) else accepted) ++ map frame later
      ≡ accepted ++ map frame (if ok then m ∷ later else later)
one_more accepted m later true = append_assoc accepted (frame m ∷ []) (map frame later)
one_more accepted m later false = refl

accepted-frames :
    (c : History.Channel) (ss : List Send)
    → (calls c (map call_of ss)).accepted ≡ c.accepted ++ map frame (accepted_of c ss)
unfolding calls call accepted_of
accepted-frames c [] = sym (append-nil c.accepted)
accepted-frames c (flushes rs ∷ ss) = accepted-frames (call c (call_of (flushes rs))) ss
accepted-frames c (sends m rs ∷ ss) =
    let c' = call c (call_of (sends m rs)) in
    accepted-frames c' ss ∙ one_more c.accepted m (accepted_of c' ss) _

-- Over an open channel, a message within the limit is just posted.
pub send_control-posts :
    (c : Channel) (m : Message) (s : Socket)
    → IsMessage m
    → c.open_fd ≡ true
    → ((send_control c m s).1 ≡ (post (frame m) c.outbox s).status)
      × ((send_control c m s).0.outbox ≡ (post (frame m) c.outbox s).outbox)
unfolding send_control
send_control-posts c m s fits open_fd = ground (arith, fits.1)

abbrev pub IsSend : Send → Type 0
IsSend (sends m rs) = IsMessage m
IsSend (flushes rs) = Unit

pub accepted_of-fit :
    (c : History.Channel) (ss : List Send) → All IsSend ss → All IsMessage (accepted_of c ss)
unfolding accepted_of
accepted_of-fit c [] fits = tt
accepted_of-fit c (flushes rs ∷ ss) (here, rest) =
    accepted_of-fit (call c (call_of (flushes rs))) ss rest
accepted_of-fit c (sends m rs ∷ ss) (here, rest) =
    let later = accepted_of-fit (call c (call_of (sends m rs))) ss rest in
    if-all (All IsMessage)
      (is_ok (post (frame m) c.outbox (record { replies = rs; wire = c.wire })).status)
      (m ∷ accepted_of (call c (call_of (sends m rs))) ss) _ (here, later) later

-- No frame is longer than the limit and its header.
sends-fit :
    (ss : List Send)
    → All IsSend ss
    → All (History.Fits (12 + control_max_payload)) (map call_of ss)
sends-fit [] fits = tt
sends-fit (sends m rs ∷ ss) (here, rest) =
    (omega (arith, length-frame m, here.1), sends-fit ss rest)
sends-fit (flushes rs ∷ ss) (here, rest) = (tt, sends-fit ss rest)

pub on_the_wire :
    (limit : ℕ) (ss : List Send)
    → All IsSend ss
    → (sender limit ss).outbox.broken ≡ false
    → let s = sender limit ss in
      s.wire ++ pending s.outbox.q s.outbox.front_off ≡ frames (accepted_of (fresh limit) ss)
unfolding fresh
on_the_wire limit ss fits whole =
    (calls-Ordered limit (12 + control_max_payload) (map call_of ss) (sends-fit ss fits)).whole
      whole
    ∙ ap joined (accepted-frames (fresh limit) ss)
    ∙ joined-frames (accepted_of (fresh limit) ss)
