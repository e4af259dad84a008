-- ===== src/Outbox/Posting.antt =====
-- What `post` and `flush` of src/transport/control_outbox.cpp do to the stream.
use hux.Base.{
  drop-drop, ℕ, ◌+◌, ◌-◌, ◌≤◌, ◌<◌, ◌==◌, min, max, Bool, true, false, ◌||◌, not, List, [], ◌∷◌,
  ◌++◌, take, drop, length, All-append, ◌≡◌, ◌≢◌, ◌⊎◌, inl, inr, refl, sym, ap, ◌∙◌, arith,
  append-nil, append_assoc, length-append, length-drop, take-append-drop, drop-length, Bool-cases,
  ltb, tests,
}
use hux.Types.{Status}
use hux.Outbox.{
  Reply, takes, interrupted, full, ended, Socket, Outbox, flush_loop, Outcome, flush_locked,
  Written, write_loop, post_direct, post_queued, post_drained, post, is_disconnected,
}
use hux.Outbox.Stream.{joined, pending, IsQueue, flush_loop-FlushedWell}

record WrittenWell (rest : List ℕ) (off : ℕ) (wire : List ℕ) (w : Written) : Type 0 where
  stream : w.socket.wire ++ drop (w.off - off) rest ≡ wire ++ rest
  from_here : off ≤ w.off
  to_end : w.off ≤ off + length rest

nothing_written :
    (rs : List Reply) (rest : List ℕ) (off : ℕ) (wire : List ℕ) (dead : Bool)
    → WrittenWell rest off wire
        (record { off = off; socket = record { replies = rs; wire = wire }; dead = dead })
nothing_written rs rest off wire dead = record {
  stream = ap (λ (t : ℕ). wire ++ drop t rest) none_left;
  from_here = omega arith;
  to_end = omega arith;
}
  where
    none_left : off - off ≡ 0
    none_left = omega arith

write_loop-WrittenWell :
    (rs : List Reply) (rest : List ℕ) (off : ℕ) (wire : List ℕ)
    → WrittenWell rest off wire (write_loop rs rest off wire)
unfolding write_loop
write_loop-WrittenWell rs [] off wire = nothing_written rs [] off wire false
write_loop-WrittenWell [] (b ∷ rest) off wire = nothing_written [] (b ∷ rest) off wire false
write_loop-WrittenWell (takes k ∷ rs) (b ∷ rest) off wire =
    let n = min (k + 1) (length (b ∷ rest)) in
    let later = wire ++ take n (b ∷ rest) in
    let w = write_loop rs (drop n (b ∷ rest)) (off + n) later in
    let h = write_loop-WrittenWell rs (drop n (b ∷ rest)) (off + n) later in
    let gap : n + (w.off - (off + n)) ≡ w.off - off = omega (arith, h.from_here) in
    record {
      stream =
          ap (λ (t : ℕ). w.socket.wire ++ drop t (b ∷ rest)) (sym gap)
          ∙ ap (◌++◌ w.socket.wire) (sym (drop-drop n (w.off - (off + n)) (b ∷ rest)))
          ∙ h.stream
          ∙ append_assoc wire (take n (b ∷ rest)) (drop n (b ∷ rest))
          ∙ ap (◌++◌ wire) (take-append-drop n (b ∷ rest));
      from_here = omega (arith, h.from_here);
      to_end = omega (arith, h.to_end, length-drop n (b ∷ rest));
    }
write_loop-WrittenWell (interrupted ∷ rs) (b ∷ rest) off wire =
    write_loop-WrittenWell rs (b ∷ rest) off wire
write_loop-WrittenWell (full ∷ rs) (b ∷ rest) off wire =
    nothing_written rs (b ∷ rest) off wire false
write_loop-WrittenWell (ended ∷ rs) (b ∷ rest) off wire =
    nothing_written rs (b ∷ rest) off wire true

-- The bytes that the peer has been sent or is owed.
abbrev pub stream : Outbox → Socket → List ℕ
stream o s = s.wire ++ pending o.q o.front_off

abbrev pub IsOutbox : Outbox → Type 0
IsOutbox o = IsQueue o.q o.front_off o.bytes

-- What `post` does to a well-formed outbox: a message it takes is queued whole, behind all that
-- came before; one it refuses leaves no trace, and would have passed the limit; and the backlog
-- stays within the limit or the one message.
pub record Posted (msg : List ℕ) (o : Outbox) (s : Socket) (f : Outcome) : Type 0 where
  pub taken : f.status ≡ Status.ok → stream f.outbox f.socket ≡ stream o s ++ msg
  pub refused :
      f.status ≡ Status.would_block
      → (stream f.outbox f.socket ≡ stream o s) × (o.limit < f.outbox.bytes + length msg)
  pub well : IsOutbox f.outbox
  pub bounded : f.status ≡ Status.ok → f.outbox.bytes ≤ max o.limit (length msg)
  pub limit_kept : f.outbox.limit ≡ o.limit
  pub broken_kept : f.status ≢ Status.peer_disconnected → f.outbox.broken ≡ o.broken
  pub shrinks : f.status ≢ Status.ok → f.outbox.bytes ≤ o.bytes
  pub lost :
      f.status ≡ Status.peer_disconnected
      → (f.outbox.broken ≡ true)
        ⊎ ((stream f.outbox f.socket ≡ stream o s) × (f.outbox.broken ≡ o.broken))
  pub answers :
      (f.status ≡ Status.ok)
      ⊎ ((f.status ≡ Status.would_block) ⊎ (f.status ≡ Status.peer_disconnected))

pub joined-append : (q : List (List ℕ)) (msg : List ℕ) → joined (q ++ msg ∷ []) ≡ joined q ++ msg
unfolding joined
joined-append [] msg = append-nil msg
joined-append (m ∷ q) msg = ap (◌++◌ m) (joined-append q msg) ∙ sym (append_assoc m (joined q) msg)

pending-append :
    (m : List ℕ) (q : List (List ℕ)) (off : ℕ) (msg : List ℕ)
    → pending (m ∷ (q ++ msg ∷ [])) off ≡ pending (m ∷ q) off ++ msg
unfolding pending
pending-append m q off msg =
    ap (◌++◌ (drop off m)) (joined-append q msg) ∙ sym (append_assoc (drop off m) (joined q) msg)

IsQueue-append :
    (m : List ℕ) (q : List (List ℕ)) (off owed : ℕ) (msg : List ℕ)
    → 0 < length msg
    → IsQueue (m ∷ q) off owed
    → IsQueue (m ∷ (q ++ msg ∷ [])) off (owed + length msg)
IsQueue-append m q off owed msg pos v = (
  v.0,
  All-append (λ x. 0 < length x) q (msg ∷ []) v.1 (pos, tt),
  omega (arith, v.2, ap length (joined-append q msg), length-append (joined q) msg),
)

abbrev box : Bool → ℕ → Bool → List (List ℕ) → ℕ → ℕ → Outbox
box open_fd limit broken q off owed = record {
  open_fd = open_fd;
  limit = limit;
  q = q;
  front_off = off;
  bytes = owed;
  broken = broken;
}

module _ (open_fd : Bool) (limit : ℕ) (broken : Bool) (msg : List ℕ) (pos : 0 < length msg) where
  post_queued-Posted :
      (m : List ℕ) (q : List (List ℕ)) (off owed : ℕ) (s : Socket)
      → IsQueue (m ∷ q) off owed
      → let o = box open_fd limit broken (m ∷ q) off owed in Posted msg o s (post_queued msg o s)
  unfolding post_queued
  post_queued-Posted m q off owed s v = elim (Bool-cases (ltb limit (owed + length msg))) [
    | inl over ↦ rw over (record {
      taken = λ e. cc;
      refused = λ _. (refl, omega (tests, over));
      well = v;
      bounded = λ e. cc;
      limit_kept = refl;
      broken_kept = λ _. refl;
      shrinks = λ _. omega arith;
      lost = λ e. cc;
      answers = inr (inl refl);
    })
    | inr fits ↦ rw fits (record {
      taken = λ _.
          ap (◌++◌ s.wire) (pending-append m q off msg)
          ∙ sym (append_assoc s.wire (pending (m ∷ q) off) msg);
      refused = λ e. cc;
      well = IsQueue-append m q off owed msg pos v;
      bounded = λ _. ground arith;
      limit_kept = refl;
      broken_kept = λ _. refl;
      shrinks = λ k. absurd (k refl);
      lost = λ e. cc;
      answers = inl refl;
    })
  ]

  -- A message that went straight out, from what the loop left.
  post_direct-Posted :
      (s : Socket) → let o = box open_fd limit broken [] 0 0 in Posted msg o s (post_direct msg o s)
  unfolding post_direct pending
  post_direct-Posted s =
      let w = write_loop s.replies msg 0 s.wire in
      let h = write_loop-WrittenWell s.replies msg 0 s.wire in
      let base : s.wire ++ msg ≡ (s.wire ++ []) ++ msg =
        ap (λ t. t ++ msg) (sym (append-nil s.wire)) in
      let same : w.off ≡ w.off - 0 = omega arith in
      elim (Bool-cases w.dead) [
        | inl dead ↦ rw dead (record {
          taken = λ e. cc;
          refused = λ e. cc;
          well = (refl, refl);
          bounded = λ e. cc;
          limit_kept = refl;
          broken_kept = λ n. absurd (n refl);
          shrinks = λ _. omega arith;
          lost = λ _. inl refl;
          answers = inr (inr refl);
        })
        | inr live ↦ rw live (elim (Bool-cases (w.off == length msg)) [
          | inl all ↦
              let full_length : w.off - 0 ≡ length msg = ground arith in
              rw all (record {
                taken = λ _.
                    ap (◌++◌ w.socket.wire)
                      (sym (ap (λ (t : ℕ). drop t msg) full_length ∙ drop-length msg))
                    ∙ h.stream
                    ∙ base;
                refused = λ e. cc;
                well = (refl, refl);
                bounded = λ _. omega arith;
                limit_kept = refl;
                broken_kept = λ _. refl;
                shrinks = λ k. absurd (k refl);
                lost = λ e. cc;
                answers = inl refl;
              })
          | inr part ↦ rw part (record {
            taken = λ _.
                ap (◌++◌ w.socket.wire) (append-nil _ ∙ ap (λ (t : ℕ). drop t msg) same)
                ∙ h.stream
                ∙ base;
            refused = λ e. cc;
            well = (ground (arith, h.to_end), tt, omega arith);
            bounded = λ _. omega arith;
            limit_kept = refl;
            broken_kept = λ _. refl;
            shrinks = λ k. absurd (k refl);
            lost = λ e. cc;
            answers = inl refl;
          })
        ])
      ]

  post_drained-Posted :
      (q : List (List ℕ)) (off owed : ℕ) (s : Socket) (st : Status)
      → IsQueue q off owed
      → let o = box open_fd limit broken q off owed in
        let f : Outcome = record { outbox = o; socket = s; status = st } in
        Posted msg o s (post_drained msg q f)
  unfolding post_drained
  post_drained-Posted [] off owed s st v = rw (v.0, v.1) (post_direct-Posted s)
  post_drained-Posted (m ∷ q) off owed s st v = post_queued-Posted m q off owed s v

-- `flush` moves bytes to the wire, and loses, adds and reorders none.
pub flush_locked-stream :
    (o : Outbox) (s : Socket)
    → IsOutbox o
    → let f = flush_locked o s in
      (stream f.outbox f.socket ≡ stream o s)
      × IsOutbox f.outbox
      × (f.outbox.bytes ≤ o.bytes)
      × (f.status ≡ Status.ok → f.outbox.q ≡ [])
      × (f.outbox.limit ≡ o.limit)
      × (f.outbox.broken ≡ false → o.broken ≡ false)
unfolding flush_locked
flush_locked-stream o s v =
    let h = flush_loop-FlushedWell s.replies o.q o.front_off o.bytes s.wire v in
    elim (Bool-cases (o.broken || not o.open_fd)) [
      | inl dead ↦ rw dead (refl, v, omega arith, λ e. cc, refl, λ e. e)
      | inr live ↦
          rw live
            (h.stream, h.well, h.fewer, λ e. ground (arith, h.answer), refl, λ _. ground arith)
    ]

Posted-after :
    (msg : List ℕ) (o o' : Outbox) (s s' : Socket) (f : Outcome)
    → stream o' s' ≡ stream o s
    → o'.limit ≡ o.limit
    → o'.broken ≡ o.broken
    → o'.bytes ≤ o.bytes
    → Posted msg o' s' f
    → Posted msg o s f
Posted-after msg o o' s s' f same lim bro fewer p = record {
  taken = λ e. p.taken e ∙ ap (λ t. t ++ msg) same;
  refused = λ e. ((p.refused e).0 ∙ same, omega (arith, (p.refused e).1));
  well = p.well;
  bounded = λ e. omega (arith, p.bounded e);
  limit_kept = p.limit_kept ∙ lim;
  broken_kept = λ n. p.broken_kept n ∙ bro;
  shrinks = λ n. omega (arith, p.shrinks n);
  lost = λ e. elim (p.lost e) [ inl b ↦ inl b | inr t ↦ inr (t.0 ∙ same, t.1 ∙ bro) ];
  answers = p.answers;
}

is_disconnected-eq : (st : Status) → is_disconnected st ≡ true → st ≡ Status.peer_disconnected
is_disconnected-eq st h = ground arith

Posted-dead :
    (msg : List ℕ) (o : Outbox) (s : Socket) (f : Outcome)
    → f.status ≡ Status.peer_disconnected
    → IsOutbox f.outbox
    → f.outbox.limit ≡ o.limit
    → f.outbox.bytes ≤ o.bytes
    → (f.outbox.broken ≡ true)
      ⊎ ((stream f.outbox f.socket ≡ stream o s) × (f.outbox.broken ≡ o.broken))
    → Posted msg o s f
Posted-dead msg o s f e v l fewer gone = record {
  taken = λ k. cc;
  refused = λ k. cc;
  well = v;
  bounded = λ k. cc;
  limit_kept = l;
  broken_kept = λ n. absurd (n e);
  shrinks = λ _. fewer;
  lost = λ _. gone;
  answers = inr (inr e);
}

-- `post` of a message that is not empty, from any well-formed outbox and against any socket: kOk
-- means that the message follows everything accepted before, and that the backlog is within the
-- limit or the message; kWouldBlock, that nothing was accepted and the limit would have been
-- passed; kPeerDisconnected, that the channel is broken, or nothing changed; and there is no other
-- answer.
pub post-Posted :
    (msg : List ℕ) (o : Outbox) (s : Socket)
    → 0 < length msg
    → IsOutbox o
    → Posted msg o s (post msg o s)
unfolding post flush_locked
post-Posted [] o s pos v = absurd (omega arith)
post-Posted (b ∷ msg) o s pos v =
    let f = flush_loop s.replies o.q o.front_off o.bytes s.wire in
    let h = flush_loop-FlushedWell s.replies o.q o.front_off o.bytes s.wire v in
    elim (Bool-cases (o.broken || not o.open_fd)) [
      | inl dead ↦
          rw dead (Posted-dead (b ∷ msg) o s _ refl v refl (omega arith) (inr (refl, refl)))
      | inr live ↦ rw live (elim (Bool-cases (is_disconnected f.status)) [
        | inl gone ↦ rw gone (
            Posted-dead (b ∷ msg) o s _ (is_disconnected-eq f.status gone) h.well refl h.fewer
              (inl refl))
        | inr on ↦ rw on (
            Posted-after (b ∷ msg) o (box o.open_fd o.limit false f.left f.off f.owed) s f.socket _
              h.stream refl (ground arith) h.fewer
              (post_drained-Posted o.open_fd o.limit false (b ∷ msg) pos f.left f.off f.owed
                f.socket f.status h.well))
      ])
    ]
