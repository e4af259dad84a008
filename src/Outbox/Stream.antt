-- ===== src/Outbox/Stream.antt =====
-- The bytes that the peer sees: what is on the wire and what is queued behind it, in order.
use hux.Base.{
  ℕ, ◌+◌, ◌-◌, ◌≤◌, ◌<◌, ◌==◌, min, List, [], ◌∷◌, ◌++◌, take, drop, length, All, ◌≡◌, ◌≢◌, ◌⊎◌,
  inl, inr, refl, sym, ap, ◌∙◌, arith, append-nil, append_assoc, length-append, length-drop,
  drop-drop, take-append-drop, drop-length, Bool-cases, ==_iff,
}
use hux.Types.{Status}
use hux.Outbox.{Reply, takes, interrupted, full, ended, Flushed, flush_loop, popped, popped_off}

unfoldable pub joined : List (List ℕ) → List ℕ
joined [] = []
joined (m ∷ q) = m ++ joined q

-- What the queue still owes the peer.
unfoldable pub pending : List (List ℕ) → ℕ → List ℕ
unfolding joined
pending [] off = []
pending (m ∷ q) off = drop off m ++ joined q

-- The front is partly sent at most, `bytes_` is what is owed, and no message is empty.
abbrev pub IsQueue : List (List ℕ) → ℕ → ℕ → Type 0
IsQueue [] off owed = (off ≡ 0) × (owed ≡ 0)
IsQueue (m ∷ q) off owed =
    (off < length m) × All (λ x. 0 < length x) q × (owed ≡ length m - off + length (joined q))

pub pending-zero : (q : List (List ℕ)) → pending q 0 ≡ joined q
unfolding pending joined
pending-zero [] = refl
pending-zero (m ∷ q) = refl

take-drop : (m : List ℕ) (off n : ℕ) → take n (drop off m) ++ drop (off + n) m ≡ drop off m
take-drop m off n =
    ap (◌++◌ (take n (drop off m))) (sym (drop-drop off n m)) ∙ take-append-drop n (drop off m)

-- Sending `n` bytes of the front moves them to the wire.
pending-popped :
    (m : List ℕ) (q : List (List ℕ)) (off n : ℕ)
    → off + n ≤ length m
    → take n (drop off m) ++ pending (popped q (off + n) m) (popped_off (off + n) m)
      ≡ pending (m ∷ q) off
unfolding pending joined
pending-popped m q off n h = elim (Bool-cases (off + n == length m)) [
  | inl e ↦ rw e (
      ap (◌++◌ (take n (drop off m))) (pending-zero q)
      ∙ ap (λ t. t ++ joined q) (all_sent ((==_iff _ _).0 e)))
  | inr e ↦ rw e (
      sym (append_assoc (take n (drop off m)) (drop (off + n) m) (joined q))
      ∙ ap (λ t. t ++ joined q) (take-drop m off n))
]
  where
    all_sent : off + n ≡ length m → take n (drop off m) ≡ drop off m
    all_sent e =
        sym (append-nil _)
        ∙ ap (◌++◌ (take n (drop off m))) (sym (ap (λ (t : ℕ). drop t m) e ∙ drop-length m))
        ∙ take-drop m off n

length-pending :
    (m : List ℕ) (q : List (List ℕ)) (off : ℕ)
    → length (pending (m ∷ q) off) ≡ length m - off + length (joined q)
unfolding pending
length-pending m q off = rw (length-append (drop off m) (joined q), length-drop off m)

IsQueue-popped :
    (m : List ℕ) (q : List (List ℕ)) (off owed n : ℕ)
    → IsQueue (m ∷ q) off owed
    → off + n ≤ length m
    → IsQueue (popped q (off + n) m) (popped_off (off + n) m) (owed - n)
unfolding joined
IsQueue-popped m [] off owed n v h = ground arith
IsQueue-popped m (m₂ ∷ q) off owed n v h = ground (arith, length-append m₂ (joined q))

-- What a flush leaves: the stream as it was, a well-formed queue, and an answer that says whether
-- anything is left.
pub record FlushedWell (q : List (List ℕ)) (off owed : ℕ) (wire : List ℕ) (f : Flushed)
    : Type 0 where
  pub stream : f.socket.wire ++ pending f.left f.off ≡ wire ++ pending q off
  pub well : IsQueue f.left f.off f.owed
  pub fewer : f.owed ≤ owed
  pub answer :
      ((f.status ≡ Status.ok) × (f.left ≡ []))
      ⊎ (((f.status ≡ Status.would_block) ⊎ (f.status ≡ Status.peer_disconnected)) × (f.left ≢ []))

pub flush_loop-FlushedWell :
    (rs : List Reply) (q : List (List ℕ)) (off owed : ℕ) (wire : List ℕ)
    → IsQueue q off owed
    → FlushedWell q off owed wire (flush_loop rs q off owed wire)
unfolding flush_loop
flush_loop-FlushedWell rs [] off owed wire v = record {
  stream = refl;
  well = v;
  fewer = omega arith;
  answer = inl (refl, refl);
}
flush_loop-FlushedWell [] (m ∷ q) off owed wire v = record {
  stream = refl;
  well = v;
  fewer = omega arith;
  answer = inr (inl refl, λ e. cc);
}
flush_loop-FlushedWell (takes k ∷ rs) (m ∷ q) off owed wire v =
    let n = min (k + 1) (length m - off) in
    let fits : off + n ≤ length m = omega arith in
    let rest =
      flush_loop-FlushedWell rs (popped q (off + n) m) (popped_off (off + n) m) (owed - n)
        (wire ++ take n (drop off m)) (IsQueue-popped m q off owed n v fits) in
    record {
      stream =
          rest.stream
          ∙ append_assoc wire (take n (drop off m)) _
          ∙ ap (◌++◌ wire) (pending-popped m q off n fits);
      well = rest.well;
      fewer = omega (arith, rest.fewer);
      answer = rest.answer;
    }
flush_loop-FlushedWell (interrupted ∷ rs) (m ∷ q) off owed wire v =
    flush_loop-FlushedWell rs (m ∷ q) off owed wire v
flush_loop-FlushedWell (full ∷ rs) (m ∷ q) off owed wire v = record {
  stream = refl;
  well = v;
  fewer = omega arith;
  answer = inr (inl refl, λ e. cc);
}
flush_loop-FlushedWell (ended ∷ rs) (m ∷ q) off owed wire v = record {
  stream = refl;
  well = v;
  fewer = omega arith;
  answer = inr (inr refl, λ e. cc);
}
