-- ===== src/Rdma/Numbered.antt =====
-- The sequence numbers of the queue pairs of src/transport/rdma/rdma_provider.cpp, and how many work
-- requests stand on one of them.
use hux.Base.{
  ℕ, suc, ◌+◌, ◌-◌, ◌≤◌, ◌<◌, ◌==◌, ==_iff, leb, if◌then◌else◌, if-all, not, List, [], ◌∷◌, ◌++◌,
  Bool-cases, Option-cases, inl, inr, ◌≡◌, refl, subst, arith,
}
use hux.Types.{Status}
use hux.Engine.Chunks.{SubOp}
use hux.Rdma.Queues.{
  Controller, Entry, QueuePair, Limits, Clock, Planned, is_allowed, direction,
  pick_queue_pair_locked, anchored, Ahead, Connection, submit_capacity, wr_qp_index, wr_seq,
}
use hux.Rdma.Submit.{
  Plan, plan_loop, planned_on, Posting, post_loop, posted_one, with_posted, planning, submit,
}
use hux.Rdma.Retire.{Wc, retire_loop, retire}

-- Entries that are numbered from `lo` on, up to `hi`.
abbrev pub Numbered : ℕ → List Entry → ℕ → Type 0
Numbered lo [] hi = lo ≡ hi
Numbered lo (e ∷ es) hi = (e.seq ≡ lo) × Numbered (lo + 1) es hi

pub Numbered-le : (lo : ℕ) (es : List Entry) (hi : ℕ) → Numbered lo es hi → lo ≤ hi
Numbered-le lo [] hi h = omega (arith, h)
Numbered-le lo (e ∷ es) hi h = omega (arith, Numbered-le (lo + 1) es hi h.1)

Numbered-append :
    (lo : ℕ) (es : List Entry) (hi : ℕ) (e : Entry)
    → e.seq ≡ hi
    → Numbered lo es hi
    → Numbered lo (es ++ (e ∷ [])) (hi + 1)
Numbered-append lo [] hi e same h = (omega (arith, same, h), omega (arith, h))
Numbered-append lo (x ∷ es) hi e same (here, rest) =
    (here, Numbered-append (lo + 1) es hi e same rest)

-- What is outstanding on a queue pair is numbered from what has been reclaimed to what has been
-- posted, and fits the queue.
pub record IsTracked (depth : ℕ) (q : QueuePair) : Type 0 where
  pub numbered : Numbered q.reclaimed q.unsignalled q.posted
  pub within : q.posted ≤ q.reclaimed + depth

-- How many entries are planned on queue pair `n`.
abbrev pub share : ℕ → List Planned → ℕ
share n [] = 0
share n (p ∷ ps) = if p.qp_index == n then suc (share n ps) else share n ps

share-anchored : (n : ℕ) (ps : List Planned) → share n (anchored ps) ≡ share n ps
unfolding anchored
share-anchored n [] = refl
share-anchored n (p ∷ ps) = ground (arith, share-anchored n ps)

module _ (K : Controller) (l : Limits) (clock : Clock) where
  -- Planning leaves room for what it plans.
  plan_loop-room :
      (qps : ℕ → QueuePair) (i : ℕ) (a : Ahead K) (ops : List SubOp) (n : ℕ)
      → ((m : ℕ) → a.next_seq m ≤ (qps m).reclaimed + l.sq_depth)
      → share n (plan_loop K l clock qps i a ops).entries + a.next_seq n
        ≤ (qps n).reclaimed + l.sq_depth
  unfolding plan_loop
  plan_loop-room qps i a [] n fits = omega (arith, fits n)
  plan_loop-room qps i a (op ∷ ops) n fits = elim (Option-cases (l.regions op.local_key)) [
    | inl unknown ↦ rw (unknown, plan_loop) (omega (arith, fits n))
    | inr (lkey, known) ↦
        let picked = pick_queue_pair_locked l qps a.next_qp in
        let b : Ahead K = record a { next_qp = picked.1 } in
        elim (Option-cases picked.0) [
          | inl no_queue ↦ rw (known, no_queue, plan_loop) (omega (arith, fits n))
          | inr (m, found) ↦
              let used = a.next_seq m - (qps m).reclaimed in
              let P = λ (p : Plan K l clock).
                share n p.entries + a.next_seq n ≤ (qps n).reclaimed + l.sq_depth in
              rw (known, found, plan_loop)
                (elim (Bool-cases (leb l.sq_depth used)) [
                  | inl full ↦ rw full (omega (arith, fits n))
                  | inr room ↦
                      let later =
                        plan_loop-room qps (suc i) (planned_on K l clock i m b op used) ops n
                          (λ k. ground (arith, fits k, room, ==_iff k m)) in
                      rw room (
                        if-all P
                          (not
                            (is_allowed (K.allow a.cc (direction op) op.length (clock.planned i))))
                          _ _ (omega (arith, fits n)) (ground (arith, later, ==_iff n m)))
                ])
        ]
  ]

  post_loop-IsTracked :
      (post_send : ℕ → ℕ) (status : Status) (i : ℕ) (c : Connection K) (ps : List Planned) (n : ℕ)
      → ((m : ℕ) → Numbered (c.qps m).reclaimed (c.qps m).unsignalled (c.qps m).posted)
      → ((m : ℕ) → share m ps + (c.qps m).posted ≤ (c.qps m).reclaimed + l.sq_depth)
      → IsTracked l.sq_depth ((post_loop K l clock post_send status i c ps).connection.qps n)
  unfolding post_loop
  post_loop-IsTracked post_send status i c [] n ordered fits = record {
    numbered = ordered n;
    within = omega (arith, fits n);
  }
  post_loop-IsTracked post_send status i c (p ∷ ps) n ordered fits =
      let q = c.qps p.qp_index in
      let one = posted_one K l clock i c p in
      let ordered' : (m : ℕ)
          → Numbered (one.qps m).reclaimed (one.qps m).unsignalled (one.qps m).posted =
        λ m.
          if-all (λ (x : QueuePair). Numbered x.reclaimed x.unsignalled x.posted) (m == p.qp_index)
            (with_posted q p (clock.posted i)) (c.qps m)
            (Numbered-append q.reclaimed q.unsignalled q.posted _ refl (ordered p.qp_index))
            (ordered m) in
      let fits' : (m : ℕ) → share m ps + (one.qps m).posted ≤ (one.qps m).reclaimed + l.sq_depth =
        λ m. ground (arith, fits m, ==_iff m p.qp_index, ==_iff p.qp_index m) in
      if-all (λ (r : Posting K l clock). IsTracked l.sq_depth (r.connection.qps n))
        (post_send i == 0) _ _
        (post_loop-IsTracked post_send status (suc i) one ps n ordered' fits')
        (record { numbered = ordered n; within = ground (arith, fits n) })

  pub submit-IsTracked :
      (post_send : ℕ → ℕ) (c : Connection K) (ops : List SubOp)
      → ((m : ℕ) → IsTracked l.sq_depth (c.qps m))
      → (n : ℕ) → IsTracked l.sq_depth ((submit K l clock post_send c ops).connection.qps n)
  unfolding submit
  submit-IsTracked post_send c [] v n = v n
  submit-IsTracked post_send c (op ∷ ops) v n =
      let plan = planning K l clock c (op ∷ ops) in
      let ready : Connection K = record c { next_qp = plan.ahead.next_qp; cc = plan.ahead.cc } in
      let P = λ (r : Posting K l clock). IsTracked l.sq_depth (r.connection.qps n) in
      if-all P c.failed _ _ (v n) (
        if-all P (submit_capacity l c.qps == 0) _ _ (v n) (
          post_loop-IsTracked post_send plan.status 0 ready (anchored plan.entries) n
            (λ m. (v m).numbered)
            (λ m. omega (
              arith,
              share-anchored m plan.entries,
              plan_loop-room c.qps 0
                  (record {
                    next_seq = λ k. (c.qps k).posted;
                    since = λ k. (c.qps k).since_signal;
                    next_qp = c.next_qp;
                    cc = c.cc;
                  })
                  (op ∷ ops) m (λ k. (v k).within),
            ))))

module _ (K : Controller) where
  -- What is left after a completion is numbered from the next one on.
  pub retire_loop-Numbered :
      (seq at : ℕ) (s : Status) (lo : ℕ) (k : K.State) (es : List Entry) (hi : ℕ)
      → Numbered lo es hi
      → lo ≤ seq + 1
      → seq < hi
      → Numbered (seq + 1) (retire_loop K seq at s k es).left hi
  unfolding retire_loop
  retire_loop-Numbered seq at s lo k [] hi h low high = omega (arith, h)
  retire_loop-Numbered seq at s lo k (e ∷ es) hi (here, rest) low high =
      elim (Bool-cases (leb e.seq seq)) [
        | inl yes_gone ↦
            rw (yes_gone, retire_loop)
              (retire_loop-Numbered seq at s (lo + 1) _ es hi rest (ground (arith, yes_gone, here))
                high)
        | inr stays ↦
            let last : lo ≡ seq + 1 = ground (arith, stays, here) in
            rw (stays, retire_loop) (subst (λ (x : ℕ). Numbered x (e ∷ es) hi) last (here, rest))
      ]

  pub retire-IsTracked :
      (l : Limits) (c : Connection K) (wc : Wc) (at : ℕ)
      → let n = wr_qp_index wc.wr_id in
        (c.qps n).reclaimed ≤ wr_seq wc.wr_id
        → wr_seq wc.wr_id < (c.qps n).posted
        → ((m : ℕ) → IsTracked l.sq_depth (c.qps m))
        → (m : ℕ) → IsTracked l.sq_depth ((retire K l c wc at).0.qps m)
  unfolding retire
  retire-IsTracked l c wc at low high v m =
      let n = wr_qp_index wc.wr_id in
      let q = c.qps n in
      let seq = wr_seq wc.wr_id in
      if-all (λ (r : Connection K × _). IsTracked l.sq_depth (r.0.qps m)) (leb l.qp_count n) _ _
        (v m)
        (if-all (IsTracked l.sq_depth) (m == n) _ _
          (record {
            numbered =
                retire_loop-Numbered seq at _ q.reclaimed c.cc q.unsignalled q.posted (v n).numbered
                  (omega (arith, low)) high;
            within = omega (arith, (v n).within, low);
          })
          (v m))
