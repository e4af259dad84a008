-- ===== src/Rdma/Taken.antt =====
-- What `submit` of src/transport/rdma/rdma_provider.cpp took and `poll` has not reported stands on
-- the queue pairs.
use hux.Base.{
  ℕ, zero, suc, ◌+◌, ◌≤◌, ◌<◌, ◌==◌, leb, if-all, Bool, List, [], ◌∷◌, ◌++◌, take, length,
  Bool-cases, inl, inr, ◌≡◌, refl, sym, ap, ◌∙◌, arith, All,
}
use hux.Types.{Status}
use hux.Engine.Chunks.{SubOp}
use hux.Rdma.Queues.{
  Controller, Entry, Limits, Clock, Planned, anchored, Connection, submit_capacity, wr_qp_index,
  wr_seq,
}
use hux.Rdma.Submit.{Posting, post_loop, posted_one, with_posted, key_of, planning, submit}
use hux.Rdma.Retire.{Wc, retire_loop, retire, status_from_wc, events_of, told_of}
use hux.Rdma.Outstanding.{
  ops_count, entries_count, events_count, outstanding, entries_count-append, outstanding-set,
}
use hux.Rdma.Planned.{ops_of, ops_of-anchored, IsOn, anchored-IsOn, plan_loop-IsFront}

module _ (K : Controller) (l : Limits) (clock : Clock) (some_there : 0 < l.qp_count) where
  -- What posting takes is of what was planned.
  post_loop-le :
      (post_send : ℕ → ℕ) (status : Status) (i : ℕ) (c : Connection K) (ps : List Planned)
      → (post_loop K l clock post_send status i c ps).accepted ≤ length (ops_of ps)
  unfolding post_loop
  post_loop-le post_send status i c [] = omega arith
  post_loop-le post_send status i c (p ∷ ps) =
      if-all (λ (r : Posting K l clock). r.accepted ≤ length (ops_of (p ∷ ps))) (post_send i == 0) _
        _ (omega (arith, post_loop-le post_send status (suc i) (posted_one K l clock i c p) ps))
        (omega arith)

  post_loop-outstanding :
      (test : ℕ → ℕ → Bool) (post_send : ℕ → ℕ) (status : Status) (i : ℕ) (c : Connection K)
      (ps : List Planned)
      → All (IsOn l.qp_count) ps
      → let r = post_loop K l clock post_send status i c ps in
        outstanding test r.connection.qps l.qp_count
        ≡ outstanding test c.qps l.qp_count + ops_count test (take r.accepted (ops_of ps))
  unfolding post_loop
  post_loop-outstanding test post_send status i c [] on = omega arith
  post_loop-outstanding test post_send status i c (p ∷ ps) (here, rest) =
      let q = c.qps p.qp_index in
      let one = posted_one K l clock i c p in
      let entry : Entry = record { seq = q.posted; key = key_of p.op (clock.posted i) } in
      elim (Bool-cases (post_send i == 0)) [
        | inr bad ↦ rw (bad, post_loop) (omega arith)
        | inl good ↦
            rw (good, post_loop)
              (ground (
                arith,
                post_loop-outstanding test post_send status (suc i) one ps rest,
                outstanding-set test c.qps p.qp_index (with_posted q p (clock.posted i)) l.qp_count
                    here,
                entries_count-append test q.unsignalled (entry ∷ []),
              ))
      ]

  front-take :
      (test : ℕ → ℕ → Bool) (xs ys : List SubOp) (k : ℕ)
      → k ≤ length xs
      → ops_count test (take k (xs ++ ys)) ≡ ops_count test (take k xs)
  front-take test xs ys zero h = refl
  front-take test [] ys (suc k) h = absurd (omega arith)
  front-take test (x ∷ xs) ys (suc k) h = ground (arith, front-take test xs ys k (omega arith))

  pub submit-outstanding :
      (test : ℕ → ℕ → Bool) (post_send : ℕ → ℕ) (c : Connection K) (ops : List SubOp)
      → let r = submit K l clock post_send c ops in
        outstanding test r.connection.qps l.qp_count
        ≡ outstanding test c.qps l.qp_count + ops_count test (take r.accepted ops)
  unfolding submit
  submit-outstanding test post_send c [] = omega arith
  submit-outstanding test post_send c (op ∷ ops) =
      let plan = planning K l clock c (op ∷ ops) in
      let ready : Connection K = record c { next_qp = plan.ahead.next_qp; cc = plan.ahead.cc } in
      let P = λ (r : Posting K l clock).
        outstanding test r.connection.qps l.qp_count
        ≡ outstanding test c.qps l.qp_count + ops_count test (take r.accepted (op ∷ ops)) in
      let r = post_loop K l clock post_send plan.status 0 ready (anchored plan.entries) in
      let f =
        plan_loop-IsFront K l clock some_there c.qps 0
          (record {
            next_seq = λ n. (c.qps n).posted;
            since = λ n. (c.qps n).since_signal;
            next_qp = c.next_qp;
            cc = c.cc;
          })
          (op ∷ ops) in
      let whole : op ∷ ops ≡ ops_of (anchored plan.entries) ++ f.rest =
        f.front ∙ ap (λ (x : List SubOp). x ++ f.rest) (sym (ops_of-anchored plan.entries)) in
      let taken : ops_count test (take r.accepted (op ∷ ops))
          ≡ ops_count test (take r.accepted (ops_of (anchored plan.entries))) =
        ap (λ (x : List SubOp). ops_count test (take r.accepted x)) whole
        ∙ front-take test (ops_of (anchored plan.entries)) f.rest r.accepted
            (post_loop-le post_send plan.status 0 ready (anchored plan.entries)) in
      if-all P c.failed _ _ (omega arith) (
        if-all P (submit_capacity l c.qps == 0) _ _ (omega arith) (
          omega (
            arith,
            taken,
            post_loop-outstanding test post_send plan.status 0 ready (anchored plan.entries)
                (anchored-IsOn l.qp_count plan.entries f.on),
          )))

module _ (K : Controller) (test : ℕ → ℕ → Bool) where
  retire_loop-counts :
      (seq at : ℕ) (s : Status) (wc : Wc) (k : K.State) (es : List Entry)
      → let r = retire_loop K seq at s k es in
        events_count test (events_of K wc r.gone) + entries_count test r.left
        ≡ entries_count test es
  unfolding retire_loop
  retire_loop-counts seq at s wc k [] = refl
  retire_loop-counts seq at s wc k (e ∷ es) = elim (Bool-cases (leb e.seq seq)) [
    | inl gone ↦
        rw (gone, retire_loop)
          (ground (arith, retire_loop-counts seq at s wc (told_of K k at s e.key) es))
    | inr stays ↦ rw (stays, retire_loop) (omega arith)
  ]

  pub retire-outstanding :
      (l : Limits) (c : Connection K) (wc : Wc) (at : ℕ)
      → let (c', out) = retire K l c wc at in
        events_count test out + outstanding test c'.qps l.qp_count
        ≡ outstanding test c.qps l.qp_count
  unfolding retire
  retire-outstanding l c wc at =
      let n = wr_qp_index wc.wr_id in
      let seq = wr_seq wc.wr_id in
      let q = c.qps n in
      let s = (status_from_wc wc.status).0 in
      let r = retire_loop K seq at s c.cc q.unsignalled in
      elim (Bool-cases (leb l.qp_count n)) [
        | inl beyond ↦ rw (beyond, retire) (omega arith)
        | inr there ↦
            rw (there, retire)
              (omega (
                arith,
                outstanding-set test c.qps n
                    (record q { reclaimed = seq + 1; unsignalled = r.left }) l.qp_count
                    (ground (arith, there)),
                retire_loop-counts seq at s wc c.cc q.unsignalled,
              ))
      ]
