-- ===== src/Rdma/Anchors.antt =====
-- Every batch of `submit` of src/transport/rdma/rdma_provider.cpp of which `ibv_post_send` refuses
-- nothing ends, on each queue pair, with a work request that asks for a completion.
use hux.Base.{
  ℕ, ◌<◌, ◌≤◌, ◌^◌, suc, ◌==◌, ==_iff, if◌then◌else◌, if-all, Bool, true, false, List, [], ◌∷◌, ◌≡◌,
  refl, sym, ◌∙◌, subst, arith, All,
}
use hux.Types.{Status}
use hux.Engine.Chunks.{SubOp}
use hux.Rdma.Queues.{
  Controller, Limits, Clock, Planned, anchored, later_on, Connection, submit_capacity, WorkRequest,
  make_wr_id, wr_qp_index,
}
use hux.Rdma.Planned.{IsOn, plan_loop-IsFront}
use hux.Rdma.Submit.{Posting, post_loop, posted_one, planning, submit}

-- Whether one of the work requests is on queue pair `n`.
abbrev pub sent_on : ℕ → List WorkRequest → Bool
sent_on n [] = false
sent_on n (w ∷ ws) = if wr_qp_index w.wr_id == n then true else sent_on n ws

-- Each that is the last on its queue pair asks for a completion.
abbrev pub AreAnchored : List WorkRequest → Type 0
AreAnchored [] = Unit
AreAnchored (w ∷ ws) =
    (sent_on (wr_qp_index w.wr_id) ws ≡ false → w.signaled ≡ true) × AreAnchored ws

index-back : (n seq : ℕ) → n < 2 ^ 15 → wr_qp_index (make_wr_id n seq) ≡ n
unfolding wr_qp_index make_wr_id
index-back n seq h = omega (arith, h)

IsOn-le : (n m : ℕ) (ps : List Planned) → n ≤ m → All (IsOn n) ps → All (IsOn m) ps
IsOn-le n m [] h on = tt
IsOn-le n m (p ∷ ps) h (here, rest) = (omega (arith, here, h), IsOn-le n m ps h rest)

signal_last :
    (p : Planned) (ps : List Planned)
    → later_on p.qp_index ps ≡ false
    → (if later_on p.qp_index ps then p else record p { signal = true }).signal ≡ true
signal_last p ps last = rw last

same_queue :
    (p : Planned) (later : Bool)
    → (if later then p else record p { signal = true }).qp_index ≡ p.qp_index
same_queue p true = refl
same_queue p false = refl

module _ (K : Controller) (l : Limits) (clock : Clock) where
  post_loop-AreAnchored :
      (post_send : ℕ → ℕ) (status : Status) (i : ℕ) (c : Connection K) (ps : List Planned)
      → ((j : ℕ) → post_send j ≡ 0)
      → All (IsOn (2 ^ 15)) ps
      → let r = post_loop K l clock post_send status i c (anchored ps) in
        ((n : ℕ) → sent_on n r.requests ≡ later_on n ps) × AreAnchored r.requests
  unfolding post_loop anchored
  post_loop-AreAnchored post_send status i c [] good on = ((λ n. refl), tt)
  post_loop-AreAnchored post_send status i c (p ∷ ps) good (here, rest) =
      let p' : Planned = (if later_on p.qp_index ps then p else record p { signal = true }) in
      let sent : (post_send i == 0) ≡ true = (==_iff (post_send i) 0).1 (good i) in
      let one = posted_one K l clock i c p' in
      let ih = post_loop-AreAnchored post_send status (suc i) one ps good rest in
      let same : p'.qp_index ≡ p.qp_index = same_queue p (later_on p.qp_index ps) in
      let seq = (c.qps p'.qp_index).posted in
      let id : wr_qp_index (make_wr_id p'.qp_index seq) ≡ p.qp_index =
        index-back p'.qp_index seq (omega (arith, same, here)) ∙ same in
      rw (sent, post_loop)
        (
          (λ n. rw (id, ih.0 n)),
          (
            (λ h. signal_last p ps (
                sym (ih.0 p.qp_index)
                ∙ subst
                    (λ (m : ℕ).
                      sent_on m
                        (post_loop K l clock post_send status (suc i) one (anchored ps)).requests
                      ≡ false)
                    id h)),
            ih.1,
          ),
        )

  -- A batch of which `ibv_post_send` refuses nothing has, on every queue pair that it uses, asked
  -- for a completion of the last work request that it posted there, however the operations are
  -- spread and whatever the controller says. There are from 1 to 2^15 queue pairs.
  pub submit-AreAnchored :
      (post_send : ℕ → ℕ) (c : Connection K) (ops : List SubOp)
      → 0 < l.qp_count
      → l.qp_count ≤ 2 ^ 15
      → ((j : ℕ) → post_send j ≡ 0)
      → AreAnchored (submit K l clock post_send c ops).requests
  unfolding submit
  submit-AreAnchored post_send c [] some_there few good = tt
  submit-AreAnchored post_send c (op ∷ ops) some_there few good =
      let plan = planning K l clock c (op ∷ ops) in
      let ready : Connection K = record c { next_qp = plan.ahead.next_qp; cc = plan.ahead.cc } in
      let P = λ (r : Posting K l clock). AreAnchored r.requests in
      let f =
        plan_loop-IsFront K l clock some_there c.qps 0
          (record {
            next_seq = λ n. (c.qps n).posted;
            since = λ n. (c.qps n).since_signal;
            next_qp = c.next_qp;
            cc = c.cc;
          })
          (op ∷ ops) in
      if-all P c.failed _ _ tt (
        if-all P (submit_capacity l c.qps == 0) _ _ tt
          (post_loop-AreAnchored post_send plan.status 0 ready plan.entries good
            (IsOn-le l.qp_count (2 ^ 15) plan.entries few f.on)).1)
