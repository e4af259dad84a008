-- ===== src/Rdma/Submit.antt =====
-- `RdmaProvider::submit` of src/transport/rdma/rdma_provider.cpp: operations are planned first, and
-- then posted. `post_send i` is what the `i`th call of `ibv_post_send` returns, and 12 is ENOMEM.
use hux.Base.{
  ℕ, suc, ◌+◌, ◌-◌, ◌/◌, ◌%◌, ◌^◌, ◌==◌, leb, if◌then◌else◌, Bool, ◌||◌, not, List, [], ◌∷◌, ◌++◌,
  none, some,
}
use hux.Types.{Status}
use hux.Engine.Chunks.{SubOp}
use hux.Rdma.Queues.{
  Controller, InflightKey, QueuePair, WorkRequest, Limits, Clock, Planned, make_wr_id, direction,
  writes, is_allowed, set, pick_queue_pair_locked, submit_capacity, anchored, Ahead, Connection,
}

abbrev pub must_signal : Limits → ℕ → ℕ → Bool
must_signal l since used =
    leb l.signal_period (since + 1) || leb (l.sq_depth - l.sq_depth / 4) (used + 1)

abbrev pub key_of : SubOp → ℕ → InflightKey
key_of op t = record {
  request = op.request;
  sub_id = op.sub_id;
  is_write = writes op;
  bytes = op.length;
  posted_at = t;
}

abbrev pub request_of : Planned → ℕ → WorkRequest
request_of p seq = record {
  wr_id = make_wr_id p.qp_index seq;
  addr = p.op.local_addr;
  length = p.op.length % 2 ^ 32;
  lkey = p.lkey;
  is_write = writes p.op;
  signaled = p.signal;
  remote_addr = p.op.remote_addr;
  rkey = p.op.remote_key % 2 ^ 32;
}

abbrev pub with_posted : QueuePair → Planned → ℕ → QueuePair
with_posted q p t = record q {
  posted = q.posted + 1;
  since_signal = if p.signal then 0 else q.since_signal + 1;
  unsignalled = q.unsignalled ++ (record { seq = q.posted; key = key_of p.op t } ∷ []);
}

module _ (K : Controller) (l : Limits) (clock : Clock) where
  pub record Plan : Type 0 where
    pub entries : List Planned
    pub ahead : Ahead K
    pub status : Status

  -- One operation more is planned, on queue pair `n`.
  abbrev pub planned_on : ℕ → ℕ → Ahead K → SubOp → ℕ → Ahead K
  planned_on i n a op used = record a {
    next_seq = set a.next_seq n (a.next_seq n + 1);
    since = set a.since n (if must_signal l (a.since n) used then 0 else a.since n + 1);
    cc = K.on_post a.cc (direction op) op.length (clock.planned i);
  }

  unfoldable pub plan_loop : (ℕ → QueuePair) → ℕ → Ahead K → List SubOp → Plan
  plan_loop qps i a [] = record { entries = []; ahead = a; status = Status.ok }
  plan_loop qps i a (op ∷ ops) = elim (l.regions op.local_key) [
    | none ↦ record { entries = []; ahead = a; status = Status.not_found }
    | some lkey ↦
        let picked = pick_queue_pair_locked l qps a.next_qp in
        let b : Ahead K = record a { next_qp = picked.1 } in
        let stop : Plan = record { entries = []; ahead = b; status = Status.would_block } in
        elim picked.0 [
          | none ↦ stop
          | some n ↦
              let used = a.next_seq n - (qps n).reclaimed in
              let rest = plan_loop qps (suc i) (planned_on i n b op used) ops in
              if leb l.sq_depth used
              then stop
              else if not (is_allowed (K.allow a.cc (direction op) op.length (clock.planned i)))
              then stop
              else record rest {
                entries =
                    record {
                      qp_index = n;
                      op = op;
                      signal = must_signal l (a.since n) used;
                      lkey = lkey;
                    }
                    ∷ rest.entries;
              }
        ]
  ]

  -- What was planned from the `i`th operation on and not posted keeps no budget.
  unfoldable pub give_up : ℕ → K.State → List Planned → K.State
  give_up i cc [] = cc
  give_up i cc (p ∷ ps) =
      give_up (suc i) (K.on_error cc (direction p.op) p.op.length (clock.given_up i)) ps

  pub record Posting : Type 0 where
    pub connection : Connection K
    -- The work requests handed over, the refused one included.
    pub requests : List WorkRequest
    pub accepted : ℕ
    pub status : Status
    pub provider_errno : ℕ

  abbrev pub posted_one : ℕ → Connection K → Planned → Connection K
  posted_one i c p = record c {
    qps = set c.qps p.qp_index (with_posted (c.qps p.qp_index) p (clock.posted i));
    subops_posted = c.subops_posted + 1;
    payload_bytes = c.payload_bytes + p.op.length;
  }

  -- `status` is what planning ended with.
  unfoldable pub post_loop : (ℕ → ℕ) → Status → ℕ → Connection K → List Planned → Posting
  unfolding give_up
  post_loop post_send status i c [] = record {
    connection = c;
    requests = [];
    accepted = 0;
    status = status;
    provider_errno = 0;
  }
  post_loop post_send status i c (p ∷ ps) =
      let wr = request_of p (c.qps p.qp_index).posted in
      let rest = post_loop post_send status (suc i) (posted_one i c p) ps in
      if post_send i == 0
      then record rest { requests = wr ∷ rest.requests; accepted = rest.accepted + 1 }
      else record {
        connection = record c { cc = give_up i c.cc (p ∷ ps) };
        requests = wr ∷ [];
        accepted = 0;
        status = if post_send i == 12 then Status.would_block else Status.transport_error;
        provider_errno = post_send i;
      }

  abbrev pub refused : Connection K → Status → Posting
  refused c s = record {
    connection = c;
    requests = [];
    accepted = 0;
    status = s;
    provider_errno = 0;
  }

  abbrev pub planning : Connection K → List SubOp → Plan
  planning c ops =
      plan_loop c.qps 0
        (record {
          next_seq = λ n. (c.qps n).posted;
          since = λ n. (c.qps n).since_signal;
          next_qp = c.next_qp;
          cc = c.cc;
        })
        ops

  unfoldable pub submit : (ℕ → ℕ) → Connection K → List SubOp → Posting
  unfolding post_loop
  submit post_send c [] = refused c (if c.failed then Status.peer_disconnected else Status.ok)
  submit post_send c (op ∷ ops) =
      let plan = planning c (op ∷ ops) in
      let ready = record c { next_qp = plan.ahead.next_qp; cc = plan.ahead.cc } in
      if c.failed
      then refused c Status.peer_disconnected
      else if submit_capacity l c.qps == 0
      then refused c Status.would_block
      else post_loop post_send plan.status 0 ready (anchored plan.entries)
