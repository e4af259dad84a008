-- ===== src/Rdma/Planned.antt =====
-- What `submit` of src/transport/rdma/rdma_provider.cpp plans is a front of what it is offered.
use hux.Base.{
  ℕ, zero, suc, ◌+◌, ◌-◌, ◌<◌, ◌%◌, leb, ltb, if-all, not, List, [], ◌∷◌, ◌++◌, Option, none, some,
  Option-cases, inl, inr, ◌≡◌, refl, ap, subst, arith, All,
}
use native.Mathlib.Nat.{mod-lt}
use hux.Engine.Chunks.{SubOp}
use hux.Rdma.Queues.{
  Controller, QueuePair, Limits, Clock, Planned, is_allowed, direction, pick_loop,
  pick_queue_pair_locked, anchored, later_on, room, Ahead,
}
use hux.Rdma.Submit.{Plan, plan_loop, planned_on}

-- The operations planned, in order.
abbrev pub ops_of : List Planned → List SubOp
ops_of [] = []
ops_of (p ∷ ps) = p.op ∷ ops_of ps

abbrev pub IsOn : ℕ → Planned → Type 0
IsOn n p = p.qp_index < n

pub ops_of-anchored : (ps : List Planned) → ops_of (anchored ps) ≡ ops_of ps
unfolding anchored
ops_of-anchored [] = refl
ops_of-anchored (p ∷ ps) = ground (arith, ops_of-anchored ps)

pub anchored-IsOn : (n : ℕ) (ps : List Planned) → All (IsOn n) ps → All (IsOn n) (anchored ps)
unfolding anchored
anchored-IsOn n [] h = tt
anchored-IsOn n (p ∷ ps) (here, rest) =
    (if-all (IsOn n) (later_on p.qp_index ps) p _ here here, anchored-IsOn n ps rest)

abbrev Below : ℕ → Option ℕ → Type 0
Below n none = Unit
Below n (some m) = m < n

pick_loop-Below :
    (l : Limits) (qps : ℕ → QueuePair) (next_qp k i : ℕ) (best : Option ℕ) (best_room : ℕ)
    → 0 < l.qp_count
    → Below l.qp_count best
    → Below l.qp_count (pick_loop l qps next_qp k i best best_room)
unfolding pick_loop
pick_loop-Below l qps next_qp zero i best best_room some_there h = h
pick_loop-Below l qps next_qp (suc k) i best best_room some_there h =
    let n = (next_qp + i) % l.qp_count in
    let r = room l.sq_depth (qps n) in
    if-all (Below l.qp_count) (ltb best_room r) _ _
      (pick_loop-Below l qps next_qp k (suc i) (some n) r some_there
        (mod-lt (next_qp + i) some_there))
      (pick_loop-Below l qps next_qp k (suc i) best best_room some_there h)

module _ (K : Controller) (l : Limits) (clock : Clock) (some_there : 0 < l.qp_count) where
  -- The plan is a front of what is offered, on queue pairs that there are.
  pub record IsFront (ops : List SubOp) (ps : List Planned) : Type 0 where
    pub on : All (IsOn l.qp_count) ps
    pub rest : List SubOp
    pub front : ops ≡ ops_of ps ++ rest

  pub plan_loop-IsFront :
      (qps : ℕ → QueuePair) (i : ℕ) (a : Ahead K) (ops : List SubOp)
      → IsFront ops (plan_loop K l clock qps i a ops).entries
  unfolding plan_loop pick_queue_pair_locked
  plan_loop-IsFront qps i a [] = record { on = tt; rest = []; front = refl }
  plan_loop-IsFront qps i a (op ∷ ops) = elim (Option-cases (l.regions op.local_key)) [
    | inl unknown ↦ rw (unknown, plan_loop) (record { on = tt; rest = op ∷ ops; front = refl })
    | inr (lkey, known) ↦
        let picked = pick_queue_pair_locked l qps a.next_qp in
        let b : Ahead K = record a { next_qp = picked.1 } in
        elim (Option-cases picked.0) [
          | inl no_queue ↦
              rw (known, no_queue, plan_loop) (record { on = tt; rest = op ∷ ops; front = refl })
          | inr (m, found) ↦
              let used = a.next_seq m - (qps m).reclaimed in
              let P = λ (p : Plan K l clock). IsFront (op ∷ ops) p.entries in
              let below : m < l.qp_count =
                subst (Below l.qp_count) found
                  (pick_loop-Below l qps a.next_qp l.qp_count 0 none 0 some_there tt) in
              let later = plan_loop-IsFront qps (suc i) (planned_on K l clock i m b op used) ops in
              rw (known, found, plan_loop)
                (if-all P (leb l.sq_depth used) _ _
                  (record { on = tt; rest = op ∷ ops; front = refl })
                  (if-all P
                    (not (is_allowed (K.allow a.cc (direction op) op.length (clock.planned i)))) _ _
                    (record { on = tt; rest = op ∷ ops; front = refl })
                    (record {
                      on = (below, later.on);
                      rest = later.rest;
                      front = ap (λ (x : List SubOp). op ∷ x) later.front;
                    })))
        ]
  ]
