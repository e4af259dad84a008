-- ===== src/Rdma/Accounts.antt =====
-- One connection of src/transport/rdma/rdma_provider.cpp over any batches and completions.
use hux.Base.{
  ℕ, zero, suc, ◌+◌, ◌≤◌, ◌<◌, ◌^◌, Bool, false, List, [], ◌∷◌, ◌++◌, take, ◌≡◌, refl, sym, subst,
  arith,
}
use hux.Request.{CompletionEvent}
use hux.Engine.Chunks.{SubOp}
use hux.Rdma.Queues.{Controller, Limits, Clock, Connection, make_wr_id, wr_qp_index, wr_seq}
use hux.Rdma.Submit.{submit}
use hux.Rdma.Retire.{WcStatus, Wc, retire}
use hux.Rdma.Numbered.{IsTracked, submit-IsTracked, retire-IsTracked}
use hux.Rdma.Outstanding.{
  ops_count, events_count, outstanding, ops_count-append, events_count-append,
}
use hux.Rdma.Taken.{submit-outstanding, retire-outstanding}

-- A batch, with what `ibv_post_send` returns and the clock reads; or the completion, at a time, of
-- the work request with that number on that queue pair.
pub data Step : Type 0 where
  submits : (ℕ → ℕ) → Clock → List SubOp → Step
  completes : ℕ → ℕ → WcStatus → ℕ → ℕ → Step

-- A connection, the operations that `submit` said it took, and the events that `poll` reported.
pub record History (K : Controller) : Type 0 where
  pub connection : Connection K
  pub taken : List SubOp
  pub reported : List CompletionEvent

abbrev pub completion : ℕ → ℕ → WcStatus → ℕ → Wc
completion n seq status code = record { wr_id = make_wr_id n seq; status = status; code = code }

module _ (K : Controller) (l : Limits) where
  unfoldable pub step : History K → Step → History K
  step h (submits post_send clock ops) =
      let r = submit K l clock post_send h.connection ops in
      record {
        connection = r.connection;
        taken = h.taken ++ take r.accepted ops;
        reported = h.reported;
      }
  step h (completes n seq status code at) =
      let (c, events) = retire K l h.connection (completion n seq status code) at in
      record { connection = c; taken = h.taken; reported = h.reported ++ events }

  unfoldable pub run : History K → List Step → History K
  unfolding step
  run h [] = h
  run h (s ∷ ss) = run (step h s) ss

  -- A completion is of a work request that was posted and not reclaimed.
  abbrev pub IsPossible : History K → Step → Type 0
  IsPossible h (submits post_send clock ops) = Unit
  IsPossible h (completes n seq status code at) =
      (n < 2 ^ 15)
      × (seq < 2 ^ 48)
      × ((h.connection.qps n).reclaimed ≤ seq)
      × (seq < (h.connection.qps n).posted)

  abbrev pub ArePossible : History K → List Step → Type 0
  ArePossible h [] = Unit
  ArePossible h (s ∷ ss) = IsPossible h s × ArePossible (step h s) ss

  -- Every queue pair is in order, and every operation taken has been reported once, or stands once
  -- on a queue pair.
  pub record IsAccounted (h : History K) : Type 0 where
    pub tracked : (n : ℕ) → IsTracked l.sq_depth (h.connection.qps n)
    pub once :
        (test : ℕ → ℕ → Bool)
        → events_count test h.reported + outstanding test h.connection.qps l.qp_count
          ≡ ops_count test h.taken

  id-back :
      (n seq : ℕ)
      → n < 2 ^ 15
      → seq < 2 ^ 48
      → (wr_qp_index (make_wr_id n seq) ≡ n) × (wr_seq (make_wr_id n seq) ≡ seq)
  unfolding wr_qp_index wr_seq make_wr_id
  id-back n seq h k = (omega (arith, h, k), omega (arith, h, k))

  step-IsAccounted :
      (h : History K) (s : Step)
      → 0 < l.qp_count
      → IsPossible h s
      → IsAccounted h
      → IsAccounted (step h s)
  unfolding step
  step-IsAccounted h (submits post_send clock ops) some_there possible v = record {
    tracked = submit-IsTracked K l clock post_send h.connection ops v.tracked;
    once = λ test. omega (
      arith,
      v.once test,
      submit-outstanding K l clock some_there test post_send h.connection ops,
      ops_count-append test h.taken
          (take (submit K l clock post_send h.connection ops).accepted ops),
    );
  }
  step-IsAccounted h (completes n seq status code at) some_there (small, fits, low, high) v =
      let wc = completion n seq status code in
      let back = id-back n seq small fits in
      record {
        tracked =
            retire-IsTracked K l h.connection wc at
              (subst (λ (m : ℕ). (h.connection.qps m).reclaimed ≤ wr_seq wc.wr_id) (sym back.0)
                (omega (arith, back.1, low)))
              (subst (λ (m : ℕ). wr_seq wc.wr_id < (h.connection.qps m).posted) (sym back.0)
                (omega (arith, back.1, high)))
              v.tracked;
        once = λ test. omega (
          arith,
          v.once test,
          retire-outstanding K test l h.connection wc at,
          events_count-append test h.reported (retire K l h.connection wc at).1,
        );
      }

  run_from-IsAccounted :
      (h : History K) (ss : List Step)
      → 0 < l.qp_count
      → ArePossible h ss
      → IsAccounted h
      → IsAccounted (run h ss)
  unfolding run
  run_from-IsAccounted h [] some_there possible v = v
  run_from-IsAccounted h (s ∷ ss) some_there (here, rest) v =
      run_from-IsAccounted (step h s) ss some_there rest (step-IsAccounted h s some_there here v)

  -- A connection just made.
  abbrev pub opened : K.State → History K
  opened cc = record {
    connection = record {
      qps = λ n. record { posted = 0; reclaimed = 0; since_signal = 0; unsignalled = [] };
      next_qp = 0;
      failed = false;
      cc = cc;
      subops_posted = 0;
      payload_bytes = 0;
      subops_completed = 0;
      subops_failed = 0;
    };
    taken = [];
    reported = [];
  }

  none_outstanding :
      (cc : K.State) (test : ℕ → ℕ → Bool) (n : ℕ)
      → outstanding test (opened cc).connection.qps n ≡ 0
  none_outstanding cc test zero = refl
  none_outstanding cc test (suc n) = omega (arith, none_outstanding cc test n)

  -- From a connection just made, after any batches, posted as far as `ibv_post_send` lets them, and
  -- any completions of work requests that stand on a queue pair, under any congestion controller:
  -- every operation that `submit` said it took has been reported by `poll` once, or stands once on
  -- a queue pair; what stands on each is numbered without a gap from what was reclaimed to what was
  -- posted, and is no more than its depth. There is a queue pair, and the queue pairs and the work
  -- requests completed are within the 15 and 48 bits of a work request id.
  pub run-IsAccounted :
      (budget : K.State) (ss : List Step)
      → 0 < l.qp_count
      → ArePossible (opened budget) ss
      → IsAccounted (run (opened budget) ss)
  run-IsAccounted budget ss some_there possible =
      run_from-IsAccounted (opened budget) ss some_there possible (record {
        tracked = λ n. record { numbered = refl; within = omega arith };
        once = λ test. omega (arith, none_outstanding budget test l.qp_count);
      })
