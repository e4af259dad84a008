-- ===== src/Cc/Tests.antt =====
-- The controllers of src/transport/cc/controller.cpp on concrete histories, with counts for the
-- doubles.
use hux.Base.{
  ℕ, ◌+◌, ◌-◌, ◌*◌, ◌/◌, ltb, ltb_irrefl, leb-of_not_ltb, leb, List, [], ◌∷◌, none, some, refl,
  arith, inl, inr,
}
use hux.Cc.{write, read}
use hux.Cc.Timely
use hux.Cc.Budget.{Event, offers, completes, fails, run, start, run-budget, IsBudgeted}

abbrev counts : Timely.Doubles
counts = record {
  Real = ℕ;
  of_ℕ = λ n. n;
  of_diff = λ a b. a - b;
  add = λ a b. a + b;
  sub = λ a b. a - b;
  mul = λ a b. a * b;
  div = λ a b. a / b;
  lt = ltb;
  le = leb;
  trunc = λ n. n;
  nanoseconds = λ n. n;
  lt_irrefl = ltb_irrefl;
  le_of_not_lt = leb-of_not_ltb;
}

abbrev events : List Event
events =
    offers write 4096
    ∷ offers write 8192
    ∷ offers read 4096
    ∷ completes write 0 500
    ∷ fails read 0
    ∷ []

run-budget_example : IsBudgeted 10_000 8192 (run (start 10_000) events)
run-budget_example =
    run-budget 10_000 8192 events (omega arith)
      (omega arith, (omega arith, (omega arith, (tt, (tt, tt)))))

abbrev params : Timely.TimelyParams counts
params = record {
  t_low = 10;
  t_high = 100;
  beta = 1;
  additive_increase = 5;
  ewma_alpha = 1;
  min_rate = 1000;
  max_rate = 9000;
}

abbrev idle : Timely.Dir counts
idle = record {
  inflight = 0;
  rate = 5000;
  min_delay = none;
  prev_delay = some 40;
  avg_delay_diff_us = 0;
  next_send = 70;
  last_update = none;
}

on_feedback-InRange_example :
    Timely.InRange counts params (Timely.on_feedback counts params idle 4096 90 1000)
on_feedback-InRange_example =
    Timely.on_feedback-InRange counts params idle 4096 90 1000 refl refl refl
      (inl (inr (refl, refl)))
