-- ===== src/Engine/Threads.antt =====
-- The threads of src/core/engine_impl.cpp that end a request, each taking its next lock when its
-- turn comes: what they owe the request together.
use hux.Base.{
  not, if◌then◌else◌, ℕ, zero, suc, ◌+◌, if-all, Bool, true, List, [], ◌∷◌, Option, none, some, ◌≡◌,
  refl, arith, ap,
}
use hux.Types.{Status, is_ok, is_terminal}
use hux.Request.{Request}
use hux.Request.Counting.{told}
use hux.Engine.Post.{Core, has_id}
use hux.Engine.Ending.{
  cancelled, failed, succeeded, gone, count_as, Outcome, Thread, finishes_part, checks_abandoning,
  seals_if_idle, claims_abandoned, decides_abandoned, counts_event, claims_completed,
  decides_completed, marks_complete, hands_over, seals_stranded, counts, finishes, publishes, go_on,
  advance,
}
use hux.Engine.Once.{
  to_publish, to_count, to_finish, next_of, Owed, Lives, Lives-Owed, completion-Lives,
  part_finished-Lives, seal_if_idle-Lives, seal_accepted-Lives, mark_complete-Lives, go_on-owes,
  claimed, finish_as-Ends, publish-published,
}

-- `p`, `n` and `f` are due from threads other than the one that is in `t`.
abbrev OwedWith : Core → Option Thread → ℕ → ℕ → ℕ → Type 0
OwedWith c t p n f =
    Owed c (next_of to_publish t + p) (next_of to_count t + n) (next_of to_finish t + f)

-- A thread that owes nothing changes the request, and goes on or returns.
idle-Owed :
    (p n f : ℕ) (c : Core) (r : Request) (b : Bool) (t : Thread)
    → Lives c.req r
    → to_publish t ≡ 0
    → to_count t ≡ 0
    → to_finish t ≡ 0
    → Owed c (0 + p) (0 + n) (0 + f)
    → OwedWith (record c { req = r }) (go_on b t) p n f
idle-Owed p n f c r b t same h1 h2 h3 v =
    let v' = Lives-Owed c r same v in
    record {
      once = omega (arith, v'.once, go_on-owes to_publish b t h1);
      count = omega (arith, v'.count, go_on-owes to_count b t h2);
      ended = omega (arith, v'.ended, go_on-owes to_finish b t h3);
    }

count_as-Owed :
    (p n f : ℕ) (o : Outcome) (c : Core) → Owed c p (1 + n) f → Owed (count_as o c) p (0 + n) f
unfolding count_as
count_as-Owed p n f cancelled c v = record {
  once = v.once;
  count = omega (arith, v.count);
  ended = v.ended;
}
count_as-Owed p n f failed c v = record {
  once = v.once;
  count = omega (arith, v.count);
  ended = v.ended;
}
count_as-Owed p n f succeeded c v = record {
  once = v.once;
  count = omega (arith, v.count);
  ended = v.ended;
}
count_as-Owed p n f (gone provider) c v = record {
  once = v.once;
  count = omega (arith, v.count);
  ended = v.ended;
}

finish-Owed :
    (p n f : ℕ) (c : Core) (r : Request)
    → (is_terminal r.state ≡ true) × (r.id ≡ c.req.id)
    → Owed c p n (1 + f)
    → Owed (record c { req = r }) p n (0 + f)
finish-Owed p n f c r (ends, same) v =
    let there = ap (λ (t : ℕ). told (has_id c.inflight t)) same in
    record {
      once = omega (arith, v.once, there);
      count = omega (arith, v.count, there);
      ended = omega (arith, v.ended, there, ap told ends);
    }

-- What one thread owes it does, or still owes, whatever it does next.
advance-Owed :
    (send : Option (List ℕ → Status)) (has_device : Bool) (c : Core) (t : Thread) (p n f : ℕ)
    → OwedWith c (some t) p n f
    → OwedWith (advance send has_device c t).0 (advance send has_device c t).1 p n f
unfolding advance
advance-Owed send dev c finishes_part p n f v =
    idle-Owed p n f c _ _ checks_abandoning (part_finished-Lives c.req) refl refl refl v
advance-Owed send dev c checks_abandoning p n f v =
    idle-Owed p n f c c.req _ seals_if_idle (refl, refl) refl refl refl v
advance-Owed send dev c seals_if_idle p n f v =
    idle-Owed p n f c _ _ claims_abandoned (seal_if_idle-Lives c.req) refl refl refl v
advance-Owed send dev c claims_abandoned p n f v =
    claimed p n f c decides_abandoned refl refl refl v
advance-Owed send dev c decides_abandoned p n f v =
    if-all (λ (o : Outcome). OwedWith c (some (counts o)) p n f) c.req.cancel_requested cancelled
      failed v v
advance-Owed send dev c (counts_event ev) p n f v =
    idle-Owed p n f c _ _ claims_completed (completion-Lives c.req ev) refl refl refl v
advance-Owed send dev c claims_completed p n f v =
    claimed p n f c decides_completed refl refl refl v
advance-Owed send dev c decides_completed p n f v =
    let P = λ (t : Thread). OwedWith c (some t) p n f in
    let bad = not (is_ok c.req.error.status) in
    if-all P c.req.cancel_requested (counts cancelled)
      (if bad then counts failed else marks_complete) v
      (if-all P bad (counts failed) marks_complete v v)
advance-Owed send dev c marks_complete p n f v = Lives-Owed c _ (mark_complete-Lives dev c.req) v
advance-Owed send dev c hands_over p n f v = record {
  once = v.once;
  count = v.count;
  ended = v.ended;
}
advance-Owed send dev c (seals_stranded provider) p n f v =
    Lives-Owed c _ (seal_accepted-Lives c.req) v
advance-Owed send dev c (counts o) p n f v = count_as-Owed (1 + p) n (1 + f) o c v
advance-Owed send dev c (finishes o) p n f v =
    finish-Owed (1 + p) (0 + n) f c _ (finish_as-Ends o c.req) v
advance-Owed send dev c publishes p n f v = record {
  once = omega (arith, v.once, publish-published c);
  count = v.count;
  ended = v.ended;
}

unfoldable pub total : (Thread → ℕ) → List Thread → ℕ
total w [] = 0
total w (t ∷ ts) = w t + total w ts

-- The engine's state and the threads that are about to take a lock to end the request.
pub record Running : Type 0 where
  pub core : Core
  pub threads : List Thread

abbrev pub rejoin : Option Thread → List Thread → List Thread
rejoin none ts = ts
rejoin (some t) ts = t ∷ ts

pub total-rejoin :
    (w : Thread → ℕ) (o : Option Thread) (ts : List Thread)
    → total w (rejoin o ts) ≡ next_of w o + total w ts
unfolding total
total-rejoin w none ts = omega arith
total-rejoin w (some t) ts = refl

-- The `k`-th of the threads, if there is one, takes its next lock.
unfoldable pub take_turn : Option (List ℕ → Status) → Bool → ℕ → Core → List Thread → Running
take_turn send has_device k c [] = record { core = c; threads = [] }
take_turn send has_device zero c (t ∷ ts) =
    let (c', next) = advance send has_device c t in record { core = c'; threads = rejoin next ts }
take_turn send has_device (suc k) c (t ∷ ts) =
    let s = take_turn send has_device k c ts in record { core = s.core; threads = t ∷ s.threads }

-- What is due is due from the threads `ts`, and `p`, `n` and `f` of it from others.
abbrev pub OwedBy : Core → List Thread → ℕ → ℕ → ℕ → Type 0
OwedBy c ts p n f =
    Owed c (total to_publish ts + p) (total to_count ts + n) (total to_finish ts + f)

pub rejoin-OwedBy :
    (c : Core) (o : Option Thread) (ts : List Thread) (p n f : ℕ)
    → OwedWith c o (total to_publish ts + p) (total to_count ts + n) (total to_finish ts + f)
    → OwedBy c (rejoin o ts) p n f
rejoin-OwedBy c o ts p n f v = record {
  once = omega (arith, v.once, total-rejoin to_publish o ts);
  count = omega (arith, v.count, total-rejoin to_count o ts);
  ended = omega (arith, v.ended, total-rejoin to_finish o ts);
}

-- The thread `t` counted with the others, or with `ts`.
set_aside :
    (c : Core) (t : Thread) (ts : List Thread) (p n f : ℕ)
    → OwedBy c (t ∷ ts) p n f
    → OwedBy c ts (to_publish t + p) (to_count t + n) (to_finish t + f)
unfolding total
set_aside c t ts p n f v = record {
  once = omega (arith, v.once);
  count = omega (arith, v.count);
  ended = omega (arith, v.ended);
}

pub put_back :
    (c : Core) (t : Thread) (ts : List Thread) (p n f : ℕ)
    → OwedBy c ts (to_publish t + p) (to_count t + n) (to_finish t + f)
    → OwedBy c (t ∷ ts) p n f
unfolding total
put_back c t ts p n f v = record {
  once = omega (arith, v.once);
  count = omega (arith, v.count);
  ended = omega (arith, v.ended);
}

put_front :
    (c : Core) (t : Thread) (ts : List Thread) (p n f : ℕ)
    → OwedBy c (t ∷ ts) p n f
    → OwedWith c (some t) (total to_publish ts + p) (total to_count ts + n) (total to_finish ts + f)
unfolding total
put_front c t ts p n f v = record {
  once = omega (arith, v.once);
  count = omega (arith, v.count);
  ended = omega (arith, v.ended);
}

pub take_turn-OwedBy :
    (send : Option (List ℕ → Status)) (has_device : Bool) (k : ℕ) (c : Core) (ts : List Thread)
    (p n f : ℕ)
    → OwedBy c ts p n f
    → let s = take_turn send has_device k c ts in OwedBy s.core s.threads p n f
unfolding take_turn
take_turn-OwedBy send dev k c [] p n f v = v
take_turn-OwedBy send dev zero c (t ∷ ts) p n f v =
    rejoin-OwedBy _ _ ts p n f (advance-Owed send dev c t _ _ _ (put_front c t ts p n f v))
take_turn-OwedBy send dev (suc k) c (t ∷ ts) p n f v =
    put_back _ t _ p n f (take_turn-OwedBy send dev k c ts _ _ _ (set_aside c t ts p n f v))
