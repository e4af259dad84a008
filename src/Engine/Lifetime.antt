-- ===== src/Engine/Lifetime.antt =====
-- The lifetime of a request in src/core/engine_impl.cpp: threads that end it, and whatever else is
-- called on it, between any two locks of each other.
use hux.Base.{
  ℕ, Bool, List, [], ◌∷◌, Option, some, All, ◌≡◌, refl, arith, ap, Bool-cases, inl, inr, ◌==◌,
  false,
}
use hux.Types.{Status, is_terminal}
use hux.Request.{Request, CompletionEvent}
use hux.Request.Steps.{Op, sets_state, completes, fails, succeeds, ends_cancelled, step}
use hux.Request.Counting.{told}
use hux.Engine.Post.{has_id}
use hux.Engine.Ending.{Thread, finishes_part, counts_event, look_up, strand}
use hux.Engine.Once.{
  to_publish, to_count, to_finish, Owed, Lives, Lives-Owed, completion-Lives, go_on-owes,
  has_id-erase, next_of,
}
use hux.Engine.Threads.{Running, take_turn, take_turn-OwedBy, total, rejoin, total-rejoin}

-- What is due to the request is due from the threads of the run.
abbrev pub IsOnce : Running → Type 0
IsOnce s =
    Owed s.core (total to_publish s.threads) (total to_count s.threads) (total to_finish s.threads)

-- A call on the request that does not end it: the engine ends one only in the threads above.
abbrev IsQuiet : Op → Type 0
IsQuiet (sets_state s) = is_terminal s ≡ false
IsQuiet (fails e) = ⊥
IsQuiet succeeds = ⊥
IsQuiet ends_cancelled = ⊥
IsQuiet _ = Unit

step-Lives : (r : Request) (o : Op) → IsQuiet o → Lives r (step r o)
unfolding step
step-Lives r (sets_state s) h = ground arith
step-Lives r (completes ev) h = completion-Lives r ev
step-Lives r o h = ground arith

-- A thread that comes and owes nothing changes nothing of what is due.
comes-IsOnce :
    (s : Running) (o : Option Thread)
    → next_of to_publish o ≡ 0
    → next_of to_count o ≡ 0
    → next_of to_finish o ≡ 0
    → IsOnce s
    → IsOnce (record s { threads = rejoin o s.threads })
comes-IsOnce s o h1 h2 h3 v = record {
  once = omega (arith, v.once, total-rejoin to_publish o s.threads, h1);
  count = omega (arith, v.count, total-rejoin to_count o s.threads, h2);
  ended = omega (arith, v.ended, total-rejoin to_finish o s.threads, h3);
}

-- Whoever takes the request out of flight owes all that is due to it.
strand-IsOnce :
    (provider : List ℕ) (peer : ℕ) (s : Running)
    → IsOnce s
    → let (c, next) = strand provider peer s.core in
      IsOnce (record { core = c; threads = rejoin next s.threads })
unfolding strand total
strand-IsOnce provider peer s v =
    let c = s.core in
    elim (Bool-cases (has_id c.inflight c.req.id)) [
      | inr out ↦ rw (out, strand) v
      | inl mine ↦ elim (Bool-cases (c.req.peer == peer)) [
        | inr another ↦ rw (mine, another, strand) v
        | inl same ↦
            let gone = ap told (has_id-erase c.inflight c.req.id) in
            let was = ap told mine in
            rw (mine, same, strand)
              record {
                once = omega (arith, v.once, gone, was);
                count = omega (arith, v.count, gone, was);
                ended = omega (arith, v.ended, gone, was);
              }
      ]
    ]

-- One thing that happens to the request.
pub data Happening : Type 0 where
  -- One of its lanes has nothing more to post: a thread comes to `part_done`.
  lane_ends : Happening
  -- A thread of `progress` polls a completion.
  event : CompletionEvent → Happening
  departs : List ℕ → ℕ → Happening
  -- A thread that is about to take a lock takes it.
  moves : ℕ → Happening
  other : Op → Happening

module _ (send : Option (List ℕ → Status)) (has_device : Bool) where
  unfoldable pub happen : Running → Happening → Running
  happen s lane_ends = record s { threads = finishes_part ∷ s.threads }
  happen s (event ev) = record s { threads = rejoin (look_up s.core ev) s.threads }
  happen s (departs provider peer) =
      let (c, next) = strand provider peer s.core in
      record { core = c; threads = rejoin next s.threads }
  happen s (moves k) = take_turn send has_device k s.core s.threads
  happen s (other o) = record s { core = record s.core { req = step s.core.req o } }

  pub lifetime : List Happening → Running → Running
  lifetime [] s = s
  lifetime (h ∷ hs) s = lifetime hs (happen s h)

  abbrev IsHappening : Happening → Type 0
  IsHappening (other o) = IsQuiet o
  IsHappening _ = Unit

  happen-IsOnce : (h : Happening) (s : Running) → IsHappening h → IsOnce s → IsOnce (happen s h)
  unfolding happen look_up
  happen-IsOnce lane_ends s q v = comes-IsOnce s (some finishes_part) refl refl refl v
  happen-IsOnce (event ev) s q v =
      let there = has_id s.core.inflight s.core.req.id in
      comes-IsOnce s _ (go_on-owes to_publish there (counts_event ev) refl)
        (go_on-owes to_count there (counts_event ev) refl)
        (go_on-owes to_finish there (counts_event ev) refl) v
  happen-IsOnce (departs provider peer) s q v = strand-IsOnce provider peer s v
  happen-IsOnce (moves k) s q v =
      let due = take_turn-OwedBy send has_device k s.core s.threads 0 0 0 (record {
        once = omega (arith, v.once);
        count = omega (arith, v.count);
        ended = omega (arith, v.ended);
      }) in
      record {
        once = omega (arith, due.once);
        count = omega (arith, due.count);
        ended = omega (arith, due.ended);
      }
  happen-IsOnce (other o) s q v = Lives-Owed s.core _ (step-Lives s.core.req o q) v

  -- A request that transports carry is ended once. Threads that may end it - in `part_done`, in
  -- `progress` and in `reap_departed_peers` - come at any time and take their locks one by one, in
  -- any order among each other and among any calls that do not themselves end it. If at first the
  -- request is in flight, or its final state, its count as failed, cancelled or succeeded, and its
  -- publication each were set, made or done once or are due from one thread, this stays so: no
  -- thread repeats what another has done or is about to do, and when the request is not in flight
  -- and no thread is left, each was done once.
  pub lifetime-IsOnce :
      (hs : List Happening) (s : Running) → All IsHappening hs → IsOnce s → IsOnce (lifetime hs s)
  unfolding lifetime
  lifetime-IsOnce [] s quiet v = v
  lifetime-IsOnce (h ∷ hs) s (q, quiet) v =
      lifetime-IsOnce hs (happen s h) quiet (happen-IsOnce h s q v)
