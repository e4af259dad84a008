-- ===== src/Engine/Once.antt =====
-- The threads of src/core/engine_impl.cpp that end a request which transports carry - they are in
-- `part_done`, `progress` and `reap_departed_peers`; notifications are not such requests - each
-- taking one lock at a time: what is still due to the request, and who owes it.
use hux.Base.{
  ℕ, ◌+◌, Bool, true, false, List, [], ◌∷◌, length, length-append, Option, none, some, ◌≡◌, refl,
  ap, arith, Bool-cases, inl, inr,
}
use hux.Types.{is_terminal}
use hux.Request.{
  Request, CompletionEvent, mark_stage, seal_accepted, on_subop_complete, fail, finish_success,
  finish_cancelled, part_finished, seal_if_idle,
}
use hux.Request.Counting.{told}
use hux.Engine.Queues.{keep_completed_locked}
use hux.Engine.Post.{Core, claim, publish, has_id, erase}
use hux.Engine.Ending.{
  mark_complete, Outcome, cancelled, failed, succeeded, gone, finish_as, Thread, finishes_part,
  checks_abandoning, seals_if_idle, claims_abandoned, counts_event, claims_completed, finishes,
  publishes, go_on,
}

-- How often it was published: what the queue holds of it and what the queue let go.
abbrev pub published : Core → ℕ
published c = length c.completed.items + c.completed.dropped

abbrev pub counted : Core → ℕ
counted c = c.requests_failed + c.requests_cancelled + c.requests_succeeded

keep-counts :
    (depth : ℕ) (items : List ℕ) (dropped id : ℕ)
    → let q' = (keep_completed_locked depth (record { items = items; dropped = dropped }) id).0 in
      length q'.items + q'.dropped ≡ length items + dropped + 1
unfolding keep_completed_locked
keep-counts depth [] dropped id = ground arith
keep-counts depth (x ∷ xs) dropped id = ground (arith, length-append xs (id ∷ []))

pub publish-published : (c : Core) → published (publish c) ≡ published c + 1
unfolding publish
publish-published c =
    keep-counts c.completion_queue_depth c.completed.items c.completed.dropped c.req.id

pub has_id-erase : (xs : List ℕ) (id : ℕ) → has_id (erase xs id) id ≡ false
has_id-erase [] id = refl
has_id-erase (x ∷ xs) id = ground (arith, has_id-erase xs id)

-- Whether the thread has the request's publication, its count, or its final state before it.
abbrev pub to_publish : Thread → ℕ
to_publish finishes_part = 0
to_publish checks_abandoning = 0
to_publish seals_if_idle = 0
to_publish claims_abandoned = 0
to_publish (counts_event ev) = 0
to_publish claims_completed = 0
to_publish _ = 1

abbrev pub to_finish : Thread → ℕ
to_finish publishes = 0
to_finish t = to_publish t

abbrev pub to_count : Thread → ℕ
to_count (finishes o) = 0
to_count t = to_finish t

abbrev pub next_of : (Thread → ℕ) → Option Thread → ℕ
next_of w none = 0
next_of w (some t) = w t

-- The request is in flight, or its publication, its count and its final state were done once or are
-- each due from one thread: `p`, `n` and `f` say how many of each are due.
pub record Owed (c : Core) (p n f : ℕ) : Type 0 where
  pub once : published c + p + told (has_id c.inflight c.req.id) ≡ 1
  pub count : counted c + n + told (has_id c.inflight c.req.id) ≡ 1
  pub ended : told (is_terminal c.req.state) + f + told (has_id c.inflight c.req.id) ≡ 1

-- What leaves a request as live, or as ended, as it was.
abbrev pub Lives : Request → Request → Type 0
Lives r s = (s.id ≡ r.id) × (is_terminal s.state ≡ is_terminal r.state)

pub Lives-Owed :
    {p n f : ℕ} (c : Core) (r : Request)
    → Lives c.req r
    → Owed c p n f
    → Owed (record c { req = r }) p n f
Lives-Owed c r (same, live) v =
    let there = ap (λ (t : ℕ). told (has_id c.inflight t)) same in
    record {
      once = omega (arith, v.once, there);
      count = omega (arith, v.count, there);
      ended = omega (arith, v.ended, there, ap told live);
    }

abbrev Ends : Request → Request → Type 0
Ends r s = (is_terminal s.state ≡ true) × (s.id ≡ r.id)

pub finish_as-Ends : (o : Outcome) (r : Request) → Ends r (finish_as o r)
unfolding finish_as finish_cancelled fail finish_success
finish_as-Ends cancelled r = ground arith
finish_as-Ends failed r = ground arith
finish_as-Ends succeeded r = ground arith
finish_as-Ends (gone provider) r = ground arith

pub mark_complete-Lives : (has_device : Bool) (r : Request) → Lives r (mark_complete has_device r)
unfolding mark_complete mark_stage
mark_complete-Lives has_device r = ground arith

pub completion-Lives : (r : Request) (ev : CompletionEvent) → Lives r (on_subop_complete r ev).0
unfolding on_subop_complete
completion-Lives r ev = ground arith

pub part_finished-Lives : (r : Request) → Lives r (part_finished r).0
unfolding part_finished
part_finished-Lives r = ground arith

pub seal_if_idle-Lives : (r : Request) → Lives r (seal_if_idle r).0
unfolding seal_if_idle
seal_if_idle-Lives r = (refl, refl)

pub seal_accepted-Lives : (r : Request) → Lives r (seal_accepted r)
unfolding seal_accepted
seal_accepted-Lives r = (refl, refl)

-- A thread that owes nothing goes on or not to where it owes nothing.
pub go_on-owes : (w : Thread → ℕ) (b : Bool) (t : Thread) → w t ≡ 0 → next_of w (go_on b t) ≡ 0
go_on-owes w true t h = h
go_on-owes w false t h = refl

pub claimed :
    (p n f : ℕ) (c : Core) (t : Thread)
    → to_publish t ≡ 1
    → to_count t ≡ 1
    → to_finish t ≡ 1
    → Owed c (0 + p) (0 + n) (0 + f)
    → let s = claim c in
      let o = go_on s.1 t in
      Owed s.0 (next_of to_publish o + p) (next_of to_count o + n) (next_of to_finish o + f)
unfolding claim
claimed p n f c t h1 h2 h3 v =
    let out = ap told (has_id-erase c.inflight c.req.id) in
    elim (Bool-cases (has_id c.inflight c.req.id)) [
      | inl mine ↦ rw mine record {
        once = omega (arith, v.once, out, ap told mine, h1);
        count = omega (arith, v.count, out, ap told mine, h2);
        ended = omega (arith, v.ended, out, ap told mine, h3);
      }
      | inr other ↦ rw other record {
        once = omega (arith, v.once, out, ap told other);
        count = omega (arith, v.count, out, ap told other);
        ended = omega (arith, v.ended, out, ap told other);
      }
    ]
