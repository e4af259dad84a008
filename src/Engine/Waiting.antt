-- ===== src/Engine/Waiting.antt =====
-- Scheduling passes of src/core/engine_impl.cpp post nothing of a request whose dependencies have
-- not been met.
use hux.Base.{
  ℕ, ◌==◌, ==_iff, if-all, true, false, List, [], ◌∷◌, length, Bool-cases, inl, inr, ◌≡◌, refl, sym,
  ◌∙◌, arith, All, ◌⊎◌, Option, none, some, if◌then◌else◌,
}
use hux.Types.{Status, is_ok, no_error}
use hux.Request.{Request, abandoning, note_error}
use hux.Engine.Chunks.{SubOp}
use hux.Engine.Post.{Core, Transport, post_ops, would_block}
use hux.Engine.Turns.{part_done-Keeps}
use hux.Engine.Scheduling.{
  DeviceEvent, dependency_loop, dependency_state, Piece, World, focus, noted, Answers, events_of,
  post, visit, visit_all, Scheduler, turn_order, drain_pending,
}
use hux.Engine.Draining.{turn_order-All}

-- A turn on a request that is being given up posts nothing.
given_up-posts :
    (max_bytes : ℕ) (t : Transport) (ops : List SubOp) (c : Core)
    → abandoning c.req ≡ true
    → (post_ops max_bytes t ops c).core.req.accepted_subops ≡ c.req.accepted_subops
unfolding post_ops
given_up-posts max_bytes t [] c gone = refl
given_up-posts max_bytes t (op ∷ ops) c gone =
    let work : (length (op ∷ ops) == 0) ≡ false = ground arith in
    rw (work, gone, post_ops) (part_done-Keeps c).0

noted-given_up :
    (r : Request) (s : Status)
    → is_ok s ≡ false
    → (abandoning (note_error r (record no_error { status = s })) ≡ true)
      × ((note_error r (record no_error { status = s })).accepted_subops ≡ r.accepted_subops)
unfolding note_error abandoning
noted-given_up r s bad = ground arith

-- How many sub-operations of the request `id` the transports have taken.
abbrev pub taken_of : ℕ → World → ℕ
taken_of id w = (w.requests id).accepted_subops

post-other :
    (max_bytes : ℕ) (a : Answers) (w : World) (p : Piece) (id : ℕ)
    → (id == p.request) ≡ false
    → taken_of id (post max_bytes a w p).0 ≡ taken_of id w
unfolding post
post-other max_bytes a w p id other = ground (arith, other)

post-given_up :
    (max_bytes : ℕ) (a : Answers) (w : World) (p : Piece) (id : ℕ)
    → (id == p.request) ≡ true
    → abandoning (w.requests p.request) ≡ true
    → taken_of id (post max_bytes a w p).0 ≡ taken_of id w
unfolding post
post-given_up max_bytes a w p id same gone =
    let e = (==_iff id p.request).0 same in
    rw e (ground (arith, given_up-posts max_bytes (a.lane p) p.ops (focus w p.request) gone))

-- An event on which work has to wait, or which will never happen.
abbrev pub IsUnmet : Option DeviceEvent → Type 0
IsUnmet none = ⊥
IsUnmet (some e) = (e.recorded ≡ false) ⊎ (is_ok e.query ≡ false) ⊎ (e.complete ≡ false)

-- One of the events named is like that.
abbrev pub HasUnmet : Answers → List ℕ → Type 0
HasUnmet a [] = ⊥
HasUnmet a (x ∷ after) = IsUnmet (a.event x) ⊎ HasUnmet a after

-- A piece whose request is not `id`, or that waits for such an event.
abbrev pub IsHeld : Answers → ℕ → Piece → Type 0
IsHeld a id p = (p.request ≡ id) → HasUnmet a p.after

dependency_loop-bad :
    (s : Status) (es : List (Option DeviceEvent))
    → is_ok s ≡ false
    → is_ok (dependency_loop s es) ≡ false
unfolding dependency_loop
dependency_loop-bad s [] bad = bad
dependency_loop-bad s (none ∷ es) bad = dependency_loop-bad s es bad
dependency_loop-bad s (some e ∷ es) bad =
    let later : is_ok (dependency_loop (if e.complete then s else Status.would_block) es) ≡ false =
      dependency_loop-bad _ es
        (if-all (λ (t : Status). is_ok t ≡ false) e.complete s Status.would_block bad refl) in
    ground (arith, later)

one_unmet :
    (s : Status) (o : Option DeviceEvent) (es : List (Option DeviceEvent))
    → IsUnmet o ⊎ ((t : Status) → is_ok (dependency_loop t es) ≡ false)
    → is_ok (dependency_loop s (o ∷ es)) ≡ false
unfolding dependency_loop
one_unmet s none es (inl never) = elim never [ ]
one_unmet s none es (inr later) = later s
one_unmet s (some e) es (inr later) =
    let rest = later (if e.complete then s else Status.would_block) in ground (arith, rest)
one_unmet s (some e) es (inl (inl unrecorded)) = rw unrecorded refl
one_unmet s (some e) es (inl (inr (inl failed))) = ground (arith, failed)
one_unmet s (some e) es (inl (inr (inr pending))) =
    let rest = dependency_loop-bad Status.would_block es refl in ground (arith, pending, rest)

dependency_loop-unmet :
    (a : Answers) (after : List ℕ) (s : Status)
    → HasUnmet a after
    → is_ok (dependency_loop s (events_of a after)) ≡ false
dependency_loop-unmet a [] s never = elim never [ ]
dependency_loop-unmet a (x ∷ after) s (inl unmet) =
    one_unmet s (a.event x) (events_of a after) (inl unmet)
dependency_loop-unmet a (x ∷ after) s (inr later) =
    one_unmet s (a.event x) (events_of a after) (inr (λ t. dependency_loop-unmet a after t later))

held-bad :
    (a : Answers) (after : List ℕ)
    → HasUnmet a after
    → is_ok (dependency_state (events_of a after)) ≡ false
unfolding dependency_state
held-bad a after h = dependency_loop-unmet a after Status.ok h

visit-held :
    (max_bytes : ℕ) (a : Answers) (w : World) (p : Piece) (id : ℕ)
    → IsHeld a id p
    → taken_of id (visit max_bytes a w p).0 ≡ taken_of id w
unfolding visit
visit-held max_bytes a w p id held =
    let d = dependency_state (events_of a p.after) in
    let P = λ (r : World × List Piece). taken_of id r.0 ≡ taken_of id w in
    let w' = noted w p.request d in
    elim (Bool-cases (id == p.request)) [
      | inr other ↦
          let before : taken_of id w' ≡ taken_of id w = ground (arith, other) in
          if-all P (abandoning (w.requests p.request)) _ _ (post-other max_bytes a w p id other) (
            if-all P (would_block d) _ _ refl (
              if-all P (is_ok d) _ _ (post-other max_bytes a w p id other)
                (post-other max_bytes a w' p id other ∙ before)))
      | inl same ↦
          let e = (==_iff id p.request).0 same in
          let bad = held-bad a p.after (held (sym e)) in
          let given = noted-given_up (w.requests p.request) d bad in
          let before : taken_of id w' ≡ taken_of id w = rw e (ground (arith, given)) in
          let gone : abandoning (w'.requests p.request) ≡ true = ground (arith, given) in
          elim (Bool-cases (abandoning (w.requests p.request))) [
            | inl over ↦ rw (over, visit) (post-given_up max_bytes a w p id same over)
            | inr live ↦
                rw (live, bad, visit)
                  (if-all P (would_block d) _ _ refl
                    (post-given_up max_bytes a w' p id same gone ∙ before))
          ]
    ]

visit_all-held :
    (max_bytes : ℕ) (a : Answers) (w : World) (ps : List Piece) (id : ℕ)
    → All (IsHeld a id) ps
    → taken_of id (visit_all max_bytes a w ps).0 ≡ taken_of id w
unfolding visit_all
visit_all-held max_bytes a w [] id held = refl
visit_all-held max_bytes a w (p ∷ ps) id (here, rest) =
    visit_all-held max_bytes a (visit max_bytes a w p).0 ps id rest
    ∙ visit-held max_bytes a w p id here

-- A scheduling pass leaves the count of sub-operations that transports have taken of a request as
-- it was, if each of its waiting pieces has a device event that has not completed, was never
-- recorded or cannot be queried, whatever else waits and is posted.
pub drain-held :
    (max_bytes : ℕ) (a : Answers) (s : Scheduler) (id : ℕ)
    → All (IsHeld a id) s.pending
    → taken_of id (drain_pending max_bytes a s).world ≡ taken_of id s.world
unfolding drain_pending
drain-held max_bytes a s id held =
    if-all (λ (q : Scheduler). taken_of id q.world ≡ taken_of id s.world) (length s.pending == 0) _
      _ refl
      (visit_all-held max_bytes a s.world (turn_order s.pending s.rr_cursor) id
        (turn_order-All (IsHeld a id) s.pending s.rr_cursor held))
