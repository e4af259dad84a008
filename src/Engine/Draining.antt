-- ===== src/Engine/Draining.antt =====
-- Scheduling passes of src/core/engine_impl.cpp: every piece of work comes to an end.
use hux.Base.{
  ℕ, zero, suc, ◌≤◌, ◌<◌, ◌==◌, leb, if◌then◌else◌, if-all, Bool, true, false, List, [], ◌∷◌, ◌++◌,
  take, drop, length, Bool-cases, inl, inr, ◌≡◌, refl, sym, ap, ◌∙◌, subst, arith, All, All-append,
  All-take, All-drop,
}
use hux.Types.{is_ok}
use hux.Request.{abandoning}
use hux.Engine.Chunks.{SubOp}
use hux.Engine.Post.{Core, Transport, post_ops, would_block}
use hux.Engine.Lane.{IsWilling, post_ops-shrinks}
use hux.Engine.Scheduling.{
  dependency_state, Piece, World, focus, noted, Answers, events_of, post, visit, visit_all,
  Scheduler, turn_order, drain_pending,
}

-- Answers under which every piece could go on: each lane takes at least one operation of an offer,
-- and no dependency is still pending.
pub record IsReady (a : Answers) : Type 0 where
  pub willing : (p : Piece) → IsWilling (a.lane p)
  pub met : (after : List ℕ) → would_block (dependency_state (events_of a after)) ≡ false

abbrev pub Within : ℕ → List Piece → Type 0
Within n = All (λ (p : Piece). length p.ops ≤ n)

no_ops-finished :
    (max_bytes : ℕ) (t : Transport) (c : Core) → (post_ops max_bytes t [] c).finished ≡ true
unfolding post_ops
no_ops-finished max_bytes t c = refl

-- What waits of a piece after a turn: nothing of one without operations, and of any other fewer.
abbrev Less : ℕ → List Piece → Type 0
Less zero ps = ps ≡ []
Less (suc n) ps = Within n ps

Less-nil : (n : ℕ) → Less n []
Less-nil zero = refl
Less-nil (suc n) = tt

Less-append : (n : ℕ) (xs ys : List Piece) → Less n xs → Less n ys → Less n (xs ++ ys)
Less-append zero xs ys h k = ap (λ (l : List Piece). l ++ ys) h ∙ k
Less-append (suc n) xs ys h k = All-append (λ (p : Piece). length p.ops ≤ n) xs ys h k

abbrev waits_of : Piece → Bool → List SubOp → List Piece
waits_of p finished ops = if finished then [] else record p { ops = ops } ∷ []

post-waits :
    (max_bytes : ℕ) (a : Answers) (w : World) (p : Piece)
    → let t = post_ops max_bytes (a.lane p) p.ops (focus w p.request) in
      (post max_bytes a w p).1 ≡ waits_of p t.finished t.ops
unfolding post
post-waits max_bytes a w p = ground arith

-- By the operations of the piece.
turn-Less :
    (max_bytes : ℕ) (t : Transport) (p : Piece) (ops : List SubOp) (c : Core) (n : ℕ)
    → IsWilling t
    → length ops ≤ n
    → Less n (waits_of p (post_ops max_bytes t ops c).finished (post_ops max_bytes t ops c).ops)
turn-Less max_bytes t p [] c n willing small = rw (no_ops-finished max_bytes t c) (Less-nil n)
turn-Less max_bytes t p (op ∷ ops) c zero willing small = absurd (omega arith)
turn-Less max_bytes t p (op ∷ ops) c (suc n) willing small =
    if-all (Within n) (post_ops max_bytes t (op ∷ ops) c).finished _ _ tt
      (omega (arith, post_ops-shrinks max_bytes t op ops c willing), tt)

post-Less :
    (max_bytes : ℕ) (a : Answers) (w : World) (p : Piece) (n : ℕ)
    → IsWilling (a.lane p)
    → length p.ops ≤ n
    → Less n (post max_bytes a w p).1
post-Less max_bytes a w p n willing small =
    subst (Less n) (sym (post-waits max_bytes a w p))
      (turn-Less max_bytes (a.lane p) p p.ops (focus w p.request) n willing small)

visit-Less :
    (max_bytes : ℕ) (a : Answers) (w : World) (p : Piece) (n : ℕ)
    → IsReady a
    → length p.ops ≤ n
    → Less n (visit max_bytes a w p).1
unfolding visit
visit-Less max_bytes a w p n ready small =
    let P = λ (r : World × List Piece). Less n r.1 in
    let d = dependency_state (events_of a p.after) in
    rw (ready.met p.after, visit)
      (if-all P (abandoning (w.requests p.request)) _ _
        (post-Less max_bytes a w p n (ready.willing p) small)
        (if-all P (is_ok d) _ _ (post-Less max_bytes a w p n (ready.willing p) small)
          (post-Less max_bytes a (noted w p.request d) p n (ready.willing p) small)))

visit_all-Less :
    (max_bytes : ℕ) (a : Answers) (w : World) (ps : List Piece) (n : ℕ)
    → IsReady a
    → Within n ps
    → Less n (visit_all max_bytes a w ps).1
unfolding visit_all
visit_all-Less max_bytes a w [] n ready small = Less-nil n
visit_all-Less max_bytes a w (p ∷ ps) n ready (here, rest) =
    Less-append n (visit max_bytes a w p).1 _ (visit-Less max_bytes a w p n ready here)
      (visit_all-Less max_bytes a (visit max_bytes a w p).0 ps n ready rest)

pub turn_order-All {κ} :
    (P : Piece → Type κ) (ps : List Piece) (cursor : ℕ) → All P ps → All P (turn_order ps cursor)
turn_order-All P ps cursor h =
    let c = (if leb (length ps) cursor then 0 else cursor) in
    All-append P (drop c ps) (take c ps) (All-drop P c ps h) (All-take P c ps h)

no_pieces : (ps : List Piece) → (length ps == 0) ≡ true → ps ≡ []
no_pieces [] h = refl
no_pieces (p ∷ ps) h = ground arith

drain-Less :
    (max_bytes : ℕ) (a : Answers) (s : Scheduler) (n : ℕ)
    → IsReady a
    → Within n s.pending
    → Less n (drain_pending max_bytes a s).pending
unfolding drain_pending
drain-Less max_bytes a s n ready small = elim (Bool-cases (length s.pending == 0)) [
  | inl idle ↦
      rw (idle, drain_pending) (subst (Less n) (sym (no_pieces s.pending idle)) (Less-nil n))
  | inr busy ↦
      rw (busy, drain_pending)
        (visit_all-Less max_bytes a s.world (turn_order s.pending s.rr_cursor) n ready
          (turn_order-All (λ (p : Piece). length p.ops ≤ n) s.pending s.rr_cursor small))
]

pub passes : ℕ → List Answers → Scheduler → Scheduler
passes max_bytes [] s = s
passes max_bytes (a ∷ more) s = passes max_bytes more (drain_pending max_bytes a s)

idle_stays :
    (max_bytes : ℕ) (answers : List Answers) (s : Scheduler)
    → s.pending ≡ []
    → (passes max_bytes answers s).pending ≡ []
unfolding passes drain_pending
idle_stays max_bytes [] s idle = idle
idle_stays max_bytes (a ∷ more) s idle =
    idle_stays max_bytes more (drain_pending max_bytes a s) (rw (idle, drain_pending))

-- More scheduling passes than any waiting piece of work has operations leave nothing waiting,
-- whatever requests the pieces belong to and wherever each pass starts, as long as in each pass no
-- event is still pending and every lane's transport takes at least one operation of an offer.
pub passes-finish :
    (max_bytes : ℕ) (answers : List Answers) (s : Scheduler) (n : ℕ)
    → All IsReady answers
    → Within n s.pending
    → n < length answers
    → (passes max_bytes answers s).pending ≡ []
unfolding passes
passes-finish max_bytes [] s n ready small enough = absurd (omega arith)
passes-finish max_bytes (a ∷ more) s zero (here, rest) small enough =
    idle_stays max_bytes more (drain_pending max_bytes a s)
      (drain-Less max_bytes a s zero here small)
passes-finish max_bytes (a ∷ more) s (suc n) (here, rest) small enough =
    passes-finish max_bytes more (drain_pending max_bytes a s) n rest
      (drain-Less max_bytes a s (suc n) here small) (omega arith)
