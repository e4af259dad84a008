-- ===== src/Engine/Scheduling.antt =====
-- `drain_pending` and `dependency_state` of src/core/engine_impl.cpp: one scheduling pass over the
-- pieces of work that wait, whatever requests they belong to.
use hux.Base.{
  ℕ, ◌==◌, ltb, leb, if◌then◌else◌, Bool, not, List, [], ◌∷◌, ◌++◌, take, drop, length, Option,
  none, some,
}
use hux.Types.{Status, is_ok, no_error}
use hux.Request.{Request, abandoning, note_error}
use hux.Engine.Chunks.{SubOp}
use hux.Engine.Post.{Core, Transport, post_ops, would_block}

-- A device event as it stands at one moment: `query` is what asking it answers.
pub record DeviceEvent : Type 0 where
  pub recorded : Bool
  pub query : Status
  pub complete : Bool

-- The loop of `dependency_state`, `none` for a null pointer.
unfoldable pub dependency_loop : Status → List (Option DeviceEvent) → Status
dependency_loop state [] = state
dependency_loop state (none ∷ es) = dependency_loop state es
dependency_loop state (some e ∷ es) =
    let rest = dependency_loop (if e.complete then state else Status.would_block) es in
    if not e.recorded
    then Status.invalid_argument
    else if not (is_ok e.query)
    then e.query
    else rest

unfoldable pub dependency_state : List (Option DeviceEvent) → Status
unfolding dependency_loop
dependency_state after = dependency_loop Status.ok after

-- `PendingSubmit`: the request by its id, and the connection, its transport and its peer by the
-- lane; `after` names device events.
pub record Piece : Type 0 where
  pub request : ℕ
  pub ops : List SubOp
  pub lane : ℕ
  pub after : List ℕ

-- Every request, and what they share; the `req` of `engine` is the one handled last.
pub record World : Type 0 where
  pub requests : ℕ → Request
  pub engine : Core

abbrev pub focus : World → ℕ → Core
focus w id = record w.engine { req = w.requests id }

abbrev pub put_back : World → ℕ → Core → World
put_back w id c = record { requests = λ n. if n == id then c.req else w.requests n; engine = c }

abbrev pub noted : World → ℕ → Status → World
noted w id s =
    put_back w id
      (record (focus w id) { req = note_error (w.requests id) (record no_error { status = s }) })

-- How the lanes and the device events answer during a pass.
pub record Answers : Type 0 where
  pub lane : Piece → Transport
  pub event : ℕ → Option DeviceEvent

abbrev pub events_of : Answers → List ℕ → List (Option DeviceEvent)
events_of a [] = []
events_of a (x ∷ xs) = a.event x ∷ events_of a xs

module _ (max_bytes : ℕ) (a : Answers) where
  -- A turn of `post_ops` on a piece, and what waits of it.
  unfoldable pub post : World → Piece → World × List Piece
  post w p =
      let t = post_ops max_bytes (a.lane p) p.ops (focus w p.request) in
      let w' = put_back w p.request t.core in
      if t.finished then (w', []) else (w', record p { ops = t.ops } ∷ [])

  -- The body of the loop over the pieces.
  unfoldable pub visit : World → Piece → World × List Piece
  unfolding post
  visit w p =
      let d = dependency_state (events_of a p.after) in
      if abandoning (w.requests p.request)
      then post w p
      else if would_block d
      then (w, p ∷ [])
      else if is_ok d
      then post w p
      else post (noted w p.request d) p

  unfoldable pub visit_all : World → List Piece → World × List Piece
  visit_all w [] = (w, [])
  visit_all w (p ∷ ps) =
      let (w', mine) = visit w p in let (w'', others) = visit_all w' ps in (w'', mine ++ others)

-- `pending_` and `rr_cursor_`.
pub record Scheduler : Type 0 where
  pub world : World
  pub pending : List Piece
  pub rr_cursor : ℕ

-- The order of a pass: the queue, rotated by the cursor.
abbrev pub turn_order : List Piece → ℕ → List Piece
turn_order pending cursor =
    let c = (if leb (length pending) cursor then 0 else cursor) in drop c pending ++ take c pending

unfoldable pub drain_pending : ℕ → Answers → Scheduler → Scheduler
unfolding visit_all
drain_pending max_bytes a s =
    let (w, still_waiting) = visit_all max_bytes a s.world (turn_order s.pending s.rr_cursor) in
    if length s.pending == 0 then s else record {
      world = w;
      pending = still_waiting;
      rr_cursor = if ltb 1 (length s.pending) then 1 else 0;
    }
