-- ===== src/Engine/Alone.antt =====
-- `EngineImpl::part_done` of src/core/engine_impl.cpp where no other thread takes a lock while it
-- runs: the thread of Engine/Ending on its own.
use hux.Base.{ℕ, zero, suc, Bool, List, Option, none, some, ◌≡◌, refl, Bool-cases, inl, inr}
use hux.Types.{Status}
use hux.Request.{part_finished, abandoning, seal_if_idle}
use hux.Engine.Post.{Core, claim, publish, has_id, part_done, end_abandoned}
use hux.Engine.Ending.{Thread, finishes_part, count_as, finish_as, advance}

-- The thread's locks one after another, at most as many as the fuel says.
unfoldable alone : ℕ → Option (List ℕ → Status) → Bool → Core → Option Thread → Core
alone zero send has_device c t = c
alone (suc n) send has_device c none = c
alone (suc n) send has_device c (some t) =
    let (c', next) = advance send has_device c t in alone n send has_device c' next

-- A thread takes eight locks at most from the end of its lane to the end of the request.
part_done-alone :
    (send : Option (List ℕ → Status)) (has_device : Bool) (c : Core)
    → alone 8 send has_device c (some finishes_part) ≡ part_done c
unfolding alone advance part_done end_abandoned claim publish count_as finish_as
part_done-alone send dev c =
    let r = (part_finished c.req).0 in
    let r' = (seal_if_idle r).0 in
    elim (Bool-cases (part_finished c.req).1) [
      | inr more ↦ rw (more, alone, advance, part_done) refl
      | inl last ↦ elim (Bool-cases (abandoning r)) [
        | inr going ↦ rw (last, going, alone, advance, part_done, end_abandoned) refl
        | inl bad ↦ elim (Bool-cases (seal_if_idle r).1) [
          | inr busy ↦ rw (last, bad, busy, alone, advance, part_done, end_abandoned) refl
          | inl idle ↦ elim (Bool-cases (has_id c.inflight r'.id)) [
            | inr out ↦ rw (last, bad, idle, out, alone, advance, part_done, end_abandoned) refl
            | inl mine ↦ elim (Bool-cases r'.cancel_requested) [
              | inl cancel ↦
                  rw (last, bad, idle, mine, cancel, alone, advance, part_done, end_abandoned) refl
              | inr kept ↦
                  rw (last, bad, idle, mine, kept, alone, advance, part_done, end_abandoned) refl
            ]
          ]
        ]
      ]
    ]
