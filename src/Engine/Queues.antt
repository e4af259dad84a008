-- ===== src/Engine/Queues.antt =====
-- The bounded queues of src/core/engine_impl.cpp: `keep_completed_locked`, `keep_ready_locked`,
-- the queue of notifications in `progress`, and the three polls, after the progress that they may
-- drive.
use hux.Base.{
  ℕ, ◌+◌, ◌==◌, ltb, leb, if◌then◌else◌, Bool, true, false, not, List, [], ◌∷◌, ◌++◌, take, drop,
  length, Option, none, some,
}

-- A queue, the oldest first, and the count of what it let go or refused.
pub record Queue {ℓ} (A : Type ℓ) : Type ℓ where
  pub items : List A
  pub dropped : ℕ

module _ {ℓ} {A : Type ℓ} where
  -- The queue with one more, and the entry it lets go.
  unfoldable pub keep_completed_locked : ℕ → Queue A → A → Queue A × Option A
  keep_completed_locked depth q req =
      let more = q.items ++ (req ∷ []) in
      if depth == 0
      then (record q { dropped = q.dropped + 1 }, some req)
      else if leb (length more) depth
      then (record q { items = more }, none)
      else elim more [
        | [] ↦ (q, none)
        | oldest ∷ rest ↦ (record { items = rest; dropped = q.dropped + 1 }, some oldest)
      ]

  -- Past the bound the new event is refused. True when it was taken.
  unfoldable pub keep_ready_locked : ℕ → Queue A → A → Queue A × Bool
  keep_ready_locked depth q ev =
      if not (ltb (length q.items) depth)
      then (record q { dropped = q.dropped + 1 }, false)
      else (record q { items = q.items ++ (ev ∷ []) }, true)

  -- `while (!queue.empty() && out->size() < max_items)`
  unfoldable pub poll : ℕ → Queue A → Queue A × List A
  poll max_items q = (record q { items = drop max_items q.items }, take max_items q.items)
