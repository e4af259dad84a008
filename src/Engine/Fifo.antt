-- ===== src/Engine/Fifo.antt =====
-- Histories of the bounded queues of src/core/engine_impl.cpp.
use hux.Base.{
  ℕ, ◌≤◌, ◌==◌, ltb, leb, leb→le, if◌then◌else◌, not, List, [], ◌∷◌, ◌++◌, take, drop, length,
  length-append, length-drop, list-cases, append-nil, append_assoc, take-append-drop, Option, none,
  some, ◌≡◌, refl, sym, ap, ◌∙◌, arith, Bool-cases, inl, inr,
}
use hux.Engine.Queues.{Queue, keep_completed_locked, keep_ready_locked, poll}

pub data Call {ℓ} (A : Type ℓ) : Type ℓ where
  keeps : A → Call A
  polls : ℕ → Call A

-- A queue with what was put to it, and what came out of it in the order it left.
pub record Trace {ℓ} (A : Type ℓ) : Type ℓ where
  pub queue : Queue A
  pub put : List A
  pub gone : List A

-- In order, and within the bound.
pub record IsFifo {ℓ} {A : Type ℓ} (depth : ℕ) (t : Trace A) : Type ℓ where
  pub order : t.gone ++ t.queue.items ≡ t.put
  pub bound : length t.queue.items ≤ depth

module _ {ℓ} {A : Type ℓ} where
  abbrev entry : Option A → List A
  entry none = []
  entry (some a) = a ∷ []

  -- The completion queue: an entry leaves by a poll or when a newer one pushes it out.
  pub completed_step : ℕ → Trace A → Call A → Trace A
  completed_step depth t (keeps a) =
      let (q, out) = keep_completed_locked depth t.queue a in
      record { queue = q; put = t.put ++ (a ∷ []); gone = t.gone ++ entry out }
  completed_step depth t (polls n) =
      let (q, out) = poll n t.queue in record t { queue = q; gone = t.gone ++ out }

  pub completed_run : ℕ → Trace A → List (Call A) → Trace A
  completed_run depth t [] = t
  completed_run depth t (c ∷ cs) = completed_run depth (completed_step depth t c) cs

  -- The ready queue: an event leaves by a poll, and one that finds it full is never put.
  pub ready_step : ℕ → Trace A → Call A → Trace A
  ready_step depth t (keeps a) =
      let (q, kept) = keep_ready_locked depth t.queue a in
      record t { queue = q; put = if kept then t.put ++ (a ∷ []) else t.put }
  ready_step depth t (polls n) =
      let (q, out) = poll n t.queue in record t { queue = q; gone = t.gone ++ out }

  pub ready_run : ℕ → Trace A → List (Call A) → Trace A
  ready_run depth t [] = t
  ready_run depth t (c ∷ cs) = ready_run depth (ready_step depth t c) cs

  abbrev pub empty : Trace A
  empty = record { queue = record { items = []; dropped = 0 }; put = []; gone = [] }

  polls-IsFifo :
      (depth n : ℕ) (t : Trace A)
      → IsFifo depth t
      → (t.gone ++ take n t.queue.items) ++ drop n t.queue.items ≡ t.put
  polls-IsFifo depth n t v =
      append_assoc t.gone (take n t.queue.items) (drop n t.queue.items)
      ∙ ap (λ (x : List A). t.gone ++ x) (take-append-drop n t.queue.items)
      ∙ v.order

  -- The entry at the front leaves, and nothing else moves.
  pushed_order :
      (t : Trace A) (a x : A) (rest : List A)
      → t.gone ++ t.queue.items ≡ t.put
      → t.queue.items ++ (a ∷ []) ≡ x ∷ rest
      → (t.gone ++ (x ∷ [])) ++ rest ≡ t.put ++ (a ∷ [])
  pushed_order t a x rest order e =
      append_assoc t.gone (x ∷ []) rest
      ∙ ap (λ (l : List A). t.gone ++ l) (sym e)
      ∙ sym (append_assoc t.gone t.queue.items (a ∷ []))
      ∙ ap (λ (l : List A). l ++ (a ∷ [])) order

  no-items : (l : List A) → length l ≤ 0 → l ≡ []
  no-items [] h = refl
  no-items (x ∷ l) h = absurd (omega arith)

  completed_step-IsFifo :
      (depth : ℕ) (t : Trace A) (c : Call A)
      → IsFifo depth t
      → IsFifo depth (completed_step depth t c)
  unfolding completed_step poll keep_completed_locked
  completed_step-IsFifo depth t (polls n) v = record {
    order = polls-IsFifo depth n t v;
    bound = omega (arith, length-drop n t.queue.items, v.bound);
  }
  completed_step-IsFifo depth t (keeps a) v = elim (Bool-cases (depth == 0)) [
    | inl zero_depth ↦
        let idle : t.queue.items ≡ [] = no-items t.queue.items (ground (arith, v.bound)) in
        rw (zero_depth, keep_completed_locked)
          (record {
            order =
                ap (λ (l : List A). (t.gone ++ (a ∷ [])) ++ l) idle
                ∙ pushed_order t a a [] v.order (ap (λ (l : List A). l ++ (a ∷ [])) idle);
            bound = v.bound;
          })
    | inr some_depth ↦ elim (Bool-cases (leb (length (t.queue.items ++ (a ∷ []))) depth)) [
      | inl fits ↦
          rw (some_depth, fits, keep_completed_locked)
            (record {
              order =
                  ap (λ (l : List A). l ++ (t.queue.items ++ (a ∷ []))) (append-nil t.gone)
                  ∙ sym (append_assoc t.gone t.queue.items (a ∷ []))
                  ∙ ap (λ (l : List A). l ++ (a ∷ [])) v.order;
              bound = leb→le _ _ fits;
            })
      | inr full ↦ elim (list-cases (t.queue.items ++ (a ∷ []))) [
        | inl none_here ↦ absurd (
            omega (
              arith,
              length-append t.queue.items (a ∷ []),
              ap (λ (l : List A). length l) none_here,
            ))
        | inr (x, (rest, e)) ↦
            rw (some_depth, full, e, keep_completed_locked)
              (record {
                order = pushed_order t a x rest v.order e;
                bound = omega (
                  arith,
                  v.bound,
                  length-append t.queue.items (a ∷ []),
                  ap (λ (l : List A). length l) e,
                );
              })
      ]
    ]
  ]

  -- From a queue in order and within its depth, whatever is kept and polled: entries leave the
  -- completion queue in the order they were put, each once, whether handed out or pushed out by
  -- newer ones, and the rest wait in that order, no more than the depth of them.
  pub completed_run-IsFifo :
      (depth : ℕ) (t : Trace A) (cs : List (Call A))
      → IsFifo depth t
      → IsFifo depth (completed_run depth t cs)
  unfolding completed_run
  completed_run-IsFifo depth t [] v = v
  completed_run-IsFifo depth t (c ∷ cs) v =
      completed_run-IsFifo depth (completed_step depth t c) cs (completed_step-IsFifo depth t c v)

  ready_step-IsFifo :
      (depth : ℕ) (t : Trace A) (c : Call A) → IsFifo depth t → IsFifo depth (ready_step depth t c)
  unfolding ready_step poll keep_ready_locked
  ready_step-IsFifo depth t (polls n) v = record {
    order = polls-IsFifo depth n t v;
    bound = omega (arith, length-drop n t.queue.items, v.bound);
  }
  ready_step-IsFifo depth t (keeps a) v =
      elim (Bool-cases (not (ltb (length t.queue.items) depth))) [
        | inl full ↦ rw (full, keep_ready_locked) (record { order = v.order; bound = v.bound })
        | inr room ↦
            rw (room, keep_ready_locked)
              (record {
                order =
                    sym (append_assoc t.gone t.queue.items (a ∷ []))
                    ∙ ap (λ (l : List A). l ++ (a ∷ [])) v.order;
                bound = ground (arith, length-append t.queue.items (a ∷ []));
              })
      ]

  -- From a queue in order and within its depth, whatever is kept and polled: the ready events that
  -- were taken are handed out in the order they were taken, none lost, and the rest wait in that
  -- order, no more than the depth of them.
  ready_run-IsFifo :
      (depth : ℕ) (t : Trace A) (cs : List (Call A))
      → IsFifo depth t
      → IsFifo depth (ready_run depth t cs)
  unfolding ready_run
  ready_run-IsFifo depth t [] v = v
  ready_run-IsFifo depth t (c ∷ cs) v =
      ready_run-IsFifo depth (ready_step depth t c) cs (ready_step-IsFifo depth t c v)
