-- ===== src/Rdma/Outstanding.antt =====
-- How many operations of a kind stand on the queue pairs of src/transport/rdma/rdma_provider.cpp.
use hux.Base.{
  ℕ, zero, suc, ◌+◌, ◌≤◌, ◌<◌, ◌==◌, ==_iff, if◌then◌else◌, Bool, false, List, [], ◌∷◌, ◌++◌,
  Bool-cases, inl, inr, ◌≡◌, refl, subst, arith,
}
use hux.Request.{CompletionEvent}
use hux.Engine.Chunks.{SubOp}
use hux.Rdma.Queues.{Entry, QueuePair, set}

-- How many operations, entries and events satisfy a test on the request and the sub-operation.
module _ (test : ℕ → ℕ → Bool) where
  abbrev pub ops_count : List SubOp → ℕ
  ops_count [] = 0
  ops_count (op ∷ ops) = if test op.request op.sub_id then suc (ops_count ops) else ops_count ops

  abbrev pub entries_count : List Entry → ℕ
  entries_count [] = 0
  entries_count (e ∷ es) =
      if test e.key.request e.key.sub_id then suc (entries_count es) else entries_count es

  abbrev pub events_count : List CompletionEvent → ℕ
  events_count [] = 0
  events_count (e ∷ es) = if test e.request e.sub_id then suc (events_count es) else events_count es

  -- Over the first `n` queue pairs.
  abbrev pub outstanding : (ℕ → QueuePair) → ℕ → ℕ
  outstanding qps zero = 0
  outstanding qps (suc n) = outstanding qps n + entries_count (qps n).unsignalled

  pub ops_count-append : (xs ys : List SubOp) → ops_count (xs ++ ys) ≡ ops_count xs + ops_count ys
  ops_count-append [] ys = omega arith
  ops_count-append (x ∷ xs) ys = ground (arith, ops_count-append xs ys)

  pub events_count-append :
      (xs ys : List CompletionEvent) → events_count (xs ++ ys) ≡ events_count xs + events_count ys
  events_count-append [] ys = omega arith
  events_count-append (x ∷ xs) ys = ground (arith, events_count-append xs ys)

  pub entries_count-append :
      (xs ys : List Entry) → entries_count (xs ++ ys) ≡ entries_count xs + entries_count ys
  entries_count-append [] ys = omega arith
  entries_count-append (x ∷ xs) ys = ground (arith, entries_count-append xs ys)

  outstanding-beyond :
      (qps : ℕ → QueuePair) (m : ℕ) (q : QueuePair) (n : ℕ)
      → n ≤ m
      → outstanding (set qps m q) n ≡ outstanding qps n
  outstanding-beyond qps m q zero h = refl
  outstanding-beyond qps m q (suc n) h =
      let other : (n == m) ≡ false = ground arith in
      ground (arith, other, outstanding-beyond qps m q n)

  pub outstanding-set :
      (qps : ℕ → QueuePair) (m : ℕ) (q : QueuePair) (n : ℕ)
      → m < n
      → outstanding (set qps m q) n + entries_count (qps m).unsignalled
        ≡ outstanding qps n + entries_count q.unsignalled
  outstanding-set qps m q zero h = absurd (omega arith)
  outstanding-set qps m q (suc n) h = elim (Bool-cases (n == m)) [
    | inl same ↦
        let e = (==_iff n m).0 same in
        rw same (
          subst
            (λ (k : ℕ).
              outstanding (set qps m q) n
                + entries_count q.unsignalled
                + entries_count (qps k).unsignalled
              ≡ outstanding qps n + entries_count (qps n).unsignalled + entries_count q.unsignalled)
            e (omega (arith, outstanding-beyond qps m q n (omega (arith, e)))))
    | inr other ↦
        let ih = outstanding-set qps m q n (ground (arith, other)) in rw other (omega (arith, ih))
  ]
