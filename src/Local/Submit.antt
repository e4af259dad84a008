-- ===== src/Local/Submit.antt =====
-- `LocalProvider::submit` of src/transport/local/local_provider.cpp: what is accepted is done.
use hux.Base.{
  ℕ, suc, ◌+◌, ◌≤◌, ◌<◌, List, [], ◌∷◌, ◌++◌, take, drop, map, length, append_assoc, append-nil,
  Option, none, some, ◌≡◌, refl, sym, ap, ◌∙◌, arith, Option-cases, inl, inr, ◌⊎◌, leb, ltb, ◌&&◌,
  ◌-◌, true, false, subst,
}
use hux.Types.{Status}
use hux.Engine.Chunks.{SubOp, Direction, read, write}
use hux.Engine.Post.{SubmitResult}
use hux.Local.Registry.{resolve-inside}
use hux.Local.{
  Entry, find_entry, resolve, resolve_in, memcpy, copy, LocalRegistry, Memory, World, completion_of,
  copy_op, posted, submit_loop, submit,
}

-- A key is of memory that holds the whole range, on plain numbers.
abbrev pub IsAllowed : LocalRegistry → SubOp → Type 0
IsAllowed r op =
    (e : Entry) × ((find_entry r.entries op.remote_key ≡ some e)
      × ((e.addr ≤ op.remote_addr) × (op.remote_addr + op.length ≤ e.addr + e.length)))

-- Where an operation takes its bytes from, and where it puts them.
abbrev pub source : SubOp → ℕ
source op = elim op.kind [ read ↦ op.remote_addr | write ↦ op.local_addr ]

abbrev pub target : SubOp → ℕ
target op = elim op.kind [ read ↦ op.local_addr | write ↦ op.remote_addr ]

-- Memory after an operation: its bytes stand at its target, and all others are as they were.
pub record Moved (op : SubOp) (before after : Memory) : Type 0 where
  pub bytes : (i : ℕ) → i < op.length → after (target op + i) ≡ before (source op + i)
  pub others : (a : ℕ) → (a < target op) ⊎ (target op + op.length ≤ a) → after a ≡ before a

-- Operations that are allowed, carried out one after the other.
abbrev pub CarriedOut : LocalRegistry → List SubOp → Memory → Memory → Type 0
CarriedOut r [] before after = before ≡ after
CarriedOut r (op ∷ ops) before after =
    IsAllowed r op × ((m : Memory) × (Moved op before m × CarriedOut r ops m after))

abbrev Copied : LocalRegistry → SubOp → Memory → Option Memory → Type 0
Copied r op m none = (IsAllowed r op → ⊥)
Copied r op m (some m') = IsAllowed r op × Moved op m m'

memcpy-bytes :
    (to from n : ℕ) (m : Memory) (i : ℕ) → i < n → memcpy to from n m (to + i) ≡ m (from + i)
memcpy-bytes to from n m i h =
    let there : (leb to (to + i) && ltb (to + i) (to + n)) ≡ true = ground arith in
    rw there (ap (λ (k : ℕ). m (from + k)) {x = to + i - to} {y = i} (omega arith))

memcpy-others :
    (to from n : ℕ) (m : Memory) (a : ℕ) → (a < to) ⊎ (to + n ≤ a) → memcpy to from n m a ≡ m a
memcpy-others to from n m a h =
    let away : (leb to a && ltb a (to + n)) ≡ false = ground (arith, h) in rw away refl

resolve-refuses :
    (r : LocalRegistry) (op : SubOp)
    → resolve r op.remote_key op.remote_addr op.length ≡ none
    → (IsAllowed r op → ⊥)
unfolding resolve
resolve-refuses r op h (e, (found, (low, high))) =
    let in_e : resolve_in e op.remote_addr op.length ≡ none = (rw (found, resolve) at h) in
    absurd (refused e op.remote_addr op.length low high in_e)
  where
    refused :
        (e : Entry) (address length : ℕ)
        → e.addr ≤ address
        → address + length ≤ e.addr + e.length
        → resolve_in e address length ≡ none
        → ⊥
    refused e address length low high h = ground arith

moved :
    (to from : ℕ) (op : SubOp) (m : Memory)
    → target op ≡ to
    → source op ≡ from
    → Moved op m (memcpy to from op.length m)
moved to from op m into out = record {
  bytes = λ i h. rw (into, out) (memcpy-bytes to from op.length m i h);
  others = λ a h.
      memcpy-others to from op.length m a (subst (λ (t : ℕ). (a < t) ⊎ (t + op.length ≤ a)) into h);
}

copied :
    (r : LocalRegistry) (op : SubOp) (there : ℕ) (m : Memory) (kind : Direction)
    → op.kind ≡ kind
    → there ≡ op.remote_addr
    → IsAllowed r op
    → Copied r op m (elim kind [
      | read ↦ some (memcpy op.local_addr there op.length m)
      | write ↦ some (memcpy there op.local_addr op.length m)
    ])
copied r op there m read is same allowed =
    (allowed, moved op.local_addr there op m (rw is refl) (rw is (sym same)))
copied r op there m write is same allowed =
    (allowed, moved there op.local_addr op m (rw is (sym same)) (rw is refl))

copy_op-Copied : (r : LocalRegistry) (op : SubOp) (m : Memory) → Copied r op m (copy_op r op m)
unfolding copy
copy_op-Copied r op m = elim (Option-cases (resolve r op.remote_key op.remote_addr op.length)) [
  | inl refused ↦ rw (refused, copy) (resolve-refuses r op refused)
  | inr (there, found) ↦
      let (e, (known, (same, (low, high)))) =
        resolve-inside r op.remote_key op.remote_addr op.length there found in
      rw (found, copy) (copied r op there m op.kind refl same (e, (known, (low, high))))
]

-- A submission from a count `k` on: the operations at the front that were done, and the first
-- refused, if any.
pub record Did (w : World) (ops : List SubOp) (k : ℕ) (r : World × SubmitResult) : Type 0 where
  pub ran : ℕ
  pub accepted : r.1.accepted ≡ k + ran
  pub within_ops : ran ≤ length ops
  pub registry : r.0.registry ≡ w.registry
  pub moved : CarriedOut w.registry (take ran ops) w.memory r.0.memory
  pub told : r.0.provider.completions ≡ w.provider.completions ++ map completion_of (take ran ops)
  pub stopped :
      (op : SubOp) (rest : List SubOp) → drop ran ops ≡ op ∷ rest → IsAllowed w.registry op → ⊥
  pub verdict :
      ((ran ≡ length ops) × (r.1.status ≡ Status.ok))
      ⊎ ((ran < length ops) × (r.1.status ≡ Status.invalid_argument))

submit_loop-Did : (w : World) (ops : List SubOp) (k : ℕ) → Did w ops k (submit_loop w ops k)
unfolding submit_loop
submit_loop-Did w [] k = record {
  ran = 0;
  accepted = omega arith;
  within_ops = omega arith;
  registry = refl;
  moved = refl;
  told = sym (append-nil w.provider.completions);
  stopped = λ op rest e h. cc;
  verdict = inl (refl, refl);
}
submit_loop-Did w (op ∷ ops) k =
    let copied_op = copy_op-Copied w.registry op w.memory in
    elim (Option-cases (copy_op w.registry op w.memory)) [
      | inl refused ↦
          rw (refused, submit_loop)
            (record {
              ran = 0;
              accepted = omega arith;
              within_ops = omega arith;
              registry = refl;
              moved = refl;
              told = sym (append-nil w.provider.completions);
              stopped = λ other rest e.
                  let same : op ≡ other = cc in
                  subst (λ (t : SubOp). IsAllowed w.registry t → ⊥) same
                    (subst (Copied w.registry op w.memory) refused copied_op);
              verdict = inr (omega arith, refl);
            })
      | inr (m, e) ↦
          let w' : World = record w { memory = m; provider = posted op w.provider } in
          rw (e, submit_loop)
            (let d = submit_loop-Did w' ops (k + 1) in
              let here : Copied w.registry op w.memory (some m) =
                subst (Copied w.registry op w.memory) e copied_op in
              record {
                ran = suc d.ran;
                accepted = omega (arith, d.accepted);
                within_ops = omega (arith, d.within_ops);
                registry = d.registry;
                moved = (here.0, (m, (here.1, d.moved)));
                told = d.told ∙ append_assoc w.provider.completions (completion_of op ∷ []) _;
                stopped = λ other rest f. d.stopped other rest f;
                verdict = elim d.verdict [
                  | inl (all, s) ↦ inl (ap suc all, s)
                  | inr (less, s) ↦ inr (omega (arith, less), s)
                ];
              })
    ]

-- Submitting carries out the operations at the front, in order, up to the first whose range does
-- not lie in the memory of its key, and no other: a write puts the local bytes at the remote
-- address, a read the remote bytes at the local address, and nothing else changes. It reports how
-- many, with kOk if it did them all and kInvalidArgument if not, and queues a completion for each
-- of those, in order.
pub submit-Did : (w : World) (ops : List SubOp) → Did w ops 0 (submit w ops)
unfolding submit
submit-Did w ops = submit_loop-Did w ops 0
