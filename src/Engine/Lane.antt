-- ===== src/Engine/Lane.antt =====
-- The whole life of one lane's work in src/core/engine_impl.cpp: `post_ops` turn by turn, with
-- whatever else happens to the request in between.
use hux.Base.{
  ℕ, zero, suc, ◌≤◌, ◌<◌, ◌==◌, ltb, true, false, ◌&&◌, not, List, [], ◌∷◌, ◌++◌, take, drop,
  length, length-drop, map, append-nil, append_assoc, All, ◌≡◌, refl, sym, ap, ◌∙◌, arith,
  Bool-cases, if-all, inl, inr, ◌⊎◌,
}
use hux.Request.{abandoning}
use hux.Request.Steps.{Op, step, run, run-abandoning}
use hux.Engine.Chunks.{SubOp}
use hux.Engine.Post.{
  SubmitResult, Transport, Core, turn_size, Turn, submitted, would_block, post_ops,
}
use hux.Engine.Turns.{IsTransport, part_done-Keeps, post_ops-Accounted}

pub data Event : Type 0 where
  -- A scheduling turn, with the transport as it answers then.
  turn : Transport → Event
  -- Another lane, a completion or the caller changes the request.
  other : Op → Event

-- The operations posted, in order, and those left waiting at the end.
pub record Life : Type 0 where
  pub posted : List SubOp
  pub left : List SubOp
  pub core : Core

pub live : ℕ → List Event → List SubOp → Core → Life
live max_bytes [] ops c = record { posted = []; left = ops; core = c }
live max_bytes (turn t ∷ es) ops c =
    let w = post_ops max_bytes t ops c in
    let later = live max_bytes es w.ops w.core in record later { posted = w.taken ++ later.posted }
live max_bytes (other o ∷ es) ops c = live max_bytes es ops (record c { req = step c.req o })

abbrev IsEvent : Event → Type 0
IsEvent (turn t) = IsTransport t
IsEvent (other o) = Unit

pub post_ops-abandoning :
    (max_bytes : ℕ) (t : Transport) (ops : List SubOp) (c : Core)
    → abandoning c.req ≡ true
    → abandoning (post_ops max_bytes t ops c).core.req ≡ true
unfolding post_ops
post_ops-abandoning max_bytes t [] c gone = gone
post_ops-abandoning max_bytes t (op ∷ ops) c gone =
    let work : (length (op ∷ ops) == 0) ≡ false = ground arith in
    rw (work, gone, post_ops) ((part_done-Keeps c).1 gone)

live-abandoning :
    (max_bytes : ℕ) (es : List Event) (ops : List SubOp) (c : Core)
    → abandoning c.req ≡ true
    → abandoning (live max_bytes es ops c).core.req ≡ true
unfolding live run
live-abandoning max_bytes [] ops c gone = gone
live-abandoning max_bytes (turn t ∷ es) ops c gone =
    live-abandoning max_bytes es _ _ (post_ops-abandoning max_bytes t ops c gone)
live-abandoning max_bytes (other o ∷ es) ops c gone =
    live-abandoning max_bytes es ops (record c { req = step c.req o })
      (run-abandoning c.req (o ∷ []) gone)

-- What became of `ops`.
pub record InOrder (ops : List SubOp) (l : Life) : Type 0 where
  pub dropped : List SubOp
  pub all : l.posted ++ (l.left ++ dropped) ≡ ops
  pub why : (dropped ≡ []) ⊎ (abandoning l.core.req ≡ true)

-- However the turns fall, however little the transport takes each time, with whatever status, and
-- whatever happens to the request in between, the operations of a lane's work go out in their
-- order, each at most once, and one that has not gone out is still waiting, or was dropped and the
-- request is being given up at the end. The transport never says that it took more than it was
-- offered.
pub live-InOrder :
    (max_bytes : ℕ) (es : List Event) (ops : List SubOp) (c : Core)
    → All IsEvent es
    → InOrder ops (live max_bytes es ops c)
unfolding live
live-InOrder max_bytes [] ops c good = record { dropped = []; all = append-nil ops; why = inl refl }
live-InOrder max_bytes (turn t ∷ es) ops c (good, rest) =
    let w = post_ops max_bytes t ops c in
    let a = post_ops-Accounted max_bytes t ops c good in
    let i = live-InOrder max_bytes es w.ops w.core rest in
    let l = live max_bytes es w.ops w.core in
    record {
      dropped = i.dropped ++ a.dropped;
      all =
          append_assoc w.taken l.posted _
          ∙ ap (λ (x : List SubOp). w.taken ++ x)
              (ap (λ (x : List SubOp). l.posted ++ x)
                  (sym (append_assoc l.left i.dropped a.dropped))
                ∙ sym (append_assoc l.posted _ a.dropped)
                ∙ ap (λ (x : List SubOp). x ++ a.dropped) i.all)
          ∙ a.all;
      why = elim a.why [
        | inr gone ↦ inr (live-abandoning max_bytes es w.ops w.core gone)
        | inl none_here ↦ elim i.why [
          | inr gone ↦ inr gone
          | inl none_later ↦ inl (rw (none_here, none_later) refl)
        ]
      ];
    }
live-InOrder max_bytes (other o ∷ es) ops c (u, rest) = live-InOrder max_bytes es ops _ rest

turn_size-positive :
    (max_bytes : ℕ) (ops : List SubOp) (taken bytes : ℕ)
    → 0 < taken
    → 0 < turn_size max_bytes ops taken bytes
unfolding turn_size
turn_size-positive max_bytes [] taken bytes h = h
turn_size-positive max_bytes (op ∷ ops) taken bytes h =
    if-all (λ (n : ℕ). 0 < n) _ _ _ h (turn_size-positive max_bytes ops (suc taken) _ (omega arith))

-- A turn that leaves at most `n` operations.
Leaves : ℕ → Turn → Type 0
Leaves n w = length w.ops ≤ n

leaves : (n : ℕ) (w : Turn) → length w.ops ≤ n → Leaves n w
unfolding Leaves
leaves n w h = h

submitted-Leaves :
    (t : Transport) (sr : SubmitResult) (slice : List SubOp) (op : SubOp) (ops : List SubOp)
    (c : Core)
    → 0 < sr.accepted
    → Leaves (length ops) (submitted t sr slice (op ∷ ops) c)
unfolding submitted
submitted-Leaves t sr slice op ops c h =
    let less : length (drop sr.accepted (op ∷ ops)) ≤ length ops =
      omega (arith, length-drop sr.accepted (op ∷ ops)) in
    let nothing : 0 ≤ length ops = omega arith in
    elim (Bool-cases (ltb sr.accepted (length slice) && would_block sr.status)) [
      | inl later ↦ rw (later, submitted) (leaves _ _ less)
      | inr now ↦ elim (Bool-cases (sr.accepted == length slice)) [
        | inr part ↦ rw (now, part, submitted) (leaves _ _ nothing)
        | inl whole ↦ elim (Bool-cases (not (length (drop sr.accepted (op ∷ ops)) == 0))) [
          | inl more ↦ rw (now, whole, more, submitted) (leaves _ _ less)
          | inr done_all ↦ rw (now, whole, done_all, submitted) (leaves _ _ less)
        ]
      ]
    ]

-- A transport that takes at least one operation of any offer.
unfoldable pub IsWilling : Transport → Type 0
IsWilling t = (op : SubOp) (ops : List SubOp) → 0 < (t.submit (op ∷ ops)).accepted

taken_some :
    (t : Transport) (k : ℕ) (op : SubOp) (ops : List SubOp)
    → IsWilling t
    → 0 < k
    → 0 < (t.submit (take k (op ∷ ops))).accepted
unfolding IsWilling
taken_some t zero op ops willing h = absurd (omega arith)
taken_some t (suc k) op ops willing h = willing op (take k ops)

pub post_ops-shrinks :
    (max_bytes : ℕ) (t : Transport) (op : SubOp) (ops : List SubOp) (c : Core)
    → IsWilling t
    → length (post_ops max_bytes t (op ∷ ops) c).ops ≤ length ops
unfolding post_ops turn_size Leaves
post_ops-shrinks max_bytes t op ops c willing =
    let first : 0 < turn_size max_bytes (op ∷ ops) 0 0 =
      turn_size-positive max_bytes ops 1 _ (omega arith) in
    let work : (length (op ∷ ops) == 0) ≡ false = ground arith in
    elim (Bool-cases (abandoning c.req)) [
      | inl gone ↦ rw (work, gone, post_ops) (omega arith)
      | inr going ↦
          rw (work, going, post_ops)
            (submitted-Leaves t _ _ op ops c (taken_some t _ op ops willing first))
    ]

no_work :
    (max_bytes : ℕ) (t : Transport) (c : Core) (n : ℕ) → length (post_ops max_bytes t [] c).ops ≤ n
unfolding post_ops
no_work max_bytes t c n = omega arith

-- Even with a quantum smaller than one operation, a lane whose transport takes at least one
-- operation of every offer has nothing left to post after as many turns as it has operations.
pub live-finishes :
    (max_bytes : ℕ) (ts : List Transport) (ops : List SubOp) (c : Core)
    → All IsWilling ts
    → length ops ≤ length ts
    → (live max_bytes (map (λ (t : Transport). turn t) ts) ops c).left ≡ []
unfolding live
live-finishes max_bytes [] [] c good h = refl
live-finishes max_bytes [] (op ∷ ops) c good h = absurd (omega arith)
live-finishes max_bytes (t ∷ ts) [] c (good, rest) h =
    live-finishes max_bytes ts _ _ rest (no_work max_bytes t c (length ts))
live-finishes max_bytes (t ∷ ts) (op ∷ ops) c (good, rest) h =
    live-finishes max_bytes ts _ _ rest (omega (arith, post_ops-shrinks max_bytes t op ops c good))
