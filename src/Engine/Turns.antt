-- ===== src/Engine/Turns.antt =====
-- Scheduling turns of one lane's work, `EngineImpl::post_ops` of src/core/engine_impl.cpp: what
-- goes out, and in which order.
use hux.Base.{
  ℕ, zero, suc, ◌+◌, ◌%◌, ◌^◌, ◌≤◌, ◌==◌, ltb, true, false, ◌&&◌, not, List, [], ◌∷◌, ◌++◌, take,
  drop, length, append-nil, take-append-drop, ◌≡◌, refl, ap, ◌∙◌, arith, Bool-cases, if-all, inl,
  inr, ◌⊎◌,
}
use hux.Types.{is_ok, ErrorInfo, RequestState}
use hux.Request.{
  Request, set_state, add_accepted_subops, part_finished, abandoning, seal_if_idle, note_error,
  fail, finish_cancelled,
}
use hux.Engine.Chunks.{SubOp}
use hux.Engine.Post.{
  SubmitResult, Transport, Core, claim, publish, end_abandoned, part_done, turn_size, Turn,
  submitted, post_ops, would_block, submit_error,
}

-- What neither posts nor takes a request up again.
abbrev pub Keeps : Request → Request → Type 0
Keeps r s = (s.accepted_subops ≡ r.accepted_subops) × (abandoning r ≡ true → abandoning s ≡ true)

end_abandoned-Keeps : (c : Core) → Keeps c.req (end_abandoned c).req
unfolding end_abandoned claim publish finish_cancelled fail abandoning
end_abandoned-Keeps c = ground arith

part_finished-Keeps : (r : Request) → Keeps r (part_finished r).0
unfolding part_finished abandoning
part_finished-Keeps r = ground arith

seal_if_idle-Keeps : (r : Request) → Keeps r (seal_if_idle r).0
unfolding seal_if_idle abandoning
seal_if_idle-Keeps r = ground arith

Keeps-trans : (r s t : Request) → Keeps r s → Keeps s t → Keeps r t
Keeps-trans r s t h k = (k.0 ∙ h.0, λ a. k.1 (h.1 a))

pub part_done-Keeps : (c : Core) → Keeps c.req (part_done c).req
unfolding part_done
part_done-Keeps c =
    let r' = (part_finished c.req).0 in
    let r'' = (seal_if_idle r').0 in
    let first = part_finished-Keeps c.req in
    let second = Keeps-trans c.req r' r'' first (seal_if_idle-Keeps r') in
    if-all (λ (d : Core). Keeps c.req d.req) _ _ _ first
      (if-all (λ (d : Core). Keeps c.req d.req) _ _ _
        (Keeps-trans c.req r'' _ second (end_abandoned-Keeps (record c { req = r'' }))) second)

-- A transport takes what it is offered from the front, and says how many it took.
unfoldable pub IsTransport : Transport → Type 0
IsTransport t = (ops : List SubOp) → (t.submit ops).accepted ≤ length ops

take-take : (n k : ℕ) (xs : List SubOp) → n ≤ length (take k xs) → take n (take k xs) ≡ take n xs
take-take zero k xs h = refl
take-take (suc n) zero xs h = absurd (omega arith)
take-take (suc n) (suc k) [] h = refl
take-take (suc n) (suc k) (x ∷ xs) h = ap (◌∷◌ x) (take-take n k xs (omega arith))

-- A turn on `ops` posts from the front and accounts for every operation: what is neither taken nor
-- left waiting was dropped, and then the request is given up.
pub record Accounted (ops : List SubOp) (c : Core) (turn : Turn) : Type 0 where
  pub dropped : List SubOp
  pub all : turn.taken ++ (turn.ops ++ dropped) ≡ ops
  pub why : (dropped ≡ []) ⊎ (abandoning turn.core.req ≡ true)
  pub counted :
      turn.core.req.accepted_subops % 2 ^ 32 ≡ (c.req.accepted_subops + length turn.taken) % 2 ^ 32
  pub finished : turn.finished ≡ true → turn.ops ≡ []

noted-abandoning :
    (r : Request) (e : ErrorInfo)
    → is_ok e.status ≡ false
    → (abandoning (set_state (note_error r e) RequestState.draining) ≡ true)
      × ((set_state (note_error r e) RequestState.draining).accepted_subops ≡ r.accepted_subops)
unfolding note_error set_state abandoning
noted-abandoning r e bad = ground arith

posted_request :
    (r : Request) (n : ℕ)
    → (add_accepted_subops (set_state r RequestState.inflight) n).accepted_subops
      ≡ (r.accepted_subops + n) % 2 ^ 32
unfolding add_accepted_subops set_state
posted_request r n = ground arith

submit_error-bad :
    (t : Transport) (sr : SubmitResult) (r : Request) → is_ok (submit_error t sr r).status ≡ false
submit_error-bad t sr r = ground arith

length-take-take : (n : ℕ) (xs : List SubOp) → n ≤ length xs → length (take n xs) ≡ n
length-take-take zero xs h = refl
length-take-take (suc n) [] h = absurd (omega arith)
length-take-take (suc n) (x ∷ xs) h = ap suc (length-take-take n xs (omega arith))

no-length : (xs : List SubOp) → not (length xs == 0) ≡ false → xs ≡ []
no-length [] h = refl
no-length (x ∷ xs) h = ground arith

submitted-Accounted :
    (t : Transport) (sr : SubmitResult) (k : ℕ) (ops : List SubOp) (c : Core)
    → sr.accepted ≤ length (take k ops)
    → Accounted ops c (submitted t sr (take k ops) ops c)
unfolding submitted
submitted-Accounted t sr k ops c fits =
    elim (Bool-cases (ltb sr.accepted (length slice) && would_block sr.status)) [
      | inl later ↦ rw (later, submitted) (kept _ _ posted)
      | inr now ↦ elim (Bool-cases (sr.accepted == length slice)) [
        | inr part ↦
            rw (now, part, submitted)
              (record {
                dropped = drop sr.accepted ops;
                all = front;
                why = inr ((part_done-Keeps (record c { req = given_up })).1 noted.0);
                counted =
                    ap (λ (n : ℕ). n % 2 ^ 32)
                      ((part_done-Keeps (record c { req = given_up })).0 ∙ noted.1)
                    ∙ posted;
                finished = λ h. refl;
              })
        | inl whole ↦ elim (Bool-cases (not (length (drop sr.accepted ops) == 0))) [
          | inl more ↦ rw (now, whole, more, submitted) (kept _ _ posted)
          | inr done_all ↦
              rw (now, whole, done_all, submitted)
                (record {
                  dropped = [];
                  all = ap (λ (l : List SubOp). take sr.accepted slice ++ l) (append-nil _) ∙ front;
                  why = inl refl;
                  counted =
                      ap (λ (n : ℕ). n % 2 ^ 32) (part_done-Keeps (record c { req = r })).0
                      ∙ posted;
                  finished = λ h. no-length _ done_all;
                })
        ]
      ]
    ]
  where
    slice : List SubOp
    slice = take k ops

    r : Request
    r = add_accepted_subops (set_state c.req RequestState.inflight) sr.accepted

    given_up : Request
    given_up = set_state (note_error r (submit_error t sr r)) RequestState.draining

    noted : (abandoning given_up ≡ true) × (given_up.accepted_subops ≡ r.accepted_subops)
    noted = noted-abandoning r _ (submit_error-bad t sr r)

    front : take sr.accepted slice ++ drop sr.accepted ops ≡ ops
    front =
        ap (λ (l : List SubOp). l ++ drop sr.accepted ops) (take-take sr.accepted k ops fits)
        ∙ take-append-drop sr.accepted ops

    posted :
        r.accepted_subops % 2 ^ 32
        ≡ (c.req.accepted_subops + length (take sr.accepted slice)) % 2 ^ 32
    posted =
        omega (arith, posted_request c.req sr.accepted, length-take-take sr.accepted slice fits)

    kept :
        (off : List SubOp) (d : Core)
        → d.req.accepted_subops % 2 ^ 32
          ≡ (c.req.accepted_subops + length (take sr.accepted slice)) % 2 ^ 32
        → Accounted ops c (record {
          ops = drop sr.accepted ops;
          finished = false;
          offered = off;
          taken = take sr.accepted slice;
          core = d;
        })
    kept off d n = record {
      dropped = [];
      all = ap (λ (l : List SubOp). take sr.accepted slice ++ l) (append-nil _) ∙ front;
      why = inl refl;
      counted = n;
      finished = λ h. ground arith;
    }

nothing-Accounted :
    (c : Core)
    → Accounted [] c (record { ops = []; finished = true; offered = []; taken = []; core = c })
nothing-Accounted c = record {
  dropped = [];
  all = refl;
  why = inl refl;
  counted = ap (λ (n : ℕ). n % 2 ^ 32) (omega arith);
  finished = λ h. refl;
}

given_up-Accounted :
    (ops : List SubOp) (c : Core)
    → abandoning c.req ≡ true
    → Accounted ops c
        (record { ops = []; finished = true; offered = []; taken = []; core = part_done c })
given_up-Accounted ops c gone = record {
  dropped = ops;
  all = refl;
  why = inr ((part_done-Keeps c).1 gone);
  counted = ap (λ (n : ℕ). n % 2 ^ 32) ((part_done-Keeps c).0 ∙ omega arith);
  finished = λ h. refl;
}

-- Whatever a transport that takes no more than it is offered answers, a turn of `post_ops` takes
-- operations from the front, in order, and leaves the rest waiting; it drops what it does not post
-- only of a request that is then being given up. The request counts what was taken, on 32 bits, and
-- a turn that says it is finished leaves nothing.
pub post_ops-Accounted :
    (max_bytes : ℕ) (t : Transport) (ops : List SubOp) (c : Core)
    → IsTransport t
    → Accounted ops c (post_ops max_bytes t ops c)
unfolding post_ops IsTransport
post_ops-Accounted max_bytes t [] c good = nothing-Accounted c
post_ops-Accounted max_bytes t (op ∷ ops) c good =
    let k = turn_size max_bytes (op ∷ ops) 0 0 in
    let work : (length (op ∷ ops) == 0) ≡ false = ground arith in
    elim (Bool-cases (abandoning c.req)) [
      | inl gone ↦ rw (work, gone, post_ops) (given_up-Accounted (op ∷ ops) c gone)
      | inr going ↦
          rw (work, going, post_ops)
            (submitted-Accounted t (t.submit (take k (op ∷ ops))) k (op ∷ ops) c
              (good (take k (op ∷ ops))))
    ]

-- The bytes of the operations, as the turn adds them up.
abbrev pub bytes_of : List SubOp → ℕ
bytes_of [] = 0
bytes_of (op ∷ ops) = op.length + bytes_of ops
