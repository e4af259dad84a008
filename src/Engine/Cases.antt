-- ===== src/Engine/Cases.antt =====
-- A rule for `post_ops` of src/core/engine_impl.cpp: what holds of the engine on every branch.
use hux.Base.{ℕ, ◌+◌, ◌==◌, ltb, ◌&&◌, not, List, take, drop, length, Bool-cases, inl, inr}
use hux.Types.{ErrorInfo, RequestState}
use hux.Request.{set_state, add_accepted_subops, abandoning, note_error}
use hux.Engine.Chunks.{SubOp}
use hux.Engine.Post.{
  Core, Transport, Turn, SubmitResult, part_done, submitted, post_ops, turn_size, would_block,
  submit_error,
}

-- The engine with the request after `n` of its operations were taken.
abbrev pub posted : Core → ℕ → Core
posted c n = record c { req = add_accepted_subops (set_state c.req RequestState.inflight) n }

-- And given up with that error.
abbrev pub given_up : Core → ℕ → ErrorInfo → Core
given_up c n e = record c { req = set_state (note_error (posted c n).req e) RequestState.draining }

module _ (P : Core → Type 0) where
  AtCore : Turn → Type 0
  AtCore w = P w.core

  at_core : (w : Turn) → P w.core → AtCore w
  unfolding AtCore
  at_core w h = h

  core_of : (w : Turn) → AtCore w → P w.core
  unfolding AtCore
  core_of w h = h

  module _ (c : Core) (ended : (d : Core) → P d → P (part_done d)) (stays : P c)
      (posts : (n : ℕ) → P (posted c n))
      (defers : (n : ℕ) → P (record (posted c n) { submit_deferred = c.submit_deferred + 1 }))
      (gives_up : (n : ℕ) (e : ErrorInfo) → P (given_up c n e)) where
    submitted-AtCore :
        (t : Transport) (sr : SubmitResult) (slice ops : List SubOp)
        → AtCore (submitted t sr slice ops c)
    unfolding submitted
    submitted-AtCore t sr slice ops =
        elim (Bool-cases (ltb sr.accepted (length slice) && would_block sr.status)) [
          | inl later ↦ rw (later, submitted) (at_core _ (defers sr.accepted))
          | inr now ↦ elim (Bool-cases (sr.accepted == length slice)) [
            | inr part ↦
                rw (now, part, submitted)
                  (at_core _
                    (ended _ (gives_up sr.accepted (submit_error t sr (posted c sr.accepted).req))))
            | inl whole ↦ elim (Bool-cases (not (length (drop sr.accepted ops) == 0))) [
              | inl more ↦ rw (now, whole, more, submitted) (at_core _ (posts sr.accepted))
              | inr done_all ↦
                  rw (now, whole, done_all, submitted) (at_core _ (ended _ (posts sr.accepted)))
            ]
          ]
        ]

    post_ops-AtCore :
        (max_bytes : ℕ) (t : Transport) (ops : List SubOp) → AtCore (post_ops max_bytes t ops c)
    unfolding post_ops
    post_ops-AtCore max_bytes t ops =
        let slice = take (turn_size max_bytes ops 0 0) ops in
        elim (Bool-cases (length ops == 0)) [
          | inl none_left ↦ rw (none_left, post_ops) (at_core _ stays)
          | inr some_left ↦ elim (Bool-cases (abandoning c.req)) [
            | inl over ↦ rw (some_left, over, post_ops) (at_core _ (ended c stays))
            | inr live ↦
                rw (some_left, live, post_ops) (submitted-AtCore t (t.submit slice) slice ops)
          ]
        ]

    pub post_ops-core :
        (max_bytes : ℕ) (t : Transport) (ops : List SubOp) → P (post_ops max_bytes t ops c).core
    post_ops-core max_bytes t ops = core_of _ (post_ops-AtCore max_bytes t ops)
