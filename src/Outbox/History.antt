-- ===== src/Outbox/History.antt =====
-- Every history of an outbox of src/transport/control_outbox.cpp, from its `reset` on.
use hux.Base.{
  ℕ, ◌≤◌, ◌<◌, max, if◌then◌else◌, Bool, true, false, List, [], ◌∷◌, ◌++◌, length, All, ◌≡◌, refl,
  sym, ap, ◌∙◌, arith, inl, inr,
}
use hux.Types.{Status}
use hux.Outbox.{Reply, Socket, Outbox, Outcome, reset, flush_locked, post}
use hux.Outbox.Stream.{joined, pending}
use hux.Outbox.Posting.{IsOutbox, Posted, post-Posted, flush_locked-stream, joined-append}

-- One call, with what the socket answers while it runs.
pub data Call : Type 0 where
  posts : List ℕ → List Reply → Call
  flushes : List Reply → Call

-- The outbox, the bytes on the wire, and the messages that `post` said kOk to.
pub record Channel : Type 0 where
  pub outbox : Outbox
  pub wire : List ℕ
  pub accepted : List (List ℕ)

abbrev is_ok : Status → Bool
is_ok Status.ok = true
is_ok _ = false

abbrev at_socket : Channel → List Reply → Socket
at_socket c rs = record { replies = rs; wire = c.wire }

unfoldable pub call : Channel → Call → Channel
call c (posts msg rs) =
    let f = post msg c.outbox (at_socket c rs) in
    record {
      outbox = f.outbox;
      wire = f.socket.wire;
      accepted = if is_ok f.status then c.accepted ++ (msg ∷ []) else c.accepted;
    }
call c (flushes rs) =
    let f = flush_locked c.outbox (at_socket c rs) in
    record { outbox = f.outbox; wire = f.socket.wire; accepted = c.accepted }

unfoldable pub calls : Channel → List Call → Channel
calls c [] = c
calls c (k ∷ ks) = calls (call c k) ks

unfoldable pub fresh : ℕ → Channel
unfolding reset
fresh limit = record { outbox = reset true limit; wire = []; accepted = [] }

abbrev pub Fits : ℕ → Call → Type 0
Fits n (posts msg rs) = length msg ≤ n
Fits n (flushes rs) = Unit

-- `n` bounds the messages.
pub record Ordered (limit n : ℕ) (c : Channel) : Type 0 where
  pub well : IsOutbox c.outbox
  pub limit_is : c.outbox.limit ≡ limit
  pub whole :
      c.outbox.broken ≡ false → c.wire ++ pending c.outbox.q c.outbox.front_off ≡ joined c.accepted
  pub bounded : c.outbox.bytes ≤ max limit n

post_cases :
    (limit n : ℕ) (c : Channel) (msg : List ℕ) (rs : List Reply)
    → 0 < length msg
    → length msg ≤ n
    → Ordered limit n c
    → (f : Outcome) → Posted msg c.outbox (at_socket c rs) f
    → Ordered limit n (record {
      outbox = f.outbox;
      wire = f.socket.wire;
      accepted = if is_ok f.status then c.accepted ++ (msg ∷ []) else c.accepted;
    })
post_cases limit n c msg rs pos small v f p = elim p.answers [
  | inl ok ↦
      rw (ok, is_ok)
        (record {
          well = p.well;
          limit_is = p.limit_kept ∙ v.limit_is;
          whole = λ b.
              p.taken ok
              ∙ ap (λ t. t ++ msg) (v.whole (sym (p.broken_kept (λ e. cc)) ∙ b))
              ∙ sym (joined-append c.accepted msg);
          bounded = omega (arith, p.bounded ok, v.limit_is);
        })
  | inr (inl full) ↦
      rw (full, is_ok)
        (record {
          well = p.well;
          limit_is = p.limit_kept ∙ v.limit_is;
          whole = λ b. (p.refused full).0 ∙ v.whole (sym (p.broken_kept (λ e. cc)) ∙ b);
          bounded = omega (arith, p.shrinks (λ e. cc), v.bounded);
        })
  | inr (inr gone) ↦
      rw (gone, is_ok)
        (record {
          well = p.well;
          limit_is = p.limit_kept ∙ v.limit_is;
          whole =
              λ b. elim (p.lost gone) [ inl t ↦ cc | inr same ↦ same.0 ∙ v.whole (sym same.1 ∙ b) ];
          bounded = omega (arith, p.shrinks (λ e. cc), v.bounded);
        })
]

call-Ordered :
    (limit n : ℕ) (c : Channel) (k : Call)
    → Fits n k
    → Ordered limit n c
    → Ordered limit n (call c k)
unfolding call
call-Ordered limit n c (posts [] rs) h v = unfold post in v
call-Ordered limit n c (posts (b ∷ msg) rs) h v =
    post_cases limit n c (b ∷ msg) rs (omega arith) h v _
      (post-Posted (b ∷ msg) c.outbox (at_socket c rs) (omega arith) v.well)
call-Ordered limit n c (flushes rs) h v =
    let f = flush_locked-stream c.outbox (at_socket c rs) v.well in
    record {
      well = f.1;
      limit_is = f.4 ∙ v.limit_is;
      whole = λ b. f.0 ∙ v.whole (f.5 b);
      bounded = omega (arith, f.2, v.bounded);
    }

calls_from-Ordered :
    (limit n : ℕ) (c : Channel) (ks : List Call)
    → All (Fits n) ks
    → Ordered limit n c
    → Ordered limit n (calls c ks)
unfolding calls
calls_from-Ordered limit n c [] h v = v
calls_from-Ordered limit n c (k ∷ ks) h v =
    calls_from-Ordered limit n (call c k) ks h.1 (call-Ordered limit n c k h.0 v)

-- After any posts of messages of at most `n` bytes and any flushes on a fresh outbox, answered by
-- the socket in any way: the outbox is well formed, its backlog is within the limit or `n`, and
-- while it is not broken the bytes sent, followed by those queued, are the messages that `post`
-- accepted, whole, in order and once each.
pub calls-Ordered :
    (limit n : ℕ) (ks : List Call) → All (Fits n) ks → Ordered limit n (calls (fresh limit) ks)
unfolding fresh pending joined
calls-Ordered limit n ks h =
    calls_from-Ordered limit n (fresh limit) ks h
      (record { well = (refl, refl); limit_is = refl; whole = λ _. refl; bounded = omega arith })
