-- ===== src/Rdma/Queues.antt =====
-- The data path of one connection in src/transport/rdma/rdma_provider.cpp: `submit`,
-- `pick_queue_pair_locked` and `submit_capacity`, and what `poll` does with a completion that is not
-- a receive. Sequence numbers are plain numbers, 48 bits of which go into a work request. What
-- `ibv_post_send` returns, the congestion controller and the clock are given from outside.
use hux.Base.{
  ℕ, zero, suc, ◌+◌, ◌-◌, ◌*◌, ◌/◌, ◌%◌, ◌^◌, ◌==◌, ltb, leb, if◌then◌else◌, Bool, true, false,
  List, [], ◌∷◌, Option, none, some,
}
use hux.Cc
use hux.Cc.{CcDirection, CcVerdict}
use hux.Engine.Chunks.{SubOp, read, write}

-- `CongestionController`: its calls take a direction, a size and the time, feedback also a delay.
pub record Controller : Type 1 where
  pub State : Type 0
  pub allow : State → CcDirection → ℕ → ℕ → CcVerdict
  pub on_post : State → CcDirection → ℕ → ℕ → State
  pub on_feedback : State → CcDirection → ℕ → ℕ → ℕ → State
  pub on_error : State → CcDirection → ℕ → ℕ → State

pub record InflightKey : Type 0 where
  pub request : ℕ
  pub sub_id : ℕ
  pub is_write : Bool
  pub bytes : ℕ
  pub posted_at : ℕ

-- An entry of `unsignalled`.
pub record Entry : Type 0 where
  pub seq : ℕ
  pub key : InflightKey

pub record QueuePair : Type 0 where
  pub posted : ℕ
  pub reclaimed : ℕ
  pub since_signal : ℕ
  pub unsignalled : List Entry

-- What `submit` hands to `ibv_post_send`.
pub record WorkRequest : Type 0 where
  pub wr_id : ℕ
  pub addr : ℕ
  pub length : ℕ
  pub lkey : ℕ
  pub is_write : Bool
  pub signaled : Bool
  pub remote_addr : ℕ
  pub rkey : ℕ

-- `sq_depth`, `signal_period`, how many queue pairs there are, and `regions_`, from a key to the
-- `lkey` of its memory.
pub record Limits : Type 0 where
  pub sq_depth : ℕ
  pub signal_period : ℕ
  pub qp_count : ℕ
  pub regions : ℕ → Option ℕ

-- What the clock reads at the `i`th operation of a batch: as it is planned, posted and given up.
pub record Clock : Type 0 where
  pub planned : ℕ → ℕ
  pub posted : ℕ → ℕ
  pub given_up : ℕ → ℕ

pub record Planned : Type 0 where
  pub qp_index : ℕ
  pub op : SubOp
  pub signal : Bool
  pub lkey : ℕ

unfoldable pub make_wr_id : ℕ → ℕ → ℕ
make_wr_id qp_index seq = qp_index * 2 ^ 48 % 2 ^ 64 + seq % 2 ^ 48

unfoldable pub wr_qp_index : ℕ → ℕ
wr_qp_index id = id / 2 ^ 48 % 2 ^ 15

unfoldable pub wr_seq : ℕ → ℕ
wr_seq id = id % 2 ^ 48

abbrev pub direction : SubOp → CcDirection
direction op = elim op.kind [ read ↦ Cc.read | write ↦ Cc.write ]

abbrev pub writes : SubOp → Bool
writes op = elim op.kind [ read ↦ false | write ↦ true ]

abbrev pub key_direction : InflightKey → CcDirection
key_direction k = if k.is_write then Cc.write else Cc.read

abbrev pub is_allowed : CcVerdict → Bool
is_allowed Cc.allowed = true
is_allowed _ = false

abbrev pub set {ℓ} : {A : Type ℓ} → (ℕ → A) → ℕ → A → ℕ → A
set f n a i = if i == n then a else f i

abbrev pub room : ℕ → QueuePair → ℕ
room depth q = let used = q.posted - q.reclaimed in if leb depth used then 0 else depth - used

-- The loop of `pick_queue_pair_locked`: `k` queue pairs are left, from the `i`th after `next_qp` on.
unfoldable pub pick_loop : Limits → (ℕ → QueuePair) → ℕ → ℕ → ℕ → Option ℕ → ℕ → Option ℕ
pick_loop l qps next_qp zero i best best_room = best
pick_loop l qps next_qp (suc k) i best best_room =
    let n = (next_qp + i) % l.qp_count in
    let r = room l.sq_depth (qps n) in
    if ltb best_room r
    then pick_loop l qps next_qp k (suc i) (some n) r
    else pick_loop l qps next_qp k (suc i) best best_room

unfoldable pub pick_queue_pair_locked : Limits → (ℕ → QueuePair) → ℕ → Option ℕ × ℕ
unfolding pick_loop
pick_queue_pair_locked l qps next_qp =
    (pick_loop l qps next_qp l.qp_count 0 none 0, (next_qp + 1) % l.qp_count)

-- The sum of the room of the first `n` queue pairs.
unfoldable pub capacity : ℕ → (ℕ → QueuePair) → ℕ → ℕ
capacity depth qps zero = 0
capacity depth qps (suc n) = capacity depth qps n + room depth (qps n)

unfoldable pub submit_capacity : Limits → (ℕ → QueuePair) → ℕ
unfolding capacity
submit_capacity l qps = capacity l.sq_depth qps l.qp_count % 2 ^ 32

-- The planned entries, of which the last on each queue pair asks for a completion.
abbrev pub later_on : ℕ → List Planned → Bool
later_on n [] = false
later_on n (p ∷ ps) = if p.qp_index == n then true else later_on n ps

unfoldable pub anchored : List Planned → List Planned
anchored [] = []
anchored (p ∷ ps) = (if later_on p.qp_index ps then p else record p { signal = true }) ∷ anchored ps

-- `next_seq`, `since`, `next_qp` and the controller while planning.
pub record Ahead (K : Controller) : Type 0 where
  pub next_seq : ℕ → ℕ
  pub since : ℕ → ℕ
  pub next_qp : ℕ
  pub cc : K.State

pub record Connection (K : Controller) : Type 0 where
  pub qps : ℕ → QueuePair
  pub next_qp : ℕ
  pub failed : Bool
  pub cc : K.State
  pub subops_posted : ℕ
  pub payload_bytes : ℕ
  pub subops_completed : ℕ
  pub subops_failed : ℕ
