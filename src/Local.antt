-- ===== src/Local.antt =====
-- src/transport/local/local_provider.h and local_provider.cpp: the transport between engines of one
-- process. Memory is a function from addresses to bytes; a pointer is an address, and 0 is null.
pub mod Registry
pub mod Submit
mod Tests
use hux.Base.{
  ℕ, zero, suc, ◌+◌, ◌-◌, ◌%◌, ◌^◌, ◌==◌, ltb, leb, if◌then◌else◌, Bool, true, false, ◌&&◌, ◌||◌,
  not, List, [], ◌∷◌, ◌++◌, take, drop, length, Option, none, some,
}
use hux.Types.{Status, Result, done, err}
use hux.Request.{CompletionEvent}
use hux.Engine.Chunks.{Direction, read, write, SubOp}
use hux.Engine.Post.{SubmitResult}

pub record Entry : Type 0 where
  pub key : ℕ
  pub addr : ℕ
  pub length : ℕ

pub record LocalRegistry : Type 0 where
  pub entries : List Entry
  pub next : ℕ

unfoldable pub publish : LocalRegistry → ℕ → ℕ → LocalRegistry × ℕ
publish r addr length = (
  record {
    entries = record { key = r.next; addr = addr; length = length } ∷ r.entries;
    next = (r.next + 1) % 2 ^ 64;
  },
  r.next,
)

abbrev pub without : List Entry → ℕ → List Entry
without [] key = []
without (e ∷ es) key = if e.key == key then without es key else e ∷ without es key

unfoldable pub withdraw : LocalRegistry → ℕ → LocalRegistry
withdraw r key = record r { entries = without r.entries key }

unfoldable pub find_entry : List Entry → ℕ → Option Entry
find_entry [] key = none
find_entry (e ∷ es) key = if e.key == key then some e else find_entry es key

abbrev pub resolve_in : Entry → ℕ → ℕ → Option ℕ
resolve_in e address length =
    let offset = address - e.addr in
    if ltb address e.addr
    then none
    else if ltb e.length offset || ltb (e.length - offset) length
    then none
    else some (e.addr + offset)

-- Compared before adding, so a wrapping range cannot appear to fit.
unfoldable pub resolve : LocalRegistry → ℕ → ℕ → ℕ → Option ℕ
resolve r key address length = elim (find_entry r.entries key) [
  | none ↦ none
  | some e ↦ resolve_in e address length
]

abbrev pub Memory : Type 0
Memory = ℕ → ℕ

-- `memcpy(to, from, length)` of ranges that do not overlap.
abbrev pub memcpy : ℕ → ℕ → ℕ → Memory → Memory
memcpy to from length m =
    λ (a : ℕ). if leb to a && ltb a (to + length) then m (from + (a - to)) else m a

unfoldable pub copy : LocalRegistry → ℕ → ℕ → ℕ → ℕ → Direction → Memory → Option Memory
copy r key address length addr direction m = elim (resolve r key address length) [
  | none ↦ none
  | some there ↦ elim direction [
    | read ↦ some (memcpy addr there length m)
    | write ↦ some (memcpy there addr length m)
  ]
]

pub record ControlMessage : Type 0 where
  pub type : ℕ
  pub payload : List ℕ

-- One provider; `stats` are the three counters that `submit` and `poll` keep.
pub record LocalProvider : Type 0 where
  pub local_keys : List ℕ
  pub completions : List CompletionEvent
  pub control : List ControlMessage
  pub subops_posted : ℕ
  pub subops_completed : ℕ
  pub payload_bytes : ℕ

-- What a call may change: the process-wide registry, memory, and the provider.
pub record World : Type 0 where
  pub registry : LocalRegistry
  pub memory : Memory
  pub provider : LocalProvider

unfoldable pub register_region : World → ℕ → ℕ → World × Result ℕ
register_region w addr length =
    let (r, key) = publish w.registry addr length in
    if addr == 0 || length == 0 then (w, err Status.invalid_argument) else (
      record w {
        registry = r;
        provider = record w.provider { local_keys = key ∷ w.provider.local_keys };
      },
      done key,
    )

abbrev has_key : List ℕ → ℕ → Bool
has_key [] key = false
has_key (k ∷ ks) key = if k == key then true else has_key ks key

abbrev without_key : List ℕ → ℕ → List ℕ
without_key [] key = []
without_key (k ∷ ks) key = if k == key then without_key ks key else k ∷ without_key ks key

unfoldable pub deregister_region : World → ℕ → World × Status
deregister_region w local_key =
    if not (has_key w.provider.local_keys local_key) then (w, Status.not_found) else (
      record w {
        registry = withdraw w.registry local_key;
        provider = record w.provider { local_keys = without_key w.provider.local_keys local_key };
      },
      Status.ok,
    )

abbrev pub completion_of : SubOp → CompletionEvent
completion_of op = record {
  request = op.request;
  sub_id = op.sub_id;
  bytes = op.length;
  status = Status.ok;
  provider_errno = 0;
  may_have_modified_target = false;
}

abbrev pub copy_op : LocalRegistry → SubOp → Memory → Option Memory
copy_op r op m = copy r op.remote_key op.remote_addr op.length op.local_addr op.kind m

abbrev pub posted : SubOp → LocalProvider → LocalProvider
posted op p = record p {
  completions = p.completions ++ (completion_of op ∷ []);
  subops_posted = p.subops_posted + 1;
  payload_bytes = p.payload_bytes + op.length;
}

-- The loop over the operations, `accepted` of them done.
unfoldable pub submit_loop : World → List SubOp → ℕ → World × SubmitResult
submit_loop w [] accepted =
    (w, record { accepted = accepted; status = Status.ok; provider_errno = 0 })
submit_loop w (op ∷ ops) accepted = elim (copy_op w.registry op w.memory) [
  | none ↦ (w, record { accepted = accepted; status = Status.invalid_argument; provider_errno = 0 })
  | some m ↦
      submit_loop (record w { memory = m; provider = posted op w.provider }) ops (accepted + 1)
]

unfoldable pub submit : World → List SubOp → World × SubmitResult
submit w ops = submit_loop w ops 0

unfoldable pub poll : LocalProvider → ℕ → LocalProvider × List CompletionEvent
poll p max_events = (
  record p {
    completions = drop max_events p.completions;
    subops_completed = p.subops_completed + length (take max_events p.completions);
  },
  take max_events p.completions,
)

unfoldable pub deliver_control : LocalProvider → ControlMessage → LocalProvider
deliver_control p m = record p { control = p.control ++ (m ∷ []) }

unfoldable pub poll_control : LocalProvider → ℕ → LocalProvider × List ControlMessage
poll_control p max_items =
    (record p { control = drop max_items p.control }, take max_items p.control)
