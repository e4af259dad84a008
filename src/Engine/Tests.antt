-- ===== src/Engine/Tests.antt =====
-- The engine of src/core/engine_impl.cpp on concrete values, with counts for the doubles.
use hux.Base.{
  ℕ, ◌+◌, ◌-◌, ◌*◌, ◌/◌, ◌^◌, ◌≤◌, ltb, ltb_irrefl, leb-of_not_ltb, leb, length, false, List, [],
  ◌∷◌, ◌++◌, map, none, some, ◌≡◌, refl, subst, arith,
}
use hux.Types.{Status, done, MemoryKind, DeviceId}
use hux.Control.Identity.{Identity, IsIdentity, same_host}
use hux.Cc.Timely.{Doubles}
use hux.Request.{Kind, new_request, CompletionEvent}
use hux.Request.Steps.{cancels}
use hux.Region.RoundTrip.{IsDescriptor}
use hux.Region.Registration.{
  MemoryRegionImpl, RemoteRegionImpl, RegionView, described, provider_key, export_descriptor,
  import_region, remote_view, view, local_key_for, remote_key_for,
}
use hux.Engine.Chunks.{
  write, SubOp, Regions, Lane, Built, build_subops, admit, chunk_limit, build_loop, split,
  place_chunk, push_at, cheapest,
}
use hux.Engine.Carries.{carries, weigh_all}
use hux.Engine.Transfer.{views_move, InSpace, build_subops-moves}
use hux.Engine.Post.{SubmitResult, Transport, Core, post_ops}
use hux.Engine.Turns.{IsTransport, Accounted, post_ops-Accounted}
use hux.Engine.Lane.{turn, other, live, InOrder, live-InOrder, IsWilling, live-finishes}
use hux.Engine.Threads.{Running}
use hux.Engine.Lifetime.{
  Happening, lane_ends, event, departs, moves, IsOnce, lifetime, lifetime-IsOnce,
}
use hux.Engine.Fifo.{Call, keeps, polls, empty, IsFifo, completed_run, completed_run-IsFifo}
use hux.Engine.Metadata.{Offer, local_metadata, read_metadata, envelope}
use hux.Engine.Dialling.{read_metadata-local}
use hux.Engine.Peering
use hux.Engine.Choosing.{ChosenFrom, choose-ChosenFrom}
use hux.Engine.Importing.{import_bytes, import_bytes-export}

abbrev pub counts : Doubles
counts = record {
  Real = ℕ;
  of_ℕ = λ n. n;
  of_diff = λ a b. a - b;
  add = λ a b. a + b;
  sub = λ a b. a - b;
  mul = λ a b. a * b;
  div = λ a b. a / b;
  lt = ltb;
  le = leb;
  trunc = λ n. n;
  nanoseconds = λ n. n;
  lt_irrefl = ltb_irrefl;
  le_of_not_lt = leb-of_not_ltb;
}

abbrev pub rdma : List ℕ
rdma = 114 ∷ 100 ∷ 109 ∷ 97 ∷ []

abbrev pub exporter : Identity
exporter = record { host = 99; process = 5; engine = 1 }

abbrev pub host : DeviceId
host = record { kind = 0; index = 0 }

abbrev pub handle : MemoryRegionImpl
handle = record {
  origin = exporter;
  id = 4;
  generation = 1;
  base = 4096;
  length = 4096;
  device = host;
  memory = MemoryKind.host_pinned;
  access = 15;
  registration = record {
    base = 4096;
    length = 4096;
    device = host;
    access = 15;
    keys = record { provider = rdma; local_key = 11; remote_key = 12 } ∷ [];
    local_key = 11;
    remote_key = 12;
  };
  retired = false;
}

abbrev pub there : RemoteRegionImpl
there = import_region (described handle)

abbrev pub regions : Regions
regions = record { find_region = λ id. some handle; find_remote = λ id. some there }

abbrev pub lane : Lane counts 1
lane = record { provider = rdma; max_segment_bytes = 0; weight = 2 }

abbrev pub view_of : RegionView
view_of = record { region = 4; span = record { offset = 16; length = 100 } }

abbrev pairs : List (RegionView × RegionView)
pairs = (view_of, view_of) ∷ []

abbrev op_of : ℕ → ℕ → ℕ → SubOp
op_of sub_id off n = record {
  kind = write;
  request = 7;
  sub_id = sub_id;
  local_addr = 4112 + off;
  local_key = 11;
  remote_addr = 4112 + off;
  remote_key = 12;
  length = n;
}

abbrev pub built : Built
built = record {
  per_lane = (op_of 0 0 64 ∷ []) ∷ (op_of 1 64 36 ∷ []) ∷ [];
  held = 4 ∷ [];
  target_addr = some 4112;
  target_bytes = 100;
}

pub builds : build_subops counts 1 64 regions write 7 (lane ∷ lane ∷ []) pairs ≡ done built
unfolding build_subops admit chunk_limit build_loop split place_chunk push_at cheapest local_key_for
    remote_key_for
builds = refl

regions-InSpace : InSpace regions
regions-InSpace id r e =
    let same : there ≡ r = cc in
    subst (λ (t : RemoteRegionImpl). t.descriptor.base + t.descriptor.length ≤ 2 ^ 64) same
      (omega arith)

build_subops-moves_example :
    weigh_all (carries 4200 4200) built.per_lane ≡ views_move regions 4200 4200 pairs
build_subops-moves_example =
    build_subops-moves counts 1 64 regions write 7 (lane ∷ lane ∷ []) pairs built (omega arith)
      regions-InSpace builds 4200 4200

-- Takes one operation of those offered, and has no room for more.
abbrev takes_one : List SubOp → SubmitResult
takes_one [] = record { accepted = 0; status = Status.ok; provider_errno = 0 }
takes_one (op ∷ []) = record { accepted = 1; status = Status.ok; provider_errno = 0 }
takes_one (op ∷ ops) = record { accepted = 1; status = Status.would_block; provider_errno = 0 }

abbrev pub busy : Transport
busy = record { name = rdma; submit = takes_one }

busy-IsTransport : IsTransport busy
unfolding IsTransport
busy-IsTransport [] = omega arith
busy-IsTransport (op ∷ []) = omega arith
busy-IsTransport (op ∷ op₂ ∷ ops) = omega arith

pub busy-IsWilling : IsWilling busy
unfolding IsWilling
busy-IsWilling op [] = omega arith
busy-IsWilling op (op₂ ∷ ops) = omega arith

abbrev pub core : Core
core = record {
  req = new_request 7 Kind.write 2 1;
  inflight = 7 ∷ [];
  completion_queue_depth = 16;
  completed = record { items = []; dropped = 0 };
  requests_failed = 0;
  requests_cancelled = 0;
  requests_succeeded = 0;
  submit_deferred = 0;
  handoffs = record { payloads = []; sent = 0; failed = 0 };
}

abbrev pub work : List SubOp
work = op_of 0 0 64 ∷ op_of 1 64 36 ∷ []

post_ops-Accounted_example : Accounted work core (post_ops 64 busy work core)
post_ops-Accounted_example = post_ops-Accounted 64 busy work core busy-IsTransport

abbrev running : Running
running = record { core = core; threads = [] }

running-IsOnce : IsOnce running
unfolding new_request hux.Engine.Threads.total
running-IsOnce = record { once = refl; count = refl; ended = refl }

abbrev arrived : CompletionEvent
arrived = record {
  request = 7;
  sub_id = 0;
  bytes = 64;
  status = Status.ok;
  provider_errno = 0;
  may_have_modified_target = false;
}

-- The last lane ends and a completion arrives while its peer departs: three threads in turn.
abbrev happenings : List Happening
happenings =
    Happening.other cancels
    ∷ lane_ends
    ∷ event arrived
    ∷ moves 1
    ∷ moves 0
    ∷ departs rdma 1
    ∷ moves 1
    ∷ moves 0
    ∷ moves 0
    ∷ moves 0
    ∷ moves 0
    ∷ []

lifetime-IsOnce_example : IsOnce (lifetime none false happenings running)
lifetime-IsOnce_example =
    lifetime-IsOnce none false happenings running
      (tt, (tt, (tt, (tt, (tt, (tt, (tt, (tt, (tt, (tt, (tt, tt))))))))))) running-IsOnce

live-InOrder_example : InOrder work (live 64 (turn busy ∷ other cancels ∷ turn busy ∷ []) work core)
live-InOrder_example =
    live-InOrder 64 (turn busy ∷ other cancels ∷ turn busy ∷ []) work core
      (busy-IsTransport, (tt, (busy-IsTransport, tt)))

live-finishes_example : (live 64 (turn busy ∷ turn busy ∷ []) work core).left ≡ []
live-finishes_example =
    live-finishes 64 (busy ∷ busy ∷ []) work core (busy-IsWilling, (busy-IsWilling, tt))
      (omega arith)

empty-IsFifo : IsFifo {A = ℕ} 2 empty
empty-IsFifo = record { order = refl; bound = omega arith }

abbrev queue_calls : List (Call ℕ)
queue_calls = keeps 1 ∷ keeps 2 ∷ keeps 3 ∷ polls 1 ∷ []

completed_run-IsFifo_example : IsFifo 2 (completed_run 2 empty queue_calls)
completed_run-IsFifo_example = completed_run-IsFifo 2 empty queue_calls empty-IsFifo

abbrev metas : List Offer
metas = record { name = rdma; meta = 1 ∷ 2 ∷ [] } ∷ record { name = Peering.ipc; meta = [] } ∷ []

pub exporter-IsIdentity : IsIdentity exporter
exporter-IsIdentity = record {
  host_fits = omega arith;
  process_fits = omega arith;
  engine_fits = omega arith;
}

read_metadata-local_example :
    (blob : List ℕ) × ((local_metadata exporter metas ≡ done blob)
      × (read_metadata blob ≡ done (envelope exporter metas)))
read_metadata-local_example =
    read_metadata-local exporter metas exporter-IsIdentity (omega arith) (omega arith) (
      record { name_fits = omega arith; meta_fits = omega arith },
      (record { name_fits = omega arith; meta_fits = omega arith }, tt),
    )

abbrev candidate : ℕ → List ℕ → Peering.Candidate ℕ
candidate number name = record {
  number = number;
  name = name;
  connect = λ meta. done (length meta);
}

abbrev two_adapters : List (Peering.Candidate ℕ)
two_adapters =
    candidate 0 Peering.local ∷ candidate 1 rdma ∷ candidate 2 (rdma ++ (35 ∷ 49 ∷ [])) ∷ []

choose-ChosenFrom_example :
    ChosenFrom same_host metas [] two_adapters (Peering.choose same_host metas [] two_adapters)
choose-ChosenFrom_example = choose-ChosenFrom same_host metas [] two_adapters

handle-IsDescriptor : IsDescriptor (described handle)
handle-IsDescriptor = record {
  origin_fits = exporter-IsIdentity;
  region_fits = omega arith;
  generation_fits = omega arith;
  base_fits = omega arith;
  length_fits = omega arith;
  remote_key_fits = omega arith;
  kind_fits = omega arith;
  index_fits = omega arith;
  access_fits = omega arith;
  count_fits = omega arith;
  keys_fit = (record { name_fits = omega arith; key_fits = omega arith }, tt);
}

import_bytes-export_example :
    (r : RemoteRegionImpl) × ((import_bytes exporter (rdma ∷ []) (export_descriptor handle)
        ≡ done r)
      × ((r.descriptor.provider_keys ≡ map provider_key handle.registration.keys)
          × ((offset length : ℕ) → remote_view r offset length ≡ view handle offset length)))
import_bytes-export_example = import_bytes-export handle (rdma ∷ []) handle-IsDescriptor refl
