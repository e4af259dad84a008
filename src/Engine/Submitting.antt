-- ===== src/Engine/Submitting.antt =====
-- `submit_vector` of src/core/engine_impl.cpp, behind `read`, `write`, `readv` and `writev`: what it
-- refuses, and what it admits. It runs in two steps, since other calls may come between building a
-- transfer and admitting it.
use hux.Base.{
  ◌%◌, ◌^◌, ℕ, suc, ◌+◌, ◌%◌, ◌^◌, ◌==◌, ltb, leb, if◌then◌else◌, Bool, false, ◌&&◌, ◌||◌, not,
  List, [], ◌∷◌, ◌++◌, length, none, some,
}
use hux.Types.{Status, is_ok, Result, done, err, RequestState}
use hux.Cc.Timely.{Doubles}
use hux.Request.{Kind, Request, new_request, set_state, set_parts, add_remote_target}
use hux.Region.Registration.{RegionView}
use hux.Engine.Chunks.{SubOp, Direction, read, write, Regions, Lane, Built, build_subops}
use hux.Engine.Post.{Core, would_block}
use hux.Engine.Scheduling.{
  dependency_state, Piece, World, put_back, focus, noted, Answers, events_of, post, Scheduler,
}

-- `TransferOptions`; `after` names device events.
pub record Options : Type 0 where
  pub after : List ℕ
  pub notify : Bool
  pub ready_handoff : Bool

pub record Submitter : Type 0 where
  pub scheduler : Scheduler
  pub closed : Bool
  pub next_request : ℕ
  pub requests_accepted : ℕ
  pub requests_would_block : ℕ
  pub peak_inflight_requests : ℕ

-- A transfer built and not yet admitted.
pub record Prepared : Type 0 where
  pub request : Request
  pub per_lane : List (List SubOp)
  pub held : List ℕ
  pub after : List ℕ

-- Pairs of the two lists, as far as both go; they are equally long where it is used.
abbrev pub pairs_of : List RegionView → List RegionView → List (RegionView × RegionView)
pairs_of [] rs = []
pairs_of (l ∷ ls) [] = []
pairs_of (l ∷ ls) (r ∷ rs) = (l, r) ∷ pairs_of ls rs

abbrev pub total_ops : List (List SubOp) → ℕ
total_ops [] = 0
total_ops (ops ∷ more) = length ops + total_ops more

abbrev pub kind_of : Direction → Kind
kind_of read = Kind.read
kind_of write = Kind.write

-- The ranges that a ready handoff will name.
abbrev pub add_targets : Regions → List RegionView → Request → Request
add_targets regions [] r = r
add_targets regions (seg ∷ segs) r = add_targets regions segs (
    if seg.span.length == 0 then r else elim (regions.find_remote seg.region) [
      | none ↦ r
      | some rr ↦
          add_remote_target r
            (record { region = seg.region; generation = rr.descriptor.generation; span = seg.span })
    ])

abbrev pub hands_off : Direction → Bool → Bool
hands_off write ready_handoff = ready_handoff
hands_off read ready_handoff = false

-- The request of a transfer, and its work.
abbrev pub prepared : Regions → Direction → Options → ℕ → ℕ → List RegionView → Built → Prepared
prepared regions kind opts id peer remote b =
    let r = new_request id (kind_of kind) (total_ops b.per_lane % 2 ^ 32) peer in
    record {
      request = if hands_off kind opts.ready_handoff then add_targets regions remote r else r;
      per_lane = b.per_lane;
      held = b.held;
      after = opts.after;
    }

-- One piece of work for each lane that has any; `k` is the number of the first.
unfoldable pub parts_of : ℕ → List ℕ → ℕ → List (List SubOp) → List Piece
parts_of id after k [] = []
parts_of id after k (ops ∷ more) =
    let rest = parts_of id after (suc k) more in
    if length ops == 0
    then rest
    else record { request = id; ops = ops; lane = k; after = after } ∷ rest

-- Whether a handle that the request holds has been retired; a handle can be read when
-- `find_region` no longer has it.
abbrev pub any_retired : (ℕ → Bool) → List ℕ → Bool
any_retired retired [] = false
any_retired retired (id ∷ ids) = retired id || any_retired retired ids

abbrev pub retired_in : Regions → ℕ → Bool
retired_in regions id = elim (regions.find_region id) [ none ↦ false | some r ↦ r.retired ]

module _ (max_bytes : ℕ) (a : Answers) where
  -- The loop that posts each part, and those of which something waits.
  unfoldable pub post_each : World → List Piece → World × List Piece
  unfolding post
  post_each w [] = (w, [])
  post_each w (p ∷ ps) =
      let (w', mine) = post max_bytes a w p in
      let (w'', others) = post_each w' ps in (w'', mine ++ others)

  -- The parts of a request that is in flight: posted, or left waiting for its dependencies.
  unfoldable pub start : Scheduler → ℕ → List ℕ → List Piece → Scheduler
  unfolding post_each
  start s id after parts =
      let d = dependency_state (events_of a after) in
      let w = s.world in
      let waiting =
        put_back w id
          (record (focus w id) { req = set_state (w.requests id) RequestState.wait_dependency }) in
      let (w', left) = post_each (if is_ok d then w else noted w id d) parts in
      if would_block d
      then record s { world = waiting; pending = s.pending ++ parts }
      else record s { world = w'; pending = s.pending ++ left }

  -- What follows once the request is known to be admissible.
  unfoldable pub admitted : Submitter → Prepared → Submitter
  unfolding start
  admitted s p =
      let id = p.request.id in
      let parts = parts_of id p.after 0 p.per_lane in
      let w = s.scheduler.world in
      let c : Core = record w.engine {
        req = set_parts p.request (length parts % 2 ^ 32);
        inflight = id ∷ w.engine.inflight;
      } in
      let depth = length c.inflight in
      record s {
        scheduler = start (record s.scheduler { world = put_back w id c }) id p.after parts;
        requests_accepted = s.requests_accepted + 1;
        peak_inflight_requests =
            if ltb s.peak_inflight_requests depth then depth else s.peak_inflight_requests;
      }

  -- The second step: what was true while building is asked again.
  unfoldable pub admit_request : (ℕ → Bool) → Submitter → Prepared → Submitter × Result ℕ
  unfolding admitted
  admit_request retired s p =
      if s.closed
      then (s, err Status.invalid_argument)
      else if any_retired retired p.held
      then (s, err Status.stale_generation)
      else (admitted s p, done p.request.id)

module _ (D : Doubles) (tiny : D.Real) where
  pub record PeerState : Type 0 where
    pub id : ℕ
    pub connected : Bool
    pub lanes : List (Lane D tiny)

  -- The first step.
  unfoldable pub prepare :
      ℕ
      → ℕ
      → Answers
      → Regions
      → Submitter
      → PeerState
      → Direction
      → List RegionView
      → List RegionView
      → Options
      → Submitter × Result Prepared
  prepare max_inflight chunk_bytes a regions s peer kind local remote opts =
      let d = dependency_state (events_of a opts.after) in
      let numbered = record s { next_request = (s.next_request + 1) % 2 ^ 64 } in
      if s.closed
      then (s, err Status.invalid_argument)
      else if length local == 0 || not (length local == length remote)
      then (s, err Status.invalid_argument)
      else if opts.notify
      then (s, err Status.unsupported)
      else if not peer.connected
      then (s, err Status.peer_disconnected)
      else if not (is_ok d) && not (would_block d)
      then (s, err d)
      else if leb max_inflight (length s.scheduler.world.engine.inflight)
      then (record s { requests_would_block = s.requests_would_block + 1 }, err Status.would_block)
      else elim (build_subops D tiny chunk_bytes regions kind s.next_request peer.lanes
          (pairs_of local remote)) [
            | err e ↦ (numbered, err e)
            | done b ↦
                if total_ops b.per_lane == 0
                then (numbered, err Status.invalid_argument)
                else (numbered, done (prepared regions kind opts s.next_request peer.id remote b))
          ]

  -- Both steps, with nothing in between.
  unfoldable pub submit_vector :
      ℕ
      → ℕ
      → ℕ
      → Answers
      → Regions
      → Submitter
      → PeerState
      → Direction
      → List RegionView
      → List RegionView
      → Options
      → Submitter × Result ℕ
  unfolding prepare admit_request
  submit_vector max_inflight chunk_bytes max_bytes a regions s peer kind local remote opts =
      let (s', p) = prepare max_inflight chunk_bytes a regions s peer kind local remote opts in
      elim p [ err e ↦ (s', err e) | done q ↦ admit_request max_bytes a (retired_in regions) s' q ]
