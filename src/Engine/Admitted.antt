-- ===== src/Engine/Admitted.antt =====
-- What `submit_vector` of src/core/engine_impl.cpp leaves of a transfer that it refuses, and how many
-- requests it lets be in flight.
use hux.Base.{
  ℕ, ◌+◌, ◌%◌, ◌^◌, ◌≤◌, ◌<◌, ◌==◌, leb, if-all, Bool, ◌&&◌, ◌||◌, not, List, [], ◌∷◌, length,
  Bool-cases, inl, inr, ◌≡◌, refl, ap, ◌∙◌, subst, arith,
}
use hux.Types.{is_ok, Result, done, err, Result-cases}
use hux.Cc.Timely.{Doubles}
use hux.Request.{
  Request, set_parts, new_request, add_remote_target, seal_if_idle, part_finished, abandoning,
}
use hux.Region.Registration.{RegionView}
use hux.Engine.Chunks.{SubOp, Direction, Regions, Built, build_subops}
use hux.Engine.Post.{
  Core, Transport, erase, claim, publish, end_abandoned, part_done, post_ops, would_block,
}
use hux.Engine.Cases.{post_ops-core}
use hux.Engine.Scheduling.{
  dependency_state, Piece, World, focus, put_back, noted, Answers, events_of, post, Scheduler,
}
use hux.Engine.Submitting.{
  Options, Submitter, Prepared, pairs_of, total_ops, prepared, parts_of, any_retired, retired_in,
  post_each, start, add_targets, hands_off, admitted, admit_request, PeerState, prepare,
  submit_vector,
}

abbrev pub inflight_of : Submitter → List ℕ
inflight_of s = s.scheduler.world.engine.inflight

erase-le : (xs : List ℕ) (id : ℕ) → length (erase xs id) ≤ length xs
erase-le [] id = omega arith
erase-le (x ∷ xs) id = ground (arith, erase-le xs id)

-- A step after which no more is in flight.
abbrev NoMore : Core → Core → Type 0
NoMore c d = length d.inflight ≤ length c.inflight

end_abandoned-NoMore : (c : Core) → NoMore c (end_abandoned c)
unfolding end_abandoned claim publish
end_abandoned-NoMore c = ground (arith, erase-le c.inflight c.req.id)

part_done-NoMore : (c d : Core) → NoMore c d → NoMore c (part_done d)
unfolding part_done
part_done-NoMore c d h =
    let r' = (part_finished d.req).0 in
    let r = (seal_if_idle r').0 in
    let gone = end_abandoned-NoMore (record d { req = r }) in
    if-all (NoMore c) (not (part_finished d.req).1 || not (abandoning r')) (record d { req = r' }) _
      h (if-all (NoMore c) (seal_if_idle r').1 _ (record d { req = r }) (omega (arith, gone)) h)

post_ops-NoMore :
    (max_bytes : ℕ) (t : Transport) (ops : List SubOp) (c : Core)
    → NoMore c (post_ops max_bytes t ops c).core
post_ops-NoMore max_bytes t ops c =
    let same : length c.inflight ≤ length c.inflight = omega arith in
    post_ops-core (NoMore c) c (part_done-NoMore c) same (λ n. same) (λ n. same) (λ n e. same)
      max_bytes t ops

abbrev pub in_flight : World → ℕ
in_flight w = length w.engine.inflight

post-NoMore :
    (max_bytes : ℕ) (a : Answers) (w : World) (p : Piece)
    → in_flight (post max_bytes a w p).0 ≤ in_flight w
unfolding post
post-NoMore max_bytes a w p =
    let h = post_ops-NoMore max_bytes (a.lane p) p.ops (focus w p.request) in
    if-all (λ (r : World × List Piece). in_flight r.0 ≤ in_flight w)
      (post_ops max_bytes (a.lane p) p.ops (focus w p.request)).finished _ _ h h

post_each-NoMore :
    (max_bytes : ℕ) (a : Answers) (w : World) (ps : List Piece)
    → in_flight (post_each max_bytes a w ps).0 ≤ in_flight w
unfolding post_each
post_each-NoMore max_bytes a w [] = omega arith
post_each-NoMore max_bytes a w (p ∷ ps) =
    omega
      (arith, post_each-NoMore max_bytes a (post max_bytes a w p).0 ps, post-NoMore max_bytes a w p)

start-NoMore :
    (max_bytes : ℕ) (a : Answers) (s : Scheduler) (id : ℕ) (after : List ℕ) (parts : List Piece)
    → in_flight (start max_bytes a s id after parts).world ≤ in_flight s.world
unfolding start
start-NoMore max_bytes a s id after parts =
    let d = dependency_state (events_of a after) in
    if-all (λ (q : Scheduler). in_flight q.world ≤ in_flight s.world) (would_block d) _ _
      (omega arith)
      (if-all (λ (w : World). in_flight (post_each max_bytes a w parts).0 ≤ in_flight s.world)
        (is_ok d) s.world (noted s.world id d) (post_each-NoMore max_bytes a s.world parts)
        (post_each-NoMore max_bytes a (noted s.world id d) parts))

-- What a submission leaves: a refusal nothing, and an admission no more in flight than the bound.
abbrev pub Left : ℕ → Submitter → Submitter × Result ℕ → Type 0
Left max_inflight s (s', err e) =
    (s'.scheduler ≡ s.scheduler) × (s'.requests_accepted ≡ s.requests_accepted)
Left max_inflight s (s', done id) =
    (in_flight s'.scheduler.world ≤ max_inflight)
    × (s'.requests_accepted ≡ s.requests_accepted + 1)
    × (id ≡ s.next_request)

abbrev LeftBy : ℕ → Submitter → Submitter × Result Prepared → Type 0
LeftBy max_inflight s (s', err e) = Left max_inflight s (s', err e)
LeftBy max_inflight s (s', done p) =
    (s'.scheduler ≡ s.scheduler)
    × (s'.requests_accepted ≡ s.requests_accepted)
    × (in_flight s.scheduler.world < max_inflight)
    × (p.request.id ≡ s.next_request)

add_targets-id :
    (regions : Regions) (segs : List RegionView) (r : Request)
    → (add_targets regions segs r).id ≡ r.id
unfolding add_remote_target
add_targets-id regions [] r = refl
add_targets-id regions (seg ∷ segs) r = add_targets-id regions segs _ ∙ ground arith

prepared-id :
    (regions : Regions) (kind : Direction) (opts : Options) (id peer : ℕ) (remote : List RegionView)
    (b : Built)
    → (prepared regions kind opts id peer remote b).request.id ≡ id
unfolding new_request
prepared-id regions kind opts id peer remote b =
    if-all (λ (r : Request). r.id ≡ id) (hands_off kind opts.ready_handoff) _ _
      (add_targets-id regions remote _) refl

module _ (D : Doubles) (tiny : D.Real) where
  prepare-LeftBy :
      (max_inflight chunk_bytes : ℕ) (a : Answers) (regions : Regions) (s : Submitter)
      (peer : PeerState D tiny) (kind : Direction) (local remote : List RegionView) (opts : Options)
      → LeftBy max_inflight s
          (prepare D tiny max_inflight chunk_bytes a regions s peer kind local remote opts)
  unfolding prepare
  prepare-LeftBy max_inflight chunk_bytes a regions s peer kind local remote opts =
      let P = LeftBy max_inflight s in
      let d = dependency_state (events_of a opts.after) in
      if-all P s.closed _ _ (refl, refl)
        (if-all P (length local == 0 || not (length local == length remote)) _ _ (refl, refl)
          (if-all P opts.notify _ _ (refl, refl)
            (if-all P (not peer.connected) _ _ (refl, refl)
              (if-all P (not (is_ok d) && not (would_block d)) _ _ (refl, refl)
                (elim (Bool-cases (leb max_inflight (in_flight s.scheduler.world))) [
                  | inl full ↦ rw full (refl, refl)
                  | inr room ↦
                      rw room
                        (elim (Result-cases (
                          build_subops D tiny chunk_bytes regions kind s.next_request peer.lanes
                            (pairs_of local remote))) [
                              | inr (e, failed) ↦ rw failed (refl, refl)
                              | inl (b, built) ↦ rw built (
                                  if-all P (total_ops b.per_lane == 0) _ _ (refl, refl)
                                    (
                                      refl,
                                      refl,
                                      ground (arith, room),
                                      prepared-id regions kind opts s.next_request peer.id remote b,
                                    ))
                            ])
                ])))))

  admit-Left :
      (max_inflight max_bytes : ℕ) (a : Answers) (retired : ℕ → Bool) (s s' : Submitter)
      (p : Prepared)
      → LeftBy max_inflight s (s', done p)
      → Left max_inflight s (admit_request max_bytes a retired s' p)
  unfolding admit_request admitted
  admit-Left max_inflight max_bytes a retired s s' p (same, counted, room, number) =
      let P = Left max_inflight s in
      let w = s'.scheduler.world in
      let parts = parts_of p.request.id p.after 0 p.per_lane in
      let c : Core = record w.engine {
        req = set_parts p.request (length parts % 2 ^ 32);
        inflight = p.request.id ∷ w.engine.inflight;
      } in
      let more =
        start-NoMore max_bytes a (record s'.scheduler { world = put_back w p.request.id c })
          p.request.id p.after parts in
      if-all P s'.closed _ _ (same, counted)
        (if-all P (any_retired retired p.held) _ _ (same, counted)
          (
            omega (arith, more, ap (λ (x : Scheduler). in_flight x.world) same, room),
            omega (arith, counted),
            number,
          ))

  -- `submit_vector`, called alone: when it refuses, for whatever reason, what waits, every request,
  -- what is in flight and the count of accepted requests are as before; when it admits, the request
  -- has the next number and is counted once, and no more than `max_inflight` are in flight
  -- afterwards.
  pub submit_vector-Left :
      (max_inflight chunk_bytes max_bytes : ℕ) (a : Answers) (regions : Regions) (s : Submitter)
      (peer : PeerState D tiny) (kind : Direction) (local remote : List RegionView) (opts : Options)
      → Left max_inflight s (
          submit_vector D tiny max_inflight chunk_bytes max_bytes a regions s peer kind local remote
            opts)
  unfolding submit_vector
  submit_vector-Left max_inflight chunk_bytes max_bytes a regions s peer kind local remote opts =
      let first = prepare D tiny max_inflight chunk_bytes a regions s peer kind local remote opts in
      let left = prepare-LeftBy max_inflight chunk_bytes a regions s peer kind local remote opts in
      elim (Result-cases first.1) [
        | inr (e, refused) ↦
            rw (refused, submit_vector)
              (subst (λ (r : Result Prepared). LeftBy max_inflight s (first.0, r)) refused left)
        | inl (p, ready) ↦
            rw (ready, submit_vector)
              (admit-Left max_inflight max_bytes a (retired_in regions) s first.0 p
                (subst (λ (r : Result Prepared). LeftBy max_inflight s (first.0, r)) ready left))
      ]
