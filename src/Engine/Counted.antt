-- ===== src/Engine/Counted.antt =====
-- The pieces of work that `submit_vector` of src/core/engine_impl.cpp makes of a transfer, and the
-- counts by which its request will end.
use hux.Base.{
  ℕ, zero, suc, ◌+◌, ◌%◌, ◌^◌, ◌<◌, ◌==◌, leb, if◌then◌else◌, if-all, true, false, ◌&&◌, ◌||◌, not,
  List, [], ◌∷◌, length, get_or, Bool-cases, inl, inr, ◌≡◌, refl, sym, ap, ◌∙◌, subst, arith, All,
}
use hux.Types.{is_ok, Result, done, err, Result-cases}
use hux.Cc.Timely.{Doubles}
use hux.Request.{Request, new_request, add_remote_target}
use hux.Region.Registration.{RegionView}
use hux.Engine.Chunks.{SubOp, Direction, Regions, Built, build_subops}
use hux.Engine.Post.{would_block}
use hux.Engine.Scheduling.{dependency_state, Piece, Answers, events_of}
use hux.Engine.Submitting.{
  Options, Submitter, Prepared, pairs_of, total_ops, prepared, parts_of, add_targets, hands_off,
  PeerState, prepare,
}

-- What each piece on lane `j` holds.
abbrev pub ops_on : ℕ → List Piece → List (List SubOp)
ops_on j [] = []
ops_on j (p ∷ ps) = if p.lane == j then p.ops ∷ ops_on j ps else ops_on j ps

-- All of a lane's operations in one piece, and no piece for none.
abbrev pub in_one : List SubOp → List (List SubOp)
in_one [] = []
in_one (op ∷ ops) = (op ∷ ops) ∷ []

-- A piece with something to post, for that request and under those dependencies.
abbrev pub IsPieceOf : ℕ → List ℕ → Piece → Type 0
IsPieceOf id after p = (p.request ≡ id) × (p.after ≡ after) × (0 < length p.ops)

parts_of-pieces :
    (id : ℕ) (after : List ℕ) (k : ℕ) (per_lane : List (List SubOp))
    → All (IsPieceOf id after) (parts_of id after k per_lane)
unfolding parts_of
parts_of-pieces id after k [] = tt
parts_of-pieces id after k (ops ∷ more) = elim (Bool-cases (length ops == 0)) [
  | inl idle ↦ rw (idle, parts_of) (parts_of-pieces id after (suc k) more)
  | inr busy ↦
      rw (busy, parts_of)
        ((refl, refl, ground (arith, busy)), parts_of-pieces id after (suc k) more)
]

below :
    (id : ℕ) (after : List ℕ) (k j : ℕ) (per_lane : List (List SubOp))
    → j < k
    → ops_on j (parts_of id after k per_lane) ≡ []
unfolding parts_of
below id after k j [] h = refl
below id after k j (ops ∷ more) h = ground (arith, below id after (suc k) j more)

no_ops : (ops : List SubOp) → (length ops == 0) ≡ true → in_one ops ≡ []
no_ops [] h = refl
no_ops (x ∷ ops) h = absurd (ground arith)

some_ops : (ops : List SubOp) → (length ops == 0) ≡ false → ops ∷ [] ≡ in_one ops
some_ops [] h = absurd (ground arith)
some_ops (x ∷ ops) h = refl

parts_of-lane :
    (id : ℕ) (after : List ℕ) (k j : ℕ) (per_lane : List (List SubOp))
    → ops_on (k + j) (parts_of id after k per_lane) ≡ in_one (get_or per_lane j [])
unfolding parts_of
parts_of-lane id after k j [] = refl
parts_of-lane id after k zero (ops ∷ more) = elim (Bool-cases (length ops == 0)) [
  | inl idle ↦
      rw (idle, parts_of)
        (below id after (suc k) (k + 0) more (omega arith) ∙ sym (no_ops ops idle))
  | inr busy ↦
      let here : (k == k + 0) ≡ true = ground arith in
      rw (busy, parts_of)
        (rw here (
          ap (λ (l : List (List SubOp)). ops ∷ l)
            (below id after (suc k) (k + 0) more (omega arith))
          ∙ some_ops ops busy))
]
parts_of-lane id after k (suc j) (ops ∷ more) =
    let later : ops_on (k + suc j) (parts_of id after (suc k) more) ≡ in_one (get_or more j []) =
      ap (λ (n : ℕ). ops_on n (parts_of id after (suc k) more)) {x = k + suc j} {y = suc k + j}
        (omega arith)
      ∙ parts_of-lane id after (suc k) j more in
    elim (Bool-cases (length ops == 0)) [
      | inl idle ↦ rw (idle, parts_of) later
      | inr busy ↦
          let past : (k == k + suc j) ≡ false = ground arith in rw (busy, parts_of) (rw past later)
    ]

-- What is admitted: each lane's operations in one piece, none of them empty, and as many of them in
-- all as the request will count; at least one.
pub record IsCounted (s : Submitter) (opts : Options) (p : Prepared) : Type 0 where
  pub lane :
      (j : ℕ)
      → ops_on j (parts_of p.request.id p.after 0 p.per_lane) ≡ in_one (get_or p.per_lane j [])
  pub pieces :
      All (IsPieceOf s.next_request opts.after) (parts_of p.request.id p.after 0 p.per_lane)
  pub total : p.request.total_subops ≡ total_ops p.per_lane % 2 ^ 32
  pub some_work : 0 < total_ops p.per_lane

add_targets-keeps :
    (regions : Regions) (segs : List RegionView) (r : Request)
    → ((add_targets regions segs r).id ≡ r.id)
      × ((add_targets regions segs r).total_subops ≡ r.total_subops)
unfolding add_remote_target
add_targets-keeps regions [] r = (refl, refl)
add_targets-keeps regions (seg ∷ segs) r =
    let h = add_targets-keeps regions segs _ in (h.0 ∙ ground arith, h.1 ∙ ground arith)

prepared-keeps :
    (regions : Regions) (kind : Direction) (opts : Options) (id peer : ℕ) (remote : List RegionView)
    (b : Built)
    → let r = (prepared regions kind opts id peer remote b).request in
      (r.id ≡ id) × (r.total_subops ≡ total_ops b.per_lane % 2 ^ 32)
unfolding new_request
prepared-keeps regions kind opts id peer remote b =
    if-all (λ (r : Request). (r.id ≡ id) × (r.total_subops ≡ total_ops b.per_lane % 2 ^ 32))
      (hands_off kind opts.ready_handoff) _ _ (add_targets-keeps regions remote _) (refl, refl)

abbrev CountedBy : Submitter → Options → Submitter × Result Prepared → Type 0
CountedBy s opts (s', err e) = Unit
CountedBy s opts (s', done p) = IsCounted s opts p

prepared-IsCounted :
    (regions : Regions) (kind : Direction) (opts : Options) (s : Submitter) (peer : ℕ)
    (remote : List RegionView) (b : Built)
    → (total_ops b.per_lane == 0) ≡ false
    → IsCounted s opts (prepared regions kind opts s.next_request peer remote b)
prepared-IsCounted regions kind opts s peer remote b work =
    let p = prepared regions kind opts s.next_request peer remote b in
    let kept = prepared-keeps regions kind opts s.next_request peer remote b in
    record {
      lane = λ j.
          ap (λ (n : ℕ). ops_on n (parts_of p.request.id p.after 0 p.per_lane)) {x = j} {y = 0 + j}
            (omega arith)
          ∙ parts_of-lane p.request.id p.after 0 j p.per_lane;
      pieces =
          subst
            (λ (n : ℕ). All (IsPieceOf n opts.after) (parts_of p.request.id p.after 0 p.per_lane))
            kept.0 (parts_of-pieces p.request.id p.after 0 p.per_lane);
      total = kept.1;
      some_work = ground (arith, work);
    }

module _ (D : Doubles) (tiny : D.Real) where
  prepare-CountedBy :
      (max_inflight chunk_bytes : ℕ) (a : Answers) (regions : Regions) (s : Submitter)
      (peer : PeerState D tiny) (kind : Direction) (local remote : List RegionView) (opts : Options)
      → CountedBy s opts
          (prepare D tiny max_inflight chunk_bytes a regions s peer kind local remote opts)
  unfolding prepare
  prepare-CountedBy max_inflight chunk_bytes a regions s peer kind local remote opts =
      let d = dependency_state (events_of a opts.after) in
      let P = CountedBy s opts in
      if-all P s.closed _ _ tt (
        if-all P (length local == 0 || not (length local == length remote)) _ _ tt (
          if-all P opts.notify _ _ tt (
            if-all P (not peer.connected) _ _ tt (
              if-all P (not (is_ok d) && not (would_block d)) _ _ tt (
                if-all P (leb max_inflight (length s.scheduler.world.engine.inflight)) _ _ tt
                  (elim (Result-cases (
                    build_subops D tiny chunk_bytes regions kind s.next_request peer.lanes
                      (pairs_of local remote))) [
                        | inr (e, failed) ↦ rw failed tt
                        | inl (b, built) ↦ rw built (elim (Bool-cases (total_ops b.per_lane == 0)) [
                          | inl idle ↦ rw idle tt
                          | inr work ↦
                              rw work (prepared-IsCounted regions kind opts s peer.id remote b work)
                        ])
                      ]))))))

  -- A transfer that `submit_vector` is to admit comes as pieces of work, one for each lane that has
  -- any, which holds that lane's operations in order, waits for the caller's events and belongs to
  -- the new request; and the request counts, on 32 bits, all of them, of which there is at least
  -- one.
  pub prepare-IsCounted :
      (max_inflight chunk_bytes : ℕ) (a : Answers) (regions : Regions) (s : Submitter)
      (peer : PeerState D tiny) (kind : Direction) (local remote : List RegionView) (opts : Options)
      (p : Prepared)
      → (prepare D tiny max_inflight chunk_bytes a regions s peer kind local remote opts).1 ≡ done p
      → IsCounted s opts p
  prepare-IsCounted max_inflight chunk_bytes a regions s peer kind local remote opts p e =
      let r = prepare D tiny max_inflight chunk_bytes a regions s peer kind local remote opts in
      subst (λ (q : Result Prepared). CountedBy s opts (r.0, q)) e
        (prepare-CountedBy max_inflight chunk_bytes a regions s peer kind local remote opts)
