-- ===== src/Engine/Chunks.antt =====
-- `EngineImpl::build_subops` of src/core/engine_impl.cpp: a transfer is admitted segment by
-- segment, cut into chunks, and each chunk given to the lane it costs least. Weights and costs are
-- the doubles of Cc.Timely.
use hux.Base.{
  ℕ, zero, suc, ◌+◌, ◌-◌, ◌%◌, ◌^◌, ◌==◌, ltb, if◌then◌else◌, Bool, true, false, not, List, [], ◌∷◌,
  ◌++◌, get_or, map, Option, none, some,
}
use hux.Types.{Status, Result, done, err, remote_read, remote_write, has_flag, within}
use hux.Cc.Timely.{Doubles}
use hux.Region.Registration.{
  MemoryRegionImpl, RemoteRegionImpl, RegionView, local_key_for, remote_key_for,
}

-- `SubOp::Kind`.
pub data Direction : Type 0 where
  read write : Direction

-- A `SubOp`, less `signal_peer` and `peer_token`, which nothing sets.
pub record SubOp : Type 0 where
  pub kind : Direction
  pub request : ℕ
  pub sub_id : ℕ
  pub local_addr : ℕ
  pub local_key : ℕ
  pub remote_addr : ℕ
  pub remote_key : ℕ
  pub length : ℕ

-- The regions as a transfer finds them.
pub record Regions : Type 0 where
  pub find_region : ℕ → Option MemoryRegionImpl
  pub find_remote : ℕ → Option RemoteRegionImpl

-- One segment that was admitted: where it starts on each side.
pub record Segment : Type 0 where
  pub kind : Direction
  pub request : ℕ
  pub local_start : ℕ
  pub remote_start : ℕ
  pub length : ℕ
  pub local_region : MemoryRegionImpl
  pub remote_region : RemoteRegionImpl

abbrev pub needed : Direction → ℕ
needed write = remote_write
needed read = remote_read

-- The checks on one pair of views, in the order of the code.
unfoldable pub admit : Regions → Direction → ℕ → RegionView × RegionView → Result Segment
admit regions kind request (l, r) = elim (regions.find_region l.region) [
  | none ↦ err Status.not_found
  | some lr ↦ elim (regions.find_remote r.region) [
    | none ↦ err (if lr.retired then Status.stale_generation else Status.not_found)
    | some rr ↦
        if lr.retired
        then err Status.stale_generation
        else if not rr.valid
        then err Status.stale_generation
        else if not (has_flag rr.descriptor.access (needed kind))
        then err Status.invalid_argument
        else if not (l.span.length == r.span.length)
        then err Status.invalid_argument
        else if not (within l.span lr.length)
        then err Status.out_of_range
        else if not (within r.span rr.descriptor.length)
        then err Status.out_of_range
        else done (record {
          kind = kind;
          request = request;
          local_start = lr.base + l.span.offset;
          remote_start = (rr.descriptor.base + r.span.offset) % 2 ^ 64;
          length = l.span.length;
          local_region = lr;
          remote_region = rr;
        })
  ]
]

abbrev pub smaller_segment : ℕ → ℕ → ℕ
smaller_segment most chunk =
    if not (most == 0) then if ltb most chunk then most else chunk else chunk

-- `(*out)[lane].push_back(op)`.
unfoldable pub push_at : ℕ → SubOp → List (List SubOp) → List (List SubOp)
push_at i op [] = []
push_at zero op (x ∷ xs) = (x ++ (op ∷ [])) ∷ xs
push_at (suc i) op (x ∷ xs) = x ∷ push_at i op xs

pub record Built : Type 0 where
  pub per_lane : List (List SubOp)
  pub held : List ℕ
  pub target_addr : Option ℕ
  pub target_bytes : ℕ

-- Where the first local segment starts.
abbrev target_of : Regions → List (RegionView × RegionView) → Option ℕ
target_of regions [] = none
target_of regions ((l, r) ∷ pairs) = elim (regions.find_region l.region) [
  | none ↦ none
  | some lr ↦ some (lr.base + l.span.offset)
]

module _ (D : Doubles) (tiny : D.Real) where
  open D use {Real, of_ℕ, add, div, lt}

  pub record Lane : Type 0 where
    pub provider : List ℕ
    pub max_segment_bytes : ℕ
    pub weight : Real

  -- No chunk is longer than any lane can carry in one operation.
  unfoldable pub chunk_limit : ℕ → List Lane → ℕ
  chunk_limit chunk [] = chunk
  chunk_limit chunk (l ∷ ls) = chunk_limit (smaller_segment l.max_segment_bytes chunk) ls

  -- What `n` more bytes cost on a lane; `tiny` is the 1e-9 of a lane without a weight.
  abbrev cost : Lane → Real → ℕ → Real
  cost l assigned n = div (add assigned (of_ℕ n)) (if lt (of_ℕ 0) l.weight then l.weight else tiny)

  -- Whether lane `k` is the best so far.
  abbrev improves : Real → Option Real → Bool
  improves c none = true
  improves c (some best) = lt c best

  -- The loop over the lanes, from number `k` on.
  unfoldable pub cheapest : List Lane → List Real → ℕ → ℕ → Option Real → ℕ → ℕ
  cheapest [] assigned n k best lane = lane
  cheapest (l ∷ ls) assigned n k best lane =
      let c = cost l (get_or assigned k (of_ℕ 0)) n in
      if improves c best
      then cheapest ls assigned n (suc k) (some c) k
      else cheapest ls assigned n (suc k) best lane

  abbrev pub bump : ℕ → (Real → Real) → List Real → List Real
  bump i f [] = []
  bump zero f (x ∷ xs) = f x ∷ xs
  bump (suc i) f (x ∷ xs) = x ∷ bump i f xs

  -- What the loops change: the number of the next sub-operation, the bytes that each lane has been
  -- given, and its operations.
  pub record Placing : Type 0 where
    pub sub_id : ℕ
    pub assigned : List Real
    pub out : List (List SubOp)

  module _ (first : Lane) (others : List Lane) where
    -- One chunk, given to a lane: `n` bytes of the segment from `off` on, under these keys.
    abbrev pub give : Segment → ℕ → ℕ → Placing → ℕ → ℕ → ℕ → Placing
    give seg off n st lane lkey rkey =
        let op : SubOp = record {
          kind = seg.kind;
          request = seg.request;
          sub_id = st.sub_id;
          local_addr = seg.local_start + off;
          local_key = lkey;
          remote_addr = (seg.remote_start + off) % 2 ^ 64;
          remote_key = rkey;
          length = n;
        } in
        record {
          sub_id = suc st.sub_id;
          assigned = bump lane (λ (x : Real). add x (of_ℕ n)) st.assigned;
          out = push_at lane op st.out;
        }

    abbrev pub lane_of : Placing → ℕ → ℕ
    lane_of st n = cheapest (first ∷ others) st.assigned n 0 none 0

    abbrev pub name_of : ℕ → List ℕ
    name_of lane = (get_or (first ∷ others) lane first).provider

    -- The keys are those of the transport that will carry the chunk.
    unfoldable pub place_chunk : Segment → ℕ → ℕ → Placing → Result Placing
    place_chunk seg off n st =
        elim (local_key_for seg.local_region.registration (name_of (lane_of st n))) [
          | none ↦ err Status.unsupported
          | some lkey ↦
              elim (remote_key_for seg.remote_region.descriptor (name_of (lane_of st n))) [
                | none ↦ err Status.unsupported
                | some rkey ↦ done (give seg off n st (lane_of st n) lkey rkey)
              ]
        ]

    abbrev pub chunk_size : ℕ → ℕ → ℕ
    chunk_size chunk left = if ltb chunk left then chunk else left

    -- `while (off < length)`, on fuel: each turn moves `off` by at least one byte.
    unfoldable pub split : ℕ → ℕ → Segment → ℕ → Placing → Result Placing
    split zero chunk seg off st = if ltb off seg.length then err Status.internal else done st
    split (suc fuel) chunk seg off st =
        let left = seg.length - off in
        let n = chunk_size chunk left in
        elim (ltb off seg.length) [
          | false ↦ done st
          | true ↦ elim (place_chunk seg off n st) [
            | err s ↦ err s
            | done next ↦ split fuel chunk seg (off + n) next
          ]
        ]

    -- The loop over the segments; the total is a uint64.
    unfoldable pub build_loop :
        ℕ
        → Regions
        → Direction
        → ℕ
        → List (RegionView × RegionView)
        → ℕ
        → Placing
        → Result (Placing × ℕ)
    build_loop chunk regions kind request [] total st = done (st, total)
    build_loop chunk regions kind request (p ∷ pairs) total st =
        elim (admit regions kind request p) [
          | err s ↦ err s
          | done seg ↦ elim (split seg.length chunk seg 0 st) [
            | err s ↦ err s
            | done next ↦
                build_loop chunk regions kind request pairs ((total + seg.length) % 2 ^ 64) next
          ]
        ]

  abbrev pub placing_start : List Lane → Placing
  placing_start lanes = record {
    sub_id = 0;
    assigned = map (λ (l : Lane). of_ℕ 0) lanes;
    out = map (λ (l : Lane). []) lanes;
  }

  -- `per_lane` is as long as `lanes`; `held` are the local regions that the request keeps.
  unfoldable pub build_subops :
      ℕ → Regions → Direction → ℕ → List Lane → List (RegionView × RegionView) → Result Built
  build_subops chunk_bytes regions kind request [] pairs = err Status.not_found
  build_subops chunk_bytes regions kind request (first ∷ others) pairs =
      let lanes = first ∷ others in
      elim (build_loop first others (chunk_limit chunk_bytes lanes) regions kind request pairs 0
        (placing_start lanes)) [
          | err s ↦ err s
          | done (st, total) ↦ done (record {
            per_lane = st.out;
            held = map (λ (p : RegionView × RegionView). p.0.region) pairs;
            target_addr = target_of regions pairs;
            target_bytes = total;
          })
        ]
