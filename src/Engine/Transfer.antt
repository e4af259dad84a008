-- ===== src/Engine/Transfer.antt =====
-- `EngineImpl::build_subops` of src/core/engine_impl.cpp as a whole: a transfer that is built moves
-- the bytes its views name.
use hux.Base.{
  ℕ, zero, suc, ◌+◌, ◌-◌, ◌%◌, ◌^◌, ◌≤◌, ◌<◌, List, [], ◌∷◌, length, length-map, map, none, some,
  ◌≡◌, ◌≢◌, refl, ap, ◌∙◌, arith, Option-cases, inl, inr,
}
use hux.Types.{Status, Result, done, err, Result-cases}
use hux.Cc.Timely.{Doubles}
use hux.Region.Registration.{MemoryRegionImpl, RemoteRegionImpl, RegionView}
use hux.Engine.Chunks.{
  Direction, SubOp, Regions, Segment, admit, Lane, smaller_segment, chunk_limit, Placing,
  placing_start, split, build_loop, Built, build_subops,
}
use hux.Engine.Carries.{
  moves, moves-eq, carries, weigh_all, done-eq, split-Split, split-unsupported,
}

-- The same count for a pair of views.
pub view_moves : Regions → ℕ → ℕ → RegionView × RegionView → ℕ
view_moves regions a b (l, r) = elim (regions.find_region l.region) [
  | none ↦ 0
  | some lr ↦ elim (regions.find_remote r.region) [
    | none ↦ 0
    | some rr ↦
        moves a b (lr.base + l.span.offset) (rr.descriptor.base + r.span.offset) l.span.length
  ]
]

pub views_move : Regions → ℕ → ℕ → List (RegionView × RegionView) → ℕ
views_move regions a b [] = 0
views_move regions a b (p ∷ pairs) = view_moves regions a b p + views_move regions a b pairs

-- Every imported region lies in the 64-bit address space.
abbrev pub InSpace : Regions → Type 0
InSpace regions =
    (id : ℕ) (r : RemoteRegionImpl)
    → regions.find_remote id ≡ some r
    → r.descriptor.base + r.descriptor.length ≤ 2 ^ 64

record Admitted (regions : Regions) (p : RegionView × RegionView) (seg : Segment) : Type 0 where
  pub room : seg.remote_start + seg.length ≤ 2 ^ 64
  pub names :
      (a b : ℕ) → moves a b seg.local_start seg.remote_start seg.length ≡ view_moves regions a b p

admit-found :
    (regions : Regions) (kind : Direction) (request : ℕ) (l r : RegionView) (seg : Segment)
    (lr : MemoryRegionImpl) (rr : RemoteRegionImpl)
    → regions.find_region l.region ≡ some lr
    → regions.find_remote r.region ≡ some rr
    → admit regions kind request (l, r) ≡ done seg
    → (seg.local_start ≡ lr.base + l.span.offset)
      × (seg.remote_start ≡ (rr.descriptor.base + r.span.offset) % 2 ^ 64)
      × (seg.length ≡ l.span.length)
      × (l.span.length ≡ r.span.length)
      × (r.span.offset + r.span.length ≤ rr.descriptor.length)
unfolding admit
admit-found regions kind request l r seg lr rr f g e = ground (arith, rw (f, g, admit) at e)

moves-wrapped :
    (a b l r s n : ℕ) → r ≡ s % 2 ^ 64 → s + n ≤ 2 ^ 64 → moves a b l r n ≡ moves a b l s n
moves-wrapped a b l r s zero e h = ground arith
moves-wrapped a b l r s (suc n) e h = moves-eq a b l r (suc n) l s (suc n) refl (omega arith) refl

admit-Admitted :
    (regions : Regions) (kind : Direction) (request : ℕ) (p : RegionView × RegionView)
    (seg : Segment)
    → InSpace regions
    → admit regions kind request p ≡ done seg
    → Admitted regions p seg
unfolding admit view_moves
admit-Admitted regions kind request (l, r) seg space e =
    elim (Option-cases (regions.find_region l.region)) [
      | inl n ↦ cc (rw (n, admit) at e)
      | inr (lr, f) ↦ elim (Option-cases (regions.find_remote r.region)) [
        | inl n ↦ cc (rw (f, n, admit) at e)
        | inr (rr, g) ↦
            let (from, to, size, same, fits) =
              admit-found regions kind request l r seg lr rr f g e in
            let within_space = space r.region rr g in
            record {
              room = omega arith;
              names = λ (a b : ℕ).
                  rw (f, g, view_moves)
                    (moves-eq a b _ _ _ _ _ _ from refl size
                      ∙ moves-wrapped a b _ _ _ _ to (omega arith));
            }
      ]
    ]

err-eq {ℓ} : {A : Type ℓ} (s t : Status) → ◌≡◌ {A = Result A} (err s) (err t) → s ≡ t
err-eq s t e = cc

admit-ends :
    (regions : Regions) (kind : Direction) (request : ℕ) (p : RegionView × RegionView)
    → admit regions kind request p ≢ err Status.internal
unfolding admit
admit-ends regions kind request (l, r) e = elim (Option-cases (regions.find_region l.region)) [
  | inl n ↦ cc (rw (n, admit) at e)
  | inr (lr, f) ↦ elim (Option-cases (regions.find_remote r.region)) [
    | inl n ↦ ground (arith, rw (f, n, admit) at e)
    | inr (rr, g) ↦ ground (arith, rw (f, g, admit) at e)
  ]
]

chunk_limit-positive :
    (D : Doubles) (tiny : D.Real) (chunk : ℕ) (ls : List (Lane D tiny))
    → 0 < chunk
    → 0 < chunk_limit D tiny chunk ls
unfolding chunk_limit
chunk_limit-positive D tiny chunk [] h = h
chunk_limit-positive D tiny chunk (l ∷ ls) h =
    chunk_limit-positive D tiny (smaller_segment l.max_segment_bytes chunk) ls (ground arith)

module _ (D : Doubles) (tiny : D.Real) (first : Lane D tiny) (others : List (Lane D tiny)) where
  build_loop-moves :
      (chunk : ℕ) (regions : Regions) (kind : Direction) (request : ℕ)
      (pairs : List (RegionView × RegionView)) (total : ℕ) (st next : Placing D tiny) (after : ℕ)
      → 0 < chunk
      → InSpace regions
      → length st.out ≡ suc (length others)
      → build_loop D tiny first others chunk regions kind request pairs total st
        ≡ done (next, after)
      → (a b : ℕ)
      → weigh_all (carries a b) next.out
        ≡ weigh_all (carries a b) st.out + views_move regions a b pairs
  unfolding build_loop views_move
  build_loop-moves chunk regions kind request [] total st next after pos space lanes e a b =
      let same : st ≡ next = ap (λ (t : Placing D tiny × ℕ). t.0) (done-eq _ _ e) in
      omega (arith, ap (λ (t : Placing D tiny). weigh_all (carries a b) t.out) same)
  build_loop-moves chunk regions kind request (p ∷ pairs) total st next after pos space lanes e a
        b =
      elim (Result-cases (admit regions kind request p)) [
        | inr (s, f) ↦ cc (rw (f, build_loop) at e)
        | inl (seg, f) ↦ elim (Result-cases (split D tiny first others seg.length chunk seg 0 st)) [
          | inr (s, g) ↦ cc (rw (f, g, build_loop) at e)
          | inl (mid, g) ↦
              let v = admit-Admitted regions kind request p seg space f in
              let cut =
                split-Split D tiny first others seg.length chunk seg 0 st mid (omega arith) pos
                  v.room lanes g in
              let rest =
                build_loop-moves chunk regions kind request pairs _ mid next after pos space
                  (cut.same_lanes ∙ lanes) (rw (f, g, build_loop) at e) a b in
              let whole : moves a b (seg.local_start + 0) (seg.remote_start + 0) (seg.length - 0)
                  ≡ moves a b seg.local_start seg.remote_start seg.length =
                moves-eq a b _ _ _ _ _ _ (omega arith) (omega arith) (omega arith) in
              omega (arith, rest, cut.moved a b, whole, v.names a b)
        ]
      ]

  build_loop-ends :
      (chunk : ℕ) (regions : Regions) (kind : Direction) (request : ℕ)
      (pairs : List (RegionView × RegionView)) (total : ℕ) (st : Placing D tiny)
      → 0 < chunk
      → build_loop D tiny first others chunk regions kind request pairs total st
        ≢ err Status.internal
  unfolding build_loop
  build_loop-ends chunk regions kind request [] total st pos e = cc
  build_loop-ends chunk regions kind request (p ∷ pairs) total st pos e =
      elim (Result-cases (admit regions kind request p)) [
        | inr (s, f) ↦
            admit-ends regions kind request p (f ∙ ap err (err-eq s _ (rw (f, build_loop) at e)))
        | inl (seg, f) ↦ elim (Result-cases (split D tiny first others seg.length chunk seg 0 st)) [
          | inr (s, g) ↦
              let missing =
                split-unsupported D tiny first others seg.length chunk seg 0 st s (omega arith) pos
                  g in
              cc (rw (f, g, build_loop) at e)
          | inl (mid, g) ↦
              build_loop-ends chunk regions kind request pairs _ mid pos
                (rw (f, g, build_loop) at e)
        ]
      ]

  zeros-weigh :
      (f : SubOp → ℕ) (ls : List (Lane D tiny)) → weigh_all f (map (λ (l : Lane D tiny). []) ls) ≡ 0
  zeros-weigh f [] = refl
  zeros-weigh f (l ∷ ls) = omega (arith, zeros-weigh f ls)

-- A transfer that `build_subops` builds moves exactly the bytes that its pairs of views name: for
-- every local byte `a` and remote byte `b`, as many sub-operations, over all lanes together, take
-- the one to the other as there are pairs of views that do. The configured chunk is of at least one
-- byte, and the peer's regions lie in the 64-bit address space.
pub build_subops-moves :
    (D : Doubles) (tiny : D.Real) (chunk : ℕ) (regions : Regions) (kind : Direction) (request : ℕ)
    (lanes : List (Lane D tiny)) (pairs : List (RegionView × RegionView)) (built : Built)
    → 0 < chunk
    → InSpace regions
    → build_subops D tiny chunk regions kind request lanes pairs ≡ done built
    → (a b : ℕ) → weigh_all (carries a b) built.per_lane ≡ views_move regions a b pairs
unfolding build_subops
build_subops-moves D tiny chunk regions kind request [] pairs built pos space e a b = cc
build_subops-moves D tiny chunk regions kind request (first ∷ others) pairs built pos space e a b =
    let limit = chunk_limit D tiny chunk (first ∷ others) in
    let start = placing_start D tiny (first ∷ others) in
    elim (Result-cases (build_loop D tiny first others limit regions kind request pairs 0 start)) [
      | inr (s, f) ↦ cc (rw (f, build_subops) at e)
      | inl ((st, total), f) ↦
          let same : st.out ≡ built.per_lane =
            ap (λ (t : Built). t.per_lane) (done-eq _ _ (rw (f, build_subops) at e)) in
          let moved =
            build_loop-moves D tiny first others limit regions kind request pairs 0 start st total
              (chunk_limit-positive D tiny chunk (first ∷ others) pos) space
              (ap suc (length-map (λ (l : Lane D tiny). []) others)) f a b in
          let none_yet = zeros-weigh D tiny first others (carries a b) (first ∷ others) in
          omega (arith, ap (weigh_all (carries a b)) same, moved, none_yet)
    ]

-- With a chunk of at least one byte, building a transfer never runs out of the fuel of its chunk
-- loop.
build_subops-ends :
    (D : Doubles) (tiny : D.Real) (chunk : ℕ) (regions : Regions) (kind : Direction) (request : ℕ)
    (lanes : List (Lane D tiny)) (pairs : List (RegionView × RegionView))
    → 0 < chunk
    → build_subops D tiny chunk regions kind request lanes pairs ≢ err Status.internal
unfolding build_subops
build_subops-ends D tiny chunk regions kind request [] pairs pos e = cc
build_subops-ends D tiny chunk regions kind request (first ∷ others) pairs pos e =
    let limit = chunk_limit D tiny chunk (first ∷ others) in
    let start = placing_start D tiny (first ∷ others) in
    elim (Result-cases (build_loop D tiny first others limit regions kind request pairs 0 start)) [
      | inl (r, f) ↦ cc (rw (f, build_subops) at e)
      | inr (s, f) ↦
          build_loop-ends D tiny first others limit regions kind request pairs 0 start
            (chunk_limit-positive D tiny chunk (first ∷ others) pos)
            (f ∙ ap err (err-eq s _ (rw (f, build_subops) at e)))
    ]
