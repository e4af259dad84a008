-- ===== src/Engine/Carries.antt =====
-- `EngineImpl::build_subops` of src/core/engine_impl.cpp: where every byte of a transfer goes.
use hux.Base.{
  ℕ, zero, suc, ◌+◌, ◌-◌, ◌%◌, ◌^◌, ◌≤◌, ◌<◌, ◌==◌, ltb, leb, ltb→lt, if◌then◌else◌, Bool, true,
  false, ◌&&◌, List, [], ◌∷◌, ◌++◌, length, Option, none, ◌≡◌, refl, ap, ◌∙◌, subst, arith,
  Option-cases, Bool-cases, inl, inr,
}
use hux.Types.{Status, done, err, Result-cases}
use hux.Cc.Timely.{Doubles}
use hux.Region.Registration.{local_key_for, remote_key_for}
use hux.Engine.Chunks.{
  SubOp, Segment, Lane, cheapest, push_at, Placing, give, lane_of, name_of, place_chunk, chunk_size,
  split,
}

-- Whether a range of `n` bytes from `l` here and `r` there takes byte `a` to byte `b`, as a count.
abbrev pub moves : ℕ → ℕ → ℕ → ℕ → ℕ → ℕ
moves a b l r n = if leb l a && (ltb a (l + n) && (b + l == r + a)) then 1 else 0

abbrev pub carries : ℕ → ℕ → SubOp → ℕ
carries a b op = moves a b op.local_addr op.remote_addr op.length

abbrev pub weigh : (SubOp → ℕ) → List SubOp → ℕ
weigh f [] = 0
weigh f (op ∷ ops) = f op + weigh f ops

abbrev pub weigh_all : (SubOp → ℕ) → List (List SubOp) → ℕ
weigh_all f [] = 0
weigh_all f (ops ∷ out) = weigh f ops + weigh_all f out

weigh-append :
    (f : SubOp → ℕ) (xs : List SubOp) (op : SubOp) → weigh f (xs ++ (op ∷ [])) ≡ weigh f xs + f op
weigh-append f [] op = omega arith
weigh-append f (x ∷ xs) op = omega (arith, weigh-append f xs op)

push_at-weigh :
    (f : SubOp → ℕ) (i : ℕ) (op : SubOp) (out : List (List SubOp))
    → i < length out
    → weigh_all f (push_at i op out) ≡ weigh_all f out + f op
unfolding push_at
push_at-weigh f i op [] h = absurd (omega arith)
push_at-weigh f zero op (x ∷ xs) h = omega (arith, weigh-append f x op)
push_at-weigh f (suc i) op (x ∷ xs) h = omega (arith, push_at-weigh f i op xs (omega arith))

length-push_at :
    (i : ℕ) (op : SubOp) (out : List (List SubOp)) → length (push_at i op out) ≡ length out
unfolding push_at
length-push_at i op [] = refl
length-push_at zero op (x ∷ xs) = refl
length-push_at (suc i) op (x ∷ xs) = ap suc (length-push_at i op xs)

moves-split :
    (a b l r n m : ℕ)
    → n ≤ m
    → moves a b l r m ≡ moves a b l r n + moves a b (l + n) (r + n) (m - n)
moves-split a b l r n m h = ground arith

pub moves-eq :
    (a b l r n l' r' n' : ℕ) → l ≡ l' → r ≡ r' → n ≡ n' → moves a b l r n ≡ moves a b l' r' n'
moves-eq a b l r n l' r' n' p q s = ground arith

op-moves :
    (a b : ℕ) (op : SubOp) (l r n : ℕ)
    → op.local_addr ≡ l
    → op.remote_addr ≡ r
    → op.length ≡ n
    → carries a b op ≡ moves a b l r n
op-moves a b op l r n p q s = ground arith

pub done-eq {ℓ} : {A : Type ℓ} (x y : A) → done x ≡ done y → x ≡ y
done-eq x y e = cc

if-below : (t : Bool) (x y m : ℕ) → x < m → y < m → (if t then x else y) < m
if-below true x y m h k = h
if-below false x y m h k = k

module _ (D : Doubles) (tiny : D.Real) where
  cheapest-below :
      (ls : List (Lane D tiny)) (assigned : List D.Real) (n k : ℕ) (best : Option D.Real)
      (lane m : ℕ)
      → lane < m
      → k + length ls ≤ m
      → cheapest D tiny ls assigned n k best lane < m
  unfolding cheapest
  cheapest-below [] assigned n k best lane m h fits = h
  cheapest-below (l ∷ ls) assigned n k best lane m h fits =
      if-below _ _ _ m (cheapest-below ls assigned n (suc k) _ k m (omega arith) (omega arith))
        (cheapest-below ls assigned n (suc k) best lane m h (omega arith))

  -- What one turn of the chunk loop leaves behind.
  record Placed (seg : Segment) (off n : ℕ) (st next : Placing D tiny) : Type 0 where
    pub op : SubOp
    pub from : op.local_addr ≡ seg.local_start + off
    pub to : op.remote_addr ≡ (seg.remote_start + off) % 2 ^ 64
    pub size : op.length ≡ n
    pub same_lanes : length next.out ≡ length st.out
    pub added : (f : SubOp → ℕ) → weigh_all f next.out ≡ weigh_all f st.out + f op

  module _ (first : Lane D tiny) (others : List (Lane D tiny)) where
    give-Placed :
        (seg : Segment) (off n : ℕ) (st : Placing D tiny) (lkey rkey : ℕ)
        → length st.out ≡ suc (length others)
        → Placed seg off n st
            (give D tiny first others seg off n st (lane_of D tiny first others st n) lkey rkey)
    give-Placed seg off n st lkey rkey lanes = record {
      op = _;
      from = refl;
      to = refl;
      size = refl;
      same_lanes = length-push_at _ _ st.out;
      added = λ (f : SubOp → ℕ). push_at-weigh f _ _ st.out (
          cheapest-below (first ∷ others) st.assigned n 0 none 0 (length st.out)
            (omega (arith, lanes)) (omega (arith, lanes)));
    }

    place_chunk-Placed :
        (seg : Segment) (off n : ℕ) (st next : Placing D tiny)
        → length st.out ≡ suc (length others)
        → place_chunk D tiny first others seg off n st ≡ done next
        → Placed seg off n st next
    unfolding place_chunk
    place_chunk-Placed seg off n st next lanes e =
        let name = name_of D tiny first others (lane_of D tiny first others st n) in
        elim (Option-cases (local_key_for seg.local_region.registration name)) [
          | inl l ↦ cc (rw (l, place_chunk) at e)
          | inr (lkey, l) ↦ elim (Option-cases (remote_key_for seg.remote_region.descriptor name)) [
            | inl r ↦ cc (rw (l, r, place_chunk) at e)
            | inr (rkey, r) ↦
                subst (Placed seg off n st) (done-eq _ _ (rw (l, r, place_chunk) at e))
                  (give-Placed seg off n st lkey rkey lanes)
          ]
        ]

    place_chunk-unsupported :
        (seg : Segment) (off n : ℕ) (st : Placing D tiny) (s : Status)
        → place_chunk D tiny first others seg off n st ≡ err s
        → s ≡ Status.unsupported
    unfolding place_chunk
    place_chunk-unsupported seg off n st s e =
        let name = name_of D tiny first others (lane_of D tiny first others st n) in
        elim (Option-cases (local_key_for seg.local_region.registration name)) [
          | inl l ↦ cc (rw (l, place_chunk) at e)
          | inr (lkey, l) ↦ elim (Option-cases (remote_key_for seg.remote_region.descriptor name)) [
            | inl r ↦ cc (rw (l, r, place_chunk) at e)
            | inr (rkey, r) ↦ cc (rw (l, r, place_chunk) at e)
          ]
        ]

    -- A split accounts for what was left of the segment, byte for byte.
    pub record Split (seg : Segment) (off : ℕ) (st next : Placing D tiny) : Type 0 where
      pub same_lanes : length next.out ≡ length st.out
      pub moved :
          (a b : ℕ)
          → weigh_all (carries a b) next.out
            ≡ weigh_all (carries a b) st.out
              + moves a b (seg.local_start + off) (seg.remote_start + off) (seg.length - off)

    nothing-Split :
        (seg : Segment) (off : ℕ) (st : Placing D tiny) → seg.length ≤ off → Split seg off st st
    nothing-Split seg off st h = record { same_lanes = refl; moved = λ (a b : ℕ). ground arith }

    Split-step :
        (seg : Segment) (off n : ℕ) (st mid next : Placing D tiny)
        → n ≤ seg.length - off
        → off < seg.length
        → seg.remote_start + seg.length ≤ 2 ^ 64
        → Placed seg off n st mid
        → Split seg (off + n) mid next
        → Split seg off st next
    Split-step seg off n st mid next fits more room p s = record {
      same_lanes = s.same_lanes ∙ p.same_lanes;
      moved = λ (a b : ℕ).
          let here : carries a b p.op
              ≡ moves a b (seg.local_start + off) (seg.remote_start + off) n =
            op-moves a b p.op _ _ _ p.from (p.to ∙ omega arith) p.size in
          let cut =
            moves-split a b (seg.local_start + off) (seg.remote_start + off) n (seg.length - off)
              fits in
          let rest : moves a b (seg.local_start + (off + n)) (seg.remote_start + (off + n))
                (seg.length - (off + n))
              ≡ moves a b (seg.local_start + off + n) (seg.remote_start + off + n)
                  (seg.length - off - n) =
            moves-eq a b _ _ _ _ _ _ (omega arith) (omega arith) (omega arith) in
          omega (arith, s.moved a b, p.added (carries a b), here, cut, rest);
    }

    pub split-Split :
        (fuel chunk : ℕ) (seg : Segment) (off : ℕ) (st next : Placing D tiny)
        → seg.length - off ≤ fuel
        → 0 < chunk
        → seg.remote_start + seg.length ≤ 2 ^ 64
        → length st.out ≡ suc (length others)
        → split D tiny first others fuel chunk seg off st ≡ done next
        → Split seg off st next
    unfolding split
    split-Split zero chunk seg off st next fuel_left pos room lanes e =
        let stop : ltb off seg.length ≡ false = ground arith in
        subst (Split seg off st) (done-eq st next (rw (stop, split) at e))
          (nothing-Split seg off st (omega arith))
    split-Split (suc fuel) chunk seg off st next fuel_left pos room lanes e =
        elim (Bool-cases (ltb off seg.length)) [
          | inr stop ↦
              subst (Split seg off st) (done-eq st next (rw (stop, split) at e))
                (nothing-Split seg off st (ground arith))
          | inl more ↦
              let n = chunk_size D tiny first others chunk (seg.length - off) in
              elim (Result-cases (place_chunk D tiny first others seg off n st)) [
                | inr (s, f) ↦ cc (rw (more, f, split) at e)
                | inl (mid, f) ↦
                    let p = place_chunk-Placed seg off n st mid lanes f in
                    let size : (0 < n) × (n ≤ seg.length - off) = ground arith in
                    Split-step seg off n st mid next size.1 (ltb→lt _ _ more) room p (
                      split-Split fuel chunk seg (off + n) mid next (omega (arith, size.0)) pos room
                        (p.same_lanes ∙ lanes) (rw (more, f, split) at e))
              ]
        ]

    -- The fuel never runs out: the one refusal is a key that is not there.
    pub split-unsupported :
        (fuel chunk : ℕ) (seg : Segment) (off : ℕ) (st : Placing D tiny) (s : Status)
        → seg.length - off ≤ fuel
        → 0 < chunk
        → split D tiny first others fuel chunk seg off st ≡ err s
        → s ≡ Status.unsupported
    unfolding split
    split-unsupported zero chunk seg off st s fuel_left pos e =
        let stop : ltb off seg.length ≡ false = ground arith in cc (rw (stop, split) at e)
    split-unsupported (suc fuel) chunk seg off st s fuel_left pos e =
        elim (Bool-cases (ltb off seg.length)) [
          | inr stop ↦ cc (rw (stop, split) at e)
          | inl more ↦
              let n = chunk_size D tiny first others chunk (seg.length - off) in
              let size : 0 < n = ground arith in
              elim (Result-cases (place_chunk D tiny first others seg off n st)) [
                | inr (t, f) ↦
                    place_chunk-unsupported seg off n st s (f ∙ (rw (more, f, split) at e))
                | inl (mid, f) ↦
                    split-unsupported fuel chunk seg (off + n) mid s (omega (arith, size)) pos
                      (rw (more, f, split) at e)
              ]
        ]
