-- ===== src/Cc/Budget.antt =====
-- Histories of the fixed window of src/transport/cc/controller.cpp: posts as `allow` permits them,
-- and completions of what is outstanding, in any order.
use hux.Base.{
  ℕ, zero, suc, ◌+◌, ◌^◌, ◌≤◌, ◌<◌, max, if◌then◌else◌, Bool, true, false, List, [], ◌∷◌, Option,
  none, some, All, ◌≡◌, ap, arith, Option-cases, inl, inr,
}
use hux.Cc.{CcDirection, write, read, CcVerdict, allowed, Both, at, put}
use hux.Cc.FixedWindow.{
  FixedWindowController, make_cc_fixed_window, allow, on_post, on_feedback, on_error,
}

pub sum : List ℕ → ℕ
sum [] = 0
sum (x ∷ xs) = x + sum xs

-- Takes out entry `i`.
pub pick : List ℕ → ℕ → Option (ℕ × List ℕ)
pick [] i = none
pick (x ∷ xs) zero = some (x, xs)
pick (x ∷ xs) (suc i) = elim (pick xs i) [ none ↦ none | some (y, ys) ↦ some (y, x ∷ ys) ]

pub data Event : Type 0 where
  -- An operation of so many bytes, posted if it is allowed.
  offers : CcDirection → ℕ → Event
  -- The completion or the failure of an outstanding one.
  completes : CcDirection → ℕ → ℕ → Event
  fails : CcDirection → ℕ → Event

pub record Run : Type 0 where
  pub cc : FixedWindowController
  pub out : Both (List ℕ)

abbrev is_allowed : CcVerdict → Bool
is_allowed allowed = true
is_allowed _ = false

pub step : Run → Event → Run
step r (offers dir bytes) =
    if is_allowed (allow r.cc dir bytes)
    then record { cc = on_post r.cc dir bytes; out = put r.out dir (bytes ∷ at r.out dir) }
    else r
step r (completes dir i rtt) = elim (pick (at r.out dir) i) [
  | none ↦ r
  | some (bytes, rest) ↦ record { cc = on_feedback r.cc dir bytes rtt; out = put r.out dir rest }
]
step r (fails dir i) = elim (pick (at r.out dir) i) [
  | none ↦ r
  | some (bytes, rest) ↦ record { cc = on_error r.cc dir bytes; out = put r.out dir rest }
]

pub run : Run → List Event → Run
run r [] = r
run r (e ∷ es) = run (step r e) es

pub start : ℕ → Run
start window = record {
  cc = make_cc_fixed_window window;
  out = record { write_side = []; read_side = [] };
}

sum_picked :
    (x : ℕ) (xs : List ℕ) (z : ℕ) (zs : List ℕ) (y : ℕ) (ys : List ℕ)
    → sum xs ≡ z + sum zs
    → ◌≡◌ {A = Option (ℕ × List ℕ)} (some (z, x ∷ zs)) (some (y, ys))
    → x + sum xs ≡ y + sum ys
unfolding sum
sum_picked x xs z zs y ys first same =
    let value : z ≡ y = cc in
    let rest : x ∷ zs ≡ ys = cc in
    let total : x + sum zs ≡ sum ys = ap sum rest in grind (arith, value)

sum-pick : (xs : List ℕ) (i y : ℕ) (ys : List ℕ) → pick xs i ≡ some (y, ys) → sum xs ≡ y + sum ys
unfolding sum pick
sum-pick [] i y ys e = cc
sum-pick (x ∷ xs) zero y ys e = ground arith
sum-pick (x ∷ xs) (suc i) y ys e = elim (Option-cases (pick xs i)) [
  | inl n ↦ cc (rw (n, pick) at e)
  | inr ((z, zs), f) ↦
      let first : sum xs ≡ z + sum zs = sum-pick xs i z zs f in
      let same : ◌≡◌ {A = Option (ℕ × List ℕ)} (some (z, x ∷ zs)) (some (y, ys)) =
        rw (f, pick) at e in
      sum_picked x xs z zs y ys first same
]

-- In each direction the bytes in flight are those of the outstanding operations, and they are within
-- the window or the largest operation `m`.
pub record IsBudgeted (window m : ℕ) (r : Run) : Type 0 where
  pub window_is : r.cc.window ≡ window
  pub exact_write : r.cc.inflight.write_side ≡ sum r.out.write_side
  pub exact_read : r.cc.inflight.read_side ≡ sum r.out.read_side
  pub write_bounded : r.cc.inflight.write_side ≤ max window m
  pub read_bounded : r.cc.inflight.read_side ≤ max window m

abbrev Fits : ℕ → Event → Type 0
Fits m (offers dir bytes) = bytes ≤ m
Fits m _ = Unit

step-IsBudgeted :
    (window m : ℕ) (r : Run) (e : Event)
    → max window m + m < 2 ^ 64
    → Fits m e
    → IsBudgeted window m r
    → IsBudgeted window m (step r e)
unfolding step allow on_post on_feedback on_error sum
step-IsBudgeted window m r (offers write bytes) small h v = ground arith
step-IsBudgeted window m r (offers read bytes) small h v = ground arith
step-IsBudgeted window m r (completes write i rtt) small h v =
    elim (Option-cases (pick r.out.write_side i)) [
      | inl n ↦ rw (n, step) v
      | inr ((y, ys), f) ↦ rw (f, step) (ground (arith, sum-pick _ i y ys f))
    ]
step-IsBudgeted window m r (completes read i rtt) small h v =
    elim (Option-cases (pick r.out.read_side i)) [
      | inl n ↦ rw (n, step) v
      | inr ((y, ys), f) ↦ rw (f, step) (ground (arith, sum-pick _ i y ys f))
    ]
step-IsBudgeted window m r (fails write i) small h v =
    elim (Option-cases (pick r.out.write_side i)) [
      | inl n ↦ rw (n, step) v
      | inr ((y, ys), f) ↦ rw (f, step) (ground (arith, sum-pick _ i y ys f))
    ]
step-IsBudgeted window m r (fails read i) small h v = elim (Option-cases (pick r.out.read_side i)) [
  | inl n ↦ rw (n, step) v
  | inr ((y, ys), f) ↦ rw (f, step) (ground (arith, sum-pick _ i y ys f))
]

run-IsBudgeted :
    (window m : ℕ) (r : Run) (es : List Event)
    → max window m + m < 2 ^ 64
    → All (Fits m) es
    → IsBudgeted window m r
    → IsBudgeted window m (run r es)
unfolding run
run-IsBudgeted window m r [] small hs v = v
run-IsBudgeted window m r (e ∷ es) small (h, hs) v =
    run-IsBudgeted window m (step r e) es small hs (step-IsBudgeted window m r e small h v)

start-IsBudgeted : (window m : ℕ) → IsBudgeted window m (start window)
unfolding start make_cc_fixed_window sum
start-IsBudgeted window m = ground arith

-- From a fresh fixed-window controller, after any posts that it allows, of operations of at most
-- `m` bytes, and any completions and failures of outstanding ones: the bytes in flight of each
-- direction are exactly those of the operations still outstanding, and within the window, or `m`
-- where that is larger. The larger of the two and `m` together are below 2^64.
pub run-budget :
    (window m : ℕ) (es : List Event)
    → max window m + m < 2 ^ 64
    → All (Fits m) es
    → IsBudgeted window m (run (start window) es)
run-budget window m es small hs =
    run-IsBudgeted window m (start window) es small hs (start-IsBudgeted window m)
