-- ===== src/Cc/Timely.antt =====
-- `TimelyController` of src/transport/cc/controller.cpp. antt has no floating point: a double, its
-- arithmetic, its comparisons and its conversions are a parameter.
use hux.Base.{
  ℕ, ◌+◌, ◌==◌, ltb, leb, if◌then◌else◌, max, Bool, false, ◌&&◌, Option, none, some, ◌≡◌, sym, ◌∙◌,
  none-ne-some, arith, inl, inr, ◌⊎◌, ◌<◌, zero, suc, Option-cases, true, Bool-cases,
}
use hux.Cc.{CcVerdict, allowed, over_budget, paced, release, add64}

-- IEEE doubles, of which only this is used: nothing is less than itself, and of two numbers - which
-- are at most themselves, as NaN is not - that are not in the order `<`, the second is at most the
-- first.
pub record Doubles : Type 1 where
  pub Real : Type 0
  pub of_ℕ : ℕ → Real
  -- The double of a signed difference of two counts.
  pub of_diff : ℕ → ℕ → Real
  pub add : Real → Real → Real
  pub sub : Real → Real → Real
  pub mul : Real → Real → Real
  pub div : Real → Real → Real
  pub lt : Real → Real → Bool
  pub le : Real → Real → Bool
  -- `static_cast<uint64_t>`
  pub trunc : Real → ℕ
  -- `duration_cast<nanoseconds>` of so many seconds.
  pub nanoseconds : Real → ℕ
  pub lt_irrefl : (x : Real) → lt x x ≡ false
  pub le_of_not_lt : (x y : Real) → le x x ≡ true → le y y ≡ true → lt x y ≡ false → le y x ≡ true

module _ (D : Doubles) where
  open D use {
    Real, of_ℕ, of_diff, add, sub, mul, div, lt, le, trunc, nanoseconds, lt_irrefl, le_of_not_lt,
  }

  pub record TimelyParams : Type 0 where
    pub t_low : ℕ
    pub t_high : ℕ
    pub beta : Real
    pub additive_increase : Real
    pub ewma_alpha : Real
    pub min_rate : Real
    pub max_rate : Real

  -- `Dir`; a `min_delay` of `nanoseconds::max()` is `none`, and the flagged fields are options.
  pub record Dir : Type 0 where
    pub inflight : ℕ
    pub rate : Real
    pub min_delay : Option ℕ
    pub prev_delay : Option ℕ
    pub avg_delay_diff_us : Real
    pub next_send : ℕ
    pub last_update : Option ℕ

  abbrev million : Real
  million = of_ℕ 1_000_000

  -- The smallest delay seen, or a millisecond.
  abbrev base_ns : Dir → Real
  base_ns d = elim d.min_delay [ none ↦ million | some ns ↦ of_ℕ ns ]

  pub window_locked : Dir → ℕ
  window_locked d =
      let w = trunc (div (mul d.rate (base_ns d)) (of_ℕ 1_000_000_000)) in
      if ltb w 65_536 then 65_536 else w

  pub allow : Dir → ℕ → ℕ → CcVerdict
  allow d bytes now =
      let window = window_locked d in
      if ltb now d.next_send
      then paced
      else if leb (add64 d.inflight bytes) window
      then allowed
      else if ltb window bytes && d.inflight == 0
      then allowed
      else over_budget

  pub on_post : Dir → ℕ → ℕ → Dir
  on_post d bytes now =
      let gap = nanoseconds (div (of_ℕ bytes) d.rate) in
      record d { inflight = add64 d.inflight bytes; next_send = max now d.next_send + gap }

  pub rounds_since_locked : Dir → ℕ → Real
  rounds_since_locked d now = elim d.last_update [
    | none ↦ of_ℕ 1
    | some last ↦
        let dt = of_diff now last in
        let rounds = div dt (base_ns d) in
        if le (base_ns d) (of_ℕ 0)
        then of_ℕ 1
        else if le dt (of_ℕ 0)
        then of_ℕ 0
        else if lt (of_ℕ 64) rounds
        then of_ℕ 64
        else rounds
  ]

  -- A rate into the configured range.
  abbrev clamp : TimelyParams → Real → Real
  clamp p rate =
      let floored = (if lt rate p.min_rate then p.min_rate else rate) in
      if lt p.max_rate floored then p.max_rate else floored

  -- The new rate, before it is clamped, from a sample and the smoothed gradient.
  pub next_rate : TimelyParams → Dir → Real → Real → Real
  next_rate p d rounds sample_us =
      let t_low_us = of_ℕ p.t_low in
      let t_high_us = of_ℕ p.t_high in
      let min_us = div (base_ns d) (of_ℕ 1000) in
      let norm_grad = div d.avg_delay_diff_us (if lt (of_ℕ 0) min_us then min_us else of_ℕ 1) in
      let grown = add d.rate (mul p.additive_increase rounds) in
      if lt sample_us t_low_us
      then grown
      else if lt t_high_us sample_us
      then mul d.rate (sub (of_ℕ 1) (mul p.beta (sub (of_ℕ 1) (div t_high_us sample_us))))
      else if le norm_grad (of_ℕ 0)
      then grown
      else mul d.rate (sub (of_ℕ 1) (mul p.beta norm_grad))

  abbrev smaller : Option ℕ → ℕ → Option ℕ
  smaller none rtt = some rtt
  smaller (some m) rtt = if ltb rtt m then some rtt else some m

  -- A sample of no positive length is passed over, and the first only sets the delay.
  pub update_rate_locked : TimelyParams → Dir → ℕ → ℕ → Dir
  update_rate_locked p d rtt now =
      let lowest = record d { min_delay = smaller d.min_delay rtt } in
      let rounds = rounds_since_locked lowest now in
      let seen = record lowest { last_update = some now; prev_delay = some rtt } in
      if rtt == 0 then d else elim d.prev_delay [
        | none ↦ seen
        | some prev ↦
            let diff_us = div (of_diff rtt prev) (of_ℕ 1000) in
            let smoothed =
              add (mul (sub (of_ℕ 1) p.ewma_alpha) d.avg_delay_diff_us)
                (mul p.ewma_alpha diff_us) in
            let e = record seen { avg_delay_diff_us = smoothed } in
            record e { rate = clamp p (next_rate p e rounds (div (of_ℕ rtt) (of_ℕ 1000))) }
      ]

  pub on_feedback : TimelyParams → Dir → ℕ → ℕ → ℕ → Dir
  on_feedback p d bytes rtt now =
      update_rate_locked p (record d { inflight = release d.inflight bytes }) rtt now

  pub on_error : Dir → ℕ → Dir
  on_error d bytes = record d { inflight = release d.inflight bytes }

  -- The rate is NaN, or a number from the least to the greatest.
  abbrev pub InRange : TimelyParams → Dir → Type 0
  InRange p d =
      (le d.rate d.rate ≡ false) ⊎ ((le p.min_rate d.rate ≡ true) × (le d.rate p.max_rate ≡ true))

  clamp_range :
      (p : TimelyParams) (rate : Real)
      → le p.min_rate p.min_rate ≡ true
      → le p.max_rate p.max_rate ≡ true
      → lt p.max_rate p.min_rate ≡ false
      → (le (clamp p rate) (clamp p rate) ≡ false)
        ⊎ ((le p.min_rate (clamp p rate) ≡ true) × (le (clamp p rate) p.max_rate ≡ true))
  clamp_range p rate least greatest ordered =
      let order = le_of_not_lt p.max_rate p.min_rate greatest least ordered in
      elim (Bool-cases (lt rate p.min_rate)) [
        | inl low ↦ rw low (rw ordered (inr (least, order)))
        | inr high ↦ elim (Bool-cases (lt p.max_rate rate)) [
          | inl above ↦ rw high (rw above (inr (order, greatest)))
          | inr within ↦ elim (Bool-cases (le rate rate)) [
            | inr nan ↦ rw high (rw within (inl nan))
            | inl number ↦ rw high (
                rw within (
                  inr (
                    le_of_not_lt rate p.min_rate number least high,
                    le_of_not_lt p.max_rate rate greatest number within,
                  )))
          ]
        ]
      ]

  -- Feedback leaves the adaptive controller's rate in the configured range, or not a number,
  -- whatever delay was measured and whatever the doubles' arithmetic gives, if it was so before, or
  -- if the sample is of positive length and not the first. The bounds of the range are numbers and
  -- it is not empty.
  pub on_feedback-InRange :
      (p : TimelyParams) (d : Dir) (bytes rtt now : ℕ)
      → le p.min_rate p.min_rate ≡ true
      → le p.max_rate p.max_rate ≡ true
      → lt p.max_rate p.min_rate ≡ false
      → InRange p d ⊎ ((0 < rtt) × ((prev : ℕ) × (d.prev_delay ≡ some prev)))
      → InRange p (on_feedback p d bytes rtt now)
  unfolding on_feedback update_rate_locked
  on_feedback-InRange p d bytes zero now least greatest ordered (inl v) = v
  on_feedback-InRange p d bytes zero now least greatest ordered (inr w) =
      absurd (omega (arith, w.0))
  on_feedback-InRange p d bytes (suc rtt) now least greatest ordered w =
      let positive : (suc rtt == 0) ≡ false = ground arith in
      elim (Option-cases d.prev_delay) [
        | inl first ↦ elim w [
          | inl v ↦ rw (positive, first, update_rate_locked) v
          | inr (_, (prev, later)) ↦ absurd (none-ne-some _ (sym first ∙ later))
        ]
        | inr (prev, later) ↦
            rw (positive, later, update_rate_locked) (clamp_range p _ least greatest ordered)
      ]

  -- With nothing outstanding, the adaptive controller allows an operation of any size once its time
  -- has come, and paces it before.
  allow_idle :
      (d : Dir) (bytes now : ℕ)
      → d.inflight ≡ 0
      → allow d bytes now ≡ (if ltb now d.next_send then paced else allowed)
  unfolding allow
  allow_idle d bytes now idle = ground arith
