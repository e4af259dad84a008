-- ===== src/Base/Bits.antt =====
-- Laws of `|` at variables, and tests of a whole range by evaluation.
use Prim.Native.Nat.{
  ℕ, zero, suc, ◌+◌, ◌-◌, ◌*◌, ◌/◌, ◌%◌, ◌^◌, ◌≤◌, ◌<◌, max, digits, bit_or, bit_or-bitwise,
}
use mathlib.Core.Path.{◌≡◌, refl, sym, ap, ◌∙◌}
use mathlib.Core.Bool.{Bool, true, ◌&&◌}
use native.Mathlib.Omega.{arith}
use native.Mathlib.Nat.{pow-suc}

-- The digits of `|`, lowest first, down to a depth.
abbrev ored : ℕ → ℕ → ℕ → ℕ
ored depth v w = digits (λ y. y) max depth v w

-- One more level below the last digit of `v` changes nothing.
ored_deeper : (depth v w : ℕ) → v ≤ depth → ored (suc depth) v w ≡ ored depth v w
ored_deeper zero zero w h = refl
ored_deeper zero (suc v) w h = absurd (omega (arith, h))
ored_deeper (suc depth) zero w h = refl
ored_deeper (suc depth) (suc v) w h =
    let half : suc v / 2 ≤ depth = omega arith in
    omega (arith, ored_deeper depth (suc v / 2) (w / 2) half)

ored_any : (extra depth v w : ℕ) → v ≤ depth → ored (extra + depth) v w ≡ ored depth v w
ored_any zero depth v w h = ap (λ (t : ℕ). ored t v w) (omega arith)
ored_any (suc extra) depth v w h =
    let next : suc extra + depth ≡ suc (extra + depth) = omega arith in
    ap (λ (t : ℕ). ored t v w) next
    ∙ ored_deeper (extra + depth) v w (omega (arith, h))
    ∙ ored_any extra depth v w h

ored_enough : (depth v w : ℕ) → v ≤ depth → ored depth v w ≡ bit_or v w
ored_enough depth v w h =
    let split : depth ≡ depth - v + v = omega (arith, h) in
    ap (λ (t : ℕ). ored t v w) split
    ∙ ored_any (depth - v) v v w (omega arith)
    ∙ sym (bit_or-bitwise v w)

zero_or : (w : ℕ) → bit_or 0 w ≡ w
zero_or w = bit_or-bitwise 0 w

-- The lowest digit of `|`.
bit_or_step : (v w : ℕ) → bit_or v w ≡ bit_or (v / 2) (w / 2) * 2 + max (v % 2) (w % 2)
bit_or_step zero w =
    let whole = zero_or w in let halves = zero_or (w / 2) in omega (arith, whole, halves)
bit_or_step (suc v) w =
    let whole = bit_or-bitwise (suc v) w in
    let rest = ored_enough v (suc v / 2) (w / 2) (omega arith) in omega (arith, whole, rest)

-- `v | (x << k)` is a sum where `v` stands below bit `k`.
pub bit_or_shifted : (k v x : ℕ) → v < 2 ^ k → bit_or v (x * 2 ^ k) ≡ v + x * 2 ^ k
bit_or_shifted zero zero x h = omega (arith, zero_or (x * 2 ^ 0))
bit_or_shifted zero (suc v) x h = absurd (omega arith)
bit_or_shifted (suc k) v x h =
    let twice : x * 2 ^ suc k ≡ x * 2 ^ k * 2 =
      omega (arith, ap (λ (t : ℕ). x * t) (pow-suc 2 k)) in
    omega (
      arith,
      twice,
      bit_or_step v (x * 2 ^ suc k),
      pow-suc 2 k,
      ap (λ (t : ℕ). bit_or (v / 2) (t / 2)) twice,
      ap (λ (t : ℕ). bit_or (v / 2) t) (div_two (x * 2 ^ k)),
      bit_or_shifted k (v / 2) x (omega (arith, pow-suc 2 k)),
    )
  where
    div_two : (n : ℕ) → n * 2 / 2 ≡ n
    div_two n = omega arith

-- A test that every number under a bound passes, and one of them.
unfoldable pub passes_under : (ℕ → Bool) → ℕ → Bool
passes_under test zero = true
passes_under test (suc bound) = passes_under test bound && test bound

pub passes_under-at :
    (test : ℕ → Bool) (bound v : ℕ) → v < bound → passes_under test bound ≡ true → test v ≡ true
unfolding passes_under
passes_under-at test zero v h pass = absurd (omega (arith, h))
passes_under-at test (suc bound) v h pass = grind (arith, passes_under-at test bound v)
