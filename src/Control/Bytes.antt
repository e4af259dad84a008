-- ===== src/Control/Bytes.antt =====
-- The little-endian readers and writers of src/control/control_message.cpp, of
-- src/control/identity.cpp and of src/core/region_impl.cpp. A buffer is the list of its bytes; a
-- pointer into it is the list from there on.
use hux.Base.{
  ℕ, zero, suc, ◌+◌, ◌*◌, ◌/◌, ◌%◌, ◌^◌, ◌≤◌, ◌<◌, bit_or, List, [], ◌∷◌, ◌++◌, take, drop, length,
  get_or, ◌≡◌, refl, sym, ap, ◌∙◌, arith, All,
}
use hux.Base.Bits.{bit_or_shifted}
use native.Mathlib.Nat.{
  div-add-mod, mod-eq_of_lt, mod-lt, add-mul-mod_self_right, mul-le-mul_right, one-le-pow,
}
use native.Mathlib.Numerals.{towards_suc}

-- `(v >> (8 * i)) & 0xff`
abbrev pub byte_at : ℕ → ℕ → ℕ
byte_at v i = v / 2 ^ (8 * i) % 256

-- The bytes of `v` from number `i` on, `n` of them: the loop of `put_u16`, `put_u32`, `put_u64`.
pub put_loop : ℕ → ℕ → ℕ → List ℕ
put_loop zero i v = []
put_loop (suc n) i v = byte_at v i ∷ put_loop n (i + 1) v

unfoldable pub put_u16 : ℕ → List ℕ
unfolding put_loop
put_u16 v = put_loop 2 0 v

unfoldable pub put_u32 : ℕ → List ℕ
unfolding put_loop
put_u32 v = put_loop 4 0 v

unfoldable pub put_u64 : ℕ → List ℕ
unfolding put_loop
put_u64 v = put_loop 8 0 v

-- `for (...) v |= T(p[i]) << (8 * i)`. The callers have checked that the bytes are there.
pub get_loop : ℕ → ℕ → List ℕ → ℕ → ℕ
get_loop zero i p v = v
get_loop (suc n) i p v = get_loop n (i + 1) p (bit_or v (get_or p i 0 * 2 ^ (8 * i)))

pub get_u16 : List ℕ → ℕ
get_u16 p = get_loop 2 0 p 0

pub get_u32 : List ℕ → ℕ
get_u32 p = get_loop 4 0 p 0

pub get_u64 : List ℕ → ℕ
get_u64 p = get_loop 8 0 p 0

-- `std::copy(bytes, out + at)` into a buffer that is long enough.
abbrev pub write_at : ℕ → List ℕ → List ℕ → List ℕ
write_at at bytes out = take at out ++ (bytes ++ drop (at + length bytes) out)

abbrev pub IsByte : ℕ → Type 0
IsByte b = b < 256

pub put_loop-IsByte : (n i v : ℕ) → All IsByte (put_loop n i v)
unfolding put_loop
put_loop-IsByte zero i v = tt
put_loop-IsByte (suc n) i v = (omega arith, put_loop-IsByte n (i + 1) v)

pub length-put_loop : (n i v : ℕ) → length (put_loop n i v) ≡ n
unfolding put_loop
length-put_loop zero i v = refl
length-put_loop (suc n) i v = ap suc (length-put_loop n (i + 1) v)

pow_eight : (i : ℕ) → 2 ^ (8 * (i + 1)) ≡ 256 * 2 ^ (8 * i)
pow_eight i = ap (λ (t : ℕ). 2 ^ t) (shift i) ∙ simp towards_suc (omega arith)
  where
    shift : (i : ℕ) → 8 * (i + 1) ≡ 8 * i + 8
    shift i = omega arith

-- One more byte above the low ones.
mod_byte : (v m : ℕ) → 0 < m → v % m + v / m % 256 * m ≡ v % (256 * m)
mod_byte v m h =
    sym (ap (λ (t : ℕ). t % (256 * m)) whole ∙ add-mul-mod_self_right low high (256 * m) ∙ fits)
  where
    low : ℕ
    low = v % m + v / m % 256 * m

    high : ℕ
    high = v / m / 256

    whole : v ≡ low + high * (256 * m)
    whole = omega (arith, div-add-mod v m, ap (λ (t : ℕ). m * t) (sym (div-add-mod (v / m) 256)))

    digit : v / m % 256 * m ≤ 255 * m
    digit = mul-le-mul_right m (omega arith)

    fits : low % (256 * m) ≡ low
    fits = mod-eq_of_lt (omega (arith, digit, mod-lt v h))

get_or-put_loop :
    (n i v j : ℕ) (rest : List ℕ) → j < n → get_or (put_loop n i v ++ rest) j 0 ≡ byte_at v (i + j)
unfolding put_loop
get_or-put_loop zero i v j rest h = absurd (omega arith)
get_or-put_loop (suc n) i v zero rest h = ap (byte_at v) (omega arith)
get_or-put_loop (suc n) i v (suc j) rest h =
    get_or-put_loop n (i + 1) v j rest (omega arith) ∙ ap (byte_at v) (omega arith)

-- Reading back what the loop wrote: after byte `i` the low `8 * i` bits of `v` are known.
get_loop-put_loop :
    (n i v : ℕ) (p : List ℕ)
    → ((j : ℕ) → j < n → get_or p (i + j) 0 ≡ byte_at v (i + j))
    → get_loop n i p (v % 2 ^ (8 * i)) ≡ v % 2 ^ (8 * (i + n))
unfolding get_loop
get_loop-put_loop zero i v p h = ap (λ (t : ℕ). v % 2 ^ (8 * t)) (omega arith)
get_loop-put_loop (suc n) i v p h =
    ap (get_loop n (i + 1) p) step
    ∙ get_loop-put_loop n (i + 1) v p later
    ∙ ap (λ (t : ℕ). v % 2 ^ (8 * t)) (omega arith)
  where
    pos : 0 < 2 ^ (8 * i)
    pos = one-le-pow (8 * i) 2 (omega arith)

    here : get_or p i 0 ≡ byte_at v i
    here =
        ap (λ (t : ℕ). get_or p t 0) (omega arith)
        ∙ h 0 (omega arith)
        ∙ ap (byte_at v) (omega arith)

    step : bit_or (v % 2 ^ (8 * i)) (get_or p i 0 * 2 ^ (8 * i)) ≡ v % 2 ^ (8 * (i + 1))
    step =
        bit_or_shifted (8 * i) _ _ (mod-lt v pos)
        ∙ ap (λ (t : ℕ). v % 2 ^ (8 * i) + t * 2 ^ (8 * i)) here
        ∙ mod_byte v (2 ^ (8 * i)) pos
        ∙ ap (λ (t : ℕ). v % t) (sym (pow_eight i))

    later : (j : ℕ) → j < n → get_or p (i + 1 + j) 0 ≡ byte_at v (i + 1 + j)
    later j lt =
        ap (λ (t : ℕ). get_or p t 0) (omega arith)
        ∙ h (j + 1) (omega arith)
        ∙ ap (byte_at v) (omega arith)

read_back : (n v : ℕ) (rest : List ℕ) → get_loop n 0 (put_loop n 0 v ++ rest) 0 ≡ v % 2 ^ (8 * n)
read_back n v rest =
    ap (get_loop n 0 (put_loop n 0 v ++ rest)) (omega arith)
    ∙ get_loop-put_loop n 0 v _ bytes
    ∙ ap (λ (t : ℕ). v % 2 ^ (8 * t)) (omega arith)
  where
    bytes : (j : ℕ) → j < n → get_or (put_loop n 0 v ++ rest) (0 + j) 0 ≡ byte_at v (0 + j)
    bytes j lt =
        ap (λ (t : ℕ). get_or (put_loop n 0 v ++ rest) t 0) (omega arith)
        ∙ get_or-put_loop n 0 v j rest lt

pub get_u16-put_u16 : (v : ℕ) (rest : List ℕ) → v < 2 ^ 16 → get_u16 (put_u16 v ++ rest) ≡ v
unfolding get_u16 put_u16
get_u16-put_u16 v rest h = read_back 2 v rest ∙ mod-eq_of_lt h

pub get_u32-put_u32 : (v : ℕ) (rest : List ℕ) → v < 2 ^ 32 → get_u32 (put_u32 v ++ rest) ≡ v
unfolding get_u32 put_u32
get_u32-put_u32 v rest h = read_back 4 v rest ∙ mod-eq_of_lt h

pub get_u64-put_u64 : (v : ℕ) (rest : List ℕ) → v < 2 ^ 64 → get_u64 (put_u64 v ++ rest) ≡ v
unfolding get_u64 put_u64
get_u64-put_u64 v rest h = read_back 8 v rest ∙ mod-eq_of_lt h
