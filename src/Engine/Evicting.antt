-- ===== src/Engine/Evicting.antt =====
-- The cache of registrations in src/core/engine_impl.cpp, and its bound.
use hux.Base.{
  ℕ, suc, ◌+◌, ◌≤◌, ◌==◌, ltb, leb, leb→le, if◌then◌else◌, Bool, true, false, List, [], ◌∷◌, ◌++◌,
  length, Option, none, some, ◌≡◌, ==_iff, refl, zero, subst, ◌⊎◌, sym, ap, ◌∙◌, arith, Bool-cases,
  Option-cases, inl, inr, All,
}
use hux.Request.Counting.{told}
use hux.Engine.Registering.{Owned, Memory, uses, times, take_idle, evict, cache_registration}

pub times-append : (n : ℕ) (xs ys : List Owned) → times n (xs ++ ys) ≡ times n xs + times n ys
times-append n [] ys = omega arith
times-append n (o ∷ xs) ys = ground (arith, times-append n xs ys)

-- What taking an idle entry out of the cache does.
abbrev Took : (ℕ → Bool) → List Owned → Option (Owned × List Owned) → Type 0
Took held c none = All (λ (o : Owned). held o.number ≡ true) c
Took held c (some (x, rest)) =
    ((n : ℕ) → times n c ≡ times n (x ∷ []) + times n rest)
    × (held x.number ≡ false)
    × (length c ≡ suc (length rest))

take_idle-Took : (held : ℕ → Bool) (c : List Owned) → Took held c (take_idle held c)
unfolding take_idle
take_idle-Took held [] = tt
take_idle-Took held (o ∷ os) = elim (Bool-cases (held o.number)) [
  | inr idle ↦ rw (idle, take_idle) ((λ n. ground arith), idle, refl)
  | inl busy ↦
      let ih = take_idle-Took held os in
      elim (Option-cases (take_idle held os)) [
        | inl none_idle ↦ rw (busy, none_idle, take_idle) (busy, subst (Took held os) none_idle ih)
        | inr ((x, rest), e) ↦
            let found : Took held os (some (x, rest)) = subst (Took held os) e ih in
            rw (busy, e, take_idle) ((λ n. ground (arith, found.0 n)), found.1, ap suc found.2)
      ]
]

-- What the loop of `cache_registration` does: entries are kept or let go, each once, none that is
-- held is let go, and the bound is met or everything kept is held.
pub record Evicted (held : ℕ → Bool) (bound : ℕ) (c kept out : List Owned) : Type 0 where
  pub each : (n : ℕ) → times n c ≡ times n kept + times n out
  pub idle : All (λ (o : Owned). held o.number ≡ false) out
  pub within : (length kept ≤ bound) ⊎ All (λ (o : Owned). held o.number ≡ true) kept

pub evict-Evicted :
    (fuel : ℕ) (held : ℕ → Bool) (bound : ℕ) (c : List Owned)
    → length c ≤ fuel
    → Evicted held bound c (evict fuel held bound c).0 (evict fuel held bound c).1
unfolding evict
evict-Evicted zero held bound c enough = record {
  each = λ n. omega arith;
  idle = tt;
  within = inl (omega (arith, enough));
}
evict-Evicted (suc fuel) held bound c enough = elim (Bool-cases (leb (length c) bound)) [
  | inl fits ↦
      rw (fits, evict)
        (record { each = λ n. omega arith; idle = tt; within = inl (leb→le _ _ fits) })
  | inr over ↦
      let took = take_idle-Took held c in
      elim (Option-cases (take_idle held c)) [
        | inl none_idle ↦
            rw (over, none_idle, evict)
              (record {
                each = λ n. omega arith;
                idle = tt;
                within = inr (subst (Took held c) none_idle took);
              })
        | inr ((o, rest), e) ↦
            let found : Took held c (some (o, rest)) = subst (Took held c) e took in
            let later = evict-Evicted fuel held bound rest (omega (arith, found.2)) in
            rw (over, e, evict)
              (record {
                each = λ n. ground (arith, found.0 n, later.each n);
                idle = (found.1, later.idle);
                within = later.within;
              })
      ]
]

pub held-times :
    (held : ℕ → Bool) (n : ℕ) (out : List Owned)
    → All (λ (o : Owned). held o.number ≡ false) out
    → held n ≡ true
    → times n out ≡ 0
held-times held n [] idle h = refl
held-times held n (o ∷ os) idle h = elim (Bool-cases (o.number == n)) [
  | inr other ↦ rw other (held-times held n os idle.1 h)
  | inl same ↦
      let e = (==_iff o.number n).0 same in
      absurd (
        subst (λ (b : Bool). told b ≡ 1 → ⊥) (sym (ap held (sym e) ∙ idle.0))
          (λ (k : told false ≡ 1). omega arith) (ap told h))
]

-- Whether a handle, or the call that registers `o`, holds a registration.
abbrev pub held_with : Memory → Owned → ℕ → Bool
held_with m o n = if n == o.number then true else ltb 0 (uses n m.handles)

-- After a registration is put into the cache, the cache is within its bound, or everything in it is
-- held by a handle or by the call itself; and nothing that is held was pushed out.
pub cache_registration-bounded :
    (bound : ℕ) (m : Memory) (o : Owned)
    → let m' = cache_registration bound m o in
      ((length m'.cache ≤ bound) ⊎ All (λ (x : Owned). held_with m o x.number ≡ true) m'.cache)
      × ((n : ℕ) → held_with m o n ≡ true → times n m'.cache ≡ times n (m.cache ++ (o ∷ [])))
unfolding cache_registration
cache_registration-bounded bound m o =
    let all = m.cache ++ (o ∷ []) in
    let c = evict-Evicted (length all) (held_with m o) bound all (omega arith) in
    (c.within, λ n h. omega (arith, c.each n, held-times (held_with m o) n _ c.idle h))
