-- ===== src/Engine/Released.antt =====
-- The ways in which a registration of src/core/engine_impl.cpp loses what holds it.
use hux.Base.{
  ℕ, suc, ◌+◌, ◌==◌, ltb, if◌then◌else◌, List, [], ◌∷◌, Option, none, some, ◌≡◌, ==_iff, if-all,
  refl, subst, ap, ◌∙◌, arith, Bool-cases, Option-cases, inl, inr,
}
use hux.Types.{Status}
use hux.Request.Counting.{told}
use hux.Engine.Post.{has_id}
use hux.Engine.Registering.{
  Owned, Handle, Memory, uses, times, retire, in_use, deregister_memory, split_idle,
  release_cached_registrations, take_handle, drop_handle,
}
use hux.Engine.Evicting.{times-append}
use hux.Engine.Handed.{IsCounted}

retire-uses : (id n : ℕ) (hs : List Handle) → uses n (retire id hs) ≡ uses n hs
retire-uses id n [] = refl
retire-uses id n (h ∷ hs) = ground (arith, retire-uses id n hs)

pub deregister_memory-IsCounted :
    (inflight : List (List ℕ)) (m : Memory) (id : ℕ)
    → IsCounted m
    → IsCounted (deregister_memory inflight m id).0
unfolding deregister_memory
deregister_memory-IsCounted inflight m id v =
    let once = λ (n : ℕ).
      ap (λ (u : ℕ). times n m.released + told (ltb 0 (u + times n m.cache)))
        (retire-uses id n m.handles)
      ∙ v.once n in
    if-all (λ (r : Memory × Status). IsCounted r.0) (in_use id inflight) _ _
      (record { once = once; cached = v.cached }) (record { once = once; cached = v.cached })

split_idle-times :
    (hs : List Handle) (c : List Owned) (n : ℕ)
    → times n (split_idle hs c).0 ≡ (if uses n hs == 0 then 0 else times n c)
unfolding split_idle
split_idle-times hs [] n = ground arith
split_idle-times hs (o ∷ c) n = ground (arith, split_idle-times hs c n, ==_iff o.number n)

split_idle-dropped :
    (hs : List Handle) (c : List Owned) (n : ℕ)
    → times n (split_idle hs c).1 ≡ (if uses n hs == 0 then times n c else 0)
unfolding split_idle
split_idle-dropped hs [] n = ground arith
split_idle-dropped hs (o ∷ c) n = ground (arith, split_idle-dropped hs c n, ==_iff o.number n)

pub release-IsCounted : (m : Memory) → IsCounted m → IsCounted (release_cached_registrations m).0
unfolding release_cached_registrations
release-IsCounted m v = record {
  once = λ n. ground (
    arith,
    v.once n,
    v.cached n,
    split_idle-times m.handles m.cache n,
    split_idle-dropped m.handles m.cache n,
    times-append n m.released (split_idle m.handles m.cache).1,
  );
  cached = λ n. ground (arith, v.cached n, split_idle-times m.handles m.cache n);
}

-- What taking a handle out of the list does.
abbrev Taken : List Handle → Option (Handle × List Handle) → Type 0
Taken hs none = Unit
Taken hs (some (h, rest)) =
    (n : ℕ) → uses n hs ≡ (if h.owner.number == n then suc (uses n rest) else uses n rest)

take_handle-Taken : (id : ℕ) (hs : List Handle) → Taken hs (take_handle id hs)
unfolding take_handle
take_handle-Taken id [] = tt
take_handle-Taken id (h ∷ hs) = elim (Bool-cases (h.memory.id == id)) [
  | inl here ↦ rw (here, take_handle) (λ n. refl)
  | inr later ↦ elim (Option-cases (take_handle id hs)) [
    | inl absent ↦ rw (later, absent, take_handle) tt
    | inr ((x, rest), e) ↦
        let found : Taken hs (some (x, rest)) = subst (Taken hs) e (take_handle-Taken id hs) in
        rw (later, e, take_handle) (λ n. ground (arith, found n))
  ]
]

pub drop_handle-IsCounted : (m : Memory) (id : ℕ) → IsCounted m → IsCounted (drop_handle m id)
unfolding drop_handle
drop_handle-IsCounted m id v = elim (Bool-cases (has_id m.regions id)) [
  | inl kept ↦ rw (kept, drop_handle) v
  | inr free ↦ elim (Option-cases (take_handle id m.handles)) [
    | inl absent ↦ rw (free, absent, drop_handle) v
    | inr ((h, rest), e) ↦
        let found : Taken m.handles (some (h, rest)) =
          subst (Taken m.handles) e (take_handle-Taken id m.handles) in
        elim (Bool-cases (uses h.owner.number rest + times h.owner.number m.cache == 0)) [
          | inl last ↦
              rw (free, e, last, drop_handle)
                (record {
                  once = λ n. ground (
                    arith,
                    v.once n,
                    found n,
                    last,
                    times-append n m.released (h.owner ∷ []),
                    ==_iff h.owner.number n,
                  );
                  cached = v.cached;
                })
          | inr others ↦
              rw (free, e, others, drop_handle)
                (record {
                  once = λ n. ground (arith, v.once n, found n, others, ==_iff h.owner.number n);
                  cached = v.cached;
                })
        ]
  ]
]
