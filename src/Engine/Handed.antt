-- ===== src/Engine/Handed.antt =====
-- A handle on a registration, new or reused, in `register_memory` of src/core/engine_impl.cpp.
use hux.Base.{
  ℕ, suc, ◌+◌, ◌≤◌, ◌==◌, ltb, if◌then◌else◌, Bool, true, List, [], ◌∷◌, ◌++◌, length, some, ◌≡◌,
  ==_iff, list-cases, if-all, ◌<◌, refl, arith, Bool-cases, Option-cases, inl, inr,
}
use hux.Types.{Result, DeviceId, MemoryKind}
use hux.Region.Registration.{MemoryRegionImpl}
use hux.Request.Counting.{told}
use hux.Engine.Registering.{
  Owned, Memory, Settings, uses, times, find_registration, evict, cache_registration, register_all,
  probed, over_cap, keep_owned, owned_of, hand_out, register_new, register_memory,
}
use hux.Engine.Evicting.{times-append, evict-Evicted, held-times}

-- Each registration made has been released once, or is alive in the cache or under a handle.
pub record IsCounted (m : Memory) : Type 0 where
  pub once :
      (n : ℕ)
      → times n m.released + told (ltb 0 (uses n m.handles + times n m.cache)) ≡ told (ltb n m.made)
  pub cached : (n : ℕ) → times n m.cache ≤ 1

-- A new registration, with the handle it was made for, over the cache as the loop leaves it.
module _ (m : Memory) (v : IsCounted m) (o : Owned) (new : o.number ≡ m.made) where
  abbrev keeps_new : ℕ → Bool
  keeps_new n = if n == o.number then true else ltb 0 (uses n m.handles)

  unused :
      (times o.number m.released ≡ 0) × (uses o.number m.handles ≡ 0) × (times o.number m.cache ≡ 0)
  unused = ground (arith, v.once o.number)

  new_once :
      (kept out : List Owned) (n : ℕ)
      → times n (m.cache ++ (o ∷ [])) ≡ times n kept + times n out
      → (keeps_new n ≡ true → times n out ≡ 0)
      → (times n (m.released ++ out)
            + told (
                ltb 0 (
                  (if o.number == n then suc (uses n m.handles) else uses n m.handles)
                  + times n kept))
          ≡ told (ltb n (m.made + 1)))
        × (times n kept ≤ 1)
  new_once kept out n each idle = elim (Bool-cases (o.number == n)) [
    | inl same ↦
        let e = (==_iff o.number n).0 same in
        rw same (
          ground (
            arith,
            times-append n m.cache (o ∷ []),
            times-append n m.released out,
            unused,
            e,
            new,
            idle,
          ))
    | inr other ↦ rw other (
        ground (
          arith,
          times-append n m.cache (o ∷ []),
          times-append n m.released out,
          v.once n,
          v.cached n,
          new,
          idle,
        ))
  ]

found-times :
    (c : List Owned) (start length : ℕ) (device : DeviceId) (access : ℕ) (o : Owned)
    → find_registration c start length device access ≡ some o
    → 0 < times o.number c
unfolding find_registration
found-times [] start length device access o e = cc
found-times (x ∷ c) start length device access o e =
    ground (arith, found-times c start length device access o, ==_iff x.number o.number)

-- Another handle on a registration that the cache holds.
hand_out-IsCounted :
    (s : Settings) (m : Memory) (start length : ℕ) (at : DeviceId × MemoryKind) (access : ℕ)
    (o : Owned)
    → IsCounted m
    → 0 < times o.number m.cache
    → IsCounted (hand_out s m start length at access o).0
unfolding hand_out
hand_out-IsCounted s m start length (d, k) access o v there = record {
  once = λ n. ground (arith, v.once n, ==_iff o.number n, there);
  cached = v.cached;
}

-- A handle on a new registration.
new-IsCounted :
    (s : Settings) (m : Memory) (start length : ℕ) (at : DeviceId × MemoryKind) (access : ℕ)
    (o : Owned)
    → IsCounted m
    → o.number ≡ m.made
    → IsCounted (hand_out s (keep_owned s m o) start length at access o).0
unfolding keep_owned cache_registration hand_out
new-IsCounted s m start size (d, k) access o v new =
    let all = m.cache ++ (o ∷ []) in
    let held = keeps_new m v o new in
    let c = evict-Evicted (length all) held s.registration_cache_entries all (omega arith) in
    elim (Bool-cases (ltb 0 s.registration_cache_entries)) [
      | inr no_cache ↦
          rw (no_cache, keep_owned)
            (record {
              once = λ n. ground (arith, v.once n, unused m v o new, ==_iff o.number n, new);
              cached = v.cached;
            })
      | inl has_cache ↦
          let each = λ (n : ℕ).
            new_once m v o new (evict (length all) held s.registration_cache_entries all).0
              (evict (length all) held s.registration_cache_entries all).1 n (c.each n)
              (held-times held n _ c.idle) in
          rw (has_cache, keep_owned) (record { once = λ n. (each n).0; cached = λ n. (each n).1 })
    ]

register_new-IsCounted :
    (s : Settings) (m : Memory) (start length : ℕ) (at : DeviceId × MemoryKind) (access : ℕ)
    → IsCounted m
    → IsCounted (register_new s m start length at access).0
unfolding register_new
register_new-IsCounted s m start length at access v =
    elim (list-cases (register_all s.providers start length at.0 access).0) [
      | inl none_took ↦ rw (none_took, register_new) v
      | inr (k, (ks, took)) ↦
          rw (took, register_new)
            (new-IsCounted s m start length at access
              (owned_of m.made start length at.0 access k ks) v refl)
    ]

pub register_memory-IsCounted :
    (s : Settings) (m : Memory) (start length access : ℕ)
    → IsCounted m
    → IsCounted (register_memory s m start length access).0
unfolding register_memory
register_memory-IsCounted s m start length access v =
    if-all (λ (r : Memory × Result MemoryRegionImpl). IsCounted r.0) (start == 0) _ _ v
      (if-all (λ (r : Memory × Result MemoryRegionImpl). IsCounted r.0) (length == 0) _ _ v
        (if-all (λ (r : Memory × Result MemoryRegionImpl). IsCounted r.0) (over_cap s length) _ _ v
          (elim (Option-cases (find_registration m.cache start length (probed s start).0 access)) [
            | inl unknown ↦
                rw (unknown, register_memory)
                  (register_new-IsCounted s
                    (record m { registrations_created = m.registrations_created + 1 }) start length
                    (probed s start) access (record { once = v.once; cached = v.cached }))
            | inr (o, found) ↦
                rw (found, register_memory)
                  (hand_out-IsCounted s
                    (record m { registrations_reused = m.registrations_reused + 1 }) start length
                    (probed s start) access o (record { once = v.once; cached = v.cached })
                    (found-times m.cache start length (probed s start).0 access o found))
          ])))
