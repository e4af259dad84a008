-- ===== src/Engine/Served.antt =====
-- What a handle that `register_memory` of src/core/engine_impl.cpp returns may rely on, and what its
-- cache is left with.
use hux.Base.{
  ℕ, ◌+◌, ◌<◌, ◌==◌, if-all, true, List, [], ◌∷◌, ◌≡◌, refl, ◌∙◌, arith, list-cases, Option-cases,
  inl, inr, subst, some, none, Option, Bool-cases,
}
use hux.Types.{Result, done, err, DeviceId}
use hux.Region.Registration.{registration_covers, MemoryRegionImpl, Key}
use hux.Region.Covers.{registration_covers-serves}
use hux.Engine.Registering.{
  Owned, Memory, Settings, find_registration, register_all, probed, over_cap, keep_owned, owned_of,
  cache_registration, hand_out, register_new, register_memory,
}

-- A handle on just what was asked for, that its registration covers.
pub record IsServed (s : Settings) (m : Memory) (start length access : ℕ) (r : MemoryRegionImpl)
    : Type 0 where
  pub base : r.base ≡ start
  pub size : r.length ≡ length
  pub flags : r.access ≡ access
  pub number : r.id ≡ m.next_region
  pub device : r.device ≡ (probed s start).0
  pub covered : registration_covers r.registration r.base r.length r.device r.access ≡ true

abbrev Served : Settings → Memory → ℕ → ℕ → ℕ → Result MemoryRegionImpl → Type 0
Served s m start length access (done r) = IsServed s m start length access r
Served s m start length access (err e) = Unit

abbrev Covers : ℕ → ℕ → DeviceId → ℕ → Option Owned → Type 0
Covers start length device access none = Unit
Covers start length device access (some o) =
    registration_covers o.registration start length device access ≡ true

find_registration-Covers :
    (c : List Owned) (start length : ℕ) (device : DeviceId) (access : ℕ)
    → Covers start length device access (find_registration c start length device access)
unfolding find_registration
find_registration-Covers [] start length device access = tt
find_registration-Covers (x ∷ c) start length device access =
    elim (Bool-cases (registration_covers x.registration start length device access)) [
      | inl yes_it_does ↦ rw (yes_it_does, find_registration) yes_it_does
      | inr no_more ↦
          rw (no_more, find_registration) (find_registration-Covers c start length device access)
    ]

-- A registration made for a range covers it.
owned_of-covers :
    (number start length : ℕ) (device : DeviceId) (access : ℕ) (k : Key) (ks : List Key)
    → access < 16
    → registration_covers
        (owned_of number start length device access k ks).registration
        start
        length
        device
        access
      ≡ true
owned_of-covers number start length device access k ks small =
    registration_covers-serves (owned_of number start length device access k ks).registration start
      length device access small small
    ∙ ground arith

keep_owned-next :
    (s : Settings) (m : Memory) (o : Owned) → (keep_owned s m o).next_region ≡ m.next_region
unfolding keep_owned cache_registration
keep_owned-next s m o = ground arith

hand_out-Served :
    (s : Settings) (m n : Memory) (start length access : ℕ) (o : Owned)
    → n.next_region ≡ m.next_region
    → registration_covers o.registration start length (probed s start).0 access ≡ true
    → Served s m start length access (hand_out s n start length (probed s start) access o).1
unfolding hand_out
hand_out-Served s m n start length access o same covers = record {
  base = refl;
  size = refl;
  flags = refl;
  number = same;
  device = refl;
  covered = covers;
}

register_new-Served :
    (s : Settings) (m n : Memory) (start length access : ℕ)
    → access < 16
    → n.next_region ≡ m.next_region
    → Served s m start length access (register_new s n start length (probed s start) access).1
unfolding register_new
register_new-Served s m n start length access small same =
    elim (list-cases (register_all s.providers start length (probed s start).0 access).0) [
      | inl none_took ↦ rw (none_took, register_new) tt
      | inr (k, (ks, took)) ↦
          let o = owned_of n.made start length (probed s start).0 access k ks in
          rw (took, register_new)
            (hand_out-Served s m (keep_owned s n o) start length access o
              (keep_owned-next s n o ∙ same)
              (owned_of-covers n.made start length (probed s start).0 access k ks small))
    ]

abbrev ServedBy : Settings → Memory → ℕ → ℕ → ℕ → Memory × Result MemoryRegionImpl → Type 0
ServedBy s m start length access (n, r) = Served s m start length access r

register_memory-Served :
    (s : Settings) (m : Memory) (start length access : ℕ)
    → access < 16
    → ServedBy s m start length access (register_memory s m start length access)
unfolding register_memory
register_memory-Served s m start length access small =
    let P = ServedBy s m start length access in
    let at = (probed s start).0 in
    if-all P (start == 0) _ _ tt (
      if-all P (length == 0) _ _ tt (
        if-all P (over_cap s length) _ _ tt
          (elim (Option-cases (find_registration m.cache start length at access)) [
            | inl unknown ↦
                rw (unknown, register_memory)
                  (register_new-Served s m
                    (record m { registrations_created = m.registrations_created + 1 }) start length
                    access small refl)
            | inr (o, found) ↦
                rw (found, register_memory)
                  (hand_out-Served s m
                    (record m { registrations_reused = m.registrations_reused + 1 }) start length
                    access o refl
                    (subst (Covers start length at access) found
                      (find_registration-Covers m.cache start length at access)))
          ])))

-- When registering memory for access flags succeeds, the handle has the next id and is for just the
-- range, the flags and the device asked for, and its registration, new or reused, covers all of
-- that.
pub register_memory-covers :
    (s : Settings) (m : Memory) (start length access : ℕ) (r : MemoryRegionImpl)
    → access < 16
    → (register_memory s m start length access).1 ≡ done r
    → IsServed s m start length access r
register_memory-covers s m start length access r small e =
    subst (Served s m start length access) e (register_memory-Served s m start length access small)
