-- ===== src/Region/Covers.antt =====
-- What `registration_covers` of src/core/region_impl.cpp admits, and the handles on top of it.
use hux.Base.{
  ℕ, ◌+◌, ◌<◌, leb, if◌then◌else◌, Bool, true, ◌&&◌, ◌||◌, not, length, ◌≡◌, refl, ◌∙◌, arith,
}
use hux.Base.Bits.{passes_under, passes_under-at}
use hux.Types.{
  done, DeviceId, eq_device, local_read, local_write, remote_read, remote_write, has_flag,
}
use hux.Region.Registration.{
  Registration, MemoryRegionImpl, RegionView, access_suffices, registration_covers, view,
}

abbrev same : Bool → Bool → Bool
same a b = if a then b else not b

-- The permissions `want` against those held, flag by flag.
abbrev grants : ℕ → ℕ → Bool
grants have want =
    (not (has_flag want local_read) || has_flag have local_read)
    && ((not (has_flag want local_write) || has_flag have local_write)
        && (same (has_flag want remote_read) (has_flag have remote_read)
            && same (has_flag want remote_write) (has_flag have remote_write)))

-- The two agree on one pair of flag sets.
abbrev agree : ℕ → ℕ → Bool
agree have want = same (access_suffices have want) (grants have want)

abbrev agree_with : ℕ → Bool
agree_with have = passes_under (agree have) 16

all_agree : passes_under agree_with 16 ≡ true
unfolding passes_under
all_agree = refl

same-eq : (a b : Bool) → same a b ≡ true → a ≡ b
same-eq a b h = ground arith

suffices-grants :
    (have want : ℕ) → have < 16 → want < 16 → access_suffices have want ≡ grants have want
suffices-grants have want small less =
    let row : agree_with have ≡ true = passes_under-at agree_with 16 have small all_agree in
    same-eq _ _ (passes_under-at (agree have) 16 want less row)

-- What may be asked of a registration: its own device, a range inside it on plain numbers, local
-- permissions it holds, and exactly its remote ones.
abbrev pub serves : Registration → ℕ → ℕ → DeviceId → ℕ → Bool
serves r start length device access =
    eq_device r.device device
    && (grants r.access access && (leb r.base start && leb (start + length) (r.base + r.length)))

covers_split :
    (r : Registration) (start length : ℕ) (device : DeviceId) (access : ℕ) (g : Bool)
    → access_suffices r.access access ≡ g
    → registration_covers r start length device access ≡ (
        eq_device r.device device
        && (g && (leb r.base start && leb (start + length) (r.base + r.length))))
unfolding registration_covers
covers_split r start length device access g e = rw (e, registration_covers) (ground arith)

-- On access flags, `registration_covers` is exactly: the same device, every local permission asked
-- for held, the remote ones equal flag by flag, and the range inside the registration's on plain
-- numbers.
pub registration_covers-serves :
    (r : Registration) (start length : ℕ) (device : DeviceId) (access : ℕ)
    → r.access < 16
    → access < 16
    → registration_covers r start length device access ≡ serves r start length device access
registration_covers-serves r start length device access small less =
    covers_split r start length device access _ (suffices-grants r.access access small less)

-- A view of a handle that its registration covers, under the handle's device and access flags, is
-- memory that the registration covers in the same way.
view-covers :
    (m : MemoryRegionImpl) (offset length : ℕ) (v : RegionView)
    → m.registration.access < 16
    → m.access < 16
    → registration_covers m.registration m.base m.length m.device m.access ≡ true
    → view m offset length ≡ done v
    → registration_covers m.registration (m.base + v.span.offset) v.span.length m.device m.access
      ≡ true
unfolding view
view-covers m offset length v small less served e =
    registration_covers-serves m.registration _ _ m.device m.access small less
    ∙ ground (
      arith,
      registration_covers-serves m.registration m.base m.length m.device m.access small less,
    )
