-- ===== src/Region/Registration.antt =====
-- `Registration` and the handles of src/core/region_impl.h, `registration_covers`, the views and
-- `export_descriptor` of src/core/region_impl.cpp.
use hux.Base.{
  ℕ, ◌-◌, ◌^◌, ◌==◌, ltb, leb, if◌then◌else◌, Bool, true, false, ◌&&◌, not, List, [], ◌∷◌, map,
  Option, none, some, bit_and, bit_or, bit_xor, eq_list,
}
use hux.Types.{
  Status, Result, done, err, MemoryKind, DeviceId, eq_device, remote_read, remote_write, Span,
  within,
}
use hux.Control.Identity.{Identity}
use hux.Region.Descriptor.{ProviderKey, RegionDescriptor, encode_descriptor}

pub record Key : Type 0 where
  pub provider : List ℕ
  pub local_key : ℕ
  pub remote_key : ℕ

-- The memory of one underlying registration.
pub record Registration : Type 0 where
  pub base : ℕ
  pub length : ℕ
  pub device : DeviceId
  pub access : ℕ
  pub keys : List Key
  pub local_key : ℕ
  pub remote_key : ℕ

abbrev pub find_local_key : List Key → List ℕ → Option ℕ
find_local_key [] provider = none
find_local_key (k ∷ ks) provider =
    if eq_list ◌==◌ k.provider provider then some k.local_key else find_local_key ks provider

unfoldable pub local_key_for : Registration → List ℕ → Option ℕ
local_key_for r provider = find_local_key r.keys provider

-- `~have` of a uint32_t.
abbrev complement : ℕ → ℕ
complement have = bit_xor have (2 ^ 32 - 1)

-- Every permission asked for is held, and the remote ones are exactly those.
abbrev pub access_suffices : ℕ → ℕ → Bool
access_suffices have want =
    let remote = bit_or remote_read remote_write in
    if not (bit_and want (complement have) == 0)
    then false
    else if not (bit_and want remote == bit_and have remote)
    then false
    else true

unfoldable pub registration_covers : Registration → ℕ → ℕ → DeviceId → ℕ → Bool
registration_covers r start length device access =
    let offset = start - r.base in
    if not (eq_device r.device device)
    then false
    else if not (access_suffices r.access access)
    then false
    else if ltb start r.base
    then false
    else leb offset r.length && leb length (r.length - offset)

pub record RegionView : Type 0 where
  pub region : ℕ
  pub span : Span

-- A handle; `retired` is the flag that deregistration raises first.
pub record MemoryRegionImpl : Type 0 where
  pub origin : Identity
  pub id : ℕ
  pub generation : ℕ
  pub base : ℕ
  pub length : ℕ
  pub device : DeviceId
  pub memory : MemoryKind
  pub access : ℕ
  pub registration : Registration
  pub retired : Bool

unfoldable pub view : MemoryRegionImpl → ℕ → ℕ → Result RegionView
view m offset length =
    let s : Span = record { offset = offset; length = length } in
    if not (within s m.length)
    then err Status.out_of_range
    else done (record { region = m.id; span = s })

abbrev pub provider_key : Key → ProviderKey
provider_key k = record { provider = k.provider; remote_key = k.remote_key }

-- The address is the handle's own, the keys are the whole registration's.
abbrev pub described : MemoryRegionImpl → RegionDescriptor
described m = record {
  major = 0;
  minor = 0;
  origin = m.origin;
  region = m.id;
  generation = m.generation;
  base = m.base;
  length = m.length;
  remote_key = m.registration.remote_key;
  provider_keys = map provider_key m.registration.keys;
  device_kind = m.device.kind;
  device_index = m.device.index;
  access = m.access;
}

unfoldable pub export_descriptor : MemoryRegionImpl → List ℕ
export_descriptor m = encode_descriptor (described m)

pub record RemoteRegionImpl : Type 0 where
  pub descriptor : RegionDescriptor
  pub valid : Bool

abbrev pub import_region : RegionDescriptor → RemoteRegionImpl
import_region d = record { descriptor = d; valid = true }

abbrev pub invalidate : RemoteRegionImpl → RemoteRegionImpl
invalidate r = record r { valid = false }

abbrev pub remote_device : RemoteRegionImpl → DeviceId
remote_device r = record { kind = r.descriptor.device_kind; index = r.descriptor.device_index }

unfoldable pub remote_view : RemoteRegionImpl → ℕ → ℕ → Result RegionView
remote_view r offset length =
    let s : Span = record { offset = offset; length = length } in
    if not r.valid
    then err Status.stale_generation
    else if not (within s r.descriptor.length)
    then err Status.out_of_range
    else done (record { region = r.descriptor.region; span = s })

abbrev pub find_remote_key : List ProviderKey → List ℕ → Option ℕ
find_remote_key [] provider = none
find_remote_key (k ∷ ks) provider =
    if eq_list ◌==◌ k.provider provider then some k.remote_key else find_remote_key ks provider

-- The key that the named provider minted, or the unnamed one of a peer that exported no other.
unfoldable pub remote_key_for : RegionDescriptor → List ℕ → Option ℕ
remote_key_for d provider = elim (find_remote_key d.provider_keys provider) [
  | some key ↦ some key
  | none ↦ elim d.provider_keys [ [] ↦ some d.remote_key | (k ∷ ks) ↦ none ]
]
