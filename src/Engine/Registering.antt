-- ===== src/Engine/Registering.antt =====
-- `register_memory`, `register_memory_batch`, `deregister_memory`, the cache of registrations and
-- `release_cached_registrations` of src/core/engine_impl.cpp. A registration is told apart by a
-- number, as the code tells it apart by the object that its shared pointers share, and its deleter
-- runs when neither the cache nor a handle holds it.
use hux.Base.{
  ◌%◌, ◌^◌, zero, ℕ, suc, ◌+◌, ◌%◌, ◌^◌, ◌==◌, ltb, leb, if◌then◌else◌, Bool, true, false, ◌&&◌,
  not, List, [], ◌∷◌, ◌++◌, length, Option, none, some,
}
use hux.Types.{Status, is_ok, Result, done, err, MemoryKind, DeviceId}
use hux.Control.Identity.{Identity}
use hux.Region.Registration.{Key, Registration, MemoryRegionImpl, registration_covers}
use hux.Engine.Post.{has_id, erase}

pub record Owned : Type 0 where
  pub number : ℕ
  pub registration : Registration

-- What a transport's `register_region` answers.
pub record RegionKeys : Type 0 where
  pub status : Status
  pub local_key : ℕ
  pub remote_key : ℕ

-- A transport: its name, and `register_region` of an address, a length, a device and access flags.
pub record Registrar : Type 0 where
  pub name : List ℕ
  pub register_region : ℕ → ℕ → DeviceId → ℕ → RegionKeys

-- `probe_pointer` and the cap on one registration, 0 for none.
pub record Backend : Type 0 where
  pub probe_pointer : ℕ → Option (DeviceId × MemoryKind)
  pub max_registration_bytes : ℕ

-- A handle that something still points to, and the registration it keeps alive.
pub record Handle : Type 0 where
  pub memory : MemoryRegionImpl
  pub owner : Owned

pub record Memory : Type 0 where
  -- `reg_cache_`, the oldest first.
  pub cache : List Owned
  -- `regions_`, by id.
  pub regions : List ℕ
  -- The handles alive: those in `regions_`, and those that a caller or a request holds.
  pub handles : List Handle
  -- How many registrations were made: the number of the next.
  pub made : ℕ
  -- Those whose deleter has run.
  pub released : List Owned
  pub next_region : ℕ
  pub registrations_created : ℕ
  pub registrations_reused : ℕ

pub record Settings : Type 0 where
  pub device : DeviceId
  pub registration_cache_entries : ℕ
  pub backend : Option Backend
  pub providers : List Registrar
  pub identity : Identity
  pub generation : ℕ

-- How many handles keep a registration alive.
abbrev pub uses : ℕ → List Handle → ℕ
uses n [] = 0
uses n (h ∷ hs) = if h.owner.number == n then suc (uses n hs) else uses n hs

unfoldable pub find_registration : List Owned → ℕ → ℕ → DeviceId → ℕ → Option Owned
find_registration [] start length device access = none
find_registration (o ∷ os) start length device access =
    if registration_covers o.registration start length device access
    then some o
    else find_registration os start length device access

-- The first entry that nothing else holds, and the others.
unfoldable pub take_idle : (ℕ → Bool) → List Owned → Option (Owned × List Owned)
take_idle held [] = none
take_idle held (o ∷ os) =
    if not (held o.number)
    then some (o, os)
    else elim (take_idle held os) [ none ↦ none | some (x, rest) ↦ some (x, o ∷ rest) ]

-- The loop of `cache_registration`: what stays, and what is let go.
unfoldable pub evict : ℕ → (ℕ → Bool) → ℕ → List Owned → List Owned × List Owned
evict zero held bound cache = (cache, [])
evict (suc fuel) held bound cache =
    if leb (length cache) bound then (cache, []) else elim (take_idle held cache) [
      | none ↦ (cache, [])
      | some (o, rest) ↦ let (kept, out) = evict fuel held bound rest in (kept, o ∷ out)
    ]

-- The registering call itself holds the newest.
unfoldable pub cache_registration : ℕ → Memory → Owned → Memory
unfolding evict
cache_registration bound m o =
    let all = m.cache ++ (o ∷ []) in
    let (kept, out) =
      evict (length all) (λ n. if n == o.number then true else ltb 0 (uses n m.handles)) bound
        all in
    record m { cache = kept; released = m.released ++ out }

-- The keys that the transports gave, and the first refusal, kOk if there was none.
unfoldable pub register_all : List Registrar → ℕ → ℕ → DeviceId → ℕ → List Key × Status
register_all [] start length device access = ([], Status.ok)
register_all (p ∷ ps) start length device access =
    let k = p.register_region start length device access in
    let (keys, later) = register_all ps start length device access in
    if is_ok k.status
    then (
      record { provider = p.name; local_key = k.local_key; remote_key = k.remote_key } ∷ keys,
      later,
    )
    else (keys, k.status)

-- Where the memory is, by the backend if there is one that knows.
abbrev pub probed : Settings → ℕ → DeviceId × MemoryKind
probed s start = elim s.backend [
  | none ↦ (s.device, MemoryKind.host_pageable)
  | some b ↦ elim (b.probe_pointer start) [
    | none ↦ (s.device, MemoryKind.host_pageable)
    | some at ↦ at
  ]
]

abbrev pub over_cap : Settings → ℕ → Bool
over_cap s length = elim s.backend [
  | none ↦ false
  | some b ↦ not (b.max_registration_bytes == 0) && ltb b.max_registration_bytes length
]

-- A handle of its own on a registration, recorded in `regions_`.
unfoldable pub hand_out :
    Settings → Memory → ℕ → ℕ → DeviceId × MemoryKind → ℕ → Owned → Memory × Result MemoryRegionImpl
hand_out s m start length (device, memory) access o =
    let r : MemoryRegionImpl = record {
      origin = s.identity;
      id = m.next_region;
      generation = s.generation;
      base = start;
      length = length;
      device = device;
      memory = memory;
      access = access;
      registration = o.registration;
      retired = false;
    } in
    (
      record m {
        next_region = (m.next_region + 1) % 2 ^ 64;
        regions = m.next_region ∷ m.regions;
        handles = record { memory = r; owner = o } ∷ m.handles;
      },
      done r,
    )

-- A registration made, and kept in the cache if there is one.
unfoldable pub keep_owned : Settings → Memory → Owned → Memory
unfolding cache_registration
keep_owned s m o =
    let owned = record m { made = m.made + 1 } in
    if ltb 0 s.registration_cache_entries
    then cache_registration s.registration_cache_entries owned o
    else owned

abbrev pub owned_of : ℕ → ℕ → ℕ → DeviceId → ℕ → Key → List Key → Owned
owned_of number start length device access k ks = record {
  number = number;
  registration = record {
    base = start;
    length = length;
    device = device;
    access = access;
    keys = k ∷ ks;
    local_key = k.local_key;
    remote_key = k.remote_key;
  };
}

-- A registration made for this call, unless no transport took it.
unfoldable pub register_new :
    Settings → Memory → ℕ → ℕ → DeviceId × MemoryKind → ℕ → Memory × Result MemoryRegionImpl
unfolding hand_out keep_owned
register_new s m start length at access =
    let (keys, refusal) = register_all s.providers start length at.0 access in
    elim keys [
      | [] ↦ (m, err (if is_ok refusal then Status.unsupported else refusal))
      | k ∷ ks ↦
          let o = owned_of m.made start length at.0 access k ks in
          hand_out s (keep_owned s m o) start length at access o
    ]

unfoldable pub register_memory : Settings → Memory → ℕ → ℕ → ℕ → Memory × Result MemoryRegionImpl
unfolding register_new hand_out
register_memory s m start length access =
    let at = probed s start in
    if start == 0
    then (m, err Status.invalid_argument)
    else if length == 0
    then (m, err Status.invalid_argument)
    else if over_cap s length
    then (m, err Status.resource_exhausted)
    else elim (find_registration m.cache start length at.0 access) [
      | some o ↦
          hand_out s (record m { registrations_reused = m.registrations_reused + 1 }) start length
            at access o
      | none ↦
          register_new s (record m { registrations_created = m.registrations_created + 1 }) start
            length at access
    ]

-- One result for each range, whatever became of the others.
unfoldable pub register_each :
    Settings → Memory → List (ℕ × ℕ) → ℕ → Memory × List (Result MemoryRegionImpl)
unfolding register_memory
register_each s m [] access = (m, [])
register_each s m ((start, length) ∷ ranges) access =
    let (m', r) = register_memory s m start length access in
    let (m'', rs) = register_each s m' ranges access in (m'', r ∷ rs)

abbrev pub retire : ℕ → List Handle → List Handle
retire id [] = []
retire id (h ∷ hs) =
    (if h.memory.id == id then record h { memory = record h.memory { retired = true } } else h)
    ∷ retire id hs

-- Whether a request in flight holds the handle: each is given by the handles it holds.
abbrev pub in_use : ℕ → List (List ℕ) → Bool
in_use id [] = false
in_use id (held ∷ more) = if has_id held id then true else in_use id more

-- What follows a kOk is the notice to the peers, Engine/Invalidating.
unfoldable pub deregister_memory : List (List ℕ) → Memory → ℕ → Memory × Status
deregister_memory inflight m id =
    let retired = record m { handles = retire id m.handles } in
    if in_use id inflight
    then (retired, Status.would_block)
    else (record retired { regions = erase retired.regions id }, Status.ok)

-- The cache without the entries that nothing else holds, and those.
unfoldable pub split_idle : List Handle → List Owned → List Owned × List Owned
split_idle hs [] = ([], [])
split_idle hs (o ∷ os) =
    let (kept, dropped) = split_idle hs os in
    if uses o.number hs == 0 then (kept, o ∷ dropped) else (o ∷ kept, dropped)

unfoldable pub release_cached_registrations : Memory → Memory × ℕ
unfolding split_idle
release_cached_registrations m =
    let (kept, dropped) = split_idle m.handles m.cache in
    (record m { cache = kept; released = m.released ++ dropped }, length dropped % 2 ^ 32)

abbrev pub times : ℕ → List Owned → ℕ
times n [] = 0
times n (o ∷ os) = if o.number == n then suc (times n os) else times n os

-- The handle with that id, and the others.
unfoldable pub take_handle : ℕ → List Handle → Option (Handle × List Handle)
take_handle id [] = none
take_handle id (h ∷ hs) =
    if h.memory.id == id
    then some (h, hs)
    else elim (take_handle id hs) [ none ↦ none | some (x, rest) ↦ some (x, h ∷ rest) ]

-- The last reference to a handle that is not in `regions_` goes, and the registration after it if
-- nothing else holds that.
unfoldable pub drop_handle : Memory → ℕ → Memory
unfolding take_handle
drop_handle m id = if has_id m.regions id then m else elim (take_handle id m.handles) [
  | none ↦ m
  | some (h, rest) ↦
      if uses h.owner.number rest + times h.owner.number m.cache == 0
      then record m { handles = rest; released = m.released ++ (h.owner ∷ []) }
      else record m { handles = rest }
]
