-- ===== src/Engine/Importing.antt =====
-- `PeerImpl::import_region` of src/core/engine_impl.cpp: what a peer makes of a descriptor.
use hux.Base.{
  ℕ, ◌<◌, ◌==◌, if◌then◌else◌, Bool, true, false, ◌&&◌, ◌||◌, not, List, [], ◌∷◌, length, map,
  Option, none, some, ◌≡◌, refl, arith, Option-cases, inl, inr,
}
use hux.Types.{Status, Result, done, err}
use hux.Control.Identity.{Identity, eq_identity}
use hux.Region.Descriptor.{ProviderKey, RegionDescriptor, decode_descriptor}
use hux.Region.RoundTrip.{IsDescriptor, received, decode_descriptor-encode}
use hux.Region.Registration.{
  provider_key, MemoryRegionImpl, view, described, export_descriptor, RemoteRegionImpl,
  import_region, remote_view, find_remote_key,
}

-- Whether anything is known of who the peer is.
abbrev identified : Identity → Bool
identified id = not (id.host == 0) || (not (id.process == 0) || not (id.engine == 0))

-- Whether some lane has a key.
abbrev pub any_lane : List ProviderKey → List (List ℕ) → Bool
any_lane keys [] = false
any_lane keys (l ∷ ls) = elim (find_remote_key keys l) [ some k ↦ true | none ↦ any_lane keys ls ]

-- The first lane's key stays in the unnamed field.
abbrev primary : RegionDescriptor → List (List ℕ) → RegionDescriptor
primary d [] = d
primary d (l ∷ ls) = elim (find_remote_key d.provider_keys l) [
  | some k ↦ record d { remote_key = k }
  | none ↦ d
]

-- `lanes` are the names of the peer's transports, the first one first.
unfoldable pub accept_descriptor :
    Identity → List (List ℕ) → RegionDescriptor → Result RemoteRegionImpl
accept_descriptor peer lanes d =
    if identified peer && not (eq_identity d.origin peer)
    then err Status.stale_generation
    else if length d.provider_keys == 0
    then done (import_region d)
    else if any_lane d.provider_keys lanes
    then done (import_region (primary d lanes))
    else err Status.unsupported

unfoldable pub import_bytes : Identity → List (List ℕ) → List ℕ → Result RemoteRegionImpl
import_bytes peer lanes descriptor = elim (decode_descriptor descriptor) [
  | err s ↦ err s
  | done d ↦ accept_descriptor peer lanes d
]

-- One entry per descriptor; a malformed one does not affect the rest.
unfoldable pub import_region_batch :
    Identity → List (List ℕ) → List (List ℕ) → List (Option RemoteRegionImpl)
import_region_batch peer lanes [] = []
import_region_batch peer lanes (d ∷ ds) =
    elim (import_bytes peer lanes d) [ done r ↦ some r | err s ↦ none ]
    ∷ import_region_batch peer lanes ds

eq_identity_refl : (a : Identity) → eq_identity a a ≡ true
eq_identity_refl a = ground arith

primary-same :
    (d : RegionDescriptor) (lanes : List (List ℕ))
    → ((primary d lanes).region ≡ d.region)
      × (((primary d lanes).length ≡ d.length)
          × ((primary d lanes).provider_keys ≡ d.provider_keys))
primary-same d [] = (refl, (refl, refl))
primary-same d (l ∷ ls) = elim (Option-cases (find_remote_key d.provider_keys l)) [
  | inl n ↦ rw (n, primary) (refl, (refl, refl))
  | inr (k, e) ↦ rw (e, primary) (refl, (refl, refl))
]

keys-nonempty :
    (keys : List ProviderKey) (lanes : List (List ℕ))
    → any_lane keys lanes ≡ true
    → (length keys == 0) ≡ false
keys-nonempty [] [] h = cc
keys-nonempty [] (l ∷ ls) h = keys-nonempty [] ls h
keys-nonempty (k ∷ ks) lanes h = ground arith

view-same :
    (m : MemoryRegionImpl) (d : RegionDescriptor) (offset length : ℕ)
    → d.region ≡ m.id
    → d.length ≡ m.length
    → remote_view (import_region d) offset length ≡ view m offset length
unfolding remote_view view
view-same m d offset length p q = rw (p, q) refl

-- A descriptor exported for some transport that the peer is reached over is imported there, with
-- every transport's key, and each range asked of the import is the range of the exporter's handle,
-- out-of-range refusals included. The handle's numbers fit their fields.
pub import_bytes-export :
    (m : MemoryRegionImpl) (lanes : List (List ℕ))
    → IsDescriptor (described m)
    → any_lane (map provider_key m.registration.keys) lanes ≡ true
    → (r : RemoteRegionImpl) × ((import_bytes m.origin lanes (export_descriptor m) ≡ done r)
        × ((r.descriptor.provider_keys ≡ map provider_key m.registration.keys)
            × ((offset length : ℕ) → remote_view r offset length ≡ view m offset length)))
unfolding import_bytes export_descriptor accept_descriptor
import_bytes-export m lanes f reached =
    let keys = map provider_key m.registration.keys in
    let d = received (described m) keys in
    let own : (identified m.origin && not (eq_identity m.origin m.origin)) ≡ false =
      rw (eq_identity_refl m.origin) (ground arith) in
    let some_keys = keys-nonempty keys lanes reached in
    let same = primary-same d lanes in
    let accepted : accept_descriptor m.origin lanes d ≡ done (import_region (primary d lanes)) =
      rw (own, some_keys, reached, accept_descriptor) refl in
    (
      import_region (primary d lanes),
      (
        rw (decode_descriptor-encode (described m) f, import_bytes) accepted,
        (
          same.1.1,
          λ (offset length : ℕ). view-same m (primary d lanes) offset length same.0 same.1.0,
        ),
      ),
    )

-- A descriptor exported by another engine than the peer is refused as stale, whatever the peer's
-- transports, if the peer said who it is. The handle's numbers fit their fields.
import_bytes-origin :
    (peer : Identity) (lanes : List (List ℕ)) (m : MemoryRegionImpl)
    → IsDescriptor (described m)
    → eq_identity m.origin peer ≡ false
    → (peer.host ≡ 0 → peer.process ≡ 0 → 0 < peer.engine)
    → import_bytes peer lanes (export_descriptor m) ≡ err Status.stale_generation
unfolding import_bytes export_descriptor accept_descriptor
import_bytes-origin peer lanes m f other known =
    let keys = map provider_key m.registration.keys in
    let d = received (described m) keys in
    let refused : (identified peer && not (eq_identity m.origin peer)) ≡ true =
      rw other (ground (arith, known)) in
    let stale : accept_descriptor peer lanes d ≡ err Status.stale_generation =
      rw (refused, accept_descriptor) refl in
    rw (decode_descriptor-encode (described m) f, import_bytes) stale
