-- ===== src/Engine/Invalidating.antt =====
-- The notice that `deregister_memory` of src/core/engine_impl.cpp sends, and what `progress` does
-- with one that arrives.
use hux.Base.{
  ℕ, suc, ◌+◌, ◌<◌, ◌^◌, ◌==◌, if◌then◌else◌, Bool, true, false, ◌&&◌, ◌||◌, not, List, [], ◌∷◌,
  map, Option, none, some, ◌≡◌, ap, ◌∙◌, sym, arith, append-nil,
}
use mathlib.Core.Path.{fun_ext}
use hux.Types.{Status, is_ok, done, err}
use hux.Control.Identity.{IsIdentity, eq_identity}
use hux.Control.Message.{RegionInvalidateBody, encode_region_invalidate, decode_region_invalidate}
use hux.Control.RoundTrip.{decode_region_invalidate-encode}
use hux.Region.Registration.{MemoryRegionImpl, RemoteRegionImpl, invalidate}

abbrev notice_body : MemoryRegionImpl → RegionInvalidateBody
notice_body m = record {
  region = m.id;
  generation = m.generation;
  has_origin = true;
  origin = m.origin;
}

unfoldable pub invalidate_notice : MemoryRegionImpl → List ℕ
invalidate_notice m = encode_region_invalidate (notice_body m)

-- A peer that this engine dialled: the place of its transport among the engine's, and what sending
-- it the notice answers.
pub record Dialled : Type 0 where
  pub connected : Bool
  pub provider : ℕ
  pub send_control : Status

-- The notices taken and refused by the transports that reach all their connections, `none` for one
-- that cannot, and the places of those; `at` is the place of the first.
unfoldable pub broadcast : ℕ → List (Option (ℕ × ℕ)) → ℕ × ℕ × List ℕ
broadcast at [] = (0, 0, [])
broadcast at (some (s, r) ∷ ps) =
    let (sent, refused, one_by_one) = broadcast (suc at) ps in (s + sent, r + refused, one_by_one)
broadcast at (none ∷ ps) =
    let (sent, refused, one_by_one) = broadcast (suc at) ps in (sent, refused, at ∷ one_by_one)

abbrev among : List ℕ → ℕ → Bool
among [] at = false
among (x ∷ xs) at = if x == at then true else among xs at

unfoldable pub one_by_one : List ℕ → List Dialled → ℕ × ℕ
one_by_one places [] = (0, 0)
one_by_one places (p ∷ ps) =
    let (sent, refused) = one_by_one places ps in
    if not p.connected || not (among places p.provider)
    then (sent, refused)
    else if is_ok p.send_control
    then (sent + 1, refused)
    else (sent, refused + 1)

-- What `region_invalidates_sent` and `region_invalidates_failed` grow by.
unfoldable pub tell_peers : List (Option (ℕ × ℕ)) → List Dialled → ℕ × ℕ
unfolding broadcast one_by_one
tell_peers providers peers =
    let (sent, refused, places) = broadcast 0 providers in
    let (more, fewer) = one_by_one places peers in (sent + more, refused + fewer)

-- An entry of `remotes_`: its key and the region imported.
pub record Remote : Type 0 where
  pub peer : ℕ
  pub region : ℕ
  pub import : RemoteRegionImpl

-- Whether a notice that came from `peer`, 0 for none, names the entry.
abbrev pub names : ℕ → RegionInvalidateBody → Remote → Bool
names peer b r =
    if b.has_origin
    then r.region == b.region && eq_identity r.import.descriptor.origin b.origin
    else not (peer == 0) && (r.peer == peer && r.region == b.region)

abbrev pub retired_by : ℕ → RegionInvalidateBody → Remote → Remote
retired_by peer b r =
    if names peer b r && r.import.descriptor.generation == b.generation
    then record r { import = invalidate r.import }
    else r

unfoldable pub on_region_invalidate : ℕ → List ℕ → List Remote → List Remote
on_region_invalidate peer payload rs = elim (decode_region_invalidate payload) [
  | err e ↦ rs
  | done b ↦ map (retired_by peer b) rs
]

-- What the notice of a handle is to do to an entry: stop it if it was imported from that handle.
abbrev pub taken_back : MemoryRegionImpl → Remote → Remote
taken_back m r =
    if r.region == m.id
      && (eq_identity r.import.descriptor.origin m.origin
          && r.import.descriptor.generation == m.generation)
    then record r { import = invalidate r.import }
    else r

taken_back-eq :
    (peer : ℕ) (m : MemoryRegionImpl) (r : Remote)
    → retired_by peer (notice_body m) r ≡ taken_back m r
taken_back-eq peer m r = ground arith

map-eq {ℓ} : {A : Type ℓ} (f g : A → A) (xs : List A) → ((x : A) → f x ≡ g x) → map f xs ≡ map g xs
map-eq f g xs h = rw (fun_ext h)

-- The notice of a handle taken back, over whichever connection it comes, invalidates exactly the
-- imports of that handle, by region, origin and generation, and leaves every other as it was. The
-- handle's numbers fit their fields.
pub on_region_invalidate-notice :
    (m : MemoryRegionImpl) (peer : ℕ) (rs : List Remote)
    → m.id < 2 ^ 64
    → m.generation < 2 ^ 32
    → IsIdentity m.origin
    → on_region_invalidate peer (invalidate_notice m) rs ≡ map (taken_back m) rs
unfolding on_region_invalidate invalidate_notice
on_region_invalidate-notice m peer rs id_fits generation_fits origin_fits =
    let e =
      ap decode_region_invalidate (sym (append-nil (encode_region_invalidate (notice_body m))))
      ∙ decode_region_invalidate-encode m.id m.generation true m.origin []
          (record {
            region_fits = id_fits;
            generation_fits = generation_fits;
            origin_fits = origin_fits;
          })
          (λ h. cc) in
    rw (e, on_region_invalidate) (map-eq _ _ rs (taken_back-eq peer m))
