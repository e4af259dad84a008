-- ===== src/Engine/Metadata.antt =====
-- `EngineImpl::local_metadata` and the reading half of `EngineImpl::add_peer` in
-- src/core/engine_impl.cpp: the envelope in which an engine names the transports it can be
-- reached over.
use hux.Base.{
  ℕ, zero, suc, ◌+◌, ◌*◌, ◌/◌, ◌%◌, ◌^◌, ◌==◌, ltb, if◌then◌else◌, Bool, true, false, ◌&&◌, not,
  bit_or, List, [], ◌∷◌, ◌++◌, take, drop, length,
}
use hux.Types.{Status, Result, done, err}
use hux.Control.Bytes.{put_u16, get_u16}
use hux.Control.Identity.{Identity, identity_bytes, encode_identity, decode_identity}

-- `Engine::kMetadataMagic`, "!HUX".
abbrev pub metadata_magic : ℕ
metadata_magic = 1_481_984_033

abbrev pub metadata_major : ℕ
metadata_major = 1

abbrev pub metadata_minor : ℕ
metadata_minor = 0

-- A transport's name, and what it needs to be dialled.
pub record Offer : Type 0 where
  pub name : List ℕ
  pub meta : List ℕ

abbrev pub encode_offers : List Offer → List ℕ
encode_offers [] = []
encode_offers (o ∷ os) =
    put_u16 (length o.name % 2 ^ 16)
    ++ (o.name ++ (put_u16 (length o.meta % 2 ^ 16) ++ (o.meta ++ encode_offers os)))

-- `metas` are the transports that have something to say.
unfoldable pub local_metadata : Identity → List Offer → Result (List ℕ)
local_metadata id metas =
    if length metas == 0
    then err Status.internal
    else done (
        encode_identity id []
        ++ (put_u16 (metadata_magic % 2 ^ 16)
            ++ (put_u16 (metadata_magic / 2 ^ 16 % 2 ^ 16)
                ++ (put_u16 metadata_major
                    ++ (put_u16 metadata_minor
                        ++ (put_u16 (length metas % 2 ^ 16) ++ encode_offers metas))))))

-- The loop over the offers, from `p` on; nothing may follow the last.
unfoldable pub parse_offers : ℕ → List ℕ → List Offer → Result (List Offer)
parse_offers zero p parsed = if length p == 0 then done parsed else err Status.invalid_argument
parse_offers (suc count) p parsed =
    let n = get_u16 p in
    let q = drop 2 p in
    let mlen = get_u16 (drop n q) in
    let m = drop 2 (drop n q) in
    elim (ltb (length p) 2) [
      | true ↦ err Status.invalid_argument
      | false ↦ elim (ltb (length q) (n + 2)) [
        | true ↦ err Status.invalid_argument
        | false ↦ elim (ltb (length m) mlen) [
          | true ↦ err Status.invalid_argument
          | false ↦
              let o : Offer = record { name = take n q; meta = take mlen m } in
              parse_offers count (drop mlen m) (parsed ++ (o ∷ []))
        ]
      ]
    ]

-- What `add_peer` makes of a blob: one transport's dialling information, or an engine's metadata.
pub data Metadata : Type 0 where
  provider_blob : List ℕ → Metadata
  envelope : Identity → List Offer → Metadata

unfoldable pub is_envelope : List ℕ → Bool
is_envelope metadata =
    not (ltb (length metadata) (identity_bytes + 8))
    && bit_or (get_u16 (drop 24 metadata)) (get_u16 (drop 26 metadata) * 2 ^ 16) == metadata_magic

abbrev pub with_offers : Identity → Result (List Offer) → Result Metadata
with_offers id (done offers) = done (envelope id offers)
with_offers id (err s) = err Status.invalid_argument

-- An envelope is read whole or refused.
unfoldable pub read_metadata : List ℕ → Result Metadata
read_metadata metadata =
    let p = drop 32 metadata in
    if not (is_envelope metadata)
    then done (provider_blob metadata)
    else if not (get_u16 (drop 28 metadata) == metadata_major)
    then err Status.unsupported
    else elim (decode_identity metadata 0) [
      | err s ↦ done (provider_blob metadata)
      | done id ↦
          if ltb (length metadata) 34
          then err Status.invalid_argument
          else with_offers id (parse_offers (get_u16 p) (drop 2 p) [])
    ]
