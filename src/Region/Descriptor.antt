-- ===== src/Region/Descriptor.antt =====
-- `RegionDescriptor` of src/core/region_impl.h, `encode_descriptor` and `decode_descriptor` of
-- src/core/region_impl.cpp. The readers and writers are those of Control.Bytes, which the source
-- repeats here.
use hux.Base.{
  ℕ, zero, suc, ◌+◌, ◌%◌, ◌^◌, ◌==◌, ltb, if◌then◌else◌, true, false, not, List, [], ◌∷◌, ◌++◌,
  take, drop, length, get_or,
}
use hux.Types.{Status, Result, done, err}
use hux.Control.Bytes.{put_u16, put_u32, put_u64, get_u16, get_u32, get_u64}
use hux.Control.Identity.{Identity, encode_identity, decode_identity}
use hux.Control.Message.{no_identity}

-- A provider's name as its bytes.
pub record ProviderKey : Type 0 where
  pub provider : List ℕ
  pub remote_key : ℕ

-- `device_index` is the bit pattern of the int32_t, `access` the bits of the AccessFlags.
pub record RegionDescriptor : Type 0 where
  pub major : ℕ
  pub minor : ℕ
  pub origin : Identity
  pub region : ℕ
  pub generation : ℕ
  pub base : ℕ
  pub length : ℕ
  pub remote_key : ℕ
  pub provider_keys : List ProviderKey
  pub device_kind : ℕ
  pub device_index : ℕ
  pub access : ℕ

abbrev pub descriptor_major : ℕ
descriptor_major = 2

abbrev pub descriptor_minor : ℕ
descriptor_minor = 0

abbrev pub descriptor_bytes : ℕ
descriptor_bytes = 73

abbrev pub encode_keys : List ProviderKey → List ℕ
encode_keys [] = []
encode_keys (k ∷ ks) =
    put_u16 (length k.provider % 2 ^ 16) ++ (k.provider ++ (put_u64 k.remote_key ++ encode_keys ks))

unfoldable pub encode_descriptor : RegionDescriptor → List ℕ
encode_descriptor d =
    encode_identity d.origin (put_u16 descriptor_major ++ put_u16 descriptor_minor)
    ++ (put_u64 d.region
        ++ (put_u32 d.generation
            ++ (put_u64 d.base
                ++ (put_u64 d.length
                    ++ (put_u64 d.remote_key
                        ++ (d.device_kind % 256
                            ∷ (put_u32 d.device_index
                                ++ (put_u32 d.access
                                    ++ (put_u16 (length d.provider_keys % 2 ^ 16)
                                        ++ encode_keys d.provider_keys)))))))))

-- The loop over the keys, from `p` on; nothing may follow the last.
unfoldable pub decode_keys : ℕ → List ℕ → List ProviderKey → Result (List ProviderKey)
decode_keys zero p keys = if length p == 0 then done keys else err Status.invalid_argument
decode_keys (suc count) p keys =
    let n = get_u16 p in
    let q = drop 2 p in
    elim (ltb (length p) 2) [
      | true ↦ err Status.invalid_argument
      | false ↦ elim (ltb (length q) (n + 8)) [
        | true ↦ err Status.invalid_argument
        | false ↦
            let k : ProviderKey = record { provider = take n q; remote_key = get_u64 (drop n q) } in
            decode_keys count (drop 8 (drop n q)) (keys ++ (k ∷ []))
      ]
    ]

abbrev pub with_keys : RegionDescriptor → Result (List ProviderKey) → Result RegionDescriptor
with_keys d (done keys) = done (record d { provider_keys = keys })
with_keys d (err s) = err s

-- What follows the fixed part: nothing at all, or the counted keys.
unfoldable pub decode_key_list : RegionDescriptor → List ℕ → Result RegionDescriptor
decode_key_list d p =
    if ltb (length p) 2
    then if length p == 0 then done d else err Status.invalid_argument
    else with_keys d (decode_keys (get_u16 p) (drop 2 p) [])

abbrev with_origin : RegionDescriptor → List ℕ → Result Identity → Result RegionDescriptor
with_origin d p (done id) = decode_key_list (record d { origin = id }) p
with_origin d p (err s) = err Status.invalid_argument

-- The fixed part, all but the origin.
abbrev pub fixed_part : List ℕ → RegionDescriptor
fixed_part buf = record {
  major = get_u16 buf;
  minor = get_u16 (drop 2 buf);
  origin = no_identity;
  region = get_u64 (drop 28 buf);
  generation = get_u32 (drop 36 buf);
  base = get_u64 (drop 40 buf);
  length = get_u64 (drop 48 buf);
  remote_key = get_u64 (drop 56 buf);
  provider_keys = [];
  device_kind = get_or (drop 64 buf) 0 0;
  device_index = get_u32 (drop 65 buf);
  access = get_u32 (drop 69 buf);
}

unfoldable pub decode_descriptor : List ℕ → Result RegionDescriptor
decode_descriptor buf =
    if ltb (length buf) descriptor_bytes
    then err Status.invalid_argument
    else if not (get_u16 buf == descriptor_major)
    then err Status.unsupported
    else with_origin (fixed_part buf) (drop descriptor_bytes buf) (decode_identity buf 4)
