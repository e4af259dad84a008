-- ===== src/Region/Tests.antt =====
-- Regions of src/core/region_impl.cpp on concrete values.
use hux.Base.{[], ◌∷◌, take, ◌≡◌, arith}
use hux.Types.{Status, done, err, DeviceId}
use hux.Control.Identity.{Identity, encode_identity}
use hux.Control.Bytes.{put_u16, put_u32, put_u64}
use hux.Region.Descriptor.{RegionDescriptor, encode_descriptor, decode_descriptor}
use hux.Region.RoundTrip.{IsDescriptor, received, decode_descriptor-encode}
use hux.Region.Truncated.{decode_descriptor-cut}
use hux.Region.Registration.{Registration, registration_covers}
use hux.Region.Covers.{serves, registration_covers-serves}

abbrev exporter : Identity
exporter = record { host = 99; process = 5; engine = 1 }

abbrev described_region : RegionDescriptor
described_region = record {
  major = 0;
  minor = 0;
  origin = exporter;
  region = 4;
  generation = 1;
  base = 4096;
  length = 8192;
  remote_key = 17;
  provider_keys = record { provider = 105 ∷ 112 ∷ 99 ∷ []; remote_key = 18 } ∷ [];
  device_kind = 1;
  device_index = 0;
  access = 15;
}

described_region-IsDescriptor : IsDescriptor described_region
described_region-IsDescriptor = record {
  origin_fits = record {
    host_fits = omega arith;
    process_fits = omega arith;
    engine_fits = omega arith;
  };
  region_fits = omega arith;
  generation_fits = omega arith;
  base_fits = omega arith;
  length_fits = omega arith;
  remote_key_fits = omega arith;
  kind_fits = omega arith;
  index_fits = omega arith;
  access_fits = omega arith;
  count_fits = omega arith;
  keys_fit = (record { name_fits = omega arith; key_fits = omega arith }, tt);
}

decode_descriptor-encode_example :
    decode_descriptor (encode_descriptor described_region)
    ≡ done (received described_region described_region.provider_keys)
decode_descriptor-encode_example =
    decode_descriptor-encode described_region described_region-IsDescriptor

decode_descriptor-cut_example :
    decode_descriptor (take 80 (encode_descriptor described_region)) ≡ err Status.invalid_argument
unfolding encode_descriptor encode_identity put_u16 put_u32 put_u64
decode_descriptor-cut_example =
    decode_descriptor-cut described_region 80 described_region-IsDescriptor (omega arith)

abbrev host : DeviceId
host = record { kind = 0; index = 0 }

abbrev pool : Registration
pool = record {
  base = 4096;
  length = 8192;
  device = host;
  access = 7;
  keys = [];
  local_key = 1;
  remote_key = 2;
}

registration_covers-Serves_example :
    registration_covers pool 6144 4096 host 5 ≡ serves pool 6144 4096 host 5
registration_covers-Serves_example =
    registration_covers-serves pool 6144 4096 host 5 (omega arith) (omega arith)
