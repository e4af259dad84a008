-- ===== src/Region/RoundTrip.antt =====
-- What `encode_descriptor` of src/core/region_impl.cpp writes, `decode_descriptor` reads back.
use hux.Base.{
  ℕ, suc, ◌+◌, ◌%◌, ◌^◌, ◌≤◌, ◌<◌, ◌==◌, ltb, true, false, List, [], ◌∷◌, ◌++◌, take, drop, length,
  take-append, drop-append, length-append, append_assoc, append-nil, All, ◌≡◌, refl, sym, ap, ◌∙◌,
  subst, arith,
}
use native.Mathlib.Nat.{mod-eq_of_lt}
use hux.Types.{Result, done}
use hux.Control.Bytes.{
  put_u16, put_u32, put_u64, get_u16, get_u64, get_u16-put_u16, get_u32-put_u32, get_u64-put_u64,
}
use hux.Control.Identity.{Identity, IsIdentity, encode_identity, decode_identity, identity_front}
use hux.Region.Descriptor.{
  ProviderKey, RegionDescriptor, descriptor_major, descriptor_minor, encode_keys, encode_descriptor,
  decode_keys, decode_key_list, decode_descriptor, fixed_part, with_keys,
}

pub record IsKey (k : ProviderKey) : Type 0 where
  pub name_fits : length k.provider < 2 ^ 16
  pub key_fits : k.remote_key < 2 ^ 64

-- A descriptor whose numbers fit their fields.
pub record IsDescriptor (d : RegionDescriptor) : Type 0 where
  pub origin_fits : IsIdentity d.origin
  pub region_fits : d.region < 2 ^ 64
  pub generation_fits : d.generation < 2 ^ 32
  pub base_fits : d.base < 2 ^ 64
  pub length_fits : d.length < 2 ^ 64
  pub remote_key_fits : d.remote_key < 2 ^ 64
  pub kind_fits : d.device_kind < 256
  pub index_fits : d.device_index < 2 ^ 32
  pub access_fits : d.access < 2 ^ 32
  pub count_fits : length d.provider_keys < 2 ^ 16
  pub keys_fit : All IsKey d.provider_keys

-- One turn of the loop that finds all it counts on.
abbrev pub after : ℕ → ℕ → List ℕ → List ProviderKey → Result (List ProviderKey)
after count n q keys =
    decode_keys count (drop 8 (drop n q))
      (keys ++ (record { provider = take n q; remote_key = get_u64 (drop n q) } ∷ []))

pub next_key :
    (count : ℕ) (p : List ℕ) (keys : List ProviderKey)
    → 2 ≤ length p
    → get_u16 p + 8 ≤ length (drop 2 p)
    → decode_keys (suc count) p keys ≡ after count (get_u16 p) (drop 2 p) keys
unfolding decode_keys
next_key count p keys long enough =
    let counted : ltb (length p) 2 ≡ false = ground arith in
    let whole : ltb (length (drop 2 p)) (get_u16 p + 8) ≡ false = ground arith in
    rw (counted, whole, decode_keys) refl

-- One key at the front of the rest is read whole.
decode_keys-step :
    (count r : ℕ) (name rest : List ℕ) (keys : List ProviderKey)
    → length name < 2 ^ 16
    → r < 2 ^ 64
    → decode_keys (suc count) (put_u16 (length name % 2 ^ 16) ++ (name ++ (put_u64 r ++ rest))) keys
      ≡ decode_keys count rest (keys ++ (record { provider = name; remote_key = r } ∷ []))
unfolding put_u16 put_u64
decode_keys-step count r name rest keys small fits =
    next_key count _ keys (omega arith)
      (subst (λ (t : ℕ). t + 8 ≤ length (name ++ (put_u64 r ++ rest))) (sym len) enough)
    ∙ ap (λ (t : ℕ). after count t (name ++ (put_u64 r ++ rest)) keys) len
    ∙ rw (drop-append name (put_u64 r ++ rest), take-append name (put_u64 r ++ rest))
        (ap
          (λ (t : ℕ).
            decode_keys count rest (keys ++ (record { provider = name; remote_key = t } ∷ [])))
          (get_u64-put_u64 r rest fits))
  where
    len : get_u16 (put_u16 (length name % 2 ^ 16) ++ (name ++ (put_u64 r ++ rest))) ≡ length name
    len = get_u16-put_u16 (length name % 2 ^ 16) _ (omega arith) ∙ mod-eq_of_lt small

    enough : length name + 8 ≤ length (name ++ (put_u64 r ++ rest))
    enough = omega (arith, length-append name (put_u64 r ++ rest))

pub decode_keys-encode :
    (ks keys : List ProviderKey)
    → All IsKey ks
    → decode_keys (length ks) (encode_keys ks) keys ≡ done (keys ++ ks)
unfolding decode_keys
decode_keys-encode [] keys h = ap done (sym (append-nil keys))
decode_keys-encode (k ∷ ks) keys (h, hs) =
    decode_keys-step (length ks) k.remote_key k.provider (encode_keys ks) keys h.name_fits
      h.key_fits
    ∙ decode_keys-encode ks (keys ++ (k ∷ [])) hs
    ∙ ap done (append_assoc keys (k ∷ []) ks)

-- The fixed part of `d`, and what follows it.
abbrev pub fixed_with : RegionDescriptor → List ℕ → List ℕ
fixed_with d rest =
    encode_identity d.origin (put_u16 descriptor_major ++ put_u16 descriptor_minor)
    ++ (put_u64 d.region
        ++ (put_u32 d.generation
            ++ (put_u64 d.base
                ++ (put_u64 d.length
                    ++ (put_u64 d.remote_key
                        ++ (d.device_kind % 256
                            ∷ (put_u32 d.device_index ++ (put_u32 d.access ++ rest))))))))

-- As a receiver numbers it, with the keys `ks`.
abbrev pub received : RegionDescriptor → List ProviderKey → RegionDescriptor
received d ks = record d { major = descriptor_major; minor = descriptor_minor; provider_keys = ks }

descriptor-eq :
    (d g : RegionDescriptor)
    → (g.major ≡ d.major) × (g.minor ≡ d.minor)
    → g.origin ≡ d.origin
    → (g.region ≡ d.region) × (g.generation ≡ d.generation)
    → (g.base ≡ d.base) × (g.length ≡ d.length)
    → g.remote_key ≡ d.remote_key
    → g.provider_keys ≡ d.provider_keys
    → (g.device_kind ≡ d.device_kind) × (g.device_index ≡ d.device_index)
    → g.access ≡ d.access
    → g ≡ d
descriptor-eq d g (a, b) o (r, n) (s, l) k ks (t, i) c = ground arith

identity-eq :
    (a b : Identity) → (b.host ≡ a.host) × (b.process ≡ a.process) × (b.engine ≡ a.engine) → b ≡ a
identity-eq a b (h, p, e) = ground arith

-- Past the checks, the origin is read and the keys are next.
decode_long :
    (buf : List ℕ)
    → 73 ≤ length buf
    → get_u16 buf ≡ descriptor_major
    → decode_descriptor buf
      ≡ decode_key_list
          (record (fixed_part buf) {
            origin = record {
              host = get_u64 (drop 4 buf);
              process = get_u64 (drop 8 (drop 4 buf));
              engine = get_u64 (drop 16 (drop 4 buf));
            };
          })
          (drop 73 buf)
unfolding decode_descriptor decode_identity
decode_long buf long major =
    let a : ltb (length buf) 73 ≡ false = ground arith in
    let b : ltb (length buf) (4 + 24) ≡ false = ground arith in
    let c : (get_u16 buf == descriptor_major) ≡ true = ground arith in
    rw (a, b, c, decode_descriptor) refl

-- A fixed part is read back whatever follows it.
pub decode_fixed :
    (d : RegionDescriptor) (rest : List ℕ)
    → IsDescriptor d
    → decode_descriptor (fixed_with d rest) ≡ decode_key_list (received d []) rest
unfolding encode_identity put_u16 put_u32 put_u64
decode_fixed d rest f =
    decode_long _ (omega arith) (get_u16-put_u16 descriptor_major _ (omega arith))
    ∙ ap (λ (g : RegionDescriptor). decode_key_list g rest)
        (descriptor-eq (received d []) _
          (
            get_u16-put_u16 descriptor_major _ (omega arith),
            get_u16-put_u16 descriptor_minor _ (omega arith),
          )
          (identity-eq d.origin _ (identity_front d.origin _ f.origin_fits))
          (
            get_u64-put_u64 d.region _ f.region_fits,
            get_u32-put_u32 d.generation _ f.generation_fits,
          )
          (get_u64-put_u64 d.base _ f.base_fits, get_u64-put_u64 d.length _ f.length_fits)
          (get_u64-put_u64 d.remote_key _ f.remote_key_fits) refl
          (mod-eq_of_lt f.kind_fits, get_u32-put_u32 d.device_index _ f.index_fits)
          (get_u32-put_u32 d.access rest f.access_fits))

-- The count and the keys after it.
abbrev pub counted_keys : List ProviderKey → List ℕ
counted_keys ks = put_u16 (length ks % 2 ^ 16) ++ encode_keys ks

pub decode_key_list-encode :
    (d : RegionDescriptor) (ks : List ProviderKey)
    → length ks < 2 ^ 16
    → All IsKey ks
    → decode_key_list d (counted_keys ks) ≡ done (record d { provider_keys = ks })
unfolding decode_key_list put_u16
decode_key_list-encode d ks small fit =
    let count : get_u16 (counted_keys ks) ≡ length ks =
      get_u16-put_u16 (length ks % 2 ^ 16) _ (omega arith) ∙ mod-eq_of_lt small in
    let long : ltb (length (counted_keys ks)) 2 ≡ false = ground arith in
    rw (long, decode_key_list)
      (ap (λ (t : ℕ). with_keys d (decode_keys t (encode_keys ks) [])) count
        ∙ ap (with_keys d) (decode_keys-encode ks [] fit))

-- What `decode_descriptor` reads of an encoded descriptor whose numbers fit their fields is the
-- descriptor, every provider's key included, under the exporter's format version.
pub decode_descriptor-encode :
    (d : RegionDescriptor)
    → IsDescriptor d
    → decode_descriptor (encode_descriptor d) ≡ done (received d d.provider_keys)
unfolding encode_descriptor
decode_descriptor-encode d f =
    decode_fixed d (counted_keys d.provider_keys) f
    ∙ decode_key_list-encode (received d []) d.provider_keys f.count_fits f.keys_fit
