-- ===== src/Control/RoundTrip.antt =====
-- What the encoders of src/control/control_message.cpp write, its decoders read back.
use hux.Base.{
  ℕ, ◌^◌, ◌≤◌, ◌<◌, ◌==◌, ltb, if◌then◌else◌, Bool, true, false, not, List, [], ◌∷◌, ◌++◌, drop,
  length, ◌≡◌, ◌≢◌, refl, ◌∙◌, arith,
}
use hux.Types.{Status, Result, done, err}
use hux.Control.Bytes.{
  put_u16, put_u32, put_u64, get_u32, get_u64, get_u16-put_u16, get_u32-put_u32, get_u64-put_u64,
}
use hux.Control.Identity.{Identity, IsIdentity, encode_identity, decode_identity, identity_front}
use hux.Control.Message.{
  ControlHeader, control_major, control_max_payload, encode_control_header, decode_control_header,
  encode_u64, decode_u64, RegionInvalidateBody, no_identity, encode_region_invalidate,
  decode_region_invalidate, ReadyHandoffBody, encode_ready_handoff, decode_ready_handoff,
}

-- A header whose numbers fit their fields.
pub record IsHeader (h : ControlHeader) : Type 0 where
  pub major_fits : h.major < 2 ^ 16
  pub minor_fits : h.minor < 2 ^ 16
  pub type_fits : h.type < 2 ^ 16
  pub flags_fit : h.flags < 2 ^ 16
  pub payload_len_fits : h.payload_len < 2 ^ 32

abbrev pub header_layout : ControlHeader → List ℕ
header_layout h =
    put_u16 h.major
    ++ (put_u16 h.minor ++ (put_u16 h.type ++ (put_u16 h.flags ++ (put_u32 h.payload_len ++ []))))

pub encode_control_header-layout :
    (h : ControlHeader) (out : List ℕ)
    → length out ≡ 12
    → encode_control_header h out ≡ header_layout h
unfolding encode_control_header put_u16 put_u32
encode_control_header-layout h (a ∷ b ∷ c ∷ d ∷ e ∷ f ∷ g ∷ i ∷ j ∷ k ∷ l ∷ m ∷ []) n = refl
encode_control_header-layout h _ n = absurd (omega arith)

abbrev pub accept_header : ControlHeader → Result ControlHeader
accept_header h =
    if not (h.major == control_major)
    then err Status.unsupported
    else if ltb control_max_payload h.payload_len
    then err Status.invalid_argument
    else done h

pub header-eq :
    (h g : ControlHeader)
    → g.major ≡ h.major
    → g.minor ≡ h.minor
    → g.type ≡ h.type
    → g.flags ≡ h.flags
    → g.payload_len ≡ h.payload_len
    → accept_header g ≡ accept_header h
header-eq h g p q r s t = ground arith

-- A header whose numbers fit their fields, written to 12 bytes, is read back as it was if its major
-- version is this one and its payload within the limit, and refused as unsupported or as invalid
-- otherwise.
decode_control_header-encode :
    (h : ControlHeader) (out : List ℕ)
    → IsHeader h
    → length out ≡ 12
    → decode_control_header (encode_control_header h out) ≡ accept_header h
unfolding decode_control_header put_u16
decode_control_header-encode h out f n = rw (encode_control_header-layout h out n) (
    header-eq h _ (get_u16-put_u16 h.major _ f.major_fits) (get_u16-put_u16 h.minor _ f.minor_fits)
      (get_u16-put_u16 h.type _ f.type_fits) (get_u16-put_u16 h.flags _ f.flags_fit)
      (get_u32-put_u32 h.payload_len _ f.payload_len_fits))

-- A notification's id survives the trip, whatever follows it.
pub decode_u64-encode :
    (v : ℕ) (rest : List ℕ) → v < 2 ^ 64 → decode_u64 (encode_u64 v ++ rest) ≡ done v
unfolding decode_u64 encode_u64 put_u64
decode_u64-encode v rest h = ground (arith, get_u64-put_u64 v rest h)

-- A handoff whose numbers fit their fields.
pub record IsHandoff (b : ReadyHandoffBody) : Type 0 where
  pub request_fits : b.request < 2 ^ 64
  pub region_fits : b.region < 2 ^ 64
  pub generation_fits : b.generation < 2 ^ 32
  pub offset_fits : b.offset < 2 ^ 64
  pub length_fits : b.length < 2 ^ 64

handoff-eq :
    (b g : ReadyHandoffBody)
    → g.request ≡ b.request
    → g.region ≡ b.region
    → g.generation ≡ b.generation
    → g.offset ≡ b.offset
    → g.length ≡ b.length
    → done g ≡ done b
handoff-eq b g p q r s t = ground arith

-- A handoff whose numbers fit their fields is read back as it was written.
pub decode_ready_handoff-encode :
    (b : ReadyHandoffBody) → IsHandoff b → decode_ready_handoff (encode_ready_handoff b) ≡ done b
unfolding decode_ready_handoff encode_ready_handoff put_u64 put_u32
decode_ready_handoff-encode b f =
    handoff-eq b _ (get_u64-put_u64 b.request _ f.request_fits)
      (get_u64-put_u64 b.region _ f.region_fits) (get_u32-put_u32 b.generation _ f.generation_fits)
      (get_u64-put_u64 b.offset _ f.offset_fits) (get_u64-put_u64 b.length _ f.length_fits)

-- An invalidation whose numbers fit their fields.
pub record IsInvalidate (b : RegionInvalidateBody) : Type 0 where
  pub region_fits : b.region < 2 ^ 64
  pub generation_fits : b.generation < 2 ^ 32
  pub origin_fits : IsIdentity b.origin

invalidate-eq :
    (b g : RegionInvalidateBody)
    → g.region ≡ b.region
    → g.generation ≡ b.generation
    → g.has_origin ≡ b.has_origin
    → g.origin.host ≡ b.origin.host
    → g.origin.process ≡ b.origin.process
    → g.origin.engine ≡ b.origin.engine
    → done g ≡ done b
invalidate-eq b g p q r s t u = ground arith

-- Each form, on any bytes of its length.
decode_long :
    (bytes : List ℕ)
    → 36 ≤ length bytes
    → decode_region_invalidate bytes
      ≡ done (record {
        region = get_u64 bytes;
        generation = get_u32 (drop 8 bytes);
        has_origin = true;
        origin = record {
          host = get_u64 (drop 12 bytes);
          process = get_u64 (drop 8 (drop 12 bytes));
          engine = get_u64 (drop 16 (drop 12 bytes));
        };
      })
unfolding decode_region_invalidate decode_identity
decode_long bytes h = ground arith

decode_short :
    (bytes : List ℕ)
    → length bytes ≡ 12
    → decode_region_invalidate bytes
      ≡ done (record {
        region = get_u64 bytes;
        generation = get_u32 (drop 8 bytes);
        has_origin = false;
        origin = no_identity;
      })
unfolding decode_region_invalidate
decode_short bytes h = ground arith

decode_between :
    (bytes : List ℕ)
    → length bytes ≢ 12
    → length bytes < 36
    → decode_region_invalidate bytes ≡ err Status.invalid_argument
unfolding decode_region_invalidate
decode_between bytes h k = ground arith

abbrev body : ℕ → ℕ → Bool → Identity → RegionInvalidateBody
body region generation has_origin origin = record {
  region = region;
  generation = generation;
  has_origin = has_origin;
  origin = origin;
}

-- What a receiver reads of an invalidation whose numbers fit their fields, and of the bytes `rest`
-- after it: with an origin, all of it, whatever follows; without one, and with fewer than 24 bytes
-- following, all but the origin when nothing follows, and otherwise a refusal.
pub decode_region_invalidate-encode :
    (region generation : ℕ) (has_origin : Bool) (origin : Identity) (rest : List ℕ)
    → IsInvalidate (body region generation has_origin origin)
    → (has_origin ≡ false → length rest < 24)
    → decode_region_invalidate
        (encode_region_invalidate (body region generation has_origin origin) ++ rest)
      ≡ (if has_origin
          then done (body region generation true origin)
          else if length rest == 0
          then done (body region generation false no_identity)
          else err Status.invalid_argument)
unfolding encode_region_invalidate encode_identity put_u64 put_u32
decode_region_invalidate-encode region generation true origin rest f k =
    let o = identity_front origin rest f.origin_fits in
    decode_long _ (omega arith)
    ∙ invalidate-eq (body region generation true origin) _ (get_u64-put_u64 region _ f.region_fits)
        (get_u32-put_u32 generation _ f.generation_fits) refl o.0 o.1 o.2
decode_region_invalidate-encode region generation false origin [] f k =
    decode_short _ (omega arith)
    ∙ invalidate-eq (body region generation false no_identity) _
        (get_u64-put_u64 region _ f.region_fits) (get_u32-put_u32 generation _ f.generation_fits)
        refl refl refl refl
decode_region_invalidate-encode region generation false origin (b ∷ rest) f k =
    decode_between _ (omega arith) (omega (arith, k refl)) ∙ ground arith
