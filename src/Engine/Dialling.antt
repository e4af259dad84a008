-- ===== src/Engine/Dialling.antt =====
-- What `local_metadata` of src/core/engine_impl.cpp writes, `add_peer` reads back.
use hux.Base.{
  ℕ, suc, ◌+◌, ◌/◌, ◌%◌, ◌^◌, ◌≤◌, ◌<◌, ◌==◌, ltb, true, false, List, [], ◌∷◌, ◌++◌, take, drop,
  length, length-append, take-append, drop-append, append-nil, append_assoc, All, ◌≡◌, refl, sym,
  ap, ◌∙◌, arith,
}
use native.Mathlib.Nat.{mod-eq_of_lt}
use hux.Types.{Result, done}
use hux.Control.Bytes.{put_u16, put_u64, get_u16, get_u64, get_u16-put_u16}
use hux.Control.Identity.{
  Identity, IsIdentity, identity_bytes, encode_identity, decode_identity, identity_front,
}
use hux.Engine.Metadata.{
  metadata_magic, metadata_major, metadata_minor, Offer, encode_offers, local_metadata,
  parse_offers, envelope, is_envelope, with_offers, read_metadata,
}

pub record IsOffer (o : Offer) : Type 0 where
  pub name_fits : length o.name < 2 ^ 16
  pub meta_fits : length o.meta < 2 ^ 16

abbrev after : ℕ → ℕ → ℕ → List ℕ → List Offer → Result (List Offer)
after count n mlen q parsed =
    let m = drop 2 (drop n q) in
    parse_offers count (drop mlen m)
      (parsed ++ (record { name = take n q; meta = take mlen m } ∷ []))

-- One turn of the loop that finds all it counts on.
next_offer :
    (count : ℕ) (p : List ℕ) (parsed : List Offer)
    → 2 ≤ length p
    → get_u16 p + 2 ≤ length (drop 2 p)
    → get_u16 (drop (get_u16 p) (drop 2 p)) ≤ length (drop 2 (drop (get_u16 p) (drop 2 p)))
    → parse_offers (suc count) p parsed
      ≡ after count (get_u16 p) (get_u16 (drop (get_u16 p) (drop 2 p))) (drop 2 p) parsed
unfolding parse_offers
next_offer count p parsed long enough whole =
    let a : ltb (length p) 2 ≡ false = ground arith in
    let b : ltb (length (drop 2 p)) (get_u16 p + 2) ≡ false = ground arith in
    let c : ltb (length (drop 2 (drop (get_u16 p) (drop 2 p))))
          (get_u16 (drop (get_u16 p) (drop 2 p)))
        ≡ false =
      ground arith in
    rw (a, b, c, parse_offers) refl

-- The same with the two counts known.
next_counted :
    (count n mlen : ℕ) (p q m : List ℕ) (parsed : List Offer)
    → 2 ≤ length p
    → get_u16 p ≡ n
    → drop 2 p ≡ q
    → n + 2 ≤ length q
    → get_u16 (drop n q) ≡ mlen
    → drop 2 (drop n q) ≡ m
    → mlen ≤ length m
    → parse_offers (suc count) p parsed
      ≡ parse_offers count
          (drop mlen m)
          (parsed ++ (record { name = take n q; meta = take mlen m } ∷ []))
next_counted count n mlen p q m parsed long en eq enough em er whole =
    rw (← er, ← em, ← eq, ← en)
      (next_offer count p parsed long (rw (en, eq) enough) (rw (en, eq, em, er) whole))

-- One offer at the front of the rest is read whole.
parse_offers-step :
    (count : ℕ) (name meta rest : List ℕ) (parsed : List Offer)
    → length name < 2 ^ 16
    → length meta < 2 ^ 16
    → parse_offers
        (suc count)
        (put_u16 (length name % 2 ^ 16)
          ++ (name ++ (put_u16 (length meta % 2 ^ 16) ++ (meta ++ rest))))
        parsed
      ≡ parse_offers count rest (parsed ++ (record { name = name; meta = meta } ∷ []))
unfolding put_u16
parse_offers-step count name meta rest parsed small less =
    next_counted count (length name) (length meta) _ (name ++ tail) (meta ++ rest) parsed
      (omega arith) (get_u16-put_u16 (length name % 2 ^ 16) _ (omega arith) ∙ mod-eq_of_lt small)
      refl (omega (arith, length-append name tail))
      (ap (λ (l : List ℕ). get_u16 l) (drop-append name tail)
        ∙ get_u16-put_u16 (length meta % 2 ^ 16) _ (omega arith)
        ∙ mod-eq_of_lt less)
      (ap (λ (l : List ℕ). drop 2 l) (drop-append name tail))
      (omega (arith, length-append meta rest))
    ∙ rw (drop-append meta rest, take-append meta rest, take-append name tail) refl
  where
    tail : List ℕ
    tail = put_u16 (length meta % 2 ^ 16) ++ (meta ++ rest)

parse_offers-encode :
    (os parsed : List Offer)
    → All IsOffer os
    → parse_offers (length os) (encode_offers os) parsed ≡ done (parsed ++ os)
unfolding parse_offers
parse_offers-encode [] parsed h = ap done (sym (append-nil parsed))
parse_offers-encode (o ∷ os) parsed (h, hs) =
    parse_offers-step (length os) o.name o.meta (encode_offers os) parsed h.name_fits h.meta_fits
    ∙ parse_offers-encode os (parsed ++ (o ∷ [])) hs
    ∙ ap done (append_assoc parsed (o ∷ []) os)

abbrev layout : Identity → List Offer → List ℕ
layout id metas =
    encode_identity id []
    ++ (put_u16 (metadata_magic % 2 ^ 16)
        ++ (put_u16 (metadata_magic / 2 ^ 16 % 2 ^ 16)
            ++ (put_u16 metadata_major
                ++ (put_u16 metadata_minor
                    ++ (put_u16 (length metas % 2 ^ 16) ++ encode_offers metas)))))

identity-eq :
    (a b : Identity) → (b.host ≡ a.host) × (b.process ≡ a.process) × (b.engine ≡ a.engine) → b ≡ a
identity-eq a b (h, p, e) = ground arith

decode_whole :
    (bytes : List ℕ)
    → 24 ≤ length bytes
    → decode_identity bytes 0
      ≡ done (record {
        host = get_u64 bytes;
        process = get_u64 (drop 8 bytes);
        engine = get_u64 (drop 16 bytes);
      })
unfolding decode_identity
decode_whole bytes long =
    let a : ltb (length bytes) (0 + identity_bytes) ≡ false = ground arith in
    rw (a, decode_identity) refl

decode_layout :
    (id : Identity) (metas : List Offer)
    → IsIdentity id
    → decode_identity (layout id metas) 0 ≡ done id
unfolding encode_identity put_u16 put_u64
decode_layout id metas f =
    decode_whole (layout id metas) (omega arith)
    ∙ ap done (identity-eq id _ (identity_front id _ f))

is_envelope-layout : (id : Identity) (metas : List Offer) → is_envelope (layout id metas) ≡ true
unfolding is_envelope encode_identity put_u16 put_u64
is_envelope-layout id metas =
    let long : ltb (length (layout id metas)) (identity_bytes + 8) ≡ false = ground arith in
    let low : get_u16 (drop 24 (layout id metas)) ≡ metadata_magic % 2 ^ 16 =
      get_u16-put_u16 _ _ (omega arith) in
    let high : get_u16 (drop 26 (layout id metas)) ≡ metadata_magic / 2 ^ 16 % 2 ^ 16 =
      get_u16-put_u16 _ _ (omega arith) in
    rw (long, low, high, is_envelope) refl

read_metadata-layout :
    (id : Identity) (metas : List Offer)
    → IsIdentity id
    → length metas < 2 ^ 16
    → All IsOffer metas
    → read_metadata (layout id metas) ≡ done (envelope id metas)
unfolding read_metadata encode_identity put_u16 put_u64
read_metadata-layout id metas f small fit =
    let major : (get_u16 (drop 28 (layout id metas)) == metadata_major) ≡ true =
      ap (λ (t : ℕ). t == metadata_major) (get_u16-put_u16 metadata_major _ (omega arith)) in
    let long : ltb (length (layout id metas)) 34 ≡ false = ground arith in
    let count : get_u16 (drop 32 (layout id metas)) ≡ length metas =
      get_u16-put_u16 (length metas % 2 ^ 16) _ (omega arith) ∙ mod-eq_of_lt small in
    rw (is_envelope-layout id metas, major, decode_layout id metas f, long, read_metadata)
      (ap (λ (t : ℕ). with_offers id (parse_offers t (encode_offers metas) [])) count
        ∙ ap (with_offers id) (parse_offers-encode metas [] fit))

-- An engine that some transport can reach describes itself so that `add_peer` reads back its
-- identity and every transport's name and dialling information, in order. There are fewer than 2^16
-- transports, each name and each blob is shorter than that, and the identity fits its fields.
pub read_metadata-local :
    (id : Identity) (metas : List Offer)
    → IsIdentity id
    → 0 < length metas
    → length metas < 2 ^ 16
    → All IsOffer metas
    → (blob : List ℕ) × ((local_metadata id metas ≡ done blob)
        × (read_metadata blob ≡ done (envelope id metas)))
unfolding local_metadata
read_metadata-local id metas f some_metas small fit =
    let there : (length metas == 0) ≡ false = ground arith in
    (layout id metas, (rw (there, local_metadata) refl, read_metadata-layout id metas f small fit))
