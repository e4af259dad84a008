-- ===== src/Region/Truncated.antt =====
-- Descriptors cut short, and `decode_descriptor` of src/core/region_impl.cpp.
use hux.Base.{
  ℕ, zero, suc, ◌+◌, ◌-◌, ◌%◌, ◌^◌, ◌≤◌, ◌<◌, ◌==◌, ltb, if◌then◌else◌, Bool, true, false, List, [],
  ◌∷◌, ◌++◌, take, drop, length, drop-append, length-append, All, ◌≡◌, refl, sym, ap, ◌∙◌, subst,
  arith, Bool-cases, inl, inr,
}
use native.Mathlib.Nat.{mod-eq_of_lt}
use hux.Types.{Status, done, err}
use hux.Control.Bytes.{put_u16, put_u32, put_u64, get_u16, get_u64, get_u16-put_u16}
use hux.Control.Identity.{encode_identity}
use hux.Region.Descriptor.{
  ProviderKey, RegionDescriptor, encode_keys, encode_descriptor, decode_keys, decode_key_list,
  decode_descriptor, with_keys,
}
use hux.Region.RoundTrip.{
  IsKey, IsDescriptor, next_key, after, fixed_with, received, decode_fixed, counted_keys,
}

length-take_le : (m : ℕ) (xs : List ℕ) → length (take m xs) ≤ m
length-take_le zero xs = omega arith
length-take_le (suc m) [] = omega arith
length-take_le (suc m) (x ∷ xs) = omega (arith, length-take_le m xs)

take-none : (t : ℕ) (xs : List ℕ) → t ≡ 0 → take t xs ≡ []
take-none zero xs e = refl
take-none (suc t) xs e = absurd (omega arith)

take-nil : (t : ℕ) → take {A = ℕ} t [] ≡ []
take-nil zero = refl
take-nil (suc t) = refl

drop-take : (n m : ℕ) (xs : List ℕ) → drop n (take m xs) ≡ take (m - n) (drop n xs)
drop-take zero m xs = ap (λ (t : ℕ). take t xs) (omega arith)
drop-take (suc n) zero xs = sym (take-none (0 - suc n) (drop (suc n) xs) (omega arith))
drop-take (suc n) (suc m) [] = sym (take-nil (suc m - suc n))
drop-take (suc n) (suc m) (x ∷ xs) =
    drop-take n m xs ∙ ap (λ (t : ℕ). take t (drop n xs)) (omega arith)

take-append_long :
    (m : ℕ) (xs ys : List ℕ) → length xs ≤ m → take m (xs ++ ys) ≡ xs ++ take (m - length xs) ys
take-append_long m [] ys h = ap (λ (t : ℕ). take t ys) (omega arith)
take-append_long zero (x ∷ xs) ys h = absurd (omega arith)
take-append_long (suc m) (x ∷ xs) ys h =
    ap (◌∷◌ x)
      (take-append_long m xs ys (omega arith) ∙ ap (λ (t : ℕ). xs ++ take t ys) (omega arith))

-- Not enough left for a key.
short_key :
    (count : ℕ) (p : List ℕ) (keys : List ProviderKey)
    → 2 ≤ length p
    → length (drop 2 p) < get_u16 p + 8
    → decode_keys (suc count) p keys ≡ err Status.invalid_argument
unfolding decode_keys
short_key count p keys long few =
    let a : ltb (length p) 2 ≡ false = ground arith in
    let b : ltb (length (drop 2 p)) (get_u16 p + 8) ≡ true = ground arith in
    rw (a, b, decode_keys) refl

keys_cut :
    (ks keys : List ProviderKey) (m : ℕ)
    → All IsKey ks
    → m < length (encode_keys ks)
    → decode_keys (length ks) (take m (encode_keys ks)) keys ≡ err Status.invalid_argument
unfolding decode_keys put_u16 put_u64
keys_cut [] keys m h less = absurd (omega arith)
keys_cut (k ∷ ks) keys zero h less = refl
keys_cut (k ∷ ks) keys (suc zero) h less = refl
keys_cut (k ∷ ks) keys (suc (suc m)) (h, hs) less =
    elim (Bool-cases (ltb (length cut) (length name + 8))) [
      | inl few ↦
          short_key (length ks) p keys (omega arith)
            (subst (λ (t : ℕ). length cut < t + 8) (sym len) (ground arith))
      | inr enough ↦
          let whole : length name + 8 ≤ length cut = ground arith in
          next_key (length ks) p keys (omega arith)
            (subst (λ (t : ℕ). t + 8 ≤ length cut) (sym len) whole)
          ∙ ap (λ (t : ℕ). after (length ks) t cut keys) len
          ∙ ap
              (λ (l : List ℕ). decode_keys (length ks) l (
                keys
                ++ (record {
                  provider = take (length name) cut;
                  remote_key = get_u64 (drop (length name) cut);
                }
                    ∷ [])))
              rest
          ∙ keys_cut ks _ (m - length name - 8) hs (
              omega (
                arith,
                length-append name (put_u64 k.remote_key ++ encode_keys ks),
                length-take_le m tail,
              ))
    ]
  where
    name : List ℕ
    name = k.provider

    tail : List ℕ
    tail = name ++ (put_u64 k.remote_key ++ encode_keys ks)

    cut : List ℕ
    cut = take m tail

    p : List ℕ
    p = put_u16 (length name % 2 ^ 16) ++ cut

    len : get_u16 p ≡ length name
    len = get_u16-put_u16 (length name % 2 ^ 16) _ (omega arith) ∙ mod-eq_of_lt h.name_fits

    rest : drop 8 (drop (length name) cut) ≡ take (m - length name - 8) (encode_keys ks)
    rest =
        ap (λ (l : List ℕ). drop 8 l)
          (drop-take (length name) m tail
            ∙ ap (λ (l : List ℕ). take (m - length name) l)
                (drop-append name (put_u64 k.remote_key ++ encode_keys ks)))
        ∙ drop-take 8 (m - length name) (put_u64 k.remote_key ++ encode_keys ks)

fixed_cut :
    (d : RegionDescriptor) (rest : List ℕ) (n : ℕ)
    → n < 73
    → decode_descriptor (take n (fixed_with d rest)) ≡ err Status.invalid_argument
unfolding decode_descriptor
fixed_cut d rest n h =
    let short : ltb (length (take n (fixed_with d rest))) 73 ≡ true =
      ground (arith, length-take_le n (fixed_with d rest)) in
    rw (short, decode_descriptor) refl

take-plus : (a n : ℕ) (xs : List ℕ) → take (a + n) xs ≡ take a xs ++ take n (drop a xs)
take-plus zero n xs = ap (λ (t : ℕ). take t xs) (omega arith)
take-plus (suc a) n [] = take-nil (suc a + n) ∙ sym (take-nil n)
take-plus (suc a) n (x ∷ xs) =
    let next : suc a + n ≡ suc (a + n) = omega arith in
    ap (λ (t : ℕ). take t (x ∷ xs)) next ∙ ap (◌∷◌ x) (take-plus a n xs)

length-fixed_with :
    (d : RegionDescriptor) (rest : List ℕ) → length (fixed_with d rest) ≡ 73 + length rest
unfolding encode_identity put_u16 put_u32 put_u64
length-fixed_with d rest = omega arith

fixed_whole :
    (d : RegionDescriptor) (rest : List ℕ) (n : ℕ)
    → take (73 + n) (fixed_with d rest) ≡ fixed_with d (take n rest)
unfolding encode_identity put_u16 put_u32 put_u64
fixed_whole d rest n = take-plus 73 n (fixed_with d rest)

key_list_cut :
    (d : RegionDescriptor) (ks : List ProviderKey) (n : ℕ)
    → length ks < 2 ^ 16
    → All IsKey ks
    → n < length (counted_keys ks)
    → decode_key_list d (take n (counted_keys ks))
      ≡ (if n == 0 then done d else err Status.invalid_argument)
unfolding decode_key_list put_u16
key_list_cut d ks zero small fit h = refl
key_list_cut d ks (suc zero) small fit h = refl
key_list_cut d ks (suc (suc n)) small fit h =
    let p = put_u16 (length ks % 2 ^ 16) ++ take n (encode_keys ks) in
    let count : get_u16 p ≡ length ks =
      get_u16-put_u16 (length ks % 2 ^ 16) _ (omega arith) ∙ mod-eq_of_lt small in
    let long : ltb (length p) 2 ≡ false = ground arith in
    let more : (suc (suc n) == 0) ≡ false = ground arith in
    rw (long, more, decode_key_list)
      (ap (λ (t : ℕ). with_keys d (decode_keys t (take n (encode_keys ks)) [])) count
        ∙ ap (with_keys d) (keys_cut ks [] n fit (omega arith)))

-- An encoded descriptor, its numbers fitting their fields, cut short anywhere is refused with
-- kInvalidArgument, but for one place: cut just after its fixed part, it is read as a descriptor
-- without a key for any provider.
pub decode_descriptor-cut :
    (d : RegionDescriptor) (n : ℕ)
    → IsDescriptor d
    → n < length (encode_descriptor d)
    → decode_descriptor (take n (encode_descriptor d))
      ≡ (if n == 73 then done (received d []) else err Status.invalid_argument)
unfolding encode_descriptor
decode_descriptor-cut d n f h = elim (Bool-cases (ltb n 73)) [
  | inl short ↦
      let other : (n == 73) ≡ false = ground arith in
      rw other (fixed_cut d (counted_keys d.provider_keys) n (ground arith))
  | inr long ↦
      subst
        (λ (t : ℕ).
          decode_descriptor (take t (fixed_with d keys))
          ≡ (if t == 73 then done (received d []) else err Status.invalid_argument))
        (split (ground arith)) (cut_at (n - 73) (omega (arith, length-fixed, split (ground arith))))
]
  where
    keys : List ℕ
    keys = counted_keys d.provider_keys

    split : 73 ≤ n → 73 + (n - 73) ≡ n
    split k = omega arith

    length-fixed : length (fixed_with d keys) ≡ 73 + length keys
    length-fixed = length-fixed_with d keys

    same_test : (k : ℕ) → (73 + k == 73) ≡ (k == 0)
    same_test k = ground arith

    cut_at :
        (k : ℕ)
        → k < length keys
        → decode_descriptor (take (73 + k) (fixed_with d keys))
          ≡ (if 73 + k == 73 then done (received d []) else err Status.invalid_argument)
    cut_at k less =
        ap decode_descriptor (fixed_whole d keys k)
        ∙ decode_fixed d (take k keys) f
        ∙ key_list_cut (received d []) d.provider_keys k f.count_fits f.keys_fit less
        ∙ ap (λ (t : Bool). if t then done (received d []) else err Status.invalid_argument)
            (sym (same_test k))
