-- ===== src/Rdma/Framing.antt =====
-- What the receiving end of the control channel of src/transport/rdma/rdma_provider.cpp makes of what
-- the sending end frames, however the bytes are cut on the way.
use hux.Base.{
  ℕ, zero, suc, ◌+◌, ◌≤◌, ◌<◌, ◌^◌, ltb, true, List, [], ◌∷◌, ◌++◌, take, drop, length, replicate,
  All, Bool-cases, inl, inr, ◌≡◌, refl, sym, ap, ◌∙◌, arith, append_assoc, length-append,
  take-append-drop, length-drop, drop-drop,
}
use hux.Types.{done}
use hux.Control.Bytes.{put_u16, put_u32, get_u16-put_u16, get_u32-put_u32}
use hux.Control.Message.{
  control_major, control_header_bytes, control_max_payload, encode_control_header,
  decode_control_header,
}
use hux.Control.RoundTrip.{header-eq}
use hux.Rdma.Control.{Message, header_of, frame, take_messages}

-- A message that can be sent.
abbrev pub IsMessage : Message → Type 0
IsMessage m = (m.type < 2 ^ 16) × (length m.payload ≤ control_max_payload)

-- The bytes of messages, one after the other.
unfoldable pub frames : List Message → List ℕ
frames [] = []
frames (m ∷ ms) = frame m ++ frames ms

pub no_frames : frames [] ≡ []
unfolding frames
no_frames = refl

abbrev header_bytes : Message → List ℕ
header_bytes m = encode_control_header (header_of m) (replicate 12 0)

length-header : (m : Message) → length (header_bytes m) ≡ 12
unfolding encode_control_header put_u16 put_u32
length-header m = refl

pub length-frame : (m : Message) → length (frame m) ≡ 12 + length m.payload
unfolding frame
length-frame m = omega (arith, length-append (header_bytes m) m.payload, length-header m)

pub length-frames :
    (m : Message) (ms : List Message) → 12 + length m.payload ≤ length (frames (m ∷ ms))
unfolding frames
length-frames m ms = omega (arith, length-append (frame m) (frames ms), length-frame m)

decode-header :
    (m : Message) (rest : List ℕ)
    → IsMessage m
    → decode_control_header (header_bytes m ++ rest) ≡ done (header_of m)
unfolding decode_control_header encode_control_header put_u16 put_u32
decode-header m rest fits =
    header-eq (header_of m) _ (get_u16-put_u16 control_major _ (omega arith))
      (get_u16-put_u16 _ _ (omega arith)) (get_u16-put_u16 m.type _ fits.0)
      (get_u16-put_u16 0 _ (omega arith))
      (get_u32-put_u32 (length m.payload) _ (omega (arith, fits.1)))
    ∙ ground (arith, fits.1)

-- Two splits of one list at the same place are one.
same_split :
    (xs ys zs ws : List ℕ) → xs ++ ys ≡ zs ++ ws → length xs ≡ length zs → (xs ≡ zs) × (ys ≡ ws)
same_split [] ys [] ws e h = (refl, e)
same_split [] ys (z ∷ zs) ws e h = absurd (omega arith)
same_split (x ∷ xs) ys [] ws e h = absurd (omega arith)
same_split (x ∷ xs) ys (z ∷ zs) ws e h =
    let r = same_split xs ys zs ws (ground (arith, e)) (omega arith) in
    (ground (arith, e, r.0), r.1)

length-take : (n : ℕ) (xs : List ℕ) → n ≤ length xs → length (take n xs) ≡ n
length-take zero xs h = refl
length-take (suc n) [] h = absurd (omega arith)
length-take (suc n) (x ∷ xs) h = ap suc (length-take n xs (omega arith))

-- The first `length front` bytes of `rx`, which with `rest` makes `front ++ back`.
front_of :
    (rx rest front back : List ℕ)
    → rx ++ rest ≡ front ++ back
    → length front ≤ length rx
    → (take (length front) rx ≡ front) × (drop (length front) rx ++ rest ≡ back)
front_of rx rest front back e h =
    same_split (take (length front) rx) (drop (length front) rx ++ rest) front back
      (sym (append_assoc (take (length front) rx) (drop (length front) rx) rest)
        ∙ ap (λ (l : List ℕ). l ++ rest) (take-append-drop (length front) rx)
        ∙ e)
      (length-take (length front) rx h)

-- `out` is the front of `ms`, and what is kept and what is still to come are the frames of the others.
pub record Parsed (rest : List ℕ) (ms out : List Message) (left : List ℕ) : Type 0 where
  pub count : ℕ
  pub front : out ≡ take count ms
  pub others : left ++ rest ≡ frames (drop count ms)

none_yet :
    (rest : List ℕ) (ms : List Message) (rx : List ℕ)
    → rx ++ rest ≡ frames ms
    → Parsed rest ms [] rx
none_yet rest ms rx e = record { count = 0; front = refl; others = e }

-- A whole message at the front of `rx`.
pub record Whole (m : Message) (ms : List Message) (rx rest : List ℕ) : Type 0 where
  pub header : decode_control_header rx ≡ done (header_of m)
  pub payload : take (length m.payload) (drop control_header_bytes rx) ≡ m.payload
  pub left : drop (control_header_bytes + length m.payload) rx ++ rest ≡ frames ms

header-known :
    (m : Message) (ms : List Message) (rx rest : List ℕ)
    → IsMessage m
    → rx ++ rest ≡ frames (m ∷ ms)
    → 12 ≤ length rx
    → (decode_control_header rx ≡ done (header_of m))
      × (drop 12 rx ++ rest ≡ m.payload ++ frames ms)
unfolding frames frame
header-known m ms rx rest fits e long =
    let size = length-header m in
    let cut =
      front_of rx rest (header_bytes m) (m.payload ++ frames ms)
        (e ∙ append_assoc (header_bytes m) m.payload (frames ms)) (omega (arith, size)) in
    let head : take 12 rx ≡ header_bytes m = ap (λ (n : ℕ). take n rx) (sym size) ∙ cut.0 in
    (
      ap decode_control_header
            (sym (take-append-drop 12 rx) ∙ ap (λ (l : List ℕ). l ++ drop 12 rx) head)
          ∙ decode-header m (drop 12 rx) fits,
      ap (λ (n : ℕ). drop n rx ++ rest) (sym size) ∙ cut.1,
    )

pub message-Whole :
    (m : Message) (ms : List Message) (rx rest : List ℕ)
    → IsMessage m
    → rx ++ rest ≡ frames (m ∷ ms)
    → 12 + length m.payload ≤ length rx
    → Whole m ms rx rest
message-Whole m ms rx rest fits e long =
    let known = header-known m ms rx rest fits e (omega arith) in
    let cut =
      front_of (drop 12 rx) rest m.payload (frames ms) known.1 (omega (arith, length-drop 12 rx)) in
    record {
      header = known.0;
      payload = cut.0;
      left = ap (λ (l : List ℕ). l ++ rest) (sym (drop-drop 12 (length m.payload) rx)) ∙ cut.1;
    }

pub take_messages-Parsed :
    (n : ℕ) (rx rest : List ℕ) (ms : List Message)
    → All IsMessage ms
    → rx ++ rest ≡ frames ms
    → Parsed rest ms (take_messages n rx).0 (take_messages n rx).1
unfolding take_messages
take_messages-Parsed zero rx rest ms fits e = none_yet rest ms rx e
take_messages-Parsed (suc n) rx rest [] fits e =
    let nothing : length rx ≡ 0 =
      ground (arith, length-append rx rest, ap (λ (l : List ℕ). length l) (e ∙ no_frames)) in
    let short : ltb (length rx) 12 ≡ true = ground (arith, nothing) in
    rw (short, take_messages) (none_yet rest [] rx e)
take_messages-Parsed (suc n) rx rest (m ∷ ms) (here, later) e =
    elim (Bool-cases (ltb (length rx) 12)) [
      | inl short ↦ rw (short, take_messages) (none_yet rest (m ∷ ms) rx e)
      | inr long ↦
          let known = header-known m ms rx rest here e (ground (arith, long)) in
          elim (Bool-cases (ltb (length rx) (12 + length m.payload))) [
            | inl part ↦ rw (long, known.0, part, take_messages) (none_yet rest (m ∷ ms) rx e)
            | inr enough ↦
                let w = message-Whole m ms rx rest here e (ground (arith, enough)) in
                let ih =
                  take_messages-Parsed n (drop (12 + length m.payload) rx) rest ms later w.left in
                rw (long, known.0, enough, take_messages)
                  (record {
                    count = suc ih.count;
                    front = ground (arith, w.payload, ih.front);
                    others = ih.others;
                  })
          ]
    ]
