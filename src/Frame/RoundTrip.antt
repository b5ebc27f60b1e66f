-- ===== src/Frame/RoundTrip.antt =====
-- The bytes of a frame, and what pkg/tunnel/frame.go reads in them.
use shadow_gre.Prelude.{
  ℕ, ◌+◌, ◌%◌, ◌^◌, ◌≤◌, ◌<◌, ◌≡◌, refl, ap, ◌⊎◌, inl, inr, List, [], ◌∷◌, ◌++◌, append-nil, arith,
  length, take, drop, length-append, length-take, length-drop, drop-append, take_all, leb, leb→le,
  le→leb, Bool-cases, frame_too_short, ok, err, ◌>>=◌,
}
use shadow_gre.Wire.{IsU32, be16, be32, make}
use shadow_gre.Wire.Writes.{put-append, copy-append, length-make, drop-make}
use shadow_gre.Prelude.{take-append_le}
use shadow_gre.Wire.Reads.{
  get_u8-append, get_u16-append, get_u32-append, get_u8_total, get_u16_total, get_u32_total,
}
use shadow_gre.Frame.{Frame, min_frame_size, marshal, unmarshal_frame}

-- The frame header: type, connection, sequence number and length.
abbrev head : Frame → List ℕ
head f = (f.type ∷ []) ++ (be32 f.conn_id ++ (be32 f.sequence ++ be16 (length f.payload % 2 ^ 16)))

pub encode : Frame → List ℕ
encode f = head f ++ f.payload

pub marshal-encode : (f : Frame) → marshal f ≡ ok (encode f)
unfolding marshal encode
marshal-encode f = rw (
  put-append buf [] (f.type ∷ []) 0 refl (omega (arith, room)),
  put-append buf (f.type ∷ []) (be32 f.conn_id) 1 refl (omega (arith, room)),
  put-append buf ((f.type ∷ []) ++ be32 f.conn_id) (be32 f.sequence) 5 refl (omega (arith, room)),
  put-append buf ((f.type ∷ []) ++ (be32 f.conn_id ++ be32 f.sequence))
      (be16 (length f.payload % 2 ^ 16)) 9 refl (omega (arith, room)),
  copy-append buf (head f) f.payload 11 refl (omega (arith, room)),
  drop-make (11 + length f.payload) (11 + length f.payload) (omega arith),
  append-nil,
)
  where
    buf : List ℕ
    buf = make (11 + length f.payload)

    room : length buf ≡ 11 + length f.payload
    room = length-make (11 + length f.payload)

-- A frame's payload as its 16-bit length field bounds it.
abbrev pub cut : Frame → Frame
cut f = record f { payload = take (length f.payload % 2 ^ 16) f.payload }

length-frame :
    (f : Frame) (rest : List ℕ) → length (encode f ++ rest) ≡ 11 + length f.payload + length rest
unfolding encode
length-frame f rest = omega (arith, length-append (encode f) rest, length-append (head f) f.payload)

-- `UnmarshalFrame` reads back what `Frame.Marshal` wrote, whatever follows it: the whole frame if
-- the payload is shorter than 2^16 bytes, and else the frame with its payload cut to the length
-- modulo 2^16.
pub unmarshal_frame-marshal :
    (f : Frame) (rest : List ℕ)
    → IsU32 f.conn_id
    → IsU32 f.sequence
    → (marshal f >>= λ bs. unmarshal_frame (bs ++ rest)) ≡ ok (cut f)
      × (length f.payload < 2 ^ 16 → cut f ≡ f)
unfolding unmarshal_frame encode
unmarshal_frame-marshal f rest hc hs = (
  rw (
    marshal-encode f,
    le→leb 11 (length bs) (omega (arith, length-frame f rest)),
    get_u8-append [] (be32 f.conn_id ++ (be32 f.sequence ++ (be16 len ++ behind))) f.type 0 refl,
    get_u32-append (f.type ∷ []) (be32 f.sequence ++ (be16 len ++ behind)) f.conn_id 1 refl hc,
    get_u32-append ((f.type ∷ []) ++ be32 f.conn_id) (be16 len ++ behind) f.sequence 5 refl hs,
    get_u16-append ((f.type ∷ []) ++ (be32 f.conn_id ++ be32 f.sequence)) behind len 9 refl
        (omega arith),
    le→leb (11 + len) (length bs) (omega (arith, length-frame f rest)),
    drop-append (head f) behind 11 0 refl,
    cut_payload,
  ),
  λ short. ap (λ n. record f { payload = n }) (take_all _ f.payload (omega arith)),
)
  where
    len : ℕ
    len = length f.payload % 2 ^ 16

    bs : List ℕ
    bs = encode f ++ rest

    behind : List ℕ
    behind = f.payload ++ rest

    cut_payload : take len behind ≡ take len f.payload
    cut_payload = take-append_le f.payload rest len (omega arith)

-- On every slice `UnmarshalFrame` returns its one error, or a frame whose payload lies in the slice
-- behind the header. It never panics.
pub unmarshal_frame_total :
    (bs : List ℕ)
    → (unmarshal_frame bs ≡ err frame_too_short)
      ⊎ ((f : Frame) × (unmarshal_frame bs ≡ ok f)
          × (f.payload ≡ take (length f.payload) (drop min_frame_size bs))
          × (min_frame_size + length f.payload ≤ length bs))
unfolding unmarshal_frame
unmarshal_frame_total bs = elim (Bool-cases (leb 11 (length bs))) [
  | inr short ↦ inl (rw short)
  | inl long ↦
      let eleven = leb→le 11 (length bs) long in
      let (t, et) = get_u8_total bs 0 (omega arith) in
      let (c, ec) = get_u32_total bs 1 (omega arith) in
      let (s, es) = get_u32_total bs 5 (omega arith) in
      let (n, en) = get_u16_total bs 9 eleven in
      elim (Bool-cases (leb (11 + n) (length bs))) [
        | inr short ↦ inl (rw (long, et, ec, es, en, short))
        | inl fits ↦
            let len : length (take n (drop 11 bs)) ≡ n = omega (
              arith,
              leb→le (11 + n) (length bs) fits,
              length-take n (drop 11 bs),
              length-drop 11 bs,
            ) in
            inr (
              record { type = t; conn_id = c; sequence = s; payload = take n (drop 11 bs) },
              rw (long, et, ec, es, en, fits),
              rw len,
              omega (arith, len, leb→le (11 + n) (length bs) fits),
            )
      ]
]
