-- ===== src/Stream/RoundTrip.antt =====
-- The bytes of a stream packet, and what pkg/tunnel/stream.go reads in them.
use shadow_gre.Prelude.{
  ℕ, ◌+◌, ◌≤◌, ◌<◌, ◌≡◌, refl, List, [], ◌∷◌, ◌++◌, append-nil, arith, length, drop, length-append,
  le→leb, ok, panic, ◌>>=◌,
}
use shadow_gre.Wire.{IsU32, be32, make}
use shadow_gre.Wire.Writes.{put-append, copy-append, length-make, drop-make, put_panics}
use shadow_gre.Wire.Reads.{get_u8-append, get_u32-append, rest_if}
use shadow_gre.Stream.{StreamPacket, marshal, marshal_to, unmarshal_stream}

pub encode : StreamPacket → List ℕ
encode p = (be32 p.stream_id ++ (p.flags ∷ [])) ++ p.payload

marshal_to-encode :
    (p : StreamPacket) (buf : List ℕ)
    → 5 + length p.payload ≤ length buf
    → marshal_to p buf ≡ ok (encode p ++ drop (5 + length p.payload) buf, 5 + length p.payload)
unfolding marshal_to encode
marshal_to-encode p buf fits = rw (
  put-append buf [] (be32 p.stream_id) 0 refl (omega arith),
  put-append buf (be32 p.stream_id) (p.flags ∷ []) 4 refl (omega arith),
  copy-append buf (be32 p.stream_id ++ (p.flags ∷ [])) p.payload 5 refl fits,
)

marshal-encode : (p : StreamPacket) → marshal p ≡ ok (encode p)
unfolding marshal encode
marshal-encode p = rw (
  put-append buf [] (be32 p.stream_id) 0 refl (omega (arith, room)),
  put-append buf (be32 p.stream_id) (p.flags ∷ []) 4 refl (omega (arith, room)),
  copy-append buf (be32 p.stream_id ++ (p.flags ∷ [])) p.payload 5 refl (omega (arith, room)),
  drop-make (5 + length p.payload) (5 + length p.payload) (omega arith),
  append-nil,
)
  where
    buf : List ℕ
    buf = make (5 + length p.payload)

    room : length buf ≡ 5 + length p.payload
    room = length-make (5 + length p.payload)

length-encode : (p : StreamPacket) → length (encode p) ≡ 5 + length p.payload
unfolding encode
length-encode p = omega (arith, length-append (be32 p.stream_id ++ (p.flags ∷ [])) p.payload)

unmarshal_stream-encode :
    (p : StreamPacket) → IsU32 p.stream_id → unmarshal_stream (encode p) ≡ ok p
unfolding unmarshal_stream encode
unmarshal_stream-encode p h = rw (
  le→leb 5 (length (encode p)) (omega arith),
  get_u32-append [] ((p.flags ∷ []) ++ p.payload) p.stream_id 0 refl h,
  get_u8-append (be32 p.stream_id) p.payload p.flags 4 refl,
  rest_if 5 (length (encode p)) p.payload (omega arith),
)

-- `UnmarshalStream` reads back the packet that `StreamPacket.Marshal` wrote.
pub unmarshal_stream-marshal :
    (p : StreamPacket) → IsU32 p.stream_id → (marshal p >>= unmarshal_stream) ≡ ok p
unmarshal_stream-marshal p h = rw (marshal-encode p) (unmarshal_stream-encode p h)

-- On a buffer with room `MarshalTo` writes the bytes of `Marshal` and leaves what stands behind
-- them; on one shorter than the stream identifier it panics.
pub marshal_to-marshal :
    (p : StreamPacket) (buf : List ℕ)
    → (5 + length p.payload ≤ length buf
        → (bs : List ℕ) × (marshal p ≡ ok bs)
          × (marshal_to p buf ≡ ok (bs ++ drop (length bs) buf, length bs)))
      × (length buf < 4 → marshal_to p buf ≡ panic)
unfolding marshal_to
marshal_to-marshal p buf = (
  λ fits. (encode p, marshal-encode p, rw (length-encode p) (marshal_to-encode p buf fits)),
  λ short. rw (put_panics buf (be32 p.stream_id) 0 (omega arith)),
)
