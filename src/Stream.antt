-- ===== src/Stream.antt =====
-- pkg/tunnel/stream.go: the lightweight stream packets. A slice is modelled by its bytes, so the copy
-- of `UnmarshalStream` and the shared bytes of `UnmarshalStreamNoCopy` are one value.
pub mod RoundTrip
use shadow_gre.Prelude.{
  ◌>>=◌, ◌>>◌, ℕ, ◌+◌, List, [], ◌∷◌, length, drop, ltb, leb, if◌then◌else◌, stream_too_short,
  Outcome, ok, guard,
}
use shadow_gre.Wire.{be32, get_u8, get_u32, make, put, copy}

abbrev pub stream_data : ℕ
stream_data = 0x00

abbrev pub stream_close : ℕ
stream_close = 0x01

abbrev pub stream_header_size : ℕ
stream_header_size = 5

pub record StreamPacket : Type 0 where
  pub stream_id : ℕ
  pub flags : ℕ
  pub payload : List ℕ

unfoldable pub marshal : StreamPacket → Outcome (List ℕ)
marshal p = do
  b ← put (make (stream_header_size + length p.payload)) 0 (be32 p.stream_id)
  b ← put b 4 (p.flags ∷ [])
  (b, _) ← copy b stream_header_size p.payload
  ok b

-- Fills the front of `buf`, and returns it with the number of bytes written.
unfoldable pub marshal_to : StreamPacket → List ℕ → Outcome (List ℕ × ℕ)
marshal_to p buf = do
  b ← put buf 0 (be32 p.stream_id)
  b ← put b 4 (p.flags ∷ [])
  (b, n) ← copy b stream_header_size p.payload
  ok (b, stream_header_size + n)

unfoldable pub unmarshal_stream : List ℕ → Outcome StreamPacket
unmarshal_stream bs = do
  guard (leb stream_header_size (length bs)) stream_too_short
  stream_id ← get_u32 bs 0
  flags ← get_u8 bs 4
  ok (record {
    stream_id = stream_id;
    flags = flags;
    payload = if ltb stream_header_size (length bs) then drop stream_header_size bs else [];
  })

unfoldable pub new_data_packet : ℕ → List ℕ → StreamPacket
new_data_packet stream_id payload = record {
  stream_id = stream_id;
  flags = stream_data;
  payload = payload;
}

unfoldable pub new_close_packet : ℕ → StreamPacket
new_close_packet stream_id = record { stream_id = stream_id; flags = stream_close; payload = [] }
