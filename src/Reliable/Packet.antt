-- ===== src/Reliable/Packet.antt =====
-- The packets of pkg/tunnel/reliable.go and their codec.
pub mod Format
pub mod Total
pub mod RoundTrip
use shadow_gre.Prelude.{
  ◌>>=◌, ◌>>◌, ℕ, zero, suc, ◌+◌, ◌*◌, ◌%◌, ◌^◌, min, Bool, List, [], ◌∷◌, length, drop, ltb, leb,
  if◌then◌else◌, stream_too_short, Outcome, ok, guard,
}
use shadow_gre.Wire.{be32, get_u8, get_u32, make, put, copy, has}

abbrev pub flag_data : ℕ
flag_data = 0x01

abbrev pub flag_ack : ℕ
flag_ack = 0x02

abbrev pub flag_close : ℕ
flag_close = 0x04

abbrev pub flag_sack : ℕ
flag_sack = 0x10

abbrev pub reliable_header_size : ℕ
reliable_header_size = 9

abbrev pub reliable_header_with_ack : ℕ
reliable_header_with_ack = 13

abbrev pub max_sack_blocks : ℕ
max_sack_blocks = 4

pub record SackBlock : Type 0 where
  pub left : ℕ
  pub right : ℕ

pub record ReliablePacket : Type 0 where
  pub stream_id : ℕ
  pub flags : ℕ
  pub seq : ℕ
  pub ack : ℕ
  pub sack_blocks : List SackBlock
  pub payload : List ℕ

-- The header up to the SACK blocks.
abbrev pub base_size : ReliablePacket → ℕ
base_size p = if has p.flags flag_ack then reliable_header_with_ack else reliable_header_size

unfoldable pub header_size : ReliablePacket → ℕ
header_size p =
    if has p.flags flag_sack then base_size p + (1 + length p.sack_blocks * 8) else base_size p

-- The loop over `p.SackBlocks`; it returns the buffer and the offset behind the last block.
unfoldable pub put_blocks : List ℕ → ℕ → List SackBlock → Outcome (List ℕ × ℕ)
put_blocks buf offset [] = ok (buf, offset)
put_blocks buf offset (block ∷ blocks) = do
  b ← put buf offset (be32 block.left)
  b ← put b (offset + 4) (be32 block.right)
  put_blocks b (offset + 8) blocks

unfoldable pub put_ack : Bool → List ℕ → ℕ → Outcome (List ℕ × ℕ)
put_ack c buf ack = if c then (do b ← put buf 9 (be32 ack); ok (b, 13)) else ok (buf, 9)

-- The count of blocks is written as a `uint8`.
unfoldable pub put_sack : Bool → List ℕ → ℕ → List SackBlock → Outcome (List ℕ × ℕ)
put_sack c buf offset blocks =
    if c
    then (do b ← put buf offset ((length blocks % 2 ^ 8) ∷ []); put_blocks b (offset + 1) blocks)
    else ok (buf, offset)

-- `if len(p.Data) > 0 { copy(buf[offset:], p.Data) }`
unfoldable pub put_payload : List ℕ → ℕ → List ℕ → Outcome (List ℕ)
put_payload buf offset [] = ok buf
put_payload buf offset (x ∷ xs) = do (b, _) ← copy buf offset (x ∷ xs); ok b

unfoldable pub marshal_to : ReliablePacket → List ℕ → Outcome (List ℕ × ℕ)
marshal_to p buf = do
  b ← put buf 0 (be32 p.stream_id)
  b ← put b 4 (p.flags ∷ [])
  b ← put b 5 (be32 p.seq)
  (b, offset) ← put_ack (has p.flags flag_ack) b p.ack
  (b, offset) ← put_sack (has p.flags flag_sack) b offset p.sack_blocks
  b ← put_payload b offset p.payload
  ok (b, offset + length p.payload)

unfoldable pub marshal : ReliablePacket → Outcome (List ℕ)
marshal p = do (b, _) ← marshal_to p (make (header_size p + length p.payload)); ok b

-- The ACK field and the offset behind it; 0 where the flag is not set.
unfoldable pub get_ack : Bool → List ℕ → Outcome (ℕ × ℕ)
get_ack c bs =
    if c
    then (do
      guard (leb reliable_header_with_ack (length bs)) stream_too_short
      ack ← get_u32 bs 9
      ok (ack, 13))
    else ok (0, 9)

-- `count` blocks from `offset` on, and the offset behind them.
unfoldable pub get_blocks : List ℕ → ℕ → ℕ → Outcome (List SackBlock × ℕ)
get_blocks bs offset zero = ok ([], offset)
get_blocks bs offset (suc count) = do
  left ← get_u32 bs offset
  right ← get_u32 bs (offset + 4)
  (blocks, offset) ← get_blocks bs (offset + 8) count
  ok (record { left = left; right = right } ∷ blocks, offset)

unfoldable pub get_sack : Bool → List ℕ → ℕ → Outcome (List SackBlock × ℕ)
get_sack c bs offset =
    if c
    then (do
      guard (leb (offset + 1) (length bs)) stream_too_short
      n ← get_u8 bs offset
      let count = min n max_sack_blocks
      guard (leb (offset + 1 + count * 8) (length bs)) stream_too_short
      get_blocks bs (offset + 1) count)
    else ok ([], offset)

unfoldable pub unmarshal_reliable : List ℕ → Outcome ReliablePacket
unmarshal_reliable bs = do
  guard (leb reliable_header_size (length bs)) stream_too_short
  stream_id ← get_u32 bs 0
  flags ← get_u8 bs 4
  seq ← get_u32 bs 5
  (ack, offset) ← get_ack (has flags flag_ack) bs
  (sack_blocks, offset) ← get_sack (has flags flag_sack) bs offset
  ok (record {
    stream_id = stream_id;
    flags = flags;
    seq = seq;
    ack = ack;
    sack_blocks = sack_blocks;
    payload = if ltb offset (length bs) then drop offset bs else [];
  })
