-- ===== src/Gre.antt =====
-- pkg/gre/gre.go: GRE headers and packets (RFC 2784, RFC 2890).
pub mod Format
pub mod Total
pub mod RoundTrip
pub mod Ip
use shadow_gre.Prelude.{
  ◌>>=◌, ◌>>◌, ℕ, ◌+◌, bit_and, Bool, List, ◌++◌, length, drop, leb, ◌==◌, if◌then◌else◌,
  packet_too_short, invalid_version, Outcome, ok, guard,
}
use shadow_gre.Wire.{be16, be32, get_u16, get_u32, make, put, copy, has}

abbrev pub min_header_size : ℕ
min_header_size = 4

abbrev pub ether_type_transparent_ethernet : ℕ
ether_type_transparent_ethernet = 0x6558

abbrev pub flag_checksum : ℕ
flag_checksum = 0x8000

abbrev pub flag_key : ℕ
flag_key = 0x2000

abbrev pub flag_sequence : ℕ
flag_sequence = 0x1000

pub record Header : Type 0 where
  pub flags : ℕ
  pub protocol_type : ℕ
  pub checksum : ℕ
  pub reserved1 : ℕ
  pub key : ℕ
  pub sequence : ℕ

-- `if c { size += 4 }`
abbrev four_if : Bool → ℕ → ℕ
four_if c size = if c then size + 4 else size

unfoldable pub header_size : Header → ℕ
header_size h =
    four_if (has h.flags flag_sequence)
      (four_if (has h.flags flag_key) (four_if (has h.flags flag_checksum) min_header_size))

-- An optional field: written at `offset`, which moves on behind it.
unfoldable pub put_if : Bool → List ℕ → ℕ → List ℕ → Outcome (List ℕ × ℕ)
put_if c buf offset bs =
    if c then (do b ← put buf offset bs; ok (b, offset + length bs)) else ok (buf, offset)

-- The statements that `Header.Marshal` and `Packet.MarshalTo` share.
unfoldable pub put_header : Header → List ℕ → Outcome (List ℕ)
put_header h buf = do
  b ← put buf 0 (be16 h.flags)
  b ← put b 2 (be16 h.protocol_type)
  (b, offset) ← put_if (has h.flags flag_checksum) b 4 (be16 h.checksum ++ be16 h.reserved1)
  (b, offset) ← put_if (has h.flags flag_key) b offset (be32 h.key)
  (b, offset) ← put_if (has h.flags flag_sequence) b offset (be32 h.sequence)
  ok b

unfoldable pub marshal : Header → Outcome (List ℕ)
marshal h = put_header h (make (header_size h))

-- An optional 32-bit word: 0 where its flag is not set.
unfoldable pub get_if : Bool → List ℕ → ℕ → Outcome (ℕ × ℕ)
get_if c bs offset =
    if c
    then (do
      guard (leb (offset + 4) (length bs)) packet_too_short
      v ← get_u32 bs offset
      ok (v, offset + 4))
    else ok (0, offset)

unfoldable pub get_checksum_if : Bool → List ℕ → ℕ → Outcome (ℕ × ℕ × ℕ)
get_checksum_if c bs offset =
    if c
    then (do
      guard (leb (offset + 4) (length bs)) packet_too_short
      v ← get_u16 bs offset
      r ← get_u16 bs (offset + 2)
      ok (v, r, offset + 4))
    else ok (0, 0, offset)

-- The header, and the offset of what follows it.
unfoldable pub unmarshal : List ℕ → Outcome (Header × ℕ)
unmarshal bs = do
  guard (leb min_header_size (length bs)) packet_too_short
  flags ← get_u16 bs 0
  protocol_type ← get_u16 bs 2
  guard (bit_and flags 7 == 0) invalid_version
  (checksum, reserved1, offset) ← get_checksum_if (has flags flag_checksum) bs 4
  (key, offset) ← get_if (has flags flag_key) bs offset
  (sequence, offset) ← get_if (has flags flag_sequence) bs offset
  ok (
    record {
      flags = flags;
      protocol_type = protocol_type;
      checksum = checksum;
      reserved1 = reserved1;
      key = key;
      sequence = sequence;
    },
    offset,
  )

pub record Packet : Type 0 where
  pub header : Header
  pub payload : List ℕ

unfoldable pub new_packet : ℕ → List ℕ → Packet
new_packet key payload = record {
  header = record {
    flags = flag_key;
    protocol_type = ether_type_transparent_ethernet;
    checksum = 0;
    reserved1 = 0;
    key = key;
    sequence = 0;
  };
  payload = payload;
}

unfoldable pub marshal_packet : Packet → Outcome (List ℕ)
marshal_packet p = do
  header ← marshal p.header
  let result = make (length header + length p.payload)
  (b, _) ← copy result 0 header
  (b, _) ← copy b (length header) p.payload
  ok b

-- Fills the front of `buf`, and returns it with the number of bytes written.
unfoldable pub marshal_packet_to : Packet → List ℕ → Outcome (List ℕ × ℕ)
marshal_packet_to p buf = do
  b ← put_header p.header buf
  (b, n) ← copy b (header_size p.header) p.payload
  ok (b, header_size p.header + n)

unfoldable pub unmarshal_packet : List ℕ → Outcome Packet
unmarshal_packet bs = do
  (header, offset) ← unmarshal bs
  ok (record { header = header; payload = drop offset bs })
