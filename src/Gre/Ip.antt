-- ===== src/Gre/Ip.antt =====
-- The IPv4 header of pkg/gre/gre.go. What `net.IP.To4` returns for the two addresses is an argument:
-- four bytes, or none for an address that is not IPv4.
use shadow_gre.Prelude.{
  ℕ, ◌+◌, ◌*◌, ◌/◌, ◌%◌, ◌^◌, bit_and, ◌≡◌, List, [], ◌∷◌, ◌++◌, arith, length, take, drop, leb,
  packet_too_short, Outcome, ok, ◌>>=◌, ◌>>◌, guard,
}
use shadow_gre.Wire.{be16, get_u8, get_u16, make, put}

abbrev pub protocol_number : ℕ
protocol_number = 47

pub record IpHeader : Type 0 where
  pub version : ℕ
  pub ihl : ℕ
  pub tos : ℕ
  pub total_len : ℕ
  pub id : ℕ
  pub frag_off : ℕ
  pub ttl : ℕ
  pub protocol : ℕ
  pub checksum : ℕ
  pub src_ip : List ℕ
  pub dst_ip : List ℕ

-- `copy(header[12:16], ip)` writes four bytes at most.
unfoldable pub marshal_ip_header : List ℕ → List ℕ → ℕ → Outcome (List ℕ)
marshal_ip_header src dst payload_len = do
  b ← put (make 20) 0 (0x45 ∷ [])
  b ← put b 1 (0 ∷ [])
  b ← put b 2 (be16 ((20 + payload_len) % 2 ^ 16))
  b ← put b 4 (be16 0)
  b ← put b 6 (be16 0x4000)
  b ← put b 8 (64 ∷ [])
  b ← put b 9 (protocol_number ∷ [])
  b ← put b 10 (be16 0)
  b ← put b 12 (take 4 src)
  put b 16 (take 4 dst)

-- The header, and the length that its IHL field gives.
unfoldable pub parse_ip_header : List ℕ → Outcome (IpHeader × ℕ)
parse_ip_header bs = do
  guard (leb 20 (length bs)) packet_too_short
  first_byte ← get_u8 bs 0
  let ihl = bit_and first_byte 0x0f * 4
  guard (leb ihl (length bs)) packet_too_short
  tos ← get_u8 bs 1
  total_len ← get_u16 bs 2
  id ← get_u16 bs 4
  frag_off ← get_u16 bs 6
  ttl ← get_u8 bs 8
  protocol ← get_u8 bs 9
  checksum ← get_u16 bs 10
  ok (
    record {
      version = first_byte / 2 ^ 4;
      ihl = ihl % 2 ^ 8;
      tos = tos;
      total_len = total_len;
      id = id;
      frag_off = frag_off;
      ttl = ttl;
      protocol = protocol;
      checksum = checksum;
      src_ip = take 4 (drop 12 bs);
      dst_ip = take 4 (drop 16 bs);
    },
    ihl,
  )

-- What `ParseIPHeader` makes of the bytes of `MarshalIPHeader`, with the payload behind them: every
-- field as written, the total length modulo 2^16, and 20 as the offset of the payload.
pub parse_ip_header-marshal_ip_header :
    (s₀ s₁ s₂ s₃ d₀ d₁ d₂ d₃ payload_len : ℕ) (payload : List ℕ)
    → let src = s₀ ∷ s₁ ∷ s₂ ∷ s₃ ∷ [] in
      let dst = d₀ ∷ d₁ ∷ d₂ ∷ d₃ ∷ [] in
      (marshal_ip_header src dst payload_len >>= λ b. parse_ip_header (b ++ payload))
      ≡ ok (
        record {
          version = 4;
          ihl = 20;
          tos = 0;
          total_len = (20 + payload_len) % 2 ^ 16;
          id = 0;
          frag_off = 0x4000;
          ttl = 64;
          protocol = protocol_number;
          checksum = 0;
          src_ip = src;
          dst_ip = dst;
        },
        20,
      )
unfolding marshal_ip_header parse_ip_header put get_u8 get_u16
parse_ip_header-marshal_ip_header s₀ s₁ s₂ s₃ d₀ d₁ d₂ d₃ payload_len payload = ground arith
