-- ===== src/Tests/Packets.antt =====
-- The reliable codec on a packet with an acknowledgement and a SACK block.
use shadow_gre.Prelude.{
  ◌≤◌, ◌≡◌, ◌⊎◌, List, [], ◌∷◌, ℕ, arith, length, drop, ok, err, ◌>>=◌, stream_too_short,
}
use shadow_gre.Reliable.Packet.{ReliablePacket, marshal, unmarshal_reliable, max_sack_blocks}
use shadow_gre.Reliable.Packet.RoundTrip.{unmarshal_reliable-marshal}
use shadow_gre.Reliable.Packet.Total.{unmarshal_reliable_total}

abbrev packet : ReliablePacket
packet = record {
  stream_id = 5;
  flags = 0x13;
  seq = 3;
  ack = 4;
  sack_blocks = record { left = 6; right = 7 } ∷ [];
  payload = 1 ∷ 2 ∷ [];
}

unmarshal_reliable-marshal_example : (marshal packet >>= unmarshal_reliable) ≡ ok packet
unmarshal_reliable-marshal_example = unmarshal_reliable-marshal packet (record {
  stream_id_fits = omega arith;
  seq_fits = omega arith;
  ack_fits = omega arith;
  few_blocks = omega arith;
  blocks_fit = ((omega arith, omega arith), tt);
  no_ack = λ e. ground arith;
  no_sack = λ e. ground arith;
})

-- A packet that ends in its SACK count.
abbrev cut_short : List ℕ
cut_short = 0 ∷ 0 ∷ 0 ∷ 5 ∷ 0x12 ∷ 0 ∷ 0 ∷ 0 ∷ 3 ∷ 0 ∷ 0 ∷ 0 ∷ 4 ∷ 2 ∷ []

unmarshal_reliable_total_example :
    (unmarshal_reliable cut_short ≡ err stream_too_short)
    ⊎ ((p : ReliablePacket) × (off : ℕ) × (unmarshal_reliable cut_short ≡ ok p)
        × (length p.sack_blocks ≤ max_sack_blocks)
        × (off ≤ length cut_short)
        × (p.payload ≡ drop off cut_short))
unmarshal_reliable_total_example = unmarshal_reliable_total cut_short
