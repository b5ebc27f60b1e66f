-- ===== src/Tests/GrePackets.antt =====
-- The GRE codec on a packet with the key 7.
use shadow_gre.Prelude.{
  ◌≤◌, ◌≡◌, ◌⊎◌, List, [], ◌∷◌, ℕ, arith, length, ok, err, ◌>>=◌, packet_too_short, invalid_version,
  bit_and,
}
use shadow_gre.Gre.{
  Header, Packet, new_packet, header_size, unmarshal, marshal_packet, unmarshal_packet,
}
use shadow_gre.Gre.RoundTrip.{new_packet-IsValid, unmarshal_packet-marshal_packet}
use shadow_gre.Gre.Total.{unmarshal_total}

abbrev keyed : Packet
keyed = new_packet 7 (1 ∷ 2 ∷ 3 ∷ [])

unmarshal_packet-marshal_packet_example : (marshal_packet keyed >>= unmarshal_packet) ≡ ok keyed
unmarshal_packet-marshal_packet_example =
    unmarshal_packet-marshal_packet keyed (new_packet-IsValid 7 (1 ∷ 2 ∷ 3 ∷ []) (omega arith))

abbrev bad : List ℕ
bad = 0 ∷ 1 ∷ 0x65 ∷ 0x58 ∷ []

unmarshal_total_example :
    (unmarshal bad ≡ err packet_too_short)
    ⊎ (unmarshal bad ≡ err invalid_version)
    ⊎ ((h : Header) × (unmarshal bad ≡ ok (h, header_size h))
        × (header_size h ≤ length bad)
        × (bit_and h.flags 7 ≡ 0))
unmarshal_total_example = unmarshal_total bad
