-- ===== src/Gre/Total.antt =====
-- `Unmarshal` of pkg/gre/gre.go on any input.
use shadow_gre.Prelude.{
  ℕ, ◌+◌, ◌≤◌, bit_and, ◌≡◌, refl, ◌≢◌, ◌⊎◌, inl, inr, Bool, true, false, List, arith, length, leb,
  ◌==◌, leb→le, ==_iff, Bool-cases, packet_too_short, invalid_version, ok, err, panic,
}
use shadow_gre.Wire.{has}
use shadow_gre.Wire.Reads.{get_u16_total, get_u32_total}
use shadow_gre.Gre.{
  Header, flag_checksum, flag_key, flag_sequence, header_size, get_if, get_checksum_if, unmarshal,
  unmarshal_packet, four_if,
}

-- An outcome that is no panic, and whose offset, if there is one, is `size` behind and in the slice.
get_if_total :
    (c : Bool) (bs : List ℕ) (off : ℕ)
    → off ≤ length bs
    → (get_if c bs off ≡ err packet_too_short)
      ⊎ ((v : ℕ) × (get_if c bs off ≡ ok (v, four_if c off)) × (four_if c off ≤ length bs))
unfolding get_if
get_if_total false bs off h = inr (0, refl, h)
get_if_total true bs off h = elim (Bool-cases (leb (off + 4) (length bs))) [
  | inl fits ↦
      let (v, e) = get_u32_total bs off (leb→le _ _ fits) in inr (v, rw (fits, e), leb→le _ _ fits)
  | inr short ↦ inl (rw short)
]

get_checksum_if_total :
    (c : Bool) (bs : List ℕ) (off : ℕ)
    → off ≤ length bs
    → (get_checksum_if c bs off ≡ err packet_too_short)
      ⊎ ((v : ℕ) × (r : ℕ) × (get_checksum_if c bs off ≡ ok (v, r, four_if c off))
          × (four_if c off ≤ length bs))
unfolding get_checksum_if
get_checksum_if_total false bs off h = inr (0, 0, refl, h)
get_checksum_if_total true bs off h = elim (Bool-cases (leb (off + 4) (length bs))) [
  | inl fits ↦
      let (v, e) = get_u16_total bs off (omega (arith, leb→le _ _ fits)) in
      let (r, d) = get_u16_total bs (off + 2) (omega (arith, leb→le _ _ fits)) in
      inr (v, r, rw (fits, e, d), leb→le _ _ fits)
  | inr short ↦ inl (rw short)
]

-- On every slice `Unmarshal` returns one of its two errors, or a version-0 header and the offset
-- `HeaderSize` behind which the payload starts, which lies in the slice. It never panics.
pub unmarshal_total :
    (bs : List ℕ)
    → (unmarshal bs ≡ err packet_too_short)
      ⊎ (unmarshal bs ≡ err invalid_version)
      ⊎ ((h : Header) × (unmarshal bs ≡ ok (h, header_size h))
          × (header_size h ≤ length bs)
          × (bit_and h.flags 7 ≡ 0))
unfolding unmarshal header_size
unmarshal_total bs = elim (Bool-cases (leb 4 (length bs))) [
  | inr short ↦ inl (rw short)
  | inl long ↦
      let four = leb→le 4 (length bs) long in
      let (f, ef) = get_u16_total bs 0 (omega arith) in
      let (p, ep) = get_u16_total bs 2 four in
      elim (Bool-cases (bit_and f 7 == 0)) [
        | inr bad ↦ inr (inl (rw (long, ef, ep, bad)))
        | inl v0 ↦ elim (get_checksum_if_total (has f flag_checksum) bs 4 four) [
          | inl e ↦ inl (rw (long, ef, ep, v0, e))
          | inr (c, r, e₁, k₁) ↦ elim (get_if_total (has f flag_key) bs _ k₁) [
            | inl e ↦ inl (rw (long, ef, ep, v0, e₁, e))
            | inr (k, e₂, k₂) ↦ elim (get_if_total (has f flag_sequence) bs _ k₂) [
              | inl e ↦ inl (rw (long, ef, ep, v0, e₁, e₂, e))
              | inr (q, e₃, k₃) ↦ inr (
                  inr (
                    record {
                      flags = f;
                      protocol_type = p;
                      checksum = c;
                      reserved1 = r;
                      key = k;
                      sequence = q;
                    },
                    rw (long, ef, ep, v0, e₁, e₂, e₃),
                    k₃,
                    (==_iff _ _).0 v0,
                  ))
            ]
          ]
        ]
      ]
]

-- `UnmarshalPacket` never panics either: its slice expression stays in the input.
pub unmarshal_packet_total : (bs : List ℕ) → unmarshal_packet bs ≢ panic
unfolding unmarshal_packet
unmarshal_packet_total bs = ground (arith, unmarshal_total bs)
