-- ===== src/Reliable/Packet/Total.antt =====
-- `UnmarshalReliable` of pkg/tunnel/reliable.go on any input.
use shadow_gre.Prelude.{
  ℕ, zero, suc, ◌+◌, ◌*◌, ◌≤◌, min, ◌≡◌, refl, sym, ap, ◌⊎◌, inl, inr, Bool, true, false, List, [],
  ◌∷◌, arith, length, drop, drop_all, ltb, leb, if◌then◌else◌, ltb_false→le, leb→le, Bool-cases,
  stream_too_short, ok, err,
}
use shadow_gre.Wire.{has}
use shadow_gre.Wire.Reads.{get_u8_total, get_u32_total}
use shadow_gre.Reliable.Packet.{
  SackBlock, ReliablePacket, flag_ack, flag_sack, get_ack, get_blocks, get_sack, unmarshal_reliable,
  max_sack_blocks,
}

get_ack_total :
    (c : Bool) (bs : List ℕ)
    → 9 ≤ length bs
    → (get_ack c bs ≡ err stream_too_short)
      ⊎ ((ack : ℕ) × (off : ℕ) × (get_ack c bs ≡ ok (ack, off)) × (off ≤ length bs))
unfolding get_ack
get_ack_total false bs h = inr (0, 9, refl, h)
get_ack_total true bs h = elim (Bool-cases (leb 13 (length bs))) [
  | inr short ↦ inl (rw short)
  | inl fits ↦
      let (v, e) = get_u32_total bs 9 (leb→le 13 (length bs) fits) in
      inr (v, 13, rw (fits, e), leb→le 13 (length bs) fits)
]

get_blocks_total :
    (count : ℕ) (bs : List ℕ) (off : ℕ)
    → off + count * 8 ≤ length bs
    → (blocks : List SackBlock) × (get_blocks bs off count ≡ ok (blocks, off + count * 8))
      × (length blocks ≡ count)
unfolding get_blocks
get_blocks_total zero bs off h = ([], ap (λ (n : ℕ). ok ([], n)) (omega arith), refl)
get_blocks_total (suc count) bs off h =
    let (l, el) = get_u32_total bs off (omega arith) in
    let (r, er) = get_u32_total bs (off + 4) (omega arith) in
    let (blocks, eb, n) = get_blocks_total count bs (off + 8) (omega arith) in
    let block : SackBlock = record { left = l; right = r } in
    let behind : off + 8 + count * 8 ≡ off + suc count * 8 = omega arith in
    (block ∷ blocks, rw (el, er, eb, behind), ap suc n)

get_sack_total :
    (c : Bool) (bs : List ℕ) (off : ℕ)
    → off ≤ length bs
    → (get_sack c bs off ≡ err stream_too_short)
      ⊎ ((blocks : List SackBlock) × (end : ℕ) × (get_sack c bs off ≡ ok (blocks, end))
          × (end ≤ length bs)
          × (length blocks ≤ max_sack_blocks))
unfolding get_sack
get_sack_total false bs off h = inr ([], off, refl, h, omega arith)
get_sack_total true bs off h = elim (Bool-cases (leb (off + 1) (length bs))) [
  | inr short ↦ inl (rw short)
  | inl one ↦
      let (n, en) = get_u8_total bs off (leb→le _ _ one) in
      elim (Bool-cases (leb (off + 1 + min n 4 * 8) (length bs))) [
        | inr short ↦ inl (rw (one, en, short))
        | inl fits ↦
            let (blocks, eb, k) = get_blocks_total (min n 4) bs (off + 1) (leb→le _ _ fits) in
            inr
              (blocks, off + 1 + min n 4 * 8, rw (one, en, fits, eb), leb→le _ _ fits, omega arith)
      ]
]

-- On every slice `UnmarshalReliable` returns its one error, or a packet with at most `MaxSackBlocks`
-- blocks whose payload is what stands behind an offset in the slice. It never panics.
pub unmarshal_reliable_total :
    (bs : List ℕ)
    → (unmarshal_reliable bs ≡ err stream_too_short)
      ⊎ ((p : ReliablePacket) × (off : ℕ) × (unmarshal_reliable bs ≡ ok p)
          × (length p.sack_blocks ≤ max_sack_blocks)
          × (off ≤ length bs)
          × (p.payload ≡ drop off bs))
unfolding unmarshal_reliable
unmarshal_reliable_total bs = elim (Bool-cases (leb 9 (length bs))) [
  | inr short ↦ inl (rw short)
  | inl long ↦
      let nine = leb→le 9 (length bs) long in
      let (id, e_id) = get_u32_total bs 0 (omega arith) in
      let (f, e_flags) = get_u8_total bs 4 (omega arith) in
      let (s, e_seq) = get_u32_total bs 5 nine in
      elim (get_ack_total (has f flag_ack) bs nine) [
        | inl e ↦ inl (rw (long, e_id, e_flags, e_seq, e))
        | inr (a, off, e_ack, k) ↦ elim (get_sack_total (has f flag_sack) bs off k) [
          | inl e ↦ inl (rw (long, e_id, e_flags, e_seq, e_ack, e))
          | inr (blocks, end, e_sack, in_slice, few) ↦ inr (
            record {
              stream_id = id;
              flags = f;
              seq = s;
              ack = a;
              sack_blocks = blocks;
              payload = if ltb end (length bs) then drop end bs else [];
            },
            end,
            rw (long, e_id, e_flags, e_seq, e_ack, e_sack),
            few,
            in_slice,
            rest_lem end bs,
          )
        ]
      ]
]
  where
    rest_lem :
        (off : ℕ) (xs : List ℕ) → (if ltb off (length xs) then drop off xs else []) ≡ drop off xs
    rest_lem off xs = elim (Bool-cases (ltb off (length xs))) [
      | inl behind ↦ rw behind
      | inr at_end ↦ rw at_end (sym (drop_all off xs (ltb_false→le off (length xs) at_end)))
    ]
