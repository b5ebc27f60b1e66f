-- ===== src/Reliable/Packet/RoundTrip.antt =====
-- `UnmarshalReliable` of pkg/tunnel/reliable.go against its writers.
use shadow_gre.Prelude.{
  ℕ, ◌+◌, ◌*◌, ◌%◌, ◌^◌, ◌≤◌, min, ◌≡◌, refl, ap, Bool, true, false, List, [], ◌∷◌, ◌++◌,
  append_assoc, arith, length, drop, All, length-append, drop-append, ltb, if◌then◌else◌, le→leb,
  ok, ◌>>=◌,
}
use shadow_gre.Wire.{IsU32, be32, get_u8, get_u32, has}
use shadow_gre.Wire.Reads.{get_u8-append, get_u32-append, rest_if}
use shadow_gre.Reliable.Packet.{
  SackBlock, ReliablePacket, flag_ack, flag_sack, get_ack, get_blocks, get_sack, marshal,
  unmarshal_reliable, max_sack_blocks,
}
use shadow_gre.Reliable.Packet.Format.{
  block_bytes, ack_bytes, sack_bytes, fixed, ack_part, sack_part, encode, header_size_parts,
  length-encode, marshal-encode, length-block_bytes,
}

abbrev pub BlockFits : SackBlock → Type 0
BlockFits b = IsU32 b.left × IsU32 b.right

-- The fields are in range, there are at most `MaxSackBlocks` blocks, and the fields whose flag is
-- not set are empty.
pub record IsValid (p : ReliablePacket) : Type 0 where
  pub stream_id_fits : IsU32 p.stream_id
  pub seq_fits : IsU32 p.seq
  pub ack_fits : IsU32 p.ack
  pub few_blocks : length p.sack_blocks ≤ max_sack_blocks
  pub blocks_fit : All BlockFits p.sack_blocks
  pub no_ack : has p.flags flag_ack ≡ false → p.ack ≡ 0
  pub no_sack : has p.flags flag_sack ≡ false → p.sack_blocks ≡ []

get_ack-append :
    (c : Bool) (done rest : List ℕ) (ack : ℕ)
    → 9 ≡ length done
    → IsU32 ack
    → (c ≡ false → ack ≡ 0)
    → get_ack c (done ++ (ack_bytes c ack ++ rest)) ≡ ok (ack, 9 + length (ack_bytes c ack))
unfolding get_ack
get_ack-append false done rest ack h k z = rw (z refl)
get_ack-append true done rest ack h k z = rw (
  le→leb 13 (length (done ++ (be32 ack ++ rest)))
      (omega (arith, length-append done (be32 ack ++ rest))),
  get_u32-append done rest ack 9 h k,
)

get_blocks-append :
    (blocks : List SackBlock) (done rest : List ℕ) (off : ℕ)
    → off ≡ length done
    → All BlockFits blocks
    → get_blocks (done ++ (block_bytes blocks ++ rest)) off (length blocks)
      ≡ ok (blocks, off + length (block_bytes blocks))
unfolding get_blocks
get_blocks-append [] done rest off h k = ap (λ (n : ℕ). ok ([], n)) (omega arith)
get_blocks-append (b ∷ bs) done rest off h (kb, kbs) = rw (
  get_u32-append done (be32 b.right ++ (block_bytes bs ++ rest)) b.left off h kb.0,
  second,
  blocks (
      get_blocks-append bs (done ++ edges) rest (off + 8) (omega (arith, length-append done edges))
        kbs),
  size,
)
  where
    edges : List ℕ
    edges = be32 b.left ++ be32 b.right

    second :
        get_u32 (done ++ (be32 b.left ++ (be32 b.right ++ (block_bytes bs ++ rest)))) (off + 4)
        ≡ ok b.right
    second = rw (← append_assoc done (be32 b.left) (be32 b.right ++ (block_bytes bs ++ rest))) (
        get_u32-append (done ++ be32 b.left) (block_bytes bs ++ rest) b.right (off + 4)
          (omega (arith, length-append done (be32 b.left))) kb.1)

    blocks :
        get_blocks ((done ++ edges) ++ (block_bytes bs ++ rest)) (off + 8) (length bs)
          ≡ ok (bs, off + 8 + length (block_bytes bs))
        → get_blocks (done ++ (edges ++ (block_bytes bs ++ rest))) (off + 8) (length bs)
          ≡ ok (bs, off + 8 + length (block_bytes bs))
    blocks ih = rw (← append_assoc done edges (block_bytes bs ++ rest)) ih

    size : off + 8 + length (block_bytes bs) ≡ off + length (block_bytes (b ∷ bs))
    size = omega arith

get_sack-append :
    (c : Bool) (done rest : List ℕ) (blocks : List SackBlock) (off : ℕ)
    → off ≡ length done
    → length blocks ≤ max_sack_blocks
    → All BlockFits blocks
    → (c ≡ false → blocks ≡ [])
    → get_sack c (done ++ (sack_bytes c blocks ++ rest)) off
      ≡ ok (blocks, off + length (sack_bytes c blocks))
unfolding get_sack
get_sack-append false done rest blocks off h few fit z =
    rw (z refl) (ap (λ (n : ℕ). ok ([], n)) (omega arith))
get_sack-append true done rest blocks off h few fit z = rw (
  le→leb (off + 1) (length bs) (omega (arith, total)),
  get_u8-append done (block_bytes blocks ++ rest) count off h,
  count_lem,
  le→leb (off + 1 + length blocks * 8) (length bs)
      (omega (arith, total, length-block_bytes blocks)),
  read,
  size,
)
  where
    count : ℕ
    count = length blocks % 2 ^ 8

    bs : List ℕ
    bs = done ++ (count ∷ (block_bytes blocks ++ rest))

    total : length bs ≡ off + 1 + length (block_bytes blocks) + length rest
    total = omega (
      arith,
      length-append done (count ∷ (block_bytes blocks ++ rest)),
      length-append (block_bytes blocks) rest,
    )

    count_lem : min count 4 ≡ length blocks
    count_lem = omega arith

    read :
        get_blocks bs (off + 1) (length blocks) ≡ ok (blocks, off + 1 + length (block_bytes blocks))
    read = rw (← append_assoc done (count ∷ []) (block_bytes blocks ++ rest)) (
        get_blocks-append blocks (done ++ (count ∷ [])) rest (off + 1)
          (omega (arith, length-append done (count ∷ []))) fit)

    size : off + 1 + length (block_bytes blocks) ≡ off + length (sack_bytes true blocks)
    size = omega arith

module _ (p : ReliablePacket) where
  at_ack : encode p ≡ fixed p ++ (ack_part p ++ (sack_part p ++ p.payload))
  unfolding encode
  at_ack = simp append_assoc

  at_sack : encode p ≡ (fixed p ++ ack_part p) ++ (sack_part p ++ p.payload)
  unfolding encode
  at_sack = simp append_assoc

  drop-encode : drop (9 + length (ack_part p) + length (sack_part p)) (encode p) ≡ p.payload
  unfolding encode
  drop-encode = drop-append ((fixed p ++ ack_part p) ++ sack_part p) p.payload _ 0 (
      omega (
        arith,
        length-append (fixed p ++ ack_part p) (sack_part p),
        length-append (fixed p) (ack_part p),
      ))

unmarshal_reliable-encode : (p : ReliablePacket) → IsValid p → unmarshal_reliable (encode p) ≡ ok p
unfolding unmarshal_reliable
unmarshal_reliable-encode p v = rw (
  le→leb 9 (length (encode p)) (omega (arith, length-encode p, header_size_parts p)),
  read_stream_id,
  read_flags,
  read_seq,
  read_ack,
  read_sack,
  payload,
)
  where
    behind : List ℕ
    behind = ack_part p ++ (sack_part p ++ p.payload)

    end : ℕ
    end = 9 + length (ack_part p) + length (sack_part p)

    read_stream_id : get_u32 (encode p) 0 ≡ ok p.stream_id
    read_stream_id = rw (at_ack p) (
        get_u32-append [] ((p.flags ∷ []) ++ (be32 p.seq ++ behind)) p.stream_id 0 refl
          v.stream_id_fits)

    read_flags : get_u8 (encode p) 4 ≡ ok p.flags
    read_flags =
        rw (at_ack p) (get_u8-append (be32 p.stream_id) (be32 p.seq ++ behind) p.flags 4 refl)

    read_seq : get_u32 (encode p) 5 ≡ ok p.seq
    read_seq =
        rw (at_ack p)
          (get_u32-append (be32 p.stream_id ++ (p.flags ∷ [])) behind p.seq 5 refl v.seq_fits)

    read_ack : get_ack (has p.flags flag_ack) (encode p) ≡ ok (p.ack, 9 + length (ack_part p))
    read_ack = rw (at_ack p) (
        get_ack-append (has p.flags flag_ack) (fixed p) (sack_part p ++ p.payload) p.ack refl
          v.ack_fits v.no_ack)

    read_sack :
        get_sack (has p.flags flag_sack) (encode p) (9 + length (ack_part p))
        ≡ ok (p.sack_blocks, end)
    read_sack = rw (at_sack p) (
        get_sack-append (has p.flags flag_sack) (fixed p ++ ack_part p) p.payload p.sack_blocks
          (9 + length (ack_part p)) (omega arith) v.few_blocks v.blocks_fit v.no_sack)

    payload : (if ltb end (length (encode p)) then drop end (encode p) else []) ≡ p.payload
    payload = rw (drop-encode p) (
        rest_if end (length (encode p)) p.payload
          (omega (arith, length-encode p, header_size_parts p)))

-- `UnmarshalReliable` reads back the valid packet that `ReliablePacket.Marshal` wrote.
pub unmarshal_reliable-marshal :
    (p : ReliablePacket) → IsValid p → (marshal p >>= unmarshal_reliable) ≡ ok p
unmarshal_reliable-marshal p v = rw (marshal-encode p) (unmarshal_reliable-encode p v)
