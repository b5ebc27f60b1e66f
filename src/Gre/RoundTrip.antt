-- ===== src/Gre/RoundTrip.antt =====
-- The parsers of pkg/gre/gre.go against its writers.
use shadow_gre.Prelude.{
  ℕ, ◌+◌, bit_and, ◌≡◌, refl, ap, Bool, true, false, List, [], ◌++◌, append_assoc, arith, length,
  length-append, drop-append, le→leb, ==_iff, ok, ◌>>=◌,
}
use shadow_gre.Wire.{IsU16, IsU32, be16, be32, get_u16, has}
use shadow_gre.Wire.Reads.{get_u16-append, get_u32-append}
use shadow_gre.Gre.{
  Header, Packet, flag_checksum, flag_key, flag_sequence, header_size, get_if, get_checksum_if,
  unmarshal, unmarshal_packet, marshal_packet, new_packet,
}
use shadow_gre.Gre.Format.{
  opt, checksum_bytes, key_bytes, sequence_bytes, encode, length-encode, marshal_packet-encode,
  header_size_parts,
}

-- A version-0 header with its fields in range, and 0 in the fields whose flag is not set.
pub record IsValid (h : Header) : Type 0 where
  pub flags_fit : IsU16 h.flags
  pub version : bit_and h.flags 7 ≡ 0
  pub protocol_fits : IsU16 h.protocol_type
  pub checksum_fits : IsU16 h.checksum
  pub reserved1_fits : IsU16 h.reserved1
  pub key_fits : IsU32 h.key
  pub sequence_fits : IsU32 h.sequence
  pub no_checksum : has h.flags flag_checksum ≡ false → (h.checksum ≡ 0) × (h.reserved1 ≡ 0)
  pub no_key : has h.flags flag_key ≡ false → h.key ≡ 0
  pub no_sequence : has h.flags flag_sequence ≡ false → h.sequence ≡ 0

get_if-append :
    (c : Bool) (done rest : List ℕ) (v off : ℕ)
    → off ≡ length done
    → IsU32 v
    → (c ≡ false → v ≡ 0)
    → get_if c (done ++ (opt c (be32 v) ++ rest)) off ≡ ok (v, off + length (opt c (be32 v)))
unfolding get_if
get_if-append false done rest v off h k z = ap ok (ground (arith, z refl))
get_if-append true done rest v off h k z = rw (
  le→leb (off + 4) (length (done ++ (be32 v ++ rest)))
      (omega (arith, length-append done (be32 v ++ rest))),
  get_u32-append done rest v off h k,
)

get_checksum_if-append :
    (c : Bool) (done rest : List ℕ) (v r off : ℕ)
    → off ≡ length done
    → IsU16 v
    → IsU16 r
    → (c ≡ false → (v ≡ 0) × (r ≡ 0))
    → get_checksum_if c (done ++ (opt c (be16 v ++ be16 r) ++ rest)) off
      ≡ ok (v, r, off + length (opt c (be16 v ++ be16 r)))
unfolding get_checksum_if
get_checksum_if-append false done rest v r off h kv kr z = ap ok (ground (arith, z refl))
get_checksum_if-append true done rest v r off h kv kr z = rw (
  le→leb (off + 4) (length (done ++ (be16 v ++ (be16 r ++ rest))))
      (omega (arith, length-append done (be16 v ++ (be16 r ++ rest)))),
  get_u16-append done (be16 r ++ rest) v off h kv,
  second,
)
  where
    second : get_u16 (done ++ (be16 v ++ (be16 r ++ rest))) (off + 2) ≡ ok r
    second = rw (← append_assoc done (be16 v) (be16 r ++ rest)) (
        get_u16-append (done ++ be16 v) rest r (off + 2)
          (omega (arith, length-append done (be16 v))) kr)

-- The bytes of a header and what follows, cut before the key and before the sequence number.
module _ (h : Header) (rest : List ℕ) where
  start : List ℕ
  start = be16 h.flags ++ be16 h.protocol_type

  at_checksum :
      encode h ++ rest ≡ start ++ (checksum_bytes h ++ (key_bytes h ++ (sequence_bytes h ++ rest)))
  unfolding encode start
  at_checksum = simp append_assoc

  at_key :
      encode h ++ rest ≡ (start ++ checksum_bytes h) ++ (key_bytes h ++ (sequence_bytes h ++ rest))
  unfolding encode start
  at_key = simp append_assoc

  at_sequence :
      encode h ++ rest ≡ ((start ++ checksum_bytes h) ++ key_bytes h) ++ (sequence_bytes h ++ rest)
  unfolding encode start
  at_sequence = simp append_assoc

-- `Unmarshal` reads back a valid header, whatever follows it, with the offset of what follows.
pub unmarshal-encode :
    (h : Header) (rest : List ℕ) → IsValid h → unmarshal (encode h ++ rest) ≡ ok (h, header_size h)
unfolding unmarshal start
unmarshal-encode h rest v = rw (
  le→leb 4 (length bs) (omega (arith, ap length (at_checksum h rest))),
  read_flags,
  read_protocol_type,
  (==_iff (bit_and h.flags 7) 0).1 v.version,
  read_checksum,
  read_key,
  read_sequence,
  header_size_parts h,
)
  where
    bs : List ℕ
    bs = encode h ++ rest

    read_flags : get_u16 bs 0 ≡ ok h.flags
    read_flags = rw (at_checksum h rest) (
        get_u16-append []
          (be16 h.protocol_type
            ++ (checksum_bytes h ++ (key_bytes h ++ (sequence_bytes h ++ rest))))
          h.flags 0 refl v.flags_fit)

    read_protocol_type : get_u16 bs 2 ≡ ok h.protocol_type
    read_protocol_type = rw (at_checksum h rest) (
        get_u16-append (be16 h.flags)
          (checksum_bytes h ++ (key_bytes h ++ (sequence_bytes h ++ rest))) h.protocol_type 2 refl
          v.protocol_fits)

    read_checksum :
        get_checksum_if (has h.flags flag_checksum) bs 4
        ≡ ok (h.checksum, h.reserved1, 4 + length (checksum_bytes h))
    read_checksum = rw (at_checksum h rest) (
        get_checksum_if-append (has h.flags flag_checksum) (start h rest)
          (key_bytes h ++ (sequence_bytes h ++ rest)) h.checksum h.reserved1 4 refl v.checksum_fits
          v.reserved1_fits v.no_checksum)

    read_key :
        get_if (has h.flags flag_key) bs (4 + length (checksum_bytes h))
        ≡ ok (h.key, 4 + length (checksum_bytes h) + length (key_bytes h))
    read_key = rw (at_key h rest) (
        get_if-append (has h.flags flag_key) (start h rest ++ checksum_bytes h)
          (sequence_bytes h ++ rest) h.key (4 + length (checksum_bytes h))
          (omega (arith, length-append (start h rest) (checksum_bytes h))) v.key_fits v.no_key)

    read_sequence :
        get_if (has h.flags flag_sequence) bs (4 + length (checksum_bytes h) + length (key_bytes h))
        ≡ ok (
          h.sequence,
          4 + length (checksum_bytes h) + length (key_bytes h) + length (sequence_bytes h),
        )
    read_sequence = rw (at_sequence h rest) (
        get_if-append (has h.flags flag_sequence)
          ((start h rest ++ checksum_bytes h) ++ key_bytes h) rest h.sequence
          (4 + length (checksum_bytes h) + length (key_bytes h))
          (omega (
            arith,
            length-append (start h rest) (checksum_bytes h),
            length-append (start h rest ++ checksum_bytes h) (key_bytes h),
          ))
          v.sequence_fits v.no_sequence)

-- `UnmarshalPacket` reads back the packet that `Packet.Marshal` wrote, payload included, if its
-- header is a valid one.
pub unmarshal_packet-marshal_packet :
    (p : Packet) → IsValid p.header → (marshal_packet p >>= unmarshal_packet) ≡ ok p
unfolding unmarshal_packet
unmarshal_packet-marshal_packet p v = rw (
  marshal_packet-encode p,
  unmarshal-encode p.header p.payload v,
  drop-append (encode p.header) p.payload (header_size p.header) 0
      (omega (arith, length-encode p.header)),
)

-- So the packets of `NewPacket`, which the transport sends, are read back.
pub new_packet-IsValid :
    (key : ℕ) (payload : List ℕ) → IsU32 key → IsValid (new_packet key payload).header
unfolding new_packet
new_packet-IsValid key payload h = record {
  flags_fit = omega arith;
  version = refl;
  protocol_fits = omega arith;
  checksum_fits = omega arith;
  reserved1_fits = omega arith;
  key_fits = h;
  sequence_fits = omega arith;
  no_checksum = λ _. (refl, refl);
  no_key = λ e. cc;
  no_sequence = λ _. refl;
}
