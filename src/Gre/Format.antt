-- ===== src/Gre/Format.antt =====
-- The bytes of a GRE packet, and the writers of pkg/gre/gre.go against them.
use shadow_gre.Prelude.{
  ℕ, ◌+◌, ◌≤◌, ◌≡◌, refl, ap, Bool, true, false, List, [], ◌++◌, append-nil, append_assoc, arith,
  length, drop, length-append, if◌then◌else◌, ok,
}
use shadow_gre.Wire.{be16, be32, make, has}
use shadow_gre.Wire.Writes.{put-append, copy-append, length-make, drop-make}
use shadow_gre.Gre.{
  Header, Packet, four_if, flag_checksum, flag_key, flag_sequence, header_size, put_if, put_header,
  marshal, marshal_packet, marshal_packet_to,
}

-- A field that is there if its flag is set.
abbrev pub opt : Bool → List ℕ → List ℕ
opt c bs = if c then bs else []

abbrev pub checksum_bytes : Header → List ℕ
checksum_bytes h = opt (has h.flags flag_checksum) (be16 h.checksum ++ be16 h.reserved1)

abbrev pub key_bytes : Header → List ℕ
key_bytes h = opt (has h.flags flag_key) (be32 h.key)

abbrev pub sequence_bytes : Header → List ℕ
sequence_bytes h = opt (has h.flags flag_sequence) (be32 h.sequence)

-- The header as RFC 2784 and RFC 2890 lay it out.
unfoldable pub encode : Header → List ℕ
encode h =
    be16 h.flags
    ++ (be16 h.protocol_type ++ (checksum_bytes h ++ (key_bytes h ++ sequence_bytes h)))

length-opt :
    (c : Bool) (bs : List ℕ) → length bs ≡ 4 → (n : ℕ) → n + length (opt c bs) ≡ four_if c n
length-opt true bs e n = omega arith
length-opt false bs e n = omega arith

pub header_size_parts :
    (h : Header)
    → 4 + length (checksum_bytes h) + length (key_bytes h) + length (sequence_bytes h)
      ≡ header_size h
unfolding header_size
header_size_parts h = rw (
  length-opt (has h.flags flag_checksum) (be16 h.checksum ++ be16 h.reserved1) refl 4,
  length-opt (has h.flags flag_key) (be32 h.key) refl,
  length-opt (has h.flags flag_sequence) (be32 h.sequence) refl,
)

put_if-append :
    (c : Bool) (buf done bs : List ℕ) (off : ℕ)
    → off ≡ length done
    → off + length (opt c bs) ≤ length buf
    → put_if c (done ++ drop off buf) off bs
      ≡ ok ((done ++ opt c bs) ++ drop (off + length (opt c bs)) buf, off + length (opt c bs))
unfolding put_if
put_if-append true buf done bs off h k = rw (put-append buf done bs off h k)
put_if-append false buf done bs off h k =
    rw append-nil (ap (λ (n : ℕ). ok (done ++ drop n buf, n)) (omega arith))

pub length-encode : (h : Header) → length (encode h) ≡ header_size h
unfolding encode
length-encode h = omega (
  arith,
  header_size_parts h,
  length-append (checksum_bytes h) (key_bytes h ++ sequence_bytes h),
  length-append (key_bytes h) (sequence_bytes h),
)

-- Both writers fill the front of a long enough buffer with the header, and leave the rest.
pub put_header-encode :
    (h : Header) (buf : List ℕ)
    → header_size h ≤ length buf
    → put_header h buf ≡ ok (encode h ++ drop (header_size h) buf)
unfolding put_header encode
put_header-encode h buf fits =
    rw
      (
        put-append buf [] (be16 h.flags) 0 refl (omega (arith, size)),
        put-append buf (be16 h.flags) (be16 h.protocol_type) 2 refl (omega (arith, size)),
        put_if-append (has h.flags flag_checksum) buf d2 (be16 h.checksum ++ be16 h.reserved1) 4
            refl (omega (arith, size)),
        put_if-append (has h.flags flag_key) buf d3 (be32 h.key) (4 + length (checksum_bytes h))
            (omega arith) (omega (arith, size)),
        put_if-append (has h.flags flag_sequence) buf d4 (be32 h.sequence)
            (4 + length (checksum_bytes h) + length (key_bytes h))
            (omega (arith, length-append d3 (key_bytes h))) (omega (arith, size)),
        size,
      )
      (simp (opt, append_assoc))
  where
    size :
        4 + length (checksum_bytes h) + length (key_bytes h) + length (sequence_bytes h)
        ≡ header_size h
    size = header_size_parts h

    d2 : List ℕ
    d2 = be16 h.flags ++ be16 h.protocol_type

    d3 : List ℕ
    d3 = d2 ++ checksum_bytes h

    d4 : List ℕ
    d4 = d3 ++ key_bytes h

-- `Header.Marshal` returns the bytes of the header, and nothing else.
pub marshal-encode : (h : Header) → marshal h ≡ ok (encode h)
unfolding marshal
marshal-encode h = rw (
  put_header-encode h (make (header_size h)) (omega (arith, length-make (header_size h))),
  drop-make (header_size h) (header_size h) (omega arith),
  append-nil,
)

-- `Packet.Marshal` returns the header's bytes and the payload.
pub marshal_packet-encode : (p : Packet) → marshal_packet p ≡ ok (encode p.header ++ p.payload)
unfolding marshal_packet
marshal_packet-encode p = rw (
  marshal-encode p.header,
  copy-append (make total) [] (encode p.header) 0 refl (omega (arith, length-make total)),
  from_start,
  copy-append (make total) (encode p.header) p.payload (length (encode p.header)) refl
      (omega (arith, length-make total)),
  drop-make total total (omega arith),
  append-nil,
)
  where
    total : ℕ
    total = length (encode p.header) + length p.payload

    from_start : 0 + length (encode p.header) ≡ length (encode p.header)
    from_start = omega arith

-- `Packet.MarshalTo` agrees with `Packet.Marshal` on a buffer with room: it fills the front with the
-- same bytes, returns their number, and leaves the rest of the buffer as it was.
pub marshal_packet_to-marshal_packet :
    (p : Packet) (buf : List ℕ)
    → header_size p.header + length p.payload ≤ length buf
    → (bs : List ℕ) × (marshal_packet p ≡ ok bs)
      × (length bs ≡ header_size p.header + length p.payload)
      × (marshal_packet_to p buf ≡ ok (bs ++ drop (length bs) buf, length bs))
unfolding marshal_packet_to
marshal_packet_to-marshal_packet p buf fits = (
  encode p.header ++ p.payload,
  marshal_packet-encode p,
  total,
  rw (
    put_header-encode p.header buf (omega arith),
    copy-append buf (encode p.header) p.payload (header_size p.header)
        (omega (arith, length-encode p.header)) fits,
    total,
  ),
)
  where
    total : length (encode p.header ++ p.payload) ≡ header_size p.header + length p.payload
    total = omega (arith, length-append (encode p.header) p.payload, length-encode p.header)
