-- ===== src/Reliable/Packet/Format.antt =====
-- The bytes of a reliable packet, and the writers of pkg/tunnel/reliable.go against them.
use shadow_gre.Prelude.{
  ℕ, ◌+◌, ◌*◌, ◌%◌, ◌^◌, ◌≤◌, ◌≡◌, refl, ap, Bool, true, false, List, [], ◌∷◌, ◌++◌, append-nil,
  append_assoc, arith, length, drop, length-append, if◌then◌else◌, ok,
}
use shadow_gre.Wire.{be32, make, has}
use shadow_gre.Wire.Writes.{put-append, copy-append, length-make, drop-make}
use shadow_gre.Reliable.Packet.{
  SackBlock, ReliablePacket, flag_ack, flag_sack, header_size, put_blocks, put_ack, put_sack,
  put_payload, marshal_to, marshal,
}

abbrev pub block_bytes : List SackBlock → List ℕ
block_bytes [] = []
block_bytes (b ∷ bs) = (be32 b.left ++ be32 b.right) ++ block_bytes bs

abbrev pub ack_bytes : Bool → ℕ → List ℕ
ack_bytes c ack = if c then be32 ack else []

abbrev pub sack_bytes : Bool → List SackBlock → List ℕ
sack_bytes c blocks = if c then (length blocks % 2 ^ 8) ∷ block_bytes blocks else []

-- The fixed part of the header.
abbrev pub fixed : ReliablePacket → List ℕ
fixed p = be32 p.stream_id ++ ((p.flags ∷ []) ++ be32 p.seq)

abbrev pub ack_part : ReliablePacket → List ℕ
ack_part p = ack_bytes (has p.flags flag_ack) p.ack

abbrev pub sack_part : ReliablePacket → List ℕ
sack_part p = sack_bytes (has p.flags flag_sack) p.sack_blocks

-- A packet as DESIGN.md lays it out.
unfoldable pub encode : ReliablePacket → List ℕ
encode p = ((fixed p ++ ack_part p) ++ sack_part p) ++ p.payload

pub length-block_bytes : (blocks : List SackBlock) → length (block_bytes blocks) ≡ length blocks * 8
length-block_bytes [] = refl
length-block_bytes (b ∷ bs) = omega (arith, length-block_bytes bs)

pub length-ack_bytes : (c : Bool) (ack : ℕ) → 9 + length (ack_bytes c ack) ≡ (if c then 13 else 9)
length-ack_bytes true ack = refl
length-ack_bytes false ack = refl

length-sack_bytes :
    (c : Bool) (blocks : List SackBlock) (n : ℕ)
    → n + length (sack_bytes c blocks) ≡ (if c then n + (1 + length blocks * 8) else n)
length-sack_bytes true blocks n = omega (arith, length-block_bytes blocks)
length-sack_bytes false blocks n = omega arith

-- `HeaderSize` is what stands before the payload.
pub header_size_parts :
    (p : ReliablePacket) → 9 + length (ack_part p) + length (sack_part p) ≡ header_size p
unfolding header_size
header_size_parts p = rw (
  length-ack_bytes (has p.flags flag_ack) p.ack,
  length-sack_bytes (has p.flags flag_sack) p.sack_blocks,
)

pub length-encode : (p : ReliablePacket) → length (encode p) ≡ header_size p + length p.payload
unfolding encode
length-encode p = omega (
  arith,
  header_size_parts p,
  length-append ((fixed p ++ ack_part p) ++ sack_part p) p.payload,
  length-append (fixed p ++ ack_part p) (sack_part p),
  length-append (fixed p) (ack_part p),
)

put_blocks-append :
    (blocks : List SackBlock) (buf done : List ℕ) (off : ℕ)
    → off ≡ length done
    → off + length (block_bytes blocks) ≤ length buf
    → put_blocks (done ++ drop off buf) off blocks
      ≡ ok (
        (done ++ block_bytes blocks) ++ drop (off + length (block_bytes blocks)) buf,
        off + length (block_bytes blocks),
      )
unfolding put_blocks
put_blocks-append [] buf done off h k =
    rw append-nil (ap (λ (n : ℕ). ok (done ++ drop n buf, n)) (omega arith))
put_blocks-append (b ∷ bs) buf done off h k = rw (
  put-append buf done (be32 b.left) off h (omega arith),
  put-append buf (done ++ be32 b.left) (be32 b.right) (off + 4)
      (omega (arith, length-append done (be32 b.left))) (omega arith),
  regroup,
  put_blocks-append bs buf (done ++ (be32 b.left ++ be32 b.right)) (off + 8)
      (omega (arith, length-append done (be32 b.left ++ be32 b.right))) (omega arith),
  append_assoc done (be32 b.left ++ be32 b.right) (block_bytes bs),
  size,
)
  where
    size : off + 8 + length (block_bytes bs) ≡ off + length (block_bytes (b ∷ bs))
    size = omega arith

    regroup :
        ((done ++ be32 b.left) ++ be32 b.right) ++ drop (off + 4 + 4) buf
        ≡ (done ++ (be32 b.left ++ be32 b.right)) ++ drop (off + 8) buf
    regroup =
        rw (append_assoc done (be32 b.left) (be32 b.right))
          (ap (λ (n : ℕ). (done ++ (be32 b.left ++ be32 b.right)) ++ drop n buf) (omega arith))

put_ack-append :
    (c : Bool) (buf done : List ℕ) (ack : ℕ)
    → 9 ≡ length done
    → 9 + length (ack_bytes c ack) ≤ length buf
    → put_ack c (done ++ drop 9 buf) ack
      ≡ ok (
        (done ++ ack_bytes c ack) ++ drop (9 + length (ack_bytes c ack)) buf,
        9 + length (ack_bytes c ack),
      )
unfolding put_ack
put_ack-append true buf done ack h k = rw (put-append buf done (be32 ack) 9 h k)
put_ack-append false buf done ack h k = rw append-nil

put_sack-append :
    (c : Bool) (blocks : List SackBlock) (buf done : List ℕ) (off : ℕ)
    → off ≡ length done
    → off + length (sack_bytes c blocks) ≤ length buf
    → put_sack c (done ++ drop off buf) off blocks
      ≡ ok (
        (done ++ sack_bytes c blocks) ++ drop (off + length (sack_bytes c blocks)) buf,
        off + length (sack_bytes c blocks),
      )
unfolding put_sack
put_sack-append false blocks buf done off h k =
    rw append-nil (ap (λ (n : ℕ). ok (done ++ drop n buf, n)) (omega arith))
put_sack-append true blocks buf done off h k = rw (
  put-append buf done (count ∷ []) off h (omega arith),
  put_blocks-append blocks buf (done ++ (count ∷ [])) (off + 1)
      (omega (arith, length-append done (count ∷ []))) (omega arith),
  append_assoc done (count ∷ []) (block_bytes blocks),
  size,
)
  where
    count : ℕ
    count = length blocks % 2 ^ 8

    size : off + 1 + length (block_bytes blocks) ≡ off + length (sack_bytes true blocks)
    size = omega arith

put_payload-append :
    (buf done payload : List ℕ) (off : ℕ)
    → off ≡ length done
    → off + length payload ≤ length buf
    → put_payload (done ++ drop off buf) off payload
      ≡ ok ((done ++ payload) ++ drop (off + length payload) buf)
unfolding put_payload
put_payload-append buf done [] off h k =
    rw append-nil (ap (λ (n : ℕ). ok (done ++ drop n buf)) (omega arith))
put_payload-append buf done (x ∷ xs) off h k = rw (copy-append buf done (x ∷ xs) off h k)

-- On a buffer with room for `HeaderSize` and the payload, `MarshalTo` writes the packet's bytes,
-- returns their number, and leaves what stands behind them.
pub marshal_to-encode :
    (p : ReliablePacket) (buf : List ℕ)
    → header_size p + length p.payload ≤ length buf
    → marshal_to p buf
      ≡ ok (
        encode p ++ drop (header_size p + length p.payload) buf,
        header_size p + length p.payload,
      )
unfolding marshal_to encode
marshal_to-encode p buf fits = rw (
  put-append buf [] (be32 p.stream_id) 0 refl (omega (arith, size)),
  put-append buf (be32 p.stream_id) (p.flags ∷ []) 4 refl (omega (arith, size)),
  put-append buf (be32 p.stream_id ++ (p.flags ∷ [])) (be32 p.seq) 5 refl (omega (arith, size)),
  put_ack-append (has p.flags flag_ack) buf (fixed p) p.ack refl (omega (arith, size)),
  put_sack-append (has p.flags flag_sack) p.sack_blocks buf (fixed p ++ ack_part p)
      (9 + length (ack_part p)) (omega arith) (omega (arith, size)),
  put_payload-append buf ((fixed p ++ ack_part p) ++ sack_part p) p.payload
      (9 + length (ack_part p) + length (sack_part p))
      (omega (arith, length-append (fixed p ++ ack_part p) (sack_part p))) (omega (arith, size)),
  size,
)
  where
    size : 9 + length (ack_part p) + length (sack_part p) ≡ header_size p
    size = header_size_parts p

-- `Marshal` returns the packet's bytes: the buffer that it makes is just long enough.
pub marshal-encode : (p : ReliablePacket) → marshal p ≡ ok (encode p)
unfolding marshal
marshal-encode p = rw (
  marshal_to-encode p (make n) (omega (arith, length-make n)),
  drop-make n n (omega arith),
  append-nil,
)
  where
    n : ℕ
    n = header_size p + length p.payload
