-- ===== src/Transport/ZeroCopy.antt =====
-- The two ways to send, one against the other.
use shadow_gre.Prelude.{
  ℕ, ◌+◌, ◌≡◌, sym, ap, ◌∙◌, inl, inr, Bool, Bool-cases, if◌then◌else◌, List, ◌++◌, append_assoc,
  arith, length, take, length-append, take-append, drop-append, le→leb, Option, Error, ok, ◌>>=◌,
}
use shadow_gre.Wire.{put}
use shadow_gre.Gre.{new_packet, marshal_packet}
use shadow_gre.Gre.Format.{encode, marshal_packet-encode}
use shadow_gre.Transport.{key_header, with_header}
use shadow_gre.Transport.Raw.{RawTransport, send, send_zero_copy}
use shadow_gre.Transport.Server.{ServerTransport, send_to, send_zero_copy_to}

-- The bytes of the packets that the transport sends.
pub marshal_packet-new_packet :
    (key : ℕ) (payload : List ℕ)
    → marshal_packet (new_packet key payload) ≡ ok (key_header key ++ payload)
unfolding new_packet encode
marshal_packet-new_packet key payload = marshal_packet-encode (new_packet key payload)

module _ (front payload rest : List ℕ) (eight : length front ≡ 8) where
  abbrev pub buf : List ℕ
  buf = front ++ (payload ++ rest)

  -- What the buffer holds after a sending.
  abbrev pub left : Bool → ℕ → List ℕ
  left closed key = if closed then buf else key_header key ++ (payload ++ rest)

  taken :
      (key : ℕ)
      → take (8 + length payload) (key_header key ++ (payload ++ rest)) ≡ key_header key ++ payload
  taken key =
      ap (λ l. take (8 + length payload) l) (sym (append_assoc (key_header key) payload rest))
      ∙ take-append (key_header key ++ payload) rest (8 + length payload) (omega arith)

  with_header_bytes :
      (key : ℕ)
      → with_header key buf (8 + length payload)
        ≡ ok (key_header key ++ (payload ++ rest), key_header key ++ payload)
  unfolding with_header put
  with_header_bytes key = rw (
    le→leb 8 (length buf) (omega (arith, eight, length-append front (payload ++ rest))),
    drop-append front (payload ++ rest) 8 0 (omega (arith, eight)),
    le→leb (8 + length payload) (length (key_header key ++ (payload ++ rest)))
        (omega (arith, length-append payload rest)),
    taken key,
  )

  -- `SendZeroCopy` on a buffer with eight bytes before the payload does what `Send` does with the
  -- payload, on both transports: the same packet to the same address, the same counters, the same
  -- error, also on a closed transport. The buffer then holds the header, the payload and what stood
  -- behind it; a closed transport leaves it as it was.
  pub zero_copy_agrees :
      (t : RawTransport) (s : ServerTransport) (client_ip : ℕ) (result : Option Error)
      → (send_zero_copy t buf 8 (length payload) result
          ≡ (send t payload result >>= λ (t', e). ok (t', left t.closed t.key, e)))
        × (send_zero_copy_to s client_ip buf 8 (length payload) result
            ≡ (send_to s client_ip payload result >>= λ (s', e). ok (s', left s.closed s.key, e)))
  unfolding send_zero_copy send send_zero_copy_to send_to
  zero_copy_agrees t s client_ip result = (raw, server)
    where
      raw :
          send_zero_copy t buf 8 (length payload) result
          ≡ (send t payload result >>= λ (t', e). ok (t', left t.closed t.key, e))
      raw = elim (Bool-cases t.closed) [
        | inl e ↦ rw e
        | inr e ↦ rw (e, with_header_bytes t.key, marshal_packet-new_packet t.key payload)
      ]

      server :
          send_zero_copy_to s client_ip buf 8 (length payload) result
          ≡ (send_to s client_ip payload result >>= λ (s', e). ok (s', left s.closed s.key, e))
      server = elim (Bool-cases s.closed) [
        | inl e ↦ rw e
        | inr e ↦ rw (e, with_header_bytes s.key, marshal_packet-new_packet s.key payload)
      ]
