-- ===== src/Transport.antt =====
-- pkg/transport: GRE packets over a raw IP socket. An IP address is a number: `IP.Equal` compares the
-- addresses, and `IP.String` is another text for another address. The socket is what the source sees
-- of it: what `ReadFromIP` returns, one event after another, and the error that `WriteToIP` returns,
-- an argument of the operation that calls it.
pub mod Raw
pub mod Server
pub mod ZeroCopy
pub mod Tunnel
use shadow_gre.Prelude.{
  ℕ, List, [], ◌∷◌, ◌++◌, take, Outcome, ok, panic, leb, length, if◌then◌else◌, ◌>>=◌,
}
use shadow_gre.Wire.{be32, put}

-- What the receive loop meets: a packet and its source address, an error, or that `Close` was called.
pub data Event : Type 0 where
  reads : ℕ → List ℕ → Event
  read_fails : Event
  closes : Event

-- The size of the buffer that `ReadFromIP` fills.
abbrev pub read_buffer_size : ℕ
read_buffer_size = 65535

-- The eight bytes that `SendZeroCopy` writes, for a key.
abbrev pub key_header : ℕ → List ℕ
key_header key = 0x20 ∷ 0x00 ∷ 0x65 ∷ 0x58 ∷ be32 key

-- `buf` with the header at its front, and `buf[:total]`. A slice has no more capacity than bytes here.
unfoldable pub with_header : ℕ → List ℕ → ℕ → Outcome (List ℕ × List ℕ)
with_header key buf total = put buf 0 (key_header key) >>= λ b.
    (if leb total (length b) then ok (b, take total b) else panic)
