-- ===== src/Reliable/Link.antt =====
-- Two `ReliableStream`s of pkg/tunnel/reliable.go, the peers of one stream, and the carrier between
-- them, which may lose a packet, repeat it, or let a later one overtake it.
pub mod Resend
pub mod Arrivals
pub mod Honest
pub mod Sound
pub mod Moves
pub mod Agreement
use shadow_gre.Prelude.{ℕ, ◌+◌, ◌%◌, ◌^◌, ◌<◌, ◌⊎◌, List, if◌then◌else◌, Outcome, ok, ◌≡◌}
use mathlib.Core.List.{Memᴰ}
use shadow_gre.Reliable.Packet.{ReliablePacket, marshal, unmarshal_reliable}
use shadow_gre.Reliable.Rtt.{Float64}
use shadow_gre.Reliable.Receiver.{ack_timer_fires}
use shadow_gre.Reliable.Sender.{check_retransmit}
use shadow_gre.Reliable.Stream.{
  ReliableStream, new_reliable_stream, take_seq, transmit, send_close, receive, close,
}

-- One peer. `payloads` are the data of its `Send` calls, by the place at which a call has taken its
-- sequence number, and `taken` counts the numbers that are taken.
pub record End (fl : Float64) : Type 0 where
  pub stream : ReliableStream fl
  pub payloads : ℕ → List ℕ
  pub taken : ℕ

module _ (fl : Float64) where
  abbrev pub new_end : ℕ → (ℕ → List ℕ) → End fl
  new_end id payloads = record {
    stream = new_reliable_stream fl id;
    payloads = payloads;
    taken = 0;
  }

  -- `pkt` has been handed to the carrier.
  abbrev pub HasSent : End fl → ReliablePacket → Type 0
  HasSent e pkt = Memᴰ pkt e.stream.sender.sent ⊎ Memᴰ pkt e.stream.receiver.sent

  abbrev pub sends_close : End fl → ℕ → (ReliablePacket → Outcome (Unit {0})) → End fl
  sends_close e now result = record e {
    stream = (send_close fl e.stream now result).0;
    taken = if e.stream.closed then e.taken else e.taken + 1;
  }

  -- What one peer does. `Send` takes its number in one step and sends in a later one, with steps of
  -- other goroutines between; what is received is the parse of the bytes of a packet that the other peer
  -- `p` has sent.
  pub data Move (p e : End fl) : End fl → Type 0 where
    takes_seq : Move p e (record e { stream = (take_seq fl e.stream).1; taken = e.taken + 1 })
    transmits :
        (i now : ℕ)
        → i < e.taken
        → Move p e (record e { stream = transmit fl e.stream (i % 2 ^ 32) (e.payloads i) now })
    closes_sending :
        (now : ℕ) (result : ReliablePacket → Outcome (Unit {0}))
        → Move p e (sends_close e now result)
    fires_ack_timer :
        Move p e
          (record e { stream = record e.stream { receiver = ack_timer_fires e.stream.receiver } })
    checks_retransmit :
        (now : ℕ)
        → Move p e (record e {
          stream = record e.stream { sender = check_retransmit fl e.stream.sender now };
        })
    receives :
        (pkt parsed : ReliablePacket) (bs : List ℕ) (now : ℕ)
        → HasSent p pkt
        → marshal pkt ≡ ok bs
        → unmarshal_reliable bs ≡ ok parsed
        → Move p e (record e { stream = (receive fl e.stream parsed now).0 })
    closes : Move p e (record e { stream = close fl e.stream })

  -- Both peers and their moves, in any order.
  pub data Reach (id : ℕ) (sa sb : ℕ → List ℕ) : End fl → End fl → Type 0 where
    both_new : Reach id sa sb (new_end id sa) (new_end id sb)
    left_moves : {a b a' : End fl} → Reach id sa sb a b → Move b a a' → Reach id sa sb a' b
    right_moves : {a b b' : End fl} → Reach id sa sb a b → Move a b b' → Reach id sa sb a b'
