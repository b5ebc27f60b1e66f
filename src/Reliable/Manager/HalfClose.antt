-- ===== src/Reliable/Manager/HalfClose.antt =====
-- What a manager sends on a stream that its peer has closed.
use shadow_gre.Prelude.{
  ℕ, ◌<◌, ◌^◌, ◌≡◌, refl, ap, ◌∙◌, true, false, none, some, List, [], ◌∷◌, arith, lookup,
  lookup-insert, ==_self, Outcome,
}
use shadow_gre.Wire.{has}
use shadow_gre.Reliable.Packet.{ReliablePacket, flag_close, flag_data}
use shadow_gre.Reliable.Seq.{seq_greater}
use shadow_gre.Reliable.Rtt.{Float64}
use shadow_gre.Reliable.Congestion.{initial_cwnd}
use shadow_gre.Reliable.Receiver.{Receiver, new_receiver, process_data, send_ack_now, send_ack}
use shadow_gre.Reliable.Sender.{new_sender}
use shadow_gre.Reliable.Stream.{
  ReliableStream, Round, signalled, wait_for_window, new_reliable_stream, take_seq, store_and_send,
  data_packet, transmit, send,
}
use shadow_gre.Reliable.Manager.{Manager, get_or_create_stream, receive_packet, send_on}
use shadow_gre.Reliable.Manager.Close.{receive_packet_streams}

-- What `waitForWindow` reads on a new stream.
abbrev pub opening : Round
opening = record { closed = false; cwnd = initial_cwnd; send_base = 0; wake = signalled }

-- The first packet of a stream, for a receiver that has had it already.
first_again :
    (r : Receiver) (payload : List ℕ)
    → 0 < r.recv_next
    → r.recv_next < 2 ^ 31
    → (process_data r 0 payload).delivered ≡ r.delivered
unfolding process_data seq_greater send_ack_now send_ack
first_again r payload pos small = ground arith

module _ (fl : Float64) where
  -- The first packet that a new stream sends.
  abbrev first_packet : ℕ → List ℕ → ReliablePacket
  first_packet id payload = record {
    stream_id = id;
    flags = flag_data;
    seq = 0;
    ack = 0;
    sack_blocks = [];
    payload = payload;
  }

  send-new :
      (id : ℕ) (payload : List ℕ) (now : ℕ) (result : ReliablePacket → Outcome (Unit {0}))
      → (send fl
          (new_reliable_stream fl id)
          payload
          (opening ∷ [])
          (λ s. s)
          now
          result).0.sender.sent
        ≡ first_packet id payload ∷ []
  unfolding send new_reliable_stream new_sender new_receiver wait_for_window take_seq transmit
      store_and_send data_packet
  send-new id payload now result = refl

  -- The defect of the half-close. A peer that closes its side of a stream has the stream removed.
  -- What is sent on it from then on, which is the rest of the reply, goes out on a new stream and so
  -- with sequence number 0; and a peer that has got part of the reply already, fewer than 2^31 packets,
  -- takes that packet for an old one and delivers nothing.
  pub reply_after_close :
      (m : Manager fl) (fin : ReliablePacket) (payload : List ℕ) (now later : ℕ)
      (result : ReliablePacket → Outcome (Unit {0}))
      → has fin.flags flag_close ≡ true
      → let m' =
          (send_on fl
            (receive_packet fl m fin now)
            fin.stream_id
            payload
            (opening ∷ [])
            (λ s. s)
            later
            result).0 in
        (s : ReliableStream fl) × (pkt : ReliablePacket) × (lookup fin.stream_id m'.streams
          ≡ some s)
        × (s.sender.sent ≡ pkt ∷ [])
        × (pkt.payload ≡ payload)
        × ((r : Receiver)
            → 0 < r.recv_next
            → r.recv_next < 2 ^ 31
            → (process_data r pkt.seq pkt.payload).delivered ≡ r.delivered)
  unfolding send_on
  reply_after_close m fin payload now later result is_fin = (
    sending (get_or_create_stream fl m₁ fin.stream_id).0,
    first_packet fin.stream_id payload,
    rw (
      lookup-insert fin.stream_id fin.stream_id
          (sending (get_or_create_stream fl m₁ fin.stream_id).0)
          (get_or_create_stream fl m₁ fin.stream_id).1.streams,
      ==_self fin.stream_id,
    ),
    ap (λ s. (sending s).sender.sent) fresh ∙ send-new fin.stream_id payload later result,
    refl,
    λ r pos small. first_again r payload pos small,
  )
    where
      m₁ : Manager fl
      m₁ = receive_packet fl m fin now

      sending : ReliableStream fl → ReliableStream fl
      sending s = (send fl s payload (opening ∷ []) (λ t. t) later result).0

      gone : lookup fin.stream_id m₁.streams ≡ none
      gone = ((receive_packet_streams fl m fin now).1 is_fin).0

      fresh : (get_or_create_stream fl m₁ fin.stream_id).0 ≡ new_reliable_stream fl fin.stream_id
      fresh = unfold get_or_create_stream in rw (get_or_create_stream, gone)
