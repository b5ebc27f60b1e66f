-- ===== src/Tests/Streams.antt =====
-- A stream that has something to acknowledge, and a manager with one stream.
use shadow_gre.Prelude.{
  lookup, ◌≡◌, ◌<◌, ◌^◌, Outcome, ◌++◌, refl, true, false, none, some, List, [], ◌∷◌, ℕ, arith, ok,
}
use shadow_gre.Wire.{has}
use shadow_gre.Reliable.Packet.{ReliablePacket, flag_data, flag_close}
use shadow_gre.Reliable.Receiver.{Receiver, new_receiver, process_data}
use shadow_gre.Reliable.Stream.{ReliableStream, new_reliable_stream, Round, timed_out, signalled}
use shadow_gre.Reliable.Manager.{Manager, new_reliable_manager, receive_packet, send_on}
use shadow_gre.Reliable.Manager.Close.{receive_packet_streams, data_after_close}
use shadow_gre.Reliable.Manager.HalfClose.{opening, reply_after_close}
use shadow_gre.Tests.Floats.{eighths}

-- It waits for the packet 3 and holds the packet 5.
abbrev receiver : Receiver
receiver = record (new_receiver 7) {
  recv_next = 3;
  out_of_order = (5, 1 ∷ []) ∷ [];
  pending_ack = true;
}

abbrev stream : ReliableStream eighths
stream = record (new_reliable_stream eighths 7) { receiver = receiver }

-- The window is full, then it opens.
abbrev rounds : List Round
rounds =
    record { closed = false; cwnd = 4; send_base = 0; wake = timed_out }
    ∷ record { closed = false; cwnd = 4; send_base = 2; wake = signalled }
    ∷ []

abbrev manager : Manager eighths
manager = record (new_reliable_manager eighths) { streams = (7, stream) ∷ [] }

abbrev packet : ℕ → ℕ → ReliablePacket
packet flags seq = record {
  stream_id = 7;
  flags = flags;
  seq = seq;
  ack = 0;
  sack_blocks = [];
  payload = 1 ∷ [];
}

receive_packet_streams_example :
    let m' = receive_packet eighths manager (packet flag_data 3) 100 in
    ((j : ℕ) → ¬ (j ≡ 7) → lookup j m'.streams ≡ lookup j manager.streams)
    × (has flag_data flag_close ≡ true
        → (lookup 7 m'.streams ≡ none)
          × (m'.closes ≡ manager.closes ++ (7 ∷ []))
          × ((s : ReliableStream eighths) × (m'.removed ≡ manager.removed ++ (s ∷ []))
              × (s.closed ≡ true)))
    × (has flag_data flag_close ≡ false
        → ((s : ReliableStream eighths) × (lookup 7 m'.streams ≡ some s))
          × (m'.closes ≡ manager.closes)
          × (m'.removed ≡ manager.removed))
receive_packet_streams_example = receive_packet_streams eighths manager (packet flag_data 3) 100

-- The close overtakes the packet 3, for which the stream waits.
data_after_close_example :
    (s : ReliableStream eighths) × (lookup 7
        (receive_packet eighths
          (receive_packet eighths manager (packet flag_close 6) 100)
          (packet flag_data 3)
          200).streams
      ≡ some s)
    × (s.receiver.delivered ≡ [])
    × (s.receiver.recv_next ≡ 0)
    × (s.receiver.out_of_order ≡ (3, 1 ∷ []) ∷ [])
data_after_close_example =
    data_after_close eighths manager (packet flag_close 6) (packet flag_data 3) 100 200 refl refl
      refl (omega arith) (omega arith) (omega arith)

-- The carrier takes every packet.
abbrev takes_all : ReliablePacket → Outcome (Unit {0})
takes_all pkt = ok tt

-- The client closes its side, then the server sends two more bytes.
reply_after_close_example :
    let m' =
      (send_on eighths
        (receive_packet eighths manager (packet flag_close 3) 100)
        7
        (8 ∷ 9 ∷ [])
        (opening ∷ [])
        (λ s. s)
        200
        takes_all).0 in
    (s : ReliableStream eighths) × (pkt : ReliablePacket) × (lookup 7 m'.streams ≡ some s)
    × (s.sender.sent ≡ pkt ∷ [])
    × (pkt.payload ≡ 8 ∷ 9 ∷ [])
    × ((r : Receiver)
        → 0 < r.recv_next
        → r.recv_next < 2 ^ 31
        → (process_data r pkt.seq pkt.payload).delivered ≡ r.delivered)
reply_after_close_example =
    reply_after_close eighths manager (packet flag_close 3) (8 ∷ 9 ∷ []) 100 200 takes_all refl
