-- ===== src/Tests/Linked.antt =====
-- Two peers: a request is sent, and a reply comes back with its acknowledgement.
use shadow_gre.Prelude.{ok, ℕ, ◌≡◌, refl, inl, List, [], ◌∷◌, bit_or, arith, lookup, insert, erase}
use mathlib.Core.List.{Memᴰ}
use shadow_gre.Wire.{get_u32, get_u8, put, copy}
use shadow_gre.Reliable.Packet.{
  marshal_to, header_size, put_ack, put_sack, put_payload, marshal, unmarshal_reliable, get_ack,
  get_sack, ReliablePacket, flag_data, flag_ack,
}
use shadow_gre.Reliable.Sender.{new_sender}
use shadow_gre.Reliable.Receiver.{
  new_receiver, with_sack, process_data, deliver_out_of_order, deliver_loop, deliver, schedule_ack,
  send_ack_now, send_ack,
}
use shadow_gre.Reliable.Sack.{build_sack_blocks, blocks_of, sort_seqs}
use shadow_gre.Reliable.Stream.{
  new_reliable_stream, take_seq, transmit, store_and_send, data_packet, receive,
}
use shadow_gre.Reliable.Link.{
  End, new_end, both_new, left_moves, right_moves, takes_seq, transmits, receives,
}
use shadow_gre.Reliable.Link as Link
use shadow_gre.Tests.Floats.{eighths}
use shadow_gre.Reliable.Link.Agreement.{Agrees, peers_agree}

abbrev pub requests : ℕ → List ℕ
requests i = 7 ∷ 8 ∷ []

abbrev pub replies : ℕ → List ℕ
replies i = 9 ∷ []

abbrev pub request : ReliablePacket
request = record {
  stream_id = 2;
  flags = flag_data;
  seq = 0;
  ack = 0;
  sack_blocks = [];
  payload = 7 ∷ 8 ∷ [];
}

abbrev reply : ReliablePacket
reply = record {
  stream_id = 2;
  flags = bit_or flag_data flag_ack;
  seq = 0;
  ack = 1;
  sack_blocks = [];
  payload = 9 ∷ [];
}

abbrev pub request_bytes : List ℕ
request_bytes = 0 ∷ 0 ∷ 0 ∷ 2 ∷ 1 ∷ 0 ∷ 0 ∷ 0 ∷ 0 ∷ 7 ∷ 8 ∷ []

abbrev reply_bytes : List ℕ
reply_bytes = 0 ∷ 0 ∷ 0 ∷ 2 ∷ 3 ∷ 0 ∷ 0 ∷ 0 ∷ 0 ∷ 0 ∷ 0 ∷ 0 ∷ 1 ∷ 9 ∷ []

pub request_written : marshal request ≡ ok request_bytes
unfolding marshal marshal_to put header_size put_ack put_sack put_payload copy
request_written = refl

pub request_parsed : unmarshal_reliable request_bytes ≡ ok request
unfolding unmarshal_reliable get_u32 get_u8 get_ack get_sack
request_parsed = refl

reply_written : marshal reply ≡ ok reply_bytes
unfolding marshal marshal_to put header_size put_ack put_sack put_payload copy
reply_written = refl

reply_parsed : unmarshal_reliable reply_bytes ≡ ok reply
unfolding unmarshal_reliable get_u32 get_u8 get_ack get_sack
reply_parsed = refl

abbrev pub client : End eighths
client =
    let e = new_end eighths 2 requests in
    let st = transmit eighths (take_seq eighths e.stream).1 0 (7 ∷ 8 ∷ []) 5 in
    record e { stream = (receive eighths st reply 9).0; taken = 1 }

abbrev pub server : End eighths
server =
    let e = new_end eighths 2 replies in
    let st = (receive eighths e.stream request 6).0 in
    record e { stream = transmit eighths (take_seq eighths st).1 0 (9 ∷ []) 7; taken = 1 }

pub linked : Link.Reach eighths 2 requests replies client server
unfolding new_reliable_stream new_receiver new_sender take_seq transmit store_and_send data_packet
    receive process_data deliver_out_of_order deliver_loop deliver schedule_ack send_ack_now
    send_ack lookup erase insert with_sack build_sack_blocks blocks_of sort_seqs
linked =
    left_moves
      (right_moves
        (right_moves
          (right_moves (left_moves (left_moves both_new takes_seq) (transmits 0 5 (omega arith))) (
            receives request request request_bytes 6 (inl (Memᴰ.head refl)) request_written
              request_parsed))
          takes_seq)
        (transmits 0 7 (omega arith)))
      (receives reply reply reply_bytes 9 (inl (Memᴰ.head refl)) reply_written reply_parsed)

peers_agree_example : Agrees eighths requests client server × Agrees eighths replies server client
peers_agree_example =
    peers_agree eighths 2 requests replies client server (omega arith) linked (omega arith)
      (omega arith)
