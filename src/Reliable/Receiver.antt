-- ===== src/Reliable/Receiver.antt =====
-- The receiving half of `ReliableStream` (pkg/tunnel/reliable.go): in-order delivery, the out-of-order
-- buffer, and delayed acknowledgements.
pub mod Order
pub mod Run
pub mod Drain
use shadow_gre.Prelude.{
  ℕ, zero, suc, ◌%◌, bit_or, Bool, true, false, none, some, List, [], ◌∷◌, ◌++◌, length, ltb, ◌==◌,
  if◌then◌else◌,
}
use shadow_gre.Prelude.{lookup, erase, insert}
use shadow_gre.Reliable.Packet.{SackBlock, ReliablePacket, flag_ack, flag_sack}
use shadow_gre.Reliable.Seq.{add32, seq_greater}
use shadow_gre.Reliable.Sack.{build_sack_blocks}

abbrev pub max_out_of_order_buffer : ℕ
max_out_of_order_buffer = 16384

abbrev pub ack_every_n : ℕ
ack_every_n = 4

-- The fields that the receiver uses. `delivered` are the calls of `deliverFunc` and `sent` those of
-- `sendFunc`, in order, the latter by the packet whose `Marshal` is the argument. `ack_timer` says
-- whether a timer that has not fired is set.
pub record Receiver : Type 0 where
  pub stream_id : ℕ
  pub recv_next : ℕ
  pub out_of_order : List (ℕ × List ℕ)
  pub delivered : List (List ℕ)
  pub pending_ack : Bool
  pub ack_timer : Bool
  pub recv_counter : ℕ
  pub sent : List ReliablePacket

unfoldable pub new_receiver : ℕ → Receiver
new_receiver stream_id = record {
  stream_id = stream_id;
  recv_next = 0;
  out_of_order = [];
  delivered = [];
  pending_ack = false;
  ack_timer = false;
  recv_counter = 0;
  sent = [];
}

-- `pendingAck.Store(false)`, `cancelAckTimer` and `sendFunc(pkt.Marshal())`
unfoldable pub send_ack : Receiver → ReliablePacket → Receiver
send_ack r pkt = record r { pending_ack = false; ack_timer = false; sent = r.sent ++ (pkt ∷ []) }

abbrev pub pure_ack : Receiver → ReliablePacket
pure_ack r = record {
  stream_id = r.stream_id;
  flags = flag_ack;
  seq = 0;
  ack = r.recv_next;
  sack_blocks = [];
  payload = [];
}

-- `pkt.Flags |= FlagSack; pkt.SackBlocks = sackBlocks`, if there are blocks.
unfoldable pub with_sack : ReliablePacket → List SackBlock → ReliablePacket
with_sack pkt [] = pkt
with_sack pkt (b ∷ bs) = record pkt { flags = bit_or pkt.flags flag_sack; sack_blocks = b ∷ bs }

unfoldable pub send_ack_now : Receiver → Receiver
send_ack_now r = send_ack r (pure_ack r)

unfoldable pub send_ack_with_sack : Receiver → Receiver
send_ack_with_sack r = send_ack r (with_sack (pure_ack r) (build_sack_blocks r.out_of_order))

unfoldable pub schedule_ack : Receiver → Receiver
schedule_ack r =
    let count = add32 r.recv_counter 1 in
    let r' = record r { recv_counter = count } in
    if count % ack_every_n == 0
    then send_ack_now r'
    else (if r.pending_ack then r' else record r' { pending_ack = true; ack_timer = true })

-- The function that the timer runs.
unfoldable pub ack_timer_fires : Receiver → Receiver
ack_timer_fires r =
    let r' = record r { ack_timer = false } in
    if r.pending_ack then send_ack_now (record r' { pending_ack = false }) else r'

-- `deliverFunc(data); recvNext.Add(1)`
unfoldable pub deliver : Receiver → List ℕ → Receiver
deliver r payload = record r {
  delivered = r.delivered ++ (payload ∷ []);
  recv_next = add32 r.recv_next 1;
}

unfoldable pub deliver_loop : ℕ → Receiver → Receiver
deliver_loop zero r = r
deliver_loop (suc fuel) r = elim (lookup r.recv_next r.out_of_order) [
  | none ↦ r
  | some payload ↦
      deliver_loop fuel
        (deliver (record r { out_of_order = erase r.recv_next r.out_of_order }) payload)
]

-- Each round takes an entry out of the buffer, so a round for each entry and one more are enough.
unfoldable pub deliver_out_of_order : Receiver → Receiver
deliver_out_of_order r = deliver_loop (suc (length r.out_of_order)) r

-- The buffer with the packet in it, if there is room and it is not there yet.
unfoldable pub buffer : Receiver → ℕ → List ℕ → Receiver
buffer r seq payload =
    if ltb (length r.out_of_order) max_out_of_order_buffer
    then (elim (lookup seq r.out_of_order) [
      | some _ ↦ r
      | none ↦ record r { out_of_order = insert seq payload r.out_of_order }
    ])
    else r

unfoldable pub process_data : Receiver → ℕ → List ℕ → Receiver
process_data r seq payload =
    if seq == r.recv_next
    then schedule_ack (deliver_out_of_order (deliver r payload))
    else (if seq_greater seq r.recv_next
        then send_ack_with_sack (buffer r seq payload)
        else send_ack_now r)
