-- ===== src/Reliable/Stream.antt =====
-- `ReliableStream` of pkg/tunnel/reliable.go: the sender and the receiver of one stream together. The
-- calls of `sendFunc` are logged in the half that makes them. `pace`, which only sleeps and by
-- `MinPacingIntervalNs` never does, is left out.
pub mod Transmit
pub mod Growth
use shadow_gre.Prelude.{
  ℕ, ◌+◌, bit_or, Bool, true, false, ◌&&◌, ◌||◌, Option, none, some, List, [], ◌∷◌, ◌++◌, length,
  ltb, if◌then◌else◌, stream_closed, Outcome, ok, err,
}
use shadow_gre.Prelude.{insert}
use shadow_gre.Wire.{has}
use shadow_gre.Reliable.Packet.{ReliablePacket, flag_data, flag_ack, flag_close}
use shadow_gre.Reliable.Seq.{add32, sub32, is_neg}
use shadow_gre.Reliable.Rtt.{Float64}
use shadow_gre.Reliable.Sack.{build_sack_blocks}
use shadow_gre.Reliable.Sender.{Sender, new_sender, process_ack}
use shadow_gre.Reliable.Receiver.{
  Receiver, new_receiver, with_sack, process_data, deliver_out_of_order,
}

-- `closed` also says whether `closeCh` is closed.
pub record ReliableStream (fl : Float64) : Type 0 where
  pub sender : Sender fl
  pub receiver : Receiver
  pub closed : Bool
  pub packets_in : ℕ

-- What ends a wait in `waitForWindow`: the signal, the closed channel, or 100 milliseconds.
pub data Wake : Type 0 where
  signalled stream_closes timed_out : Wake

-- What one round of `waitForWindow` reads, and what then wakes it, if it has to wait.
pub record Round : Type 0 where
  pub closed : Bool
  pub cwnd : ℕ
  pub send_base : ℕ
  pub wake : Wake

-- `int32(seq - base) < cwnd`
abbrev pub has_room : ℕ → ℕ → ℕ → Bool
has_room seq base cwnd = is_neg (sub32 seq base) || ltb (sub32 seq base) cwnd

-- `none`: it is still waiting after the rounds given.
unfoldable pub wait_for_window : ℕ → List Round → Option Bool
wait_for_window seq [] = none
wait_for_window seq (r ∷ rs) =
    let rest = wait_for_window seq rs in
    if r.closed
    then some false
    else (if has_room seq r.send_base r.cwnd
        then some true
        else (elim r.wake [ stream_closes ↦ some false | _ ↦ rest ]))

module _ (fl : Float64) where
  unfoldable pub new_reliable_stream : ℕ → ReliableStream fl
  new_reliable_stream id = record {
    sender = new_sender fl;
    receiver = new_receiver id;
    closed = false;
    packets_in = 0;
  }

  -- `sendSeq.Add(1) - 1`: the number, and the stream that has taken it.
  unfoldable pub take_seq : ReliableStream fl → ℕ × ReliableStream fl
  take_seq s = (
    s.sender.send_seq,
    record s { sender = record s.sender { send_seq = add32 s.sender.send_seq 1 } },
  )

  -- The packet is stored for retransmission, counted, and handed to `sendFunc`.
  unfoldable pub store_and_send : ReliableStream fl → ℕ → ReliablePacket → ℕ → ReliableStream fl
  store_and_send s seq pkt now = record s {
    sender = record s.sender {
      unacked =
          insert seq (record { pkt = pkt; sent_time = now; retries = 0; sacked = false })
            s.sender.unacked;
      packets_out = s.sender.packets_out + 1;
      sent = s.sender.sent ++ (pkt ∷ []);
    };
  }

  -- The data packet that `Send` builds, with the acknowledgement that it carries along if one is due.
  unfoldable pub data_packet : ReliableStream fl → ℕ → List ℕ → ReliablePacket
  data_packet s seq payload =
      let r = s.receiver in
      if r.pending_ack
      then with_sack
          (record {
            stream_id = r.stream_id;
            flags = bit_or flag_data flag_ack;
            seq = seq;
            ack = r.recv_next;
            sack_blocks = [];
            payload = payload;
          })
          (build_sack_blocks r.out_of_order)
      else record {
        stream_id = r.stream_id;
        flags = flag_data;
        seq = seq;
        ack = 0;
        sack_blocks = [];
        payload = payload;
      }

  -- `Send` behind `waitForWindow`.
  unfoldable pub transmit : ReliableStream fl → ℕ → List ℕ → ℕ → ReliableStream fl
  transmit s seq payload now =
      let r = s.receiver in
      let told = if r.pending_ack then record r { pending_ack = false; ack_timer = false } else r in
      store_and_send (record s { receiver = told }) seq (data_packet s seq payload) now

  -- `meanwhile` is what other goroutines do to the stream while `Send` waits, `rounds` what it reads,
  -- and `result` what `sendFunc` returns. The answer is `none` while it waits.
  unfoldable pub send :
      ReliableStream fl
      → List ℕ
      → List Round
      → (ReliableStream fl → ReliableStream fl)
      → ℕ
      → (ReliablePacket → Outcome (Unit {0}))
      → ReliableStream fl × Option (Outcome (Unit {0}))
  send s payload rounds meanwhile now result =
      let (seq, s') = take_seq s in
      let later = meanwhile s' in
      if s.closed then (s, some (err stream_closed)) else (elim (wait_for_window seq rounds) [
        | none ↦ (later, none)
        | some false ↦ (later, some (err stream_closed))
        | some true ↦
            (transmit later seq payload now, some (result (data_packet later seq payload)))
      ])

  abbrev pub close_packet : ReliableStream fl → ℕ → ReliablePacket
  close_packet s seq = record {
    stream_id = s.receiver.stream_id;
    flags = bit_or flag_close flag_ack;
    seq = seq;
    ack = s.receiver.recv_next;
    sack_blocks = [];
    payload = [];
  }

  unfoldable pub send_close :
      ReliableStream fl
      → ℕ
      → (ReliablePacket → Outcome (Unit {0}))
      → ReliableStream fl × Outcome (Unit {0})
  send_close s now result =
      let (seq, s') = take_seq s in
      if s.closed
      then (s, ok tt)
      else (store_and_send s' seq (close_packet s' seq) now, result (close_packet s' seq))

  -- The stream after the packet, and whether it was a close.
  unfoldable pub receive : ReliableStream fl → ReliablePacket → ℕ → ReliableStream fl × Bool
  receive s pkt now =
      let s₁ = record s { packets_in = s.packets_in + 1 } in
      let s₂ =
        if has pkt.flags flag_ack
        then record s₁ { sender = process_ack fl s₁.sender pkt.ack pkt.sack_blocks now }
        else s₁ in
      let s₃ =
        if has pkt.flags flag_data && ltb 0 (length pkt.payload)
        then record s₂ { receiver = process_data s₂.receiver pkt.seq pkt.payload }
        else s₂ in
      if has pkt.flags flag_close
      then (record s₃ { receiver = deliver_out_of_order s₃.receiver }, true)
      else (s₃, false)

  -- `Close`, with the signal that it gives a waiting `Send`.
  unfoldable pub close : ReliableStream fl → ReliableStream fl
  close s = if s.closed then s else record s {
    closed = true;
    receiver = record s.receiver { ack_timer = false };
    sender = record s.sender { window_avail = true };
  }

  -- `GetStats`
  unfoldable pub get_stats : ReliableStream fl → ℕ × ℕ × ℕ
  get_stats s = (length s.sender.unacked, length s.receiver.out_of_order, s.sender.retransmits)
