-- ===== src/Reliable/Link/Arrivals.antt =====
-- The receiving half of a stream whose peer has used fewer than 2^31 sequence numbers: the numbers do
-- not wrap around, and what is acknowledged is what has been delivered.
use shadow_gre.Prelude.{
  ℕ, zero, suc, ◌^◌, ◌%◌, ◌≤◌, ◌<◌, ◌≡◌, refl, false, List, [], ◌∷◌, All, All-weaken,
  All-append_last, All-lookup, All-erase, All-insert, arith, length, length-append, ltb, ◌==◌,
  lookup, erase, if_both, if_with, option_with, ==_iff,
}
use shadow_gre.Wire.{IsU32, has}
use shadow_gre.Reliable.Packet.{SackBlock, ReliablePacket, flag_data, flag_ack}
use shadow_gre.Reliable.Packet.RoundTrip.{IsValid}
use shadow_gre.Reliable.Seq.{add32, seq_greater}
use shadow_gre.Reliable.Sack.{build_sack_blocks}
use shadow_gre.Reliable.Sack.Bounds.{build_sack_blocks-Fits}
use shadow_gre.Reliable.Stream.Transmit.{FitsWire, with_sack-IsValid}
use shadow_gre.Reliable.Receiver.{
  Receiver, pure_ack, with_sack, send_ack, send_ack_now, send_ack_with_sack, schedule_ack,
  ack_timer_fires, deliver, deliver_loop, deliver_out_of_order, buffer, process_data,
  max_out_of_order_buffer, ack_every_n,
}

-- An acknowledgement of at most `top`, without data, that fits its bytes.
abbrev pub IsAck : ℕ → ReliablePacket → Type 0
IsAck top pkt = (pkt.ack ≤ top) × (has pkt.flags flag_data ≡ false) × IsValid pkt

-- `t` numbers are taken: those that are waiting are among them, and the next one expected is the
-- number of payloads delivered.
pub record Counts (t : ℕ) (r : Receiver) : Type 0 where
  pub count : length r.delivered ≡ r.recv_next
  pub below : r.recv_next ≤ t
  pub waiting : All (λ e. e.0 < t) r.out_of_order
  pub acks : All (IsAck r.recv_next) r.sent
  pub named : IsU32 r.stream_id

-- The receiver's numbers fit their fields.
pub Counts-FitsWire : (t : ℕ) (r : Receiver) → t < 2 ^ 31 → Counts t r → FitsWire r
Counts-FitsWire t r small c = record {
  stream_id_fits = c.named;
  recv_next_fits = omega (arith, c.below);
  keys_fit = All-weaken _ (λ e. IsU32 e.0) r.out_of_order (λ e h. omega arith) c.waiting;
}

with_sack-IsAck :
    (r : Receiver) (blocks : List SackBlock)
    → IsValid (with_sack (pure_ack r) blocks)
    → IsAck r.recv_next (with_sack (pure_ack r) blocks)
unfolding with_sack
with_sack-IsAck r [] v = (omega arith, refl, v)
with_sack-IsAck r (b ∷ bs) v = (omega arith, refl, v)

module _ (t : ℕ) (small : t < 2 ^ 31) where
  send_ack-Counts :
      (r : Receiver) (pkt : ReliablePacket)
      → IsAck r.recv_next pkt
      → Counts t r
      → Counts t (send_ack r pkt)
  unfolding send_ack
  send_ack-Counts r pkt a c = record {
    count = c.count;
    below = c.below;
    waiting = c.waiting;
    acks = All-append_last (IsAck r.recv_next) r.sent c.acks a;
    named = c.named;
  }

  -- The acknowledgement that a receiver sends, with the blocks that describe its buffer.
  sack-IsAck :
      (r : Receiver)
      → Counts t r
      → IsAck r.recv_next (with_sack (pure_ack r) (build_sack_blocks r.out_of_order))
  sack-IsAck r c =
      let f = Counts-FitsWire t r small c in
      let (few, fit) = build_sack_blocks-Fits r.out_of_order f.keys_fit in
      with_sack-IsAck r (build_sack_blocks r.out_of_order) (
        with_sack-IsValid r flag_ack 0 [] (build_sack_blocks r.out_of_order) refl refl refl f
          (omega arith) few fit)

  send_ack_now-Counts : (r : Receiver) → Counts t r → Counts t (send_ack_now r)
  unfolding send_ack_now with_sack
  send_ack_now-Counts r c =
      send_ack-Counts r (pure_ack r)
        (with_sack-IsAck r [] (
          with_sack-IsValid r flag_ack 0 [] [] refl refl refl (Counts-FitsWire t r small c)
            (omega arith) (omega arith) tt))
        c

  schedule_ack-Counts : (r : Receiver) → Counts t r → Counts t (schedule_ack r)
  unfolding schedule_ack
  schedule_ack-Counts r c =
      let r' = record r { recv_counter = add32 r.recv_counter 1 } in
      let c' : Counts t r' = record {
        count = c.count;
        below = c.below;
        waiting = c.waiting;
        acks = c.acks;
        named = c.named;
      } in
      if_both (Counts t) (add32 r.recv_counter 1 % ack_every_n == 0) (send_ack_now-Counts r' c') (
        if_both (Counts t) r.pending_ack c' (record {
          count = c.count;
          below = c.below;
          waiting = c.waiting;
          acks = c.acks;
          named = c.named;
        }))

  pub ack_timer_fires-Counts : (r : Receiver) → Counts t r → Counts t (ack_timer_fires r)
  unfolding ack_timer_fires
  ack_timer_fires-Counts r c =
      if_both (Counts t) r.pending_ack
        (send_ack_now-Counts (record r { ack_timer = false; pending_ack = false })
          (record {
            count = c.count;
            below = c.below;
            waiting = c.waiting;
            acks = c.acks;
            named = c.named;
          }))
        (record {
          count = c.count;
          below = c.below;
          waiting = c.waiting;
          acks = c.acks;
          named = c.named;
        })

  -- The number that is delivered is a taken one.
  deliver-Counts :
      (r : Receiver) (payload : List ℕ)
      → r.recv_next < t
      → Counts t r
      → Counts t (deliver r payload)
  unfolding deliver
  deliver-Counts r payload lt c = record {
    count = omega (arith, length-append r.delivered (payload ∷ []), c.count);
    below = omega arith;
    waiting = c.waiting;
    acks =
        All-weaken (IsAck r.recv_next) (IsAck (add32 r.recv_next 1)) r.sent
          (λ pkt a. (omega (arith, a.0), a.1, a.2)) c.acks;
    named = c.named;
  }

  deliver_loop-Counts : (fuel : ℕ) (r : Receiver) → Counts t r → Counts t (deliver_loop fuel r)
  unfolding deliver_loop
  deliver_loop-Counts zero r c = c
  deliver_loop-Counts (suc fuel) r c =
      option_with (Counts t) (lookup r.recv_next r.out_of_order) (λ _. c)
        (λ payload e.
          let taken_out = record r { out_of_order = erase r.recv_next r.out_of_order } in
          deliver_loop-Counts fuel (deliver taken_out payload) (
            deliver-Counts taken_out payload
              (All-lookup (λ e. e.0 < t) r.recv_next r.out_of_order c.waiting e)
              (record {
                count = c.count;
                below = c.below;
                waiting = All-erase (λ e. e.0 < t) r.recv_next r.out_of_order c.waiting;
                acks = c.acks;
                named = c.named;
              })))

  buffer-Counts :
      (r : Receiver) (seq : ℕ) (payload : List ℕ)
      → seq < t
      → Counts t r
      → Counts t (buffer r seq payload)
  unfolding buffer
  buffer-Counts r seq payload lt c =
      if_both (Counts t) (ltb (length r.out_of_order) max_out_of_order_buffer)
        (option_with (Counts t) (lookup seq r.out_of_order)
          (λ _. record {
            count = c.count;
            below = c.below;
            waiting = All-insert (λ e. e.0 < t) seq payload r.out_of_order lt c.waiting;
            acks = c.acks;
            named = c.named;
          })
          (λ _ _. c))
        c

  pub deliver_out_of_order-Counts : (r : Receiver) → Counts t r → Counts t (deliver_out_of_order r)
  unfolding deliver_out_of_order
  deliver_out_of_order-Counts r c = deliver_loop-Counts (suc (length r.out_of_order)) r c

  pub process_data-Counts :
      (r : Receiver) (seq : ℕ) (payload : List ℕ)
      → seq < t
      → Counts t r
      → Counts t (process_data r seq payload)
  unfolding process_data send_ack_with_sack
  process_data-Counts r seq payload lt c =
      if_with (Counts t) (seq == r.recv_next)
        (λ e. schedule_ack-Counts (deliver_out_of_order (deliver r payload)) (
          deliver_out_of_order-Counts (deliver r payload)
            (deliver-Counts r payload (omega (arith, (==_iff seq r.recv_next).0 e)) c)))
        (λ _.
          if_both (Counts t) (seq_greater seq r.recv_next)
            (let b = buffer r seq payload in
              let k = buffer-Counts r seq payload lt c in send_ack-Counts b _ (sack-IsAck b k) k)
            (send_ack_now-Counts r c))
