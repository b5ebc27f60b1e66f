-- ===== src/Reliable/Link/Moves.antt =====
-- Each move of a peer keeps what it can rely on.
use shadow_gre.Prelude.{
  ℕ, ◌+◌, ◌%◌, ◌^◌, ◌≤◌, ◌<◌, ◌≡◌, refl, ap, Bool, true, false, arith, length, length-append, drop,
  if_both, if◌then◌else◌, Outcome, ok,
}
use shadow_gre.Reliable.Packet.{ReliablePacket}
use shadow_gre.Reliable.Rtt.{Float64}
use shadow_gre.Reliable.Receiver.{Receiver, ack_timer_fires, send_ack_now, send_ack}
use shadow_gre.Reliable.Receiver.Order.{Tracks}
use shadow_gre.Reliable.Stream.{
  ReliableStream, take_seq, data_packet, close_packet, store_and_send, transmit, send_close,
  receive, close,
}
use shadow_gre.Reliable.Stream.Growth.{receive_grows}
use shadow_gre.Reliable.Link.{
  End, sends_close, Move, takes_seq, transmits, closes_sending, fires_ack_timer, checks_retransmit,
  receives, closes,
}
use shadow_gre.Reliable.Link.Resend.{Keeps, Keeps-weaken, check_retransmit-Keeps}
use shadow_gre.Reliable.Stream.Transmit.{FitsWire}
use shadow_gre.Reliable.Link.Arrivals.{Counts, Counts-FitsWire}
use shadow_gre.Reliable.Link.Honest.{
  Truthful, Receiving, timer-Receiving, data_packet-Truthful, close_packet-Truthful,
  store_and_send-Keeps,
}
use shadow_gre.Reliable.Link.Sound.{Sound, Truthful-weaken, parsed-Truthful, receive-Sound}

module _ (fl : Float64) where
  -- What one move of `e` adds to.
  abbrev pub Grows : End fl → End fl → Type 0
  Grows e e' =
      (e.taken ≤ e'.taken)
      × (e'.payloads ≡ e.payloads)
      × (e.stream.receiver.recv_next ≤ e'.stream.receiver.recv_next)

  pub taken_le : {p e e' : End fl} → Move fl p e e' → e.taken ≤ e'.taken
  taken_le takes_seq = omega arith
  taken_le (transmits i now lt) = omega arith
  taken_le {e = e} (closes_sending now result) =
      if_both (λ t. e.taken ≤ t) e.stream.closed (omega arith) (omega arith)
  taken_le fires_ack_timer = omega arith
  taken_le (checks_retransmit now) = omega arith
  taken_le (receives pkt parsed bs now m wire parse) = omega arith
  taken_le closes = omega arith

  module _ (p e : End fl) (w : Sound fl p e) (small : p.taken < 2 ^ 31) where
    fits : FitsWire e.stream.receiver
    fits = Counts-FitsWire p.taken e.stream.receiver small w.receiving.0

    abbrev st : ReliableStream fl
    st = e.stream

    -- One more number is taken.
    taken-Keeps :
        Keeps
          (Truthful e.payloads (e.taken + 1) st.receiver.recv_next)
          p.stream.receiver.recv_next
          ((e.taken + 1) % 2 ^ 32)
          (take_seq fl st).1.sender
    unfolding take_seq
    taken-Keeps =
        let k =
          Keeps-weaken (Truthful e.payloads e.taken st.receiver.recv_next)
            (Truthful e.payloads (e.taken + 1) st.receiver.recv_next) p.stream.receiver.recv_next
            p.stream.receiver.recv_next (e.taken % 2 ^ 32) st.sender
            (Truthful-weaken e.payloads e.taken (e.taken + 1) st.receiver.recv_next
              st.receiver.recv_next (omega arith) (omega arith))
            (omega arith) w.keeps in
        record {
          kept = k.kept;
          all_sent = k.all_sent;
          base_le = k.base_le;
          seq_same = omega (arith, k.seq_same);
        }

    takes_seq-Sound : Sound fl p (record e { stream = (take_seq fl st).1; taken = e.taken + 1 })
    unfolding take_seq
    takes_seq-Sound = record { keeps = taken-Keeps; receiving = w.receiving }

    transmits-Sound :
        (i now : ℕ)
        → i < e.taken
        → let e' = record e { stream = transmit fl st (i % 2 ^ 32) (e.payloads i) now } in
          Sound fl p e' × Grows e e'
    unfolding transmit store_and_send
    transmits-Sound i now lt =
        if_both Good st.receiver.pending_ack
          (
            record { keeps = keeps'; receiving = (counts', tracks') },
            (omega arith, refl, omega arith),
          )
          (record { keeps = keeps'; receiving = w.receiving }, (omega arith, refl, omega arith))
      where
        pkt : ReliablePacket
        pkt = data_packet fl st (i % 2 ^ 32) (e.payloads i)

        Good : Receiver → Type 0
        Good told =
            let e' = record e {
              stream = store_and_send fl (record st { receiver = told }) (i % 2 ^ 32) pkt now;
            } in
            Sound fl p e' × Grows e e'

        keeps' :
            Keeps
              (Truthful e.payloads e.taken st.receiver.recv_next)
              p.stream.receiver.recv_next
              (e.taken % 2 ^ 32)
              (store_and_send fl st (i % 2 ^ 32) pkt now).sender
        keeps' =
            store_and_send-Keeps fl e.payloads e.taken _ _ _ st (i % 2 ^ 32) pkt now
              (data_packet-Truthful fl e.payloads e.taken st i fits lt) w.keeps

        counts' : Counts p.taken (record st.receiver { pending_ack = false; ack_timer = false })
        counts' =
            let c = w.receiving.0 in
            record {
              count = c.count;
              below = c.below;
              waiting = c.waiting;
              acks = c.acks;
              named = c.named;
            }

        tracks' :
            Tracks p.payloads
              (length st.receiver.delivered)
              (record st.receiver { pending_ack = false; ack_timer = false })
        tracks' =
            let t = w.receiving.1 in
            record { next = t.next; prefix = t.prefix; ahead = t.ahead; drained = t.drained }

    sends_close-Sound :
        (now : ℕ) (result : ReliablePacket → Outcome (Unit {0}))
        → let e' = sends_close fl e now result in Sound fl p e' × Grows e e'
    unfolding send_close store_and_send take_seq
    sends_close-Sound now result = both st.closed
      where
        Good : Bool → Type 0
        Good closed =
            let x : ReliableStream fl × Outcome (Unit {0}) = if closed then (st, ok tt) else (
              store_and_send fl (take_seq fl st).1 st.sender.send_seq
                  (close_packet fl (take_seq fl st).1 st.sender.send_seq) now,
              result (close_packet fl (take_seq fl st).1 st.sender.send_seq),
            ) in
            let e' = record e { stream = x.0; taken = if closed then e.taken else e.taken + 1 } in
            Sound fl p e' × Grows e e'

        both : (closed : Bool) → Good closed
        both true =
            (record { keeps = w.keeps; receiving = w.receiving }, (omega arith, refl, omega arith))
        both false = (
          record {
            keeps =
                store_and_send-Keeps fl e.payloads e.taken _ _ _ (take_seq fl st).1
                  st.sender.send_seq (close_packet fl (take_seq fl st).1 st.sender.send_seq) now
                  (close_packet-Truthful fl e.payloads (e.taken + 1) (take_seq fl st).1
                    st.sender.send_seq fits (omega (arith, w.keeps.seq_same)))
                  taken-Keeps;
            receiving = w.receiving;
          },
          (omega arith, refl, omega arith),
        )

    fires_ack_timer-Sound :
        let e' = record e { stream = record st { receiver = ack_timer_fires st.receiver } } in
        Sound fl p e' × Grows e e'
    unfolding ack_timer_fires send_ack_now send_ack
    fires_ack_timer-Sound = (
      record {
        keeps = same.0;
        receiving = timer-Receiving p.payloads p.taken st.receiver small w.receiving;
      },
      (omega arith, refl, same.1),
    )
      where
        same :
            Keeps
              (Truthful e.payloads e.taken (ack_timer_fires st.receiver).recv_next)
              p.stream.receiver.recv_next
              (e.taken % 2 ^ 32)
              st.sender
            × (st.receiver.recv_next ≤ (ack_timer_fires st.receiver).recv_next)
        same =
            if_both
              (λ (r : Receiver).
                Keeps (Truthful e.payloads e.taken r.recv_next) p.stream.receiver.recv_next
                  (e.taken % 2 ^ 32) st.sender
                × (st.receiver.recv_next ≤ r.recv_next))
              st.receiver.pending_ack (w.keeps, omega arith) (w.keeps, omega arith)

    receives-Sound :
        (pkt : ReliablePacket) (now : ℕ)
        → Truthful p.payloads p.taken p.stream.receiver.recv_next pkt
        → let e' = record e { stream = (receive fl st pkt now).0 } in Sound fl p e' × Grows e e'
    receives-Sound pkt now truth = (
      record {
        keeps =
            Keeps-weaken _ (Truthful e.payloads e.taken st'.receiver.recv_next) _ _ _ st'.sender
              (Truthful-weaken e.payloads e.taken e.taken st.receiver.recv_next
                st'.receiver.recv_next (omega arith) grown)
              (omega arith) after.0;
        receiving = after.1;
      },
      (omega arith, refl, grown),
    )
      where
        st' : ReliableStream fl
        st' = (receive fl st pkt now).0

        after :
            Keeps
              (Truthful e.payloads e.taken st.receiver.recv_next)
              p.stream.receiver.recv_next
              (e.taken % 2 ^ 32)
              st'.sender
            × Receiving p.payloads p.taken st'.receiver
        after =
            receive-Sound fl e.payloads p.payloads e.taken p.taken p.stream.receiver.recv_next
              (e.taken % 2 ^ 32) st pkt now small truth w.keeps w.receiving

        grown : st.receiver.recv_next ≤ st'.receiver.recv_next
        grown = omega (
          arith,
          w.receiving.0.count,
          after.1.0.count,
          ap length (receive_grows fl st pkt now),
          length-append st.receiver.delivered
              (drop (length st.receiver.delivered) st'.receiver.delivered),
        )

    closes-Sound : let e' = record e { stream = close fl st } in Sound fl p e' × Grows e e'
    unfolding close
    closes-Sound =
        if_both
          (λ (x : ReliableStream fl).
            let e' = record e { stream = x } in Sound fl p e' × Grows e e')
          st.closed
          (record { keeps = w.keeps; receiving = w.receiving }, (omega arith, refl, omega arith))
          (
            record {
              keeps = record {
                kept = w.keeps.kept;
                all_sent = w.keeps.all_sent;
                base_le = w.keeps.base_le;
                seq_same = w.keeps.seq_same;
              };
              receiving = (
                (let c = w.receiving.0 in
                    record {
                      count = c.count;
                      below = c.below;
                      waiting = c.waiting;
                      acks = c.acks;
                      named = c.named;
                    }),
                (let t = w.receiving.1 in
                    record {
                      next = t.next;
                      prefix = t.prefix;
                      ahead = t.ahead;
                      drained = t.drained;
                    }),
              );
            },
            (omega arith, refl, omega arith),
          )

    -- A move of one peer, whose other peer has taken fewer than 2^31 numbers.
    pub Move-Sound : {e' : End fl} → Sound fl e p → Move fl p e e' → Sound fl p e' × Grows e e'
    unfolding take_seq
    Move-Sound other takes_seq = (takes_seq-Sound, (omega arith, refl, omega arith))
    Move-Sound other (transmits i now lt) = transmits-Sound i now lt
    Move-Sound other (closes_sending now result) = sends_close-Sound now result
    Move-Sound other fires_ack_timer = fires_ack_timer-Sound
    Move-Sound other (checks_retransmit now) = (
      record {
        keeps = check_retransmit-Keeps _ fl _ _ st.sender now w.keeps;
        receiving = w.receiving;
      },
      (omega arith, refl, omega arith),
    )
    Move-Sound other (receives pkt parsed bs now m wire parse) =
        receives-Sound parsed now (parsed-Truthful fl p e pkt parsed bs other m wire parse)
    Move-Sound other closes = closes-Sound
