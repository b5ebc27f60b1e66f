-- ===== src/Reliable/Link/Honest.antt =====
-- What the moves of one peer keep: its packets tell its numbers, its data and what it has delivered.
use shadow_gre.Prelude.{
  ℕ, ◌%◌, ◌^◌, ◌≤◌, ◌<◌, ◌≡◌, refl, sym, true, bit_or, List, [], ◌∷◌, All-append_last, All-insert,
  arith, length, if_both,
}
use mathlib.Core.Path.{subst}
use shadow_gre.Wire.{IsU32, has}
use shadow_gre.Reliable.Packet.{SackBlock, ReliablePacket, flag_data, flag_ack, flag_close}
use shadow_gre.Reliable.Rtt.{Float64}
use shadow_gre.Reliable.Packet.RoundTrip.{IsValid}
use shadow_gre.Reliable.Stream.Transmit.{FitsWire, data_packet-IsValid, with_sack-IsValid}
use shadow_gre.Reliable.Sack.{build_sack_blocks}
use shadow_gre.Reliable.Receiver.{
  Receiver, with_sack, process_data, deliver_loop, deliver_out_of_order, ack_timer_fires,
  send_ack_now, send_ack,
}
use shadow_gre.Reliable.Receiver.Order.{Tracks, process_data-Arrival}
use shadow_gre.Reliable.Receiver.Run.{length-delivered}
use shadow_gre.Reliable.Stream.{ReliableStream, store_and_send, data_packet, close_packet}
use shadow_gre.Reliable.Link.Resend.{Keeps}
use shadow_gre.Reliable.Link.Arrivals.{Counts, process_data-Counts, ack_timer_fires-Counts}

-- A packet of a peer that has taken `t` numbers for the payloads `s` and delivered `top` payloads of
-- the other: it acknowledges no more than these, fits its bytes, and its data stands under its own number.
abbrev pub Truthful : (ℕ → List ℕ) → ℕ → ℕ → ReliablePacket → Type 0
Truthful s t top pkt =
    (pkt.ack ≤ top)
    × IsValid pkt
    × (has pkt.flags flag_data ≡ true
        → (i : ℕ) × (i < t) × (pkt.seq ≡ i % 2 ^ 32) × (pkt.payload ≡ s i))

-- What the receiving half makes of the other peer's `s`, of which `t` numbers are taken.
abbrev pub Receiving : (ℕ → List ℕ) → ℕ → Receiver → Type 0
Receiving s t r = Counts t r × Tracks s (length r.delivered) r

pub data-Receiving :
    (s : ℕ → List ℕ) (t i : ℕ) (r : Receiver)
    → t < 2 ^ 31
    → i < t
    → Receiving s t r
    → Receiving s t (process_data r (i % 2 ^ 32) (s i))
data-Receiving s t i r small lt (c, tracks) =
    let (n, _, tracks', _, _) =
      process_data-Arrival s (length r.delivered) i r tracks (omega arith)
        (omega (arith, c.count, c.below)) in
    (
      process_data-Counts t small r (i % 2 ^ 32) (s i) (omega arith) c,
      subst (λ m. Tracks s m (process_data r (i % 2 ^ 32) (s i))) (sym (length-delivered s tracks'))
          tracks',
    )

-- A close finds nothing more to deliver.
undelivered : (s : ℕ → List ℕ) (n : ℕ) (r : Receiver) → Tracks s n r → deliver_out_of_order r ≡ r
unfolding deliver_out_of_order deliver_loop
undelivered s n r tracks = rw (tracks.drained, deliver_loop) refl

pub close-Receiving :
    (s : ℕ → List ℕ) (t : ℕ) (r : Receiver)
    → Receiving s t r
    → Receiving s t (deliver_out_of_order r)
close-Receiving s t r (c, tracks) =
    subst (Receiving s t) (sym (undelivered s (length r.delivered) r tracks)) (c, tracks)

pub timer-Receiving :
    (s : ℕ → List ℕ) (t : ℕ) (r : Receiver)
    → t < 2 ^ 31
    → Receiving s t r
    → Receiving s t (ack_timer_fires r)
unfolding ack_timer_fires send_ack_now send_ack
timer-Receiving s t r small (c, tracks) = (
  ack_timer_fires-Counts t small r c,
  if_both (λ r'. Tracks s (length r'.delivered) r') r.pending_ack
      (record {
        next = tracks.next;
        prefix = tracks.prefix;
        ahead = tracks.ahead;
        drained = tracks.drained;
      })
      (record {
        next = tracks.next;
        prefix = tracks.prefix;
        ahead = tracks.ahead;
        drained = tracks.drained;
      }),
)

module _ (fl : Float64) (s : ℕ → List ℕ) (t : ℕ) where
  -- The data packet of the number at place `i`.
  pub data_packet-Truthful :
      (st : ReliableStream fl) (i : ℕ)
      → FitsWire st.receiver
      → i < t
      → Truthful s t st.receiver.recv_next (data_packet fl st (i % 2 ^ 32) (s i))
  unfolding data_packet with_sack
  data_packet-Truthful st i f lt =
      let (le, seq_same, payload_same) = told in
      (
        le,
        data_packet-IsValid fl st (i % 2 ^ 32) (s i) f (omega arith),
        λ _. (i, lt, seq_same, payload_same),
      )
    where
      Told : ReliablePacket → Type 0
      Told pkt = (pkt.ack ≤ st.receiver.recv_next) × (pkt.seq ≡ i % 2 ^ 32) × (pkt.payload ≡ s i)

      pkt : ReliablePacket
      pkt = record {
        stream_id = st.receiver.stream_id;
        flags = bit_or flag_data flag_ack;
        seq = i % 2 ^ 32;
        ack = st.receiver.recv_next;
        sack_blocks = [];
        payload = s i;
      }

      carried : (blocks : List SackBlock) → Told (with_sack pkt blocks)
      carried [] = (omega arith, refl, refl)
      carried (b ∷ bs) = (omega arith, refl, refl)

      told : Told (data_packet fl st (i % 2 ^ 32) (s i))
      told =
          if_both Told st.receiver.pending_ack
            (carried (build_sack_blocks st.receiver.out_of_order)) (omega arith, refl, refl)

  pub close_packet-Truthful :
      (st : ReliableStream fl) (seq : ℕ)
      → FitsWire st.receiver
      → IsU32 seq
      → Truthful s t st.receiver.recv_next (close_packet fl st seq)
  unfolding with_sack
  close_packet-Truthful st seq f h = (
    omega arith,
    with_sack-IsValid st.receiver (bit_or flag_close flag_ack) seq [] [] refl refl refl f h
        (omega arith) tt,
    λ e. absurd (no_data e),
  )
    where
      no_data : has (bit_or flag_close flag_ack) flag_data ≡ true → ⊥
      no_data e = cc

  -- A packet is stored and sent.
  pub store_and_send-Keeps :
      (P : ReliablePacket → Type 0) (top next : ℕ) (st : ReliableStream fl) (seq : ℕ)
      (pkt : ReliablePacket) (now : ℕ)
      → P pkt
      → Keeps P top next st.sender
      → Keeps P top next (store_and_send fl st seq pkt now).sender
  unfolding store_and_send
  store_and_send-Keeps P top next st seq pkt now p k = record {
    kept = All-insert (λ e. P e.1.pkt) seq _ st.sender.unacked p k.kept;
    all_sent = All-append_last P st.sender.sent k.all_sent p;
    base_le = k.base_le;
    seq_same = k.seq_same;
  }
