-- ===== src/Tests/Sending.antt =====
-- A sender with two packets in flight, at positions 4 and 5.
use shadow_gre.Prelude.{
  lookup, ◌/◌, ◌+◌, ◌-◌, ◌*◌, ◌^◌, ◌%◌, ◌≤◌, ◌<◌, ◌≡◌, refl, false, none, min, List, [], ◌∷◌, ℕ,
  arith, ltb, if◌then◌else◌,
}
use shadow_gre.Reliable.Packet.{ReliablePacket}
use shadow_gre.Reliable.Congestion.{
  IsValid, new_congestion, new_congestion-IsValid, Congestion, max_cwnd, on_ack_advance,
  on_ack_advance_growth,
}
use shadow_gre.Reliable.Rtt.{
  min_rto_ms, max_rto_ms, Event, sample, timeout, after, new_rtt_estimator, get_rto, get_rto_bounds,
}
use shadow_gre.Reliable.Sender.{Sender, Unacked, millisecond, process_ack, check_retransmit}
use shadow_gre.Reliable.Sender.Acks.{packet_at, process_ack_cumulative, process_ack_stale}
use shadow_gre.Reliable.Sender.Window.{process_ack-IsValid}
use shadow_gre.Reliable.Sender.Timeout.{checked, all_sent_again, check_retransmit_lem}
use shadow_gre.Tests.Floats.{eighths}

abbrev packet : ℕ → ReliablePacket
packet seq = record {
  stream_id = 5;
  flags = 1;
  seq = seq;
  ack = 0;
  sack_blocks = [];
  payload = seq ∷ [];
}

abbrev in_flight : ℕ → Unacked
in_flight seq = record { pkt = packet seq; sent_time = 0; retries = 0; sacked = false }

abbrev sender : Sender eighths
sender = record {
  send_seq = 6;
  send_base = 4;
  unacked = (4, in_flight 4) ∷ (5, in_flight 5) ∷ [];
  dup_ack_count = 0;
  last_sack_time = 0;
  congestion = new_congestion;
  window_avail = false;
  rtt_estimator = new_rtt_estimator eighths;
  retransmits = 0;
  packets_out = 2;
  sent = [];
}

process_ack_cumulative_example :
    ((j : ℕ)
      → 4 ≤ j
      → j < 4 + 2 ^ 31
      → packet_at (j % 2 ^ 32) (process_ack eighths sender 5 [] 100).unacked
        ≡ (if ltb j 5 then none else packet_at (j % 2 ^ 32) sender.unacked))
    × ((process_ack eighths sender 5 [] 100).send_base ≡ 5)
process_ack_cumulative_example =
    process_ack_cumulative eighths sender 4 1 [] 100 refl (omega arith) (omega arith)

-- The ACK 3 is behind the base: neither packet is acknowledged, and both are forgotten.
process_ack_stale_example :
    ((j : ℕ)
      → 4 ≤ j
      → j < 4 + 2 * max_cwnd
      → packet_at (j % 2 ^ 32) (process_ack eighths sender 3 [] 100).unacked ≡ none)
    × ((process_ack eighths sender 3 [] 100).send_base ≡ 4)
process_ack_stale_example =
    process_ack_stale eighths sender 3 1 [] 100 refl (omega arith) (omega arith)

process_ack-IsValid_example : IsValid (process_ack eighths sender 5 [] 100).congestion
process_ack-IsValid_example = process_ack-IsValid eighths sender 5 [] 100 new_congestion-IsValid

check_retransmit_lem_example :
    let rto = get_rto eighths sender.rtt_estimator * millisecond in
    ((seq : ℕ)
      → lookup seq (check_retransmit eighths sender 2000000000).unacked
        ≡ checked 2000000000 rto (lookup seq sender.unacked))
    × ((check_retransmit eighths sender 2000000000).sent
        ≡ all_sent_again 2000000000 rto (4 ∷ 5 ∷ []) sender.unacked)
check_retransmit_lem_example =
    check_retransmit_lem eighths sender 2000000000 (((λ e. omega arith), tt), (tt, tt))

-- Thirty-five packets have been acknowledged since the window last grew.
abbrev avoiding : Congestion
avoiding = record { cwnd = 40; ssthresh = 40; ca_accum = 35; last_loss_reduce_ns = 0 }

on_ack_advance_growth_example :
    let c' = on_ack_advance avoiding 10 in
    (avoiding.cwnd < avoiding.ssthresh
      → (c'.cwnd ≡ min (avoiding.cwnd + 10) max_cwnd) × (c'.ca_accum ≡ avoiding.ca_accum))
    × (avoiding.ssthresh ≤ avoiding.cwnd
        → (c'.cwnd ≡ min (avoiding.cwnd + (avoiding.ca_accum + 10) / avoiding.cwnd) max_cwnd)
          × (c'.ca_accum < avoiding.cwnd)
          × (c'.cwnd < max_cwnd
              → (c'.cwnd - avoiding.cwnd) * avoiding.cwnd + c'.ca_accum ≡ avoiding.ca_accum + 10))
    × (avoiding.cwnd ≤ c'.cwnd)
on_ack_advance_growth_example =
    on_ack_advance_growth avoiding 10 (omega arith) (omega arith) (omega arith)

-- A sample of 20 ms and two timeouts.
abbrev events : List (Event eighths)
events = sample 160 ∷ timeout ∷ timeout ∷ []

get_rto_bounds_example :
    (min_rto_ms ≤ get_rto eighths (after eighths (new_rtt_estimator eighths) events))
    × (get_rto eighths (after eighths (new_rtt_estimator eighths) events) ≤ max_rto_ms)
get_rto_bounds_example = get_rto_bounds eighths events refl
