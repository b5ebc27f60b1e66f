-- ===== src/Reliable/Sender.antt =====
-- The sending half of `ReliableStream` (pkg/tunnel/reliable.go): what is sent and not yet acknowledged,
-- acknowledgements with SACK, fast retransmission, and retransmission after a timeout. Each operation
-- runs under `unackedMu`, so it is one step; the time that it reads is an argument, in nanoseconds.
pub mod Acks
pub mod Window
pub mod Timeout
use shadow_gre.Prelude.{
  ℕ, zero, suc, ◌+◌, ◌-◌, ◌*◌, ◌/◌, Bool, true, false, not, ◌&&◌, ◌||◌, none, some, List, [], ◌∷◌,
  ◌++◌, map, length, ltb, leb, ◌==◌, if◌then◌else◌,
}
use shadow_gre.Prelude.{lookup, erase, insert}
use shadow_gre.Reliable.Packet.{SackBlock, ReliablePacket}
use shadow_gre.Reliable.Seq.{add32, sub32, seq_less, seq_less_or_equal, seq_greater}
use shadow_gre.Reliable.Rtt.{
  Float64, RttEstimator, new_rtt_estimator, update, get_rto, get_srtt, backoff,
}
use shadow_gre.Reliable.Congestion.{
  Congestion, new_congestion, max_cwnd, on_ack_advance, on_loss_fast, on_loss_rto,
}

abbrev pub max_retries : ℕ
max_retries = 20

abbrev pub fast_retransmit_count : ℕ
fast_retransmit_count = 3

-- `time.Millisecond`
abbrev pub millisecond : ℕ
millisecond = 1000000

-- `unackedPacket`. Its `data` is the packet's `Marshal`.
pub record Unacked : Type 0 where
  pub pkt : ReliablePacket
  pub sent_time : ℕ
  pub retries : ℕ
  pub sacked : Bool

-- The fields that the sender uses. `sent` are the calls of `sendFunc`, in order, by the packet whose
-- `Marshal` is the argument. `window_avail` says whether the channel holds its one signal.
pub record Sender (fl : Float64) : Type 0 where
  pub send_seq : ℕ
  pub send_base : ℕ
  pub unacked : List (ℕ × Unacked)
  pub dup_ack_count : ℕ
  pub last_sack_time : ℕ
  pub congestion : Congestion
  pub window_avail : Bool
  pub rtt_estimator : RttEstimator fl
  pub retransmits : ℕ
  pub packets_out : ℕ
  pub sent : List ReliablePacket

-- In any SACK block?
unfoldable pub in_sack : ℕ → List SackBlock → Bool
in_sack seq [] = false
in_sack seq (b ∷ bs) = not (seq_less seq b.left) && seq_less_or_equal seq b.right || in_sack seq bs

-- The greatest right edge, from `max_right` on.
unfoldable pub max_right : ℕ → List SackBlock → ℕ
max_right r [] = r
max_right r (b ∷ bs) = max_right (if seq_greater b.right r then b.right else r) bs

-- `span < 0 || span > MaxCwnd*2` on an int32, in one test on its bits.
unfoldable pub bound_span : ℕ → ℕ
bound_span span = if ltb (max_cwnd * 2) span then max_cwnd * 2 else span

-- One round of the scan: the entry is marked, or collected, or neither.
unfoldable pub gap_step :
    ℕ → List SackBlock → ℕ → List (ℕ × Unacked) × List ℕ → List (ℕ × Unacked) × List ℕ
gap_step seq blocks right (m, lost) = elim (lookup seq m) [
  | none ↦ (m, lost)
  | some up ↦
      if up.sacked
      then (m, lost)
      else (if in_sack seq blocks
          then (insert seq (record up { sacked = true }) m, lost)
          else (if seq_less seq right then (m, lost ++ (seq ∷ [])) else (m, lost)))
]

unfoldable pub gap_loop :
    ℕ → ℕ → List SackBlock → ℕ → List (ℕ × Unacked) × List ℕ → List (ℕ × Unacked) × List ℕ
gap_loop zero seq blocks right st = st
gap_loop (suc rounds) seq blocks right st =
    gap_loop rounds (add32 seq 1) blocks right (gap_step seq blocks right st)

-- `span <= 0 || span > MaxCwnd*2` on an int32.
abbrev gap_span : ℕ → ℕ
gap_span span = if span == 0 then max_cwnd * 2 else bound_span span

-- The entries with their marks, and the sequence numbers of those taken for lost.
unfoldable pub mark_sacked_and_collect_gaps :
    List (ℕ × Unacked) → ℕ → List SackBlock → List (ℕ × Unacked) × List ℕ
mark_sacked_and_collect_gaps m ack [] = (m, [])
mark_sacked_and_collect_gaps m ack (b ∷ bs) =
    let right = max_right b.right bs in
    gap_loop (gap_span (add32 (sub32 right ack) 1)) ack (b ∷ bs) right (m, [])

module _ (fl : Float64) where
  open fl use {of_ℕ, mul, lt, trunc}

  unfoldable pub new_sender : Sender fl
  new_sender = record {
    send_seq = 0;
    send_base = 0;
    unacked = [];
    dup_ack_count = 0;
    last_sack_time = 0;
    congestion = new_congestion;
    window_avail = false;
    rtt_estimator = new_rtt_estimator fl;
    retransmits = 0;
    packets_out = 0;
    sent = [];
  }

  -- `int64(srttMs*1e6)`, with the RTO in place of a smoothed time that is not positive.
  unfoldable pub loss_interval_ns : RttEstimator fl → ℕ
  loss_interval_ns r =
      let srtt_ms = get_srtt fl r in
      trunc (mul (if lt (of_ℕ 0) srtt_ms then srtt_ms else of_ℕ (get_rto fl r)) (of_ℕ 1000000))

  -- Half the RTO, and 10 milliseconds at least.
  unfoldable pub min_sack_interval : RttEstimator fl → ℕ
  min_sack_interval r =
      let half = get_rto fl r / 2 * millisecond in
      if ltb half (10 * millisecond) then 10 * millisecond else half

  -- `rs.retransmits.Add(1); up.retries++; up.sentTime = now`, and the packet is sent again.
  unfoldable pub retransmit : ℕ → Sender fl → ℕ → Sender fl
  retransmit now s seq = elim (lookup seq s.unacked) [
    | none ↦ s
    | some up ↦ record s {
      unacked = insert seq (record up { retries = up.retries + 1; sent_time = now }) s.unacked;
      retransmits = s.retransmits + 1;
      sent = s.sent ++ (up.pkt ∷ []);
    }
  ]

  unfoldable pub retransmit_all : ℕ → Sender fl → List ℕ → Sender fl
  retransmit_all now s [] = s
  retransmit_all now s (seq ∷ seqs) = retransmit_all now (retransmit now s seq) seqs

  unfoldable pub loss_fast : ℕ → Sender fl → Sender fl
  loss_fast now s = record s {
    congestion = on_loss_fast s.congestion (loss_interval_ns s.rtt_estimator) now;
  }

  -- The duplicate-ACK path, with SACK blocks.
  unfoldable pub duplicate_sack : Sender fl → ℕ → List SackBlock → ℕ → Sender fl
  duplicate_sack s ack blocks now =
      let (m, lost) = mark_sacked_and_collect_gaps s.unacked ack blocks in
      let marked = record s { unacked = m } in
      if leb (s.last_sack_time + min_sack_interval s.rtt_estimator) now
      then retransmit_all now (loss_fast now (record marked { last_sack_time = now })) lost
      else marked

  -- The duplicate-ACK path without them: classic fast retransmit of the first unacked packet.
  unfoldable pub duplicate_plain : Sender fl → ℕ → Sender fl
  duplicate_plain s now =
      let reset = record s { dup_ack_count = 0 } in
      if leb fast_retransmit_count s.dup_ack_count
      then (elim (lookup s.send_base s.unacked) [
        | none ↦ reset
        | some up ↦ if up.sacked then reset else retransmit now (loss_fast now reset) s.send_base
      ])
      else s

  -- One round over the range that a cumulative ACK covers; `acked` counts the packets removed.
  unfoldable pub ack_step : ℕ → ℕ → Sender fl × ℕ → Sender fl × ℕ
  ack_step now seq (s, acked) = elim (lookup seq s.unacked) [
    | none ↦ (s, acked)
    | some up ↦
        let rtt =
          if up.retries == 0
          then update fl s.rtt_estimator (of_ℕ ((now - up.sent_time) / millisecond))
          else s.rtt_estimator in
        (record s { rtt_estimator = rtt; unacked = erase seq s.unacked }, acked + 1)
  ]

  unfoldable pub ack_loop : ℕ → ℕ → ℕ → Sender fl × ℕ → Sender fl × ℕ
  ack_loop zero now seq st = st
  ack_loop (suc rounds) now seq st = ack_loop rounds now (add32 seq 1) (ack_step now seq st)

  -- The SACK blocks of a new cumulative ACK.
  unfoldable pub new_ack_sack : Sender fl → ℕ → List SackBlock → ℕ → Sender fl
  new_ack_sack s ack [] now = s
  new_ack_sack s ack (b ∷ bs) now =
      let (m, lost) = mark_sacked_and_collect_gaps s.unacked ack (b ∷ bs) in
      let marked = record s { unacked = m } in
      if leb (s.last_sack_time + min_sack_interval s.rtt_estimator) now && ltb 0 (length lost)
      then retransmit_all now (loss_fast now (record marked { last_sack_time = now })) lost
      else marked

  -- The end of the new-ACK path: the base moves on, the window grows, and a waiting `Send` is woken.
  unfoldable pub advance : Sender fl → ℕ → ℕ → Sender fl
  advance s ack acked =
      let moved = record s {
        send_base = if seq_greater ack s.send_base then ack else s.send_base;
      } in
      if ltb 0 acked
      then record moved { congestion = on_ack_advance s.congestion acked; window_avail = true }
      else moved

  unfoldable pub new_ack : Sender fl → ℕ → List SackBlock → ℕ → Sender fl
  new_ack s ack blocks now =
      let rounds = bound_span (sub32 ack s.send_base) in
      let (s', acked) = ack_loop rounds now s.send_base (record s { dup_ack_count = 0 }, 0) in
      advance (new_ack_sack s' ack blocks now) ack acked

  unfoldable pub duplicate_ack : Sender fl → ℕ → List SackBlock → ℕ → Sender fl
  duplicate_ack s ack [] now = duplicate_plain s now
  duplicate_ack s ack (b ∷ bs) now = duplicate_sack s ack (b ∷ bs) now

  unfoldable pub process_ack : Sender fl → ℕ → List SackBlock → ℕ → Sender fl
  process_ack s ack blocks now =
      if ack == s.send_base
      then duplicate_ack (record s { dup_ack_count = s.dup_ack_count + 1 }) ack blocks now
      else new_ack s ack blocks now

  -- One entry of the map, as `checkRetransmit` visits it. What is due is put at the end.
  unfoldable pub check_entry : ℕ → ℕ → ℕ → Sender fl → Sender fl
  check_entry now rto seq s = elim (lookup seq s.unacked) [
    | none ↦ s
    | some up ↦
        if not up.sacked && ltb (up.sent_time + rto) now
        then (if leb max_retries up.retries
            then record s { unacked = erase seq s.unacked }
            else retransmit now s seq)
        else s
  ]

  unfoldable pub check_entries : ℕ → ℕ → List ℕ → Sender fl → Sender fl
  check_entries now rto [] s = s
  check_entries now rto (seq ∷ seqs) s = check_entries now rto seqs (check_entry now rto seq s)

  -- Whether anything was sent again is whether `retransmits` has grown.
  unfoldable pub check_retransmit : Sender fl → ℕ → Sender fl
  check_retransmit s now =
      let rto = get_rto fl s.rtt_estimator * millisecond in
      let s' = check_entries now rto (map (λ e. e.0) s.unacked) s in
      if ltb s.retransmits s'.retransmits
      then record s' {
        congestion = on_loss_rto s'.congestion (loss_interval_ns s'.rtt_estimator) now;
        rtt_estimator = backoff fl s'.rtt_estimator;
      }
      else s'
