-- ===== src/Reliable/Link/Resend.antt =====
-- What the sending half keeps for retransmission and sends again: packets that it was given once. And
-- how far its base moves: no further than an acknowledgement says.
use shadow_gre.Prelude.{
  ℕ, zero, suc, ◌+◌, ◌*◌, ◌≤◌, ◌≡◌, Bool, true, not, ◌&&◌, List, [], ◌∷◌, map, All, All-weaken,
  All-append_last, All-lookup, All-erase, All-insert, arith, ltb, leb, ◌==◌, lookup, if_both,
  if◌then◌else◌, option_with,
}
use shadow_gre.Reliable.Packet.{SackBlock, ReliablePacket}
use shadow_gre.Reliable.Seq.{add32, sub32, seq_less, seq_greater}
use shadow_gre.Reliable.Rtt.{Float64, get_rto}
use shadow_gre.Reliable.Sender.{
  Unacked, Sender, in_sack, max_right, bound_span, gap_step, gap_loop, mark_sacked_and_collect_gaps,
  retransmit, retransmit_all, loss_fast, duplicate_sack, duplicate_plain, ack_step, ack_loop,
  new_ack_sack, advance, new_ack, duplicate_ack, process_ack, check_entry, check_entries,
  check_retransmit, fast_retransmit_count, max_retries, millisecond,
}

module _ {κ} (P : ReliablePacket → Type κ) where
  abbrev pub Stored : List (ℕ × Unacked) → Type κ
  Stored m = All (λ e. P e.1.pkt) m

  gap_step-Stored :
      (seq : ℕ) (blocks : List SackBlock) (right : ℕ) (m : List (ℕ × Unacked)) (lost : List ℕ)
      → Stored m
      → Stored (gap_step seq blocks right (m, lost)).0
  unfolding gap_step
  gap_step-Stored seq blocks right m lost a =
      option_with (λ (st : List (ℕ × Unacked) × List ℕ). Stored st.0) (lookup seq m) (λ _. a)
        (λ up e.
          if_both (λ (st : List (ℕ × Unacked) × List ℕ). Stored st.0) up.sacked a
            (if_both (λ (st : List (ℕ × Unacked) × List ℕ). Stored st.0) (in_sack seq blocks)
              (All-insert (λ e. P e.1.pkt) seq (record up { sacked = true }) m
                (All-lookup (λ e. P e.1.pkt) seq m a e) a)
              (if_both (λ (st : List (ℕ × Unacked) × List ℕ). Stored st.0) (seq_less seq right) a
                a)))

  gap_loop-Stored :
      (rounds seq : ℕ) (blocks : List SackBlock) (right : ℕ) (st : List (ℕ × Unacked) × List ℕ)
      → Stored st.0
      → Stored (gap_loop rounds seq blocks right st).0
  unfolding gap_loop
  gap_loop-Stored zero seq blocks right st a = a
  gap_loop-Stored (suc rounds) seq blocks right st a =
      gap_loop-Stored rounds (add32 seq 1) blocks right (gap_step seq blocks right st)
        (gap_step-Stored seq blocks right st.0 st.1 a)

  mark-Stored :
      (m : List (ℕ × Unacked)) (ack : ℕ) (blocks : List SackBlock)
      → Stored m
      → Stored (mark_sacked_and_collect_gaps m ack blocks).0
  unfolding mark_sacked_and_collect_gaps
  mark-Stored m ack [] a = a
  mark-Stored m ack (b ∷ bs) a = gap_loop-Stored _ ack (b ∷ bs) (max_right b.right bs) (m, []) a

  -- All packets that are kept or have been sent have the property, the base is at most `top`, and
  -- `next` is the next number to take.
  pub record Keeps {fl : Float64} (top next : ℕ) (s : Sender fl) : Type κ where
    pub kept : Stored s.unacked
    pub all_sent : All P s.sent
    pub base_le : s.send_base ≤ top
    pub seq_same : s.send_seq ≡ next

  module _ (fl : Float64) (top next : ℕ) where
    abbrev K : Sender fl → Type κ
    K s = Keeps top next s

    retransmit-Keeps : (now : ℕ) (s : Sender fl) (seq : ℕ) → K s → K (retransmit fl now s seq)
    unfolding retransmit
    retransmit-Keeps now s seq k =
        option_with K (lookup seq s.unacked) (λ _. k)
          (λ up e.
            let p = All-lookup (λ e. P e.1.pkt) seq s.unacked k.kept e in
            record {
              kept = All-insert (λ e. P e.1.pkt) seq _ s.unacked p k.kept;
              all_sent = All-append_last P s.sent k.all_sent p;
              base_le = k.base_le;
              seq_same = k.seq_same;
            })

    retransmit_all-Keeps :
        (now : ℕ) (s : Sender fl) (seqs : List ℕ) → K s → K (retransmit_all fl now s seqs)
    unfolding retransmit_all
    retransmit_all-Keeps now s [] k = k
    retransmit_all-Keeps now s (seq ∷ seqs) k =
        retransmit_all-Keeps now (retransmit fl now s seq) seqs (retransmit-Keeps now s seq k)

    -- The entries are marked, and those taken for lost are sent again or not.
    marked-Keeps :
        (s : Sender fl) (ack : ℕ) (blocks : List SackBlock) (now : ℕ) (due : Bool)
        → K s
        → let (m, lost) = mark_sacked_and_collect_gaps s.unacked ack blocks in
          let marked = record s { unacked = m } in
          K (
            if due
            then retransmit_all fl now
                (loss_fast fl now (record marked { last_sack_time = now }))
                lost
            else marked)
    unfolding loss_fast
    marked-Keeps s ack blocks now due k =
        let m = mark_sacked_and_collect_gaps s.unacked ack blocks in
        let a = mark-Stored s.unacked ack blocks k.kept in
        if_both K due
          (retransmit_all-Keeps now
            (loss_fast fl now (record s { unacked = m.0; last_sack_time = now })) m.1
            (record {
              kept = a;
              all_sent = k.all_sent;
              base_le = k.base_le;
              seq_same = k.seq_same;
            }))
          (record { kept = a; all_sent = k.all_sent; base_le = k.base_le; seq_same = k.seq_same })

    duplicate_plain-Keeps : (s : Sender fl) (now : ℕ) → K s → K (duplicate_plain fl s now)
    unfolding duplicate_plain loss_fast
    duplicate_plain-Keeps s now k =
        let reset = record s { dup_ack_count = 0 } in
        let r : K reset = record {
          kept = k.kept;
          all_sent = k.all_sent;
          base_le = k.base_le;
          seq_same = k.seq_same;
        } in
        if_both K (leb fast_retransmit_count s.dup_ack_count)
          (option_with K (lookup s.send_base s.unacked) (λ _. r)
            (λ up e. if_both K up.sacked r (
              retransmit-Keeps now (loss_fast fl now reset) s.send_base (record {
                kept = k.kept;
                all_sent = k.all_sent;
                base_le = k.base_le;
                seq_same = k.seq_same;
              }))))
          k

    duplicate_ack-Keeps :
        (s : Sender fl) (ack : ℕ) (blocks : List SackBlock) (now : ℕ)
        → K s
        → K (duplicate_ack fl s ack blocks now)
    unfolding duplicate_ack duplicate_sack
    duplicate_ack-Keeps s ack [] now k = duplicate_plain-Keeps s now k
    duplicate_ack-Keeps s ack (b ∷ bs) now k = marked-Keeps s ack (b ∷ bs) now _ k

    ack_loop-Keeps :
        (rounds now seq : ℕ) (st : Sender fl × ℕ) → K st.0 → K (ack_loop fl rounds now seq st).0
    unfolding ack_loop ack_step
    ack_loop-Keeps zero now seq st k = k
    ack_loop-Keeps (suc rounds) now seq st k =
        ack_loop-Keeps rounds now (add32 seq 1) (ack_step fl now seq st) (
          option_with (λ (st : Sender fl × ℕ). K st.0) (lookup seq st.0.unacked) (λ _. k)
            (λ up e. record {
              kept = All-erase (λ e. P e.1.pkt) seq st.0.unacked k.kept;
              all_sent = k.all_sent;
              base_le = k.base_le;
              seq_same = k.seq_same;
            }))

    new_ack_sack-Keeps :
        (s : Sender fl) (ack : ℕ) (blocks : List SackBlock) (now : ℕ)
        → K s
        → K (new_ack_sack fl s ack blocks now)
    unfolding new_ack_sack
    new_ack_sack-Keeps s ack [] now k = k
    new_ack_sack-Keeps s ack (b ∷ bs) now k = marked-Keeps s ack (b ∷ bs) now _ k

    advance-Keeps : (s : Sender fl) (ack acked : ℕ) → ack ≤ top → K s → K (advance fl s ack acked)
    unfolding advance
    advance-Keeps s ack acked le k =
        if_both K (ltb 0 acked)
          (record { kept = k.kept; all_sent = k.all_sent; base_le = base; seq_same = k.seq_same })
          (record { kept = k.kept; all_sent = k.all_sent; base_le = base; seq_same = k.seq_same })
      where
        base : (if seq_greater ack s.send_base then ack else s.send_base) ≤ top
        base = if_both (λ b. b ≤ top) (seq_greater ack s.send_base) le k.base_le

    -- An acknowledgement moves the base no further than to the number that it names.
    pub process_ack-Keeps :
        (s : Sender fl) (ack : ℕ) (blocks : List SackBlock) (now : ℕ)
        → ack ≤ top
        → K s
        → K (process_ack fl s ack blocks now)
    unfolding process_ack new_ack
    process_ack-Keeps s ack blocks now le k =
        if_both K (ack == s.send_base)
          (duplicate_ack-Keeps (record s { dup_ack_count = s.dup_ack_count + 1 }) ack blocks now
            (record {
              kept = k.kept;
              all_sent = k.all_sent;
              base_le = k.base_le;
              seq_same = k.seq_same;
            }))
          (advance-Keeps _ ack _ le (
            new_ack_sack-Keeps _ ack blocks now (
              ack_loop-Keeps (bound_span (sub32 ack s.send_base)) now s.send_base
                (record s { dup_ack_count = 0 }, 0)
                (record {
                  kept = k.kept;
                  all_sent = k.all_sent;
                  base_le = k.base_le;
                  seq_same = k.seq_same;
                }))))

    check_entries-Keeps :
        (now rto : ℕ) (seqs : List ℕ) (s : Sender fl) → K s → K (check_entries fl now rto seqs s)
    unfolding check_entries check_entry
    check_entries-Keeps now rto [] s k = k
    check_entries-Keeps now rto (seq ∷ seqs) s k =
        check_entries-Keeps now rto seqs (check_entry fl now rto seq s) (
          option_with K (lookup seq s.unacked) (λ _. k)
            (λ up e.
              if_both K (not up.sacked && ltb (up.sent_time + rto) now)
                (if_both K (leb max_retries up.retries)
                  (record {
                    kept = All-erase (λ e. P e.1.pkt) seq s.unacked k.kept;
                    all_sent = k.all_sent;
                    base_le = k.base_le;
                    seq_same = k.seq_same;
                  })
                  (retransmit-Keeps now s seq k))
                k))

    pub check_retransmit-Keeps : (s : Sender fl) (now : ℕ) → K s → K (check_retransmit fl s now)
    unfolding check_retransmit
    check_retransmit-Keeps s now k =
        let rto = get_rto fl s.rtt_estimator * millisecond in
        let seqs = map (λ (e : ℕ × Unacked). e.0) s.unacked in
        let s' = check_entries fl now rto seqs s in
        let k' = check_entries-Keeps now rto seqs s k in
        if_both K (ltb s.retransmits s'.retransmits)
          (record {
            kept = k'.kept;
            all_sent = k'.all_sent;
            base_le = k'.base_le;
            seq_same = k'.seq_same;
          })
          k'

-- A weaker property, and a greater bound.
pub Keeps-weaken {κ κ'} :
    (P : ReliablePacket → Type κ) (Q : ReliablePacket → Type κ') {fl : Float64} (top top' next : ℕ)
    (s : Sender fl)
    → ((pkt : ReliablePacket) → P pkt → Q pkt)
    → top ≤ top'
    → Keeps P top next s
    → Keeps Q top' next s
Keeps-weaken P Q top top' next s f le k = record {
  kept = All-weaken (λ e. P e.1.pkt) (λ e. Q e.1.pkt) s.unacked (λ e. f e.1.pkt) k.kept;
  all_sent = All-weaken P Q s.sent f k.all_sent;
  base_le = omega (arith, k.base_le);
  seq_same = k.seq_same;
}
