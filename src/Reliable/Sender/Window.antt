-- ===== src/Reliable/Sender/Window.antt =====
-- The congestion window under the sender's operations.
use shadow_gre.Prelude.{
  ℕ, zero, suc, ◌+◌, ◌*◌, ◌≤◌, ◌≡◌, refl, sym, ◌∙◌, inl, inr, not, ◌&&◌, List, [], ◌∷◌, map, arith,
  length, ltb, leb, ◌==◌, Bool-cases, Option-cases,
}
use shadow_gre.Prelude.{lookup}
use mathlib.Core.Path.{subst}
use shadow_gre.Reliable.Packet.{SackBlock}
use shadow_gre.Reliable.Seq.{add32, sub32}
use shadow_gre.Reliable.Rtt.{Float64, get_rto}
use shadow_gre.Reliable.Congestion.{
  max_cwnd, IsValid, on_ack_advance-IsValid, on_loss_fast-IsValid, on_loss_rto-IsValid,
}
use shadow_gre.Reliable.Sender.{
  Sender, bound_span, mark_sacked_and_collect_gaps, min_sack_interval, retransmit, retransmit_all,
  loss_fast, duplicate_sack, duplicate_plain, ack_step, ack_loop, new_ack_sack, advance, new_ack,
  duplicate_ack, process_ack, check_entry, check_entries, check_retransmit, max_retries,
  fast_retransmit_count, millisecond,
}

module _ (fl : Float64) where
  congestion-retransmit :
      (now seq : ℕ) (s : Sender fl) → (retransmit fl now s seq).congestion ≡ s.congestion
  unfolding retransmit
  congestion-retransmit now seq s = elim (Option-cases (lookup seq s.unacked)) [
    | inl e ↦ rw (retransmit, e)
    | inr (up, e) ↦ rw (retransmit, e)
  ]

  congestion-retransmit_all :
      (now : ℕ) (seqs : List ℕ) (s : Sender fl)
      → (retransmit_all fl now s seqs).congestion ≡ s.congestion
  unfolding retransmit_all
  congestion-retransmit_all now [] s = refl
  congestion-retransmit_all now (seq ∷ seqs) s =
      congestion-retransmit_all now seqs (retransmit fl now s seq) ∙ congestion-retransmit now seq s

  ack_step_effect :
      (now seq : ℕ) (s : Sender fl) (acked : ℕ)
      → ((ack_step fl now seq (s, acked)).0.congestion ≡ s.congestion)
        × ((ack_step fl now seq (s, acked)).1 ≤ acked + 1)
  unfolding ack_step
  ack_step_effect now seq s acked = elim (Option-cases (lookup seq s.unacked)) [
    | inl e ↦ rw (ack_step, e) (refl, omega arith)
    | inr (up, e) ↦ rw (ack_step, e) (refl, omega arith)
  ]

  ack_loop_effect :
      (rounds now seq : ℕ) (s : Sender fl) (acked : ℕ)
      → ((ack_loop fl rounds now seq (s, acked)).0.congestion ≡ s.congestion)
        × ((ack_loop fl rounds now seq (s, acked)).1 ≤ acked + rounds)
  unfolding ack_loop
  ack_loop_effect zero now seq s acked = (refl, omega arith)
  ack_loop_effect (suc rounds) now seq s acked =
      let st = ack_step fl now seq (s, acked) in
      let (e, le) = ack_loop_effect rounds now (add32 seq 1) st.0 st.1 in
      let (e', le') = ack_step_effect now seq s acked in (e ∙ e', omega arith)

  loss_fast-IsValid :
      (now : ℕ) (s : Sender fl) → IsValid s.congestion → IsValid (loss_fast fl now s).congestion
  unfolding loss_fast
  loss_fast-IsValid now s v = on_loss_fast-IsValid s.congestion _ now v

  resend-IsValid :
      (now : ℕ) (seqs : List ℕ) (s : Sender fl)
      → IsValid s.congestion
      → IsValid (retransmit_all fl now (loss_fast fl now s) seqs).congestion
  resend-IsValid now seqs s v =
      subst IsValid (sym (congestion-retransmit_all now seqs (loss_fast fl now s)))
        (loss_fast-IsValid now s v)

  new_ack_sack-IsValid :
      (s : Sender fl) (ack : ℕ) (blocks : List SackBlock) (now : ℕ)
      → IsValid s.congestion
      → IsValid (new_ack_sack fl s ack blocks now).congestion
  unfolding new_ack_sack
  new_ack_sack-IsValid s ack [] now v = v
  new_ack_sack-IsValid s ack (b ∷ bs) now v =
      let (m, lost) = mark_sacked_and_collect_gaps s.unacked ack (b ∷ bs) in
      elim (Bool-cases (
        leb (s.last_sack_time + min_sack_interval fl s.rtt_estimator) now && ltb 0 (length lost))) [
          | inl due ↦
              rw due (resend-IsValid now lost (record s { unacked = m; last_sack_time = now }) v)
          | inr early ↦ rw early v
        ]

  advance-IsValid :
      (s : Sender fl) (ack acked : ℕ)
      → IsValid s.congestion
      → acked ≤ 2 * max_cwnd
      → IsValid (advance fl s ack acked).congestion
  unfolding advance
  advance-IsValid s ack acked v few = elim (Bool-cases (ltb 0 acked)) [
    | inl e ↦ rw e (on_ack_advance-IsValid s.congestion acked v few)
    | inr e ↦ rw e v
  ]

  bound_span_le : (span : ℕ) → bound_span span ≤ 2 * max_cwnd
  unfolding bound_span
  bound_span_le span = ground arith

  new_ack-IsValid :
      (s : Sender fl) (ack : ℕ) (blocks : List SackBlock) (now : ℕ)
      → IsValid s.congestion
      → IsValid (new_ack fl s ack blocks now).congestion
  unfolding new_ack
  new_ack-IsValid s ack blocks now v =
      let rounds = bound_span (sub32 ack s.send_base) in
      let reset = record s { dup_ack_count = 0 } in
      let (e, le) = ack_loop_effect rounds now s.send_base reset 0 in
      advance-IsValid _ ack _ (new_ack_sack-IsValid _ ack blocks now (subst IsValid (sym e) v))
        (omega (arith, bound_span_le (sub32 ack s.send_base)))

  duplicate_ack-IsValid :
      (s : Sender fl) (ack : ℕ) (blocks : List SackBlock) (now : ℕ)
      → IsValid s.congestion
      → IsValid (duplicate_ack fl s ack blocks now).congestion
  unfolding duplicate_ack duplicate_plain duplicate_sack
  duplicate_ack-IsValid s ack (b ∷ bs) now v =
      let (m, lost) = mark_sacked_and_collect_gaps s.unacked ack (b ∷ bs) in
      elim (Bool-cases (leb (s.last_sack_time + min_sack_interval fl s.rtt_estimator) now)) [
        | inl due ↦
            rw due (resend-IsValid now lost (record s { unacked = m; last_sack_time = now }) v)
        | inr early ↦ rw early v
      ]
  duplicate_ack-IsValid s ack [] now v =
      elim (Bool-cases (leb fast_retransmit_count s.dup_ack_count)) [
        | inr few ↦ rw few v
        | inl third ↦ elim (Option-cases (lookup s.send_base s.unacked)) [
          | inl e ↦ rw (third, e) v
          | inr (up, e) ↦ elim (Bool-cases up.sacked) [
            | inl done ↦ rw (third, e, done) v
            | inr open_gap ↦
                rw (third, e, open_gap)
                  (unfold retransmit_all in
                    resend-IsValid now (s.send_base ∷ []) (record s { dup_ack_count = 0 }) v)
          ]
        ]
      ]

  -- Whatever ACK a peer sends, with whatever SACK blocks, `processAck` keeps the window between
  -- `MinCwnd` and `MaxCwnd` and the accumulator below the window.
  pub process_ack-IsValid :
      (s : Sender fl) (ack : ℕ) (blocks : List SackBlock) (now : ℕ)
      → IsValid s.congestion
      → IsValid (process_ack fl s ack blocks now).congestion
  unfolding process_ack
  process_ack-IsValid s ack blocks now v = elim (Bool-cases (ack == s.send_base)) [
    | inl e ↦
        rw e (
          duplicate_ack-IsValid (record s { dup_ack_count = s.dup_ack_count + 1 }) ack blocks now v)
    | inr e ↦ rw e (new_ack-IsValid s ack blocks now v)
  ]

  congestion-check_entry :
      (now rto seq : ℕ) (s : Sender fl) → (check_entry fl now rto seq s).congestion ≡ s.congestion
  unfolding check_entry
  congestion-check_entry now rto seq s = elim (Option-cases (lookup seq s.unacked)) [
    | inl e ↦ rw (check_entry, e)
    | inr (up, e) ↦ elim (Bool-cases (not up.sacked && ltb (up.sent_time + rto) now)) [
      | inr wait ↦ rw (check_entry, e, wait)
      | inl due ↦ elim (Bool-cases (leb max_retries up.retries)) [
        | inl over ↦ rw (check_entry, e, due, over)
        | inr again ↦ rw (check_entry, e, due, again) (congestion-retransmit now seq s)
      ]
    ]
  ]

  congestion-check_entries :
      (now rto : ℕ) (seqs : List ℕ) (s : Sender fl)
      → (check_entries fl now rto seqs s).congestion ≡ s.congestion
  unfolding check_entries
  congestion-check_entries now rto [] s = refl
  congestion-check_entries now rto (seq ∷ seqs) s =
      congestion-check_entries now rto seqs (check_entry fl now rto seq s)
      ∙ congestion-check_entry now rto seq s

  -- `checkRetransmit` keeps the window in its bounds as well.
  pub check_retransmit-IsValid :
      (s : Sender fl) (now : ℕ)
      → IsValid s.congestion
      → IsValid (check_retransmit fl s now).congestion
  unfolding check_retransmit
  check_retransmit-IsValid s now v =
      let rto = get_rto fl s.rtt_estimator * millisecond in
      let s' = check_entries fl now rto (map (λ e. e.0) s.unacked) s in
      let v' : IsValid s'.congestion =
        subst IsValid (sym (congestion-check_entries now rto _ s)) v in
      elim (Bool-cases (ltb s.retransmits s'.retransmits)) [
        | inl resent ↦ rw resent (on_loss_rto-IsValid s'.congestion _ now v')
        | inr quiet ↦ rw quiet v'
      ]
