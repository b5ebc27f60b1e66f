-- ===== src/Reliable/Sender/Acks.antt =====
-- Which packets an acknowledgement takes out of the retransmission map.
use shadow_gre.Prelude.{
  ℕ, zero, suc, ◌+◌, ◌-◌, ◌*◌, ◌%◌, ◌^◌, ◌≤◌, ◌<◌, ◌≡◌, refl, sym, ◌∙◌, inl, inr, true, false, ◌&&◌,
  Option, none, some, List, [], ◌∷◌, arith, length, ltb, leb, ◌==◌, if◌then◌else◌, lt→ltb,
  le→ltb_false, le→leb, ==_iff, ==_self, ne→==_false, Bool-cases, Option-cases,
}
use shadow_gre.Prelude.{lookup, erase, insert, lookup-erase, lookup-insert}
use mathlib.Core.Path.{subst, subst₂}
use shadow_gre.Reliable.Packet.{SackBlock, ReliablePacket}
use shadow_gre.Reliable.Seq.{add32, sub32, seq_greater, seq_order, seq_unique}
use shadow_gre.Reliable.Rtt.{Float64}
use shadow_gre.Reliable.Congestion.{max_cwnd}
use shadow_gre.Reliable.Sender.{
  Unacked, Sender, max_right, bound_span, gap_step, gap_loop, mark_sacked_and_collect_gaps,
  min_sack_interval, retransmit, retransmit_all, loss_fast, ack_step, ack_loop, new_ack_sack,
  advance, new_ack, process_ack,
}

-- The packet that is kept for retransmission under a sequence number.
pub packet_at : ℕ → List (ℕ × Unacked) → Option ReliablePacket
packet_at seq m = elim (lookup seq m) [ none ↦ none | some up ↦ some up.pkt ]

-- A new record for the same packet.
packet_at-insert :
    (j seq : ℕ) (up up' : Unacked) (m : List (ℕ × Unacked))
    → lookup seq m ≡ some up
    → up'.pkt ≡ up.pkt
    → packet_at j (insert seq up' m) ≡ packet_at j m
unfolding packet_at
packet_at-insert j seq up up' m e same = ground (arith, lookup-insert j seq up' m)

packet_at-erase :
    (j seq : ℕ) (m : List (ℕ × Unacked))
    → packet_at j (erase seq m) ≡ (if j == seq then none else packet_at j m)
unfolding packet_at
packet_at-erase j seq m = ground (arith, lookup-erase j seq m)

-- SACK marks and collects, and removes nothing.
packet_at-gap_step :
    (j seq : ℕ) (blocks : List SackBlock) (right : ℕ) (m : List (ℕ × Unacked)) (lost : List ℕ)
    → packet_at j (gap_step seq blocks right (m, lost)).0 ≡ packet_at j m
unfolding gap_step
packet_at-gap_step j seq blocks right m lost = elim (Option-cases (lookup seq m)) [
  | inl e ↦ rw (e, gap_step)
  | inr (up, e) ↦ ground (arith, packet_at-insert j seq up (record up { sacked = true }) m e refl)
]

packet_at-gap_loop :
    (rounds j seq : ℕ) (blocks : List SackBlock) (right : ℕ) (m : List (ℕ × Unacked))
    (lost : List ℕ)
    → packet_at j (gap_loop rounds seq blocks right (m, lost)).0 ≡ packet_at j m
unfolding gap_loop
packet_at-gap_loop zero j seq blocks right m lost = refl
packet_at-gap_loop (suc rounds) j seq blocks right m lost =
    let (m', lost') = gap_step seq blocks right (m, lost) in
    packet_at-gap_loop rounds j (add32 seq 1) blocks right m' lost'
    ∙ packet_at-gap_step j seq blocks right m lost

packet_at-mark :
    (j ack : ℕ) (blocks : List SackBlock) (m : List (ℕ × Unacked))
    → packet_at j (mark_sacked_and_collect_gaps m ack blocks).0 ≡ packet_at j m
unfolding mark_sacked_and_collect_gaps
packet_at-mark j ack [] m = refl
packet_at-mark j ack (b ∷ bs) m = packet_at-gap_loop _ j ack (b ∷ bs) (max_right b.right bs) m []

span_ahead :
    (base count : ℕ)
    → count ≤ 2 * max_cwnd
    → bound_span (sub32 ((base + count) % 2 ^ 32) (base % 2 ^ 32)) ≡ count
unfolding bound_span
span_ahead base count few =
    let d : sub32 ((base + count) % 2 ^ 32) (base % 2 ^ 32) ≡ count = omega arith in
    rw (d, le→ltb_false (max_cwnd * 2) count few)

span_behind :
    (ack behind : ℕ)
    → 0 < behind
    → behind < 2 ^ 31
    → bound_span (sub32 (ack % 2 ^ 32) ((ack + behind) % 2 ^ 32)) ≡ 2 * max_cwnd
unfolding bound_span
span_behind ack behind pos near =
    let d : sub32 (ack % 2 ^ 32) ((ack + behind) % 2 ^ 32) ≡ 2 ^ 32 - behind = omega arith in
    rw (d, lt→ltb (max_cwnd * 2) (2 ^ 32 - behind) (omega arith))

module _ (fl : Float64) where
  packet_at-retransmit :
      (j now seq : ℕ) (s : Sender fl)
      → packet_at j (retransmit fl now s seq).unacked ≡ packet_at j s.unacked
  unfolding retransmit
  packet_at-retransmit j now seq s = elim (Option-cases (lookup seq s.unacked)) [
    | inl e ↦ rw (e, retransmit)
    | inr (up, e) ↦
        rw (e, retransmit)
          (packet_at-insert j seq up (record up { retries = up.retries + 1; sent_time = now })
            s.unacked e refl)
  ]

  packet_at-retransmit_all :
      (j now : ℕ) (seqs : List ℕ) (s : Sender fl)
      → packet_at j (retransmit_all fl now s seqs).unacked ≡ packet_at j s.unacked
  unfolding retransmit_all
  packet_at-retransmit_all j now [] s = refl
  packet_at-retransmit_all j now (seq ∷ seqs) s =
      packet_at-retransmit_all j now seqs (retransmit fl now s seq)
      ∙ packet_at-retransmit j now seq s

  packet_at-new_ack_sack :
      (j : ℕ) (s : Sender fl) (ack : ℕ) (blocks : List SackBlock) (now : ℕ)
      → packet_at j (new_ack_sack fl s ack blocks now).unacked ≡ packet_at j s.unacked
  unfolding new_ack_sack loss_fast
  packet_at-new_ack_sack j s ack [] now = refl
  packet_at-new_ack_sack j s ack (b ∷ bs) now =
      let m = (mark_sacked_and_collect_gaps s.unacked ack (b ∷ bs)).0 in
      let lost = (mark_sacked_and_collect_gaps s.unacked ack (b ∷ bs)).1 in
      let marked = record s { unacked = m; last_sack_time = now } in
      elim (Bool-cases (
        leb (s.last_sack_time + min_sack_interval fl s.rtt_estimator) now && ltb 0 (length lost))) [
          | inl due ↦ rw due (
              packet_at-retransmit_all j now lost (loss_fast fl now marked)
              ∙ packet_at-mark j ack (b ∷ bs) s.unacked)
          | inr early ↦ rw early (packet_at-mark j ack (b ∷ bs) s.unacked)
        ]

  packet_at-advance :
      (j : ℕ) (s : Sender fl) (ack acked : ℕ)
      → packet_at j (advance fl s ack acked).unacked ≡ packet_at j s.unacked
  unfolding advance
  packet_at-advance j s ack acked = elim (Bool-cases (ltb 0 acked)) [
    | inl some_acked ↦ rw some_acked
    | inr none_acked ↦ rw none_acked
  ]

  packet_at-ack_step :
      (j now seq : ℕ) (s : Sender fl) (acked : ℕ)
      → packet_at j (ack_step fl now seq (s, acked)).0.unacked
        ≡ (if j == seq then none else packet_at j s.unacked)
  unfolding ack_step packet_at
  packet_at-ack_step j now seq s acked = elim (Option-cases (lookup seq s.unacked)) [
    | inl e ↦ rw (e, ack_step) (absent e)
    | inr (up, e) ↦ rw (e, ack_step) (packet_at-erase j seq s.unacked)
  ]
    where
      absent :
          lookup seq s.unacked ≡ none
          → packet_at j s.unacked ≡ (if j == seq then none else packet_at j s.unacked)
      absent e = elim (Bool-cases (j == seq)) [
        | inr other ↦ rw other
        | inl same ↦ rw (same, (==_iff j seq).0 same, packet_at) (rw e)
      ]

  -- The loop removes the packets of a range of positions, and no other near it.
  packet_at-ack_loop :
      (rounds now p j : ℕ) (s : Sender fl) (acked : ℕ)
      → j < p + 2 ^ 31
      → p + rounds ≤ j + 2 ^ 31
      → packet_at (j % 2 ^ 32) (ack_loop fl rounds now (p % 2 ^ 32) (s, acked)).0.unacked
        ≡ (if leb p j && ltb j (p + rounds) then none else packet_at (j % 2 ^ 32) s.unacked)
  unfolding ack_loop
  packet_at-ack_loop zero now p j s acked hi lo = ground arith
  packet_at-ack_loop (suc rounds) now p j s acked hi lo =
      let st = ack_step fl now (p % 2 ^ 32) (s, acked) in
      rw (ack_loop, next)
        (packet_at-ack_loop rounds now (suc p) j st.0 st.1 (omega arith) (omega arith)
          ∙ ground (arith, packet_at-ack_step (j % 2 ^ 32) now (p % 2 ^ 32) s acked, same))
    where
      next : add32 (p % 2 ^ 32) 1 ≡ suc p % 2 ^ 32
      next = omega arith

      same : (j % 2 ^ 32 == p % 2 ^ 32) ≡ (j == p)
      same = elim (Bool-cases (j == p)) [
        | inl e ↦ rw (e, (==_iff j p).0 e, ==_self (p % 2 ^ 32))
        | inr e ↦ rw (
          e,
          ne→==_false (j % 2 ^ 32) (p % 2 ^ 32)
              (λ q. cc (e, (==_iff j p).1 (seq_unique j p hi (omega arith) q))),
        )
      ]

  send_base-ack_step :
      (now seq : ℕ) (s : Sender fl) (acked : ℕ)
      → (ack_step fl now seq (s, acked)).0.send_base ≡ s.send_base
  unfolding ack_step
  send_base-ack_step now seq s acked = elim (Option-cases (lookup seq s.unacked)) [
    | inl e ↦ rw (ack_step, e)
    | inr (up, e) ↦ rw (ack_step, e)
  ]

  send_base-ack_loop :
      (rounds now seq : ℕ) (s : Sender fl) (acked : ℕ)
      → (ack_loop fl rounds now seq (s, acked)).0.send_base ≡ s.send_base
  unfolding ack_loop
  send_base-ack_loop zero now seq s acked = refl
  send_base-ack_loop (suc rounds) now seq s acked =
      let st = ack_step fl now seq (s, acked) in
      send_base-ack_loop rounds now (add32 seq 1) st.0 st.1 ∙ send_base-ack_step now seq s acked

  send_base-retransmit :
      (now seq : ℕ) (s : Sender fl) → (retransmit fl now s seq).send_base ≡ s.send_base
  unfolding retransmit
  send_base-retransmit now seq s = elim (Option-cases (lookup seq s.unacked)) [
    | inl e ↦ rw (retransmit, e)
    | inr (up, e) ↦ rw (retransmit, e)
  ]

  send_base-retransmit_all :
      (now : ℕ) (seqs : List ℕ) (s : Sender fl)
      → (retransmit_all fl now s seqs).send_base ≡ s.send_base
  unfolding retransmit_all
  send_base-retransmit_all now [] s = refl
  send_base-retransmit_all now (seq ∷ seqs) s =
      send_base-retransmit_all now seqs (retransmit fl now s seq) ∙ send_base-retransmit now seq s

  send_base-new_ack_sack :
      (s : Sender fl) (ack : ℕ) (blocks : List SackBlock) (now : ℕ)
      → (new_ack_sack fl s ack blocks now).send_base ≡ s.send_base
  unfolding new_ack_sack loss_fast
  send_base-new_ack_sack s ack [] now = refl
  send_base-new_ack_sack s ack (b ∷ bs) now =
      let (m, lost) = mark_sacked_and_collect_gaps s.unacked ack (b ∷ bs) in
      let marked = record s { unacked = m; last_sack_time = now } in
      elim (Bool-cases (
        leb (s.last_sack_time + min_sack_interval fl s.rtt_estimator) now && ltb 0 (length lost))) [
          | inl due ↦ rw due (send_base-retransmit_all now lost (loss_fast fl now marked))
          | inr early ↦ rw early
        ]

  send_base-advance :
      (s : Sender fl) (ack acked : ℕ)
      → (advance fl s ack acked).send_base
        ≡ (if seq_greater ack s.send_base then ack else s.send_base)
  unfolding advance
  send_base-advance s ack acked = elim (Bool-cases (ltb 0 acked)) [
    | inl some_acked ↦ rw some_acked
    | inr none_acked ↦ rw none_acked
  ]

  -- What the new-ACK path removes, and where it leaves the base.
  new_ack_effect :
      (s : Sender fl) (base rounds ack : ℕ) (blocks : List SackBlock) (now : ℕ)
      → s.send_base ≡ base % 2 ^ 32
      → bound_span (sub32 ack s.send_base) ≡ rounds
      → rounds ≤ 2 ^ 16
      → ((j : ℕ)
          → j < base + 2 ^ 31
          → base ≤ j
          → packet_at (j % 2 ^ 32) (new_ack fl s ack blocks now).unacked
            ≡ (if ltb j (base + rounds) then none else packet_at (j % 2 ^ 32) s.unacked))
        × ((new_ack fl s ack blocks now).send_base
            ≡ (if seq_greater ack s.send_base then ack else s.send_base))
  unfolding new_ack
  new_ack_effect s base rounds ack blocks now at_base span few = (
    (λ j hi lo.
        packet_at-advance (j % 2 ^ 32) sacked ack st.1
        ∙ packet_at-new_ack_sack (j % 2 ^ 32) st.0 ack blocks now
        ∙ subst₂
            (λ (k w : ℕ).
              packet_at (j % 2 ^ 32) (ack_loop fl k now w (reset, 0)).0.unacked
              ≡ (if ltb j (base + rounds) then none else packet_at (j % 2 ^ 32) s.unacked))
            (sym span) (sym at_base)
            (packet_at-ack_loop rounds now base j reset 0 hi (omega arith)
              ∙ rw (le→leb base j lo))),
    subst
        (λ (w : ℕ). (advance fl sacked ack st.1).send_base ≡ (if seq_greater ack w then ack else w))
        (send_base-new_ack_sack st.0 ack blocks now ∙ send_base-ack_loop _ now s.send_base reset 0)
        (send_base-advance sacked ack st.1),
  )
    where
      reset : Sender fl
      reset = record s { dup_ack_count = 0 }

      st : Sender fl × ℕ
      st = ack_loop fl (bound_span (sub32 ack s.send_base)) now s.send_base (reset, 0)

      sacked : Sender fl
      sacked = new_ack_sack fl st.0 ack blocks now

  -- A cumulative ACK that moves the base on by `count` positions, up to `2 * MaxCwnd`, takes exactly
  -- the packets of these positions out of the map, whatever SACK blocks come with it: the packet of
  -- any other position from the base on, less than 2^31 behind it, stays as it was. The base is then
  -- the acknowledged position.
  pub process_ack_cumulative :
      (s : Sender fl) (base count : ℕ) (blocks : List SackBlock) (now : ℕ)
      → s.send_base ≡ base % 2 ^ 32
      → 0 < count
      → count ≤ 2 * max_cwnd
      → let s' = process_ack fl s ((base + count) % 2 ^ 32) blocks now in
        ((j : ℕ)
          → base ≤ j
          → j < base + 2 ^ 31
          → packet_at (j % 2 ^ 32) s'.unacked
            ≡ (if ltb j (base + count) then none else packet_at (j % 2 ^ 32) s.unacked))
        × (s'.send_base ≡ (base + count) % 2 ^ 32)
  unfolding process_ack
  process_ack_cumulative s base count blocks now at_base pos few =
      rw (new) ((λ j lo hi. effect.0 j hi lo), effect.1 ∙ rw ahead)
    where
      ack : ℕ
      ack = (base + count) % 2 ^ 32

      new : (ack == s.send_base) ≡ false
      new = ne→==_false ack s.send_base (omega (arith, at_base))

      span : bound_span (sub32 ack s.send_base) ≡ count
      span =
          subst (λ (w : ℕ). bound_span (sub32 ack w) ≡ count) (sym at_base)
            (span_ahead base count few)

      ahead : seq_greater ack s.send_base ≡ true
      ahead =
          subst (λ (w : ℕ). seq_greater ack w ≡ true) (sym at_base)
            ((seq_order (base + count) base (omega arith) (omega arith)).2
              ∙ lt→ltb base (base + count) (omega arith))

      effect :
          ((j : ℕ)
            → j < base + 2 ^ 31
            → base ≤ j
            → packet_at (j % 2 ^ 32) (new_ack fl s ack blocks now).unacked
              ≡ (if ltb j (base + count) then none else packet_at (j % 2 ^ 32) s.unacked))
          × ((new_ack fl s ack blocks now).send_base
              ≡ (if seq_greater ack s.send_base then ack else s.send_base))
      effect = new_ack_effect s base count ack blocks now at_base span (omega arith)

  -- The defect of the new-ACK path. An ACK that lies behind the base, as one that the carrier delays
  -- is, is taken for one that acknowledges `2 * MaxCwnd` packets: all that are kept for retransmission
  -- from the base on are forgotten, though none of them has been acknowledged, and the base stays.
  pub process_ack_stale :
      (s : Sender fl) (ack_pos behind : ℕ) (blocks : List SackBlock) (now : ℕ)
      → s.send_base ≡ (ack_pos + behind) % 2 ^ 32
      → 0 < behind
      → behind < 2 ^ 31
      → let s' = process_ack fl s (ack_pos % 2 ^ 32) blocks now in
        ((j : ℕ)
          → ack_pos + behind ≤ j
          → j < ack_pos + behind + 2 * max_cwnd
          → packet_at (j % 2 ^ 32) s'.unacked ≡ none)
        × (s'.send_base ≡ s.send_base)
  unfolding process_ack
  process_ack_stale s ack_pos behind blocks now at_base pos near = rw new (
    (λ j lo hi. effect.0 j (omega arith) lo ∙ rw (lt→ltb j (ack_pos + behind + 2 * max_cwnd) hi)),
    effect.1 ∙ rw not_ahead,
  )
    where
      ack : ℕ
      ack = ack_pos % 2 ^ 32

      base : ℕ
      base = ack_pos + behind

      new : (ack == s.send_base) ≡ false
      new = ne→==_false ack s.send_base (omega (arith, at_base))

      span : bound_span (sub32 ack s.send_base) ≡ 2 * max_cwnd
      span =
          subst (λ (w : ℕ). bound_span (sub32 ack w) ≡ 2 * max_cwnd) (sym at_base)
            (span_behind ack_pos behind pos near)

      not_ahead : seq_greater ack s.send_base ≡ false
      not_ahead =
          subst (λ (w : ℕ). seq_greater ack w ≡ false) (sym at_base)
            ((seq_order ack_pos base (omega arith) (omega arith)).2
              ∙ le→ltb_false base ack_pos (omega arith))

      effect :
          ((j : ℕ)
            → j < base + 2 ^ 31
            → base ≤ j
            → packet_at (j % 2 ^ 32) (new_ack fl s ack blocks now).unacked
              ≡ (if ltb j (base + 2 * max_cwnd) then none else packet_at (j % 2 ^ 32) s.unacked))
          × ((new_ack fl s ack blocks now).send_base
              ≡ (if seq_greater ack s.send_base then ack else s.send_base))
      effect = new_ack_effect s base (2 * max_cwnd) ack blocks now at_base span (omega arith)
