-- ===== src/Reliable/Receiver/Order.antt =====
-- The receiver against the stream that its peer sends: `s i` is the payload at position `i`, and the
-- packet that carries it has the sequence number `i` modulo 2^32.
use shadow_gre.Prelude.{
  ℕ, zero, suc, ◌+◌, ◌%◌, ◌^◌, ◌≤◌, ◌<◌, ◌≡◌, refl, sym, ap, ◌∙◌, ◌⊎◌, inl, inr, true, false, none,
  some, List, [], ◌∷◌, ◌++◌, arith, length, All, ltb, ◌==◌, ltb_false→le, lt→ltb, le→ltb_false,
  ==_iff, ==_self, ne→==_false, Bool-cases, Option-cases,
}
use shadow_gre.Prelude.{
  lookup, erase, insert, lookup-erase, lookup-insert, length-erase-lt, All-lookup, none-lookup,
  All-erase, All-insert, erase-ne, All-map, All-and,
}
use native.Mathlib.Decide.{dec_lt}
use mathlib.Core.Path.{subst}
use shadow_gre.Reliable.Seq.{add32, seq_greater, seq_order, seq_unique}
use shadow_gre.Reliable.Receiver.{
  Receiver, send_ack, send_ack_now, send_ack_with_sack, schedule_ack, deliver, deliver_loop,
  deliver_out_of_order, buffer, process_data, max_out_of_order_buffer, ack_every_n,
}

-- The first `n` payloads of a stream.
abbrev pub first : (ℕ → List ℕ) → ℕ → List (List ℕ)
first s zero = []
first s (suc n) = first s n ++ (s n ∷ [])

-- Scheduling an acknowledgement leaves the buffer alone.
pub out_of_order-schedule_ack : (r : Receiver) → (schedule_ack r).out_of_order ≡ r.out_of_order
unfolding schedule_ack send_ack_now send_ack
out_of_order-schedule_ack r = ground arith

module _ (s : ℕ → List ℕ) where
  -- An entry of the buffer is a payload of the stream, at a position from `n` on and less than 2^31
  -- behind it, under the position's 32-bit sequence number.
  abbrev pub Ahead : ℕ → ℕ × List ℕ → Type 0
  Ahead n e = (i : ℕ) × (e.0 ≡ i % 2 ^ 32) × (n ≤ i) × (i < n + 2 ^ 31) × (e.1 ≡ s i)

  -- `n` payloads have been delivered. What is buffered comes behind the next one.
  pub record Tracks (n : ℕ) (r : Receiver) : Type 0 where
    pub next : r.recv_next ≡ n % 2 ^ 32
    pub prefix : r.delivered ≡ first s n
    pub ahead : All (Ahead n) r.out_of_order
    pub drained : lookup r.recv_next r.out_of_order ≡ none

  -- Position `i` has arrived: it is delivered, or in the buffer.
  abbrev pub Covered : ℕ → Receiver → ℕ → Type 0
  Covered n r i = (i < n) ⊎ ((i < n + 2 ^ 31) × (lookup (i % 2 ^ 32) r.out_of_order ≡ some (s i)))

  -- From `n` payloads delivered to as many or more, with all that had arrived still there.
  abbrev pub Advance : ℕ → Receiver → Receiver → Type 0
  Advance n r r' = (n' : ℕ) × (n ≤ n') × Tracks n' r' × ((j : ℕ) → Covered n r j → Covered n' r' j)

  -- The next payload is at position `n`, if it is in the buffer.
  at_next : (n k : ℕ) (e : ℕ × List ℕ) → k ≡ n % 2 ^ 32 → e.0 ≡ k → Ahead n e → e.1 ≡ s n
  at_next n k e h q (i, a, b, c, d) =
      d ∙ ap s (seq_unique i n (omega arith) (omega arith) (omega arith))

  -- Once position `n` is delivered, all entries under another sequence number are behind it.
  later-Ahead :
      (n k : ℕ) → k ≡ n % 2 ^ 32 → (e : ℕ × List ℕ) → Ahead n e × ¬ (e.0 ≡ k) → Ahead (suc n) e
  later-Ahead n k h e ((i, a, b, c, d), ne) =
      (i, a, behind (λ (q : i ≡ n). ne (a ∙ rw q (sym h))), omega arith, d)
    where
      behind : ¬ (i ≡ n) → suc n ≤ i
      behind q = omega arith

  step-Ahead :
      (n k : ℕ) (m : List (ℕ × List ℕ))
      → k ≡ n % 2 ^ 32
      → All (Ahead n) m
      → All (Ahead (suc n)) (erase k m)
  step-Ahead n k m h a =
      All-map (λ e. Ahead n e × ¬ (e.0 ≡ k)) (Ahead (suc n)) (erase k m) (later-Ahead n k h)
        (All-and (Ahead n) (λ e. ¬ (e.0 ≡ k)) (erase k m) (All-erase (Ahead n) k m a)
          (erase-ne k m))

  -- What has arrived stays so when the next payload is delivered.
  step-Covered :
      (n : ℕ) (r : Receiver) (payload : List ℕ)
      → r.recv_next ≡ n % 2 ^ 32
      → (j : ℕ) → Covered n r j
      → Covered
          (suc n)
          (deliver (record r { out_of_order = erase r.recv_next r.out_of_order }) payload)
          j
  unfolding deliver
  step-Covered n r payload h j (inl lt) = inl (omega arith)
  step-Covered n r payload h j (inr (window, found)) = elim (dec_lt n j) [
    | no le ↦ inl (omega arith)
    | yes lt ↦
        let other : ¬ (j % 2 ^ 32 ≡ r.recv_next) = omega arith in
        inr (
          omega arith,
          rw
              (
                lookup-erase (j % 2 ^ 32) r.recv_next r.out_of_order,
                ne→==_false (j % 2 ^ 32) r.recv_next other,
              )
              found,
        )
  ]

  -- What `deliverOutOfOrder` leaves: more delivered, nothing next in the buffer.
  deliver_loop-Advance :
      (fuel n : ℕ) (r : Receiver)
      → length r.out_of_order < fuel
      → r.recv_next ≡ n % 2 ^ 32
      → r.delivered ≡ first s n
      → All (Ahead n) r.out_of_order
      → Advance n r (deliver_loop fuel r)
  unfolding deliver_loop deliver
  deliver_loop-Advance zero n r f h d a = absurd (omega arith)
  deliver_loop-Advance (suc fuel) n r f h d a =
      elim (Option-cases (lookup r.recv_next r.out_of_order)) [
        | inl e ↦ (
          n,
          omega arith,
          rw (e, deliver_loop) (record { next = h; prefix = d; ahead = a; drained = e }),
          rw (e, deliver_loop) (λ j c. c),
        )
        | inr (payload, e) ↦
            let it : payload ≡ s n =
              at_next n r.recv_next (r.recv_next, payload) h refl
                (All-lookup (Ahead n) r.recv_next r.out_of_order a e) in
            let (n', le, t, keeps) =
              deliver_loop-Advance fuel (suc n)
                (deliver (record r { out_of_order = erase r.recv_next r.out_of_order }) payload)
                (omega (arith, length-erase-lt r.recv_next r.out_of_order payload e)) (omega arith)
                (rw (d, it)) (step-Ahead n r.recv_next r.out_of_order h a) in
            (
              n',
              omega arith,
              rw (e, deliver_loop) t,
              rw (e, deliver_loop) (λ j c. keeps j (step-Covered n r payload h j c)),
            )
      ]

  -- Acknowledging changes nothing of this.
  send_ack_now-Tracks : {n : ℕ} {r : Receiver} → Tracks n r → Tracks n (send_ack_now r)
  unfolding send_ack_now send_ack
  send_ack_now-Tracks t = record {
    next = t.next;
    prefix = t.prefix;
    ahead = t.ahead;
    drained = t.drained;
  }

  schedule_ack-Tracks : {n : ℕ} (r : Receiver) → Tracks n r → Tracks n (schedule_ack r)
  unfolding schedule_ack send_ack_now send_ack
  schedule_ack-Tracks r t = elim (Bool-cases (add32 r.recv_counter 1 % ack_every_n == 0)) [
    | inl now ↦
        rw now (record { next = t.next; prefix = t.prefix; ahead = t.ahead; drained = t.drained })
    | inr later ↦ elim (Bool-cases r.pending_ack) [
      | inl p ↦
          rw (later, p)
            (record { next = t.next; prefix = t.prefix; ahead = t.ahead; drained = t.drained })
      | inr p ↦
          rw (later, p)
            (record { next = t.next; prefix = t.prefix; ahead = t.ahead; drained = t.drained })
    ]
  ]

  -- As `step-Ahead`, where nothing is buffered under `k`.
  pass-Ahead :
      (n k : ℕ) (m : List (ℕ × List ℕ))
      → k ≡ n % 2 ^ 32
      → lookup k m ≡ none
      → All (Ahead n) m
      → All (Ahead (suc n)) m
  pass-Ahead n k m h e a =
      All-map (λ e. Ahead n e × ¬ (e.0 ≡ k)) (Ahead (suc n)) m (later-Ahead n k h)
        (All-and (Ahead n) (λ e. ¬ (e.0 ≡ k)) m a (none-lookup k m e))

  pass-Covered :
      (n : ℕ) (r : Receiver) (payload : List ℕ) (j : ℕ)
      → Covered n r j
      → Covered (suc n) (deliver r payload) j
  unfolding deliver
  pass-Covered n r payload j (inl lt) = inl (omega arith)
  pass-Covered n r payload j (inr (window, found)) = inr (omega arith, found)

  -- What has become of position `i` once its packet has been processed.
  abbrev pub Arrival : ℕ → Receiver → ℕ → Receiver → Type 0
  Arrival n r i r' =
      (n' : ℕ) × (n ≤ n')
      × Tracks n' r'
      × ((j : ℕ) → Covered n r j → Covered n' r' j)
      × (length r.out_of_order < max_out_of_order_buffer → Covered n' r' i)

  deliver-Advance :
      (n : ℕ) (r : Receiver)
      → Tracks n r
      → Advance (suc n) (deliver r (s n)) (deliver_out_of_order (deliver r (s n)))
  unfolding deliver_out_of_order deliver
  deliver-Advance n r t =
      deliver_loop-Advance _ (suc n) (deliver r (s n)) (omega arith) next (rw t.prefix)
        (pass-Ahead n r.recv_next r.out_of_order t.next t.drained t.ahead)
    where
      next : add32 r.recv_next 1 ≡ suc n % 2 ^ 32
      next = omega (arith, t.next)

  in_order-Arrival :
      (n : ℕ) (r : Receiver)
      → Tracks n r
      → Arrival n r n (schedule_ack (deliver_out_of_order (deliver r (s n))))
  in_order-Arrival n r t =
      let out = deliver_out_of_order (deliver r (s n)) in
      let (n', le, tracks, keeps) = deliver-Advance n r t in
      (
        n',
        omega arith,
        schedule_ack-Tracks out tracks,
        (λ j c. rw (out_of_order-schedule_ack out) (keeps j (pass-Covered n r (s n) j c))),
        λ _. inl le,
      )

  -- The packet of a position behind the next one goes into the buffer.
  buffer-Arrival :
      (n i : ℕ) (r : Receiver)
      → Tracks n r
      → n < i
      → i < n + 2 ^ 31
      → Arrival n r i (buffer r (i % 2 ^ 32) (s i))
  unfolding buffer
  buffer-Arrival n i r t lt window =
      elim (Bool-cases (ltb (length r.out_of_order) max_out_of_order_buffer)) [
        | inr full ↦
            rw full
              (n, omega arith, t, (λ j c. c), λ room. absurd (omega (arith, ltb_false→le _ _ full)))
        | inl room ↦ elim (Option-cases (lookup (i % 2 ^ 32) r.out_of_order)) [
          | inr (payload, e) ↦
              let it : payload ≡ s i =
                same payload (All-lookup (Ahead n) (i % 2 ^ 32) r.out_of_order t.ahead e) in
              rw (room, e) (n, omega arith, t, (λ j c. c), λ _. inr (window, e ∙ ap some it))
          | inl e ↦
              rw (room, e)
                (
                  n,
                  omega arith,
                  tracks,
                  covered,
                  λ _. inr (
                    window,
                    rw (
                      lookup-insert (i % 2 ^ 32) (i % 2 ^ 32) (s i) r.out_of_order,
                      ==_self (i % 2 ^ 32),
                    ),
                  ),
                )
        ]
      ]
    where
      same : (payload : List ℕ) → Ahead n (i % 2 ^ 32, payload) → payload ≡ s i
      same payload (k, a, b, c, d) = d ∙ ap s (seq_unique k i (omega arith) (omega arith) (sym a))

      other : ¬ (i % 2 ^ 32 ≡ r.recv_next)
      other q = absurd (omega (arith, t.next, seq_unique i n (omega arith) (omega arith)))

      tracks : Tracks n (record r { out_of_order = insert (i % 2 ^ 32) (s i) r.out_of_order })
      tracks = record {
        next = t.next;
        prefix = t.prefix;
        ahead =
            All-insert (Ahead n) (i % 2 ^ 32) (s i) r.out_of_order
              (i, refl, omega arith, window, refl) t.ahead;
        drained =
            rw
              (
                lookup-insert r.recv_next (i % 2 ^ 32) (s i) r.out_of_order,
                ne→==_false (i % 2 ^ 32) r.recv_next other,
              )
              t.drained;
      }

      clash : (j : ℕ) → i % 2 ^ 32 ≡ j % 2 ^ 32 → Ahead n (j % 2 ^ 32, s j) → s i ≡ s j
      clash j q (k, a, b, c, d) = ap s (seq_unique i k (omega arith) (omega arith) (q ∙ a)) ∙ sym d

      covered :
          (j : ℕ)
          → Covered n r j
          → Covered n (record r { out_of_order = insert (i % 2 ^ 32) (s i) r.out_of_order }) j
      covered j (inl c) = inl c
      covered j (inr (w, c)) = inr (
        w,
        rw (lookup-insert (j % 2 ^ 32) (i % 2 ^ 32) (s i) r.out_of_order)
            (elim (Bool-cases (i % 2 ^ 32 == j % 2 ^ 32)) [
              | inl q ↦ rw q (
                  ap some (
                    clash j ((==_iff _ _).0 q)
                      (All-lookup (Ahead n) (j % 2 ^ 32) r.out_of_order t.ahead c)))
              | inr q ↦ rw q c
            ]),
      )

  send_ack_with_sack-Tracks : {n : ℕ} (r : Receiver) → Tracks n r → Tracks n (send_ack_with_sack r)
  unfolding send_ack_with_sack send_ack
  send_ack_with_sack-Tracks r t = record {
    next = t.next;
    prefix = t.prefix;
    ahead = t.ahead;
    drained = t.drained;
  }

  -- The packet of position `i`, less than 2^31 away from the next one, leaves the receiver with a start
  -- of the stream delivered, never a shorter one. What had arrived is still there, and `i` has arrived
  -- too unless the buffer was full.
  pub process_data-Arrival :
      (n i : ℕ) (r : Receiver)
      → Tracks n r
      → i < n + 2 ^ 31
      → n < i + 2 ^ 31
      → Arrival n r i (process_data r (i % 2 ^ 32) (s i))
  unfolding process_data
  process_data-Arrival n i r t hi lo = elim (dec_lt i n) [
    | yes past ↦
        rw (other (λ q. absurd (omega arith)), greater, le→ltb_false n i (omega arith))
          (
            n,
            omega arith,
            send_ack_now-Tracks t,
            unfold send_ack_now send_ack in (λ j c. c),
            λ _. inl past,
          )
    | no le ↦ elim (dec_lt n i) [
      | yes later ↦
          let (n', le', tracks, keeps, here) = buffer-Arrival n i r t later hi in
          rw (other (λ q. absurd (omega arith)), greater, lt→ltb n i later)
            (
              n',
              le',
              send_ack_with_sack-Tracks (buffer r (i % 2 ^ 32) (s i)) tracks,
              unfold send_ack_with_sack send_ack in keeps,
              unfold send_ack_with_sack send_ack in here,
            )
      | no ge ↦
          let e : n ≡ i = omega arith in
          subst (λ k. Arrival n r k (process_data r (k % 2 ^ 32) (s k))) e
            (unfold process_data in rw expected (in_order-Arrival n r t))
    ]
  ]
    where
      other : ¬ (i ≡ n) → (i % 2 ^ 32 == r.recv_next) ≡ false
      other q = ne→==_false _ _ (λ e. q (seq_unique i n hi lo (e ∙ t.next)))

      greater : seq_greater (i % 2 ^ 32) r.recv_next ≡ ltb n i
      greater =
          let order = seq_order i n hi lo in
          subst (λ w. seq_greater (i % 2 ^ 32) w ≡ ltb n i) (sym t.next) order.2

      expected : (n % 2 ^ 32 == r.recv_next) ≡ true
      expected = (==_iff _ _).1 (sym t.next)
