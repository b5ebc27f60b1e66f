-- ===== src/Reliable/Receiver/Run.antt =====
-- A receiver from its creation on, over any sequence of arriving data packets of one stream.
use shadow_gre.Prelude.{
  ℕ, zero, suc, ◌+◌, ◌%◌, ◌^◌, ◌≤◌, ◌<◌, ◌≡◌, refl, sym, ◌⊎◌, inl, inr, List, [], ◌∷◌, arith,
  length, length-append, Option-cases,
}
use shadow_gre.Prelude.{lookup, erase, length-erase-le, length-insert-le}
use native.Mathlib.Decide.{dec_lt}
use mathlib.Core.Path.{subst}
use shadow_gre.Reliable.Receiver.{
  Receiver, new_receiver, send_ack, send_ack_now, send_ack_with_sack, deliver, deliver_loop,
  deliver_out_of_order, buffer, process_data, max_out_of_order_buffer,
}
use shadow_gre.Reliable.Receiver.Order.{
  first, Tracks, Covered, process_data-Arrival, out_of_order-schedule_ack,
}

-- The receiver after the packets of these positions, in the order in which they arrive.
unfoldable pub run : (ℕ → List ℕ) → Receiver → List ℕ → Receiver
run s r [] = r
run s r (i ∷ is) = run s (process_data r (i % 2 ^ 32) (s i)) is

-- No packet arrives 2^31 positions or more away from the next one that is expected.
abbrev pub InWindow : (ℕ → List ℕ) → Receiver → List ℕ → Type 0
InWindow s r [] = Unit
InWindow s r (i ∷ is) =
    (i < length r.delivered + 2 ^ 31)
    × (length r.delivered < i + 2 ^ 31)
    × InWindow s (process_data r (i % 2 ^ 32) (s i)) is

abbrev pub In : ℕ → List ℕ → Type 0
In j [] = ⊥
In j (i ∷ is) = (j ≡ i) ⊎ In j is

length-first : (s : ℕ → List ℕ) (n : ℕ) → length (first s n) ≡ n
length-first s zero = refl
length-first s (suc n) = omega (arith, length-append (first s n) (s n ∷ []), length-first s n)

pub length-delivered :
    (s : ℕ → List ℕ) {n : ℕ} {r : Receiver} → Tracks s n r → length r.delivered ≡ n
length-delivered s {n} {r} t = rw t.prefix (length-first s n)

length-deliver_loop-le :
    (fuel : ℕ) (r : Receiver) → length (deliver_loop fuel r).out_of_order ≤ length r.out_of_order
unfolding deliver_loop deliver
length-deliver_loop-le zero r = omega arith
length-deliver_loop-le (suc fuel) r = elim (Option-cases (lookup r.recv_next r.out_of_order)) [
  | inl e ↦ rw (e, deliver_loop) (omega arith)
  | inr (payload, e) ↦
      rw (e, deliver_loop)
        (omega (
          arith,
          length-deliver_loop-le fuel
              (deliver (record r { out_of_order = erase r.recv_next r.out_of_order }) payload),
          length-erase-le r.recv_next r.out_of_order,
        ))
]

-- A packet adds one entry to the buffer at most.
length-process_data-le :
    (r : Receiver) (seq : ℕ) (payload : List ℕ)
    → length (process_data r seq payload).out_of_order ≤ length r.out_of_order + 1
unfolding process_data buffer send_ack_with_sack send_ack_now send_ack deliver_out_of_order deliver
length-process_data-le r seq payload = ground (
  arith,
  out_of_order-schedule_ack (deliver_out_of_order (deliver r payload)),
  length-deliver_loop-le (suc (length r.out_of_order)) (deliver r payload),
  length-insert-le seq payload r.out_of_order,
)

-- What a run of arrivals leads to.
run-Tracks :
    (s : ℕ → List ℕ) (is : List ℕ) (n : ℕ) (r : Receiver)
    → Tracks s n r
    → InWindow s r is
    → (n' : ℕ) × Tracks s n' (run s r is)
      × ((j : ℕ) → Covered s n r j → Covered s n' (run s r is) j)
      × (length r.out_of_order + length is ≤ max_out_of_order_buffer
          → (j : ℕ) → In j is
          → Covered s n' (run s r is) j)
unfolding run
run-Tracks s [] n r t w = (n, t, (λ j c. c), λ room j m. absurd m)
run-Tracks s (i ∷ is) n r t (hi, lo, w) =
    let (n₁, le, t₁, keeps₁, here) =
      process_data-Arrival s n i r t (omega (arith, count)) (omega (arith, count)) in
    let (n₂, t₂, keeps₂, covers) = run-Tracks s is n₁ (process_data r (i % 2 ^ 32) (s i)) t₁ w in
    (n₂, t₂, (λ j c. keeps₂ j (keeps₁ j c)), λ room. both n₂ keeps₂ here covers room)
  where
    r₁ : Receiver
    r₁ = process_data r (i % 2 ^ 32) (s i)

    count : length r.delivered ≡ n
    count = length-delivered s t

    both :
        (n₂ : ℕ) {n₁ : ℕ}
        → ((j : ℕ) → Covered s n₁ r₁ j → Covered s n₂ (run s r₁ is) j)
        → (length r.out_of_order < max_out_of_order_buffer → Covered s n₁ r₁ i)
        → (length r₁.out_of_order + length is ≤ max_out_of_order_buffer
            → (j : ℕ) → In j is
            → Covered s n₂ (run s r₁ is) j)
        → length r.out_of_order + length (i ∷ is) ≤ max_out_of_order_buffer
        → (j : ℕ) → In j (i ∷ is)
        → Covered s n₂ (run s r₁ is) j
    both n₂ {n₁} keeps here covers room j (inl e) =
        keeps j (subst (Covered s n₁ r₁) (sym e) (here (omega arith)))
    both n₂ {n₁} keeps here covers room j (inr m) =
        covers (omega (arith, length-process_data-le r (i % 2 ^ 32) (s i))) j m

pub new_receiver-Tracks : (s : ℕ → List ℕ) (id : ℕ) → Tracks s 0 (new_receiver id)
unfolding new_receiver lookup
new_receiver-Tracks s id = record { next = refl; prefix = refl; ahead = tt; drained = refl }

-- Safety. Whatever data packets of a stream reach a new receiver, in whatever order and however
-- often, if none is 2^31 positions or more from the next one expected, then what it has delivered is
-- the start of the stream: each payload once, in order, with none left out and none changed.
pub run-prefix :
    (s : ℕ → List ℕ) (id : ℕ) (is : List ℕ)
    → InWindow s (new_receiver id) is
    → let out = (run s (new_receiver id) is).delivered in out ≡ first s (length out)
run-prefix s id is w =
    let (n, t, _, _) = run-Tracks s is 0 (new_receiver id) (new_receiver-Tracks s id) w in
    rw (length-delivered s t) t.prefix

-- Completeness. If each of the first `count` payloads is among the packets that arrived, at most
-- `MaxOutOfOrderBuffer` packets in all and none 2^31 positions or more from the next one expected,
-- then all of these payloads have been delivered: no order of arrival makes the receiver lose one.
pub run_complete :
    (s : ℕ → List ℕ) (id : ℕ) (is : List ℕ) (count : ℕ)
    → InWindow s (new_receiver id) is
    → length is ≤ max_out_of_order_buffer
    → ((j : ℕ) → j < count → In j is)
    → count ≤ length (run s (new_receiver id) is).delivered
run_complete s id is count w few all =
    let (n, t, _, covers) = run-Tracks s is 0 (new_receiver id) (new_receiver-Tracks s id) w in
    rw (length-delivered s t) (elim (dec_lt n count) [
      | no le ↦ omega arith
      | yes lt ↦ absurd (missing n t (covers (unfold new_receiver in omega arith) n (all n lt)))
    ])
  where
    missing :
        (n : ℕ)
        → Tracks s n (run s (new_receiver id) is)
        → ¬ Covered s n (run s (new_receiver id) is) n
    missing n t (inl lt) = omega arith
    missing n t (inr (_, found)) = cc (found, t.drained, t.next)
