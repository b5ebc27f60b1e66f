-- ===== src/Reliable/Link/Agreement.antt =====
-- Two peers over a carrier that loses, repeats and reorders packets: what they agree on at any time.
use shadow_gre.Prelude.{ℕ, ◌^◌, ◌≤◌, ◌<◌, ◌≡◌, refl, sym, ap, ◌∙◌, List, All-weaken, arith, length}
use mathlib.Core.Path.{subst}
use shadow_gre.Wire.{IsU32}
use shadow_gre.Reliable.Rtt.{Float64}
use shadow_gre.Reliable.Sender.{new_sender}
use shadow_gre.Reliable.Receiver.{new_receiver}
use shadow_gre.Reliable.Receiver.Order.{first, Tracks}
use shadow_gre.Reliable.Receiver.Run.{new_receiver-Tracks}
use shadow_gre.Reliable.Stream.{new_reliable_stream}
use shadow_gre.Reliable.Link.{End, new_end, Reach, both_new, left_moves, right_moves}
use shadow_gre.Reliable.Link.Resend.{Keeps-weaken}
use shadow_gre.Reliable.Link.Sound.{Sound}
use shadow_gre.Reliable.Link.Moves.{Grows, taken_le, Move-Sound}

module _ (fl : Float64) where
  -- The other peer has moved.
  other-Sound : (p p' e : End fl) → Sound fl p e → Grows fl p p' → Sound fl p' e
  other-Sound p p' e w (taken, same, grown) = record {
    keeps = Keeps-weaken _ _ _ _ _ e.stream.sender (λ pkt h. h) grown w.keeps;
    receiving =
        let c = w.receiving.0 in
        (
          record {
            count = c.count;
            below = omega (arith, c.below);
            waiting =
                All-weaken _ _ e.stream.receiver.out_of_order (λ item h. omega arith) c.waiting;
            acks = c.acks;
            named = c.named;
          },
          subst (λ s. Tracks s (length e.stream.receiver.delivered) e.stream.receiver) (sym same)
              w.receiving.1,
        );
  }

  new_end-Sound :
      (id : ℕ) (s s' : ℕ → List ℕ) → IsU32 id → Sound fl (new_end fl id s') (new_end fl id s)
  unfolding new_reliable_stream new_sender new_receiver
  new_end-Sound id s s' small_id = record {
    keeps = record { kept = tt; all_sent = tt; base_le = omega arith; seq_same = refl };
    receiving = (
      record { count = refl; below = omega arith; waiting = tt; acks = tt; named = small_id },
      new_receiver-Tracks s' id,
    );
  }

  Reach-Sound :
      {id : ℕ} {sa sb : ℕ → List ℕ} {a b : End fl}
      → IsU32 id
      → Reach fl id sa sb a b
      → a.taken < 2 ^ 31
      → b.taken < 2 ^ 31
      → Sound fl b a × Sound fl a b × (a.payloads ≡ sa) × (b.payloads ≡ sb)
  Reach-Sound {id} {sa} {sb} small_id both_new small_a small_b =
      (new_end-Sound id sa sb small_id, new_end-Sound id sb sa small_id, refl, refl)
  Reach-Sound small_id (left_moves {a} {b} {a'} r m) small_a small_b =
      let (wa, wb, pa, pb) = Reach-Sound small_id r (omega (arith, taken_le fl m)) small_b in
      let (wa', grows) = Move-Sound fl b a wa small_b wb m in
      (wa', other-Sound a a' b wb grows, grows.1 ∙ pa, pb)
  Reach-Sound small_id (right_moves {a} {b} {b'} r m) small_a small_b =
      let (wa, wb, pa, pb) = Reach-Sound small_id r small_a (omega (arith, taken_le fl m)) in
      let (wb', grows) = Move-Sound fl a b wb small_a wa m in
      (other-Sound b b' a wa grows, wb', pa, grows.1 ∙ pb)

  -- What `e` has of the payloads `s` of its peer `p`.
  abbrev pub Agrees : (ℕ → List ℕ) → End fl → End fl → Type 0
  Agrees s p e =
      let out = e.stream.receiver.delivered in
      (out ≡ first s (length out))
      × (length out ≤ p.taken)
      × (p.stream.sender.send_base ≤ length out)

  agrees :
      (s : ℕ → List ℕ) (p e : End fl) → Sound fl p e → Sound fl e p → p.payloads ≡ s → Agrees s p e
  agrees s p e we wp same = (
    we.receiving.1.prefix ∙ ap (λ t. first t (length e.stream.receiver.delivered)) same,
    omega (arith, we.receiving.0.count, we.receiving.0.below),
    omega (arith, we.receiving.0.count, wp.keeps.base_le),
  )

  -- Two peers of a stream, whose identifier is a uint32, that have taken fewer than 2^31 sequence numbers each, after any moves of
  -- theirs in any order, over a carrier that loses, repeats and reorders packets: what each peer has
  -- delivered is the start of what the other sends, in order, and none of it beyond the numbers that
  -- the other has taken; and the other's `sendBase` is at most the number of payloads delivered.
  pub peers_agree :
      (id : ℕ) (sa sb : ℕ → List ℕ) (a b : End fl)
      → IsU32 id
      → Reach fl id sa sb a b
      → a.taken < 2 ^ 31
      → b.taken < 2 ^ 31
      → Agrees sa a b × Agrees sb b a
  peers_agree id sa sb a b small_id r small_a small_b =
      let (wa, wb, pa, pb) = Reach-Sound small_id r small_a small_b in
      (agrees sa a b wb wa pa, agrees sb b a wa wb pb)
