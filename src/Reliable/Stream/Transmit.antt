-- ===== src/Reliable/Stream/Transmit.antt =====
-- What a `ReliableStream` sends, against the parser of its peer, and the wait for the window.
use shadow_gre.Prelude.{
  ℕ, ◌≤◌, bit_or, ◌≡◌, refl, sym, ◌∙◌, ◌⊎◌, inl, inr, Bool, true, false, Option, none, some, List,
  [], ◌∷◌, arith, length, All, if◌then◌else◌, Bool-cases, ok, ◌>>=◌,
}
use mathlib.Core.Path.{subst}
use shadow_gre.Wire.{IsU32, has}
use shadow_gre.Reliable.Packet.{
  SackBlock, ReliablePacket, flag_data, flag_ack, flag_sack, max_sack_blocks, marshal,
  unmarshal_reliable,
}
use shadow_gre.Reliable.Packet.RoundTrip.{IsValid, BlockFits, unmarshal_reliable-marshal}
use shadow_gre.Reliable.Rtt.{Float64}
use shadow_gre.Reliable.Sack.{build_sack_blocks}
use shadow_gre.Reliable.Sack.Bounds.{build_sack_blocks-Fits}
use shadow_gre.Reliable.Receiver.{Receiver, with_sack}
use shadow_gre.Reliable.Stream.{
  ReliableStream, Round, Wake, signalled, stream_closes, timed_out, has_room, wait_for_window,
  data_packet,
}

-- The identifier and the sequence numbers of the receiving half are 32-bit.
pub record FitsWire (r : Receiver) : Type 0 where
  pub stream_id_fits : IsU32 r.stream_id
  pub recv_next_fits : IsU32 r.recv_next
  pub keys_fit : All (λ e. IsU32 e.0) r.out_of_order

abbrev acking : Receiver → ℕ → ℕ → List ℕ → ReliablePacket
acking r flags seq payload = record {
  stream_id = r.stream_id;
  flags = flags;
  seq = seq;
  ack = r.recv_next;
  sack_blocks = [];
  payload = payload;
}

-- A packet that acknowledges, with or without the SACK flag and its blocks.
pub with_sack-IsValid :
    (r : Receiver) (flags seq : ℕ) (payload : List ℕ) (blocks : List SackBlock)
    → has flags flag_ack ≡ true
    → has (bit_or flags flag_sack) flag_ack ≡ true
    → has (bit_or flags flag_sack) flag_sack ≡ true
    → FitsWire r
    → IsU32 seq
    → length blocks ≤ max_sack_blocks
    → All BlockFits blocks
    → IsValid (with_sack (acking r flags seq payload) blocks)
unfolding with_sack
with_sack-IsValid r flags seq payload [] a a' k f h few fit = record {
  stream_id_fits = f.stream_id_fits;
  seq_fits = h;
  ack_fits = f.recv_next_fits;
  few_blocks = few;
  blocks_fit = fit;
  no_ack = λ e. absurd (differ (sym a ∙ e));
  no_sack = λ _. refl;
}
  where
    differ : true ≡ false → ⊥
    differ q = cc
with_sack-IsValid r flags seq payload (b ∷ bs) a a' k f h few fit = record {
  stream_id_fits = f.stream_id_fits;
  seq_fits = h;
  ack_fits = f.recv_next_fits;
  few_blocks = few;
  blocks_fit = fit;
  no_ack = λ e. absurd (differ (sym a' ∙ e));
  no_sack = λ e. absurd (differ (sym k ∙ e));
}
  where
    differ : true ≡ false → ⊥
    differ q = cc

module _ (fl : Float64) where
  pub data_packet-IsValid :
      (s : ReliableStream fl) (seq : ℕ) (payload : List ℕ)
      → FitsWire s.receiver
      → IsU32 seq
      → IsValid (data_packet fl s seq payload)
  unfolding data_packet
  data_packet-IsValid s seq payload f h = elim (Bool-cases s.receiver.pending_ack) [
    | inl due ↦
        let (few, fit) = build_sack_blocks-Fits s.receiver.out_of_order f.keys_fit in
        rw due (
          with_sack-IsValid s.receiver (bit_or flag_data flag_ack) seq payload
            (build_sack_blocks s.receiver.out_of_order) refl refl refl f h few fit)
    | inr idle ↦ rw idle (record {
      stream_id_fits = f.stream_id_fits;
      seq_fits = h;
      ack_fits = omega arith;
      few_blocks = omega arith;
      blocks_fit = tt;
      no_ack = λ _. refl;
      no_sack = λ _. refl;
    })
  ]

  -- The packet that `Send` hands to the carrier is read back whole by `UnmarshalReliable`, with the
  -- acknowledgement and the SACK blocks that it carries along.
  pub data_packet_read_back :
      (s : ReliableStream fl) (seq : ℕ) (payload : List ℕ)
      → FitsWire s.receiver
      → IsU32 seq
      → (marshal (data_packet fl s seq payload) >>= unmarshal_reliable)
        ≡ ok (data_packet fl s seq payload)
  data_packet_read_back s seq payload f h =
      unmarshal_reliable-marshal (data_packet fl s seq payload)
        (data_packet-IsValid s seq payload f h)

abbrev pub In : Round → List Round → Type 0
In r [] = ⊥
In r (x ∷ xs) = (r ≡ x) ⊎ In r xs

-- One round: it answers by what it reads, or passes on the answer of the later rounds.
abbrev round : Bool → Bool → Wake → Option Bool → Option Bool
round closed room wake rest =
    if closed
    then some false
    else (if room then some true else (elim wake [ stream_closes ↦ some false | _ ↦ rest ]))

round-true :
    (closed room : Bool) (wake : Wake) (rest : Option Bool)
    → round closed room wake rest ≡ some true
    → ((closed ≡ false) × (room ≡ true)) ⊎ (rest ≡ some true)
round-true true room wake rest e = absurd (differ e)
  where
    differ : some false ≡ some true → ⊥
    differ q = cc
round-true false true wake rest e = inl (refl, refl)
round-true false false signalled rest e = inr e
round-true false false stream_closes rest e = ground arith
round-true false false timed_out rest e = inr e

round-false :
    (closed room : Bool) (wake : Wake) (rest : Option Bool)
    → round closed room wake rest ≡ some false
    → ((closed ≡ true) ⊎ (wake ≡ stream_closes)) ⊎ (rest ≡ some false)
round-false true room wake rest e = inl (inl refl)
round-false false true wake rest e = ground arith
round-false false false signalled rest e = inr e
round-false false false stream_closes rest e = inl (inr refl)
round-false false false timed_out rest e = inr e

-- `waitForWindow` lets a packet through only on reading that the stream is open and that fewer
-- packets than the window are in flight before it. It gives up only on a closed stream.
pub wait_for_window_sound :
    (seq : ℕ) (rounds : List Round)
    → (wait_for_window seq rounds ≡ some true
        → (r : Round) × In r rounds × (r.closed ≡ false) × (has_room seq r.send_base r.cwnd ≡ true))
      × (wait_for_window seq rounds ≡ some false
          → (r : Round) × In r rounds × ((r.closed ≡ true) ⊎ (r.wake ≡ stream_closes)))
unfolding wait_for_window
wait_for_window_sound seq [] = ((λ e. absurd (no_answer e)), λ e. absurd (no_answer e))
  where
    no_answer : {b : Bool} → none ≡ some b → ⊥
    no_answer e = cc
wait_for_window_sound seq (r ∷ rs) = (
  (λ e. elim (round-true r.closed (has_room seq r.send_base r.cwnd) r.wake _ e) [
    | inl (open_yet, room) ↦ (r, inl refl, open_yet, room)
    | inr later ↦ let (x, m, a, b) = (wait_for_window_sound seq rs).0 later in (x, inr m, a, b)
  ]),
  λ e. elim (round-false r.closed (has_room seq r.send_base r.cwnd) r.wake _ e) [
    | inl gone ↦ (r, inl refl, gone)
    | inr later ↦ let (x, m, a) = (wait_for_window_sound seq rs).1 later in (x, inr m, a)
  ],
)

round-answers :
    (closed room : Bool) (wake : Wake) (rest : Option Bool)
    → ((closed ≡ true) ⊎ (room ≡ true)) ⊎ ¬ (rest ≡ none)
    → ¬ (round closed room wake rest ≡ none)
round-answers true room wake rest h e = cc
round-answers false true wake rest h e = cc
round-answers false false signalled rest h e = ground arith
round-answers false false stream_closes rest h e = cc
round-answers false false timed_out rest h e = ground arith

-- `waitForWindow` comes to an answer as soon as one of its rounds reads that the stream is closed or
-- that the window has room, however the rounds before it were woken.
pub wait_for_window_answers :
    (seq : ℕ) (rounds : List Round) (r : Round)
    → In r rounds
    → (r.closed ≡ true) ⊎ (has_room seq r.send_base r.cwnd ≡ true)
    → ¬ (wait_for_window seq rounds ≡ none)
unfolding wait_for_window
wait_for_window_answers seq [] r m h = absurd m
wait_for_window_answers seq (x ∷ xs) r (inl same) h =
    round-answers x.closed (has_room seq x.send_base x.cwnd) x.wake _ (
      inl (
        subst (λ (y : Round). (y.closed ≡ true) ⊎ (has_room seq y.send_base y.cwnd ≡ true)) same h))
wait_for_window_answers seq (x ∷ xs) r (inr later) h =
    round-answers x.closed (has_room seq x.send_base x.cwnd) x.wake _
      (inr (wait_for_window_answers seq xs r later h))

-- A round that goes on to the next one: the stream is open, the window has no room, and the wait is
-- ended by the signal or the timer.
abbrev pub Waits : ℕ → Round → Type 0
Waits seq r =
    (r.closed ≡ false)
    × (has_room seq r.send_base r.cwnd ≡ false)
    × ((r.wake ≡ signalled) ⊎ (r.wake ≡ timed_out))

-- A round that ends the loop.
abbrev pub Decides : ℕ → Round → Type 0
Decides seq r =
    ((r.closed ≡ true) ⊎ (has_room seq r.send_base r.cwnd ≡ true)) ⊎ (r.wake ≡ stream_closes)
