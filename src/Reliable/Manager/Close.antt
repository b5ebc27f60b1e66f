-- ===== src/Reliable/Manager/Close.antt =====
-- The streams of a `ReliableManager` (pkg/tunnel/reliable.go) when one of them is closed.
use shadow_gre.Prelude.{
  ℕ, ◌^◌, ◌<◌, ◌≡◌, refl, sym, ap, ◌∙◌, inl, inr, true, false, ◌&&◌, none, some, List, [], ◌∷◌,
  ◌++◌, arith, length, ltb, ==_self, ne→==_false, Bool-cases, Option-cases,
}
use shadow_gre.Prelude.{lookup, insert, erase, lt→ltb, lookup-erase, lookup-insert}
use mathlib.Core.Path.{subst}
use shadow_gre.Wire.{has}
use shadow_gre.Reliable.Packet.{ReliablePacket, flag_data, flag_ack, flag_close}
use shadow_gre.Reliable.Rtt.{Float64}
use shadow_gre.Reliable.Seq.{seq_greater}
use shadow_gre.Reliable.Receiver.{
  Receiver, new_receiver, process_data, buffer, send_ack_with_sack, send_ack,
}
use shadow_gre.Reliable.Stream.{ReliableStream, new_reliable_stream, receive, close}
use shadow_gre.Reliable.Manager.{
  Manager, get_or_create_stream, remove_stream, closed_now, receive_packet,
}

-- A new receiver holds back all but the first packet.
first_packet_awaited :
    (id seq : ℕ) (payload : List ℕ)
    → 0 < seq
    → seq < 2 ^ 31
    → let r = process_data (new_receiver id) seq payload in
      (r.delivered ≡ []) × (r.recv_next ≡ 0) × (r.out_of_order ≡ (seq, payload) ∷ [])
unfolding process_data new_receiver send_ack_with_sack send_ack buffer seq_greater lookup insert
    erase
first_packet_awaited id seq payload pos small = (ground arith, ground arith, ground arith)

module _ (fl : Float64) where
  get_or_create_stream-other :
      (m : Manager fl) (id j : ℕ)
      → ¬ (j ≡ id)
      → lookup j (get_or_create_stream fl m id).1.streams ≡ lookup j m.streams
  unfolding get_or_create_stream
  get_or_create_stream-other m id j ne = elim (Option-cases (lookup id m.streams)) [
    | inl e ↦ rw (
      get_or_create_stream,
      e,
      lookup-insert j id (new_reliable_stream fl id) m.streams,
      ne→==_false id j (λ q. ne (sym q)),
    )
    | inr (s, e) ↦ rw (get_or_create_stream, e)
  ]

  closes-get_or_create_stream :
      (m : Manager fl) (id : ℕ) → (get_or_create_stream fl m id).1.closes ≡ m.closes
  unfolding get_or_create_stream
  closes-get_or_create_stream m id = elim (Option-cases (lookup id m.streams)) [
    | inl e ↦ rw (get_or_create_stream, e)
    | inr (s, e) ↦ rw (get_or_create_stream, e)
  ]

  removed-get_or_create_stream :
      (m : Manager fl) (id : ℕ) → (get_or_create_stream fl m id).1.removed ≡ m.removed
  unfolding get_or_create_stream
  removed-get_or_create_stream m id = elim (Option-cases (lookup id m.streams)) [
    | inl e ↦ rw (get_or_create_stream, e)
    | inr (s, e) ↦ rw (get_or_create_stream, e)
  ]

  closed-close : (s : ReliableStream fl) → (close fl s).closed ≡ true
  unfolding close
  closed-close s = elim (Bool-cases s.closed) [ inl e ↦ rw e refl | inr e ↦ rw e refl ]

  pub is_close-receive :
      (s : ReliableStream fl) (pkt : ReliablePacket) (now : ℕ)
      → (receive fl s pkt now).1 ≡ has pkt.flags flag_close
  unfolding receive
  is_close-receive s pkt now = elim (Bool-cases (has pkt.flags flag_close)) [
    | inl e ↦ rw e
    | inr e ↦ rw e
  ]

  -- A packet touches no stream but its own. A close removes its stream, closed, and is reported once;
  -- any other packet leaves its stream there, removes none, and nothing is reported.
  pub receive_packet_streams :
      (m : Manager fl) (pkt : ReliablePacket) (now : ℕ)
      → let m' = receive_packet fl m pkt now in
        ((j : ℕ) → ¬ (j ≡ pkt.stream_id) → lookup j m'.streams ≡ lookup j m.streams)
        × (has pkt.flags flag_close ≡ true
            → (lookup pkt.stream_id m'.streams ≡ none)
              × (m'.closes ≡ m.closes ++ (pkt.stream_id ∷ []))
              × ((s : ReliableStream fl) × (m'.removed ≡ m.removed ++ (s ∷ []))
                  × (s.closed ≡ true)))
        × (has pkt.flags flag_close ≡ false
            → ((s : ReliableStream fl) × (lookup pkt.stream_id m'.streams ≡ some s))
              × (m'.closes ≡ m.closes)
              × (m'.removed ≡ m.removed))
  unfolding receive_packet remove_stream closed_now
  receive_packet_streams m pkt now = elim (Bool-cases (has pkt.flags flag_close)) [
    | inl e ↦
        rw (receive_packet, is_close-receive s pkt now, e)
          (
            (λ j ne.
                rw
                  (
                    lookup-erase j id (insert id s' m'.streams),
                    ne→==_false j id ne,
                    lookup-insert j id s' m'.streams,
                    ne→==_false id j (λ q. ne (sym q)),
                  )
                  (get_or_create_stream-other m id j ne)),
            (λ _. (
              rw (lookup-erase id id (insert id s' m'.streams), ==_self id),
              rw (closes-get_or_create_stream m id),
              (
                close fl s',
                rw (
                  lookup-insert id id s' m'.streams,
                  ==_self id,
                  closed_now,
                  removed-get_or_create_stream m id,
                ),
                closed-close s',
              ),
            )),
            λ q. cc,
          )
    | inr e ↦
        rw (receive_packet, is_close-receive s pkt now, e)
          (
            (λ j ne.
                rw (lookup-insert j id s' m'.streams, ne→==_false id j (λ q. ne (sym q)))
                  (get_or_create_stream-other m id j ne)),
            (λ q. cc),
            λ _. (
              (s', rw (lookup-insert id id s' m'.streams, ==_self id)),
              closes-get_or_create_stream m id,
              removed-get_or_create_stream m id,
            ),
          )
  ]
    where
      id : ℕ
      id = pkt.stream_id

      s : ReliableStream fl
      s = (get_or_create_stream fl m id).0

      m' : Manager fl
      m' = (get_or_create_stream fl m id).1

      s' : ReliableStream fl
      s' = (receive fl s pkt now).0

  -- A packet with the data flag alone only concerns the receiving half.
  receive_data :
      (s : ReliableStream fl) (pkt : ReliablePacket) (now : ℕ)
      → pkt.flags ≡ flag_data
      → 0 < length pkt.payload
      → (receive fl s pkt now).0.receiver ≡ process_data s.receiver pkt.seq pkt.payload
  unfolding receive
  receive_data s pkt now is_data full = rw (receive, no_ack, takes, no_close)
    where
      takes : (has pkt.flags flag_data && ltb 0 (length pkt.payload)) ≡ true
      takes = rw (is_data, lt→ltb 0 (length pkt.payload) full)

      no_ack : has pkt.flags flag_ack ≡ false
      no_ack = subst (λ (w : ℕ). has w flag_ack ≡ false) (sym is_data) refl

      no_close : has pkt.flags flag_close ≡ false
      no_close = subst (λ (w : ℕ). has w flag_close ≡ false) (sym is_data) refl

  -- The state in which nothing has been delivered, the first packet is awaited, and `pkt` is held.
  abbrev AwaitsFirst : ReliablePacket → Receiver → Type 0
  AwaitsFirst pkt r =
      (r.delivered ≡ []) × (r.recv_next ≡ 0) × (r.out_of_order ≡ (pkt.seq, pkt.payload) ∷ [])

  new_stream_waits :
      (id : ℕ) (pkt : ReliablePacket) (now : ℕ)
      → pkt.flags ≡ flag_data
      → 0 < pkt.seq
      → pkt.seq < 2 ^ 31
      → 0 < length pkt.payload
      → AwaitsFirst pkt (receive fl (new_reliable_stream fl id) pkt now).0.receiver
  unfolding new_reliable_stream
  new_stream_waits id pkt now is_data pos small full =
      subst (AwaitsFirst pkt) (sym (receive_data (new_reliable_stream fl id) pkt now is_data full))
        (first_packet_awaited id pkt.seq pkt.payload pos small)

  -- A packet that is no close stays with the stream that got it.
  pub receive_packet-own :
      (m : Manager fl) (pkt : ReliablePacket) (now : ℕ)
      → has pkt.flags flag_close ≡ false
      → lookup pkt.stream_id (receive_packet fl m pkt now).streams
        ≡ some (receive fl (get_or_create_stream fl m pkt.stream_id).0 pkt now).0
  unfolding receive_packet
  receive_packet-own m pkt now stays =
      rw
        (
          receive_packet,
          is_close-receive (get_or_create_stream fl m pkt.stream_id).0 pkt now,
          stays,
          lookup-insert pkt.stream_id pkt.stream_id
              (receive fl (get_or_create_stream fl m pkt.stream_id).0 pkt now).0
              (get_or_create_stream fl m pkt.stream_id).1.streams,
          ==_self pkt.stream_id,
        )
        refl

  -- A packet that is no close, on a stream that is not there.
  receive_packet-new :
      (m : Manager fl) (pkt : ReliablePacket) (now : ℕ)
      → lookup pkt.stream_id m.streams ≡ none
      → has pkt.flags flag_close ≡ false
      → lookup pkt.stream_id (receive_packet fl m pkt now).streams
        ≡ some (receive fl (new_reliable_stream fl pkt.stream_id) pkt now).0
  receive_packet-new m pkt now absent stays =
      receive_packet-own m pkt now stays ∙ ap (λ s. some (receive fl s pkt now).0) fresh
    where
      fresh : (get_or_create_stream fl m pkt.stream_id).0 ≡ new_reliable_stream fl pkt.stream_id
      fresh = unfold get_or_create_stream in rw (get_or_create_stream, absent)

  -- A close and what comes behind it. When a close overtakes data on a stream, as packets that the
  -- carrier reorders or loses make it do, the stream is gone with what it had buffered. A packet of the
  -- same stream that then arrives, or arrives again, with the data flag alone, a payload that is not
  -- empty, and a sequence number that is not 0 and below 2^31, is held in the buffer of a new stream
  -- that has delivered nothing and waits for sequence number 0: also the one that the old stream was
  -- waiting for is not delivered.
  pub data_after_close :
      (m : Manager fl) (fin pkt : ReliablePacket) (now later : ℕ)
      → has fin.flags flag_close ≡ true
      → pkt.stream_id ≡ fin.stream_id
      → pkt.flags ≡ flag_data
      → 0 < pkt.seq
      → pkt.seq < 2 ^ 31
      → 0 < length pkt.payload
      → (s : ReliableStream fl) × (lookup fin.stream_id
            (receive_packet fl (receive_packet fl m fin now) pkt later).streams
          ≡ some s)
        × (s.receiver.delivered ≡ [])
        × (s.receiver.recv_next ≡ 0)
        × (s.receiver.out_of_order ≡ (pkt.seq, pkt.payload) ∷ [])
  data_after_close m fin pkt now later is_fin same is_data pos small full =
      let gone = ((receive_packet_streams m fin now).1 is_fin).0 in
      let absent : lookup pkt.stream_id m₁.streams ≡ none =
        subst (λ (j : ℕ). lookup j m₁.streams ≡ none) (sym same) gone in
      let waits = new_stream_waits pkt.stream_id pkt later is_data pos small full in
      (s', found absent, waits.0, waits.1, waits.2)
    where
      m₁ : Manager fl
      m₁ = receive_packet fl m fin now

      s' : ReliableStream fl
      s' = (receive fl (new_reliable_stream fl pkt.stream_id) pkt later).0

      found :
          lookup pkt.stream_id m₁.streams ≡ none
          → lookup fin.stream_id (receive_packet fl m₁ pkt later).streams ≡ some s'
      found absent =
          subst (λ (j : ℕ). lookup j (receive_packet fl m₁ pkt later).streams ≡ some s') same
            (receive_packet-new m₁ pkt later absent
              (subst (λ (w : ℕ). has w flag_close ≡ false) (sym is_data) refl))
