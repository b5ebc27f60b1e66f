-- ===== src/Tunnel/Sessions.antt =====
-- The streams of a client: where a packet goes.
use shadow_gre.Prelude.{
  ℕ, ◌≡◌, refl, sym, ap, ◌∙◌, Bool, true, false, Option, none, some, List, [], ◌∷◌, ok, ne→==_false,
  ==_self, lookup, lookup-insert, if_with, option_with,
}
use shadow_gre.Reliable.Packet.{ReliablePacket, unmarshal_reliable}
use shadow_gre.Reliable.Rtt.{Float64}
use shadow_gre.Reliable.Manager.{receive_packet, delivered_by}
use shadow_gre.Tunnel.Client.{StreamConn, queue_data, server_closes_conn}
use shadow_gre.Tunnel.Clients.{
  Client, at_stream, client_handles_data, client_handles_close, client_handles_all,
  client_takes_packet, client_parses_packet, client_handles_packet,
}

-- A stream that takes these payloads, one after another.
abbrev pub queues : StreamConn → List (List ℕ) → StreamConn
queues sc [] = sc
queues sc (payload ∷ rest) = queues (queue_data sc payload) rest

abbrev pub closes_if : Bool → StreamConn → StreamConn
closes_if true sc = server_closes_conn sc
closes_if false sc = sc

abbrev pub option_map {ℓ κ} : {A : Type ℓ} {B : Type κ} → (A → B) → Option A → Option B
option_map f none = none
option_map f (some a) = some (f a)

module _ (fl : Float64) where
  at_stream-other :
      (c : Client fl) (id j : ℕ) (f : StreamConn → StreamConn)
      → ¬ (j ≡ id)
      → lookup j (at_stream fl c id f).streams ≡ lookup j c.streams
  unfolding at_stream
  at_stream-other c id j f ne =
      option_with (λ (t : Client fl). lookup j t.streams ≡ lookup j c.streams) (lookup id c.streams)
        (λ _. refl)
        (λ sc _. lookup-insert j id (f sc) c.streams ∙ rw (ne→==_false id j (λ q. ne (sym q))))

  at_stream-own :
      (c : Client fl) (id : ℕ) (f : StreamConn → StreamConn)
      → lookup id (at_stream fl c id f).streams ≡ option_map f (lookup id c.streams)
  unfolding at_stream
  at_stream-own c id f =
      option_with (λ (t : Client fl). lookup id t.streams ≡ option_map f (lookup id c.streams))
        (lookup id c.streams) (λ e. e ∙ ap (option_map f) (sym e))
        (λ sc e. lookup-insert id id (f sc) c.streams ∙ rw (==_self id) (ap (option_map f) (sym e)))

  -- What an assignment to a stream leaves alone.
  abbrev Rest : Client fl → Client fl → Type 0
  Rest c t = (t.reliable ≡ c.reliable) × (t.next_stream_id ≡ c.next_stream_id)

  at_stream-Rest :
      (c : Client fl) (id : ℕ) (f : StreamConn → StreamConn) → Rest c (at_stream fl c id f)
  unfolding at_stream
  at_stream-Rest c id f =
      option_with (Rest c) (lookup id c.streams) (λ _. (refl, refl)) (λ _ _. (refl, refl))

  handle_all-other :
      (c : Client fl) (id j : ℕ) (payloads : List (List ℕ))
      → ¬ (j ≡ id)
      → lookup j (client_handles_all fl c id payloads).streams ≡ lookup j c.streams
  unfolding client_handles_all client_handles_data
  handle_all-other c id j [] ne = refl
  handle_all-other c id j (payload ∷ rest) ne =
      handle_all-other (client_handles_data fl c id payload) id j rest ne
      ∙ at_stream-other c id j (λ sc. queue_data sc payload) ne

  map_twice :
      (f g : StreamConn → StreamConn) (o : Option StreamConn)
      → option_map g (option_map f o) ≡ option_map (λ sc. g (f sc)) o
  map_twice f g none = refl
  map_twice f g (some sc) = refl

  map_same : (o : Option StreamConn) → o ≡ option_map (λ sc. sc) o
  map_same none = refl
  map_same (some sc) = refl

  handle_all-own :
      (c : Client fl) (id : ℕ) (payloads : List (List ℕ))
      → lookup id (client_handles_all fl c id payloads).streams
        ≡ option_map (λ sc. queues sc payloads) (lookup id c.streams)
  unfolding client_handles_all client_handles_data
  handle_all-own c id [] = map_same (lookup id c.streams)
  handle_all-own c id (payload ∷ rest) =
      handle_all-own (client_handles_data fl c id payload) id rest
      ∙ ap (option_map (λ sc. queues sc rest)) (at_stream-own c id (λ sc. queue_data sc payload))
      ∙ map_twice (λ sc. queue_data sc payload) (λ sc. queues sc rest) (lookup id c.streams)

  handle_all-Rest :
      (c : Client fl) (id : ℕ) (payloads : List (List ℕ))
      → Rest c (client_handles_all fl c id payloads)
  unfolding client_handles_all client_handles_data
  handle_all-Rest c id [] = (refl, refl)
  handle_all-Rest c id (payload ∷ rest) =
      let (m, n) = handle_all-Rest (client_handles_data fl c id payload) id rest in
      let (m', n') = at_stream-Rest c id (λ sc. queue_data sc payload) in (m ∙ m', n ∙ n')

  -- What a packet does to the client's streams.
  abbrev pub Taken : Client fl → ReliablePacket → ℕ → Client fl → Type 0
  Taken c pkt now c' =
      let id = pkt.stream_id in
      let (payloads, is_close) = delivered_by fl c.reliable pkt now in
      ((j : ℕ) → ¬ (j ≡ id) → lookup j c'.streams ≡ lookup j c.streams)
      × (lookup id c'.streams
          ≡ option_map (λ sc. closes_if is_close (queues sc payloads)) (lookup id c.streams))
      × (c'.reliable ≡ receive_packet fl c.reliable pkt now)
      × (c'.next_stream_id ≡ c.next_stream_id)

  client_takes_packet-Taken :
      (c : Client fl) (pkt : ReliablePacket) (now : ℕ)
      → Taken c pkt now (client_takes_packet fl c pkt now)
  unfolding client_takes_packet client_handles_close
  client_takes_packet-Taken c pkt now =
      if_with (Taken c pkt now) (delivered_by fl c.reliable pkt now).1
        (λ e. (
          (λ j ne.
              at_stream-other c₂ id j server_closes_conn ne ∙ handle_all-other c₁ id j payloads ne),
          at_stream-own c₂ id server_closes_conn
              ∙ ap (option_map server_closes_conn) (handle_all-own c₁ id payloads)
              ∙ map_twice (λ sc. queues sc payloads) server_closes_conn (lookup id c.streams)
              ∙ ap (λ b. option_map (λ sc. closes_if b (queues sc payloads)) (lookup id c.streams))
                  (sym e),
          (at_stream-Rest c₂ id server_closes_conn).0 ∙ (handle_all-Rest c₁ id payloads).0,
          (at_stream-Rest c₂ id server_closes_conn).1 ∙ (handle_all-Rest c₁ id payloads).1,
        ))
        (λ e. (
          (λ j ne. handle_all-other c₁ id j payloads ne),
          handle_all-own c₁ id payloads
              ∙ ap (λ b. option_map (λ sc. closes_if b (queues sc payloads)) (lookup id c.streams))
                  (sym e),
          (handle_all-Rest c₁ id payloads).0,
          (handle_all-Rest c₁ id payloads).1,
        ))
    where
      id : ℕ
      id = pkt.stream_id

      payloads : List (List ℕ)
      payloads = (delivered_by fl c.reliable pkt now).0

      c₁ : Client fl
      c₁ = record c { reliable = receive_packet fl c.reliable pkt now }

      c₂ : Client fl
      c₂ = client_handles_all fl c₁ id payloads

  -- A packet that reaches the client changes no stream but its own, and makes none. If its stream is
  -- there, it takes exactly the payloads that the reliable layer now delivers, in their order, and is
  -- then told of a close.
  pub client_packet_routed :
      (c : Client fl) (now : ℕ) (bs : List ℕ) (pkt : ReliablePacket)
      → unmarshal_reliable bs ≡ ok pkt
      → (c' : Client fl) × (client_handles_packet fl c bs now ≡ ok c') × Taken c pkt now c'
  unfolding client_handles_packet client_parses_packet
  client_packet_routed c now bs pkt parsed = (
    client_takes_packet fl c pkt now,
    ap (λ r. client_parses_packet fl c r now) parsed,
    client_takes_packet-Taken c pkt now,
  )
