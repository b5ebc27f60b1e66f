-- ===== src/Tunnel/Routing.antt =====
-- A packet that reaches the server: which client and which stream it concerns.
use shadow_gre.Prelude.{
  ℕ, ◌≡◌, refl, sym, ap, ◌∙◌, Bool, true, false, Option, none, some, Error, List, [], ◌∷◌, ◌++◌, ok,
  ne→==_false, ==_self, lookup, insert, lookup-insert, if_with, option_with,
}
use shadow_gre.Reliable.Packet.{ReliablePacket, unmarshal_reliable}
use shadow_gre.Reliable.Rtt.{Float64}
use shadow_gre.Reliable.Stream.{receive}
use shadow_gre.Reliable.Stream.Growth.{receive_grows}
use shadow_gre.Reliable.Manager.{Manager, get_or_create_stream, receive_packet, delivered_by}
use shadow_gre.Tunnel.Stream.{ServerStream, take_data, take_close}
use shadow_gre.Tunnel.Server.{
  ClientState, Server, new_client, get_or_create_client, get_or_create, handle_reliable_data,
  handle_reliable_close, handle_all, client_receives, client_parses, store_client,
  handle_gre_packet,
}

-- A stream that takes these payloads, one after another.
abbrev pub takes : ServerStream → List (List ℕ) → ServerStream
takes ss [] = ss
takes ss (payload ∷ rest) = takes (take_data ss payload) rest

-- What stands in the map for a stream that gets these payloads: nothing is made for no payload.
abbrev pub fed : Option ServerStream → ServerStream → List (List ℕ) → Option ServerStream
fed found ss [] = found
fed found ss (payload ∷ rest) = some (takes ss (payload ∷ rest))

abbrev pub told : Bool → Option ServerStream → Option ServerStream
told false found = found
told true none = none
told true (some ss) = some (take_close ss)

module _ (fl : Float64) (backend : ℕ → List (List ℕ × Option Error) → List ℕ → Option Error) where
  handle_all-other :
      (cs : ClientState fl) (id j : ℕ) (payloads : List (List ℕ))
      → ¬ (j ≡ id)
      → lookup j (handle_all fl backend cs id payloads).streams ≡ lookup j cs.streams
  unfolding handle_all handle_reliable_data
  handle_all-other cs id j [] ne = refl
  handle_all-other cs id j (payload ∷ rest) ne =
      handle_all-other (handle_reliable_data fl backend cs id payload) id j rest ne
      ∙ lookup-insert j id (take_data (get_or_create fl backend cs id) payload) cs.streams
      ∙ rw (ne→==_false id j (λ q. ne (sym q)))

  get_or_create-found :
      (cs : ClientState fl) (id : ℕ) {ss : ServerStream}
      → lookup id cs.streams ≡ some ss
      → get_or_create fl backend cs id ≡ ss
  unfolding get_or_create
  get_or_create-found cs id {ss} e =
      option_with (λ t. t ≡ ss) (lookup id cs.streams) (λ absent. cc) (λ found same. cc)

  handle_reliable_data-own :
      (cs : ClientState fl) (id : ℕ) (payload : List ℕ)
      → lookup id (handle_reliable_data fl backend cs id payload).streams
        ≡ some (take_data (get_or_create fl backend cs id) payload)
  unfolding handle_reliable_data
  handle_reliable_data-own cs id payload =
      lookup-insert id id (take_data (get_or_create fl backend cs id) payload) cs.streams
      ∙ rw (==_self id)

  handle_all-found :
      (cs : ClientState fl) (id : ℕ) (ss : ServerStream) (payloads : List (List ℕ))
      → lookup id cs.streams ≡ some ss
      → lookup id (handle_all fl backend cs id payloads).streams ≡ some (takes ss payloads)
  unfolding handle_all
  handle_all-found cs id ss [] e = e
  handle_all-found cs id ss (payload ∷ rest) e =
      handle_all-found (handle_reliable_data fl backend cs id payload) id (take_data ss payload)
        rest
        (handle_reliable_data-own cs id payload
          ∙ ap (λ t. some (take_data t payload)) (get_or_create-found cs id e))

  handle_all-own :
      (cs : ClientState fl) (id : ℕ) (payloads : List (List ℕ))
      → lookup id (handle_all fl backend cs id payloads).streams
        ≡ fed (lookup id cs.streams) (get_or_create fl backend cs id) payloads
  unfolding handle_all
  handle_all-own cs id [] = refl
  handle_all-own cs id (payload ∷ rest) =
      handle_all-found (handle_reliable_data fl backend cs id payload) id
        (take_data (get_or_create fl backend cs id) payload) rest
        (handle_reliable_data-own cs id payload)

  reliable-handle_all :
      (cs : ClientState fl) (id : ℕ) (payloads : List (List ℕ))
      → (handle_all fl backend cs id payloads).reliable ≡ cs.reliable
  unfolding handle_all handle_reliable_data
  reliable-handle_all cs id [] = refl
  reliable-handle_all cs id (payload ∷ rest) =
      reliable-handle_all (handle_reliable_data fl backend cs id payload) id rest

  -- A close.
  abbrev Closes : ClientState fl → ℕ → ClientState fl → Type 0
  Closes cs id cs' =
      ((j : ℕ) → ¬ (j ≡ id) → lookup j cs'.streams ≡ lookup j cs.streams)
      × (lookup id cs'.streams ≡ told true (lookup id cs.streams))
      × (cs'.reliable ≡ cs.reliable)

  handle_reliable_close-Closes :
      (cs : ClientState fl) (id : ℕ) → Closes cs id (handle_reliable_close fl backend cs id)
  unfolding handle_reliable_close
  handle_reliable_close-Closes cs id =
      option_with (Closes cs id) (lookup id cs.streams)
        (λ e. ((λ j ne. refl), e ∙ ap (told true) (sym e), refl))
        (λ ss e. (
          (λ j ne.
              lookup-insert j id (take_close ss) cs.streams
              ∙ rw (ne→==_false id j (λ q. ne (sym q)))),
          lookup-insert id id (take_close ss) cs.streams ∙ rw (==_self id) (ap (told true) (sym e)),
          refl,
        ))

  -- What a packet does to the state of its client.
  abbrev pub Routed : ClientState fl → ReliablePacket → ℕ → ClientState fl → Type 0
  Routed cs pkt now cs' =
      let id = pkt.stream_id in
      let (payloads, is_close) = delivered_by fl cs.reliable pkt now in
      ((j : ℕ) → ¬ (j ≡ id) → lookup j cs'.streams ≡ lookup j cs.streams)
      × (lookup id cs'.streams
          ≡ told is_close (fed (lookup id cs.streams) (get_or_create fl backend cs id) payloads))
      × (cs'.reliable ≡ receive_packet fl cs.reliable pkt now)

  pub client_receives-Routed :
      (cs : ClientState fl) (pkt : ReliablePacket) (now : ℕ)
      → Routed cs pkt now (client_receives fl backend cs pkt now)
  unfolding client_receives get_or_create
  client_receives-Routed cs pkt now =
      if_with (Routed cs pkt now) (delivered_by fl cs.reliable pkt now).1
        (λ e.
          let (others, own, same) = handle_reliable_close-Closes cs₂ id in
          (
            (λ j ne. others j ne ∙ handle_all-other cs₁ id j payloads ne),
            own
                ∙ ap (told true) (handle_all-own cs₁ id payloads)
                ∙ ap
                    (λ b.
                      told b (fed (lookup id cs.streams) (get_or_create fl backend cs id) payloads))
                    (sym e),
            same ∙ reliable-handle_all cs₁ id payloads,
          ))
        (λ e. (
          (λ j ne. handle_all-other cs₁ id j payloads ne),
          handle_all-own cs₁ id payloads
              ∙ ap
                  (λ b.
                    told b (fed (lookup id cs.streams) (get_or_create fl backend cs id) payloads))
                  (sym e),
          reliable-handle_all cs₁ id payloads,
        ))
    where
      id : ℕ
      id = pkt.stream_id

      payloads : List (List ℕ)
      payloads = (delivered_by fl cs.reliable pkt now).0

      cs₁ : ClientState fl
      cs₁ = record cs { reliable = receive_packet fl cs.reliable pkt now }

      cs₂ : ClientState fl
      cs₂ = handle_all fl backend cs₁ id payloads

  get_or_create_client-other :
      (s : Server fl) (ip j : ℕ)
      → ¬ (j ≡ ip)
      → lookup j (get_or_create_client fl backend s ip).1.clients ≡ lookup j s.clients
  unfolding get_or_create_client
  get_or_create_client-other s ip j ne =
      option_with (λ (r : ClientState fl × Server fl). lookup j r.1.clients ≡ lookup j s.clients)
        (lookup ip s.clients)
        (λ _.
          lookup-insert j ip (new_client fl backend) s.clients
          ∙ rw (ne→==_false ip j (λ q. ne (sym q))))
        (λ _ _. refl)

  -- What the packet's stream delivers now follows what it had delivered before.
  pub delivered_by_grows :
      (m : Manager fl) (pkt : ReliablePacket) (now : ℕ)
      → let s = (get_or_create_stream fl m pkt.stream_id).0 in
        (receive fl s pkt now).0.receiver.delivered
        ≡ s.receiver.delivered ++ (delivered_by fl m pkt now).0
  unfolding delivered_by
  delivered_by_grows m pkt now =
      receive_grows fl (get_or_create_stream fl m pkt.stream_id).0 pkt now

  -- A packet that reaches the server changes the state of no client but its sender, of whom a new one
  -- gets a state of its own, and no stream but its own. That stream, which is made if data comes for a
  -- new one, takes exactly the payloads that the reliable layer now delivers behind those of before, in
  -- their order, and is then told of a close; and the client's reliable manager has got the packet.
  pub packet-Routed :
      (s : Server fl) (ip now : ℕ) (bs : List ℕ) (pkt : ReliablePacket)
      → unmarshal_reliable bs ≡ ok pkt
      → let cs = (get_or_create_client fl backend s ip).0 in
        let stream = (get_or_create_stream fl cs.reliable pkt.stream_id).0 in
        (s' : Server fl) × (cs' : ClientState fl) × (handle_gre_packet fl backend s ip bs now
          ≡ ok s')
        × ((j : ℕ) → ¬ (j ≡ ip) → lookup j s'.clients ≡ lookup j s.clients)
        × (lookup ip s'.clients ≡ some cs')
        × Routed cs pkt now cs'
        × ((receive fl stream pkt now).0.receiver.delivered
            ≡ stream.receiver.delivered ++ (delivered_by fl cs.reliable pkt now).0)
  unfolding handle_gre_packet client_parses store_client
  packet-Routed s ip now bs pkt parsed = (
    record s' { clients = insert ip cs' s'.clients },
    cs',
    ap (λ r. store_client fl backend s' ip (client_parses fl backend cs r now)) parsed,
    (λ j ne.
        lookup-insert j ip cs' s'.clients
        ∙ rw (ne→==_false ip j (λ q. ne (sym q))) (get_or_create_client-other s ip j ne)),
    lookup-insert ip ip cs' s'.clients ∙ rw (==_self ip),
    client_receives-Routed cs pkt now,
    delivered_by_grows cs.reliable pkt now,
  )
    where
      cs : ClientState fl
      cs = (get_or_create_client fl backend s ip).0

      s' : Server fl
      s' = (get_or_create_client fl backend s ip).1

      cs' : ClientState fl
      cs' = client_receives fl backend cs pkt now
