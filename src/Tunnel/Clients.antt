-- ===== src/Tunnel/Clients.antt =====
-- `Client` of pkg/shadowgre/client.go: its streams, its reliable manager and its transport.
use shadow_gre.Prelude.{
  ℕ, ◌+◌, ◌%◌, ◌^◌, Bool, true, false, Option, none, some, Error, List, [], ◌∷◌, map, length,
  if◌then◌else◌, Outcome, ok, err, panic, lookup, erase, insert,
}
use shadow_gre.Reliable.Seq.{add32}
use shadow_gre.Reliable.Packet.{ReliablePacket, unmarshal_reliable}
use shadow_gre.Reliable.Rtt.{Float64}
use shadow_gre.Reliable.Stream.{ReliableStream, Round}
use shadow_gre.Reliable.Manager.{
  Manager, new_reliable_manager, receive_packet, delivered_by, remove_stream, send_on,
  send_close_on, close_all,
}
use shadow_gre.Transport.Raw.{RawTransport, new_raw_transport, set_receive_handler, close_transport}
use shadow_gre.Tunnel.Client.{
  StreamConn, new_stream_conn, signal_close, close_conn, queue_data, server_closes_conn,
}

-- `transport` is none before `Start`, `listening` says that the listener is open.
pub record Client (fl : Float64) : Type 0 where
  pub server_ip : ℕ
  pub key : ℕ
  pub transport : Option RawTransport
  pub listening : Bool
  pub closed : Bool
  pub next_stream_id : ℕ
  pub streams : List (ℕ × StreamConn)
  pub reliable : Manager fl

module _ (fl : Float64) where
  unfoldable pub new_client_of : ℕ → ℕ → Client fl
  new_client_of server_ip key = record {
    server_ip = server_ip;
    key = key;
    transport = none;
    listening = false;
    closed = false;
    next_stream_id = 1;
    streams = [];
    reliable = new_reliable_manager fl;
  }

  -- `Start`, given the errors of `NewRawTransport` and of `net.Listen`.
  unfoldable pub start_client : Client fl → Option Error → Option Error → Client fl × Option Error
  start_client c (some e) listen_error = (c, some e)
  start_client c none listen_error =
      let t = set_receive_handler (new_raw_transport (some c.server_ip) c.key) in
      let c' = record c { reliable = new_reliable_manager fl } in
      elim listen_error [
        | some e ↦ (record c' { transport = some (close_transport t) }, some e)
        | none ↦ (record c' { transport = some t; listening = true }, none)
      ]

  -- `handleConnection` up to its loop: the identifier, and the stream in the map.
  unfoldable pub accept_connection :
      Client fl → (List (List ℕ × Option Error) → List ℕ → ℕ × Option Error) → ℕ × Client fl
  accept_connection c conn =
      let id = add32 c.next_stream_id 1 in
      (id, record c { next_stream_id = id; streams = insert id (new_stream_conn conn) c.streams })

  -- An assignment to a stream, which the map shares.
  unfoldable pub at_stream : Client fl → ℕ → (StreamConn → StreamConn) → Client fl
  at_stream c id f = elim (lookup id c.streams) [
    | none ↦ c
    | some sc ↦ record c { streams = insert id (f sc) c.streams }
  ]

  -- The loop of `handleConnection` has read `payload` from the TCP connection.
  unfoldable pub read_connection :
      Client fl
      → ℕ
      → List ℕ
      → List Round
      → (ReliableStream fl → ReliableStream fl)
      → ℕ
      → (ReliablePacket → Outcome (Unit {0}))
      → Client fl × Option (Outcome (Unit {0}))
  read_connection c id payload rounds meanwhile now result =
      let c' =
        at_stream c id (λ sc. record sc { bytes_out = (sc.bytes_out + length payload) % 2 ^ 64 }) in
      let (m, answer) = send_on fl c'.reliable id payload rounds meanwhile now result in
      (record c' { reliable = m }, answer)

  -- Behind the loop: the half-close, unless the server has closed.
  unfoldable pub half_close : Client fl → ℕ → ℕ → (ReliablePacket → Outcome (Unit {0})) → Client fl
  half_close c id now result = elim (lookup id c.streams) [
    | none ↦ c
    | some sc ↦
        if sc.server_closed
        then c
        else record c { reliable = (send_close_on fl c.reliable id now result).0 }
  ]

  -- The wait for the writer times out.
  unfoldable pub writer_times_out : Client fl → ℕ → Client fl
  writer_times_out c id = at_stream c id signal_close

  -- The writer has finished.
  unfoldable pub close_connection_of : Client fl → ℕ → Client fl
  close_connection_of c id = at_stream c id (λ sc. record sc { conn_closed = true })

  -- Five seconds later.
  unfoldable pub forget_stream : Client fl → ℕ → Client fl
  forget_stream c id = record c {
    streams = erase id c.streams;
    reliable = remove_stream fl c.reliable id;
  }

  unfoldable pub client_handles_data : Client fl → ℕ → List ℕ → Client fl
  client_handles_data c id payload = at_stream c id (λ sc. queue_data sc payload)

  unfoldable pub client_handles_close : Client fl → ℕ → Client fl
  client_handles_close c id = at_stream c id server_closes_conn

  -- The calls of `handleReliableData` that a packet leads to.
  unfoldable pub client_handles_all : Client fl → ℕ → List (List ℕ) → Client fl
  client_handles_all c id [] = c
  client_handles_all c id (payload ∷ rest) =
      client_handles_all (client_handles_data c id payload) id rest

  -- `reliable.Receive` with the client's two handlers.
  unfoldable pub client_takes_packet : Client fl → ReliablePacket → ℕ → Client fl
  client_takes_packet c pkt now =
      let (payloads, is_close) = delivered_by fl c.reliable pkt now in
      let c' =
        client_handles_all (record c { reliable = receive_packet fl c.reliable pkt now })
          pkt.stream_id payloads in
      if is_close then client_handles_close c' pkt.stream_id else c'

  unfoldable pub client_parses_packet : Client fl → Outcome ReliablePacket → ℕ → Outcome (Client fl)
  client_parses_packet c (ok pkt) now = ok (client_takes_packet c pkt now)
  client_parses_packet c (err e) now = ok c
  client_parses_packet c panic now = panic

  unfoldable pub client_handles_packet : Client fl → List ℕ → ℕ → Outcome (Client fl)
  client_handles_packet c bs now = client_parses_packet c (unmarshal_reliable bs) now

  unfoldable pub close_raw_transport : Option RawTransport → Option RawTransport
  close_raw_transport none = none
  close_raw_transport (some t) = some (close_transport t)

  -- `Close`, up to its wait for the goroutines.
  unfoldable pub close_whole_client : Client fl → Client fl
  close_whole_client c = if c.closed then c else record c {
    closed = true;
    listening = false;
    reliable = close_all fl c.reliable;
    streams = map (λ e. (e.0, close_conn e.1)) c.streams;
    transport = close_raw_transport c.transport;
  }
