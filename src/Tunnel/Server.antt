-- ===== src/Tunnel/Server.antt =====
-- `Server` of pkg/shadowgre/server.go: its clients, each with a reliable manager and its streams.
use shadow_gre.Prelude.{
  ℕ, Bool, true, false, Option, none, some, Error, List, [], ◌∷◌, map, if◌then◌else◌, Outcome, ok,
  err, panic, lookup, erase, insert,
}
use shadow_gre.Reliable.Packet.{ReliablePacket, unmarshal_reliable}
use shadow_gre.Reliable.Rtt.{Float64}
use shadow_gre.Reliable.Manager.{
  Manager, new_reliable_manager, receive_packet, delivered_by, remove_stream, send_close_on,
  close_all,
}
use shadow_gre.Transport.Server.{
  ServerTransport, new_server_transport, set_server_handler, close_server_transport,
}
use shadow_gre.Tunnel.Stream.{
  ServerStream, create_stream, take_data, take_close, close_stream, dial_failed, clean_up,
}

-- `backend` is what a connection with the backend answers, given the stream's identifier.
pub record ClientState (fl : Float64) : Type 0 where
  pub reliable : Manager fl
  pub streams : List (ℕ × ServerStream)

-- `clients` by address. `transport` is none before `Start`.
pub record Server (fl : Float64) : Type 0 where
  pub key : ℕ
  pub transport : Option ServerTransport
  pub clients : List (ℕ × ClientState fl)
  pub closed : Bool

module _ (fl : Float64) (backend : ℕ → List (List ℕ × Option Error) → List ℕ → Option Error) where
  unfoldable pub new_server : ℕ → Server fl
  new_server key = record { key = key; transport = none; clients = []; closed = false }

  -- `Start`, given the error of `NewServerTransport`.
  unfoldable pub start_server : Server fl → Option Error → Server fl × Option Error
  start_server s (some e) = (s, some e)
  start_server s none =
      (record s { transport = some (set_server_handler (new_server_transport s.key)) }, none)

  unfoldable pub new_client : ClientState fl
  new_client = record { reliable = new_reliable_manager fl; streams = [] }

  unfoldable pub get_or_create_client : Server fl → ℕ → ClientState fl × Server fl
  get_or_create_client s ip = elim (lookup ip s.clients) [
    | some cs ↦ (cs, s)
    | none ↦ (new_client, record s { clients = insert ip new_client s.clients })
  ]

  unfoldable pub get_or_create : ClientState fl → ℕ → ServerStream
  get_or_create cs id = elim (lookup id cs.streams) [
    | some ss ↦ ss
    | none ↦ create_stream (backend id)
  ]

  unfoldable pub handle_reliable_data : ClientState fl → ℕ → List ℕ → ClientState fl
  handle_reliable_data cs id payload = record cs {
    streams = insert id (take_data (get_or_create cs id) payload) cs.streams;
  }

  unfoldable pub handle_reliable_close : ClientState fl → ℕ → ClientState fl
  handle_reliable_close cs id = elim (lookup id cs.streams) [
    | none ↦ cs
    | some ss ↦ record cs { streams = insert id (take_close ss) cs.streams }
  ]

  -- The calls of `handleReliableData` that a packet leads to, one after another.
  unfoldable pub handle_all : ClientState fl → ℕ → List (List ℕ) → ClientState fl
  handle_all cs id [] = cs
  handle_all cs id (payload ∷ rest) = handle_all (handle_reliable_data cs id payload) id rest

  -- `reliable.Receive` with the server's two handlers.
  unfoldable pub client_receives : ClientState fl → ReliablePacket → ℕ → ClientState fl
  client_receives cs pkt now =
      let (payloads, is_close) = delivered_by fl cs.reliable pkt now in
      let cs' =
        handle_all (record cs { reliable = receive_packet fl cs.reliable pkt now }) pkt.stream_id
          payloads in
      if is_close then handle_reliable_close cs' pkt.stream_id else cs'

  unfoldable pub client_parses :
      ClientState fl → Outcome ReliablePacket → ℕ → Outcome (ClientState fl)
  client_parses cs (ok pkt) now = ok (client_receives cs pkt now)
  client_parses cs (err e) now = ok cs
  client_parses cs panic now = panic

  unfoldable pub store_client : Server fl → ℕ → Outcome (ClientState fl) → Outcome (Server fl)
  store_client s ip (ok cs) = ok (record s { clients = insert ip cs s.clients })
  store_client s ip (err e) = err e
  store_client s ip panic = panic

  unfoldable pub handle_gre_packet : Server fl → ℕ → List ℕ → ℕ → Outcome (Server fl)
  handle_gre_packet s ip bs now =
      let (cs, s') = get_or_create_client s ip in
      store_client s' ip (client_parses cs (unmarshal_reliable bs) now)

  -- `connectAndRun` on its client: the dial fails, and its end.
  unfoldable pub stream_dial_failed :
      ClientState fl
      → ℕ
      → ServerStream
      → ℕ
      → (ReliablePacket → Outcome (Unit {0}))
      → ClientState fl × ServerStream
  stream_dial_failed cs id ss now result = (
    record cs {
      streams = erase id cs.streams;
      reliable = (send_close_on fl cs.reliable id now result).0;
    },
    dial_failed ss,
  )

  unfoldable pub stream_cleans_up :
      ClientState fl → ℕ → ServerStream → ClientState fl × ServerStream
  stream_cleans_up cs id ss = (
    record cs { streams = erase id cs.streams; reliable = remove_stream fl cs.reliable id },
    clean_up ss,
  )

  unfoldable pub close_client : ClientState fl → ClientState fl
  close_client cs = record cs {
    reliable = close_all fl cs.reliable;
    streams = map (λ e. (e.0, close_stream e.1)) cs.streams;
  }

  unfoldable pub close_transport_of : Option ServerTransport → Option ServerTransport
  close_transport_of none = none
  close_transport_of (some t) = some (close_server_transport t)

  -- `Close`, up to its wait for the goroutines.
  unfoldable pub close_server : Server fl → Server fl
  close_server s = if s.closed then s else record s {
    closed = true;
    clients = map (λ e. (e.0, close_client e.1)) s.clients;
    transport = close_transport_of s.transport;
  }
