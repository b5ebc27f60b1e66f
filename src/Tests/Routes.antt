-- ===== src/Tests/Routes.antt =====
-- A server and a client, and a packet for one of their streams.
use shadow_gre.Prelude.{
  ℕ, ◌≡◌, refl, false, Option, none, some, Error, List, [], ◌∷◌, ◌++◌, length, arith, ok, lookup,
}
use shadow_gre.Wire.{get_u32, get_u8, has}
use shadow_gre.Reliable.Packet.{ReliablePacket, unmarshal_reliable, get_ack, get_sack, flag_data}
use shadow_gre.Reliable.Stream.{receive}
use shadow_gre.Reliable.Manager.{new_reliable_manager, get_or_create_stream, delivered_by}
use shadow_gre.Tunnel.Stream.{create_stream}
use shadow_gre.Tunnel.Server.{ClientState, Server, get_or_create_client, handle_gre_packet}
use shadow_gre.Tunnel.Routing.{Routed, packet-Routed}
use shadow_gre.Tunnel.Clients.{
  Client, new_client_of, accept_connection, client_handles_packet, forget_stream,
}
use shadow_gre.Tunnel.Sessions.{Taken, client_packet_routed}
use shadow_gre.Tunnel.Ids.{starts, moves, connects, forgets, accepted, fresh_id}
use shadow_gre.Tests.Floats.{eighths}

abbrev backend : ℕ → List (List ℕ × Option Error) → List ℕ → Option Error
backend id writes payload = none

abbrev conn : List (List ℕ × Option Error) → List ℕ → ℕ × Option Error
conn writes payload = (length payload, none)

-- Stream 2, data, sequence number 0.
abbrev bytes : List ℕ
bytes = 0 ∷ 0 ∷ 0 ∷ 2 ∷ 1 ∷ 0 ∷ 0 ∷ 0 ∷ 0 ∷ 42 ∷ []

abbrev packet : ReliablePacket
packet = record {
  stream_id = 2;
  flags = flag_data;
  seq = 0;
  ack = 0;
  sack_blocks = [];
  payload = 42 ∷ [];
}

bytes_parse : unmarshal_reliable bytes ≡ ok packet
unfolding unmarshal_reliable get_u32 get_u8 has get_ack get_sack
bytes_parse = refl

abbrev client : ClientState eighths
client = record {
  reliable = new_reliable_manager eighths;
  streams = (2, create_stream (backend 2)) ∷ (3, create_stream (backend 3)) ∷ [];
}

abbrev server : Server eighths
server = record { key = 9; transport = none; clients = (77, client) ∷ []; closed = false }

packet-Routed_example :
    let cs = (get_or_create_client eighths backend server 77).0 in
    let stream = (get_or_create_stream eighths cs.reliable 2).0 in
    (s' : Server eighths) × (cs' : ClientState eighths) × (handle_gre_packet eighths backend server
        77 bytes 5
      ≡ ok s')
    × ((j : ℕ) → ¬ (j ≡ 77) → lookup j s'.clients ≡ lookup j server.clients)
    × (lookup 77 s'.clients ≡ some cs')
    × Routed eighths backend cs packet 5 cs'
    × ((receive eighths stream packet 5).0.receiver.delivered
        ≡ stream.receiver.delivered ++ (delivered_by eighths cs.reliable packet 5).0)
packet-Routed_example = packet-Routed eighths backend server 77 5 bytes packet bytes_parse

-- The first connection has ended when the second comes.
abbrev first_ended : Client eighths
first_ended = forget_stream eighths (accept_connection eighths (new_client_of eighths 1 9) conn).1 2

abbrev second : Client eighths
second = (accept_connection eighths first_ended conn).1

client_packet_routed_example :
    (c' : Client eighths) × (client_handles_packet eighths second bytes 5 ≡ ok c')
    × Taken eighths second packet 5 c'
client_packet_routed_example = client_packet_routed eighths second 5 bytes packet bytes_parse

fresh_id_example :
    ((accept_connection eighths second conn).0 ≡ 4)
    × (lookup (accept_connection eighths second conn).0 second.streams ≡ none)
unfolding accepted
fresh_id_example =
    fresh_id eighths 1 9 conn
      (moves (moves (moves starts (connects conn)) (forgets 2)) (connects conn)) (omega arith)
