-- ===== src/Transport/Server.antt =====
-- `ServerTransport` of pkg/transport/server.go: one end of the tunnels to any number of clients.
use shadow_gre.Prelude.{
  ℕ, ◌+◌, Bool, true, false, ◌&&◌, Option, none, some, List, [], ◌∷◌, ◌++◌, length, take, ltb, ◌==◌,
  if◌then◌else◌, Error, Outcome, ok, err, panic, ◌>>=◌, transport_closed, lookup, insert,
}
use shadow_gre.Gre.{Packet, new_packet, marshal_packet, unmarshal_packet}
use shadow_gre.Transport.{Event, reads, read_fails, closes, read_buffer_size, with_header}

-- `clients` holds the addresses that a packet with the key came from, `received` are the calls of the
-- handler, and `wire` the packets handed to `WriteToIP`, with their destination.
pub record ServerTransport : Type 0 where
  pub key : ℕ
  pub on_receive : Bool
  pub closed : Bool
  pub clients : List (ℕ × ℕ)
  pub received : List (ℕ × List ℕ)
  pub wire : List (ℕ × List ℕ)

unfoldable pub new_server_transport : ℕ → ServerTransport
new_server_transport key = record {
  key = key;
  on_receive = false;
  closed = false;
  clients = [];
  received = [];
  wire = [];
}

unfoldable pub set_server_handler : ServerTransport → ServerTransport
set_server_handler t = record t { on_receive = true }

unfoldable pub send_to :
    ServerTransport → ℕ → List ℕ → Option Error → Outcome (ServerTransport × Option Error)
send_to t client_ip payload result =
    if t.closed
    then ok (t, some transport_closed)
    else (marshal_packet (new_packet t.key payload) >>= λ bs.
        ok (record t { wire = t.wire ++ ((client_ip, bs) ∷ []) }, result))

unfoldable pub send_zero_copy_to :
    ServerTransport
    → ℕ
    → List ℕ
    → ℕ
    → ℕ
    → Option Error
    → Outcome (ServerTransport × List ℕ × Option Error)
send_zero_copy_to t client_ip buf header_offset payload_size result =
    if t.closed
    then ok (t, buf, some transport_closed)
    else (with_header t.key buf (header_offset + payload_size) >>= λ (b, bs).
        ok (record t { wire = t.wire ++ ((client_ip, bs) ∷ []) }, b, result))

-- `clients.LoadOrStore`
unfoldable pub register : ServerTransport → ℕ → ServerTransport
register t addr = elim (lookup addr t.clients) [
  | some _ ↦ t
  | none ↦ record t { clients = insert addr addr t.clients }
]

unfoldable pub process_from : ServerTransport → ℕ → List ℕ → ServerTransport
process_from t addr payload =
    if t.on_receive && ltb 0 (length payload)
    then record t { received = t.received ++ ((addr, payload) ∷ []) }
    else t

unfoldable pub accept_from_client : ServerTransport → ℕ → Outcome Packet → Outcome ServerTransport
accept_from_client t addr (ok packet) =
    if packet.header.key == t.key
    then ok (process_from (register t addr) addr packet.payload)
    else ok t
accept_from_client t addr (err e) = ok t
accept_from_client t addr panic = panic

unfoldable pub close_server_transport : ServerTransport → ServerTransport
close_server_transport t = record t { closed = true }

-- `receiveLoop`, as long as there are events.
unfoldable pub server_receive_loop : ServerTransport → List Event → Outcome ServerTransport
unfolding accept_from_client
server_receive_loop t [] = ok t
server_receive_loop t (reads addr bs ∷ es) =
    if t.closed
    then ok t
    else (accept_from_client t addr (unmarshal_packet (take read_buffer_size bs)) >>= λ t'.
        server_receive_loop t' es)
server_receive_loop t (read_fails ∷ es) =
    let rest = server_receive_loop t es in if t.closed then ok t else rest
server_receive_loop t (closes ∷ es) = server_receive_loop (close_server_transport t) es
