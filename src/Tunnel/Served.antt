-- ===== src/Tunnel/Served.antt =====
-- A client's stream at the server: the reliable manager, the server's handlers and the stream to the
-- backend together, against the peer at the client, up to the first close.
pub mod Carried
use shadow_gre.Prelude.{
  ℕ, ◌≡◌, refl, sym, ap, ◌∙◌, false, Option, none, some, Error, List, [], ◌∷◌, ◌++◌, append_assoc,
  append-nil, if_both, option_with, ok, Outcome, ==_self, lookup, insert, lookup-insert,
}
use mathlib.Core.Path.{subst}
use shadow_gre.Wire.{has}
use shadow_gre.Reliable.Packet.{ReliablePacket, marshal, unmarshal_reliable, flag_close}
use shadow_gre.Reliable.Rtt.{Float64}
use shadow_gre.Reliable.Receiver.{Receiver, new_receiver, ack_timer_fires, send_ack_now, send_ack}
use shadow_gre.Reliable.Stream.{
  ReliableStream, new_reliable_stream, take_seq, transmit, store_and_send, send_close, receive,
  close,
}
use shadow_gre.Reliable.Manager.{Manager, get_or_create_stream, receive_packet, delivered_by}
use shadow_gre.Reliable.Manager.Close.{is_close-receive, receive_packet-own}
use shadow_gre.Reliable.Link.{
  End, new_end, HasSent, Move, takes_seq, transmits, closes_sending, fires_ack_timer,
  checks_retransmit, receives, closes, both_new, left_moves, right_moves,
}
use shadow_gre.Reliable.Link as Link
use shadow_gre.Tunnel.Stream.{ServerStream, create_stream, take_data}
use shadow_gre.Tunnel.Steps.{Step, data_arrives, Reach, here, next}
use shadow_gre.Tunnel.Prefix.{arrived, offered}
use shadow_gre.Tunnel.Server.{ClientState, get_or_create, client_receives}
use shadow_gre.Tunnel.Routing.{takes, fed, told, client_receives-Routed, delivered_by_grows}

module _ (fl : Float64) (backend : ℕ → List (List ℕ × Option Error) → List ℕ → Option Error) where
  -- The server's peer of stream `id`: the one in the map, or the one that a packet would make.
  abbrev pub reliable_of : ClientState fl → ℕ → ReliableStream fl
  reliable_of cs id = (get_or_create_stream fl cs.reliable id).0

  abbrev pub server_end : ClientState fl → ℕ → (ℕ → List ℕ) → ℕ → End fl
  server_end cs id replies taken = record {
    stream = reliable_of cs id;
    payloads = replies;
    taken = taken;
  }

  -- A move that is not the arrival of a packet, and one that is not that of a close.
  abbrev pub IsOwn : {p e e' : End fl} → Move fl p e e' → Type 0
  IsOwn takes_seq = Unit
  IsOwn (transmits i now lt) = Unit
  IsOwn (closes_sending now result) = Unit
  IsOwn fires_ack_timer = Unit
  IsOwn (checks_retransmit now) = Unit
  IsOwn (receives pkt parsed bs now m wire parse) = ⊥
  IsOwn closes = Unit

  abbrev pub IsNoClose : {p e e' : End fl} → Move fl p e e' → Type 0
  IsNoClose takes_seq = Unit
  IsNoClose (transmits i now lt) = Unit
  IsNoClose (closes_sending now result) = Unit
  IsNoClose fires_ack_timer = Unit
  IsNoClose (checks_retransmit now) = Unit
  IsNoClose (receives pkt parsed bs now m wire parse) = has parsed.flags flag_close ≡ false
  IsNoClose closes = Unit

  -- The client's peer and the server's state of this client, with the numbers that the server has taken
  -- on the stream, after any steps: the client's peer moves; a packet of it that is no close reaches the
  -- server; the server's peer moves, also because the reader of the backend sends; the server's stream
  -- takes a step that is no arrival of data and leaves it in the map; or anything happens that leaves
  -- both maps as they are at this stream.
  pub data Served (id : ℕ) (requests replies : ℕ → List ℕ)
      : End fl → ClientState fl → ℕ → Type 0 where
    fresh :
        (cs : ClientState fl)
        → lookup id cs.streams ≡ none
        → lookup id cs.reliable.streams ≡ none
        → Served id requests replies (new_end fl id requests) cs 0
    client_moves :
        {a a' : End fl} {cs : ClientState fl} {n : ℕ}
        → Served id requests replies a cs n
        → (m : Move fl (server_end cs id replies n) a a') → IsNoClose m
        → Served id requests replies a' cs n
    packet_arrives :
        {a : End fl} {cs : ClientState fl} {n : ℕ} (pkt parsed : ReliablePacket) (bs : List ℕ)
        (now : ℕ)
        → Served id requests replies a cs n
        → HasSent fl a pkt
        → marshal pkt ≡ ok bs
        → unmarshal_reliable bs ≡ ok parsed
        → parsed.stream_id ≡ id
        → has parsed.flags flag_close ≡ false
        → Served id requests replies a (client_receives fl backend cs parsed now) n
    server_moves :
        {a e' : End fl} {cs : ClientState fl} {n : ℕ}
        → Served id requests replies a cs n
        → (m : Move fl a (server_end cs id replies n) e') → IsOwn m
        → Served id requests replies a
            (record cs {
              reliable = record cs.reliable { streams = insert id e'.stream cs.reliable.streams };
            })
            e'.taken
    stream_steps :
        {a : End fl} {cs : ClientState fl} {n : ℕ} {s t : ServerStream}
        → Served id requests replies a cs n
        → lookup id cs.streams ≡ some s
        → (step : Step s t) → arrived step ≡ []
        → t.removed ≡ false
        → Served id requests replies a (record cs { streams = insert id t cs.streams }) n
    others_act :
        {a : End fl} {cs cs' : ClientState fl} {n : ℕ}
        → Served id requests replies a cs n
        → lookup id cs'.streams ≡ lookup id cs.streams
        → lookup id cs'.reliable.streams ≡ lookup id cs.reliable.streams
        → Served id requests replies a cs' n
