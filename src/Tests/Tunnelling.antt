-- ===== src/Tests/Tunnelling.antt =====
-- A request through the whole tunnel: sent by the client, received by the server before the backend is
-- connected, and written to the backend.
use shadow_gre.Prelude.{
  ℕ, ◌≡◌, refl, inl, none, Option, Error, List, [], ◌∷◌, length, concat, arith, lookup, insert,
  erase,
}
use mathlib.Core.List.{Memᴰ}
use shadow_gre.Reliable.Sender.{new_sender}
use shadow_gre.Reliable.Receiver.{
  new_receiver, process_data, deliver_out_of_order, deliver_loop, deliver, schedule_ack,
  send_ack_now, send_ack,
}
use shadow_gre.Reliable.Stream.{
  new_reliable_stream, take_seq, transmit, store_and_send, data_packet, receive,
}
use shadow_gre.Reliable.Link.{End, new_end, takes_seq, transmits}
use shadow_gre.Reliable.Manager.{
  new_reliable_manager, get_or_create_stream, receive_packet, delivered_by,
}
use shadow_gre.Tunnel.Stream.{
  ServerStream, create_stream, take_data, pend, dial_succeeded, flush_next, write_or_stop,
  count_out, write_backend,
}
use shadow_gre.Tunnel.Steps.{dial_succeeds, flushes}
use shadow_gre.Tunnel.Account.{written, waiting}
use shadow_gre.Tunnel.Quiet.{Dead}
use shadow_gre.Tunnel.Server.{
  ClientState, new_client, client_receives, handle_all, handle_reliable_data, get_or_create,
}
use shadow_gre.Tunnel.Served.{
  Served, reliable_of, fresh, client_moves, packet_arrives, stream_steps,
}
use shadow_gre.Tunnel.EndToEnd.{Begins, tunnel_end_to_end}
use shadow_gre.Tests.Floats.{eighths}
use shadow_gre.Tests.Linked.{
  requests, replies, request, request_bytes, request_written, request_parsed,
}

abbrev backend : ℕ → List (List ℕ × Option Error) → List ℕ → Option Error
backend id writes payload = none

abbrev client : End eighths
client =
    let e = new_end eighths 2 requests in
    record e { stream = transmit eighths (take_seq eighths e.stream).1 0 (7 ∷ 8 ∷ []) 5; taken = 1 }

-- The server when the request has come.
abbrev arrived_state : ClientState eighths
arrived_state = client_receives eighths backend (new_client eighths backend) request 6

abbrev pended : ServerStream
pended = take_data (create_stream (backend 2)) (7 ∷ 8 ∷ [])

abbrev flushed : ServerStream
flushed = flush_next (dial_succeeded pended) (dial_succeeded pended).flush

-- The request has come before the connection, and is written out.
abbrev served_state : ClientState eighths
served_state =
    let dialled = record arrived_state {
      streams = insert 2 (dial_succeeded pended) arrived_state.streams;
    } in
    record dialled { streams = insert 2 flushed dialled.streams }

run : Served eighths backend 2 requests replies client served_state 0
unfolding new_client client_receives handle_all handle_reliable_data get_or_create delivered_by
    get_or_create_stream receive_packet new_reliable_manager new_reliable_stream new_receiver
    new_sender take_seq transmit store_and_send data_packet receive process_data
    deliver_out_of_order deliver_loop deliver schedule_ack send_ack_now send_ack lookup erase insert
    create_stream take_data pend dial_succeeded flush_next write_or_stop count_out write_backend
run =
    stream_steps
      (stream_steps
        (packet_arrives request request request_bytes 6
          (client_moves (client_moves (fresh (new_client eighths backend) refl refl) takes_seq tt)
            (transmits 0 5 (omega arith)) tt)
          (inl (Memᴰ.head refl)) request_written request_parsed refl refl)
        refl (dial_succeeds refl) refl refl)
      refl (flushes refl) refl refl

tunnel_end_to_end_example :
    (rest : List ℕ) × Begins requests
      (length (reliable_of eighths backend served_state 2).receiver.delivered)
      1
      (concat (written flushed))
      rest
    × (¬ Dead flushed → rest ≡ concat (waiting flushed))
unfolding new_client client_receives handle_all handle_reliable_data get_or_create delivered_by
    get_or_create_stream receive_packet new_reliable_manager new_reliable_stream new_receiver
    process_data deliver_out_of_order deliver_loop deliver schedule_ack lookup insert erase
tunnel_end_to_end_example =
    tunnel_end_to_end eighths backend 2 requests replies client served_state 0 flushed (omega arith)
      run (omega arith) (omega arith) refl
