-- ===== src/Tests/Clients.antt =====
-- A stream of the client that gets two pieces, of which one is written before the server closes.
use shadow_gre.Prelude.{ℕ, ◌≡◌, refl, true, Option, none, Error, List, [], ◌∷◌, ◌++◌, length}
use shadow_gre.Tunnel.Client.{
  StreamConn, new_stream_conn, signal_close, queue_data, server_closes_conn, count_in, write_conn,
  write_piece, drain_and_leave, ClientReach, starts, then_steps, data_queued, server_closed_it,
  piece_written, writer_leaves,
}
use shadow_gre.Tunnel.Delivery.{pieces, AllWritten, client_delivery}

abbrev takes_all : List (List ℕ × Option Error) → List ℕ → ℕ × Option Error
takes_all writes payload = (length payload, none)

abbrev opened : StreamConn
opened = new_stream_conn takes_all

abbrev queued : StreamConn
queued = queue_data (queue_data opened (1 ∷ 2 ∷ [])) (3 ∷ [])

abbrev signalled_conn : StreamConn
signalled_conn = server_closes_conn (write_piece queued (1 ∷ 2 ∷ []) ((3 ∷ []) ∷ []))

abbrev left : StreamConn
left = drain_and_leave signalled_conn

left-ClientReach : ClientReach opened left
unfolding new_stream_conn queue_data write_piece write_conn count_in server_closes_conn signal_close
left-ClientReach =
    then_steps
      (then_steps
        (then_steps
          (then_steps (then_steps starts (data_queued (1 ∷ 2 ∷ []))) (data_queued (3 ∷ [])))
          (piece_written (1 ∷ 2 ∷ []) ((3 ∷ []) ∷ []) refl refl))
        server_closed_it)
      (writer_leaves refl refl)

client_delivery_example :
    (left.accepted ≡ pieces left ++ left.write_ch)
    × (left.writer_done ≡ true → AllWritten left → pieces left ≡ left.accepted)
client_delivery_example = client_delivery takes_all left-ClientReach
