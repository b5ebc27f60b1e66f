-- ===== src/Tunnel/Client.antt =====
-- `streamConn` of pkg/shadowgre/client.go: the data of one stream on its way to the TCP connection.
use shadow_gre.Prelude.{
  ℕ, ◌+◌, ◌%◌, ◌^◌, Bool, true, false, Option, none, some, List, [], ◌∷◌, ◌++◌, length, ltb, ◌≡◌,
  if◌then◌else◌, Error,
}
use shadow_gre.Tunnel.Stream.{write_channel_size}

-- `conn` is what `conn.Write` returns, given the calls before and the data: the number of bytes
-- written, and an error. `close_ch` and `writer_done` say whether these channels are closed.
-- `accepted` is the data that went into the channel, and `writes` are the calls of `Write`.
pub record StreamConn : Type 0 where
  pub conn : List (List ℕ × Option Error) → List ℕ → ℕ × Option Error
  pub write_ch : List (List ℕ)
  pub close_ch : Bool
  pub writer_done : Bool
  pub server_closed : Bool
  pub closed : Bool
  pub conn_closed : Bool
  pub bytes_in : ℕ
  pub bytes_out : ℕ
  pub accepted : List (List ℕ)
  pub writes : List (List ℕ × Option Error)

-- The stream that `handleConnection` makes.
unfoldable pub new_stream_conn :
    (List (List ℕ × Option Error) → List ℕ → ℕ × Option Error) → StreamConn
new_stream_conn conn = record {
  conn = conn;
  write_ch = [];
  close_ch = false;
  writer_done = false;
  server_closed = false;
  closed = false;
  conn_closed = false;
  bytes_in = 0;
  bytes_out = 0;
  accepted = [];
  writes = [];
}

unfoldable pub signal_close : StreamConn → StreamConn
signal_close s = record s { close_ch = true }

unfoldable pub close_conn : StreamConn → StreamConn
close_conn s = record (signal_close (record s { closed = true })) { conn_closed = true }

-- `handleReliableData` on its stream, as one step. A channel that is full for five seconds closes the
-- stream.
unfoldable pub queue_data : StreamConn → List ℕ → StreamConn
queue_data s payload =
    if s.closed
    then s
    else (if ltb (length s.write_ch) write_channel_size
        then record s {
          write_ch = s.write_ch ++ (payload ∷ []);
          accepted = s.accepted ++ (payload ∷ []);
        }
        else close_conn s)

-- `handleReliableClose` on its stream.
unfoldable pub server_closes_conn : StreamConn → StreamConn
server_closes_conn s = signal_close (record s { server_closed = true })

unfoldable pub count_in : StreamConn → ℕ → StreamConn
count_in s n = record s { bytes_in = (s.bytes_in + n) % 2 ^ 64 }

unfoldable pub write_conn : StreamConn → List ℕ → StreamConn
write_conn s payload = record s {
  writes = s.writes ++ ((payload, (s.conn s.writes payload).1) ∷ []);
}

-- `drainWriteCh`: it ends at the first write that fails.
unfoldable pub drain_conn : StreamConn → List (List ℕ) → StreamConn
drain_conn s [] = record s { write_ch = [] }
drain_conn s (payload ∷ rest) =
    let later = drain_conn (count_in (write_conn s payload) (length payload)) rest in
    elim (s.conn s.writes payload).1 [
      | some _ ↦ record (write_conn s payload) { write_ch = rest }
      | none ↦ later
    ]

-- What `writeLoop` does at its end.
unfoldable pub drain_and_leave : StreamConn → StreamConn
drain_and_leave s = record (drain_conn (record s { closed = true }) s.write_ch) {
  writer_done = true;
}

-- `writeLoop`: the next piece of the channel.
unfoldable pub write_piece : StreamConn → List ℕ → List (List ℕ) → StreamConn
write_piece s payload rest =
    let s' = write_conn (record s { write_ch = rest }) payload in
    let (n, e) = s.conn s.writes payload in
    elim e [ some _ ↦ drain_and_leave s' | none ↦ count_in s' n ]

-- The handlers, and `writeLoop` until it leaves, in any order. Between the close signal and the drain
-- `writeLoop` sleeps, so data may still come.
pub data ClientStep (s : StreamConn) : StreamConn → Type 0 where
  data_queued : (payload : List ℕ) → ClientStep s (queue_data s payload)
  server_closed_it : ClientStep s (server_closes_conn s)
  signalled : ClientStep s (signal_close s)
  client_closes_it : ClientStep s (close_conn s)
  piece_written :
      (payload : List ℕ) (rest : List (List ℕ))
      → s.writer_done ≡ false
      → s.write_ch ≡ payload ∷ rest
      → ClientStep s (write_piece s payload rest)
  writer_leaves : s.writer_done ≡ false → s.close_ch ≡ true → ClientStep s (drain_and_leave s)

pub data ClientReach (s : StreamConn) : StreamConn → Type 0 where
  starts : ClientReach s s
  then_steps : {t u : StreamConn} → ClientReach s t → ClientStep t u → ClientReach s u
