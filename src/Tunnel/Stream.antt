-- ===== src/Tunnel/Stream.antt =====
-- `serverStream` of pkg/shadowgre/server.go: the data of one stream on its way to the backend.
use shadow_gre.Prelude.{
  ℕ, ◌+◌, ◌%◌, ◌^◌, Bool, true, false, Option, none, some, List, [], ◌∷◌, ◌++◌, length, ltb, ◌==◌,
  if◌then◌else◌, Error,
}

pub data StreamState : Type 0 where
  stream_state_connecting stream_state_connected stream_state_closed : StreamState

-- Where the goroutine of `connectAndRun` is: it dials, it writes `pendingData`, it runs
-- `writeToBackend`, or it has left that.
pub data Phase : Type 0 where
  dialing flushing writing stopped : Phase

-- Where the goroutine of `readFromBackend` is.
pub data Reader : Type 0 where
  not_started reading read_done : Reader

-- The capacity of `writeCh`.
abbrev pub write_channel_size : ℕ
write_channel_size = 4096

-- `write_close` and `close_ch` say whether these channels are closed. `flush` is what `connectAndRun`
-- took from `pendingData` and has not written yet, and `lost` what was left of that when a write failed:
-- it goes with the local slice. `writes` are the calls of `backendConn.Write`, with
-- their errors, and `backend` is what it returns, given the calls before and the data. `write_shut`
-- says that `CloseWrite` was called, and `accepted` is the data that was not ignored, in order. `sent`
-- is what was handed to `reliable.Send`, `closes_sent` counts the calls of `reliable.SendClose`, and
-- `removed` says that the stream was taken out of the client's map.
pub record ServerStream : Type 0 where
  pub backend : List (List ℕ × Option Error) → List ℕ → Option Error
  pub state : StreamState
  pub phase : Phase
  pub reader : Reader
  pub has_backend : Bool
  pub backend_closed : Bool
  pub write_ch : List (List ℕ)
  pub write_close : Bool
  pub close_ch : Bool
  pub client_close_recv : Bool
  pub pending : List (List ℕ)
  pub flush : List (List ℕ)
  pub lost : List (List ℕ)
  pub accepted : List (List ℕ)
  pub writes : List (List ℕ × Option Error)
  pub write_shut : Bool
  pub bytes_in : ℕ
  pub bytes_out : ℕ
  pub sent : List (List ℕ)
  pub closes_sent : ℕ
  pub removed : Bool

unfoldable pub create_stream : (List (List ℕ × Option Error) → List ℕ → Option Error) → ServerStream
create_stream backend = record {
  backend = backend;
  state = stream_state_connecting;
  phase = dialing;
  reader = not_started;
  has_backend = false;
  backend_closed = false;
  write_ch = [];
  write_close = false;
  close_ch = false;
  client_close_recv = false;
  pending = [];
  flush = [];
  lost = [];
  accepted = [];
  writes = [];
  write_shut = false;
  bytes_in = 0;
  bytes_out = 0;
  sent = [];
  closes_sent = 0;
  removed = false;
}

unfoldable pub close_write : ServerStream → ServerStream
close_write s = record s { write_close = true }

-- The body of `close`, for a stream that is not closed.
unfoldable pub close_open_stream : ServerStream → ServerStream
close_open_stream s = record (close_write s) {
  state = stream_state_closed;
  close_ch = true;
  backend_closed = if s.has_backend then true else s.backend_closed;
}

unfoldable pub close_stream : ServerStream → ServerStream
close_stream s = elim s.state [
  | stream_state_connecting ↦ close_open_stream s
  | stream_state_connected ↦ close_open_stream s
  | stream_state_closed ↦ s
]

-- The data goes into the channel. One that is full for five seconds closes the stream.
unfoldable pub enqueue : ServerStream → List ℕ → ServerStream
enqueue s payload =
    if s.write_close
    then s
    else (if ltb (length s.write_ch) write_channel_size
        then record s {
          write_ch = s.write_ch ++ (payload ∷ []);
          accepted = s.accepted ++ (payload ∷ []);
        }
        else close_stream s)

unfoldable pub pend : ServerStream → List ℕ → ServerStream
pend s payload = record s {
  pending = s.pending ++ (payload ∷ []);
  accepted = s.accepted ++ (payload ∷ []);
}

-- `handleReliableData` on its stream.
unfoldable pub take_data : ServerStream → List ℕ → ServerStream
take_data s payload = elim s.state [
  | stream_state_closed ↦ s
  | stream_state_connecting ↦ if length payload == 0 then s else pend s payload
  | stream_state_connected ↦ if length payload == 0 then s else enqueue s payload
]

-- `handleReliableClose` on its stream.
unfoldable pub take_close : ServerStream → ServerStream
take_close s = close_write (record s { client_close_recv = true })

-- `connectAndRun`: the dial fails, or it succeeds and `pendingData` is taken.
unfoldable pub dial_failed : ServerStream → ServerStream
dial_failed s = record s {
  state = stream_state_closed;
  phase = stopped;
  closes_sent = s.closes_sent + 1;
  removed = true;
}

unfoldable pub dial_succeeded : ServerStream → ServerStream
dial_succeeded s = record s {
  has_backend = true;
  flush = s.pending;
  pending = [];
  state = stream_state_connected;
  phase = flushing;
}

unfoldable pub count_out : ServerStream → List ℕ → ServerStream
count_out s payload = record s { bytes_out = (s.bytes_out + length payload) % 2 ^ 64 }

-- A call of `backendConn.Write`.
unfoldable pub write_backend : ServerStream → List ℕ → ServerStream
write_backend s payload = record s {
  writes = s.writes ++ ((payload, s.backend s.writes payload) ∷ []);
}

-- A write that ends the writer if it fails. (In `writeToBackend` no `pendingData` is left to lose.)
unfoldable pub write_or_stop : ServerStream → List ℕ → ServerStream
write_or_stop s payload = elim (s.backend s.writes payload) [
  | none ↦ count_out (write_backend s payload) payload
  | some _ ↦ record (close_stream (write_backend s payload)) {
    phase = stopped;
    lost = s.flush;
    flush = [];
  }
]

-- `connectAndRun`: the next piece of `pendingData`, or the start of the two goroutines.
unfoldable pub flush_next : ServerStream → List (List ℕ) → ServerStream
flush_next s [] = record s { phase = writing; reader = reading }
flush_next s (payload ∷ rest) = write_or_stop (record s { flush = rest }) payload

-- `writeToBackend`: the next piece of the channel.
unfoldable pub write_next : ServerStream → List ℕ → List (List ℕ) → ServerStream
write_next s payload rest = write_or_stop (record s { write_ch = rest }) payload

-- `drainWriteCh`, whose writes may fail.
unfoldable pub drain_write_ch : ServerStream → List (List ℕ) → ServerStream
drain_write_ch s [] = record s { write_ch = [] }
drain_write_ch s (payload ∷ rest) =
    drain_write_ch (count_out (write_backend s payload) payload) rest

unfoldable pub drain_and_shutdown_write : ServerStream → ServerStream
drain_and_shutdown_write s = record (drain_write_ch s s.write_ch) { write_shut = true }

-- The branches of `writeToBackend` for the two channels that are closed.
unfoldable pub stop_on_close_write : ServerStream → ServerStream
stop_on_close_write s = record (drain_and_shutdown_write s) { phase = stopped }

unfoldable pub stop_on_close : ServerStream → ServerStream
stop_on_close s = record (drain_write_ch s s.write_ch) { phase = stopped }

-- What `readFromBackend` does at its end.
unfoldable pub finish_reading : ServerStream → ServerStream
finish_reading s = close_stream (record s { closes_sent = s.closes_sent + 1; reader = read_done })

-- `readFromBackend` has read, and `reliable.Send` returns `result`.
unfoldable pub read_backend : ServerStream → List ℕ → Option Error → ServerStream
read_backend s payload result =
    let s' = record s {
      bytes_in = (s.bytes_in + length payload) % 2 ^ 64;
      sent = s.sent ++ (payload ∷ []);
    } in
    elim result [ none ↦ s' | some _ ↦ finish_reading s' ]

-- The end of `connectAndRun`.
unfoldable pub clean_up : ServerStream → ServerStream
clean_up s = record s { removed = true }
