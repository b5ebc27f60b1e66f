-- ===== src/Multiplexer/Connection.antt =====
-- `Connection` of pkg/tunnel/manager.go, as far as it does not use its manager.
use shadow_gre.Prelude.{
  ℕ, ◌+◌, Bool, true, false, ◌&&◌, Option, none, some, List, [], ◌∷◌, ◌++◌, length, take, drop, ltb,
  leb, ◌==◌, if◌then◌else◌, Outcome, ok, err, eof, dial_timeout,
}

abbrev pub read_channel_size : ℕ
read_channel_size = 16384

-- `read_ch` are the slices in the channel, none of which is nil. `established` and `close_ch` say
-- whether these channels are closed.
pub record Connection : Type 0 where
  pub id : ℕ
  pub read_ch : List (List ℕ)
  pub read_buf : List ℕ
  pub established : Bool
  pub closed : Bool
  pub close_ch : Bool
  pub seq : ℕ
  pub packets_dropped : ℕ

unfoldable pub new_connection : ℕ → Connection
new_connection id = record {
  id = id;
  read_ch = [];
  read_buf = [];
  established = false;
  closed = false;
  close_ch = false;
  seq = 0;
  packets_dropped = 0;
}

unfoldable pub mark_established : Connection → Connection
mark_established c = record c { established = true }

-- The branch that the `select` of `waitEstablished` takes.
pub data Wakeup : Type 0 where
  on_established on_timeout on_close : Wakeup

-- `none`: the channel of that branch is not ready.
unfoldable pub wait_established : Connection → Wakeup → Option (Outcome (Unit {0}))
wait_established c on_established = if c.established then some (ok tt) else none
wait_established c on_timeout = some (err dial_timeout)
wait_established c on_close = if c.close_ch then some (err eof) else none

-- `bytes.Buffer.Read` into a slice of `size` bytes.
unfoldable pub buffer_read : Connection → ℕ → Connection × Outcome (List ℕ)
buffer_read c size =
    if length c.read_buf == 0
    then (c, if size == 0 then ok [] else err eof)
    else (record c { read_buf = drop size c.read_buf }, ok (take size c.read_buf))

-- `drainLoop`: the buffer, and what is left in the channel.
unfoldable pub drain_loop : ℕ → List ℕ → List (List ℕ) → List ℕ × List (List ℕ)
drain_loop size buf [] = (buf, [])
drain_loop size buf (x ∷ xs) =
    if leb size (length (buf ++ x)) then (buf ++ x, xs) else drain_loop size (buf ++ x) xs

-- The wait for the first block and what follows. `close_first` decides where both channels are ready;
-- `none` is a `Read` that still waits.
unfoldable pub await_data :
    Connection → List (List ℕ) → ℕ → Bool → Connection × Option (Outcome (List ℕ))
unfolding buffer_read drain_loop
await_data c [] size close_first = (c, if c.close_ch then some (err eof) else none)
await_data c (x ∷ xs) size close_first =
    if c.close_ch && close_first
    then (c, some (err eof))
    else (let (buf, rest) = drain_loop size (c.read_buf ++ x) xs in
        let (c', answer) = buffer_read (record c { read_buf = buf; read_ch = rest }) size in
        (c', some answer))

-- `Read` into a slice of `size` bytes.
unfoldable pub read : Connection → ℕ → Bool → Connection × Option (Outcome (List ℕ))
unfolding await_data buffer_read
read c size close_first =
    if ltb 0 (length c.read_buf)
    then (let (c', answer) = buffer_read c size in (c', some answer))
    else (if c.closed then (c, some (err eof)) else await_data c c.read_ch size close_first)

-- `closeCh` is closed behind `closed`, so its branch is never taken beside a free place.
unfoldable pub deliver : Connection → List ℕ → Connection
deliver c payload =
    if c.closed
    then c
    else (if ltb (length c.read_ch) read_channel_size
        then record c { read_ch = c.read_ch ++ (payload ∷ []) }
        else (if c.close_ch then c else record c { packets_dropped = c.packets_dropped + 1 }))

-- What `Close` and a FIN do to the connection.
unfoldable pub shut : Connection → Connection
shut c = record c { closed = true; close_ch = true }
