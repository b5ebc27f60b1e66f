-- ===== src/Transport/Raw.antt =====
-- `RawTransport` of pkg/transport/raw.go: one end of a tunnel with a fixed peer.
use shadow_gre.Prelude.{
  ℕ, ◌+◌, ◌%◌, ◌^◌, Bool, true, false, not, ◌&&◌, Option, none, some, List, [], ◌∷◌, ◌++◌, length,
  take, ltb, ◌==◌, if◌then◌else◌, Error, Outcome, ok, err, panic, ◌>>=◌, transport_closed,
}
use shadow_gre.Gre.{Packet, new_packet, marshal_packet, unmarshal_packet}
use shadow_gre.Transport.{Event, reads, read_fails, closes, read_buffer_size, with_header}

-- `remote_ip` is none for nil. `on_receive` says whether a handler is set, `delivered` are its calls.
-- `wire` are the packets handed to `WriteToIP`. `filtered` and `key_mismatch` are the loop's counters.
pub record RawTransport : Type 0 where
  pub remote_ip : Option ℕ
  pub key : ℕ
  pub on_receive : Bool
  pub closed : Bool
  pub recv_count : ℕ
  pub send_count : ℕ
  pub total_recv : ℕ
  pub filtered : ℕ
  pub key_mismatch : ℕ
  pub delivered : List (List ℕ)
  pub wire : List (List ℕ)

-- `NewRawTransport` with a socket that could be opened.
unfoldable pub new_raw_transport : Option ℕ → ℕ → RawTransport
new_raw_transport remote_ip key = record {
  remote_ip = remote_ip;
  key = key;
  on_receive = false;
  closed = false;
  recv_count = 0;
  send_count = 0;
  total_recv = 0;
  filtered = 0;
  key_mismatch = 0;
  delivered = [];
  wire = [];
}

unfoldable pub set_receive_handler : RawTransport → RawTransport
set_receive_handler t = record t { on_receive = true }

-- `WriteToIP`, which returns `result`, and the count of what it took.
unfoldable pub write_to_ip : RawTransport → List ℕ → Option Error → RawTransport × Option Error
write_to_ip t bs none =
    (record t { wire = t.wire ++ (bs ∷ []); send_count = (t.send_count + 1) % 2 ^ 64 }, none)
write_to_ip t bs (some e) = (record t { wire = t.wire ++ (bs ∷ []) }, some e)

unfoldable pub send : RawTransport → List ℕ → Option Error → Outcome (RawTransport × Option Error)
send t payload result =
    if t.closed
    then ok (t, some transport_closed)
    else (marshal_packet (new_packet t.key payload) >>= λ bs. ok (write_to_ip t bs result))

-- With the caller's buffer, into which the header is written.
unfoldable pub send_zero_copy :
    RawTransport → List ℕ → ℕ → ℕ → Option Error → Outcome (RawTransport × List ℕ × Option Error)
send_zero_copy t buf header_offset payload_size result =
    if t.closed
    then ok (t, buf, some transport_closed)
    else (with_header t.key buf (header_offset + payload_size) >>= λ (b, bs).
        (let (t', e) = write_to_ip t bs result in ok (t', b, e)))

-- `t.remoteIP != nil && !addr.IP.Equal(t.remoteIP)`
abbrev pub is_stranger : Option ℕ → ℕ → Bool
is_stranger none addr = false
is_stranger (some ip) addr = not (addr == ip)

-- The handler is called with a payload that is not empty.
unfoldable pub process_payload : RawTransport → List ℕ → RawTransport
process_payload t payload =
    if t.on_receive && ltb 0 (length payload)
    then record t {
      delivered = t.delivered ++ (payload ∷ []);
      recv_count = (t.recv_count + 1) % 2 ^ 64;
    }
    else t

-- A packet that was parsed, or the error with which the loop goes on.
unfoldable pub accept_packet : RawTransport → Outcome Packet → Outcome RawTransport
accept_packet t (ok packet) =
    if packet.header.key == t.key
    then ok (process_payload t packet.payload)
    else ok (record t { key_mismatch = (t.key_mismatch + 1) % 2 ^ 64 })
accept_packet t (err e) = ok t
accept_packet t panic = panic

-- What the loop does with `buf[:n]`.
unfoldable pub receive_packet : RawTransport → ℕ → List ℕ → Outcome RawTransport
unfolding accept_packet
receive_packet t addr bs =
    let t' = record t { total_recv = (t.total_recv + 1) % 2 ^ 64 } in
    if is_stranger t.remote_ip addr
    then ok (record t' { filtered = (t.filtered + 1) % 2 ^ 64 })
    else accept_packet t' (unmarshal_packet bs)

-- `Close`
unfoldable pub close_transport : RawTransport → RawTransport
close_transport t = record t { closed = true }

-- `receiveLoop`, as long as there are events.
unfoldable pub receive_loop : RawTransport → List Event → Outcome RawTransport
receive_loop t [] = ok t
receive_loop t (reads addr bs ∷ es) =
    if t.closed
    then ok t
    else (receive_packet t addr (take read_buffer_size bs) >>= λ t'. receive_loop t' es)
receive_loop t (read_fails ∷ es) = let rest = receive_loop t es in if t.closed then ok t else rest
receive_loop t (closes ∷ es) = receive_loop (close_transport t) es
