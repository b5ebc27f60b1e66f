-- ===== src/Multiplexer/Manager.antt =====
-- `Manager` of pkg/tunnel/manager.go, with the methods of `Connection` that use it. A connection is
-- shared by pointer: `objects` are the connections made so far, and a pointer is a position in it.
use shadow_gre.Prelude.{
  ℕ, zero, suc, ◌+◌, ◌%◌, ◌^◌, Bool, true, false, Option, none, some, List, [], ◌∷◌, ◌++◌, length,
  take, drop, set, get_or, leb, ◌==◌, if◌then◌else◌, Error, closed_pipe, erase, insert,
}
use shadow_gre.Frame.{Frame, frame_data, new_data_frame, new_fin_frame}
use shadow_gre.Reliable.Seq.{add32}
use shadow_gre.Multiplexer.Connection.{Connection, new_connection, shut}

abbrev pub max_payload_size : ℕ
max_payload_size = 1400

-- uint64 addition.
abbrev pub add64 : ℕ → ℕ → ℕ
add64 a b = (a + b) % 2 ^ 64

-- `sent` are the frames whose `Marshal` was handed to `sendFunc`, in order; `send_func` is what it
-- returns, given the calls before and the frame. `connected` are the calls of `onConnect`.
pub record ConnectionManager : Type 0 where
  pub send_func : List Frame → Frame → Option Error
  pub sent : List Frame
  pub objects : List Connection
  pub connections : List (ℕ × ℕ)
  pub conn_id_seq : ℕ
  pub accept_ch : List ℕ
  pub accept_closed : Bool
  pub has_on_connect : Bool
  pub connected : List ℕ
  pub frames_sent : ℕ
  pub frames_received : ℕ
  pub bytes_payload_sent : ℕ
  pub bytes_payload_recv : ℕ
  pub packets_dropped : ℕ

unfoldable pub new_manager : (List Frame → Frame → Option Error) → ConnectionManager
new_manager send_func = record {
  send_func = send_func;
  sent = [];
  objects = [];
  connections = [];
  conn_id_seq = 0;
  accept_ch = [];
  accept_closed = false;
  has_on_connect = false;
  connected = [];
  frames_sent = 0;
  frames_received = 0;
  bytes_payload_sent = 0;
  bytes_payload_recv = 0;
  packets_dropped = 0;
}

unfoldable pub set_on_connect : ConnectionManager → ConnectionManager
set_on_connect m = record m { has_on_connect = true }

-- What a pointer points to, and an assignment through it. Every pointer comes from `store_new`.
unfoldable pub object : ConnectionManager → ℕ → Connection
object m p = get_or m.objects p (new_connection 0)

unfoldable pub set_object : ConnectionManager → ℕ → Connection → ConnectionManager
set_object m p c = record m { objects = set m.objects p c }

-- `connections.Store(id, conn)` with a connection just made.
unfoldable pub store_new : ConnectionManager → ℕ → Connection → ConnectionManager
store_new m id c = record m {
  objects = m.objects ++ (c ∷ []);
  connections = insert id (length m.objects) m.connections;
}

unfoldable pub remove_connection : ConnectionManager → ℕ → ConnectionManager
remove_connection m id = record m { connections = erase id m.connections }

unfoldable pub send_frame : ConnectionManager → Frame → ConnectionManager × Option Error
send_frame m frame = (
  record m {
    frames_sent = add64 m.frames_sent 1;
    bytes_payload_sent =
        if frame.type == frame_data
        then add64 m.bytes_payload_sent (length frame.payload)
        else m.bytes_payload_sent;
    sent = m.sent ++ (frame ∷ []);
  },
  m.send_func m.sent frame,
)

-- A data frame of the connection, with the next sequence number.
unfoldable pub send_data : ConnectionManager → ℕ → List ℕ → ConnectionManager × Option Error
send_data m p chunk =
    let c = object m p in
    let seq = add32 c.seq 1 in
    send_frame (set_object m p (record c { seq = seq })) (new_data_frame c.id seq chunk)

-- The loop of `Write`, on fuel: `rest` is what has not been written.
unfoldable pub write_loop :
    ℕ → ConnectionManager → ℕ → List ℕ → ℕ → ConnectionManager × ℕ × Option Error
write_loop zero m p rest written = (m, written, none)
write_loop (suc fuel) m p [] written = (m, written, none)
write_loop (suc fuel) m p (b ∷ bs) written =
    let rest = b ∷ bs in
    let chunk = take max_payload_size rest in
    let (m', e) = send_data m p chunk in
    elim e [
      | some e ↦ (m', written, some e)
      | none ↦ write_loop fuel m' p (drop max_payload_size rest) (written + length chunk)
    ]

-- Every round writes a byte at least, so as many rounds as there are bytes are enough.
unfoldable pub write : ConnectionManager → ℕ → List ℕ → ConnectionManager × ℕ × Option Error
write m p payload =
    if (object m p).closed
    then (m, 0, some closed_pipe)
    else (if leb (length payload) max_payload_size
        then (let (m', e) = send_data m p payload in
            elim e [ some e ↦ (m', 0, some e) | none ↦ (m', length payload, none) ])
        else write_loop (length payload) m p payload 0)

-- `Close` of a connection.
unfoldable pub close_connection : ConnectionManager → ℕ → ConnectionManager
close_connection m p =
    let c = object m p in
    if c.closed
    then m
    else remove_connection (send_frame (set_object m p (shut c)) (new_fin_frame c.id)).0 c.id
