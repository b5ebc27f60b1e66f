-- ===== src/Frame.antt =====
-- pkg/tunnel/frame.go: the frames of the connection multiplexer.
pub mod RoundTrip
use shadow_gre.Prelude.{
  ◌>>=◌, ◌>>◌, ℕ, ◌+◌, ◌%◌, ◌^◌, List, [], ◌∷◌, length, take, drop, leb, frame_too_short, Outcome,
  ok, guard,
}
use shadow_gre.Wire.{be16, be32, get_u8, get_u16, get_u32, make, put, copy}

abbrev pub frame_data : ℕ
frame_data = 0x00

abbrev pub frame_syn : ℕ
frame_syn = 0x01

abbrev pub frame_syn_ack : ℕ
frame_syn_ack = 0x02

abbrev pub frame_fin : ℕ
frame_fin = 0x03

abbrev pub frame_fin_ack : ℕ
frame_fin_ack = 0x04

abbrev pub frame_ping : ℕ
frame_ping = 0x05

abbrev pub frame_pong : ℕ
frame_pong = 0x06

abbrev pub min_frame_size : ℕ
min_frame_size = 11

pub record Frame : Type 0 where
  pub type : ℕ
  pub conn_id : ℕ
  pub sequence : ℕ
  pub payload : List ℕ

-- The length field is `uint16(payloadLen)`.
unfoldable pub marshal : Frame → Outcome (List ℕ)
marshal f = do
  let payload_len = length f.payload
  b ← put (make (min_frame_size + payload_len)) 0 (f.type ∷ [])
  b ← put b 1 (be32 f.conn_id)
  b ← put b 5 (be32 f.sequence)
  b ← put b 9 (be16 (payload_len % 2 ^ 16))
  (b, _) ← copy b min_frame_size f.payload
  ok b

unfoldable pub unmarshal_frame : List ℕ → Outcome Frame
unmarshal_frame bs = do
  guard (leb min_frame_size (length bs)) frame_too_short
  type ← get_u8 bs 0
  conn_id ← get_u32 bs 1
  sequence ← get_u32 bs 5
  payload_len ← get_u16 bs 9
  guard (leb (min_frame_size + payload_len) (length bs)) frame_too_short
  ok (record {
    type = type;
    conn_id = conn_id;
    sequence = sequence;
    payload = take payload_len (drop min_frame_size bs);
  })

unfoldable pub new_data_frame : ℕ → ℕ → List ℕ → Frame
new_data_frame conn_id seq payload = record {
  type = frame_data;
  conn_id = conn_id;
  sequence = seq;
  payload = payload;
}

-- A frame that is its type and its connection.
abbrev control_frame : ℕ → ℕ → Frame
control_frame type conn_id = record { type = type; conn_id = conn_id; sequence = 0; payload = [] }

unfoldable pub new_syn_frame : ℕ → Frame
new_syn_frame conn_id = control_frame frame_syn conn_id

unfoldable pub new_syn_ack_frame : ℕ → Frame
new_syn_ack_frame conn_id = control_frame frame_syn_ack conn_id

unfoldable pub new_fin_frame : ℕ → Frame
new_fin_frame conn_id = control_frame frame_fin conn_id

unfoldable pub new_fin_ack_frame : ℕ → Frame
new_fin_ack_frame conn_id = control_frame frame_fin_ack conn_id

unfoldable pub new_ping_frame : Frame
new_ping_frame = control_frame frame_ping 0

unfoldable pub new_pong_frame : Frame
new_pong_frame = control_frame frame_pong 0
