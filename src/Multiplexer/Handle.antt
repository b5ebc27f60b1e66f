-- ===== src/Multiplexer/Handle.antt =====
-- `HandleFrame` and `Close` of the manager of pkg/tunnel/manager.go.
use shadow_gre.Prelude.{
  ℕ, true, none, some, List, [], ◌∷◌, ◌++◌, length, ltb, ◌==◌, if◌then◌else◌, Outcome, ok, err,
  panic, lookup,
}
use shadow_gre.Frame.{
  Frame, frame_data, frame_syn, frame_syn_ack, frame_fin, frame_fin_ack, frame_ping,
  unmarshal_frame, new_syn_ack_frame, new_fin_ack_frame, new_pong_frame,
}
use shadow_gre.Multiplexer.Connection.{new_connection, mark_established, deliver, shut}
use shadow_gre.Multiplexer.Manager.{
  ConnectionManager, add64, object, set_object, store_new, remove_connection, send_frame,
  close_connection,
}

abbrev pub accept_channel_size : ℕ
accept_channel_size = 64

-- The new connection is handed to `onConnect` or to `Accept`. A send on a closed channel panics.
unfoldable pub announce : ConnectionManager → ℕ → ConnectionManager × Outcome (Unit {0})
announce m p =
    if m.has_on_connect
    then (record m { connected = m.connected ++ (p ∷ []) }, ok tt)
    else (if m.accept_closed
        then (m, panic)
        else (if ltb (length m.accept_ch) accept_channel_size
            then (record m { accept_ch = m.accept_ch ++ (p ∷ []) }, ok tt)
            else (m, ok tt)))

unfoldable pub handle_syn : ConnectionManager → ℕ → ConnectionManager × Outcome (Unit {0})
handle_syn m id =
    let p = length m.objects in
    let (m', e) =
      send_frame (store_new m id (mark_established (new_connection id))) (new_syn_ack_frame id) in
    elim e [ some e ↦ (m', err e) | none ↦ announce m' p ]

unfoldable pub handle_syn_ack : ConnectionManager → ℕ → ConnectionManager
handle_syn_ack m id = elim (lookup id m.connections) [
  | none ↦ m
  | some p ↦ set_object m p (mark_established (object m p))
]

unfoldable pub handle_data : ConnectionManager → ℕ → List ℕ → ConnectionManager
handle_data m id payload = elim (lookup id m.connections) [
  | none ↦ m
  | some p ↦
      let c = deliver (object m p) payload in
      let m' = set_object m p c in
      if ltb 0 c.packets_dropped then record m' { packets_dropped = c.packets_dropped } else m'
]

unfoldable pub handle_fin : ConnectionManager → ℕ → ConnectionManager
handle_fin m id = elim (lookup id m.connections) [
  | none ↦ m
  | some p ↦
      if (object m p).closed
      then m
      else (send_frame (remove_connection (set_object m p (shut (object m p))) id)
          (new_fin_ack_frame id)).0
]

-- The `switch` on the type of the frame.
unfoldable pub dispatch : ConnectionManager → Frame → ConnectionManager × Outcome (Unit {0})
dispatch m frame =
    if frame.type == frame_syn
    then handle_syn m frame.conn_id
    else (if frame.type == frame_syn_ack
        then (handle_syn_ack m frame.conn_id, ok tt)
        else (if frame.type == frame_data
            then (handle_data m frame.conn_id frame.payload, ok tt)
            else (if frame.type == frame_fin
                then (handle_fin m frame.conn_id, ok tt)
                else (if frame.type == frame_fin_ack
                    then (remove_connection m frame.conn_id, ok tt)
                    else (if frame.type == frame_ping
                        then ((send_frame m new_pong_frame).0, ok tt)
                        else (m, ok tt))))))

unfoldable pub count_frame : ConnectionManager → Frame → ConnectionManager
count_frame m frame = record m {
  frames_received = add64 m.frames_received 1;
  bytes_payload_recv =
      if frame.type == frame_data
      then add64 m.bytes_payload_recv (length frame.payload)
      else m.bytes_payload_recv;
}

-- `HandleFrame` behind `UnmarshalFrame`.
unfoldable pub handle_parsed :
    ConnectionManager → Outcome Frame → ConnectionManager × Outcome (Unit {0})
handle_parsed m (ok frame) = dispatch (count_frame m frame) frame
handle_parsed m (err e) = (m, err e)
handle_parsed m panic = (m, panic)

unfoldable pub handle_frame : ConnectionManager → List ℕ → ConnectionManager × Outcome (Unit {0})
unfolding handle_parsed
handle_frame m bs = handle_parsed m (unmarshal_frame bs)

-- The loop over the entries that `Range` visits.
unfoldable pub close_entries : ConnectionManager → List (ℕ × ℕ) → ConnectionManager
close_entries m [] = m
close_entries m ((id, p) ∷ rest) = close_entries (close_connection m p) rest

-- `Close` of the manager. A second one panics on the closed channel.
unfoldable pub close_manager : ConnectionManager → Outcome ConnectionManager
close_manager m =
    let m' = close_entries m m.connections in
    if m'.accept_closed then panic else ok (record m' { accept_closed = true })

unfoldable pub stats : ConnectionManager → ℕ × ℕ × ℕ × ℕ × ℕ
stats m = (
  m.frames_sent, m.frames_received, m.bytes_payload_sent, m.bytes_payload_recv, m.packets_dropped,
)
