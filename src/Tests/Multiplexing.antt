-- ===== src/Tests/Multiplexing.antt =====
-- A manager with one connection, whose channel holds two bytes, and its peer.
use shadow_gre.Prelude.{
  ◌≡◌, refl, false, none, some, List, [], ◌∷◌, ◌++◌, length, arith, Option, Error, eof, ok, err,
  lookup,
}
use shadow_gre.Frame.{
  Frame, new_fin_frame, new_syn_frame, new_syn_ack_frame, new_data_frame, unmarshal_frame,
}
use shadow_gre.Multiplexer.Connection.{Connection, new_connection, read, on_established}
use shadow_gre.Multiplexer.Manager.{
  ConnectionManager, new_manager, object, set_object, send_frame, send_data, write,
  close_connection,
}
use shadow_gre.Multiplexer.Dial.{dial_begin, dial_end}
use shadow_gre.Multiplexer.Handle.{dispatch, handle_frame, handle_parsed}
use shadow_gre.Multiplexer.Bytes.{Event, arrives, reads, shuts, session, unread, session_refines}
use shadow_gre.Multiplexer.Loss.{fin_discards, repeated_syn, handle_all_data}
use shadow_gre.Multiplexer.Write.{Written, write-Written}
use shadow_gre.Multiplexer.Delivery.{hand_over, hand_over_all, write_arrives}
use shadow_gre.Multiplexer.Dispatch.{accepted}
use shadow_gre.Multiplexer.Handshake.{next_id, dial_handshake}
use shadow_gre.Multiplexer.Invariant.{IsValid}
use shadow_gre.Multiplexer.Runs.{
  Operation, frame_arrives, dials, closes, perform, perform_all, reached-IsValid,
}

abbrev connection : Connection
connection = record (new_connection 5) {
  read_ch = (1 ∷ 2 ∷ []) ∷ [];
  read_buf = [];
  closed = false;
  close_ch = false;
}

-- A tunnel that takes every frame.
abbrev takes_all : List Frame → Frame → Option Error
takes_all sent frame = none

abbrev manager : ConnectionManager
manager = record (new_manager takes_all) {
  send_func = takes_all;
  sent = [];
  objects = connection ∷ [];
  connections = (5, 0) ∷ [];
}

abbrev events : List Event
events = arrives (3 ∷ []) ∷ reads 2 false ∷ shuts ∷ arrives (4 ∷ []) ∷ []

session_refines_example :
    let (c', out, taken) = session connection events in
    out ++ unread c' ≡ unread connection ++ taken
session_refines_example = session_refines connection events

fin_discards_example :
    let c = object (dispatch manager (new_fin_frame 5)).0 0 in
    (c.read_ch ≡ (object manager 0).read_ch) × (read c 10 false ≡ (c, some (err eof)))
unfolding object new_fin_frame lookup
fin_discards_example =
    fin_discards manager (new_fin_frame 5) 0 10 false refl refl (omega arith) refl refl

repeated_syn_example :
    let m₁ = (dispatch manager (new_syn_frame 5)).0 in
    let m₂ = handle_all_data m₁ 5 ((7 ∷ []) ∷ (8 ∷ []) ∷ []) in
    (lookup 5 m₁.connections ≡ some 1)
    × (object m₁ 0 ≡ object manager 0)
    × (object m₂ 0 ≡ object manager 0)
unfolding new_syn_frame lookup
repeated_syn_example =
    repeated_syn manager (new_syn_frame 5) 0 ((7 ∷ []) ∷ (8 ∷ []) ∷ []) refl refl (omega arith)

write-Written_example : Written manager 0 (8 ∷ 9 ∷ []) 0 (write manager 0 (8 ∷ 9 ∷ []))
unfolding object
write-Written_example = write-Written manager 0 (8 ∷ 9 ∷ []) (omega arith) refl

-- The peer is a manager in the same state.
write_arrives_example :
    unread (object (hand_over_all manager (new_data_frame 5 1 (8 ∷ 9 ∷ []) ∷ [])) 0)
    ≡ unread (object manager 0) ++ (8 ∷ 9 ∷ [])
unfolding object new_manager new_connection send_data send_frame set_object write lookup
write_arrives_example =
    write_arrives manager manager 0 0 (8 ∷ 9 ∷ []) (new_data_frame 5 1 (8 ∷ 9 ∷ []) ∷ [])
      (omega arith) refl (omega arith) refl refl refl (omega arith) refl (omega arith)

dial_handshake_example :
    let a = new_manager takes_all in
    let a₁ = (dial_begin a).0 in
    let b' = hand_over manager (new_syn_frame (next_id a)) in
    let a₂ = hand_over a₁ (new_syn_ack_frame (next_id a)) in
    ((dial_begin a).1 ≡ ok (length a.objects))
    × (a₁.sent ≡ a.sent ++ new_syn_frame (next_id a) ∷ [])
    × ((dial_end a₁ (length a.objects) on_established).1 ≡ none)
    × (b'.sent ≡ manager.sent ++ new_syn_ack_frame (next_id a) ∷ [])
    × (lookup (next_id a) b'.connections ≡ some (length manager.objects))
    × (object b' (length manager.objects) ≡ accepted (next_id a))
    × ((dial_end a₂ (length a.objects) on_established).1 ≡ some (ok (length a.objects)))
unfolding new_manager
dial_handshake_example = dial_handshake (new_manager takes_all) manager refl

-- It dials, a frame that is too short arrives, and it closes the connection.
abbrev operations : List Operation
operations = dials ∷ frame_arrives (0 ∷ 0 ∷ []) ∷ closes 0 ∷ []

reached-IsValid_example : IsValid (close_connection (dial_begin (new_manager takes_all)).0 0)
unfolding perform_all perform unmarshal_frame handle_frame handle_parsed
reached-IsValid_example = reached-IsValid takes_all operations refl
