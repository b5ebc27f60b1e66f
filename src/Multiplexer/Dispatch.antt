-- ===== src/Multiplexer/Dispatch.antt =====
-- Which handler `HandleFrame` calls for each type of frame, and what the handlers leave alone.
use shadow_gre.Prelude.{
  inr, inl, get_or, ltb, Bool-cases, ap, ◌∙◌, ◌≡◌, refl, arith, ok, ◌<◌, ℕ, length, some, false,
  lookup, List,
}
use shadow_gre.Frame.{Frame, frame_data, frame_syn, frame_syn_ack, frame_fin}
use shadow_gre.Multiplexer.Connection.{Connection, new_connection, mark_established, deliver, shut}
use shadow_gre.Multiplexer.Manager.{
  ConnectionManager, object, set_object, store_new, remove_connection, send_frame,
}
use shadow_gre.Multiplexer.Handle.{
  announce, handle_syn, handle_syn_ack, handle_fin, handle_data, dispatch,
}
use shadow_gre.Multiplexer.Objects.{object-set_object_self}

module _ (m : ConnectionManager) (frame : Frame) where
  pub dispatch-syn : frame.type ≡ frame_syn → dispatch m frame ≡ handle_syn m frame.conn_id
  unfolding dispatch
  dispatch-syn e = simp e

  pub dispatch-syn_ack :
      frame.type ≡ frame_syn_ack → dispatch m frame ≡ (handle_syn_ack m frame.conn_id, ok tt)
  unfolding dispatch
  dispatch-syn_ack e = simp e

  pub dispatch-data :
      frame.type ≡ frame_data
      → dispatch m frame ≡ (handle_data m frame.conn_id frame.payload, ok tt)
  unfolding dispatch
  dispatch-data e = simp e

  pub dispatch-fin : frame.type ≡ frame_fin → dispatch m frame ≡ (handle_fin m frame.conn_id, ok tt)
  unfolding dispatch
  dispatch-fin e = simp e

-- The connection that a SYN makes.
abbrev pub accepted : ℕ → Connection
accepted id = mark_established (new_connection id)

pub handle_syn_stores :
    (m : ConnectionManager) (id : ℕ)
    → let m' = (handle_syn m id).0 in
      (m'.objects ≡ (store_new m id (accepted id)).objects)
      × (m'.connections ≡ (store_new m id (accepted id)).connections)
unfolding handle_syn announce send_frame
handle_syn_stores m id = ground arith

pub object_of_objects :
    (m m' : ConnectionManager) (p : ℕ) → m.objects ≡ m'.objects → object m p ≡ object m' p
unfolding object
object_of_objects m m' p e = ap (λ l. get_or l p (new_connection 0)) e

-- A data frame and a FIN for a connection that is there.
module _ (m : ConnectionManager) (id p : ℕ) (found : lookup id m.connections ≡ some p) where
  pub handle_data_stores :
      (payload : List ℕ)
      → let m' = handle_data m id payload in
        (m'.objects ≡ (set_object m p (deliver (object m p) payload)).objects)
        × (m'.connections ≡ m.connections)
  unfolding handle_data set_object
  handle_data_stores payload =
      rw (handle_data, found)
        (elim (Bool-cases (ltb 0 (deliver (object m p) payload).packets_dropped)) [
          | inl e ↦ rw e (refl, refl)
          | inr e ↦ rw e (refl, refl)
        ])

  pub object-handle_data :
      (payload : List ℕ)
      → p < length m.objects
      → object (handle_data m id payload) p ≡ deliver (object m p) payload
  object-handle_data payload h =
      object_of_objects (handle_data m id payload) (set_object m p (deliver (object m p) payload)) p
        (handle_data_stores payload).0
      ∙ object-set_object_self m p (deliver (object m p) payload) h

  pub object-handle_fin :
      p < length m.objects
      → (object m p).closed ≡ false
      → object (handle_fin m id) p ≡ shut (object m p)
  unfolding handle_fin remove_connection send_frame
  object-handle_fin h open_yet =
      object_of_objects (handle_fin m id) (set_object m p (shut (object m p))) p stores
      ∙ object-set_object_self m p (shut (object m p)) h
    where
      stores : (handle_fin m id).objects ≡ (set_object m p (shut (object m p))).objects
      stores = rw (handle_fin, found, open_yet)
