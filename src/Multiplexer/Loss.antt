-- ===== src/Multiplexer/Loss.antt =====
-- Where the multiplexer loses what it has received.
use shadow_gre.Prelude.{
  ℕ, suc, ◌<◌, ◌≡◌, refl, sym, ◌∙◌, Bool, true, false, some, List, [], ◌∷◌, arith, length, Outcome,
  err, eof, lookup,
}
use mathlib.Core.Path.{subst}
use shadow_gre.Frame.{Frame, frame_syn, frame_fin}
use shadow_gre.Multiplexer.Connection.{
  Connection, buffer_read, drain_loop, await_data, read, deliver, shut,
}
use shadow_gre.Multiplexer.Manager.{ConnectionManager, object, set_object, store_new}
use shadow_gre.Multiplexer.Handle.{handle_data, dispatch}
use shadow_gre.Multiplexer.Dispatch.{
  accepted, dispatch-syn, dispatch-fin, handle_syn_stores, object_of_objects, handle_data_stores,
  object-handle_fin,
}
use shadow_gre.Multiplexer.Objects.{object-set_object_other, object-store_new_old, lookup-store_new}

-- A closed connection whose buffer is empty reads as ended, whatever its channel holds.
read_closed :
    (c : Connection) (size : ℕ) (close_first : Bool)
    → c.closed ≡ true
    → c.read_buf ≡ []
    → read c size close_first ≡ (c, some (err eof))
unfolding read
read_closed c size close_first gone empty = simp (empty, gone)

-- The defect of a FIN. The data that has arrived before it and waits in the channel of an open
-- connection stays there: once the buffer is empty, `Read` says that the stream has ended, whatever
-- the channel holds and however often it is called.
pub fin_discards :
    (m : ConnectionManager) (frame : Frame) (p size : ℕ) (close_first : Bool)
    → frame.type ≡ frame_fin
    → lookup frame.conn_id m.connections ≡ some p
    → p < length m.objects
    → (object m p).closed ≡ false
    → (object m p).read_buf ≡ []
    → let c = object (dispatch m frame).0 p in
      (c.read_ch ≡ (object m p).read_ch) × (read c size close_first ≡ (c, some (err eof)))
fin_discards m frame p size close_first is_fin found alive open_yet empty = rw after_fin (
  unfold shut in refl,
  read_closed (shut (object m p)) size close_first (unfold shut in refl) (unfold shut in empty),
)
  where
    after_fin : object (dispatch m frame).0 p ≡ shut (object m p)
    after_fin =
        rw (dispatch-fin m frame is_fin) (object-handle_fin m frame.conn_id p found alive open_yet)

-- The defect of an empty `Write`. The empty frame that it sends ends the peer's stream for its
-- reader, though the connection is open: a `Read` of at least one byte that finds nothing else
-- returns `io.EOF`.
pub empty_write_ends_read :
    (c : Connection) (size : ℕ) (close_first : Bool)
    → c.closed ≡ false
    → c.close_ch ≡ false
    → c.read_buf ≡ []
    → c.read_ch ≡ []
    → let c' = deliver c [] in
      (c'.closed ≡ false) × ((read c' (suc size) close_first).1 ≡ some (err eof))
unfolding deliver read await_data buffer_read drain_loop
empty_write_ends_read c size close_first open_yet gate buf ch =
    (simp (open_yet, ch), simp (open_yet, gate, buf, ch) (ground arith))

-- The data frames of these payloads, one after another.
pub handle_all_data : ConnectionManager → ℕ → List (List ℕ) → ConnectionManager
handle_all_data m id [] = m
handle_all_data m id (payload ∷ payloads) = handle_all_data (handle_data m id payload) id payloads

-- Data goes to the connection of its identifier, and to no other.
other_unfed :
    (m : ConnectionManager) (id p q : ℕ) (payloads : List (List ℕ))
    → lookup id m.connections ≡ some q
    → ¬ (q ≡ p)
    → object (handle_all_data m id payloads) p ≡ object m p
unfolding handle_all_data
other_unfed m id p q [] found other = refl
other_unfed m id p q (payload ∷ payloads) found other =
    let new = deliver (object m q) payload in
    let (stored, same) = handle_data_stores m id q found payload in
    other_unfed (handle_data m id payload) id p q payloads
      (subst (λ (cs : List (ℕ × ℕ)). lookup id cs ≡ some q) (sym same) found) other
    ∙ object_of_objects (handle_data m id payload) (set_object m q new) p stored
    ∙ object-set_object_other m q p new other

-- The defect of a SYN. One that the carrier repeats replaces a live connection: its identifier then
-- means a new connection. The old one stays as it was, open if it was open, and however many data
-- frames of the identifier follow the SYN, none of them reaches it.
pub repeated_syn :
    (m : ConnectionManager) (frame : Frame) (p : ℕ) (payloads : List (List ℕ))
    → frame.type ≡ frame_syn
    → lookup frame.conn_id m.connections ≡ some p
    → p < length m.objects
    → let m₁ = (dispatch m frame).0 in
      let m₂ = handle_all_data m₁ frame.conn_id payloads in
      (lookup frame.conn_id m₁.connections ≡ some (length m.objects))
      × (object m₁ p ≡ object m p)
      × (object m₂ p ≡ object m p)
repeated_syn m frame p payloads is_syn found alive = (now, kept, left_alone ∙ kept)
  where
    m₁ : ConnectionManager
    m₁ = (dispatch m frame).0

    stored : ConnectionManager
    stored = store_new m frame.conn_id (accepted frame.conn_id)

    stores : (m₁.objects ≡ stored.objects) × (m₁.connections ≡ stored.connections)
    stores =
        subst
          (λ (r : ConnectionManager × Outcome (Unit {0})).
            (r.0.objects ≡ stored.objects) × (r.0.connections ≡ stored.connections))
          (sym (dispatch-syn m frame is_syn)) (handle_syn_stores m frame.conn_id)

    now : lookup frame.conn_id m₁.connections ≡ some (length m.objects)
    now = rw stores.1 (lookup-store_new m frame.conn_id (accepted frame.conn_id))

    kept : object m₁ p ≡ object m p
    kept =
        object_of_objects m₁ stored p stores.0
        ∙ object-store_new_old m frame.conn_id p (accepted frame.conn_id) alive

    left_alone : object (handle_all_data m₁ frame.conn_id payloads) p ≡ object m₁ p
    left_alone = other_unfed m₁ frame.conn_id p (length m.objects) payloads now (λ e. omega arith)
