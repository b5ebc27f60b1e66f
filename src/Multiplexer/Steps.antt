-- ===== src/Multiplexer/Steps.antt =====
-- The invariant under each operation of the manager.
use shadow_gre.Reliable.Seq.{add32}
use shadow_gre.Prelude.{
  from_ok, leb, ◌==◌, All-lookup, if_both, ℕ, zero, suc, ◌+◌, ◌≡◌, refl, sym, ◌∙◌, inl, inr, Bool,
  false, none, some, List, [], ◌∷◌, arith, length, set, Option-cases, Bool-cases, Option, Error,
  take, drop, Outcome, ok, err, panic, lookup, erase,
}
use mathlib.Core.Path.{subst, subst₂}
use shadow_gre.Frame.{
  new_data_frame, new_syn_frame, new_pong_frame, Frame, frame_syn, frame_syn_ack, frame_data,
  frame_fin, frame_fin_ack, frame_ping, unmarshal_frame,
}
use shadow_gre.Multiplexer.Connection.{
  Connection, new_connection, mark_established, Wakeup, wait_established, buffer_read, await_data,
  read, deliver, shut,
}
use shadow_gre.Multiplexer.Manager.{
  ConnectionManager, object, set_object, store_new, remove_connection, send_frame, send_data,
  write_loop, write, close_connection, max_payload_size,
}
use shadow_gre.Multiplexer.Dial.{accept_from, dial_answer, dial_begin, dial_end, accept}
use shadow_gre.Multiplexer.Handle.{
  handle_parsed, handle_syn, handle_syn_ack, handle_data, handle_fin, dispatch, count_frame,
  handle_frame, close_entries, close_manager,
}
use shadow_gre.Multiplexer.Dispatch.{accepted, handle_syn_stores, handle_data_stores}
use shadow_gre.Multiplexer.Invariant.{
  Entry, at, Gate-at, Valid, IsValid, Valid-store, Valid-erase, Valid-set, Valid-shut,
}

-- What a connection keeps where it is not closed.
abbrev pub Keeps : Connection → Connection → Type 0
Keeps c c' = (c'.id ≡ c.id) × (c'.closed ≡ c.closed) × (c'.close_ch ≡ c.close_ch)

deliver-Keeps : (c : Connection) (payload : List ℕ) → Keeps c (deliver c payload)
unfolding deliver
deliver-Keeps c payload = ground arith

buffer_read-Keeps : (c : Connection) (size : ℕ) → Keeps c (buffer_read c size).0
unfolding buffer_read
buffer_read-Keeps c size = ground arith

await_data-Keeps :
    (c : Connection) (ch : List (List ℕ)) (size : ℕ) (b : Bool) → Keeps c (await_data c ch size b).0
unfolding await_data buffer_read
await_data-Keeps c [] size b = (refl, refl, refl)
await_data-Keeps c (x ∷ xs) size b = ground arith

pub read-Keeps : (c : Connection) (size : ℕ) (b : Bool) → Keeps c (read c size b).0
unfolding read
read-Keeps c size b = ground (arith, buffer_read-Keeps c size, await_data-Keeps c c.read_ch size b)

module _ (m : ConnectionManager) (v : IsValid m) where
  pub set_object-IsValid :
      (p : ℕ) (c : Connection) → Keeps (object m p) c → IsValid (set_object m p c)
  unfolding set_object object
  set_object-IsValid p c (i, s, g) =
      Valid-set m.objects m.connections p c v i s (g ∙ Gate-at m.objects p v.gates ∙ sym s)

  pub remove_connection-IsValid : (id : ℕ) → IsValid (remove_connection m id)
  unfolding remove_connection
  remove_connection-IsValid id = Valid-erase m.objects m.connections id v

  pub send_frame-IsValid : (f : Frame) → IsValid (send_frame m f).0
  unfolding send_frame
  send_frame-IsValid f = record { entries = v.entries; gates = v.gates }

  pub store_new-IsValid :
      (id : ℕ) (c : Connection)
      → c.id ≡ id
      → c.closed ≡ false
      → c.close_ch ≡ false
      → IsValid (store_new m id c)
  unfolding store_new
  store_new-IsValid id c = Valid-store m.objects m.connections id c v

  pub close_connection-IsValid : (p : ℕ) → IsValid (close_connection m p)
  unfolding close_connection set_object send_frame remove_connection object
  close_connection-IsValid p = elim (Bool-cases (object m p).closed) [
    | inl e ↦ rw e v
    | inr e ↦ rw e (
        let w = Valid-shut m.objects m.connections p v in
        record { entries = w.entries; gates = w.gates })
  ]

pub send_data-IsValid :
    (m : ConnectionManager) (p : ℕ) (chunk : List ℕ) → IsValid m → IsValid (send_data m p chunk).0
unfolding send_data
send_data-IsValid m p chunk v =
    let c = object m p in
    let c' = record c { seq = add32 c.seq 1 } in
    send_frame-IsValid (set_object m p c') (set_object-IsValid m v p c' (refl, refl, refl))
      (new_data_frame c.id (add32 c.seq 1) chunk)

pub write_loop-IsValid :
    (fuel : ℕ) (m : ConnectionManager) (p : ℕ) (rest : List ℕ) (written : ℕ)
    → IsValid m
    → IsValid (write_loop fuel m p rest written).0
unfolding write_loop
write_loop-IsValid zero m p rest written v = v
write_loop-IsValid (suc fuel) m p [] written v = v
write_loop-IsValid (suc fuel) m p (b ∷ bs) written v =
    elim (Option-cases (send_data m p (take max_payload_size (b ∷ bs))).1) [
      | inl e ↦
          rw (write_loop, e)
            (write_loop-IsValid fuel (send_data m p (take max_payload_size (b ∷ bs))).0 p
              (drop max_payload_size (b ∷ bs)) (written + length (take max_payload_size (b ∷ bs)))
              (send_data-IsValid m p (take max_payload_size (b ∷ bs)) v))
      | inr (x, e) ↦ rw (write_loop, e) (send_data-IsValid m p (take max_payload_size (b ∷ bs)) v)
    ]

pub write-IsValid :
    (m : ConnectionManager) (p : ℕ) (payload : List ℕ) → IsValid m → IsValid (write m p payload).0
unfolding write
write-IsValid m p payload v = if_both Fine (object m p).closed v (
    if_both Fine (leb (length payload) max_payload_size) whole
      (write_loop-IsValid (length payload) m p payload 0 v))
  where
    Fine : ConnectionManager × ℕ × Option Error → Type 0
    Fine r = IsValid r.0

    whole : Fine (elim (send_data m p payload).1 [
      | some e ↦ ((send_data m p payload).0, 0, some e)
      | none ↦ ((send_data m p payload).0, length payload, none)
    ])
    whole = elim (Option-cases (send_data m p payload).1) [
      | inl e ↦ rw e (send_data-IsValid m p payload v)
      | inr (x, e) ↦ rw e (send_data-IsValid m p payload v)
    ]

module _ (m : ConnectionManager) (v : IsValid m) where
  pub handle_syn-IsValid : (id : ℕ) → IsValid (handle_syn m id).0
  unfolding mark_established new_connection
  handle_syn-IsValid id =
      let (objects, connections) = handle_syn_stores m id in
      subst₂ Valid (sym objects) (sym connections)
        (store_new-IsValid m v id (accepted id) refl refl refl)

  pub handle_syn_ack-IsValid : (id : ℕ) → IsValid (handle_syn_ack m id)
  unfolding handle_syn_ack mark_established
  handle_syn_ack-IsValid id = elim (Option-cases (lookup id m.connections)) [
    | inl e ↦ rw (handle_syn_ack, e) v
    | inr (p, e) ↦
        rw (handle_syn_ack, e)
          (set_object-IsValid m v p (mark_established (object m p)) (refl, refl, refl))
  ]

  pub handle_data-IsValid : (id : ℕ) (payload : List ℕ) → IsValid (handle_data m id payload)
  unfolding handle_data
  handle_data-IsValid id payload = elim (Option-cases (lookup id m.connections)) [
    | inl e ↦ rw (handle_data, e) v
    | inr (p, e) ↦
        let (objects, connections) = handle_data_stores m id p e payload in
        let stored =
          set_object-IsValid m v p (deliver (object m p) payload)
            (deliver-Keeps (object m p) payload) in
        subst₂ Valid (sym objects) (sym connections) (unfold set_object in stored)
  ]

  pub handle_fin-IsValid : (id : ℕ) → IsValid (handle_fin m id)
  unfolding handle_fin set_object send_frame remove_connection object
  handle_fin-IsValid id = elim (Option-cases (lookup id m.connections)) [
    | inl e ↦ rw (handle_fin, e) v
    | inr (p, e) ↦ elim (Bool-cases (object m p).closed) [
      | inl gone ↦ rw (handle_fin, e, gone) v
      | inr open_yet ↦
          let (_, same, _) = All-lookup (Entry m.objects) id m.connections v.entries e in
          let w = Valid-shut m.objects m.connections p v in
          rw (handle_fin, e, open_yet)
            (subst (λ k. Valid (set m.objects p (shut (at m.objects p))) (erase k m.connections))
              same w)
    ]
  ]

  pub dispatch-IsValid : (frame : Frame) → IsValid (dispatch m frame).0
  unfolding dispatch
  dispatch-IsValid frame =
      if_both Fine (frame.type == frame_syn) (handle_syn-IsValid frame.conn_id) (
        if_both Fine (frame.type == frame_syn_ack) (handle_syn_ack-IsValid frame.conn_id) (
          if_both Fine (frame.type == frame_data) (handle_data-IsValid frame.conn_id frame.payload)
            (if_both Fine (frame.type == frame_fin) (handle_fin-IsValid frame.conn_id) (
              if_both Fine (frame.type == frame_fin_ack)
                (remove_connection-IsValid m v frame.conn_id)
                (if_both Fine (frame.type == frame_ping) (send_frame-IsValid m v new_pong_frame)
                  v)))))
    where
      Fine : ConnectionManager × Outcome (Unit {0}) → Type 0
      Fine r = IsValid r.0

  pub dial_begin-IsValid : IsValid (dial_begin m).0
  unfolding dial_begin new_connection
  dial_begin-IsValid =
      let id = add32 m.conn_id_seq 1 in
      let stored =
        store_new-IsValid (record m { conn_id_seq = id })
          (record { entries = v.entries; gates = v.gates }) id (new_connection id) refl refl refl in
      let m₁ = store_new (record m { conn_id_seq = id }) id (new_connection id) in
      let sent = send_frame-IsValid m₁ stored (new_syn_frame id) in
      elim (Option-cases (send_frame m₁ (new_syn_frame id)).1) [
        | inl e ↦ rw (dial_begin, e) sent
        | inr (x, e) ↦
            rw (dial_begin, e)
              (remove_connection-IsValid (send_frame m₁ (new_syn_frame id)).0 sent id)
      ]

  pub dial_answer-IsValid :
      (p : ℕ) (o : Option (Outcome (Unit {0}))) → IsValid (dial_answer m p o).0
  unfolding dial_answer
  dial_answer-IsValid p none = v
  dial_answer-IsValid p (some (ok _)) = v
  dial_answer-IsValid p (some (err e)) = remove_connection-IsValid m v (object m p).id
  dial_answer-IsValid p (some panic) = v

  pub dial_end-IsValid : (p : ℕ) (w : Wakeup) → IsValid (dial_end m p w).0
  unfolding dial_end
  dial_end-IsValid p w = dial_answer-IsValid p (wait_established (object m p) w)

  pub accept_from-IsValid : (l : List ℕ) → IsValid (accept_from m l).0
  unfolding accept_from
  accept_from-IsValid [] = v
  accept_from-IsValid (p ∷ ps) = record { entries = v.entries; gates = v.gates }

  pub accept-IsValid : IsValid (accept m).0
  unfolding accept
  accept-IsValid = accept_from-IsValid m.accept_ch

pub handle_parsed-IsValid :
    (m : ConnectionManager) (r : Outcome Frame) → IsValid m → IsValid (handle_parsed m r).0
unfolding handle_parsed count_frame
handle_parsed-IsValid m (ok frame) v =
    dispatch-IsValid (count_frame m frame) (record { entries = v.entries; gates = v.gates }) frame
handle_parsed-IsValid m (err e) v = v
handle_parsed-IsValid m panic v = v

pub handle_frame-IsValid :
    (m : ConnectionManager) (bs : List ℕ) → IsValid m → IsValid (handle_frame m bs).0
unfolding handle_frame
handle_frame-IsValid m bs v = handle_parsed-IsValid m (unmarshal_frame bs) v

pub close_entries-IsValid :
    (m : ConnectionManager) (es : List (ℕ × ℕ)) → IsValid m → IsValid (close_entries m es)
unfolding close_entries
close_entries-IsValid m [] v = v
close_entries-IsValid m ((id, p) ∷ rest) v =
    close_entries-IsValid (close_connection m p) rest (close_connection-IsValid m v p)

pub close_manager-IsValid :
    (m : ConnectionManager) {m' : ConnectionManager}
    → close_manager m ≡ ok m'
    → IsValid m
    → IsValid m'
unfolding close_manager
close_manager-IsValid m {m'} e v = elim (Bool-cases (close_entries m m.connections).accept_closed) [
  | inl gone ↦ absurd (no_state (rw gone at e))
  | inr open_yet ↦
      subst IsValid (from_ok (rw open_yet at e))
        (record { entries = closed.entries; gates = closed.gates })
]
  where
    no_state : panic ≡ ok m' → ⊥
    no_state q = cc

    closed : IsValid (close_entries m m.connections)
    closed = close_entries-IsValid m m.connections v
