-- ===== src/Multiplexer/Handshake.antt =====
-- `Dial` at one end, and the SYN and the SYN-ACK between the two.
use shadow_gre.Prelude.{
  false, length-append, get_or-append_last, true, ℕ, ◌≡◌, refl, ap, ◌∙◌, none, some, [], ◌∷◌, ◌++◌,
  arith, length, ok, lookup,
}
use shadow_gre.Reliable.Seq.{add32}
use shadow_gre.Frame.{new_syn_frame, new_syn_ack_frame}
use shadow_gre.Multiplexer.Connection.{
  Connection, new_connection, mark_established, on_established, wait_established,
}
use shadow_gre.Multiplexer.Manager.{ConnectionManager, object, set_object, store_new, send_frame}
use shadow_gre.Multiplexer.Dial.{dial_begin, dial_answer, dial_end}
use shadow_gre.Multiplexer.Handle.{announce, count_frame, handle_syn, handle_syn_ack}
use shadow_gre.Multiplexer.Objects.{object-set_object_self, object-store_new_last, lookup-store_new}
use shadow_gre.Multiplexer.Dispatch.{
  accepted, dispatch-syn, dispatch-syn_ack, handle_syn_stores, object_of_objects,
}
use shadow_gre.Multiplexer.Delivery.{hand_over, hand_over-dispatch}

-- The identifier and the pointer that the next `Dial` takes.
abbrev pub next_id : ConnectionManager → ℕ
next_id m = add32 m.conn_id_seq 1

sent-handle_syn :
    (m : ConnectionManager) (id : ℕ)
    → (handle_syn m id).0.sent ≡ m.sent ++ new_syn_ack_frame id ∷ []
unfolding handle_syn announce send_frame store_new
sent-handle_syn m id = ground arith

handle_syn_ack-known :
    (m : ConnectionManager) (id p : ℕ)
    → lookup id m.connections ≡ some p
    → handle_syn_ack m id ≡ set_object m p (mark_established (object m p))
unfolding handle_syn_ack
handle_syn_ack-known m id p found = rw (handle_syn_ack, found)

-- `Dial` comes back from its wait for the channel when that is closed, and not before.
dial_end_established :
    (m : ConnectionManager) (p : ℕ)
    → ((object m p).established ≡ true → (dial_end m p on_established).1 ≡ some (ok p))
      × ((object m p).established ≡ false → (dial_end m p on_established).1 ≡ none)
unfolding dial_end dial_answer wait_established
dial_end_established m p = ((λ e. rw e refl), λ e. rw e refl)

-- The dialling end.
module _ (a : ConnectionManager) where
  id : ℕ
  id = next_id a

  p : ℕ
  p = length a.objects

  stored : ConnectionManager
  stored = store_new (record a { conn_id_seq = next_id a }) (next_id a) (new_connection (next_id a))

  waiting : ConnectionManager
  waiting = (send_frame stored (new_syn_frame (next_id a))).0

  begun :
      a.send_func a.sent (new_syn_frame (next_id a)) ≡ none
      → dial_begin a ≡ (waiting, ok (length a.objects))
  unfolding dial_begin send_frame store_new stored waiting
  begun sent = rw (dial_begin, sent)

  dialled : object waiting (length a.objects) ≡ new_connection (next_id a)
  unfolding waiting stored send_frame object store_new
  dialled = get_or-append_last a.objects (new_connection (next_id a)) (new_connection 0)

  known : lookup (next_id a) waiting.connections ≡ some (length a.objects)
  unfolding waiting stored send_frame store_new
  known = lookup-store_new a (next_id a) (new_connection (next_id a))

  answered :
      hand_over waiting (new_syn_ack_frame (next_id a))
      ≡ set_object
          (count_frame waiting (new_syn_ack_frame (next_id a)))
          (length a.objects)
          (mark_established (object waiting (length a.objects)))
  unfolding new_syn_ack_frame count_frame object
  answered =
      let f = new_syn_ack_frame (next_id a) in
      hand_over-dispatch waiting f (omega arith) (omega arith) (omega arith)
      ∙ ap (λ t. t.0) (dispatch-syn_ack (count_frame waiting f) f refl)
      ∙ handle_syn_ack-known (count_frame waiting f) (next_id a) (length a.objects) known

  established :
      (object (hand_over waiting (new_syn_ack_frame (next_id a))) (length a.objects)).established
      ≡ true
  unfolding mark_established waiting stored send_frame store_new count_frame
  established =
      let counted = count_frame waiting (new_syn_ack_frame (next_id a)) in
      let c = mark_established (object waiting (length a.objects)) in
      ap (λ t. (object t (length a.objects)).established) answered
      ∙ ap (λ (d : Connection). d.established)
          (object-set_object_self counted (length a.objects) c
            (omega (arith, length-append a.objects (new_connection (next_id a) ∷ []))))

-- The handshake. Where `sendFunc` returns no error for the SYN, `Dial` sends it and waits; a peer
-- that gets it answers with the SYN-ACK and has an established connection of the same identifier;
-- and `Dial` returns its connection when it has got the answer, and cannot return it before.
pub dial_handshake :
    (a b : ConnectionManager)
    → a.send_func a.sent (new_syn_frame (next_id a)) ≡ none
    → let id = next_id a in
      let p = length a.objects in
      let a₁ = (dial_begin a).0 in
      let b' = hand_over b (new_syn_frame id) in
      let a₂ = hand_over a₁ (new_syn_ack_frame id) in
      ((dial_begin a).1 ≡ ok p)
      × (a₁.sent ≡ a.sent ++ new_syn_frame id ∷ [])
      × ((dial_end a₁ p on_established).1 ≡ none)
      × (b'.sent ≡ b.sent ++ new_syn_ack_frame id ∷ [])
      × (lookup id b'.connections ≡ some (length b.objects))
      × (object b' (length b.objects) ≡ accepted id)
      × ((dial_end a₂ p on_established).1 ≡ some (ok p))
unfolding count_frame new_syn_frame
dial_handshake a b sent = (
  ap (λ r. r.1) (begun a sent),
  ap (λ r. r.0.sent) (begun a sent) ∙ syn_sent,
  not_yet,
  ap (λ t. t.sent) answers ∙ sent-handle_syn counted id',
  ap (λ t. lookup id' t.connections) answers
      ∙ ap (λ t. lookup id' t) (handle_syn_stores counted id').1
      ∙ lookup-store_new counted id' (accepted id'),
  ap (λ t. object t (length b.objects)) answers
      ∙ object_of_objects (handle_syn counted id').0 (store_new counted id' (accepted id'))
          (length b.objects) (handle_syn_stores counted id').0
      ∙ object-store_new_last counted id' (accepted id'),
  returns,
)
  where
    id' : ℕ
    id' = next_id a

    counted : ConnectionManager
    counted = count_frame b (new_syn_frame (next_id a))

    answers : hand_over b (new_syn_frame (next_id a)) ≡ (handle_syn counted (next_id a)).0
    answers =
        hand_over-dispatch b (new_syn_frame id') (omega arith) (omega arith) (omega arith)
        ∙ ap (λ r. r.0) (dispatch-syn counted (new_syn_frame id') refl)

    syn_sent : (waiting a).sent ≡ a.sent ++ new_syn_frame (next_id a) ∷ []
    syn_sent = unfold waiting stored send_frame store_new in refl

    not_yet : (dial_end (dial_begin a).0 (length a.objects) on_established).1 ≡ none
    not_yet = (dial_end_established (dial_begin a).0 (length a.objects)).1 (
        ap (λ r. (object r.0 (length a.objects)).established) (begun a sent)
        ∙ ap (λ (d : Connection). d.established) (dialled a)
        ∙ unfold new_connection in refl)

    returns :
        (dial_end
          (hand_over (dial_begin a).0 (new_syn_ack_frame (next_id a)))
          (length a.objects)
          on_established).1
        ≡ some (ok (length a.objects))
    returns =
        (dial_end_established (hand_over (dial_begin a).0 (new_syn_ack_frame id'))
            (length a.objects)).0
          (ap (λ r. (object (hand_over r.0 (new_syn_ack_frame id')) (length a.objects)).established)
              (begun a sent)
            ∙ established a)
