-- ===== src/Reliable/Stream/Growth.antt =====
-- What a receiver has delivered only grows.
use shadow_gre.Prelude.{
  ℕ, zero, suc, ◌+◌, ◌%◌, ◌≡◌, sym, ap, ◌∙◌, List, [], ◌∷◌, ◌++◌, append_assoc, append-nil, arith,
  length, drop, drop-append, ltb, ◌==◌, ◌&&◌, lookup, erase, if_both, option_with, Bool,
  if◌then◌else◌,
}
use shadow_gre.Wire.{has}
use shadow_gre.Reliable.Seq.{add32, seq_greater}
use shadow_gre.Reliable.Packet.{ReliablePacket, flag_data, flag_ack, flag_close}
use shadow_gre.Reliable.Rtt.{Float64}
use shadow_gre.Reliable.Receiver.{
  Receiver, send_ack, send_ack_now, send_ack_with_sack, schedule_ack, deliver, deliver_loop,
  deliver_out_of_order, buffer, process_data, max_out_of_order_buffer, ack_every_n,
}
use shadow_gre.Reliable.Sender.{process_ack}
use shadow_gre.Reliable.Stream.{ReliableStream, receive}

abbrev pub Extends : List (List ℕ) → Receiver → Type 0
Extends before r = (more : List (List ℕ)) × (r.delivered ≡ before ++ more)

deliver_loop-Extends :
    (fuel : ℕ) (before : List (List ℕ)) (r : Receiver)
    → Extends before r
    → Extends before (deliver_loop fuel r)
unfolding deliver_loop deliver
deliver_loop-Extends zero before r x = x
deliver_loop-Extends (suc fuel) before r (more, e) =
    option_with (Extends before) (lookup r.recv_next r.out_of_order) (λ _. (more, e))
      (λ payload _.
        deliver_loop-Extends fuel before
          (deliver (record r { out_of_order = erase r.recv_next r.out_of_order }) payload)
          (
            more ++ payload ∷ [],
            ap (λ l. l ++ payload ∷ []) e ∙ append_assoc before more (payload ∷ []),
          ))

schedule_ack-Extends :
    (before : List (List ℕ)) (r : Receiver) → Extends before r → Extends before (schedule_ack r)
unfolding schedule_ack send_ack_now send_ack
schedule_ack-Extends before r x =
    if_both (Extends before) (add32 r.recv_counter 1 % ack_every_n == 0) x
      (if_both (Extends before) r.pending_ack x x)

buffer-Extends :
    (before : List (List ℕ)) (r : Receiver) (seq : ℕ) (payload : List ℕ)
    → Extends before r
    → Extends before (buffer r seq payload)
unfolding buffer
buffer-Extends before r seq payload x =
    if_both (Extends before) (ltb (length r.out_of_order) max_out_of_order_buffer)
      (option_with (Extends before) (lookup seq r.out_of_order) (λ _. x) (λ _ _. x)) x

process_data-Extends :
    (before : List (List ℕ)) (r : Receiver) (seq : ℕ) (payload : List ℕ)
    → Extends before r
    → Extends before (process_data r seq payload)
unfolding process_data deliver_out_of_order deliver send_ack_with_sack send_ack_now send_ack
process_data-Extends before r seq payload (more, e) =
    if_both (Extends before) (seq == r.recv_next)
      (schedule_ack-Extends before (deliver_out_of_order (deliver r payload)) (
        deliver_loop-Extends (suc (length r.out_of_order)) before (deliver r payload) (
          more ++ payload ∷ [],
          ap (λ l. l ++ payload ∷ []) e ∙ append_assoc before more (payload ∷ []),
        )))
      (if_both (Extends before) (seq_greater seq r.recv_next)
        (buffer-Extends before r seq payload (more, e)) (more, e))

module _ (fl : Float64) where
  receive-Extends :
      (s : ReliableStream fl) (pkt : ReliablePacket) (now : ℕ)
      → Extends s.receiver.delivered (receive fl s pkt now).0.receiver
  unfolding receive deliver_out_of_order
  receive-Extends s pkt now =
      let s₁ = record s { packets_in = s.packets_in + 1 } in
      let s₂ =
        if has pkt.flags flag_ack
        then record s₁ { sender = process_ack fl s₁.sender pkt.ack pkt.sack_blocks now }
        else s₁ in
      let s₃ =
        if has pkt.flags flag_data && ltb 0 (length pkt.payload)
        then record s₂ { receiver = process_data s₂.receiver pkt.seq pkt.payload }
        else s₂ in
      let x₂ : Extends before s₂.receiver =
        if_both (λ (t : ReliableStream fl). Extends before t.receiver) (has pkt.flags flag_ack)
          start start in
      let x₃ : Extends before s₃.receiver =
        if_both (λ (t : ReliableStream fl). Extends before t.receiver)
          (has pkt.flags flag_data && ltb 0 (length pkt.payload))
          (process_data-Extends before s₂.receiver pkt.seq pkt.payload x₂) x₂ in
      if_both (λ (r : ReliableStream fl × Bool). Extends before r.0.receiver)
        (has pkt.flags flag_close)
        (deliver_loop-Extends (suc (length s₃.receiver.out_of_order)) before s₃.receiver x₃) x₃
    where
      before : List (List ℕ)
      before = s.receiver.delivered

      start : Extends before s.receiver
      start = ([], sym (append-nil before))

  -- What comes behind what had been delivered before.
  pub receive_grows :
      (s : ReliableStream fl) (pkt : ReliablePacket) (now : ℕ)
      → let s' = (receive fl s pkt now).0 in
        s'.receiver.delivered
        ≡ s.receiver.delivered ++ drop (length s.receiver.delivered) s'.receiver.delivered
  receive_grows s pkt now =
      let (more, e) = receive-Extends s pkt now in
      e
      ∙ ap (λ l. s.receiver.delivered ++ l)
          (sym (
            ap (λ l. drop (length s.receiver.delivered) l) e
            ∙ drop-append s.receiver.delivered more (length s.receiver.delivered) 0 (omega arith)))
