-- ===== src/Reliable/Receiver/Drain.antt =====
-- The loop of `deliverOutOfOrder` (pkg/tunnel/reliable.go) on its fuel.
use shadow_gre.Prelude.{
  ℕ, zero, suc, ◌<◌, ◌≡◌, inl, inr, none, arith, length, Option-cases, lookup, erase,
  length-erase-lt,
}
use shadow_gre.Reliable.Receiver.{Receiver, deliver, deliver_loop, deliver_out_of_order}

-- With a round for each entry and one more, the next sequence number is missing at the end.
deliver_loop_drains :
    (fuel : ℕ) (r : Receiver)
    → length r.out_of_order < fuel
    → let r' = deliver_loop fuel r in lookup r'.recv_next r'.out_of_order ≡ none
unfolding deliver_loop deliver
deliver_loop_drains zero r lt = absurd (omega arith)
deliver_loop_drains (suc fuel) r lt = elim (Option-cases (lookup r.recv_next r.out_of_order)) [
  | inl e ↦ rw (e, deliver_loop) e
  | inr (payload, e) ↦
      rw (e, deliver_loop)
        (deliver_loop_drains fuel
          (deliver (record r { out_of_order = erase r.recv_next r.out_of_order }) payload)
          (omega (arith, length-erase-lt r.recv_next r.out_of_order payload e)))
]

-- `deliverOutOfOrder` stops only where the packet that is expected next is not in the buffer, from
-- any state: the rounds that the model gives its loop are enough.
pub deliver_out_of_order_drains :
    (r : Receiver) → let r' = deliver_out_of_order r in lookup r'.recv_next r'.out_of_order ≡ none
unfolding deliver_out_of_order
deliver_out_of_order_drains r = deliver_loop_drains _ r (omega arith)
