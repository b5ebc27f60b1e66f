-- ===== src/Tests/Receiving.antt =====
-- A receiver that gets the second packet, the third, the first, and the second again.
use shadow_gre.Prelude.{
  lookup, insert, erase, zero, suc, ◌≤◌, ◌<◌, ◌≡◌, refl, none, inl, inr, List, [], ◌∷◌, ℕ, arith,
  length,
}
use shadow_gre.Reliable.Receiver.{
  Receiver, new_receiver, buffer, with_sack, send_ack_with_sack, send_ack, send_ack_now, deliver,
  deliver_loop, deliver_out_of_order, schedule_ack, process_data,
}
use shadow_gre.Reliable.Seq.{seq_greater}
use shadow_gre.Reliable.Sack.{build_sack_blocks, sort_seqs, insert_seq, blocks_of, blocks_loop}
use shadow_gre.Reliable.Receiver.Drain.{deliver_out_of_order_drains}
use shadow_gre.Reliable.Receiver.Order.{first}
use shadow_gre.Reliable.Receiver.Run.{run, InWindow, In, run-prefix, run_complete}

abbrev stream : ℕ → List ℕ
stream i = i ∷ []

abbrev arrivals : List ℕ
arrivals = 1 ∷ 2 ∷ 0 ∷ 1 ∷ []

arrivals-InWindow : InWindow stream (new_receiver 5) arrivals
unfolding new_receiver process_data seq_greater buffer lookup insert erase build_sack_blocks
    sort_seqs insert_seq blocks_of blocks_loop with_sack send_ack_with_sack send_ack send_ack_now
    deliver deliver_loop deliver_out_of_order schedule_ack
arrivals-InWindow = (
  omega arith,
  omega arith,
  (omega arith, omega arith, (omega arith, omega arith, (omega arith, omega arith, tt))),
)

run-prefix_example :
    let out = (run stream (new_receiver 5) arrivals).delivered in out ≡ first stream (length out)
run-prefix_example = run-prefix stream 5 arrivals arrivals-InWindow

arrivals_all : (j : ℕ) → j < 3 → In j arrivals
arrivals_all zero lt = inr (inr (inl refl))
arrivals_all (suc zero) lt = inl refl
arrivals_all (suc (suc zero)) lt = inr (inl refl)
arrivals_all (suc (suc (suc j))) lt = absurd (omega arith)

run_complete_example : 3 ≤ length (run stream (new_receiver 5) arrivals).delivered
run_complete_example = run_complete stream 5 arrivals 3 arrivals-InWindow (omega arith) arrivals_all

-- It holds the packets 2, 0 and 1, which is one run, and the packet 4.
abbrev holding : Receiver
holding = record (new_receiver 5) {
  out_of_order = (2, 20 ∷ []) ∷ (0, 21 ∷ []) ∷ (4, 22 ∷ []) ∷ (1, 23 ∷ []) ∷ [];
}

deliver_out_of_order_drains_example :
    let r' = deliver_out_of_order holding in lookup r'.recv_next r'.out_of_order ≡ none
deliver_out_of_order_drains_example = deliver_out_of_order_drains holding
