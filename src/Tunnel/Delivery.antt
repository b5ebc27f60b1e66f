-- ===== src/Tunnel/Delivery.antt =====
-- The data of a stream of the client, from its handler to the TCP connection.
use shadow_gre.Prelude.{
  ℕ, ◌≡◌, refl, sym, ap, ◌∙◌, true, false, Option, none, some, Error, List, [], ◌∷◌, ◌++◌,
  append_assoc, append-nil, map, map-append, length, ltb, All, if_both, if_with, option_with,
}
use shadow_gre.Tunnel.Stream.{write_channel_size}
use shadow_gre.Tunnel.Client.{
  StreamConn, new_stream_conn, signal_close, close_conn, queue_data, server_closes_conn, count_in,
  write_conn, drain_conn, drain_and_leave, write_piece, ClientStep, data_queued, server_closed_it,
  signalled, client_closes_it, piece_written, writer_leaves, ClientReach, starts, then_steps,
}

abbrev pub pieces : StreamConn → List (List ℕ)
pieces s = map (λ w. w.0) s.writes

-- No call of `Write` has failed.
abbrev pub AllWritten : StreamConn → Type 0
AllWritten s = All (λ (w : List ℕ × Option Error). w.1 ≡ none) s.writes

record Delivering (s : StreamConn) : Type 0 where
  account : s.accepted ≡ pieces s ++ s.write_ch
  done_closed : s.writer_done ≡ true → s.closed ≡ true
  done_empty : s.writer_done ≡ true → AllWritten s → s.write_ch ≡ []

-- What `drainWriteCh` makes of the pieces `xs`.
abbrev pub Drains : StreamConn → List (List ℕ) → StreamConn → Type 0
Drains s xs t =
    (pieces t ++ t.write_ch ≡ pieces s ++ xs)
    × (AllWritten t → t.write_ch ≡ [])
    × (t.accepted ≡ s.accepted)
    × (t.closed ≡ s.closed)

last-All {ℓ κ} :
    {A : Type ℓ} (P : A → Type κ) (items : List A) (last : A) → All P (items ++ last ∷ []) → P last
last-All P [] last (h, _) = h
last-All P (item ∷ items) last (_, h) = last-All P items last h

pub drain_conn-Drains : (s : StreamConn) (xs : List (List ℕ)) → Drains s xs (drain_conn s xs)
unfolding drain_conn write_conn count_in
drain_conn-Drains s [] = (refl, (λ _. refl), refl, refl)
drain_conn-Drains s (x ∷ xs) =
    option_with (Drains s (x ∷ xs)) (s.conn s.writes x).1
      (λ _.
        let (bytes, empty, accepted, closed) =
          drain_conn-Drains (count_in (write_conn s x) (length x)) xs in
        (bytes ∙ simp (map-append, append_assoc), empty, accepted, closed))
      (λ e failed. (
        simp (map-append, append_assoc),
        (λ all.
            elim (no_failure e failed (last-All _ s.writes (x, (s.conn s.writes x).1) all)) [ ]),
        refl,
        refl,
      ))
  where
    no_failure : (e : Error) → (s.conn s.writes x).1 ≡ some e → ¬ ((s.conn s.writes x).1 ≡ none)
    no_failure e failed fine = cc

-- `writeLoop` leaves behind the drain.
drain_and_leave-Delivering :
    (s : StreamConn) → s.accepted ≡ pieces s ++ s.write_ch → Delivering (drain_and_leave s)
unfolding drain_and_leave
drain_and_leave-Delivering s account =
    let (bytes, empty, accepted, closed) =
      drain_conn-Drains (record s { closed = true }) s.write_ch in
    record {
      account = accepted ∙ account ∙ sym bytes;
      done_closed = λ _. closed;
      done_empty = λ _. empty;
    }

close_conn-Delivering : (s : StreamConn) → Delivering s → Delivering (close_conn s)
unfolding close_conn signal_close
close_conn-Delivering s d = record {
  account = d.account;
  done_closed = λ _. refl;
  done_empty = d.done_empty;
}

queue_data-Delivering :
    (s : StreamConn) (payload : List ℕ) → Delivering s → Delivering (queue_data s payload)
unfolding queue_data
queue_data-Delivering s payload d =
    if_with Delivering s.closed (λ _. d)
      (λ open_yet.
        if_both Delivering (ltb (length s.write_ch) write_channel_size)
          (record {
            account = ap (λ l. l ++ payload ∷ []) d.account ∙ simp append_assoc;
            done_closed = d.done_closed;
            done_empty = λ done. elim (still_open open_yet (d.done_closed done)) [ ];
          })
          (close_conn-Delivering s d))
  where
    still_open : s.closed ≡ false → ¬ (s.closed ≡ true)
    still_open e f = cc

write_piece-Delivering :
    (s : StreamConn) (payload : List ℕ) (rest : List (List ℕ))
    → s.writer_done ≡ false
    → s.write_ch ≡ payload ∷ rest
    → Delivering s
    → Delivering (write_piece s payload rest)
unfolding write_piece write_conn count_in
write_piece-Delivering s payload rest runs full d =
    option_with Delivering (s.conn s.writes payload).1
      (λ _. record {
        account = account;
        done_closed = d.done_closed;
        done_empty = λ done. elim (not_done done) [ ];
      })
      (λ e _.
        drain_and_leave-Delivering (write_conn (record s { write_ch = rest }) payload) account)
  where
    account :
        s.accepted
        ≡ map (λ w. w.0) (s.writes ++ ((payload, (s.conn s.writes payload).1) ∷ [])) ++ rest
    account = d.account ∙ simp (full, map-append, append_assoc)

    not_done : ¬ (s.writer_done ≡ true)
    not_done done = cc

ClientStep-Delivering : {s t : StreamConn} → ClientStep s t → Delivering s → Delivering t
unfolding server_closes_conn signal_close
ClientStep-Delivering (data_queued payload) d = queue_data-Delivering _ payload d
ClientStep-Delivering server_closed_it d = record {
  account = d.account;
  done_closed = d.done_closed;
  done_empty = d.done_empty;
}
ClientStep-Delivering signalled d = record {
  account = d.account;
  done_closed = d.done_closed;
  done_empty = d.done_empty;
}
ClientStep-Delivering client_closes_it d = close_conn-Delivering _ d
ClientStep-Delivering (piece_written payload rest runs full) d =
    write_piece-Delivering _ payload rest runs full d
ClientStep-Delivering (writer_leaves runs signal) d = drain_and_leave-Delivering _ d.account

ClientReach-Delivering : {s t : StreamConn} → Delivering s → ClientReach s t → Delivering t
ClientReach-Delivering d starts = d
ClientReach-Delivering d (then_steps r step) =
    ClientStep-Delivering step (ClientReach-Delivering d r)

-- The client's half. In every state that a stream can reach, the data handed to the TCP connection's
-- `Write` followed by what waits in the channel is the data that was accepted, in order; and when
-- the writer has left and no write failed, all of it was handed over.
pub client_delivery :
    (conn : List (List ℕ × Option Error) → List ℕ → ℕ × Option Error) {s : StreamConn}
    → ClientReach (new_stream_conn conn) s
    → (s.accepted ≡ pieces s ++ s.write_ch)
      × (s.writer_done ≡ true → AllWritten s → pieces s ≡ s.accepted)
unfolding new_stream_conn
client_delivery conn {s} r = (
  d.account,
  λ done all.
      sym (append-nil (pieces s))
      ∙ ap (λ l. pieces s ++ l) (sym (d.done_empty done all))
      ∙ sym d.account,
)
  where
    d : Delivering s
    d =
        ClientReach-Delivering
          (record { account = refl; done_closed = λ e. cc; done_empty = λ e _. refl }) r
