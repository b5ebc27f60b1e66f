-- ===== src/Tunnel/Quiet.antt =====
-- The steps of a stream of the server that take no data.
use shadow_gre.Prelude.{
  ℕ, ◌≡◌, refl, sym, ◌∙◌, ◌⊎◌, inl, inr, true, Option, Error, List, [], ◌∷◌, ◌+◌, option_with,
}
use shadow_gre.Tunnel.Stream.{
  ServerStream, stream_state_connecting, stream_state_closed, Phase, read_done, dialing, flushing,
  stopped, close_stream, close_open_stream, close_write, take_close, dial_failed, dial_succeeded,
  write_backend, write_or_stop, count_out, flush_next, write_next, drain_write_ch,
  drain_and_shutdown_write, stop_on_close_write, stop_on_close, finish_reading, read_backend,
  clean_up,
}
use shadow_gre.Tunnel.Account.{state_with}

-- A stream that takes no data any more, and what holds of a closed one.
pub record Dead (s : ServerStream) : Type 0 where
  pub begun : ¬ (s.state ≡ stream_state_connecting)
  pub shut : (s.write_close ≡ true) ⊎ ((s.phase ≡ stopped) × (s.state ≡ stream_state_closed))

abbrev pub Gate : ServerStream → Type 0
Gate s = s.state ≡ stream_state_closed → (s.write_close ≡ true) ⊎ (s.phase ≡ stopped)

-- A step that takes no data.
pub record Quiet (s t : ServerStream) : Type 0 where
  pub same : t.accepted ≡ s.accepted
  pub stays : Dead s → Dead t
  pub gate : Gate s → Gate t

unchanged : (s : ServerStream) → Quiet s s
unchanged s = record { same = refl; stays = λ d. d; gate = λ g. g }

pub alike :
    (s t : ServerStream)
    → t.accepted ≡ s.accepted
    → t.state ≡ s.state
    → t.phase ≡ s.phase
    → t.write_close ≡ s.write_close
    → Quiet s t
alike s t a e p w = record {
  same = a;
  stays = λ d. record {
    begun = λ c. d.begun (sym e ∙ c);
    shut = elim d.shut [ inl g ↦ inl (w ∙ g) | inr (q, c) ↦ inr (p ∙ q, e ∙ c) ];
  };
  gate = λ g c. elim (g (sym e ∙ c)) [ inl o ↦ inl (w ∙ o) | inr q ↦ inr (p ∙ q) ];
}

pub close_stream-Quiet : (s : ServerStream) → Quiet s (close_stream s)
unfolding close_stream close_open_stream close_write
close_stream-Quiet s = state_with (Quiet s) s.state (λ _. closes) (λ _. closes) (λ _. unchanged s)
  where
    closes : Quiet s (close_open_stream s)
    closes = record {
      same = refl;
      stays = λ _. record { begun = λ e. cc; shut = inl refl };
      gate = λ _ _. inl refl;
    }

pub both-Quiet : {s t u : ServerStream} → Quiet s t → Quiet t u → Quiet s u
both-Quiet a b = record {
  same = b.same ∙ a.same;
  stays = λ d. b.stays (a.stays d);
  gate = λ g. b.gate (a.gate g);
}

-- The goroutine that writes stops, in any state of the same kind.
stops_shut :
    (s t : ServerStream)
    → (s.write_close ≡ true) ⊎ ((s.phase ≡ stopped) × (s.state ≡ stream_state_closed))
    → (s.write_close ≡ true → t.write_close ≡ true)
    → (s.state ≡ stream_state_closed → t.state ≡ stream_state_closed)
    → (t.write_close ≡ true) ⊎ ((stopped ≡ stopped) × (t.state ≡ stream_state_closed))
stops_shut s t (inl w) kept closed = inl (kept w)
stops_shut s t (inr (_, c)) kept closed = inr (refl, closed c)

pub stops-Quiet : (s : ServerStream) → Quiet s (record s { phase = stopped })
stops-Quiet s = record {
  same = refl;
  stays = λ d. record { begun = d.begun; shut = stops_shut s s d.shut (λ w. w) (λ c. c) };
  gate = λ _ _. inr refl;
}

write_or_stop-Quiet : (s : ServerStream) (payload : List ℕ) → Quiet s (write_or_stop s payload)
unfolding write_or_stop count_out write_backend
write_or_stop-Quiet s payload =
    option_with (Quiet s) (s.backend s.writes payload) (λ _. alike _ _ refl refl refl refl)
      (λ _ _.
        both-Quiet
          (both-Quiet (both-Quiet wrote (close_stream-Quiet (write_backend s payload)))
            (stops-Quiet (close_stream (write_backend s payload))))
          (alike _ _ refl refl refl refl))
  where
    wrote : Quiet s (write_backend s payload)
    wrote = alike _ _ refl refl refl refl

-- A phase that follows one in which the stream was not stopped.
begins_shut :
    (s : ServerStream) (p : Phase) → ¬ (p ≡ stopped) → s.phase ≡ p → Dead s → s.write_close ≡ true
begins_shut s p n e d = elim d.shut [ inl w ↦ w | inr (q, _) ↦ elim (n (sym e ∙ q)) [ ] ]

begins-Gate :
    (s : ServerStream) (p : Phase)
    → ¬ (p ≡ stopped)
    → s.phase ≡ p
    → Gate s
    → s.state ≡ stream_state_closed
    → s.write_close ≡ true
begins-Gate s p n e g c = elim (g c) [ inl w ↦ w | inr q ↦ elim (n (sym e ∙ q)) [ ] ]

pub flush_next-Quiet :
    (s : ServerStream) (flush : List (List ℕ)) → s.phase ≡ flushing → Quiet s (flush_next s flush)
unfolding flush_next
flush_next-Quiet s [] p = record {
  same = refl;
  stays = λ d. record { begun = d.begun; shut = inl (begins_shut s flushing (λ e. cc) p d) };
  gate = λ g c. inl (begins-Gate s flushing (λ e. cc) p g c);
}
flush_next-Quiet s (payload ∷ rest) p =
    both-Quiet taken (write_or_stop-Quiet (record s { flush = rest }) payload)
  where
    taken : Quiet s (record s { flush = rest })
    taken = alike _ _ refl refl refl refl

pub write_next-Quiet :
    (s : ServerStream) (payload : List ℕ) (rest : List (List ℕ))
    → Quiet s (write_next s payload rest)
unfolding write_next
write_next-Quiet s payload rest =
    both-Quiet taken (write_or_stop-Quiet (record s { write_ch = rest }) payload)
  where
    taken : Quiet s (record s { write_ch = rest })
    taken = alike _ _ refl refl refl refl

pub drain_write_ch-Quiet : (s : ServerStream) (xs : List (List ℕ)) → Quiet s (drain_write_ch s xs)
unfolding drain_write_ch count_out write_backend
drain_write_ch-Quiet s [] = alike _ _ refl refl refl refl
drain_write_ch-Quiet s (x ∷ xs) =
    both-Quiet wrote (drain_write_ch-Quiet (count_out (write_backend s x) x) xs)
  where
    wrote : Quiet s (count_out (write_backend s x) x)
    wrote = alike _ _ refl refl refl refl

pub stop_on_close_write-Quiet : (s : ServerStream) → Quiet s (stop_on_close_write s)
unfolding stop_on_close_write drain_and_shutdown_write
stop_on_close_write-Quiet s =
    both-Quiet (both-Quiet (drain_write_ch-Quiet s s.write_ch) shuts) (stops-Quiet _)
  where
    shuts :
        Quiet
          (drain_write_ch s s.write_ch)
          (record (drain_write_ch s s.write_ch) { write_shut = true })
    shuts = alike _ _ refl refl refl refl

pub finish_reading-Quiet : (s : ServerStream) → Quiet s (finish_reading s)
unfolding finish_reading
finish_reading-Quiet s = both-Quiet counted (close_stream-Quiet _)
  where
    counted : Quiet s (record s { closes_sent = s.closes_sent + 1; reader = read_done })
    counted = alike _ _ refl refl refl refl

pub read_backend-Quiet :
    (s : ServerStream) (payload : List ℕ) (result : Option Error)
    → Quiet s (read_backend s payload result)
unfolding read_backend
read_backend-Quiet s payload result =
    option_with (Quiet s) result (λ _. alike _ _ refl refl refl refl)
      (λ _ _. both-Quiet (alike _ _ refl refl refl refl) (finish_reading-Quiet _))

pub dial_failed-Quiet : (s : ServerStream) → Quiet s (dial_failed s)
unfolding dial_failed
dial_failed-Quiet s = record {
  same = refl;
  stays = λ d. record { begun = λ e. cc; shut = inr (refl, refl) };
  gate = λ _ _. inr refl;
}

pub dial_succeeded-Quiet : (s : ServerStream) → s.phase ≡ dialing → Quiet s (dial_succeeded s)
unfolding dial_succeeded
dial_succeeded-Quiet s p = record {
  same = refl;
  stays = λ d. record { begun = λ e. cc; shut = inl (begins_shut s dialing (λ e. cc) p d) };
  gate = λ g c. cc;
}

pub take_close-Quiet : (s : ServerStream) → Quiet s (take_close s)
unfolding take_close close_write
take_close-Quiet s = record {
  same = refl;
  stays = λ d. record { begun = d.begun; shut = inl refl };
  gate = λ _ _. inl refl;
}

pub stop_on_close-Quiet : (s : ServerStream) → Quiet s (stop_on_close s)
unfolding stop_on_close
stop_on_close-Quiet s = both-Quiet (drain_write_ch-Quiet s s.write_ch) (stops-Quiet _)

pub clean_up-Quiet : (s : ServerStream) → Quiet s (clean_up s)
unfolding clean_up
clean_up-Quiet s = alike _ _ refl refl refl refl
