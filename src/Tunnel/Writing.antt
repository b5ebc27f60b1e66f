-- ===== src/Tunnel/Writing.antt =====
-- The goroutine that dials and writes keeps account of the data.
use shadow_gre.Prelude.{
  option_with, ℕ, ◌≡◌, refl, sym, ◌∙◌, inl, inr, Bool, true, false, none, some, Option, Error, All,
  ap, List, [], ◌∷◌, ◌++◌, append_assoc, append-nil, map-append,
}
use mathlib.Core.Path.{subst}
use shadow_gre.Tunnel.Stream.{
  ServerStream, stream_state_connecting, Phase, dialing, flushing, writing, stopped, close_stream,
  close_open_stream, close_write, dial_failed, dial_succeeded, write_backend, write_or_stop,
  count_out, flush_next, write_next, drain_write_ch, drain_and_shutdown_write, stop_on_close_write,
  stop_on_close,
}
use shadow_gre.Tunnel.Account.{written, waiting, unwritten, IsAccounted, InPhase, Valid, state_with}

-- A write takes the first of the data that waits.
write_backend-account :
    (s : ServerStream) (payload : List ℕ)
    → s.accepted ≡ written s ++ (payload ∷ unwritten s)
    → IsAccounted (write_backend s payload)
unfolding write_backend
write_backend-account s payload account = account ∙ simp (append_assoc, map-append)

wrote-InPhase :
    (p : Phase) (s : ServerStream) (payload : List ℕ)
    → InPhase p s
    → InPhase p (count_out (write_backend s payload) payload)
unfolding count_out write_backend
wrote-InPhase dialing s payload h = h
wrote-InPhase flushing s payload h = h
wrote-InPhase writing s payload h = h
wrote-InPhase stopped s payload h = h

-- A failed write.
failed :
    (w : List ℕ × Option Error) (ws : List (List ℕ × Option Error)) (x : Error)
    → w.1 ≡ some x
    → ¬ All (λ w. w.1 ≡ none) (ws ++ w ∷ [])
failed w [] x e (here, _) = cc
failed w (v ∷ ws) x e (_, all) = failed w ws x e all

-- A goroutine that stops on a closed stream, and loses what was left to flush.
stops-Valid :
    (s : ServerStream)
    → IsAccounted s
    → (s.close_ch ≡ true → s.write_close ≡ true)
    → s.write_shut ≡ false
    → ¬ (s.state ≡ stream_state_connecting)
    → s.lost ≡ []
    → ¬ All (λ w. w.1 ≡ none) s.writes
    → Valid (record (close_stream s) { phase = stopped; lost = s.flush; flush = [] })
unfolding close_stream close_open_stream close_write
stops-Valid s account gates open_yet late no_loss fails =
    state_with (λ t. Valid (record t { phase = stopped; lost = s.flush; flush = [] })) s.state
      (λ e. elim (late e) [ ])
      (λ _. record {
        account = moved;
        gates = λ _. refl;
        here_now = ((λ e. cc), inl refl, λ e. cc);
        kept = λ runs. elim (runs refl) [ ];
        lossless = λ all. elim (fails all) [ ];
      })
      (λ gone. record {
        account = moved;
        gates = gates;
        here_now = (late, inl gone, λ e. cc);
        kept = λ runs. elim (runs refl) [ ];
        lossless = λ all. elim (fails all) [ ];
      })
  where
    moved : s.accepted ≡ written s ++ (s.flush ++ ([] ++ (s.pending ++ s.write_ch)))
    moved = account ∙ ap (λ l. written s ++ (l ++ waiting s)) no_loss

write_or_stop-Valid :
    (s : ServerStream) (payload : List ℕ)
    → s.accepted ≡ written s ++ (payload ∷ unwritten s)
    → (s.close_ch ≡ true → s.write_close ≡ true)
    → InPhase s.phase s
    → s.write_shut ≡ false
    → ¬ (s.state ≡ stream_state_connecting)
    → s.lost ≡ []
    → Valid (write_or_stop s payload)
unfolding write_or_stop count_out write_backend
write_or_stop-Valid s payload account gates phase open_yet late no_loss =
    option_with Valid (s.backend s.writes payload)
      (λ _. record {
        account = write_backend-account s payload account;
        gates = gates;
        here_now = wrote-InPhase s.phase s payload phase;
        kept = λ _. no_loss;
        lossless = λ _. no_loss;
      })
      (λ x e.
        stops-Valid (write_backend s payload) (write_backend-account s payload account) gates
          open_yet late no_loss (failed _ s.writes x e))

pub flush_next-Valid :
    (s : ServerStream) (flush : List (List ℕ))
    → s.phase ≡ flushing
    → s.flush ≡ flush
    → Valid s
    → Valid (flush_next s flush)
unfolding flush_next
flush_next-Valid s [] p e v =
    let (q, late, open_yet) = subst (λ p. InPhase p s) p v.here_now in
    let no_loss = v.kept (λ stop. cc (p, stop)) in
    record {
      account = v.account;
      gates = v.gates;
      here_now = (e, q, late, open_yet);
      kept = λ _. no_loss;
      lossless = λ _. no_loss;
    }
flush_next-Valid s (payload ∷ rest) p e v =
    let (q, late, open_yet) = subst (λ p. InPhase p s) p v.here_now in
    let no_loss = v.kept (λ stop. cc (p, stop)) in
    write_or_stop-Valid (record s { flush = rest }) payload (v.account ∙ simp (no_loss, e)) v.gates
      (subst (λ p. InPhase p (record s { flush = rest })) (sym p) (q, late, open_yet)) open_yet late
      no_loss

pub write_next-Valid :
    (s : ServerStream) (payload : List ℕ) (rest : List (List ℕ))
    → s.phase ≡ writing
    → s.write_ch ≡ payload ∷ rest
    → Valid s
    → Valid (write_next s payload rest)
unfolding write_next
write_next-Valid s payload rest p e v =
    let (f, q, late, open_yet) = subst (λ p. InPhase p s) p v.here_now in
    let no_loss = v.kept (λ stop. cc (p, stop)) in
    write_or_stop-Valid (record s { write_ch = rest }) payload (v.account ∙ simp (no_loss, f, q, e))
      v.gates (subst (λ p. InPhase p (record s { write_ch = rest })) (sym p) (f, q, late, open_yet))
      open_yet late no_loss

-- `drainWriteCh` writes the whole channel and changes nothing else that matters here.
abbrev Drained : ServerStream → List (List ℕ) → ServerStream → Type 0
Drained s xs t =
    (written t ≡ written s ++ xs)
    × (t.write_ch ≡ [])
    × (t.flush ≡ s.flush)
    × (t.pending ≡ s.pending)
    × (t.accepted ≡ s.accepted)
    × (t.state ≡ s.state)
    × (t.write_close ≡ s.write_close)
    × (t.lost ≡ s.lost)

drain_write_ch-Drained :
    (s : ServerStream) (xs : List (List ℕ)) → Drained s xs (drain_write_ch s xs)
unfolding drain_write_ch count_out write_backend
drain_write_ch-Drained s [] =
    (sym (append-nil (written s)), refl, refl, refl, refl, refl, refl, refl)
drain_write_ch-Drained s (x ∷ xs) =
    let (w, c, f, q, a, state, close, lost) =
      drain_write_ch-Drained (count_out (write_backend s x) x) xs in
    (w ∙ simp (map-append, append_assoc), c, f, q, a, state, close, lost)

-- A goroutine that stops behind a drained channel, whether it shuts the backend's side or not.
drained-Valid :
    (s : ServerStream) (shut : Bool)
    → s.phase ≡ writing
    → s.write_close ≡ true
    → Valid s
    → Valid (record (drain_write_ch s s.write_ch) { write_shut = shut; phase = stopped })
drained-Valid s shut p gate v =
    let (w, c, f, q, a, state, close, lost) = drain_write_ch-Drained s s.write_ch in
    let no_loss = v.kept (λ stop. cc (p, stop)) in
    let (no_flush, no_pending, late, _) = subst (λ p. InPhase p s) p v.here_now in
    record {
      account = a ∙ v.account ∙ simp (w, c, f, q, lost, no_loss, no_flush, no_pending, append-nil);
      gates = λ _. close ∙ gate;
      here_now = (
        (λ e. late (sym state ∙ e)),
        inr (close ∙ gate),
        λ _. (lost ∙ no_loss, simp (c, f, q, no_flush, no_pending)),
      );
      kept = λ _. lost ∙ no_loss;
      lossless = λ _. lost ∙ no_loss;
    }

pub stop_on_close_write-Valid :
    (s : ServerStream)
    → s.phase ≡ writing
    → s.write_close ≡ true
    → Valid s
    → Valid (stop_on_close_write s)
unfolding stop_on_close_write drain_and_shutdown_write
stop_on_close_write-Valid s = drained-Valid s true

pub stop_on_close-Valid :
    (s : ServerStream) → s.phase ≡ writing → s.close_ch ≡ true → Valid s → Valid (stop_on_close s)
unfolding stop_on_close
stop_on_close-Valid s p closed v =
    drained-Valid s (drain_write_ch s s.write_ch).write_shut p (v.gates closed) v

pub dial_failed-Valid : (s : ServerStream) → s.phase ≡ dialing → Valid s → Valid (dial_failed s)
unfolding dial_failed
dial_failed-Valid s p v =
    let (_, _, _, open_yet) = subst (λ p. InPhase p s) p v.here_now in
    record {
      account = v.account;
      gates = v.gates;
      here_now = ((λ e. cc), inl refl, λ e. cc);
      kept = λ _. v.kept (λ stop. cc (p, stop));
      lossless = v.lossless;
    }

pub dial_succeeded-Valid :
    (s : ServerStream) → s.phase ≡ dialing → Valid s → Valid (dial_succeeded s)
unfolding dial_succeeded
dial_succeeded-Valid s p v =
    let (f, _, _, open_yet) = subst (λ p. InPhase p s) p v.here_now in
    let no_loss = v.kept (λ stop. cc (p, stop)) in
    record {
      account = v.account ∙ simp f;
      gates = v.gates;
      here_now = (refl, (λ e. cc), open_yet);
      kept = λ _. no_loss;
      lossless = λ _. no_loss;
    }
