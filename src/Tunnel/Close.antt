-- ===== src/Tunnel/Close.antt =====
-- Two ends of a stream of the server that leave something behind.
use shadow_gre.Prelude.{
  ℕ, ◌≡◌, refl, sym, true, false, none, some, Option, Error, List, [], ◌∷◌, length, ltb, ◌==◌,
  if_both, option_with, ◌∙◌, if◌then◌else◌,
}
use mathlib.Core.Path.{subst}
use shadow_gre.Tunnel.Stream.{
  ServerStream, stream_state_connecting, stream_state_connected, stopped, not_started, reading,
  close_stream, close_open_stream, close_write, enqueue, pend, take_data, take_close,
  dial_succeeded, write_backend, write_or_stop, count_out, flush_next, drain_write_ch,
  stop_on_close, write_channel_size,
}
use shadow_gre.Tunnel.Steps.{
  Step, data_arrives, client_closes, server_closes, dial_fails, dial_succeeds, flushes, writes_next,
  sees_close_write, sees_close, backend_sends, backend_ends, cleans_up, Reach, here, next,
}
use shadow_gre.Tunnel.Account.{state_with}

close_connecting :
    (s : ServerStream) → s.state ≡ stream_state_connecting → close_stream s ≡ close_open_stream s
unfolding close_stream
close_connecting s connects =
    state_with (λ t. t ≡ close_open_stream s) s.state (λ _. refl) (λ _. refl) (λ gone. cc)

-- The loop of `connectAndRun` over `pendingData`, and the start of the two goroutines.
pub flush_all : ServerStream → List (List ℕ) → ServerStream
flush_all s [] = flush_next s []
flush_all s (payload ∷ rest) = flush_all (flush_next s (payload ∷ rest)) rest

-- A connected stream whose connection is open.
abbrev pub IsConnected : ServerStream → Type 0
IsConnected s =
    (s.state ≡ stream_state_connected) × (s.has_backend ≡ true) × (s.backend_closed ≡ false)

-- A backend that takes all data.
abbrev pub TakesAll : ServerStream → Type 0
TakesAll s =
    (writes : List (List ℕ × Option Error)) (payload : List ℕ) → s.backend writes payload ≡ none

flush_all-IsConnected :
    (s : ServerStream) (flush : List (List ℕ))
    → TakesAll s
    → IsConnected s
    → IsConnected (flush_all s flush) × ((flush_all s flush).reader ≡ reading)
unfolding flush_all flush_next write_or_stop write_backend count_out
flush_all-IsConnected s [] takes c = (c, refl)
flush_all-IsConnected s (payload ∷ rest) takes c =
    flush_all-IsConnected (write_or_stop (record s { flush = rest }) payload) rest after.0 after.1
  where
    Good : ServerStream → Type 0
    Good t = TakesAll t × IsConnected t

    refused : {x : Error} → ¬ (none ≡ some x)
    refused e = cc

    after : Good (write_or_stop (record s { flush = rest }) payload)
    after =
        option_with Good (s.backend s.writes payload) (λ _. (takes, c))
          (λ x e. elim (refused (sym (takes s.writes payload) ∙ e)) [ ])

drain_write_ch-IsConnected :
    (s : ServerStream) (xs : List (List ℕ))
    → IsConnected s × (s.reader ≡ reading)
    → IsConnected (drain_write_ch s xs) × ((drain_write_ch s xs).reader ≡ reading)
unfolding drain_write_ch write_backend count_out
drain_write_ch-IsConnected s [] c = c
drain_write_ch-IsConnected s (x ∷ xs) c =
    drain_write_ch-IsConnected (count_out (write_backend s x) x) xs c

-- The defect of a close that comes while the stream connects, whatever data is pending. The dial goes
-- on, and when it succeeds the stream is connected again, though its close channel is closed. If the
-- backend takes the data, the writer then sees that channel and ends, but the stream stays connected,
-- the backend's connection stays open and its reader runs.
pub close_while_connecting :
    (s : ServerStream)
    → s.state ≡ stream_state_connecting
    → s.has_backend ≡ false
    → s.backend_closed ≡ false
    → TakesAll s
    → let connected = dial_succeeded (close_stream s) in
      let t = stop_on_close (flush_all connected s.pending) in
      (connected.close_ch ≡ true)
      × (connected.flush ≡ s.pending)
      × IsConnected t
      × (t.phase ≡ stopped)
      × (t.reader ≡ reading)
unfolding close_open_stream close_write dial_succeeded stop_on_close
close_while_connecting s connects no_backend open_yet takes =
    rw (close_connecting s connects) (refl, refl, after.0, refl, after.1)
  where
    connected : ServerStream
    connected = dial_succeeded (close_open_stream s)

    still_open : (if s.has_backend then true else s.backend_closed) ≡ false
    still_open = rw no_backend open_yet

    ran :
        IsConnected (flush_all connected s.pending)
        × ((flush_all connected s.pending).reader ≡ reading)
    ran = flush_all-IsConnected connected s.pending takes (refl, refl, still_open)

    after :
        IsConnected
          (drain_write_ch (flush_all connected s.pending) (flush_all connected s.pending).write_ch)
        × ((drain_write_ch
              (flush_all connected s.pending)
              (flush_all connected s.pending).write_ch).reader
            ≡ reading)
    after = drain_write_ch-IsConnected (flush_all connected s.pending) _ ran

-- A stream whose goroutine stopped before its reader started.
record Silent (s t : ServerStream) : Type 0 where
  phase : t.phase ≡ stopped
  reader : t.reader ≡ not_started
  closes_sent : t.closes_sent ≡ s.closes_sent
  removed : t.removed ≡ s.removed

close_stream-Silent : (s t : ServerStream) → Silent s t → Silent s (close_stream t)
unfolding close_stream close_open_stream close_write
close_stream-Silent s t h =
    state_with (Silent s) t.state
      (λ _. record {
        phase = h.phase;
        reader = h.reader;
        closes_sent = h.closes_sent;
        removed = h.removed;
      })
      (λ _. record {
        phase = h.phase;
        reader = h.reader;
        closes_sent = h.closes_sent;
        removed = h.removed;
      })
      (λ _. h)

take_data-Silent :
    (s t : ServerStream) (payload : List ℕ) → Silent s t → Silent s (take_data t payload)
unfolding take_data enqueue pend
take_data-Silent s t payload h =
    state_with (Silent s) t.state
      (λ _. if_both (Silent s) (length payload == 0) h (record {
        phase = h.phase;
        reader = h.reader;
        closes_sent = h.closes_sent;
        removed = h.removed;
      }))
      (λ _. if_both (Silent s) (length payload == 0) h (
        if_both (Silent s) t.write_close h (
          if_both (Silent s) (ltb (length t.write_ch) write_channel_size)
            (record {
              phase = h.phase;
              reader = h.reader;
              closes_sent = h.closes_sent;
              removed = h.removed;
            })
            (close_stream-Silent s t h))))
      (λ _. h)

Step-Silent : {s t u : ServerStream} → Step t u → Silent s t → Silent s u
unfolding take_close close_write
Step-Silent {s} {t} (data_arrives payload) h = take_data-Silent s t payload h
Step-Silent client_closes h = record {
  phase = h.phase;
  reader = h.reader;
  closes_sent = h.closes_sent;
  removed = h.removed;
}
Step-Silent {s} {t} server_closes h = close_stream-Silent s t h
Step-Silent (dial_fails p) h = cc
Step-Silent (dial_succeeds p) h = cc
Step-Silent (flushes p) h = cc
Step-Silent (writes_next payload rest p e) h = cc
Step-Silent (sees_close_write p e) h = cc
Step-Silent (sees_close p e) h = cc
Step-Silent (backend_sends payload result r) h = cc
Step-Silent (backend_ends r) h = cc
Step-Silent (cleans_up p r) h = cc

Reach-Silent : {s t u : ServerStream} → Silent s t → Reach t u → Silent s u
Reach-Silent h here = h
Reach-Silent h (next r step) = Step-Silent step (Reach-Silent h r)

-- The defect of a failed write of `pendingData`. Whatever happens after it, the stream never sends the
-- client a close and never leaves the client's map.
pub flush_failure_silent :
    (s : ServerStream) (payload : List ℕ) (rest : List (List ℕ)) (x : Error) {t : ServerStream}
    → s.reader ≡ not_started
    → s.backend s.writes payload ≡ some x
    → Reach (flush_next s (payload ∷ rest)) t
    → (t.closes_sent ≡ s.closes_sent) × (t.removed ≡ s.removed)
unfolding flush_next write_or_stop write_backend close_stream close_open_stream close_write
flush_failure_silent s payload rest x unread fails r =
    let h = Reach-Silent (subst (Silent s) (sym failed) silent) r in (h.closes_sent, h.removed)
  where
    tried : ServerStream
    tried = write_backend (record s { flush = rest }) payload

    failed :
        flush_next s (payload ∷ rest)
        ≡ record (close_stream tried) { phase = stopped; lost = rest; flush = [] }
    failed = simp fails

    silent : Silent s (record (close_stream tried) { phase = stopped; lost = rest; flush = [] })
    silent =
        state_with (λ t. Silent s (record t { phase = stopped; lost = rest; flush = [] })) s.state
          (λ _. record { phase = refl; reader = unread; closes_sent = refl; removed = refl })
          (λ _. record { phase = refl; reader = unread; closes_sent = refl; removed = refl })
          (λ _. record { phase = refl; reader = unread; closes_sent = refl; removed = refl })
