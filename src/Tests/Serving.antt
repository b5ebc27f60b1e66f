-- ===== src/Tests/Serving.antt =====
-- A stream of the server that gets data before and after the backend is connected.
use shadow_gre.Prelude.{
  ℕ, ◌≡◌, refl, true, Option, none, some, All, Error, foreign, List, [], ◌∷◌, ◌++◌,
}
use shadow_gre.Tunnel.Stream.{
  ServerStream, stopped, reading, create_stream, close_stream, take_data, enqueue, pend, take_close,
  close_write, dial_succeeded, flush_next, write_or_stop, write_backend, count_out,
  stop_on_close_write, stop_on_close, drain_write_ch, drain_and_shutdown_write,
}
use shadow_gre.Tunnel.Steps.{
  Reach, here, next, data_arrives, dial_succeeds, flushes, client_closes, sees_close_write,
}
use shadow_gre.Tunnel.Account.{written, waiting}
use shadow_gre.Tunnel.Order.{backend_order, half_close_complete}
use shadow_gre.Tunnel.Close.{close_while_connecting, flush_all, IsConnected, flush_failure_silent}

abbrev takes_all : List (List ℕ × Option Error) → List ℕ → Option Error
takes_all writes payload = none

abbrev created : ServerStream
created = create_stream takes_all

abbrev early : ServerStream
early = take_data created (1 ∷ 2 ∷ [])

abbrev dialled : ServerStream
dialled = dial_succeeded early

abbrev late : ServerStream
late = take_data dialled (3 ∷ [])

abbrev flushed : ServerStream
flushed = flush_next late late.flush

late-Reach : Reach created flushed
unfolding create_stream take_data pend dial_succeeded enqueue
late-Reach =
    next
      (next (next (next here (data_arrives (1 ∷ 2 ∷ []))) (dial_succeeds refl))
        (data_arrives (3 ∷ [])))
      (flushes refl)

backend_order_example :
    (flushed.accepted ≡ written flushed ++ (flushed.lost ++ waiting flushed))
    × (All (λ w. w.1 ≡ none) flushed.writes → flushed.lost ≡ [])
backend_order_example = backend_order takes_all late-Reach

-- The client closes, the second piece of the pending data is flushed, and the writer stops.
abbrev closing : ServerStream
closing = take_close flushed

abbrev running : ServerStream
running = flush_next closing closing.flush

abbrev ended : ServerStream
ended = stop_on_close_write running

ended-Reach : Reach created ended
unfolding create_stream take_data pend dial_succeeded enqueue flush_next write_or_stop write_backend
    count_out take_close close_write
ended-Reach =
    next (next (next late-Reach client_closes) (flushes refl)) (sees_close_write refl refl)

half_close_complete_example : (written ended ≡ ended.accepted) × (waiting ended ≡ [])
unfolding create_stream take_data pend dial_succeeded enqueue flush_next write_or_stop write_backend
    count_out take_close close_write stop_on_close_write drain_and_shutdown_write drain_write_ch
half_close_complete_example = half_close_complete takes_all ended-Reach refl

-- The server closes the stream before the backend is connected.
close_while_connecting_example :
    let connected = dial_succeeded (close_stream early) in
    let t = stop_on_close (flush_all connected ((1 ∷ 2 ∷ []) ∷ [])) in
    (connected.close_ch ≡ true)
    × (connected.flush ≡ (1 ∷ 2 ∷ []) ∷ [])
    × IsConnected t
    × (t.phase ≡ stopped)
    × (t.reader ≡ reading)
unfolding create_stream take_data pend
close_while_connecting_example =
    close_while_connecting early refl refl refl (λ writes payload. refl)

abbrev fails : List (List ℕ × Option Error) → List ℕ → Option Error
fails writes payload = some (foreign 32)

abbrev failing : ServerStream
failing = create_stream fails

flush_failure_silent_example :
    let t = take_data (flush_next failing ((1 ∷ []) ∷ (2 ∷ []) ∷ [])) (3 ∷ []) in
    (t.closes_sent ≡ failing.closes_sent) × (t.removed ≡ failing.removed)
unfolding create_stream
flush_failure_silent_example =
    flush_failure_silent failing (1 ∷ []) ((2 ∷ []) ∷ []) (foreign 32) refl refl
      (next here (data_arrives (3 ∷ [])))
