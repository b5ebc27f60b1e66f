-- ===== src/Tunnel/Steps.antt =====
-- How a stream of the server moves: its handlers, the goroutine that dials and writes, and the one
-- that reads, in any order.
use shadow_gre.Prelude.{ℕ, ◌≡◌, true, List, ◌∷◌, Option, Error}
use shadow_gre.Tunnel.Stream.{
  ServerStream, dialing, flushing, writing, stopped, reading, read_done, take_data, take_close,
  close_stream, dial_failed, dial_succeeded, flush_next, write_next, stop_on_close_write,
  stop_on_close, read_backend, finish_reading, clean_up,
}

pub data Step (s : ServerStream) : ServerStream → Type 0 where
  data_arrives : (payload : List ℕ) → Step s (take_data s payload)
  client_closes : Step s (take_close s)
  server_closes : Step s (close_stream s)
  dial_fails : s.phase ≡ dialing → Step s (dial_failed s)
  dial_succeeds : s.phase ≡ dialing → Step s (dial_succeeded s)
  flushes : s.phase ≡ flushing → Step s (flush_next s s.flush)
  writes_next :
      (payload : List ℕ) (rest : List (List ℕ))
      → s.phase ≡ writing
      → s.write_ch ≡ payload ∷ rest
      → Step s (write_next s payload rest)
  sees_close_write : s.phase ≡ writing → s.write_close ≡ true → Step s (stop_on_close_write s)
  sees_close : s.phase ≡ writing → s.close_ch ≡ true → Step s (stop_on_close s)
  backend_sends :
      (payload : List ℕ) (result : Option Error)
      → s.reader ≡ reading
      → Step s (read_backend s payload result)
  backend_ends : s.reader ≡ reading → Step s (finish_reading s)
  cleans_up : s.phase ≡ stopped → s.reader ≡ read_done → Step s (clean_up s)

-- A stream that the server has created, after any number of steps.
pub data Reach (s : ServerStream) : ServerStream → Type 0 where
  here : Reach s s
  next : {t u : ServerStream} → Reach s t → Step t u → Reach s u
