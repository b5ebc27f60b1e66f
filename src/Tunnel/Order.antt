-- ===== src/Tunnel/Order.antt =====
-- The order of the data of a stream, over all of its steps.
use shadow_gre.Prelude.{
  option_with, ℕ, ◌≡◌, refl, sym, ap, ◌∙◌, Bool, true, Option, none, Error, All, List, [], ◌∷◌,
  ◌++◌, append-nil, length,
}
use shadow_gre.Prelude.{◌+◌, ◌%◌, ◌^◌}
use shadow_gre.Tunnel.Stream.{
  ServerStream, Phase, Reader, read_done, dialing, flushing, writing, stopped, create_stream,
  finish_reading, read_backend, clean_up,
}
use shadow_gre.Tunnel.Steps.{
  Step, data_arrives, client_closes, server_closes, dial_fails, dial_succeeds, flushes, writes_next,
  sees_close_write, sees_close, backend_sends, backend_ends, cleans_up, Reach, here, next,
}
use shadow_gre.Tunnel.Account.{
  written, waiting, InPhase, Valid, create_stream-Valid, close_stream-Valid, take_close-Valid,
  take_data-Valid,
}
use shadow_gre.Tunnel.Writing.{
  flush_next-Valid, write_next-Valid, stop_on_close_write-Valid, stop_on_close-Valid,
  dial_failed-Valid, dial_succeeded-Valid,
}

-- The fields that the reader and the end of `connectAndRun` assign.
assigned : ServerStream → ℕ → List (List ℕ) → ℕ → Reader → Bool → ServerStream
assigned s a b c d e = record s { bytes_in = a; sent = b; closes_sent = c; reader = d; removed = e }

module _ (a : ℕ) (b : List (List ℕ)) (c : ℕ) (d : Reader) (e : Bool) where
  assigned-InPhase : (p : Phase) (s : ServerStream) → InPhase p s → InPhase p (assigned s a b c d e)
  unfolding assigned
  assigned-InPhase dialing s h = h
  assigned-InPhase flushing s h = h
  assigned-InPhase writing s h = h
  assigned-InPhase stopped s h = h

  assigned-Valid : (s : ServerStream) → Valid s → Valid (assigned s a b c d e)
  unfolding assigned
  assigned-Valid s v = record {
    account = v.account;
    gates = v.gates;
    here_now = assigned-InPhase s.phase s v.here_now;
    kept = v.kept;
    lossless = v.lossless;
  }

finish_reading-Valid : (s : ServerStream) → Valid s → Valid (finish_reading s)
unfolding finish_reading assigned
finish_reading-Valid s v =
    close_stream-Valid (assigned s s.bytes_in s.sent (s.closes_sent + 1) read_done s.removed)
      (assigned-Valid s.bytes_in s.sent (s.closes_sent + 1) read_done s.removed s v)

read_backend-Valid :
    (s : ServerStream) (payload : List ℕ) (result : Option Error)
    → Valid s
    → Valid (read_backend s payload result)
unfolding read_backend assigned
read_backend-Valid s payload result v =
    option_with Valid result (λ _. read) (λ _ _. finish_reading-Valid _ read)
  where
    bytes : ℕ
    bytes = (s.bytes_in + length payload) % 2 ^ 64

    read : Valid (assigned s bytes (s.sent ++ (payload ∷ [])) s.closes_sent s.reader s.removed)
    read = assigned-Valid bytes (s.sent ++ (payload ∷ [])) s.closes_sent s.reader s.removed s v

clean_up-Valid : (s : ServerStream) → Valid s → Valid (clean_up s)
unfolding clean_up assigned
clean_up-Valid s v = assigned-Valid s.bytes_in s.sent s.closes_sent s.reader true s v

Step-Valid : {s t : ServerStream} → Step s t → Valid s → Valid t
Step-Valid (data_arrives payload) v = take_data-Valid _ payload v
Step-Valid client_closes v = take_close-Valid _ v
Step-Valid server_closes v = close_stream-Valid _ v
Step-Valid (dial_fails p) v = dial_failed-Valid _ p v
Step-Valid (dial_succeeds p) v = dial_succeeded-Valid _ p v
Step-Valid (flushes p) v = flush_next-Valid _ _ p refl v
Step-Valid (writes_next payload rest p e) v = write_next-Valid _ payload rest p e v
Step-Valid (sees_close_write p e) v = stop_on_close_write-Valid _ p e v
Step-Valid (sees_close p e) v = stop_on_close-Valid _ p e v
Step-Valid (backend_sends payload result r) v = read_backend-Valid _ payload result v
Step-Valid (backend_ends r) v = finish_reading-Valid _ v
Step-Valid (cleans_up p r) v = clean_up-Valid _ v

pub Reach-Valid : {s t : ServerStream} → Valid s → Reach s t → Valid t
Reach-Valid v here = v
Reach-Valid v (next r step) = Step-Valid step (Reach-Valid v r)

-- In every state that a stream of the server can reach, whatever the order in which data, closes, the
-- backend and the goroutines act and whichever writes fail, the data that was accepted is, in order,
-- what was handed to the backend's `Write`, what is lost, and what still waits in `pendingData` and the
-- channel: nothing is repeated or overtaken, also while the stream connects. As long as no write has
-- failed, nothing is lost.
pub backend_order :
    (backend : List (List ℕ × Option Error) → List ℕ → Option Error) {s : ServerStream}
    → Reach (create_stream backend) s
    → (s.accepted ≡ written s ++ (s.lost ++ waiting s))
      × (All (λ w. w.1 ≡ none) s.writes → s.lost ≡ [])
backend_order backend r =
    let v = Reach-Valid (create_stream-Valid backend) r in (v.account, v.lossless)

shut-all :
    (p : Phase) (s : ServerStream)
    → InPhase p s
    → s.write_shut ≡ true
    → (s.lost ≡ []) × (waiting s ≡ [])
shut-all dialing s (_, _, _, open_yet) shut = cc
shut-all flushing s (_, _, open_yet) shut = cc
shut-all writing s (_, _, _, open_yet) shut = cc
shut-all stopped s (_, _, all) shut = all shut

-- The half-close. When the server has shut its side of the backend's connection, the calls of `Write`
-- were all of the data that was accepted, in order, and no data waits.
pub half_close_complete :
    (backend : List (List ℕ × Option Error) → List ℕ → Option Error) {s : ServerStream}
    → Reach (create_stream backend) s
    → s.write_shut ≡ true
    → (written s ≡ s.accepted) × (waiting s ≡ [])
half_close_complete backend {s} r shut =
    let v = Reach-Valid (create_stream-Valid backend) r in
    let (none_lost, none_waits) = shut-all s.phase s v.here_now shut in
    (
      sym (
          v.account
          ∙ ap (λ l. written s ++ (l ++ waiting s)) none_lost
          ∙ ap (λ l. written s ++ l) none_waits
          ∙ append-nil (written s)),
      none_waits,
    )
