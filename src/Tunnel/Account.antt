-- ===== src/Tunnel/Account.antt =====
-- Where the data of a stream is, from its handler to the backend; the handlers keep account of it.
use shadow_gre.Prelude.{
  ℕ, ◌≡◌, refl, ap, ◌∙◌, ◌⊎◌, inl, inr, true, false, Option, none, Error, All, List, [], ◌∷◌, ◌++◌,
  append_assoc, append-nil, map, length, ltb, ◌==◌, if_both, if_with,
}
use shadow_gre.Tunnel.Stream.{
  ServerStream, StreamState, stream_state_connecting, stream_state_connected, stream_state_closed,
  Phase, dialing, flushing, writing, stopped, create_stream, close_stream, close_open_stream,
  close_write, enqueue, pend, take_data, take_close, write_channel_size,
}

-- The data of the calls of `Write`, and the data that still waits, in order.
abbrev pub written : ServerStream → List (List ℕ)
written s = map (λ w. w.0) s.writes

abbrev pub waiting : ServerStream → List (List ℕ)
waiting s = s.flush ++ (s.pending ++ s.write_ch)

-- And what is lost in between.
abbrev pub unwritten : ServerStream → List (List ℕ)
unwritten s = s.lost ++ waiting s

abbrev pub IsAccounted : ServerStream → Type 0
IsAccounted s = s.accepted ≡ written s ++ unwritten s

-- What no data is accepted in.
abbrev IsShut : ServerStream → Type 0
IsShut s = (s.state ≡ stream_state_closed) ⊎ (s.write_close ≡ true)

-- What holds in each phase.
abbrev pub InPhase : Phase → ServerStream → Type 0
InPhase dialing s =
    (s.flush ≡ [])
    × (s.write_ch ≡ [])
    × ¬ (s.state ≡ stream_state_connected)
    × (s.write_shut ≡ false)
InPhase flushing s =
    (s.pending ≡ []) × ¬ (s.state ≡ stream_state_connecting) × (s.write_shut ≡ false)
InPhase writing s =
    (s.flush ≡ [])
    × (s.pending ≡ [])
    × ¬ (s.state ≡ stream_state_connecting)
    × (s.write_shut ≡ false)
InPhase stopped s =
    ¬ (s.state ≡ stream_state_connecting)
    × IsShut s
    × (s.write_shut ≡ true → (s.lost ≡ []) × (waiting s ≡ []))

pub record Valid (s : ServerStream) : Type 0 where
  pub account : IsAccounted s
  pub gates : s.close_ch ≡ true → s.write_close ≡ true
  pub here_now : InPhase s.phase s
  pub kept : ¬ (s.phase ≡ stopped) → s.lost ≡ []
  pub lossless : All (λ w. w.1 ≡ none) s.writes → s.lost ≡ []

pub create_stream-Valid :
    (backend : List (List ℕ × Option Error) → List ℕ → Option Error) → Valid (create_stream backend)
unfolding create_stream
create_stream-Valid backend = record {
  account = refl;
  gates = λ e. cc;
  here_now = (refl, refl, (λ e. cc), refl);
  kept = λ _. refl;
  lossless = λ _. refl;
}

-- A close changes neither the data nor the phase.
close_open-InPhase : (p : Phase) (s : ServerStream) → InPhase p s → InPhase p (close_open_stream s)
unfolding close_open_stream close_write
close_open-InPhase dialing s (f, c, _, w) = (f, c, (λ e. cc), w)
close_open-InPhase flushing s (q, _, w) = (q, (λ e. cc), w)
close_open-InPhase writing s (f, q, _, w) = (f, q, (λ e. cc), w)
close_open-InPhase stopped s (_, _, w) = ((λ e. cc), inl refl, w)

close_open-Valid : (s : ServerStream) → Valid s → Valid (close_open_stream s)
unfolding close_open_stream close_write
close_open-Valid s v = record {
  account = v.account;
  gates = λ e. refl;
  here_now = close_open-InPhase s.phase s v.here_now;
  kept = v.kept;
  lossless = v.lossless;
}

-- What holds of the result in each state, holds of the result.
pub state_with {ℓ κ} :
    {A : Type ℓ} (Good : A → Type κ) (x : StreamState) {a b c : A}
    → (x ≡ stream_state_connecting → Good a)
    → (x ≡ stream_state_connected → Good b)
    → (x ≡ stream_state_closed → Good c)
    → Good (elim x [
      | stream_state_connecting ↦ a
      | stream_state_connected ↦ b
      | stream_state_closed ↦ c
    ])
state_with Good stream_state_connecting f g h = f refl
state_with Good stream_state_connected f g h = g refl
state_with Good stream_state_closed f g h = h refl

pub close_stream-Valid : (s : ServerStream) → Valid s → Valid (close_stream s)
unfolding close_stream
close_stream-Valid s v =
    state_with Valid s.state (λ _. close_open-Valid s v) (λ _. close_open-Valid s v) (λ _. v)

take_close-InPhase : (p : Phase) (s : ServerStream) → InPhase p s → InPhase p (take_close s)
unfolding take_close close_write
take_close-InPhase dialing s h = h
take_close-InPhase flushing s h = h
take_close-InPhase writing s h = h
take_close-InPhase stopped s (n, _, w) = (n, inr refl, w)

pub take_close-Valid : (s : ServerStream) → Valid s → Valid (take_close s)
unfolding take_close close_write
take_close-Valid s v = record {
  account = v.account;
  gates = λ e. refl;
  here_now = take_close-InPhase s.phase s v.here_now;
  kept = v.kept;
  lossless = v.lossless;
}

-- Data that is accepted comes last. A stream that is connecting has nothing in its channel.
channel_empty :
    (p : Phase) (s : ServerStream)
    → InPhase p s
    → s.state ≡ stream_state_connecting
    → s.write_ch ≡ []
channel_empty dialing s (_, c, _, _) early = c
channel_empty flushing s (_, n, _) early = elim (n early) [ ]
channel_empty writing s (_, _, n, _) early = elim (n early) [ ]
channel_empty stopped s (n, _, _) early = elim (n early) [ ]

pend-InPhase :
    (p : Phase) (s : ServerStream) (payload : List ℕ)
    → s.state ≡ stream_state_connecting
    → InPhase p s
    → InPhase p (pend s payload)
unfolding pend
pend-InPhase dialing s payload early h = h
pend-InPhase flushing s payload early (_, n, _) = elim (n early) [ ]
pend-InPhase writing s payload early (_, _, n, _) = elim (n early) [ ]
pend-InPhase stopped s payload early (n, _, _) = elim (n early) [ ]

pend-Valid :
    (s : ServerStream) (payload : List ℕ)
    → s.state ≡ stream_state_connecting
    → Valid s
    → Valid (pend s payload)
unfolding pend
pend-Valid s payload early v = record {
  account =
      ap (λ l. l ++ payload ∷ []) v.account
      ∙ rw (channel_empty s.phase s v.here_now early) (simp (append-nil, append_assoc));
  gates = v.gates;
  here_now = pend-InPhase s.phase s payload early v.here_now;
  kept = v.kept;
  lossless = v.lossless;
}

-- The channel of a connected stream that is open for data.
put : ServerStream → List ℕ → ServerStream
put s payload = record s {
  write_ch = s.write_ch ++ (payload ∷ []);
  accepted = s.accepted ++ (payload ∷ []);
}

put-InPhase :
    (p : Phase) (s : ServerStream) (payload : List ℕ)
    → s.state ≡ stream_state_connected
    → s.write_close ≡ false
    → InPhase p s
    → InPhase p (put s payload)
unfolding put
put-InPhase dialing s payload late gate (_, _, n, _) = elim (n late) [ ]
put-InPhase flushing s payload late gate h = h
put-InPhase writing s payload late gate h = h
put-InPhase stopped s payload late gate (n, inl gone, w) = cc
put-InPhase stopped s payload late gate (n, inr shut, w) = cc

put-Valid :
    (s : ServerStream) (payload : List ℕ)
    → s.state ≡ stream_state_connected
    → s.write_close ≡ false
    → Valid s
    → Valid (put s payload)
unfolding put
put-Valid s payload late gate v = record {
  account = ap (λ l. l ++ payload ∷ []) v.account ∙ simp append_assoc;
  gates = v.gates;
  here_now = put-InPhase s.phase s payload late gate v.here_now;
  kept = v.kept;
  lossless = v.lossless;
}

enqueue-Valid :
    (s : ServerStream) (payload : List ℕ)
    → s.state ≡ stream_state_connected
    → Valid s
    → Valid (enqueue s payload)
unfolding enqueue put
enqueue-Valid s payload late v =
    if_with Valid s.write_close (λ _. v)
      (λ gate.
        if_with Valid (ltb (length s.write_ch) write_channel_size)
          (λ _. put-Valid s payload late gate v) (λ _. close_stream-Valid s v))

pub take_data-Valid : (s : ServerStream) (payload : List ℕ) → Valid s → Valid (take_data s payload)
unfolding take_data
take_data-Valid s payload v =
    state_with Valid s.state (λ e. if_both Valid (length payload == 0) v (pend-Valid s payload e v))
      (λ e. if_both Valid (length payload == 0) v (enqueue-Valid s payload e v)) (λ _. v)
