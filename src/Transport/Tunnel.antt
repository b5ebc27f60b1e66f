-- ===== src/Transport/Tunnel.antt =====
-- What the receive loops make of the packets that transports sent.
use shadow_gre.Prelude.{
  ℕ, ◌+◌, ◌≤◌, ◌≡◌, refl, sym, ap, ◌∙◌, inl, inr, Bool, true, false, not, ◌&&◌, Bool-cases, List,
  [], ◌∷◌, ◌++◌, append_assoc, append-nil, arith, length, map, take, take_all, ltb, ◌==◌,
  if◌then◌else◌, All, Option, ok, err, panic, ◌>>=◌,
}
use shadow_gre.Wire.{IsU32}
use shadow_gre.Gre.{new_packet, marshal_packet, unmarshal_packet}
use shadow_gre.Gre.RoundTrip.{new_packet-IsValid, unmarshal_packet-marshal_packet}
use shadow_gre.Transport.{Event, reads, read_fails, read_buffer_size, key_header}
use shadow_gre.Transport.Raw.{RawTransport, is_stranger}
use shadow_gre.Transport.Server.{
  ServerTransport, register, process_from, accept_from_client, server_receive_loop,
}
use shadow_gre.Transport.ZeroCopy.{marshal_packet-new_packet}

-- A call of `Send` somewhere: the address that it comes from, the key of its transport, the payload.
pub record Transmission : Type 0 where
  pub source : ℕ
  pub key : ℕ
  pub payload : List ℕ

-- The key is a uint32, and the packet fits into the buffer of the receiver.
abbrev pub Fits : Transmission → Type 0
Fits s = IsU32 s.key × (8 + length s.payload ≤ read_buffer_size)

-- The packet that `Send` makes, as it is read.
pub arrival : Transmission → Event
arrival s = elim (marshal_packet (new_packet s.key s.payload)) [
  | ok bs ↦ reads s.source bs
  | err _ ↦ read_fails
  | panic ↦ read_fails
]

arrival_reads : (s : Transmission) → arrival s ≡ reads s.source (key_header s.key ++ s.payload)
unfolding arrival
arrival_reads s = rw (arrival, marshal_packet-new_packet s.key s.payload)

parsed :
    (s : Transmission)
    → Fits s
    → unmarshal_packet (take read_buffer_size (key_header s.key ++ s.payload))
      ≡ ok (new_packet s.key s.payload)
parsed s (hk, small) =
    ap unmarshal_packet (take_all read_buffer_size (key_header s.key ++ s.payload) (omega arith))
    ∙ ap (λ r. r >>= unmarshal_packet) (sym (marshal_packet-new_packet s.key s.payload))
    ∙ unmarshal_packet-marshal_packet (new_packet s.key s.payload)
        (new_packet-IsValid s.key s.payload hk)

-- The payloads that a transport with this peer and this key is meant for.
abbrev pub wanted : Option ℕ → ℕ → List Transmission → List (List ℕ)
wanted peer key [] = []
wanted peer key (s ∷ ss) =
    let rest = wanted peer key ss in
    if not (is_stranger peer s.source) && (s.key == key && ltb 0 (length s.payload))
    then s.payload ∷ rest
    else rest

-- The transport after one packet: what it has delivered, and what stays.
abbrev After : RawTransport → Transmission → RawTransport → Type 0
After t s t' =
    (t'.delivered ≡ t.delivered ++ wanted t.remote_ip t.key (s ∷ []))
    × (t'.remote_ip ≡ t.remote_ip)
    × (t'.key ≡ t.key)
    × (t'.closed ≡ t.closed)
    × (t'.on_receive ≡ t.on_receive)

-- What a server with this key is meant to receive, with the addresses it comes from.
abbrev pub addressed : ℕ → List Transmission → List (ℕ × List ℕ)
addressed key [] = []
addressed key (s ∷ ss) =
    let rest = addressed key ss in
    if s.key == key && ltb 0 (length s.payload) then (s.source, s.payload) ∷ rest else rest

abbrev ServerAfter : ServerTransport → Transmission → ServerTransport → Type 0
ServerAfter t s t' =
    (t'.received ≡ t.received ++ addressed t.key (s ∷ []))
    × (t'.key ≡ t.key)
    × (t'.closed ≡ t.closed)
    × (t'.on_receive ≡ t.on_receive)

register_keeps :
    (t : ServerTransport) (addr : ℕ)
    → let t' = register t addr in
      (t'.received ≡ t.received)
      × (t'.key ≡ t.key)
      × (t'.closed ≡ t.closed)
      × (t'.on_receive ≡ t.on_receive)
unfolding register
register_keeps t addr = ground arith

accept_from_client-After :
    (t : ServerTransport) (s : Transmission)
    → t.on_receive ≡ true
    → (t' : ServerTransport) × (accept_from_client t s.source (ok (new_packet s.key s.payload))
        ≡ ok t')
      × ServerAfter t s t'
unfolding accept_from_client new_packet
accept_from_client-After t s handled =
    let (received, key, state, handler) = register_keeps t s.source in
    elim (Bool-cases (s.key == t.key)) [
      | inl mine ↦ elim (Bool-cases (ltb 0 (length s.payload))) [
        | inl some_bytes ↦ (
          called,
          ap (λ b. if b then ok processed else ok t) mine
              ∙ ap ok (
                  with_handler (handler ∙ handled)
                  ∙ ap (λ b. if b then called else known) some_bytes),
          (
            ap (λ l. l ++ (s.source, s.payload) ∷ []) received
                ∙ sym (
                    meant (s.key == t.key) mine
                    ∙ ap (λ b. t.received ++ (if b then (s.source, s.payload) ∷ [] else []))
                        some_bytes),
            key,
            state,
            handler,
          ),
        )
        | inr empty ↦ (
          known,
          ap (λ b. if b then ok processed else ok t) mine
              ∙ ap ok
                  (with_handler (handler ∙ handled) ∙ ap (λ b. if b then called else known) empty),
          (
            received
                ∙ sym (
                    meant (s.key == t.key) mine
                    ∙ ap (λ b. t.received ++ (if b then (s.source, s.payload) ∷ [] else [])) empty
                    ∙ append-nil t.received),
            key,
            state,
            handler,
          ),
        )
      ]
      | inr other ↦ (
        t,
        ap (λ b. if b then ok processed else ok t) other,
        (
          sym (
              ap
                (λ b.
                  t.received
                  ++ (if b && ltb 0 (length s.payload) then (s.source, s.payload) ∷ [] else []))
                other
              ∙ append-nil t.received),
          refl,
          refl,
          refl,
        ),
      )
    ]
  where
    known : ServerTransport
    known = register t s.source

    called : ServerTransport
    called = record known { received = known.received ++ (s.source, s.payload) ∷ [] }

    processed : ServerTransport
    processed = process_from known s.source s.payload

    with_handler :
        known.on_receive ≡ true → processed ≡ (if ltb 0 (length s.payload) then called else known)
    with_handler h =
        unfold process_from in ap (λ b. if b && ltb 0 (length s.payload) then called else known) h

    meant :
        (b : Bool)
        → b ≡ true
        → (t.received ++ (if b && ltb 0 (length s.payload) then (s.source, s.payload) ∷ [] else []))
          ≡ (t.received ++ (if ltb 0 (length s.payload) then (s.source, s.payload) ∷ [] else []))
    meant b e =
        ap
          (λ c.
            t.received
            ++ (if c && ltb 0 (length s.payload) then (s.source, s.payload) ∷ [] else []))
          e

addressed-cons :
    (key : ℕ) (s : Transmission) (ss : List Transmission)
    → addressed key (s ∷ []) ++ addressed key ss ≡ addressed key (s ∷ ss)
addressed-cons key s ss = elim (Bool-cases (s.key == key && ltb 0 (length s.payload))) [
  | inl e ↦ rw e
  | inr e ↦ rw e
]

server_loop_step :
    (t : ServerTransport) (addr : ℕ) (bs : List ℕ) (es : List Event)
    → t.closed ≡ false
    → server_receive_loop t (reads addr bs ∷ es) ≡ (
        accept_from_client t addr (unmarshal_packet (take read_buffer_size bs)) >>= λ t'.
        server_receive_loop t' es)
unfolding server_receive_loop
server_loop_step t addr bs es open_yet =
    ap
      (λ b.
        if b
        then ok t
        else (accept_from_client t addr (unmarshal_packet (take read_buffer_size bs)) >>= λ t'.
            server_receive_loop t' es))
      open_yet

-- The server's end. Of the packets that `Send` makes anywhere, with any key and payload that fits into
-- the buffer, an open transport with a handler hands on the payloads, as they were sent, with their
-- sources and in the order in which they arrive, of those that have its key and are not empty,
-- whatever address they come from, and of these packets no others.
pub server_receive_loop_delivers :
    (t : ServerTransport) (ss : List Transmission)
    → t.closed ≡ false
    → t.on_receive ≡ true
    → All Fits ss
    → (t' : ServerTransport) × (server_receive_loop t (map arrival ss) ≡ ok t')
      × (t'.received ≡ t.received ++ addressed t.key ss)
unfolding server_receive_loop
server_receive_loop_delivers t [] open_yet handled fits = (t, refl, sym (append-nil t.received))
server_receive_loop_delivers t (s ∷ ss) open_yet handled (here, fits) =
    let (t₁, once, (one, key, state, handler)) = accept_from_client-After t s handled in
    let (t', later, all) =
      server_receive_loop_delivers t₁ ss (state ∙ open_yet) (handler ∙ handled) fits in
    (
      t',
      ap (λ e. server_receive_loop t (e ∷ map arrival ss)) (arrival_reads s)
          ∙ server_loop_step t s.source (key_header s.key ++ s.payload) (map arrival ss) open_yet
          ∙ ap
              (λ r.
                accept_from_client t s.source r >>= λ t''. server_receive_loop t'' (map arrival ss))
              (parsed s here)
          ∙ ap (λ r. r >>= λ t''. server_receive_loop t'' (map arrival ss)) once
          ∙ later,
      all
          ∙ ap (λ l. l ++ addressed t₁.key ss) one
          ∙ append_assoc t.received (addressed t.key (s ∷ [])) (addressed t₁.key ss)
          ∙ ap (λ k. t.received ++ (addressed t.key (s ∷ []) ++ addressed k ss)) key
          ∙ ap (λ l. t.received ++ l) (addressed-cons t.key s ss),
    )
