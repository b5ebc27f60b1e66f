-- ===== src/Tunnel/Served/Carried.antt =====
-- Along the steps of a client's stream at the server, the two peers of the stream stay linked and the
-- stream to the backend is handed what the reliable layer delivers.
use shadow_gre.Prelude.{
  ℕ, ◌≡◌, refl, sym, ap, ◌∙◌, false, Option, none, some, Error, List, [], ◌∷◌, ◌++◌, append_assoc,
  append-nil, if_both, option_with, ok, Outcome, ==_self, lookup, insert, lookup-insert,
}
use mathlib.Core.Path.{subst}
use shadow_gre.Wire.{has}
use shadow_gre.Reliable.Packet.{ReliablePacket, marshal, unmarshal_reliable, flag_close}
use shadow_gre.Reliable.Rtt.{Float64}
use shadow_gre.Reliable.Receiver.{Receiver, new_receiver, ack_timer_fires, send_ack_now, send_ack}
use shadow_gre.Reliable.Stream.{
  ReliableStream, new_reliable_stream, take_seq, transmit, store_and_send, send_close, receive,
  close,
}
use shadow_gre.Reliable.Manager.{Manager, get_or_create_stream, receive_packet, delivered_by}
use shadow_gre.Reliable.Manager.Close.{is_close-receive, receive_packet-own}
use shadow_gre.Reliable.Link.{
  End, new_end, HasSent, Move, takes_seq, transmits, closes_sending, fires_ack_timer,
  checks_retransmit, receives, closes, both_new, left_moves, right_moves,
}
use shadow_gre.Reliable.Link as Link
use shadow_gre.Tunnel.Stream.{ServerStream, create_stream, take_data}
use shadow_gre.Tunnel.Steps.{Step, data_arrives, Reach, here, next}
use shadow_gre.Tunnel.Prefix.{arrived, offered}
use shadow_gre.Tunnel.Server.{ClientState, get_or_create, client_receives}
use shadow_gre.Tunnel.Routing.{takes, fed, told, client_receives-Routed, delivered_by_grows}
use shadow_gre.Tunnel.Served.{
  reliable_of, server_end, IsOwn, Served, fresh, client_moves, packet_arrives, server_moves,
  stream_steps, others_act,
}

module _ (fl : Float64) (backend : ℕ → List (List ℕ × Option Error) → List ℕ → Option Error) where
  -- The server's stream has been handed what the reliable layer has delivered; there is none before
  -- anything is.
  abbrev pub Handed : ℕ → Option ServerStream → List (List ℕ) → Type 0
  Handed id none delivered = delivered ≡ []
  Handed id (some s) delivered =
      (r : Reach (create_stream (backend id)) s) × (offered r ≡ delivered)

  takes-Reach :
      (id : ℕ) (s : ServerStream) (payloads : List (List ℕ))
      (r : Reach (create_stream (backend id)) s)
      → (r' : Reach (create_stream (backend id)) (takes s payloads)) × (offered r'
          ≡ offered r ++ payloads)
  unfolding offered
  takes-Reach id s [] r = (r, sym (append-nil (offered r)))
  takes-Reach id s (payload ∷ rest) r =
      let (r', e) = takes-Reach id (take_data s payload) rest (next r (data_arrives payload)) in
      (r', e ∙ append_assoc (offered r) (payload ∷ []) rest)

  -- The handlers hand over what is delivered.
  fed-Handed :
      (id : ℕ) (found : Option ServerStream) (payloads before : List (List ℕ))
      → Handed id found before
      → Handed id
          (fed found (elim found [ some ss ↦ ss | none ↦ create_stream (backend id) ]) payloads)
          (before ++ payloads)
  unfolding offered
  fed-Handed id none [] before h = append-nil before ∙ h
  fed-Handed id none (payload ∷ rest) before h =
      let (r, e) = takes-Reach id (create_stream (backend id)) (payload ∷ rest) here in
      (r, e ∙ ap (λ l. l ++ payload ∷ rest) (sym h))
  fed-Handed id (some s) [] before (r, e) = (r, e ∙ sym (append-nil before))
  fed-Handed id (some s) (payload ∷ rest) before (r, e) =
      let (r', e') = takes-Reach id s (payload ∷ rest) r in
      (r', e' ∙ ap (λ l. l ++ payload ∷ rest) e)

  -- Only the arrival of a packet delivers.
  own-delivered :
      {p e e' : End fl} (m : Move fl p e e')
      → IsOwn fl backend m
      → e'.stream.receiver.delivered ≡ e.stream.receiver.delivered
  unfolding take_seq transmit store_and_send send_close ack_timer_fires send_ack_now send_ack close
  own-delivered takes_seq own = refl
  own-delivered {p} {e} (transmits i now lt) own =
      if_both (λ (r : Receiver). r.delivered ≡ e.stream.receiver.delivered)
        e.stream.receiver.pending_ack refl refl
  own-delivered {p} {e} (closes_sending now result) own =
      if_both
        (λ (x : ReliableStream fl × Outcome (Unit {0})).
          x.0.receiver.delivered ≡ e.stream.receiver.delivered)
        e.stream.closed refl refl
  own-delivered {p} {e} fires_ack_timer own =
      if_both (λ (r : Receiver). r.delivered ≡ e.stream.receiver.delivered)
        e.stream.receiver.pending_ack refl refl
  own-delivered (checks_retransmit now) own = refl
  own-delivered (receives pkt parsed bs now m wire parse) own = elim own [ ]
  own-delivered {p} {e} closes own =
      if_both (λ (x : ReliableStream fl). x.receiver.delivered ≡ e.stream.receiver.delivered)
        e.stream.closed refl refl

  reliable_of-found :
      (m : Manager fl) (id : ℕ) (st : ReliableStream fl)
      → lookup id m.streams ≡ some st
      → (get_or_create_stream fl m id).0 ≡ st
  unfolding get_or_create_stream
  reliable_of-found m id st e =
      option_with (λ (r : ReliableStream fl × Manager fl). r.0 ≡ st) (lookup id m.streams)
        (λ absent. cc) (λ found same. cc)

  reliable_of-absent :
      (m : Manager fl) (id : ℕ)
      → lookup id m.streams ≡ none
      → (get_or_create_stream fl m id).0 ≡ new_reliable_stream fl id
  unfolding get_or_create_stream
  reliable_of-absent m id e =
      option_with (λ (r : ReliableStream fl × Manager fl). r.0 ≡ new_reliable_stream fl id)
        (lookup id m.streams) (λ absent. refl) (λ found same. cc)

  same_reliable_of :
      (m m' : Manager fl) (id : ℕ)
      → lookup id m'.streams ≡ lookup id m.streams
      → (get_or_create_stream fl m' id).0 ≡ (get_or_create_stream fl m id).0
  same_reliable_of m m' id e = at_lookup (lookup id m.streams) refl
    where
      at_lookup :
          (found : Option (ReliableStream fl))
          → lookup id m.streams ≡ found
          → (get_or_create_stream fl m' id).0 ≡ (get_or_create_stream fl m id).0
      at_lookup none k = reliable_of-absent m' id (e ∙ k) ∙ sym (reliable_of-absent m id k)
      at_lookup (some st) k = reliable_of-found m' id st (e ∙ k) ∙ sym (reliable_of-found m id st k)

  lookup-own : {V : Type 0} (id : ℕ) (v : V) (m : List (ℕ × V)) → lookup id (insert id v m) ≡ some v
  lookup-own id v m = lookup-insert id id v m ∙ rw (==_self id)

  -- The two peers of the stream are linked, and the server's stream has been handed what is delivered.
  abbrev pub Carried : ℕ → (ℕ → List ℕ) → (ℕ → List ℕ) → End fl → ClientState fl → ℕ → Type 0
  Carried id requests replies a cs n =
      Link.Reach fl id requests replies a (server_end fl backend cs id replies n)
      × Handed id (lookup id cs.streams) (reliable_of fl backend cs id).receiver.delivered

  with_stream : (ℕ → List ℕ) → ℕ → ReliableStream fl → End fl
  with_stream replies n st = record { stream = st; payloads = replies; taken = n }

  same_payloads : {p e e' : End fl} → Move fl p e e' → e'.payloads ≡ e.payloads
  same_payloads takes_seq = refl
  same_payloads (transmits i now lt) = refl
  same_payloads (closes_sending now result) = refl
  same_payloads fires_ack_timer = refl
  same_payloads (checks_retransmit now) = refl
  same_payloads (receives pkt parsed bs now m wire parse) = refl
  same_payloads closes = refl

  -- The server's peer moves, and the manager keeps it.
  moves-Carried :
      (id : ℕ) (requests replies : ℕ → List ℕ) (a e' : End fl) (cs : ClientState fl) (n : ℕ)
      → (m : Move fl a (server_end fl backend cs id replies n) e') → IsOwn fl backend m
      → Carried id requests replies a cs n
      → Carried id requests replies a
          (record cs {
            reliable = record cs.reliable { streams = insert id e'.stream cs.reliable.streams };
          })
          e'.taken
  unfolding with_stream
  moves-Carried id requests replies a e' cs n m own (linked, handed) = (
    subst (λ st. Link.Reach fl id requests replies a (with_stream replies e'.taken st)) (sym kept)
        (subst
          (λ ps.
            Link.Reach fl id requests replies a
              (record { stream = e'.stream; payloads = ps; taken = e'.taken }))
          (same_payloads m) (right_moves linked m)),
    subst (λ ds. Handed id (lookup id cs.streams) ds)
        (sym (ap (λ (st : ReliableStream fl). st.receiver.delivered) kept ∙ own-delivered m own))
        handed,
  )
    where
      after : Manager fl
      after = record cs.reliable { streams = insert id e'.stream cs.reliable.streams }

      kept : (get_or_create_stream fl after id).0 ≡ e'.stream
      kept = reliable_of-found after id e'.stream (lookup-own id e'.stream cs.reliable.streams)

  arrives-Carried :
      (requests replies : ℕ → List ℕ) (a : End fl) (cs : ClientState fl) (n : ℕ)
      (pkt parsed : ReliablePacket) (bs : List ℕ) (now : ℕ)
      → HasSent fl a pkt
      → marshal pkt ≡ ok bs
      → unmarshal_reliable bs ≡ ok parsed
      → has parsed.flags flag_close ≡ false
      → Carried parsed.stream_id requests replies a cs n
      → Carried parsed.stream_id requests replies a (client_receives fl backend cs parsed now) n
  unfolding get_or_create delivered_by with_stream
  arrives-Carried requests replies a cs n pkt parsed bs now m wire parse stays (linked, handed) = (
    subst (λ st. Link.Reach fl id requests replies a (with_stream replies n st)) (sym moved)
        (right_moves linked (receives pkt parsed bs now m wire parse)),
    subst (λ found. Handed id found (reliable_of fl backend cs' id).receiver.delivered) (sym own)
        (subst
          (λ ds.
            Handed id (fed (lookup id cs.streams) (get_or_create fl backend cs id) payloads) ds)
          (sym (ap (λ (st : ReliableStream fl). st.receiver.delivered) moved ∙ grown))
          (fed-Handed id (lookup id cs.streams) payloads
            (reliable_of fl backend cs id).receiver.delivered handed)),
  )
    where
      id : ℕ
      id = parsed.stream_id

      cs' : ClientState fl
      cs' = client_receives fl backend cs parsed now

      payloads : List (List ℕ)
      payloads = (delivered_by fl cs.reliable parsed now).0

      grown :
          (receive fl (reliable_of fl backend cs id) parsed now).0.receiver.delivered
          ≡ (reliable_of fl backend cs id).receiver.delivered ++ payloads
      grown = delivered_by_grows fl backend cs.reliable parsed now

      moved :
          reliable_of fl backend cs' id ≡ (receive fl (reliable_of fl backend cs id) parsed now).0
      moved =
          ap (λ (m : Manager fl). (get_or_create_stream fl m id).0)
            (client_receives-Routed fl backend cs parsed now).2
          ∙ reliable_of-found (receive_packet fl cs.reliable parsed now) id _
              (receive_packet-own fl cs.reliable parsed now stays)

      own :
          lookup id cs'.streams
          ≡ fed (lookup id cs.streams) (get_or_create fl backend cs id) payloads
      own =
          (client_receives-Routed fl backend cs parsed now).1
          ∙ ap (λ b. told b (fed (lookup id cs.streams) (get_or_create fl backend cs id) payloads))
              (is_close-receive fl (reliable_of fl backend cs id) parsed now ∙ stays)

  steps-Handed :
      (id : ℕ) {s t : ServerStream} (found : Option ServerStream) (delivered : List (List ℕ))
      (step : Step s t)
      → found ≡ some s
      → arrived step ≡ []
      → Handed id found delivered
      → Handed id (some t) delivered
  unfolding offered
  steps-Handed id {s} found delivered step e quiet h =
      let (r, all) = subst (λ o. Handed id o delivered) e h in
      (next r step, ap (λ l. offered r ++ l) quiet ∙ append-nil (offered r) ∙ all)

  pub served-Carried :
      {id : ℕ} {requests replies : ℕ → List ℕ} {a : End fl} {cs : ClientState fl} {n : ℕ}
      → Served fl backend id requests replies a cs n
      → Carried id requests replies a cs n
  unfolding new_reliable_stream new_receiver with_stream
  served-Carried {id} {requests} {replies} (fresh cs no_stream no_peer) = (
    subst
        (λ st.
          Link.Reach fl id requests replies (new_end fl id requests) (with_stream replies 0 st))
        (sym new) both_new,
    subst (λ o. Handed id o (reliable_of fl backend cs id).receiver.delivered) (sym no_stream)
        (ap (λ (st : ReliableStream fl). st.receiver.delivered) new),
  )
    where
      new : reliable_of fl backend cs id ≡ new_reliable_stream fl id
      new = reliable_of-absent cs.reliable id no_peer
  served-Carried (client_moves r m _) =
      let (linked, handed) = served-Carried r in (left_moves linked m, handed)
  served-Carried {id} {requests} {replies}
        (packet_arrives {a} {cs} {n} pkt parsed bs now r m wire parse same stays) =
      subst
        (λ j.
          Carried j requests replies a cs n
          → Carried j requests replies a (client_receives fl backend cs parsed now) n)
        same (arrives-Carried requests replies a cs n pkt parsed bs now m wire parse stays)
        (served-Carried r)
  served-Carried {id} {requests} {replies} (server_moves {a} {e'} {cs} {n} r m own) =
      moves-Carried id requests replies a e' cs n m own (served-Carried r)
  served-Carried {id} {requests} {replies}
        (stream_steps {a} {cs} {n} {s} {t} r found step quiet _) =
      let (linked, handed) = served-Carried r in
      (
        linked,
        subst (λ o. Handed id o (reliable_of fl backend cs id).receiver.delivered)
            (sym (lookup-own id t cs.streams))
            (steps-Handed id (lookup id cs.streams) _ step found quiet handed),
      )
  served-Carried {id} {requests} {replies} (others_act {a} {cs} {cs'} {n} r same_stream same_peer) =
      let (linked, handed) = served-Carried r in
      let same = same_reliable_of cs.reliable cs'.reliable id same_peer in
      (
        subst (λ st. Link.Reach fl id requests replies a (with_stream replies n st)) (sym same)
            linked,
        subst (λ o. Handed id o (reliable_of fl backend cs' id).receiver.delivered)
            (sym same_stream)
            (subst (λ ds. Handed id (lookup id cs.streams) ds)
              (sym (ap (λ (st : ReliableStream fl). st.receiver.delivered) same)) handed),
      )
