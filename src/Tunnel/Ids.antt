-- ===== src/Tunnel/Ids.antt =====
-- The identifiers that a client gives its streams.
use shadow_gre.Prelude.{
  ℕ, ◌+◌, ◌%◌, ◌^◌, ◌≤◌, ◌<◌, ◌≡◌, refl, ap, ◌∙◌, Option, none, Error, List, [], ◌∷◌, map, length,
  arith, Outcome, All, lookup, lookup-none, All-lookup, All-insert, All-erase, All-map, option_with,
  if_both,
}
use mathlib.Core.Path.{subst}
use shadow_gre.Reliable.Seq.{add32}
use shadow_gre.Reliable.Packet.{ReliablePacket}
use shadow_gre.Reliable.Rtt.{Float64}
use shadow_gre.Reliable.Stream.{ReliableStream, Round}
use shadow_gre.Reliable.Manager.{receive_packet, delivered_by}
use shadow_gre.Tunnel.Client.{
  StreamConn, new_stream_conn, queue_data, server_closes_conn, close_conn,
}
use shadow_gre.Tunnel.Clients.{
  Client, new_client_of, accept_connection, at_stream, read_connection, half_close, forget_stream,
  client_handles_data, client_handles_close, client_handles_all, client_takes_packet,
  close_whole_client,
}

module _ (fl : Float64) where
  -- What happens to a client. Its handlers, the writers and the ends of connections assign to streams.
  pub data ClientMove (c : Client fl) : Client fl → Type 0 where
    connects :
        (conn : List (List ℕ × Option Error) → List ℕ → ℕ × Option Error)
        → ClientMove c (accept_connection fl c conn).1
    assigns : (id : ℕ) (f : StreamConn → StreamConn) → ClientMove c (at_stream fl c id f)
    reads_tcp :
        (id : ℕ) (payload : List ℕ) (rounds : List Round)
        (meanwhile : ReliableStream fl → ReliableStream fl) (now : ℕ)
        (result : ReliablePacket → Outcome (Unit {0}))
        → ClientMove c (read_connection fl c id payload rounds meanwhile now result).0
    half_closes :
        (id now : ℕ) (result : ReliablePacket → Outcome (Unit {0}))
        → ClientMove c (half_close fl c id now result)
    forgets : (id : ℕ) → ClientMove c (forget_stream fl c id)
    takes_packet :
        (pkt : ReliablePacket) (now : ℕ) → ClientMove c (client_takes_packet fl c pkt now)
    ends : ClientMove c (close_whole_client fl c)

  abbrev pub connections : {c c' : Client fl} → ClientMove c c' → ℕ
  connections (connects conn) = 1
  connections (assigns id f) = 0
  connections (reads_tcp id payload rounds meanwhile now result) = 0
  connections (half_closes id now result) = 0
  connections (forgets id) = 0
  connections (takes_packet pkt now) = 0
  connections ends = 0

  pub data Session (c : Client fl) : Client fl → Type 0 where
    starts : Session c c
    moves : {d e : Client fl} → Session c d → ClientMove d e → Session c e

  -- How many connections the client has accepted.
  unfoldable pub accepted : {c d : Client fl} → Session c d → ℕ
  accepted starts = 0
  accepted (moves s m) = accepted s + connections m

  -- No identifier is beyond the last one given.
  record Below (c : Client fl) (count : ℕ) : Type 0 where
    last : c.next_stream_id ≡ (count + 1) % 2 ^ 32
    below : All (λ e. e.0 ≤ count + 1) c.streams

  -- An operation that makes no stream.
  record Makes (c d : Client fl) : Type 0 where
    same : d.next_stream_id ≡ c.next_stream_id
    fewer : (n : ℕ) → All (λ e. e.0 ≤ n) c.streams → All (λ e. e.0 ≤ n) d.streams

  then-Makes : {c d e : Client fl} → Makes c d → Makes d e → Makes c e
  then-Makes a b = record { same = b.same ∙ a.same; fewer = λ n h. b.fewer n (a.fewer n h) }

  at_stream-Makes :
      (c : Client fl) (id : ℕ) (f : StreamConn → StreamConn) → Makes c (at_stream fl c id f)
  unfolding at_stream
  at_stream-Makes c id f =
      option_with (Makes c) (lookup id c.streams) (λ _. record { same = refl; fewer = λ n h. h })
        (λ sc e. record {
          same = refl;
          fewer = λ n h.
              All-insert (λ e. e.0 ≤ n) id (f sc) c.streams
                (All-lookup (λ e. e.0 ≤ n) id c.streams h e) h;
        })

  handle_all-Makes :
      (c : Client fl) (id : ℕ) (payloads : List (List ℕ))
      → Makes c (client_handles_all fl c id payloads)
  unfolding client_handles_all client_handles_data
  handle_all-Makes c id [] = record { same = refl; fewer = λ n h. h }
  handle_all-Makes c id (payload ∷ rest) =
      then-Makes (at_stream-Makes c id (λ sc. queue_data sc payload))
        (handle_all-Makes (client_handles_data fl c id payload) id rest)

  takes_packet-Makes :
      (c : Client fl) (pkt : ReliablePacket) (now : ℕ) → Makes c (client_takes_packet fl c pkt now)
  unfolding client_takes_packet client_handles_close
  takes_packet-Makes c pkt now =
      let c₁ = record c { reliable = receive_packet fl c.reliable pkt now } in
      let payloads = (delivered_by fl c.reliable pkt now).0 in
      let c₂ = client_handles_all fl c₁ pkt.stream_id payloads in
      let got : Makes c c₂ =
        then-Makes (record { same = refl; fewer = λ n h. h })
          (handle_all-Makes c₁ pkt.stream_id payloads) in
      if_both (Makes c) (delivered_by fl c.reliable pkt now).1
        (then-Makes got (at_stream-Makes c₂ pkt.stream_id server_closes_conn)) got

  mapped :
      (n : ℕ) (m : List (ℕ × StreamConn))
      → All (λ e. e.0 ≤ n) m
      → All
          (λ (e : ℕ × StreamConn). e.0 ≤ n)
          (map (λ (e : ℕ × StreamConn). (e.0, close_conn e.1)) m)
  mapped n [] h = tt
  mapped n (e ∷ m) (p, h) = (p, mapped n m h)

  read_connection-Makes :
      (c : Client fl) (id : ℕ) (payload : List ℕ) (rounds : List Round)
      (meanwhile : ReliableStream fl → ReliableStream fl) (now : ℕ)
      (result : ReliablePacket → Outcome (Unit {0}))
      → Makes c (read_connection fl c id payload rounds meanwhile now result).0
  unfolding read_connection
  read_connection-Makes c id payload rounds meanwhile now result =
      let made =
        at_stream-Makes c id
          (λ sc. record sc { bytes_out = (sc.bytes_out + length payload) % 2 ^ 64 }) in
      record { same = made.same; fewer = made.fewer }

  half_close-Makes :
      (c : Client fl) (id now : ℕ) (result : ReliablePacket → Outcome (Unit {0}))
      → Makes c (half_close fl c id now result)
  unfolding half_close
  half_close-Makes c id now result =
      option_with (Makes c) (lookup id c.streams) (λ _. record { same = refl; fewer = λ n h. h })
        (λ sc _.
          if_both (Makes c) sc.server_closed (record { same = refl; fewer = λ n h. h })
            (record { same = refl; fewer = λ n h. h }))

  forget_stream-Makes : (c : Client fl) (id : ℕ) → Makes c (forget_stream fl c id)
  unfolding forget_stream
  forget_stream-Makes c id = record {
    same = refl;
    fewer = λ n h. All-erase (λ e. e.0 ≤ n) id c.streams h;
  }

  close_whole_client-Makes : (c : Client fl) → Makes c (close_whole_client fl c)
  unfolding close_whole_client
  close_whole_client-Makes c =
      if_both (Makes c) c.closed (record { same = refl; fewer = λ n h. h })
        (record { same = refl; fewer = λ n h. mapped n c.streams h })

  Makes-Below : {c d : Client fl} (count : ℕ) → Makes c d → Below c count → Below d (count + 0)
  Makes-Below {c} {d} count m b = record {
    last = m.same ∙ b.last ∙ omega arith;
    below =
        subst (λ n. All (λ (e : ℕ × StreamConn). e.0 ≤ n + 1) d.streams) (omega arith)
          (m.fewer (count + 1) b.below);
  }

  weaken :
      (n k : ℕ) (m : List (ℕ × StreamConn))
      → n ≤ k
      → All (λ (e : ℕ × StreamConn). e.0 ≤ n) m
      → All (λ (e : ℕ × StreamConn). e.0 ≤ k) m
  weaken n k m le h = All-map (λ e. e.0 ≤ n) (λ e. e.0 ≤ k) m (λ e p. omega arith) h

  accept_connection-Below :
      (c : Client fl) (conn : List (List ℕ × Option Error) → List ℕ → ℕ × Option Error) (count : ℕ)
      → Below c count
      → Below (accept_connection fl c conn).1 (count + 1)
  unfolding accept_connection
  accept_connection-Below c conn count b = record {
    last = omega (arith, b.last);
    below =
        All-insert (λ e. e.0 ≤ count + 1 + 1) (add32 c.next_stream_id 1) (new_stream_conn conn)
          c.streams (omega (arith, b.last))
          (weaken (count + 1) (count + 1 + 1) c.streams (omega arith) b.below);
  }

  move-Below :
      {c d : Client fl} (count : ℕ) (m : ClientMove c d)
      → Below c count
      → Below d (count + connections m)
  move-Below {c} count (connects conn) b = accept_connection-Below c conn count b
  move-Below {c} count (assigns id f) b = Makes-Below count (at_stream-Makes c id f) b
  move-Below {c} count (reads_tcp id payload rounds meanwhile now result) b =
      Makes-Below count (read_connection-Makes c id payload rounds meanwhile now result) b
  move-Below {c} count (half_closes id now result) b =
      Makes-Below count (half_close-Makes c id now result) b
  move-Below {c} count (forgets id) b = Makes-Below count (forget_stream-Makes c id) b
  move-Below {c} count (takes_packet pkt now) b = Makes-Below count (takes_packet-Makes c pkt now) b
  move-Below {c} count ends b = Makes-Below count (close_whole_client-Makes c) b

  Session-Below : {c d : Client fl} (s : Session c d) → Below c 0 → Below d (accepted s)
  unfolding accepted
  Session-Below starts b = b
  Session-Below (moves s m) b = move-Below (accepted s) m (Session-Below s b)

  new_client_of-Below : (server_ip key : ℕ) → Below (new_client_of fl server_ip key) 0
  unfolding new_client_of
  new_client_of-Below server_ip key = record { last = refl; below = tt }

  -- The identifiers are fresh. Whatever has happened to a client since it was made, as long as it has
  -- accepted fewer than 2^32 - 2 connections, the next one gets an identifier that no stream of the
  -- client has: the first gets 2, and each later one the next number.
  pub fresh_id :
      (server_ip key : ℕ) (conn : List (List ℕ × Option Error) → List ℕ → ℕ × Option Error)
      {c : Client fl} (s : Session (new_client_of fl server_ip key) c)
      → accepted s + 2 < 2 ^ 32
      → ((accept_connection fl c conn).0 ≡ accepted s + 2)
        × (lookup (accept_connection fl c conn).0 c.streams ≡ none)
  unfolding accept_connection
  fresh_id server_ip key conn {c} s few =
      let b = Session-Below s (new_client_of-Below server_ip key) in
      let given : add32 c.next_stream_id 1 ≡ accepted s + 2 = omega (arith, b.last) in
      (
        given,
        ap (λ id. lookup id c.streams) given
            ∙ lookup-none (accepted s + 2) c.streams (
                All-map (λ e. e.0 ≤ accepted s + 1) (λ e. ¬ (e.0 ≡ accepted s + 2)) c.streams
                  (λ e p q. omega arith) b.below),
      )
