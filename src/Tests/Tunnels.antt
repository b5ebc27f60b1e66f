-- ===== src/Tests/Tunnels.antt =====
-- A transport of a tunnel with the key 9, and packets for it and for others.
use shadow_gre.Prelude.{
  ℕ, ◌≡◌, refl, true, false, none, some, List, [], ◌∷◌, ◌++◌, map, arith, All, ok, ◌>>=◌,
}
use shadow_gre.Transport.{key_header}
use shadow_gre.Transport.Raw.{RawTransport, new_raw_transport, send, send_zero_copy}
use shadow_gre.Transport.Server.{
  ServerTransport, new_server_transport, send_to, send_zero_copy_to, server_receive_loop,
}
use shadow_gre.Transport.ZeroCopy.{zero_copy_agrees}
use shadow_gre.Transport.Tunnel.{Transmission, Fits, arrival, server_receive_loop_delivers}

abbrev client_end : RawTransport
client_end = record (new_raw_transport (some 1) 9) { closed = false; on_receive = true }

abbrev server_end : ServerTransport
server_end = record (new_server_transport 9) { closed = false; on_receive = true }

abbrev eight_bytes : List ℕ
eight_bytes = 0 ∷ 0 ∷ 0 ∷ 0 ∷ 0 ∷ 0 ∷ 0 ∷ 0 ∷ []

zero_copy_agrees_example :
    let left = key_header 9 ++ (5 ∷ 6 ∷ 7 ∷ []) in
    (send_zero_copy client_end (eight_bytes ++ ((5 ∷ 6 ∷ []) ++ (7 ∷ []))) 8 2 none
      ≡ (send client_end (5 ∷ 6 ∷ []) none >>= λ (t', e). ok (t', left, e)))
    × (send_zero_copy_to server_end 3 (eight_bytes ++ ((5 ∷ 6 ∷ []) ++ (7 ∷ []))) 8 2 none
        ≡ (send_to server_end 3 (5 ∷ 6 ∷ []) none >>= λ (s', e). ok (s', left, e)))
unfolding new_raw_transport new_server_transport
zero_copy_agrees_example =
    zero_copy_agrees eight_bytes (5 ∷ 6 ∷ []) (7 ∷ []) refl client_end server_end 3 none

-- From the peer, from the peer with another key, and from elsewhere.
abbrev transmissions : List Transmission
transmissions =
    record { source = 1; key = 9; payload = 5 ∷ 6 ∷ [] }
    ∷ record { source = 1; key = 8; payload = 7 ∷ [] }
    ∷ record { source = 2; key = 9; payload = 8 ∷ [] }
    ∷ []

transmissions-Fits : All Fits transmissions
transmissions-Fits =
    ((omega arith, omega arith), ((omega arith, omega arith), ((omega arith, omega arith), tt)))

server_receive_loop_delivers_example :
    (t' : ServerTransport) × (server_receive_loop server_end (map arrival transmissions) ≡ ok t')
    × (t'.received ≡ server_end.received ++ ((1, 5 ∷ 6 ∷ []) ∷ (2, 8 ∷ []) ∷ []))
unfolding new_server_transport
server_receive_loop_delivers_example =
    server_receive_loop_delivers server_end transmissions refl refl transmissions-Fits
