-- ===== src/Tunnel/Shutdown.antt =====
-- `Close` of the server.
use shadow_gre.Prelude.{ℕ, ◌≡◌, true, Option, some, Error, List, All}
use shadow_gre.Reliable.Rtt.{Float64}
use shadow_gre.Reliable.Manager.{Manager}
use shadow_gre.Transport.Server.{ServerTransport}
use shadow_gre.Tunnel.Stream.{ServerStream, stream_state_closed}
use shadow_gre.Tunnel.Server.{ClientState, Server}

-- A stream without an open connection to the backend.
abbrev pub HasNoOpenBackend : ServerStream → Type 0
HasNoOpenBackend ss = ss.has_backend ≡ true → ss.backend_closed ≡ true

-- A stream that is closed has none open.
abbrev pub IsSealed : ServerStream → Type 0
IsSealed ss = ss.state ≡ stream_state_closed → HasNoOpenBackend ss

module _ (fl : Float64) (backend : ℕ → List (List ℕ × Option Error) → List ℕ → Option Error) where
  -- A client whose streams, on both layers, are closed.
  pub record IsClosed (cs : ClientState fl) : Type 0 where
    pub streams : All (λ e. (e.1.state ≡ stream_state_closed) × HasNoOpenBackend e.1) cs.streams
    pub manager : cs.reliable.closed ≡ true
    pub reliable : All (λ e. e.1.closed ≡ true) cs.reliable.streams

  abbrev Ended : Server fl → Type 0
  Ended s' =
      (s'.closed ≡ true)
      × All (λ e. IsClosed e.1) s'.clients
      × ((t : ServerTransport) → s'.transport ≡ some t → t.closed ≡ true)
