-- ===== src/Tunnel/EndToEnd.antt =====
-- A client's stream through the tunnel to the server's backend: the reliable streams of both sides, the
-- server's handlers, and the stream to the backend.
use shadow_gre.Prelude.{
  ℕ, ◌^◌, ◌≤◌, ◌<◌, ◌≡◌, sym, ap, ◌∙◌, some, Option, Error, List, ◌++◌, length, concat, lookup,
}
use mathlib.Core.Path.{subst}
use shadow_gre.Reliable.Rtt.{Float64}
use shadow_gre.Reliable.Receiver.Order.{first}
use shadow_gre.Reliable.Link.{End}
use shadow_gre.Reliable.Link.Agreement.{peers_agree}
use shadow_gre.Tunnel.Stream.{ServerStream}
use shadow_gre.Tunnel.Account.{written, waiting}
use shadow_gre.Tunnel.Quiet.{Dead}
use shadow_gre.Tunnel.Prefix.{offered_prefix}
use shadow_gre.Tunnel.Server.{ClientState}
use shadow_gre.Tunnel.Served.{Served, reliable_of, server_end}
use shadow_gre.Tunnel.Served.Carried.{Handed, served-Carried}

-- The bytes `out` are the beginning of those of the first `count` payloads of `s`, of which `taken`
-- are sent, and `rest` are the others.
abbrev pub Begins : (ℕ → List ℕ) → ℕ → ℕ → List ℕ → List ℕ → Type 0
Begins s count taken out rest = (count ≤ taken) × (concat (first s count) ≡ out ++ rest)

-- A client's stream through the tunnel, over a carrier that loses, repeats and reorders packets, after
-- any steps, in any order, of the client's peer, of the server's manager and handlers on its packets,
-- of the server's peer, of the server's stream, and of what leaves this stream as it is at the server,
-- as long as no close of the stream has reached either peer, the server's stream has not been removed,
-- the identifier is a uint32 and each side has taken fewer than 2^31 sequence numbers. When the server
-- has a stream for the identifier, what its backend's `Write` has been called with is the beginning of
-- what the client sends, of as many payloads as the server's peer has delivered; and while the stream
-- takes data, only what waits in it is missing of these.
pub tunnel_end_to_end :
    (fl : Float64) (backend : ℕ → List (List ℕ × Option Error) → List ℕ → Option Error) (id : ℕ)
    (requests replies : ℕ → List ℕ) (client : End fl) (cs : ClientState fl) (n : ℕ)
    (s : ServerStream)
    → id < 2 ^ 32
    → Served fl backend id requests replies client cs n
    → client.taken < 2 ^ 31
    → n < 2 ^ 31
    → lookup id cs.streams ≡ some s
    → (rest : List ℕ) × Begins requests
        (length (reliable_of fl backend cs id).receiver.delivered)
        client.taken
        (concat (written s))
        rest
      × (¬ Dead s → rest ≡ concat (waiting s))
tunnel_end_to_end fl backend id requests replies client cs n s small_id run few_a few_b found =
    let (linked, handed) = served-Carried fl backend run in
    let ((there, count, _), _) =
      peers_agree fl id requests replies client (server_end fl backend cs id replies n) small_id
        linked few_a few_b in
    let (r, all) =
      subst (λ o. Handed fl backend id o (reliable_of fl backend cs id).receiver.delivered) found
        handed in
    let (rest, e, alive) = offered_prefix (backend id) r in
    (rest, (count, sym (ap concat there) ∙ sym (ap concat all) ∙ e), alive)
