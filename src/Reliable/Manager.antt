-- ===== src/Reliable/Manager.antt =====
-- `ReliableManager` of pkg/tunnel/reliable.go: the streams of one peer. `sync.Map` is a map, and
-- `closes` are the calls of `onClose`. What `onData` is called with is each stream's `delivered`.
-- `removed` are the streams that are no longer in the map, as their `Close` left them.
pub mod Close
pub mod HalfClose
use shadow_gre.Prelude.{
  ◌>>=◌, ℕ, Bool, true, false, Option, none, some, List, [], ◌∷◌, ◌++◌, map, drop, length,
  if◌then◌else◌, Outcome, ok,
}
use shadow_gre.Prelude.{lookup, erase, insert}
use shadow_gre.Reliable.Packet.{ReliablePacket, unmarshal_reliable}
use shadow_gre.Reliable.Rtt.{Float64}
use shadow_gre.Reliable.Stream.{
  ReliableStream, Round, new_reliable_stream, receive, send, send_close, close,
}

pub record Manager (fl : Float64) : Type 0 where
  pub streams : List (ℕ × ReliableStream fl)
  pub removed : List (ReliableStream fl)
  pub closes : List ℕ
  pub closed : Bool

module _ (fl : Float64) where
  unfoldable pub new_reliable_manager : Manager fl
  new_reliable_manager = record { streams = []; removed = []; closes = []; closed = false }

  unfoldable pub get_or_create_stream : Manager fl → ℕ → ReliableStream fl × Manager fl
  get_or_create_stream m id =
      let fresh = new_reliable_stream fl id in
      elim (lookup id m.streams) [
        | some s ↦ (s, m)
        | none ↦ (fresh, record m { streams = insert id fresh m.streams })
      ]

  unfoldable pub get_stream : Manager fl → ℕ → Option (ReliableStream fl)
  get_stream m id = lookup id m.streams

  -- The stream that was there, closed.
  unfoldable pub closed_now : Option (ReliableStream fl) → List (ReliableStream fl)
  closed_now none = []
  closed_now (some s) = close fl s ∷ []

  unfoldable pub remove_stream : Manager fl → ℕ → Manager fl
  remove_stream m id = record m {
    streams = erase id m.streams;
    removed = m.removed ++ closed_now (lookup id m.streams);
  }

  -- What `Receive` does with a packet that has been parsed.
  unfoldable pub receive_packet : Manager fl → ReliablePacket → ℕ → Manager fl
  receive_packet m pkt now =
      let (s, m') = get_or_create_stream m pkt.stream_id in
      let (s', is_close) = receive fl s pkt now in
      let stored = record m' { streams = insert pkt.stream_id s' m'.streams } in
      if is_close
      then remove_stream (record stored { closes = m'.closes ++ (pkt.stream_id ∷ []) })
          pkt.stream_id
      else stored

  -- The calls of `onData` that a packet leads to, and whether it is a close.
  unfoldable pub delivered_by : Manager fl → ReliablePacket → ℕ → List (List ℕ) × Bool
  delivered_by m pkt now =
      let (s, m') = get_or_create_stream m pkt.stream_id in
      let (s', is_close) = receive fl s pkt now in
      (drop (length s.receiver.delivered) s'.receiver.delivered, is_close)

  unfoldable pub receive_bytes : Manager fl → List ℕ → ℕ → Outcome (Manager fl)
  receive_bytes m bs now = do pkt ← unmarshal_reliable bs; ok (receive_packet m pkt now)

  unfoldable pub send_on :
      Manager fl
      → ℕ
      → List ℕ
      → List Round
      → (ReliableStream fl → ReliableStream fl)
      → ℕ
      → (ReliablePacket → Outcome (Unit {0}))
      → Manager fl × Option (Outcome (Unit {0}))
  send_on m id payload rounds meanwhile now result =
      let (s, m') = get_or_create_stream m id in
      let (s', answer) = send fl s payload rounds meanwhile now result in
      (record m' { streams = insert id s' m'.streams }, answer)

  unfoldable pub send_close_on :
      Manager fl → ℕ → ℕ → (ReliablePacket → Outcome (Unit {0})) → Manager fl × Outcome (Unit {0})
  send_close_on m id now result = elim (get_stream m id) [
    | none ↦ (m, ok tt)
    | some s ↦
        let (s', answer) = send_close fl s now result in
        (record m { streams = insert id s' m.streams }, answer)
  ]

  unfoldable pub close_all : Manager fl → Manager fl
  close_all m =
      if m.closed
      then m
      else record m { closed = true; streams = map (λ e. (e.0, close fl e.1)) m.streams }
