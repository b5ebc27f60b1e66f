-- ===== src/Lib.antt =====
-- shadow-gre carries TCP connections over GRE packets: a codec for GRE, packets and frames that a
-- tunnel multiplexes, a multiplexer of connections over those frames, raw-socket transports, a
-- reliable transport of its own on top of the lossy carrier, the two ends of the tunnel, and the
-- command that starts one of them. This library models all of these.
--
-- How the parts interact. `ReliableManager` (pkg/tunnel/reliable.go) parses each packet from the
-- carrier, finds or makes its `ReliableStream`, and hands the packet on. A stream processes the
-- acknowledgement with its sending half, then the data with its receiving half, which delivers in
-- order and answers with acknowledgements. A close removes the stream. `Manager`
-- (pkg/tunnel/manager.go) is the older layer: it parses frames and hands their payloads to
-- connections, which buffer them for `Read`. Both send through a transport (pkg/transport), which
-- wraps each packet into GRE with the tunnel's key and, on the way in, passes on only what has
-- that key and comes from its peer. The server (pkg/shadowgre/server.go) gives each stream a
-- connection with the backend: data that arrives while that is dialled waits in `pendingData`,
-- later data in a channel that a goroutine writes out. The client (pkg/shadowgre/client.go) makes a
-- stream of each connection that it accepts, under the next stream id. The command
-- (cmd/shadow-gre/main.go) turns its flags into a server or a client with a key from the password.
--
-- Which file models what:
--   Prelude       shared names, Boolean tests, lists by native numbers, Go maps as association lists,
--                 and `Outcome`: what a call returns, its error, or a run-time panic
--   Wire          byte slices and encoding/binary's big-endian words; a read or a write that leaves
--                 the slice is a panic
--   Gre           pkg/gre/gre.go: headers, packets, and in Gre/Ip the IPv4 header
--   Frame         pkg/tunnel/frame.go
--   Stream        pkg/tunnel/stream.go
--   Reliable      pkg/tunnel/reliable.go, by its parts:
--     Packet      `ReliablePacket`: `HeaderSize`, `Marshal`, `MarshalTo`, `UnmarshalReliable`
--     Seq         `seqLess`, `seqLessOrEqual`, `seqGreater`
--     Sack        `buildSackBlocks`
--     Receiver    the receiving half: `processData`, `deliverOutOfOrder`, `scheduleAck`, the ACKs
--     Rtt         `RTTEstimator`
--     Congestion  `onAckAdvance`, `onLossFast`, `onLossRTO`
--     Sender      the sending half: `processAck`, `markSackedAndCollectGaps`, `checkRetransmit`
--     Stream      `ReliableStream`: `Send`, `SendClose`, `Receive`, `Close`, `waitForWindow`; in
--                 Growth what a packet adds to the delivered payloads
--     Manager     `ReliableManager`
--     Link        two streams and the carrier between them: in Resend what a sender keeps, in Arrivals
--                 and Honest what a receiver does, in Moves and Sound what each move keeps, in
--                 Agreement what follows for the two peers
--     Manager/HalfClose  what the server sends after the client's close
--   Multiplexer   pkg/tunnel/manager.go, by its parts:
--     Connection  `Connection`: `Read`, `deliver`, `waitEstablished`
--     Manager     `Manager`, its `sendFrame`, and `Write` and `Close` of a connection
--     Dial        `Dial` and `Accept`
--     Handle      `HandleFrame`, `Close` and `Stats`
--     Bytes       a connection as a queue of bytes; Write and Delivery: a write and its arrival;
--                 Invariant, Steps and Runs: all sequences of operations; Handshake; Loss: lost data
--   Transport     pkg/transport: in Raw `RawTransport` of raw.go, in Server `ServerTransport` of
--                 server.go, in ZeroCopy and Tunnel what they do with packets
--   Tunnel        pkg/shadowgre, the stream of each end first:
--     Stream      `serverStream` of server.go, what the handlers do with it and its goroutines; in
--                 Steps their order, in Account, Writing and Order where the data is, in Close two
--                 ends that leave something behind
--     Client      `streamConn` of client.go; in Delivery where its data is
--     Quiet, Prefix  what a stream of the server makes of the data that it is handed
--     Server      `Server`, `clientState` of server.go, from a packet to the handlers; in Routing
--                 what a packet changes, in Shutdown `Close`
--     Served      the reliable manager, the handlers and the stream of the server together, with the
--                 client's peer on the other side, until a close reaches either; in Carried what the steps
--                 keep; EndToEnd: what follows for the backend
--     Clients     `Client` of client.go; in Sessions what a packet changes, in Ids the stream ids
--   Command       cmd/shadow-gre/main.go: in Key `passwordToKey`, in Flags `main`, `runClient` and
--                 `runServer`, in Modes what each choice of flags leads to; Xor is the exclusive or
--   Tests         the theorems at concrete inputs
--
-- How code and model correspond. A function or method has its name in snake_case; a method takes
-- the receiver's state and returns the new one. A uint32 or uint16 is a native number with its
-- wrap-around written out. What `sendFunc`, `deliverFunc`, `onClose` are called with is logged in
-- the state, and what `sendFunc` returns is an argument of the operation. Time is an argument in
-- nanoseconds: `time.Now` and `time.Since` in one operation read the same time. An operation under
-- a mutex is one step. A connection of the multiplexer, which the map, `Accept` and the program
-- share by pointer, is a position in the store of all connections; each method runs as one step,
-- and `Dial` is two steps with anything between them. A stream of the server moves by a step
-- relation: a handler of the server is one step, and each goroutine has a place that its steps
-- move. So do two peers of a reliable stream: each operation is a step, but `Send`, which takes
-- its sequence number in one and sends in a later one; the bytes of a packet that was handed to
-- the carrier can arrive at any later time, any number of times. A call that waits on channels
-- answers none until one of them is ready; where two are, an argument says which the `select`
-- takes. An IP address is a number. Go's unspecified order of a map is the order of the
-- association list, which is arbitrary.
--
-- Parameters. Go's float64 is the record `Float64` of Reliable/Rtt, with the laws of order and
-- rounding that the estimator needs, of which those on rounding hold in the range where Go's
-- float64 keeps them; NaN is a value of it. Tests/Floats gives an instance with a fixed point.
-- `net.IP.To4` is an argument of `marshal_ip_header`. The backend is a function from the writes
-- so far and the data to the error that `Write` returns, one for each stream id; the client's
-- connection also tells how many bytes it took. `net.ParseIP` is an argument of the command. The
-- errors of `net.Listen` and of the transports' constructors are arguments. FNV-1a, which
-- hash/fnv computes, is written out from its definition; a password or a flag is a list of bytes.
-- What `WriteToIP` returns is an argument, and what `ReadFromIP` returns is the list of events
-- that the receive loops take.
--
-- Bounds and fuel. The loop of `deliverOutOfOrder` runs on the number of buffered packets and one
-- more: each round takes one out. The loops of `processAck` and of the SACK scan run on the number
-- of rounds that the code itself computes, at most `2 * MaxCwnd`. `waitForWindow` takes the list
-- of what its rounds read, and has no answer if it still waits at the end of the list. The loop of
-- the multiplexer's `Write` runs on the number of bytes: each round sends one at least. The
-- receive loops recurse on their events.
--
-- Not modelled: of the command the usage text, the parsing of flags and the signals that end it.
-- Of the two ends: the race of two packets that both find a new peer, log lines, and deadlines:
-- the deadline by which the client's writer unblocks a `Read`. Of a stream of the server also
-- that its reader can close it between the checks and the channel send of `handleReliableData`,
-- and of one of the client that its writer can leave between the closed check and the channel
-- send of its `handleReliableData`: each is one step here. Of two peers of a reliable stream,
-- that a manager replaces a stream after a close: Manager models it, Link is about one stream. Of
-- the transports: `Start`, the sizes of the socket's buffers and the log lines; a slice has no
-- more capacity than bytes. Of the reliable transport: `pace`, which only sleeps; the ticker of
-- `retransmitLoop`, whose calls are calls of `check_retransmit`; the race of two callers of
-- `GetOrCreateStream`; and that the payloads of the two NoCopy parsers share the memory of their
-- argument.
pub mod Prelude
pub mod Wire
pub mod Gre
pub mod Frame
pub mod Stream
pub mod Reliable
pub mod Multiplexer
pub mod Transport
pub mod Tunnel
pub mod Command
pub mod Tests
