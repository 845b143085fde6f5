-- ===== src/Lib.antt =====
-- go-ptor: a small onion-routing network. A client builds a circuit over relays (cmd/client), wraps
-- its data in one AES-GCM layer for each hop, and sends it in cells of 512 bytes behind a 16-byte
-- circuit identifier; each relay (cmd/relay) takes one layer off and passes the cell on, and the
-- last one talks to the target. Answers come back with one layer added by each relay. The model
-- covers the domain and service packages under shared, and the handlers, use cases and repositories
-- of the relay and the client.
--
-- Common: lists, maps, results and stateful actions over the native numbers. Common/Respects carries
--   a preorder on states from the steps of an action to the whole of it.
-- Value: shared/domain/value_object (commands, versions, stream, circuit and relay identifiers).
-- Cell: shared/domain/entity/cell.go and shared/domain/aggregate/relay_cell.go.
-- Nonce, Crypto: shared/service/crypto_service.go (ModifyNonceWithSequence; AESSeal, AESOpen,
--   AESMultiSeal, AESMultiOpen; the key exchange in Crypto/Exchange).
-- Keys: the key files of shared/domain/value_object (Keys/Pem), the RSA methods of crypto_service.go
--   (Keys/Rsa), aes_key.go and nonce.go (Keys/Symmetric).
-- Payload: shared/service/payload_encoding_service.go.
-- Net: what the program asks of the operating system, as an environment that may answer each request
--   by all that happened before, so it stands for any network and any peer.
-- Wire: shared/service/cell_sender_service.go, cell_reader_service.go, tcp_circuit_build_service.go;
--   Wire/Grows says what they do to the history of the network.
-- Relay/ConnState: shared/domain/entity/conn_state.go. Relay/Repository: conn_state_repository.go of
--   cmd/relay/infrastructure/repository, with two plain maps as its specification in
--   Relay/Repository/Table. Relay/Use: cmd/relay/usecase, one module for each use case.
--   Relay/Handler: HandleCell of cmd/relay/handler/relay_handler.go. Relay/Serve: its loop ServeConn.
--   Relay/Leaves: what the handlers of one circuit leave alone, and a relay as a step relation
--   (Relay/Leaves/Runs), where a handler, a tick of the collector and a round of forwardUpstream are
--   one step each. Relay/Handler/OneWay: which connections END and DESTROY reach. A *ConnState is an
--   address in Relay/World, so that the repository, handlers and goroutines share one object.
-- Client/Circuit: shared/domain/entity/circuit.go. Client/Repository, Client/Streams: the circuit
--   repository and the stream manager. Client/Directory: relay.go and relay_repository.go.
--   Client/Directory/Load: how both repositories load the directory.
--   Client/Hidden: hidden_service.go and hidden_service_repository.go. Client/Resolve:
--   resolve_target_address_usecase.go, hidden_addr.go and endpoint.go.
--   Client/Use: cmd/client/usecase (Send, Receive, Stream, Build). Client/Socks: the negotiation of
--   cmd/client/handler/socks5_controller.go; Client/Controller: HandleConnection and
--   setupStreamAndRelay; its recvLoop is in Client/Use/Receive.
-- Session: the client and the relays of a circuit together. Session/Handshake, Building and Built:
--   build of build_circuit_usecase.go and the relays that join by EXTEND, one after the other.
--   Session/Opening, Kinds and Begun: BEGIN, up to the connection that the exit dials.
--   Session/Carrying and Carried: BEGIN and the data after it.
--   Session/Hiding and Connecting: CONNECT to a hidden service.
--   Session/EndToEnd: DATA from the client to the exit. Session/Answer and ToClient: data back.
--   A network between two processes is a hypothesis on what one reads once it has written; a relay's
--   process is a world of its own, so the relays run in any order that the cells allow.
-- Programs: decisions of cmd/relay/main.go, cmd/hidden/main.go and cmd/keygen/main.go.
-- Tests: the theorems at concrete inputs.
--
-- A method that changes state and may fail is a function from a state to a result beside the new
-- state: what was done before an error stays done. Counters wrap at 64 bits and the stream counter
-- at 32. Loops are structural recursion, over hops, entries or rounds that are left;
-- forwardUpstream (Relay/Use/Begin) and the relay loop of the controller run over the list of what
-- their reads return. ServeConn and recvLoop have fuel, one for each round: a round that goes on
-- reads 528 bytes, so the bytes that its connection gives until it ends bound it (Wire/Asked). Of
-- packages outside the repository, AES-GCM, ECDH, HKDF, encoding/gob, UUID text, randomness and
-- connections, key formats, RSA-OAEP, HTTP and JSON are parameters. Named hypotheses state what
-- their documentation says: IsAead, RoundTrips, IsUuidText, IsRandom; IsReliable is a network that
-- takes every write, EndsAfter a connection that gives a bounded number of bytes and then fails its
-- reads; IsKeyFormats, IsOaep and IsLower are about key files, RSA and names; Agreement says that
-- the two sides of a key exchange get one secret and derive one key from it, and Answers that what
-- the other side wrote is read.
--
-- Not modelled: the directory server, the copying loop of the hidden service, flags and wiring,
-- logs, metrics, locks (each method that holds one throughout is one step), deadlines (a read or
-- write that runs into one is one that fails), and waiting for ever: every read and write of the
-- model returns, so a peer that stays connected and silent, or takes no bytes, is a run that stops
-- there and of which nothing is said. A SOCKS5 connection is handled on its own, without the
-- goroutine of recvLoop or other connections in between. The client's conn_state_repository.go is
-- an unused copy of the relay's.
pub mod Common
pub mod Value
pub mod Cell
pub mod Nonce
pub mod Crypto
pub mod Net
pub mod Wire
pub mod Payload
pub mod Keys
pub mod Relay
pub mod Session
pub mod Client
pub mod Programs
pub mod Tests
