-- ===== src/Lib.antt =====
-- The peer of a virtual local area network: it registers with a server, relays Ethernet frames
-- between a virtual network card and the server, and opens direct channels to other peers.
--
-- The parts, and how they interact:
--   * Varint models netty/utils/binary.go, the length header in groups of seven bits. Go's panic on
--     a buffer that is too short is the result `none`.
--   * Deframer models readAndDeal, the reader of a stream of frames that serial/protocol/protobuf.go and
--     netty/codec/format/protobuf.go both have; what is done with a frame is its parameter.
--   * Framing models serial/protocol/protobuf.go: `handle_write` sends a message as a header and its
--     bytes, `read_tcp` takes chunks of a stream and delivers the messages in it, `read_udp` takes
--     one datagram. A message is its bytes: what the protobuf library makes of them is outside.
--   * Address models the addresses and masks of common/utils.go.
--   * Model has the configuration and the states (model/base.go, model/config.go,
--     model/tuntap_info.go) and the messages of protocol/Message.proto.
--   * P2p models service/p2p_service.go. P2p/State has the maps of P2pService and the contexts that
--     they point to; P2p/Punch asks for direct channels and forwards frames, P2p/Connect tries and
--     establishes them, P2p/Check is the round that the service makes every three seconds, and its
--     end. P2p/Handler models service/data_handler.go, the handler of a direct channel. P2p/Reachable
--     is the step relation of all these operations and of the punch channels, in any order; P2p/Owned and P2p/Sound carry its
--     invariant through each of them.
--   * Tap models the calls of service/tuntap_service.go on the network card.
--   * Runtime models service/runtime_service.go. Runtime/State has RuntimeService and the world of
--     the services; Runtime/Send is what it sends, Runtime/Auth the registration, Runtime/Peers the
--     known peers and the routes, Runtime/Pages the devices behind a peer, Runtime/Link its own
--     connection, and Runtime/Life its start, its loop and its end.
--   * Server models service/msg_handler.go, the dispatch of the server's messages to the services,
--     and the loop of the network card that posts frames.
--   * Crypto models common/security.go: keys, padding and buffers around the block ciphers of Go's
--     library, whose functions and their laws are the records Ciphers and IsCipher. Runtime/Secrets
--     has EncryptMsg and DecryptMsg, which call it.
--   * Codec models netty/codec/format/protobuf.go. Codec itself has datagram channels, which every
--     service chooses: `handle_write` encrypts a packet, counts it and frames it, `handle_read` undoes
--     that. Codec/EndToEnd has what protobuf promises, the record IsProto, and Codec/Delivery the
--     passwords that let packets through. Codec/Stream has the stream branch, on the reader of Deframer.
--   * Settings models config/config_app.go, the file of the configuration.
--   * App models wails-app.go, the calls of the program's window: App itself shows and saves the
--     configuration, App/PeerList is the sorted list of peers, App/History the history of the log,
--     and App/Life starts the services and ends them.
--   * Serial models serial/serial_service.go. The serving half, with serial/server_context.go and
--     serial/server_handler.go, is in Serial itself: other peers open this device's serial ports.
--     Serial/Reachable is the step relation of that half, Serial/Balance counts the ports,
--     Serial/Expiry is the round that gives up silent peers, Serial/Access says who may use the ports.
--     Serial/Client models serial/client_context.go, the connection to the ports of another peer, and
--     Serial/Calls the calls of the service on it, and Serial/Answers what arrives on it, with
--     serial/client_handler.go; Serial/Reconnect is about making it again, and Serial/Round is a round
--     of the check over both halves.
--     Serial/Pairs models serial/virtual_com.go, the pairs of virtual ports.
--   * Ping models common/ping.go, the echo messages by which the network and the server are tested;
--     Ping/Checksum has the rule of RFC 1071.
--
-- State is passed explicitly, and what a service does to its surroundings is its log, oldest first.
-- A pointer that may be nil is an Option, a channel or a context that several parts share is a
-- number, and a panic is a result of its own. The clock, the sockets, the devices, the ARP table and
-- random numbers are parameters. A goroutine's loop is one call for each of its rounds.
--
-- Bounds and fuel: numbers are native, with the wrap-around of 32 and 64 bits written out. The loop
-- of MaskBitLen and the printing of numbers run on fuel 32 and 20, the most digits that there are;
-- the stream reader runs on fuel one above the number of bytes that it holds, which it cannot use
-- up, since each message takes at least one byte.
--
-- Of service/runtime_service.go, sendGratuitousArp, which nothing calls, and the waiting of
-- UpdateConfig are left out; common.AesEncrypt followed by base64 is a parameter there. What arrives
-- before each of the fifteen looks of GetLinkInfos is a list of pages.
--
-- Not modelled: the loops that read a serial port, the drivers and the network library, and the making
-- of RSA keys. The drivers and the library are I/O or copies of other libraries.
pub mod Base
pub mod Varint
pub mod Address
pub mod Deframer
pub mod Framing
pub mod Model
pub mod Crypto
pub mod P2p
pub mod Tap
pub mod Runtime
pub mod Server
pub mod Codec
pub mod Settings
pub mod App
pub mod Serial
pub mod Ping
mod Tests
