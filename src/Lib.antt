-- ===== src/Lib.antt =====
-- A model of the native protocol of this repository and the theorems that make it correct.
--
-- The program carries vehicle state and commands in encrypted records. A handshake between two
-- endpoints that share a key (src/session.cpp) gives both the keys of a session
-- (src/crypto.cpp). A session (src/record.cpp) seals typed messages (src/messages.cpp) into records
-- under a header with a check value (src/wire.cpp, src/crc16.cpp), and opens what its peer sealed,
-- each sequence number once. The proxy (src/proxy.cpp) takes opened records from its links, keeps
-- the latest state of every stream, and passes records on to the links that subscribed, each with a
-- bounded queue (src/qos.cpp). A vehicle sends its state through the publisher (src/publisher.cpp): what
-- changed since the last poll, and all of it once per period. Endpoints put a session on a UDP socket
-- (src/transport.cpp), and the programs under apps/ are loops around them: the vehicle sends what its
-- publisher gives, the proxy service opens it and seals it again for the ground station. The adapter
-- (src/mavlink2_adapter.cpp) converts commands and telemetry from and to MAVLink 2.
--
-- Files and what they model:
--   Common         words of fixed width, memory, lists, maps, runs of a step relation
--   Wire           include/new_mavlink/wire.hpp, src/wire.cpp: constants, types, classes of messages
--   Crc            src/crc16.cpp: `crc16_ccitt`
--   Messages       include/new_mavlink/messages.hpp, src/messages.cpp: every encode_ and decode_ function
--   Crypto         src/crypto.cpp: `derive_directional_keys`, `make_nonce`, `aead_seal`, `aead_open`
--   Record         include/new_mavlink/record.hpp, src/record.cpp: `ReplayWindow` in Record/Replay, the
--                  header in Record/Header, `Session` in Record/Session
--   Qos            include/new_mavlink/qos.hpp, src/qos.cpp: `BoundedQosQueue`
--   Handshake      include/new_mavlink/session.hpp, src/session.cpp: the codecs in Handshake, the two
--                  classes in Handshake/Sides
--   Proxy          include/new_mavlink/proxy.hpp, src/proxy.cpp: `NativeProxy`, its `ingest` in Proxy/Ingest
--   Publisher      include/new_mavlink/publisher.hpp, src/publisher.cpp: `StatePublisher`, its `poll` in
--                  Publisher/Poll
--   Transport      include/new_mavlink/transport.hpp, src/transport.cpp: `UdpEndpoint` in Transport/Udp,
--                  `NativeEndpoint` in Transport
--   Adapter        include/new_mavlink/mavlink2_adapter.hpp, src/mavlink2_adapter.cpp: all functions, the
--                  conversion of a float in Adapter/Scale
--   Programs       apps/: proxy_service.cpp, gcs_endpoint.cpp, vehicle_endpoint.cpp,
--                  publisher_demo.cpp and px4_adapter_probe.cpp (AdapterProbe), one function for a
--                  turn of each loop
--   Tests          runs at concrete inputs, with a cipher that satisfies the laws of the interface
--
-- A method that changes its object is a function from the state to the state and the result. A
-- result is an Option where the code returns a bool and writes output arguments, and a Result or an
-- Outcome where it also returns an error. What a call leaves in its output arguments when it fails
-- is not modelled: no caller reads it. Memory is a function from addresses to bytes, a pointer is
-- an Option of it, so that a null pointer is none. Numbers are natural numbers; where the code
-- truncates to a width, so does the model, and theorems that need it ask that the fields of a
-- record have their widths. The floats of a command are their bit patterns.
--
-- Ascon, in third_party, is code that is not modelled: its three C functions are the record
-- `Ascon`, an argument of whatever calls them. `IsAead` states what their interface documents: the
-- tag adds 16 bytes, decryption inverts encryption, and nothing else decrypts. `Answers` states that
-- the functions return 0. Neither speaks about secrecy.
--
-- Hash maps are lists of entries; what the code does is independent of their order, except for
-- `cached` and for which messages fit on a queue in `subscribe`, where the order of the list is that of the
-- iteration. The proxy's pointer to a session is the session at the call; the proxy reads only its
-- two identifiers, which `rekey` keeps.
--
-- The loop of `pop` runs on fuel, one more than the queue has messages: every turn takes one
-- message. The loop of the vehicle, that of the publisher's demonstration and the wait of the probe run
-- on fuel with a theorem that it is enough; the wait has three seconds, so that three thousand million
-- turns and one are, if a datagram takes a nanosecond. All other loops of the library are structural.
-- The loops of the proxy service and of the ground station need not end: a turn is a function, and a run of turns a run of a step relation.
--
-- The sockets are the record `Network`, on a state of the outside that every call passes on, and the
-- generated MAVLink functions the record `Mavlink`, on what they keep of a channel. Nothing is assumed
-- of either, but for the theorems that ask that a datagram arrives, or that time passes. A program's
-- clock is an argument of its turn, and for the probe, which reads it several times, a call like the
-- others, in the record `Surroundings`. `float` products are computed on the bits, rounded to nearest even.
--
-- Not modelled: `wipe`, which clears locals that nothing reads again; the destructor of a socket at
-- the end of a program; printing, except for the state that the ground station shows; the parsing of
-- arguments.
pub mod Common
pub mod Wire
pub mod Crc
pub mod Messages
pub mod Crypto
pub mod Record
pub mod Qos
pub mod Handshake
pub mod Proxy
pub mod Tests
pub mod Publisher
pub mod Transport
pub mod Adapter
pub mod Programs
