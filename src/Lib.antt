-- ===== src/Lib.antt =====
-- PLGames Booster Up: a relay server for game traffic, and the desktop client that sends a game's
-- datagrams through it. The program's core is in two Rust crates.
--
-- The relay (relay/src). A management interface registers sessions: a token, the game servers'
-- addresses and ports, and a socket of the session's own. The client's packets name the token; the
-- relay forwards their payload from the session's socket to the session's target, and wraps what
-- the game server answers to that socket in packets for the client.
--   Relay/Protocol.antt     relay/src/protocol.rs: PlgPacket::parse, serialize, the flag tests
--   Relay/Metrics.antt      relay/src/metrics.rs: the counters
--   Relay/Session.antt      relay/src/session.rs: SessionCache, with register in two halves around
--                           its await (register_begin, register_finish)
--   Relay/Forwarder.antt    relay/src/forwarder.rs: client_listener (client_packet up to the await,
--                           after_send behind it), the response listener (game_packet, after_reply),
--                           parse_control_payload
--   Relay/Api.antt          relay/src/api.rs: the key test, the handlers
--   Relay/Config.antt       relay/src/config.rs: Config::from_env
--   Relay/System.antt       relay/src/main.rs: the tasks as a step relation on the cache
--   Relay/Server.antt       relay/src/main.rs: the start of the server
-- The client (client/src-tauri/src). It has two data paths: a local UDP proxy to which the game
-- connects, and an interceptor of the game's packets; both talk to one or two relays.
--   Client/Protocol.antt       protocol.rs: PlgPacket with its constructors, encode, parse
--   Client/Proxy.antt          udp_proxy.rs: start, the tasks as steps on the shared state, stop
--   Client/PacketBuilder.antt  packet_builder.rs: build_udp_response and the checksums
--   Client/FilterBuilder.antt  filter_builder.rs: cidr_to_ip_range, parse_port_range and
--                              build_windivert_filter; the expressions of the filter language that
--                              it writes, with their meaning (Meaning)
--   Client/WinDivert.antt      windivert.rs: the capture thread, the receive threads, keepalives
-- The two programs meet on the network.
--   Tunnel.antt                a proxy, the relay's cache and the datagrams under way between
--                              them, with what the two sides promise together (Channel)
-- Above the client's data paths is the application: the user's commands ask the API service for a
-- session and start one of the two data paths on it, and a monitor does the same when it sees a game
-- run.
--   Client/Api.antt            api_client.rs: the structures (Types), errors and responses (Http), the
--                              requests and with_auto_refresh (Requests)
--   Client/Store.antt          auth.rs, config.rs: the two files
--   Client/GameDetector.antt   game_detector.rs: detect_running_game
--   Client/App.antt            commands.rs: the state of the application (App) and what answers it
--                              (Env); ActiveBoost, cmd_start_boost, cmd_stop_boost and
--                              cmd_get_boost_status (Boost), the settings and the set-up of lib.rs
--                              (Settings), the commands around the program itself (Shell), the
--                              other commands (Commands)
--   Client/Monitor.antt        smart_monitor.rs: one tick of the loop, auto_connect, and
--                              find_best_node (BestNode)
--   Client/Runs.antt           sequences of commands, ticks and rounds of the active local proxy
-- Base.antt holds the shared helpers (tests, lists, association lists, bits, decimal numbers, words)
-- and Net.antt what the program uses of the standard library's addresses and texts. The files below
-- a component hold its proofs, the Examples files apply the theorems at concrete values, and the Tests
-- files hold the programs' own unit tests.
--
-- Conventions. Numbers are natural numbers with the wrap-around of their type written out, as in a
-- release build; instants are numbers of one clock, which counts milliseconds at the relay, and a
-- duration that would be negative is 0. A text is the list of its bytes. A hash map is an association
-- list; where the program asks for any first entry, the choice is a parameter. What the operating system answers (a bound socket and its
-- port, the bytes sent, the time) is an argument. A counter of the metrics library is a number that
-- wraps at 2^64. The text form of IPv6 addresses is a parameter (Ipv6Text) with one law: a text that
-- parses as such an address has a colon. A step of the relay runs from one await to the next; in
-- Relay/System.antt a registration is one step of Step and may be cut at its await in Overlap;
-- Relay/Session/Race.antt is about two that overlap. In Tunnel.antt the proxy has no backup relay,
-- the session stays registered on its port, and a datagram under way arrives at any time, any number
-- of times or never. The folding loop of the checksums is given 3 rounds, which is enough for every 32-bit sum.
--
-- The API service with the network is a function from the requests sent so far and the new one to a
-- response or none; the JSON library's readers, the disk's answer to each change of a file, the
-- operating system's answers to each start of a data path, the reader of IPv6 socket addresses and
-- Unicode lower case are fields of Env. A command and a tick are each one step, but for a start of a
-- boost whose test was passed before (tested_start) and three commands that have read their tokens
-- before (late_user and the like): what else overlaps between their awaits is not in Client/Runs.antt.
-- A float is its bit pattern with the order of IEEE 754.
--
-- Not modelled: logging, HTTP and JSON, which are third-party code; of the client the window and the
-- tray, which are calls of the framework, and the pages of the user interface; the Python services
-- and the web site.
pub mod Base
pub mod Client
pub mod Net
pub mod Relay
pub mod Tunnel
