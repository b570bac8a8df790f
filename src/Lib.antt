-- ===== src/Lib.antt =====
-- ShaloTrack gateway: a TCP server for GPS trackers of three families, GT06, GPS103 and Teltonika,
-- which share one port. A connection's first bytes choose the family. Its framer cuts the stream
-- into packets, and its handler authenticates the device against an allowlist, writes what a packet
-- reports to the database, and answers the device. A registry in memory knows which device is
-- connected on which socket.
--
-- Which file models what:
--   Framing       utils/packet_buffer.py `extract_packets`, parsers/gps103_parser.py
--                 `extract_messages`, parsers/teltonika_parser.py `extract_frames`. The three loops
--                 are one (Framing/Splitter) on three turns (Gt06, Gps103, Teltonika). Framing/Chunks
--                 has what holds of each such loop, Framing/Streams what holds of the bytes, and
--                 Framing/Sealed what a receiver checks in a packet that the gateway sends.
--   Checksum      `crc16_x25` of parsers/v5_parser.py and `crc16_ibm` of parsers/teltonika_parser.py.
--   Parsers       V5: parsers/v5_parser.py. Teltonika: parsers/teltonika_parser.py, whose `_Reader`
--                 is Parsers/Teltonika/Reader. Gps103: parsers/gps103_parser.py, whose timestamps are
--                 Parsers/Gps103/Clock. Replies: parsers/command_response_parser.py.
--   Numeric       utils/numeric.py.
--   Decoders      decoders/*.py.
--   Registry      services/device_registry.py.
--   Repository    repositories/device_repository.py `get_device_by_imei`, `get_vehicle_by_device`.
--   World         the state that the handlers share, and the statements of
--                 services/tracking_service.py and services/event_service.py. World/Action has the
--                 coroutines' sequencing, `_safely`, `_send`, `_save_raw` and
--                 services/raw_packet_policy.py.
--   Handlers      Gt06: services/packet_handler.py. Teltonika: services/teltonika_handler.py.
--                 Gps103: services/gps103_handler.py.
--   Detect        protocols/detect.py.
--   Server        `handle_device` and the connection cap of tcp_server.py. Server/Sessions: the steps
--                 of connections that run at the same time, in which the `finally` block of
--                 `handle_device` is several steps.
--   Commands      Builder, Settings: utils/command_builder.py. Commands: `send_command` of
--                 services/command_service.py. Service: its `send_` functions.
--   Api           command_api.py: `do_GET`, `_authorized`. Api/Post: `do_POST`. Api/Params: the
--                 commands that take parameters.
--   Health        services/health_service.py: `get_health`, `_db_check`, `_log_state_change`.
--   Tracking      what the statements of services/tracking_service.py do to the rows.
--                 Tracking/Replay: the loop over the records of a Teltonika packet on these rows.
--   Gps103        Commands: utils/gps103_command_builder.py, services/gps103_command_service.py.
--                 Poller, Polling: `due_devices` and `poll_once` of services/gps103_poller.py.
--   Config        config.py.
--   Shared        lists, bytes, texts, integers, dictionaries and results.
--   Tests         each result that has arguments or conditions, at a concrete input.
--
-- Conventions. A byte is a natural number, a text the list of its character codes, a socket the
-- number that `id(writer)` is. A coordinate, a speed or a heading is an integer over a scale, the
-- exact number that the packet says, not a float. A coroutine takes the world to what it returns,
-- or to an exception, and the world after it; its log has every write to a socket, every close and
-- every statement, newest first, with whether it went through. An environment stands for the
-- clock, the database and the network; it sees the whole world, and so may answer differently each
-- time. Numbers stands for int() and float() of Python, and `strptime` for datetime.strptime.
--
-- Fuel. A framer runs one turn more than the buffer has bytes. Every turn but the last takes a
-- byte at least, and `split_fuel` in Framing/Splitter shows that more fuel changes nothing. The
-- loop over a connection's reads is recursion on the list of reads, which ends where the device
-- closes, is reset or is silent for too long. The loops that bring a GPS103 offset into half a day
-- have fuel for two turns; a difference of two times of day needs one turn at most.
--
-- The command API and the health report are given what they cannot see: whether a coroutine ends
-- in its five seconds, what the probes answer, and what json, int(), float(), str(), strip() and
-- lower() make of a request's values (Python in Api/Params). A command that is too late counts as
-- done before the response; when it really is written is left open.
--
-- The rows of Tracking have the columns that something reads; a statement changes them at once or,
-- when the database refuses it, not at all. ON CONFLICT ("DeviceId","EventTime") stands on the
-- unique index that the flag GPS_TRACKING_IDEMPOTENT asks for.
--
-- Not modelled: console, logging, the pool, get_device_status, save_tracking,
-- update_current_location and models, which nothing calls, the settings HOST, LOG_LEVEL and
-- RAW_PACKET_SAMPLE_RATE, the rows of raw packets, events and replies, and the threads and servers
-- that main starts. The lock of the registry makes each of its functions one step: a handler runs
-- alone against a world that the environment may answer for in any way, and Server/Sessions has
-- what connections that interleave do to the registry.
pub mod Shared
pub mod Framing
pub mod Registry
pub mod World
pub mod Numeric
pub mod Repository
pub mod Api
pub mod Checksum
pub mod Parsers
pub mod Handlers
pub mod Health
pub mod Tracking
pub mod Config
pub mod Decoders
pub mod Detect
pub mod Server
pub mod Commands
pub mod Gps103
mod Tests
