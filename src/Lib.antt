-- ===== src/Lib.antt =====
-- The device core of esp32-streamline: a model of the firmware's host-testable logic and its correctness.
--
-- The firmware captures stereo PCM from a codec, decides whether a source plays, and sends 1024-byte packets
-- to a bridge, in the clear or under TLS with a pre-shared key. Two tasks share a packet queue and a status
-- block; the configuration, with the transport keys, is kept in two storage slots; changes through HTTP are
-- authenticated by digests. The parts and the files that model them (paths from the repository's root; S
-- stands for firmware/streamline/src):
--
--   Hex                  S/hex.rs and the decoder of S/transport.rs
--   Transport/Keys       KeySlot, TransportKeys and its methods (S/transport.rs); Lifecycle is the
--                        specification, five states without slots, and Refine relates the two
--   Transport/Settings   TransportSettings and verify_pending (S/transport.rs)
--   Transport/Sender     ReconnectingSender (S/transport.rs)
--   Transport/WriteAll   write_all_with (S/transport.rs)
--   Stream/Queue         PacketStorage and PacketQueue (S/stream/queue.rs); Refine holds the specification
--   Stream/Levels        LevelStats::analyze (S/levels.rs)
--   Stream/Play          PlayDetector (S/play.rs)
--   Stream/Wire          PacketHeader and AudioPacket (S/protocol.rs, S/packet.rs)
--   Stream/Status        StreamStatus (S/stream/status.rs)
--   Stream/Capture       CaptureEngine (S/stream/capture.rs)
--   Stream/Network       the network task (S/stream/network.rs), with the turns of the other tasks
--   Stream/Pause         pause_transport (S/stream/pause.rs)
--   Button               PressDetector and the gain steps (S/button.rs)
--   Schedule             ReconnectTimer (S/reconnect.rs), AutoUpdateTimer (S/update.rs)
--   Board                descriptors and their validation (S/board/mod.rs), next_input_line (S/button.rs)
--   Board/Choice         the catalog, its update and the selection at boot (S/board/catalog.rs,
--                        S/board/update.rs, S/board/selection.rs), the codec's check of a descriptor
--                        (S/codec/mod.rs, S/codec/es8388.rs), save_board_state (S/adapters/nvs.rs)
--   Config               the configuration and its validation (S/config.rs)
--   State                StateStore (S/state.rs)
--   Auth                 DigestAuthenticator (S/auth.rs)
--   Ota/Release          parse_release, is_newer (S/update.rs) and check_release (S/update/check.rs)
--   Ota/Custom           custom_image_from_form (S/update.rs)
--   Ota/Install          install_verified (S/update.rs)
--   Ota/Progress         OtaProgress (S/update/progress.rs) and Restart (S/restart.rs)
--   Logs                 LogBuffer (S/logs.rs)
--   Profiles             AudioProfileCatalog (S/profiles.rs)
--   Portal               dns_reply (S/captive_portal.rs)
--   Mutation             MutationError (S/mutation.rs), with the texts of the errors of S/transport.rs
--   Codec                the bus and the ES8388's values (S/codec/es8388.rs), the errors' texts; Codec/Driver its
--                        sequences of writes, Codec/Control CodecControl (S/codec/control.rs),
--                        Codec/Passthrough the reconciliation (S/analog_passthrough.rs); Logic has the
--                        conditions before and after a sequence that the proofs combine, and Codes what the
--                        values of gain and attenuation mean
--   Mode                 Mode (S/mode.rs) and the edits of S/recovery.rs
--   Writes               where a write lands (S/adapters/http/writes.rs); Writes/Handlers, Writes/Audio and
--                        Writes/Output the handlers of S/adapters/http/handlers (settings, transport, leds,
--                        buttons, audio, analog_passthrough, stream), Requests one request after another
--   Auth/Header          parse_digest_fields (S/auth.rs)
--   Prelude              helpers that the modules share
--
-- A method with `&mut self` is a function that returns the new state beside its result; an early return with
-- an error is a `Result`; a panic on an index or an unwrapped value is `none`, or is excluded by a theorem.
-- Unsigned integers are natural numbers, with `%` where the code wraps and `min` where it saturates. Times
-- are milliseconds or whole seconds that the environment supplies. A text is the list of its UTF-8 bytes.
-- Tasks interleave at calls, as the mutexes of the code make them do: a history is a list of calls. The
-- network task and the requests for an update interleave at their atomic operations.
--
-- The handlers of the settings share one state and run one at a time, as the control lock makes them: a handler
-- makes a change on a copy of the configuration, and `update_configuration` validates it and puts it where the
-- mode says. The audio handlers pass their write to the codec's `change_audio` as its commit, so a write that
-- fails takes the registers back.
--
-- Code outside the repository enters as parameters: the random generator (`fill`), the key verifier, the
-- connector and its streams, the driver's reads and the clock (`Reading`), the square root of
-- floating-point numbers (`root_mean`), the packet sink, the image sink, the storage (`Storage`),
-- serde_json and SHA-256 (`Codec`, `digest`), `str::trim`, `str::trim_start` and `u32::from_str_radix`, the
-- I2C driver's answers (`answer`, which sees all earlier events), the printers of errors (`shown`, `brief`,
-- `debug`), and, though it is in the repository, the store that the handlers call (`Store`, of
-- S/adapters/nvs.rs). What a theorem relies on of them is a named hypothesis, and the tests of a module show concrete functions that meet it.
--
-- Fuel: `write_loop` has the number of bytes to send, which is enough since a round without an error sends
-- one or more; the labels of a DNS name have 256 turns, and Portal/Fuel shows that one more changes nothing;
-- `evict` has the number of bytes held, since a turn drops one at least, and `extend` two evictions, of
-- which one is enough where a quarter of the buffer is longer than a line, as Logs/Accounts shows.
-- `parse_digest_fields` has the length of the text after the scheme, since a turn drops one byte at least.
-- `install_verified` recurses on the answers that the source has still to give, and `pause_transport` on its
-- 100 polls.
--
-- Not modelled: the adapters of ESP-IDF, the HTTP types, reads and responses, the handlers of the board
-- selection, of updates and of the restart, the task slots, metrics and telemetry, indicators and health, the
-- wiring of the tasks, and the parts in other languages (bridge, console, tools). The handler of the board
-- selection writes a configuration and an empty catalog for the next board into the memory that the other
-- handlers share, while the board and the codec stay until the restart; so it is not among the requests of
-- Writes/Requests.
pub mod Prelude
pub mod Hex
pub mod Transport
pub mod Stream
pub mod Button
pub mod Schedule
pub mod Board
pub mod Config
pub mod State
pub mod Auth
pub mod Ota
pub mod Logs
pub mod Profiles
pub mod Portal
pub mod Mutation
pub mod Codec
pub mod Mode
pub mod Writes
