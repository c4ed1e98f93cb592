-- ===== src/Lib.antt =====
-- Visuara: the signaling server of a remote desktop program, the configuration that is patched into
-- its client, and the client: its host and its controller, its files, settings and input events.
--
-- The server (visuara-signaling) keeps accounts, devices, settings and login sessions in SQLite and
-- what connections share in memory (AppState). Browsers reach it by the HTTP API, clients by a
-- WebSocket each. A host registers a device and gets a one-time password; a controller asks for a
-- connection to the device with that password, or with the device's unattended password; the server
-- then relays SDP and ICE messages between the two. The client (visuara-client) reads a configuration
-- that the server has patched into its executable (visuara-common). Host and controller then talk over
-- a data channel: input, clipboard texts and files. The client builds that the server hands out are the
-- operator's, or those it fetched from the latest release.
--
-- Which file models what:
--   Prelude         shared names, Boolean tests, and lemmas on lists, rows and texts
--   Db              visuara-signaling/src/db.rs. The tables are lists of rows (Tables); an operation is
--                   a function M A = Db -> Result A x Db that runs its statements under the lock. `faults`
--                   says for each coming call whether it fails for a reason outside the model.
--   Protocol        visuara-common/src/signaling.rs: ClientMessage, ServerMessage
--   Auth, Turn      visuara-signaling/src/auth.rs and turn.rs. Argon2 and HMAC are parameters.
--   State           visuara-signaling/src/state.rs: AppState. A DashMap is a function to Option, a
--                   connection's sender is its channel: whether it is received, and what was sent.
--   Session         visuara-signaling/src/session.rs: cookies, require_account and require_admin,
--                   create_account_and_maybe_bootstrap_admin
--   Api             visuara-signaling/src/api: a handler is a chain of steps on AppState that gives a
--                   value or replies (H); Router has the routes as requests, but those for downloads and
--                   client builds, and `serve`.
--   Ws              visuara-signaling/src/ws.rs: handle_message arm by arm (W), with `?` as an error
--                   value; Ws/Hub has handle_socket as events on the connections (`step`, Reachable),
--                   Ws/Requests the requests of the API beside them.
--   EmbeddedConfig  visuara-common/src/embedded_config.rs, on lists of byte values
--   Downloads       visuara-signaling/src/platforms.rs and api/download.rs: download_platform, over a file
--                   system that is a parameter. Listing has the list of downloads, and client_builds of
--                   api/admin.rs; Numbers has i64's parse of the texts that settings hold.
--   Release         visuara-signaling/src/release_fetch.rs, and fetch_release of api/admin.rs: steps on
--                   the shared state and the files, over HTTP as a parameter. Atomic is about one template
--                   under all failures, Stored and Listed about what a later download and list give.
--   Control         visuara-common/src/control.rs: the messages between two peers
--   Client          visuara-client, a module per file of src:
--                   Clipboard is clipboard_sync.rs, a turn of its loop at a time. Paths and Disk are
--                   the calls of std::path and std::fs on a Unix system, with a schedule of failures;
--                   an open file writes on to its file by number. FileTransfer is file_transfer.rs:
--                   Effects has a message as a step relation on the receiver. Storage is
--                   local_storage.rs, local_settings.rs and saved_credentials.rs with the parts of gui.rs
--                   that load and save; Autostart is autostart.rs on Unix. Host is host.rs: the events
--                   of serve_connections and the messages of the data channel (Channel). Signaling has
--                   signaling_client.rs and what host.rs and controller.rs say to the server up to a
--                   session, as scripts that Talk runs against Ws. Controller is controller.rs: the
--                   negotiation of a session, the data channel (Channel) and the packets (Video). Meeting
--                   puts a controller, the server and a host together, a turn at a time. Cli is main.rs:
--                   what a command starts. Window has the input capture of gui.rs. Dashboard is dashboard.rs.
--   Agent           visuara-agent/src/input.rs: the calls of enigo for each input event
--   Fixtures        concrete states that the tests share
--
-- What is random or read from the clock is an argument: salts, tokens, ids and passwords drawn.
-- Every loop is structural recursion, but the chunks of a file, whose fuel is the file's length: every
-- chunk has a byte at least. The search for a free name counts its 9999 rounds down. Row ids and times
-- are unbounded numbers (SQLite's are 64 bits wide).
--
-- Not modelled: the candidates that the controller sends; the encodings of messages (serde_json,
-- bincode) and texts of errors of other packages; that the handlers of two connections can interleave
-- at an await; opening and upgrading the database file; what clap, egui, enigo, reqwest and WebRTC do
-- (parameters where a decision depends on them), with the layout of the window's panels and its
-- floating point numbers; that the tasks that send input can overtake each other; Windows' registry;
-- file permissions; the agents for the screen and the video codecs; the server's start-up and the web
-- pages.
pub mod Prelude
pub mod EmbeddedConfig
pub mod Db
pub mod Protocol
pub mod Auth
pub mod Turn
pub mod State
pub mod Session
pub mod Api
pub mod Ws
pub mod Downloads
pub mod Release
pub mod Control
pub mod Agent
pub mod Client
pub mod Fixtures
