-- ===== src/Client.antt =====
-- visuara-client: its parts that keep a state or read messages of a peer.
pub mod Clipboard
pub mod Paths
pub mod Disk
pub mod FileTransfer
pub mod Storage
pub mod Autostart
pub mod Host
pub mod Signaling
pub mod Controller
pub mod Meeting
pub mod Cli
pub mod Window
pub mod Dashboard
