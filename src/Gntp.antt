-- ===== src/Gntp.antt =====
-- gntp/: the client of the Growl Notification Transport Protocol.
pub mod Result
pub mod Crypto
pub mod Info
pub mod Buffer
pub mod Request
pub mod Response
pub mod Send
pub mod Callback
pub mod Connections
pub mod Notifier
