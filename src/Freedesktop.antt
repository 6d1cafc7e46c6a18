-- ===== src/Freedesktop.antt =====
-- freedesktop/: the client of the Desktop Notifications Specification.
pub mod Types
pub mod Signal
pub mod Numbers
pub mod Notification
pub mod Notifier
pub mod Bus
pub mod Client
pub mod Lifecycle
