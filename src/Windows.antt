-- ===== src/Windows.antt =====
-- windows/: notification icons in the notification area of Windows.
pub mod Guid
pub mod Menu
pub mod Data
pub mod Version
pub mod Icon
pub mod Gdi
pub mod Window
pub mod Notifier
pub mod Event
