-- ===== src/Notification.antt =====
-- kafkatch-notification and kafkatch-alert-viewer: warnings about aggregates that are far above the
-- average of those before them.
pub mod Rolling
pub mod Detector
pub mod Notifier
pub mod App
pub mod Watcher
