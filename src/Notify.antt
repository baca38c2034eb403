-- ===== src/Notify.antt =====
-- internal/notify/notify.go: events, the senders with their retries, and the dispatcher.
pub mod Event
pub mod Sender
pub mod Dispatcher
