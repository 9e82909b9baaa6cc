-- ===== src/Activity.antt =====
-- internal/activityhelpers: what activities use to heartbeat, to retry, to call HTTP services and to
-- identify themselves to them.
pub mod Retry
pub mod Delay
pub mod Idempotency
pub mod RetryAfter
pub mod RetryAfterLaws
pub mod Http
pub mod Statuses
pub mod ResponseDelay
pub mod Transport
pub mod TransportLaws
pub mod RequestLaws
pub mod Tests
pub mod Heartbeat
pub mod HeartbeatLaws
pub mod HeartbeatTiming
pub mod HeartbeatEnd
pub mod HeartbeatTests
