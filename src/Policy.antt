-- ===== src/Policy.antt =====
-- examples/go/activitypolicyinterceptor/interceptor.go: the activity policy interceptor, and the
-- rules of specs/activitypolicyinterceptor/README.md.
pub mod Config
pub mod Timing
pub mod Evaluate
pub mod Interval
pub mod Budget
pub mod Report
pub mod Requirement
pub mod Rules
pub mod Agreement
pub mod Overflow
pub mod Handle
pub mod Outbound
pub mod Selection
pub mod Enforcement
pub mod Payload
pub mod Logged
mod Tests
pub mod Inbound
pub mod InboundLaws
pub mod Detection
pub mod Retries
pub mod Wiring
pub mod Acceptance
