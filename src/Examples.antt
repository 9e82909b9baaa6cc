-- ===== src/Examples.antt =====
-- Workflows and activities of the short examples under src.
pub mod UpdateOrder
pub mod UpdateOrderLaws
pub mod SoftTimeout
pub mod SoftTimeoutLaws
pub mod Cleanup
pub mod CleanupLaws
pub mod Records
pub mod RecordRetries
pub mod RecordsLaws
pub mod Waiting
pub mod WaitingLaws
pub mod Polling
pub mod PollingLaws
pub mod PollingTests
pub mod Requests
pub mod RequestsLaws
pub mod Uuids
pub mod UuidsLaws
pub mod Refused
mod RefusedTests
pub mod Short
pub mod Validated
pub mod ValidatedLaws
pub mod ValidatedTests
pub mod Versions
pub mod VersionsLaws
pub mod VersionsTests
pub mod Results
pub mod ResultsLaws
pub mod Starting
pub mod Tests
pub mod WorkflowTests
pub mod WaitingTests
