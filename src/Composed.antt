-- ===== src/Composed.antt =====
-- The example workflows and activities together with the interceptors of examples/go.
pub mod Mapped
pub mod MappedTests
pub mod Intercepted
pub mod Accepted
pub mod DetectionTests
