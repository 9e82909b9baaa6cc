-- ===== src/Kubernetes.antt =====
-- examples/go/kubernetes: the activities that run a Kubernetes job, and the workflow over them.
pub mod Jobs
pub mod Activities
pub mod Starting
pub mod Conditions
pub mod Waiting
pub mod Workflow
pub mod WorkflowLaws
pub mod Tests
