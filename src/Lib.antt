-- ===== src/Lib.antt =====
-- 100-temporal-mistakes: models of the Go code that its examples share, and theorems about them.
--
-- The repository's program code is a set of helpers for Temporal activities and two worker
-- interceptors. A worker runs activities through the interceptors; a workflow schedules activities
-- through the outbound side of the policy interceptor.
--
-- Policy: examples/go/activitypolicyinterceptor/interceptor.go. `workflowOutbound.ExecuteActivity`
--   and `ExecuteLocalActivity` (Policy/Outbound) set a default heartbeat timeout, evaluate the
--   policies on the options (`evaluatePolicies`, Policy/Evaluate, on the times of Policy/Timing) and
--   then log the violations and refuse or forward the call (`handleViolations` and
--   `workflowLogHandler`, Policy/Handle, with the settings of Policy/Config). Policy/Rules restates
--   specs/activitypolicyinterceptor/README.md as relations on a call, apart from the code, with the
--   retry intervals and the required time of its requirement 16 in Policy/Requirement.
--   `activityInbound.ExecuteActivity` (Policy/Inbound) is a list of events, and `New` with what it leads
--   to Policy/Wiring. Policy/Retries has the times at which Temporal starts the retries of an activity.
--   The other files prove.
-- Activity: internal/activityhelpers. retry.go is Activity/Retry, idempotency.go Activity/Idempotency,
--   heartbeat.go Activity/Heartbeat, and http.go Activity/RetryAfter (`ParseRetryAfter`),
--   Activity/Http (`HTTPResponseError`) and Activity/Transport (`httpClient.Do`,
--   `classifyHTTPTransportError`). The policy interceptor starts the goroutine of heartbeat.go; the
--   HTTP client sends the token of idempotency.go; a 429 answer asks retry.go for its delay.
-- ErrorMapper: examples/go/errormapperinterceptor/interceptor.go is ErrorMapper/Chain (the
--   interceptor) and ErrorMapper/Defaults (`DefaultMappers`); grpcerrormapper/mapper.go beside it is
--   ErrorMapper/Grpc.
-- Workflow: internal/workflowhelpers. Workflow/SideEffects is side_effect.go over the SDK's side
--   effects, an interface whose laws are what the SDK documents of first executions and replays;
--   ulid.go and env.go are Workflow/Values, awaitactivity.go Workflow/Activities and
--   disconnected_child.go Workflow/Children. Workflow/History meets the laws.
-- Kubernetes: examples/go/kubernetes. activity.go is Kubernetes/Activities over the jobs of a cluster
--   (Kubernetes/Jobs, an interface with laws), and workflow.go Kubernetes/Workflow over the results of
--   the two activities.
-- Helpers: internal/testhelpers/options.go and testenv.go, which configure the policy interceptor;
--   devserver.go there is Helpers/DevServer, by what a test starts and leaves to t.Cleanup, and
--   replay.go Helpers/Replay, by the verdicts of subtests.
-- Payments: examples/go/payments. activity.go is Payments/Charge, over the HTTP helpers, and
--   workflow.go Payments/Purchase, over the side effects. Payments/Attempts has the attempts of the
--   activity at a payment service with a ledger, an interface whose law is what a service with
--   idempotency keys documents.
-- Composed: the example workflows and activities with the interceptors. Composed/Accepted and
--   Composed/Intercepted schedule activities through the policy interceptor, and Composed/Mapped runs
--   them behind the error mapper.
-- Examples: workflows and activities under src. assuming_signal_update_order is
--   Examples/UpdateOrder, over the changes in the order of delivery;
--   assuming_workflow_timeouts_allow_graceful_cleanup is Examples/SoftTimeout and
--   not_using_disconnected_context_for_cleanup Examples/Cleanup, over the branch that the selector
--   takes; not_using_activity_heartbeat_details and not_sending_heartbeats_for_cancellation are
--   Examples/Records, over the elements, with the attempts that return or are lost in
--   Examples/RecordRetries; doing_work_outside_of_the_workflow is Examples/Requests, by
--   the effects that outlive a crash; not_using_return_value_in_side_effect is Examples/Uuids;
--   deadlocking_when_workflow_canceled, not_using_continue_as_new and
--   not_draining_signals_before_completing_workflow are Examples/Waiting, and
--   writing_polling_loops_in_workflow_code and
--   assuming_activity_cancelation_means_workflow_cancelation Examples/Polling, over lists of what
--   they find; not_validating_replay_safety_before_deployments is Examples/Validated;
--   not_using_workflow_versioning and modifying_shared_state_in_workflow_code are Examples/Versions,
--   by what they do when they are replayed; Examples/Short, with the options of Examples/Refused,
--   Examples/Results and Examples/Starting are workflows and activities of one or two calls.
-- Base, Runtime, Sdk, Errors: what they share. Base/Int has signed integers with the wrap-around of
--   64 bits written out. Sdk has the fields of the Temporal SDK's records that the code reads. Errors
--   has error values as trees, a layer above the errors that its Unwrap gives, and errors.As as the
--   depth-first search over them.
--
-- State and errors. The goroutine of heartbeat.go is a relation on states (Activity/Heartbeat), and the
-- cluster of the Kubernetes example a state that its client passes on; log lines and the changed
-- request are results. A nil error is `none`, a nil pointer in options `none`, a Go pair a pair.
--
-- Parameters. What Go's runtime or another package computes is an argument: `float64` and the texts of
-- `%s` and `%d` (Runtime, with the laws of IEEE 754 that a proof needs as a record, met by whole
-- numbers), the order of a range over a map, http.StatusText, http.ParseTime, the HTTP exchange, the
-- canonical names of headers, SHA-256, the texts of errors, the SDK's errors for cancellation and a
-- deadline, status.FromError and the names of gRPC codes, the
-- Kubernetes client, the payment service, the SDK's side effects, versions, contexts, clients, test
-- servers and replayers, and the execution of activities.
--
-- Bounds. Durations are integers, and sums and products of durations wrap at 64 bits where
-- interceptor.go and http.go compute them. Loops are recursion on lists or on the number of retries,
-- so there is no fuel. Status codes and times of the goroutine are natural numbers; time passes there
-- nanosecond by nanosecond.
--
-- Not modelled: logging but for the policies' entries; data races on the counter of
-- modifying_shared_state_in_workflow_code; the other examples under src, whose functions have no
-- behaviour of their own (they return constants, declare types or set one option); the Python example
-- and the specification model in Rust.
pub mod Base
pub mod Runtime
pub mod Sdk
pub mod Errors
pub mod Policy
pub mod Activity
pub mod ErrorMapper
pub mod Examples
pub mod Payments
pub mod Composed
pub mod Kubernetes
pub mod Workflow
pub mod Helpers
