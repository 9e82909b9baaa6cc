-- ===== src/Payments.antt =====
-- examples/go/payments: the activity, its attempts at a payment service, and the workflow.
pub mod Charge
pub mod ChargeLaws
pub mod Attempts
pub mod AttemptKeys
pub mod AttemptsLaws
pub mod Tests
pub mod Purchase
pub mod PurchaseLaws
pub mod PurchaseOnce
pub mod Samples
