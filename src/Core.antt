-- ===== src/Core.antt =====
-- services/payment-core-service: the write side of the gateway.
pub mod Rows
pub mod Scope
pub mod Ledger
pub mod Payments
pub mod Refunds
pub mod Customers
pub mod Requests
pub mod Emits
pub mod Outcomes
pub mod SchemaName
pub mod Merchants
pub mod Listing
pub mod Api
mod Tests
pub mod Outbox
pub mod Lifecycle
pub mod Invariant
