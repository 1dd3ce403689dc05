-- ===== src/Domain.antt =====
-- internal/domain: the financial core, without persistence. A child models the Go file of its
-- name; Reference is a part of apply.go, and History puts the files together.
pub mod Errors
pub mod Types
pub mod Money
pub mod Ledger
pub mod Wallet
pub mod Transaction
pub mod Event
pub mod Reference
pub mod Apply
pub mod Opening
pub mod Idempotency
pub mod Canonical
pub mod History
