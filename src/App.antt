-- ===== src/App.antt =====
-- internal/app: the use cases over the persistence ports, and the meaning that
-- internal/adapter/postgres gives to those ports.
pub mod Ports
pub mod Identity
pub mod Backoff
pub mod Tx
pub mod Service
pub mod Lookup
pub mod Submit
pub mod Books
pub mod Reconcile
pub mod Open
pub mod Inbound
pub mod Pending
pub mod Relay
pub mod Read
pub mod System
