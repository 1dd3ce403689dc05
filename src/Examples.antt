-- ===== src/Examples.antt =====
-- Concrete wallets, operations and inputs, and the theorems at them.
mod Samples
mod DomainCases
mod AppCases
mod BookCases
mod AdapterCases
mod HttpCases
