-- ===== src/Adapter.antt =====
-- internal/adapter: what the process puts around the use cases. The PostgreSQL adapter is the
-- meaning of the ports in App.Ports.
pub mod Sqs
pub mod Http
