-- ===== src/Api.antt =====
-- The FastAPI gateway, src/api/main.py of the repository.
pub mod Connections
pub mod Json
pub mod Alerts
pub mod Queries
pub mod Service
pub mod Demo
