-- ===== src/Api.antt =====
-- app/api: the endpoints that hold logic of their own.
pub mod Health
pub mod Endpoints
