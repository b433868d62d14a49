-- ===== src/Domain.antt =====
-- app/domain: the enums, the request and response schemas, and the rows of the tables.
pub mod Enums
pub mod Json
pub mod Schemas
pub mod Models
