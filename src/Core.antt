-- ===== src/Core.antt =====
-- app/core: exceptions, the rate limiter, and how a method runs.
pub mod Exceptions
pub mod RateLimiter
pub mod Settings
pub mod Effects
pub mod Session
pub mod Consume
pub mod Parsing
pub mod UrlSecurity
