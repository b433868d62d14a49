-- ===== src/Tests.antt =====
-- The theorems at concrete inputs.
mod World
mod Pure
mod Workers
mod Services
mod Race
mod Urls
mod Chat
mod Retrieval
mod Diagnosis
mod Profiles
mod Loop
mod Handover
mod Privacy
mod Pages
mod Migrations
mod Batches
mod Endpoints
