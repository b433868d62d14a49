-- ===== src/Worker.antt =====
-- app/worker: the two processes that take messages from the queues.
pub mod IngestMessage
pub mod FullBlogBatch
pub mod IngestWorker
pub mod Unsettled
pub mod UnsettledBatch
pub mod SafeAcks
pub mod Retries
pub mod Stops
pub mod AnalysisWorker
pub mod AnalysisSettles
pub mod Handover
pub mod Marks
pub mod SnapshotLock
pub mod BatchProgress
