-- ===== src/Authors.antt =====
-- Author jobs: app/repositories/author_repository.py and app/services/author_job_service.py.
pub mod Batch
pub mod Discovery
pub mod Retries
pub mod Tests
pub mod Works
