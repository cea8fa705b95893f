-- ===== src/Jobs.antt =====
-- Batch jobs: app/repositories/job_repository.py and app/services/job_service.py.
pub mod Memory
pub mod Mongo
pub mod Service
pub mod Sqlite
pub mod Tests
