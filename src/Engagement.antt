-- ===== src/Engagement.antt =====
-- The engagement service: app/services/engagement_service.py.
pub mod Cache
pub mod Collected
pub mod Merging
pub mod Tests
pub mod Traffic
