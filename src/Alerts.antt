-- ===== src/Alerts.antt =====
-- Alerts about failing collections: app/services/status_alerts.py and app/core/status_errors.py.
pub mod Outbox
pub mod Status
pub mod Tests
