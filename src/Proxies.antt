-- ===== src/Proxies.antt =====
-- Proxies: app/crawlers/proxy_policy.py and the pool of app/crawlers/proxy_provider.py.
pub mod Pace
pub mod Policy
pub mod Pool
pub mod Single
pub mod Tests
