-- ===== src/Crawler.antt =====
-- The crawler of collections: EngagementCrawler of app/crawlers/engagement.py.
pub mod Browser
pub mod Circuit
pub mod Fetch
pub mod Protocol
pub mod Responses
pub mod Results
pub mod Tests
