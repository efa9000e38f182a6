-- ===== src/Crawler.antt =====
-- src/crawler: the rules and filters that an address passes before it is fetched.
pub mod Robots
pub mod Bloom
pub mod Dedup
pub mod Decimal
pub mod ChunkFile
pub mod FrontierItem
pub mod UrlFilter
pub mod BufferedQueue
pub mod RobotsCache
pub mod Frontier
mod Runs
