-- ===== src/MarketData.antt =====
-- aegis-rust/examples/market_data.rs: the example component.
pub mod Topics
pub mod Worker
pub mod Entry
