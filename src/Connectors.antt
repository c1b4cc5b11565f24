-- ===== src/Connectors.antt =====
-- packages/connectors/src/portfolio_manager/connectors: the adapter of one broker, Zerodha's Kite.
pub mod Kite
pub mod Zerodha
pub mod Http
pub mod Auth
