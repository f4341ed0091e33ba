-- ===== src/Position.antt =====
-- src/backtest/engine/position-simulator.ts: an open position of the simulation, its management on
-- each candle (Manage) and its exit (Close).
pub mod Manage
pub mod Close
