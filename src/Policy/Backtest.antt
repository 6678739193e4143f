-- ===== src/Policy/Backtest.antt =====
-- packages/policy_engine/backtest.py: what a policy does to a list of labelled examples. The loop is
-- in `Loop`, the figures computed after it in `Report`.
pub mod Loop
pub mod Metrics
pub mod Report
pub mod Totals
pub mod Matrix
pub mod Sound
