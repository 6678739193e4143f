-- ===== src/Policy.antt =====
-- packages/policy_engine: the deterministic policy that maps a model score and graph evidence to a
-- bounded action, its configuration, and what a decision costs.
pub mod Config
pub mod Domain
pub mod Rules
pub mod Engine
pub mod Costs
pub mod Backtest
pub mod Optimizer
mod Samples
mod Tests
mod SearchTests
