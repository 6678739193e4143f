-- ===== src/Features.antt =====
-- packages/risk_engine/features: point-in-time behavioural features.
pub mod Registry
pub mod Domain
pub mod Engine
pub mod History
pub mod Validation
pub mod Offline
mod Tests
mod HistoryTests
