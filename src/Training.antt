-- ===== src/Training.antt =====
-- ml/training: the chronological split of the evaluation metadata.
pub mod Splitting
pub mod Members
pub mod Sound
pub mod Parts
pub mod Tests
