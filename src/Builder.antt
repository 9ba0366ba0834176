-- ===== src/Builder.antt =====
-- builder/builder.go
pub mod Withdrawals
pub mod World
pub mod Drain
pub mod Results
pub mod Build
pub mod Reorg
