-- ===== src/Rollup.antt =====
-- x/rollup: the rollup module of the application.
pub mod Messages
pub mod Sdk
pub mod Keeper
pub mod Deposits
pub mod Withdrawals
pub mod Books
pub mod Abi
pub mod RoundTrip
pub mod Gas
pub mod Ante
