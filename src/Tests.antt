-- ===== src/Tests.antt =====
-- Concrete runs of the models, and encodings and a database to run them with.
pub mod Codecs
pub mod Pool
pub mod Blocks
pub mod Payloads
pub mod Building
pub mod Rpc
pub mod Messages
pub mod Ledger
pub mod Deposits
pub mod Ante
pub mod Comet
pub mod Genesis
pub mod Txstore
pub mod Eth
pub mod Node
pub mod Accepted
pub mod Broadcast
pub mod Evm
pub mod Environment
mod Subscribe
mod Reached
mod Url
