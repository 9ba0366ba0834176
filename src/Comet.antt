-- ===== src/Comet.antt =====
-- comet/comet.go: what CometBFT's clients ask the node for.
pub mod Paginate
pub mod Search
pub mod Api
pub mod Included
pub mod Subscribe
pub mod Abci
