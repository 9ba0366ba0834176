-- ===== src/LocalDb.antt =====
-- monomerdb/localdb: the block store over pebble. A key is the byte of its bucket and then big-endian
-- numbers or a hash.
pub mod Keys
pub mod Write
pub mod Lookup
pub mod Rollback
pub mod Linked
