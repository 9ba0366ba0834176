-- ===== src/Block.antt =====
-- monomer.go: headers and blocks.
pub mod Hash
use monomer.Prelude.{ℕ, zero, suc, [], ◌∷◌, Option, none, some, List, Result, ok, panic}
use monomer.Bytes.{Bytes}

-- `common.Hash` and `common.Address` are their bytes; a pointer that may be nil is an `Option`.
pub record Header : Type 0 where
  pub chain_id : ℕ
  pub height : ℕ
  pub time : ℕ
  pub parent_hash : Bytes
  pub state_root : Bytes
  pub parent_beacon_root : Option Bytes
  pub gas_limit : ℕ
  pub hash : Bytes
  pub coinbase : Bytes

pub record Block : Type 0 where
  pub header : Header
  pub txs : List Bytes

-- `NewBlock` panics on a header or a slice of transactions that is nil.
unfoldable pub new_block : Option Header → Option (List Bytes) → Result Block
new_block none txs = panic "header or txs is nil"
new_block (some h) none = panic "header or txs is nil"
new_block (some h) (some txs) = ok (record { header = h; txs = txs })

abbrev pub zeros : ℕ → Bytes
zeros zero = []
zeros (suc n) = 0 ∷ zeros n

-- `common.Hash{}`
abbrev pub zero_hash : Bytes
zero_hash = zeros 32
