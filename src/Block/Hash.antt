-- ===== src/Block/Hash.antt =====
-- monomer.go: the hash of a block, which is that of its Ethereum representation.
use monomer.Prelude.{
  ap, ℕ, ◌≡◌, sym, ok_of_bind, ok_injective, Option, some, List, Result, ok, ◌>>=◌, failing,
}
use monomer.Bytes.{Bytes}
use monomer.Block.{Header, Block, new_block}
use monomer.Adapters.{EthCodec, adapt_cosmos_txs_to_eth_txs}

-- The fields of an Ethereum header that `Header.ToEth` takes from a header; the others are the same for
-- every block (empty roots, zero difficulty and base fee).
pub record EthHeader : Type 0 where
  pub parent_hash : Bytes
  pub root : Bytes
  pub number : ℕ
  pub gas_limit : ℕ
  pub time : ℕ
  pub coinbase : Bytes
  pub parent_beacon_root : Option Bytes

-- `Header.ToEth`
unfoldable pub header_to_eth : Header → EthHeader
header_to_eth h = record {
  parent_hash = h.parent_hash;
  root = h.state_root;
  number = h.height;
  gas_limit = h.gas_limit;
  time = h.time;
  coinbase = h.coinbase;
  parent_beacon_root = h.parent_beacon_root;
}

-- CometBFT's header, as far as `Header.ToComet` fills it in. An `int64` is the number of its 64 bits.
pub record CometHeader : Type 0 where
  pub chain_id : ℕ
  pub height : ℕ
  pub time : ℕ
  pub last_block_hash : Bytes
  pub app_hash : Bytes

-- `Header.ToComet`
unfoldable pub header_to_comet : Header → CometHeader
header_to_comet h = record {
  chain_id = h.chain_id;
  height = h.height;
  time = h.time;
  last_block_hash = h.parent_hash;
  app_hash = h.state_root;
}

-- go-ethereum's `NewBlock` with no withdrawals and no receipts, and its hash.
module _ (E : EthCodec) (eth_block_hash : EthHeader → List E.Tx → Bytes) where
  -- `Block.ToEth`
  unfoldable pub block_to_eth : Block → Result (EthHeader × List E.Tx)
  block_to_eth b = do
    txs ← failing "adapt txs" (adapt_cosmos_txs_to_eth_txs E b.txs)
    ok (header_to_eth b.header, txs)

  -- `SetHeader`
  unfoldable pub set_header : Block → Result Block
  set_header b = do
    (h, txs) ← failing "convert block to Ethereum representation" (block_to_eth b)
    ok (record b { header = record b.header { hash = eth_block_hash h txs } })

  -- `MakeBlock`
  unfoldable pub make_block : Header → List Bytes → Result Block
  make_block h txs = do b ← new_block (some h) (some txs); set_header b

  -- A block that is made has the header given, but for its hash, and the transactions given.
  pub make_block_lem :
      (h : Header) (txs : List Bytes) (b : Block)
      → make_block h txs ≡ ok b
      → (hash : Bytes) × (b ≡ record { header = record h { hash = hash }; txs = txs })
  unfolding make_block set_header new_block
  make_block_lem h txs b e =
      let (ht, is, e) =
        ok_of_bind
          (failing "convert block to Ethereum representation"
            (block_to_eth (record { header = h; txs = txs })))
          _ b e in
      (eth_block_hash ht.0 ht.1, sym (ok_injective _ b e))

  -- The hash of a block that is made is go-ethereum's.
  pub make_block-hash :
      (h : Header) (txs : List Bytes) (b : Block)
      → make_block h txs ≡ ok b
      → (eth : EthHeader) × (eth_txs : List E.Tx) × (b.header.hash ≡ eth_block_hash eth eth_txs)
  unfolding make_block set_header new_block
  make_block-hash h txs b e =
      let (ht, is, e) =
        ok_of_bind
          (failing "convert block to Ethereum representation"
            (block_to_eth (record { header = h; txs = txs })))
          _ b e in
      (ht.0, ht.1, ap (λ (x : Block). x.header.hash) (sym (ok_injective _ b e)))
