-- ===== src/Eth.antt =====
-- eth/eth.go, eth/block_id.go and eth/api_backend.go: the blocks that Ethereum's clients ask for.
pub mod Reads
use monomer.Prelude.{
  ℕ, ◌==◌, ◌||◌, Bool, Option, none, some, String, List, same_text, Error, failure, wrapped,
  is_not_found, Result, ok, err, panic, failing, wrapping, ◌>>=◌, if◌then◌else◌,
}
use monomer.Bytes.{Bytes}
use monomer.KvStore.{KvStore}
use monomer.Adapters.{EthCodec}
use monomer.Block.{Block}
use monomer.Block.Hash.{EthHeader, header_to_eth, block_to_eth}
use monomer.LocalDb.Keys.{Label, BlockCodec}
use monomer.LocalDb.Lookup.{head_block, block_by_height, block_by_hash, block_by_label}

-- go-ethereum's `ethereum.NotFound`
abbrev pub eth_not_found : Error
eth_not_found = failure "not found"

-- `BlockID`: no label is the empty text, and an `int64` is the number of its 64 bits.
pub record BlockId : Type 0 where
  pub label : Option Label
  pub height : ℕ

-- The labels of the OP stack.
abbrev pub label_of : String → Option Label
label_of t =
    if same_text t "unsafe"
    then some Label.unsafe
    else if same_text t "safe"
    then some Label.safe
    else if same_text t "finalized"
    then some Label.finalized
    else none

-- JSON's decoder of a text, and go-ethereum's of a number in hexadecimal.
module _ (unmarshal_text : Bytes → Result String) (hex_uint64 : String → Result ℕ) where
  -- `BlockID.UnmarshalJSON`
  unfoldable pub unmarshal_block_id : BlockId → Bytes → Result BlockId
  unmarshal_block_id id bytes = do
    t ← failing "unmarshal block id into string" (unmarshal_text bytes)
    elim (label_of t) [
      | some l ↦ ok (record id { label = some l })
      | none ↦ do
        h ← failing "unmarshal height as hexutil.Uint64" (hex_uint64 t)
        ok (record id { height = h })
    ]

-- What the API takes from go-ethereum: a block in the form of a client, and the state at a root.
pub record EthApi (E : EthCodec) : Type 1 where
  pub RpcBlock : Type 0
  pub StateDb : Type 0
  pub marshal_block : EthHeader × List E.Tx → Bool → Result RpcBlock
  pub new_state : Bytes → Result (Option StateDb)

-- The numbers that go-ethereum gives its names of blocks.
pub record BlockNumbers : Type 0 where
  pub latest : ℕ
  pub earliest : ℕ
  pub pending : ℕ
  pub safe : ℕ
  pub finalized : ℕ

-- `rpc.BlockNumberOrHash`
pub record BlockNumberOrHash : Type 0 where
  pub number : Option ℕ
  pub hash : Option Bytes

module _ (S : KvStore) (C : BlockCodec) (E : EthCodec)
    (eth_block_hash : EthHeader → List E.Tx → Bytes) (A : EthApi E) where
  open S use {Db}
  open A use {RpcBlock, StateDb}

  -- `BlockID.Get`
  unfoldable pub get_block : BlockId → Db → Result Block
  get_block id d = elim id.label [
    | some l ↦ block_by_label S C l d
    | none ↦ block_by_height S C id.height d
  ]

  -- `toRPCBlock`
  unfoldable pub to_rpc_block : Block → Bool → Result RpcBlock
  to_rpc_block block full_tx = do
    eth_block ← failing "convert to eth block" (block_to_eth E eth_block_hash block)
    failing "rpc marshal block" (A.marshal_block eth_block full_tx)

  -- What is done with the result of a lookup.
  unfoldable pub answer_block : Result Block → Bool → Result RpcBlock
  answer_block (ok block) full_tx = to_rpc_block block full_tx
  answer_block (err e) full_tx = if is_not_found e then err eth_not_found else err e
  answer_block (panic m) full_tx = panic m

  -- `GetBlockByNumber` and `GetBlockByHash`
  unfoldable pub get_block_by_number : BlockId → Bool → Db → Result RpcBlock
  get_block_by_number id full_tx d = answer_block (get_block id d) full_tx

  unfoldable pub get_block_by_hash : Bytes → Bool → Db → Result RpcBlock
  get_block_by_hash hash full_tx d = answer_block (block_by_hash S C hash d) full_tx

  module _ (N : BlockNumbers) where
    abbrev pub is_name : ℕ → Bool
    is_name n = (n == N.earliest) || (n == N.pending) || (n == N.safe) || (n == N.finalized)

    -- The lookup of `HeaderByNumberOrHash` by a number.
    unfoldable pub block_by_number : ℕ → Db → Result Block
    block_by_number n d =
        if n == N.latest
        then wrapping "get block by height" (head_block S C d)
        else if is_name n
        then err (failure "not supported")
        else wrapping "get block by height" (block_by_height S C n d)

    -- `HeaderByNumberOrHash`
    unfoldable pub header_by_number_or_hash : BlockNumberOrHash → Db → Result EthHeader
    header_by_number_or_hash q d = elim q.number [
      | some n ↦ do block ← block_by_number n d; ok (header_to_eth block.header)
      | none ↦ elim q.hash [
        | some hash ↦ do
          block ← wrapping "get block by hash" (block_by_hash S C hash d)
          ok (header_to_eth block.header)
        | none ↦ err (wrapped "block" eth_not_found)
      ]
    ]

    -- `StateAndHeaderByNumberOrHash`
    unfoldable pub state_and_header : BlockNumberOrHash → Db → Result (StateDb × EthHeader)
    state_and_header q d = do
      header ← wrapping "header by number or hash" (header_by_number_or_hash q d)
      found ← wrapping "opening state.StateDB" (A.new_state header.root)
      elim found [ none ↦ err (wrapped "stateDB" eth_not_found) | some state ↦ ok (state, header) ]
