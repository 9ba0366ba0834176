-- ===== src/LocalDb/Lookup.antt =====
-- monomerdb/localdb/localdb.go: the reads.
pub mod Stored
use monomer.Prelude.{
  ℕ, ◌+◌, ◌%◌, none, some, List, [], ◌∷◌, failure, not_found, Result, ok, err, panic, ◌>>=◌, ◌>>◌,
  status, failing, wrapping, wrap_close_err,
}
use monomer.Bytes.{Bytes}
use monomer.Bytes.BigEndian.{u64_mod, put_uint64, uint64}
use monomer.KvStore.{KvStore, Entries, Op}
use monomer.Block.{Header, Block, new_block}
use monomer.LocalDb.Keys.{
  bucket_header_by_height, bucket_tx_by_height_and_index, key, Label, label_key, height_key,
  hash_key, BlockCodec, to_hash,
}

-- The values that an iterator yields.
abbrev pub values : Entries → List Bytes
values [] = []
values ((k, v) ∷ es) = v ∷ values es

module _ (S : KvStore) (C : BlockCodec) where
  open S use {Db, get, iterate, close}
  open C use {tx_hash, marshal, unmarshal}

  -- A database, a snapshot of it, or an indexed batch over it.
  abbrev pub View : Type 0
  View = Db × List Op

  -- `get`: a key that is missing is `ErrNotFound`, and any other error is obscured.
  unfoldable pub get_value : View → Bytes → Result Bytes
  get_value (d, batch) k = elim (get d batch k) [
    | ok none ↦ err not_found
    | ok (some v) ↦ ok v
    | err e ↦ err (failure "get")
    | panic m ↦ panic m
  ]

  -- `headerByHeight`
  unfoldable pub header_by_height : View → Bytes → Result Header
  header_by_height (d, batch) height_bytes = do
    header_bytes ← get_value (d, batch) (key bucket_header_by_height height_bytes)
    wrap_close_err (failing "unmarshal cbor" (unmarshal header_bytes)) (close d)

  -- `headerByHash`
  unfoldable pub header_by_hash : View → Bytes → Result Header
  header_by_hash (d, batch) hash = do
    height_bytes ← wrapping "get height by hash" (get_value (d, batch) (hash_key hash))
    wrap_close_err (wrapping "get header by height" (header_by_height (d, batch) height_bytes))
        (close d)

  -- `headerByLabel`
  unfoldable pub header_by_label : View → Label → Result Header
  header_by_label (d, batch) label = do
    hash_bytes ← wrapping "get label hash" (get_value (d, batch) (label_key label))
    wrap_close_err
        (do hash ← to_hash hash_bytes; wrapping "header by hash" (header_by_hash (d, batch) hash))
        (close d)

  -- `getHeight`
  unfoldable pub get_height : View → Result Bytes
  get_height (d, batch) = do
    height_bytes ← get_value (d, batch) height_key
    failing "close" (status (close d))
    ok height_bytes

  -- `txsInRange`
  unfoldable pub txs_in_range : View → Bytes → Bytes → Result (List Bytes)
  txs_in_range (d, batch) start end = do
    es ← failing "new iterator" (
        iterate d batch (key bucket_tx_by_height_and_index start)
          (key bucket_tx_by_height_and_index end))
    wrap_close_err (ok (values es)) (close d)

  -- `blockByHeight`
  unfoldable pub view_block_by_height : View → Bytes → Result Block
  view_block_by_height v height_bytes = do
    header ← wrapping "get header by height" (header_by_height v height_bytes)
    h ← uint64 height_bytes
    txs ← txs_in_range v height_bytes (put_uint64 ((h + 1) % u64_mod))
    new_block (some header) (some txs)

  -- The header's transactions, as `BlockByHash` and `BlockByLabel` read them.
  unfoldable pub txs_of : View → Header → Result (List Bytes)
  txs_of v header =
      txs_in_range v (put_uint64 header.height) (put_uint64 ((header.height + 1) % u64_mod))

  -- `DB.view`: the snapshot is closed on every path.
  abbrev pub viewing {ℓ} : {A : Type ℓ} → Db → Result A → Result A
  viewing d r = wrap_close_err r (close d)

  -- `DB.Height`, `DB.HeadHeader`, `DB.HeadBlock`
  unfoldable pub height : Db → Result ℕ
  height d = do
    height_bytes ← get_value (d, []) height_key
    h ← uint64 height_bytes
    failing "close" (status (close d))
    ok h

  unfoldable pub head_header : Db → Result Header
  head_header d = viewing d (do
    height_bytes ← wrapping "get height" (get_height (d, []))
    wrapping "get header by height" (header_by_height (d, []) height_bytes))

  unfoldable pub head_block : Db → Result Block
  head_block d = viewing d (do
    height_bytes ← wrapping "get height" (get_height (d, []))
    wrapping "get block by height" (view_block_by_height (d, []) height_bytes))

  -- `DB.HeaderByHash`, `DB.HeaderByLabel`, and `DB.HeaderByHeight`, which takes no snapshot.
  unfoldable pub db_header_by_hash : Bytes → Db → Result Header
  db_header_by_hash hash d = viewing d (header_by_hash (d, []) hash)

  unfoldable pub db_header_by_label : Label → Db → Result Header
  db_header_by_label label d = viewing d (header_by_label (d, []) label)

  unfoldable pub db_header_by_height : ℕ → Db → Result Header
  db_header_by_height h d = header_by_height (d, []) (put_uint64 h)

  -- `DB.BlockByHeight`, `DB.BlockByHash`, `DB.BlockByLabel`
  unfoldable pub block_by_height : ℕ → Db → Result Block
  block_by_height h d = viewing d (view_block_by_height (d, []) (put_uint64 h))

  unfoldable pub block_by_hash : Bytes → Db → Result Block
  block_by_hash hash d = do
    (header, txs) ← viewing d (do
      header ← wrapping "get header by hash" (header_by_hash (d, []) hash)
      txs ← txs_of (d, []) header
      ok (header, txs))
    new_block (some header) (some txs)

  unfoldable pub block_by_label : Label → Db → Result Block
  block_by_label label d = do
    (header, txs) ← viewing d (do
      header ← wrapping "get header by label" (header_by_label (d, []) label)
      txs ← txs_of (d, []) header
      ok (header, txs))
    new_block (some header) (some txs)
