-- ===== src/Txstore.antt =====
-- app/peptide/txstore/txstore.go: the index of the transactions and its rollback.
pub mod Ranges
pub mod Effect
pub mod Rollback
use monomer.Prelude.{
  ℕ, zero, suc, ◌+◌, ◌%◌, ◌^◌, Bool, true, false, leb, Option, none, some, List, [], ◌∷◌, ◌++◌,
  Result, ok, err, panic, ◌>>=◌, wrapping, panicking, if◌then◌else◌, length,
}
use monomer.Prelude.Stateful.{Step}
use monomer.Bytes.{Bytes}
use monomer.Bytes.BigEndian.{u64_mod}
use monomer.Bytes.Decimal.{decimal}
use monomer.KvStore.{KvStore, Entries, Op, remove, in_range}
use monomer.KvStore.Batch.{add_op, write_sync}
use monomer.Builder.World.{TxResult}

-- CometBFT's transaction indexer, with its batches.
pub record TxIndexer : Type 1 where
  pub State : Type 0
  pub Batch : Type 0
  pub new_batch : ℕ → Batch
  pub add : TxResult → Batch → Result Batch
  pub add_batch : Batch → Step State (Unit {0})

module _ (X : TxIndexer) where
  open X use {State, Batch, new_batch, add, add_batch}

  -- The loop of `Add` from index `i` on; `uint32(i)`.
  unfoldable pub index_txs : ℕ → List TxResult → Batch → Result Batch
  index_txs i [] batch = ok batch
  index_txs i (tx ∷ txs) batch = do
    batch ←
        wrapping "failed to add txs to txstore due to"
          (add (record tx { index = i % 2 ^ 32 }) batch)
    index_txs (i + 1) txs batch

  -- `txstore.Add`
  unfoldable pub add_txs : List TxResult → Step State (Unit {0})
  add_txs txs s = elim (index_txs 0 txs (new_batch (length txs))) [
    | ok batch ↦ let (r, s') = add_batch batch s in (wrapping "failed to add txs to txstore" r, s')
    | err e ↦ (err e, s)
    | panic m ↦ (panic m, s)
  ]

-- `types.TxHeightKey` of CometBFT: "tx.height"
abbrev pub tx_height_key : Bytes
tx_height_key = 116 ∷ 120 ∷ 46 ∷ 104 ∷ 101 ∷ 105 ∷ 103 ∷ 104 ∷ 116 ∷ []

-- `fmt.Sprintf("%s/%d/%d", types.TxHeightKey, height, height)`
unfoldable pub height_prefix : ℕ → Bytes
height_prefix h = tx_height_key ++ 47 ∷ decimal h ++ 47 ∷ decimal h

-- The range from the one with a "/" at its end to the one with a "~".
abbrev pub height_range : ℕ → Bytes → Bool
height_range h = in_range (height_prefix h ++ 47 ∷ []) (height_prefix h ++ 126 ∷ [])

-- A call that fails returns a nil iterator, whose deferred `Close` panics before the error is looked at.
abbrev pub closed_first : Result Entries → Result Entries
closed_first r = panicking "invalid memory address or nil pointer dereference" r

module _ (S : KvStore) where
  open S use {Db, iterate}

  -- The loop over the iterator.
  unfoldable pub delete_entries : Entries → List Op → Result (List Op)
  delete_entries [] batch = ok batch
  delete_entries ((k, v) ∷ es) batch = do
    batch ← add_op S batch (remove k)
    batch ← add_op S batch (remove v)
    delete_entries es batch

  -- `rollbackOneBlock`
  unfoldable pub rollback_one_block : Db → ℕ → List Op → Result (List Op)
  rollback_one_block d h batch = do
    es ← closed_first (iterate d [] (height_prefix h ++ 47 ∷ []) (height_prefix h ++ 126 ∷ []))
    delete_entries es batch

  -- The loop of `RollbackToHeight` from height `h` on.
  unfoldable pub rollback_blocks : ℕ → Db → ℕ → ℕ → List Op → Option (Result (List Op))
  rollback_blocks zero d h current batch = none
  rollback_blocks (suc fuel) d h current batch = elim (leb h current) [
    | false ↦ some (ok batch)
    | true ↦ elim (rollback_one_block d h batch) [
      | ok batch ↦ rollback_blocks fuel d ((h + 1) % u64_mod) current batch
      | err e ↦ some (err e)
      | panic m ↦ some (panic m)
    ]
  ]

  abbrev pub write_batch : Db → Result (List Op) → Result (Unit {0}) × Db
  write_batch d (ok batch) = let (r, d') = write_sync S d batch in (panicking "write" r, d')
  write_batch d (err e) = (err e, d)
  write_batch d (panic m) = (panic m, d)

  -- `RollbackToHeight`
  unfoldable pub rollback_to_height :
      ℕ → (rollback_height current_height : ℕ) → Db → Option (Result (Unit {0}) × Db)
  rollback_to_height fuel rollback_height current_height d =
      elim (rollback_blocks fuel d ((rollback_height + 1) % u64_mod) current_height []) [
        | none ↦ none
        | some filled ↦ some (write_batch d filled)
      ]
