-- ===== src/Tests/Txstore.antt =====
-- The index of the transactions, rolled back by one block.
use monomer.Prelude.{inl, none, ◌≡◌, refl, some, [], ◌∷◌, ◌++◌, arith, ok}
use monomer.KvStore.{Entries, lookup}
use monomer.KvStore.Memory.{memory, memory-IsReliable}
use monomer.Txstore.{tx_height_key, rollback_to_height}
use monomer.Txstore.Ranges.{entry_key}
use monomer.Txstore.Rollback.{NoValue, Going, rollback_to_height-removes, rollback_to_height-keeps}

-- A transaction in each of two blocks, by its height and by its hash.
abbrev pub two_txs : Entries
two_txs =
    (7 ∷ [], 1 ∷ [])
    ∷ (9 ∷ [], 2 ∷ [])
    ∷ (tx_height_key ++ 47 ∷ 49 ∷ 47 ∷ 49 ∷ 47 ∷ 48 ∷ [], 7 ∷ [])
    ∷ (tx_height_key ++ 47 ∷ 50 ∷ 47 ∷ 50 ∷ 47 ∷ 48 ∷ [], 9 ∷ [])
    ∷ []

abbrev pub one_tx : Entries
one_tx = (7 ∷ [], 1 ∷ []) ∷ (tx_height_key ++ 47 ∷ 49 ∷ 47 ∷ 49 ∷ 47 ∷ 48 ∷ [], 7 ∷ []) ∷ []

second_goes : rollback_to_height memory 2 1 2 two_txs ≡ some (ok tt, one_tx)
unfolding rollback_to_height monomer.Txstore.rollback_blocks monomer.Txstore.rollback_one_block
    monomer.Txstore.delete_entries monomer.KvStore.select monomer.KvStore.apply
    monomer.Bytes.bytes_lt monomer.Txstore.height_prefix monomer.Bytes.Decimal.decimal
    monomer.Bytes.Decimal.digits monomer.KvStore.Batch.add_op monomer.KvStore.Batch.write_sync
    monomer.KvStore.apply_op monomer.Bytes.bytes_eq
second_goes = refl

second_stored : lookup (entry_key 2 (48 ∷ [])) two_txs ≡ some (9 ∷ [])
unfolding lookup monomer.Bytes.bytes_eq monomer.Txstore.height_prefix monomer.Bytes.Decimal.decimal
    monomer.Bytes.Decimal.digits
second_stored = refl

first_free : NoValue (entry_key 1 (48 ∷ [])) (Going memory 1 2 two_txs)
unfolding monomer.Bytes.bytes_eq monomer.KvStore.select monomer.Bytes.bytes_lt
    monomer.Txstore.height_prefix monomer.Bytes.Decimal.decimal monomer.Bytes.Decimal.digits
first_free = (refl, tt)

rollback_to_height-removes_example :
    (d' : Entries) × (rollback_to_height memory 2 1 2 two_txs ≡ some (ok tt, d'))
    × (lookup (entry_key 2 (48 ∷ [])) d' ≡ none)
    × (lookup (9 ∷ []) d' ≡ none)
rollback_to_height-removes_example =
    rollback_to_height-removes memory memory-IsReliable 2 1 2 two_txs 2 (48 ∷ []) (9 ∷ [])
      (omega arith) (omega arith) (omega arith) (omega arith) second_stored

rollback_to_height-keeps_example :
    (d' : Entries) × (rollback_to_height memory 2 1 2 two_txs ≡ some (ok tt, d'))
    × (lookup (entry_key 1 (48 ∷ [])) d' ≡ lookup (entry_key 1 (48 ∷ [])) two_txs)
rollback_to_height-keeps_example =
    rollback_to_height-keeps memory memory-IsReliable 2 1 2 two_txs 1 (48 ∷ []) (omega arith)
      (omega arith) (omega arith) (omega arith) (inl (omega arith)) first_free
