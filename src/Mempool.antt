-- ===== src/Mempool.antt =====
-- mempool/mempool.go: the transactions that wait for a block, as a linked list in a database whose
-- links are transaction hashes.
pub mod Chain
pub mod Calls
pub mod Dequeue
pub mod Enqueue
pub mod Repeat
use monomer.Prelude.{
  ℕ, ◌+◌, ◌-◌, ◌%◌, ◌≡◌, Option, none, some, String, List, [], ◌∷◌, ◌++◌, length, Error, failure,
  Result, ok, err, panic, ◌>>=◌, ◌>>◌, status, failing, wrap_close_err,
}
use monomer.Bytes.{Bytes}
use monomer.Bytes.BigEndian.{u64_mod, put_uint64, uint64}
use monomer.KvStore.{KvStore, Op, put, remove}
use monomer.KvStore.Batch.{add_op, write_sync}

-- "poolLength", "headKey" and "tailKey".
abbrev pub pool_length_key : Bytes
pool_length_key = b'p' ∷ b'o' ∷ b'o' ∷ b'l' ∷ b'L' ∷ b'e' ∷ b'n' ∷ b'g' ∷ b't' ∷ b'h' ∷ []

abbrev pub head_key : Bytes
head_key = b'h' ∷ b'e' ∷ b'a' ∷ b'd' ∷ b'K' ∷ b'e' ∷ b'y' ∷ []

abbrev pub tail_key : Bytes
tail_key = b't' ∷ b'a' ∷ b'i' ∷ b'l' ∷ b'K' ∷ b'e' ∷ b'y' ∷ []

-- A Go slice that is nil is `none`.
pub record StorageElem : Type 0 where
  pub txn : Bytes
  pub next_hash : Option Bytes

abbrev pub storage_elem : Bytes → Option Bytes → StorageElem
storage_elem tx next = record { txn = tx; next_hash = next }

-- What the pool takes from elsewhere: CometBFT's transaction hash (SHA-256), and `encoding/json`
-- on `StorageElem`, which reads back what it wrote.
pub record TxCodec : Type 0 where
  pub hash : Bytes → Bytes
  pub marshal : StorageElem → Result Bytes
  pub unmarshal : Bytes → Result StorageElem
  pub length-hash : (tx : Bytes) → length (hash tx) ≡ 32
  pub marshal_works : (e : StorageElem) → (b : Bytes) × (marshal e ≡ ok b)
  pub unmarshal-marshal : (e : StorageElem) (b : Bytes) → marshal e ≡ ok b → unmarshal b ≡ ok e

module _ (S : KvStore) (J : TxCodec) where
  open S use {Db, get, refuse, write, close}
  open J use {hash, marshal, unmarshal}

  -- `Pool.Len`: an error of the database reads as an empty pool.
  unfoldable pub len : Db → Result ℕ
  len d = elim (get d [] pool_length_key) [
    | ok none ↦ ok 0
    | ok (some b) ↦ uint64 b
    | err e ↦ ok 0
    | panic m ↦ panic m
  ]

  unfoldable pub update_len : List Op → ℕ → Result (List Op)
  update_len batch l = add_op S batch (put pool_length_key (put_uint64 l))

  unfoldable pub elem : Db → Bytes → Result StorageElem
  elem d item_key = do
    value ← get d [] item_key
    elim value [ none ↦ err (failure "value not found") | some b ↦ unmarshal b ]

  unfoldable pub put_elem : List Op → Bytes → StorageElem → Result (List Op)
  put_elem batch item_key item = do
    item_bytes ← marshal item
    add_op S batch (put item_key item_bytes)

  -- `if tail != nil { … } else { … }` of `Enqueue`: the old tail points to the new element, or the
  -- new element is the head as well.
  unfoldable pub link_tail : Db → Bytes → Option Bytes → List Op → Result (List Op)
  link_tail d tx (some tail) batch = do
    old_tail ← failing "get tail" (elem d tail)
    put_elem batch tail (record old_tail { next_hash = some (hash tx) })
  link_tail d tx none batch = add_op S batch (put head_key (hash tx))

  unfoldable pub link_new : Db → Bytes → Option Bytes → List Op → Result (List Op)
  link_new d tx tail batch = do
    batch ← link_tail d tx tail batch
    batch ← add_op S batch (put tail_key (hash tx))
    p_len ← len d
    update_len batch ((p_len + 1) % u64_mod)

  abbrev pub write_batch : Db → Result (List Op) → Result (Unit {0}) × Db
  write_batch d (ok batch) = write_sync S d batch
  write_batch d (err e) = (err e, d)
  write_batch d (panic m) = (panic m, d)

  -- When the new element cannot be put, `Enqueue` returns `nil`.
  unfoldable pub enqueue_body : Bytes → Db → Result (Unit {0}) × Db
  enqueue_body tx d = elim (get d [] tail_key) [
    | err e ↦ (err e, d)
    | panic m ↦ (panic m, d)
    | ok tail ↦ elim (put_elem [] (hash tx) (storage_elem tx none)) [
      | err e ↦ (ok tt, d)
      | panic m ↦ (panic m, d)
      | ok batch ↦ write_batch d (link_new d tx tail batch)
    ]
  ]

  -- `Pool.Enqueue`; the deferred function closes the batch on every path.
  unfoldable pub enqueue : Bytes → Db → Result (Unit {0}) × Db
  enqueue tx d = let (r, d') = enqueue_body tx d in (wrap_close_err r (close d'), d')

  -- The element at the head, with its hash.
  unfoldable pub head_elem : Db → Result (Bytes × StorageElem)
  head_elem d = do
    head ← get d [] head_key
    elim head [
      | none ↦ err (failure "head hash not found")
      | some head_hash ↦ do
        item ← failing "get head element" (elem d head_hash)
        ok (head_hash, item)
    ]

  unfoldable pub unlink_head : Option Bytes → List Op → Result (List Op)
  unlink_head none batch = do
    batch ← add_op S batch (remove head_key)
    add_op S batch (remove tail_key)
  unlink_head (some next) batch = add_op S batch (put head_key next)

  unfoldable pub dequeue_batch : ℕ → Bytes × StorageElem → Result (List Op)
  dequeue_batch p_len (head_hash, item) = do
    batch ← add_op S [] (remove head_hash)
    batch ← unlink_head item.next_hash batch
    update_len batch ((p_len + u64_mod - 1) % u64_mod)

  -- From `NewBatch` on: the batch is closed on every path.
  unfoldable pub dequeue_head : Db → ℕ → Bytes × StorageElem → Result Bytes × Db
  dequeue_head d p_len (head_hash, item) =
      let (r, d') = write_batch d (dequeue_batch p_len (head_hash, item)) in
      (wrap_close_err (r >> ok item.txn) (close d'), d')

  -- `Pool.Dequeue`
  unfoldable pub dequeue : Db → Result Bytes × Db
  dequeue d = elim (len d) [
    | err e ↦ (err e, d)
    | panic m ↦ (panic m, d)
    | ok p_len ↦ elim (head_elem d) [
      | err e ↦ (err e, d)
      | panic m ↦ (panic m, d)
      | ok head ↦ dequeue_head d p_len head
    ]
  ]
