-- ===== src/KvStore.antt =====
-- The ordered key-value databases under the mempool, the block store and the transaction index
-- (cosmos-db, pebble, cometbft-db). None of them is code of this repository: a database is a
-- parameter, with the laws of a batch, of a lookup and of an iterator that their documentation gives.
pub mod Laws
pub mod Batch
pub mod Sorted
pub mod Memory
use monomer.Prelude.{
  ◌≡◌, ◌≢◌, Bool, true, false, not, ◌&&◌, Option, none, some, List, [], ◌∷◌, if◌then◌else◌, Error,
  Result, ok,
}
use monomer.Bytes.{Bytes, bytes_eq, bytes_lt}

-- What a database holds: its keys in order, each with its value.
abbrev pub Entries : Type 0
Entries = List (Bytes × Bytes)

-- The writes that a batch gathers.
pub data Op : Type 0 where
  put : Bytes → Bytes → Op
  remove : Bytes → Op
  remove_range : Bytes → Bytes → Op

unfoldable pub lookup : Bytes → Entries → Option Bytes
lookup k [] = none
lookup k ((j, v) ∷ es) = if bytes_eq j k then some v else lookup k es

unfoldable pub insert : Bytes → Bytes → Entries → Entries
insert k v [] = (k, v) ∷ []
insert k v ((j, w) ∷ es) =
    if bytes_eq j k
    then (k, v) ∷ es
    else if bytes_lt k j
    then (k, v) ∷ (j, w) ∷ es
    else (j, w) ∷ insert k v es

-- The entries whose key passes a test.
unfoldable pub select : (Bytes → Bool) → Entries → Entries
select p [] = []
select p ((j, w) ∷ es) = if p j then (j, w) ∷ select p es else select p es

-- A key of the range from `lower` on, below `upper`.
abbrev pub in_range : Bytes → Bytes → Bytes → Bool
in_range lower upper k = not (bytes_lt k lower) && bytes_lt k upper

unfoldable pub apply_op : Op → Entries → Entries
apply_op (put k v) es = insert k v es
apply_op (remove k) es = select (λ j. not (bytes_eq j k)) es
apply_op (remove_range lower upper) es = select (λ j. not (in_range lower upper j)) es

-- A batch takes effect in the order in which it was filled.
unfoldable pub apply : List Op → Entries → Entries
apply [] es = es
apply (op ∷ ops) es = apply ops (apply_op op es)

-- Every call may fail. A read sees the database with the writes of an indexed batch on top; a plain
-- read and a snapshot have none.
pub record KvStore : Type 1 where
  pub Db : Type 0
  pub entries : Db → Entries
  pub get : Db → List Op → Bytes → Result (Option Bytes)
  pub iterate : Db → List Op → Bytes → Bytes → Result Entries
  pub refuse : Op → Option Error
  pub write : Db → List Op → Result Db
  pub close : Db → Option Error
  pub get_sound :
      (d : Db) (ops : List Op) (k : Bytes) (v : Option Bytes)
      → get d ops k ≡ ok v
      → v ≡ lookup k (apply ops (entries d))
  pub iterate_sound :
      (d : Db) (ops : List Op) (lower upper : Bytes) (es : Entries)
      → iterate d ops lower upper ≡ ok es
      → es ≡ select (in_range lower upper) (apply ops (entries d))
  pub write_sound :
      (d d' : Db) (ops : List Op) → write d ops ≡ ok d' → entries d' ≡ apply ops (entries d)

-- The disk does not fail: what the theorems on results suppose.
pub record IsReliable (S : KvStore) : Type 0 where
  pub get_works :
      (d : S.Db) (ops : List Op) (k : Bytes)
      → S.get d ops k ≡ ok (lookup k (apply ops (S.entries d)))
  pub iterate_works :
      (d : S.Db) (ops : List Op) (lower upper : Bytes)
      → S.iterate d ops lower upper ≡ ok (select (in_range lower upper) (apply ops (S.entries d)))
  pub accepts : (op : Op) → S.refuse op ≡ none
  pub write_works : (d : S.Db) (ops : List Op) → (d' : S.Db) × (S.write d ops ≡ ok d')
  pub closes : (d : S.Db) → S.close d ≡ none
