-- ===== src/Tests/Pool.antt =====
-- The mempool on a database in memory: transactions go in and come out, and one that goes in twice.
use monomer.Prelude.{refl, err, failure, [], ◌∷◌, arith}
use monomer.Bytes.{Bytes, bytes_eq}
use monomer.KvStore.{Entries, lookup}
use monomer.KvStore.Memory.{memory, memory-IsReliable}
use monomer.Mempool.{enqueue, dequeue}
use monomer.Mempool.Chain.{Represents}
use monomer.Mempool.Enqueue.{enqueue-snoc, Appended}
use monomer.Mempool.Dequeue.{dequeue-cons, Taken}
use monomer.Mempool.Repeat.{Breaks, enqueue_oldest-Breaks}
use monomer.Tests.Codecs.{tx_codec}

abbrev pub tx_a : Bytes
tx_a = b'a' ∷ []

abbrev pub tx_b : Bytes
tx_b = b'b' ∷ []

abbrev pub no_entries : Entries
no_entries = []

-- The database after one and after two transactions.
abbrev pub with_a : Entries
with_a = (enqueue memory tx_codec tx_a no_entries).1

abbrev pub with_a_b : Entries
with_a_b = (enqueue memory tx_codec tx_b with_a).1

pub no_entries-IsPool : Represents memory tx_codec no_entries []
unfolding lookup
no_entries-IsPool = record {
  head = refl;
  tail = refl;
  len = refl;
  nodes = tt;
  distinct = tt;
  fits = omega arith;
}

pub enqueue_a :
    Appended memory tx_codec memory-IsReliable no_entries tx_a
      (tx_a ∷ [])
      (enqueue memory tx_codec tx_a no_entries)
enqueue_a =
    enqueue-snoc memory tx_codec memory-IsReliable no_entries tx_a [] no_entries-IsPool tt
      (omega arith)

enqueue-snoc_example :
    Appended memory tx_codec memory-IsReliable with_a tx_b
      (tx_a ∷ tx_b ∷ [])
      (enqueue memory tx_codec tx_b with_a)
unfolding bytes_eq
enqueue-snoc_example =
    enqueue-snoc memory tx_codec memory-IsReliable with_a tx_b (tx_a ∷ []) enqueue_a.1 (refl, tt)
      (omega arith)

with_a_b-IsPool : Represents memory tx_codec with_a_b (tx_a ∷ tx_b ∷ [])
unfolding bytes_eq
with_a_b-IsPool =
    (enqueue-snoc memory tx_codec memory-IsReliable with_a tx_b (tx_a ∷ []) enqueue_a.1 (refl, tt)
      (omega arith)).1

dequeue-cons_example :
    Taken memory tx_codec memory-IsReliable with_a_b tx_a
      (tx_b ∷ [])
      (dequeue memory tx_codec with_a_b)
dequeue-cons_example =
    dequeue-cons memory tx_codec memory-IsReliable with_a_b tx_a (tx_b ∷ []) with_a_b-IsPool

enqueue_oldest-Breaks_example :
    Breaks memory tx_codec with_a_b tx_a (err (failure "head hash not found")) 2
enqueue_oldest-Breaks_example =
    enqueue_oldest-Breaks memory tx_codec memory-IsReliable with_a_b tx_a tx_b [] with_a_b-IsPool
      (omega arith)
