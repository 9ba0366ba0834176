-- ===== src/Mempool/Repeat.antt =====
-- A transaction that is already in the pool: `Enqueue` does not look for it, and `Dequeue` fails
-- later on while the length still counts transactions.
use monomer.Prelude.{
  ℕ, suc, ◌+◌, ◌-◌, ◌%◌, ◌<◌, ◌≡◌, refl, ◌∙◌, false, Option, none, some, List, [], ◌∷◌, arith,
  length, Result, ok, err, failure,
}
use monomer.Bytes.{Bytes, bytes_eq, bytes_eq_refl}
use monomer.Bytes.BigEndian.{u64_mod, put_uint64}
use monomer.KvStore.{KvStore, IsReliable, put, lookup}
use monomer.KvStore.Laws.{after}
use monomer.KvStore.Batch.{write_sync, get_now, write_sync-ok}
use monomer.Mempool.{
  TxCodec, storage_elem, head_key, tail_key, pool_length_key, enqueue, dequeue, len, elem,
  head_elem,
}
use monomer.Mempool.Chain.{
  keys_differ, HasLength-put, Represents, Holds, HasLength, hash-ne, last_of, Nodes-last,
  last-IsFresh,
}
use monomer.Mempool.Calls.{len-ok}
use monomer.Mempool.Enqueue.{writes, enqueue-eq, enqueue_body-writes, link_tail-some}
use monomer.Mempool.Dequeue as Dequeue

-- `tx` goes in again, one is taken out, and the next call fails with `why` at a length of `n`.
abbrev pub Breaks : (S : KvStore) (J : TxCodec) → S.Db → Bytes → Result Bytes → ℕ → Type 0
Breaks S J d tx why n =
    let (r1, d1) = enqueue S J tx d in
    let (r2, d2) = dequeue S J d1 in
    (r1 ≡ ok tt) × (r2 ≡ ok tx) × (len S J d2 ≡ ok n) × (dequeue S J d2 ≡ (why, d2))

-- What the database holds after the transaction is enqueued behind the one at `k`.
module _ (J : TxCodec) (m m1 : Bytes → Option Bytes) (tx b k c : Bytes) (n : ℕ)
    (r : (j : Bytes) → m1 j ≡ after (writes J tx b (put k c) n) j (m j)) where
  open J use {hash}

  enqueued_length : (q : ℕ) → n + 1 ≡ q → q < u64_mod → HasLength J (m1 pool_length_key) q
  enqueued_length q e h =
      HasLength-put J (m1 pool_length_key) ((n + 1) % u64_mod) q (r pool_length_key ∙ written)
        (omega arith) h
    where
      written :
          after (writes J tx b (put k c) n) pool_length_key (m pool_length_key)
          ≡ some (put_uint64 ((n + 1) % u64_mod))
      written = ground (arith, bytes_eq_refl pool_length_key)

  enqueued_head : bytes_eq k head_key ≡ false → m1 head_key ≡ m head_key
  enqueued_head e = ground (arith, r head_key, keys_differ, hash-ne J head_key tx (omega arith))

  enqueued_linked : bytes_eq tail_key k ≡ false → bytes_eq pool_length_key k ≡ false → m1 k ≡ some c
  enqueued_linked e f = ground (arith, r k, bytes_eq_refl k)

  enqueued_new : bytes_eq k (hash tx) ≡ false → m1 (hash tx) ≡ some b
  enqueued_new e = ground (
    arith,
    r (hash tx),
    bytes_eq_refl (hash tx),
    hash-ne J tail_key tx (omega arith),
    hash-ne J pool_length_key tx (omega arith),
  )

-- What it holds after the head was dequeued.
module _ (J : TxCodec) (m m1 : Bytes → Option Bytes) (tx : Bytes) (n : ℕ) where
  open J use {hash}

  dequeued_length :
      (next : Option Bytes)
      → ((j : Bytes) → m1 j ≡ after (Dequeue.writes (hash tx) next (suc n)) j (m j))
      → n + 1 < u64_mod
      → HasLength J (m1 pool_length_key) n
  dequeued_length next r h =
      HasLength-put J (m1 pool_length_key) ((suc n + u64_mod - 1) % u64_mod) n
        (r pool_length_key ∙ written next) (omega arith) (omega arith)
    where
      written :
          (next : Option Bytes)
          → after (Dequeue.writes (hash tx) next (suc n)) pool_length_key (m pool_length_key)
            ≡ some (put_uint64 ((suc n + u64_mod - 1) % u64_mod))
      written none = ground (arith, bytes_eq_refl pool_length_key)
      written (some k) = ground (arith, bytes_eq_refl pool_length_key)

  dequeued_none :
      ((j : Bytes) → m1 j ≡ after (Dequeue.writes (hash tx) none (suc n)) j (m j))
      → m1 head_key ≡ none
  dequeued_none r = ground (arith, r head_key, keys_differ, bytes_eq_refl head_key)

  dequeued_some :
      (k : Bytes)
      → ((j : Bytes) → m1 j ≡ after (Dequeue.writes (hash tx) (some k) (suc n)) j (m j))
      → (m1 head_key ≡ some k) × (m1 (hash tx) ≡ none)
  dequeued_some k r = (
    ground (arith, r head_key, keys_differ, bytes_eq_refl head_key),
    ground (
      arith,
      r (hash tx),
      hash-ne J head_key tx (omega arith),
      hash-ne J pool_length_key tx (omega arith),
      bytes_eq_refl (hash tx),
    ),
  )

module _ (S : KvStore) (J : TxCodec) (R : IsReliable S) where
  open J use {hash, marshal, marshal_works, unmarshal-marshal}

  abbrev stored : S.Db → Bytes → Option Bytes
  stored d k = lookup k (S.entries d)

  -- `Dequeue` fails where the head is missing, or is not stored.
  dequeue_lost :
      (d : S.Db) (n : ℕ)
      → HasLength J (stored d pool_length_key) n
      → stored d head_key ≡ none
      → dequeue S J d ≡ (err (failure "head hash not found"), d)
  unfolding dequeue head_elem
  dequeue_lost d n h e = ground (arith, len-ok S J R d n h, get_now S R d head_key)

  dequeue_dangling :
      (d : S.Db) (n : ℕ) (k : Bytes)
      → HasLength J (stored d pool_length_key) n
      → stored d head_key ≡ some k
      → stored d k ≡ none
      → dequeue S J d ≡ (err (failure "get head element"), d)
  unfolding dequeue head_elem elem
  dequeue_dangling d n k h e f =
      ground (arith, len-ok S J R d n h, get_now S R d head_key, get_now S R d k)

  -- A pool of one transaction that is enqueued again: one comes out, the length is still 1, and
  -- the next `Dequeue` fails, since the head that is stored was deleted.
  pub enqueue_again-Breaks :
      (d : S.Db) (tx : Bytes)
      → Represents S J d (tx ∷ [])
      → Breaks S J d tx (err (failure "get head element")) 1
  enqueue_again-Breaks d tx p =
      let (b, encoded) = marshal_works (storage_elem tx none) in
      let (c, looped) = marshal_works (storage_elem tx (some (hash tx))) in
      let (d1, wrote1, reads1, stored_reads1) =
        write_sync-ok S R d (writes J tx b (put (hash tx) c) 1) in
      let (d2, wrote2, reads2, stored_reads2) =
        write_sync-ok S R d1 (Dequeue.writes (hash tx) (some (hash tx)) 2) in
      again d d1 d2 tx b c p encoded looped wrote1 wrote2 reads1 reads2
    where
      again :
          (d d1 d2 : S.Db) (tx b c : Bytes)
          → Represents S J d (tx ∷ [])
          → marshal (storage_elem tx none) ≡ ok b
          → marshal (storage_elem tx (some (hash tx))) ≡ ok c
          → write_sync S d (writes J tx b (put (hash tx) c) 1) ≡ (ok tt, d1)
          → write_sync S d1 (Dequeue.writes (hash tx) (some (hash tx)) 2) ≡ (ok tt, d2)
          → ((j : Bytes) → stored d1 j ≡ after (writes J tx b (put (hash tx) c) 1) j (stored d j))
          → ((j : Bytes)
              → stored d2 j ≡ after (Dequeue.writes (hash tx) (some (hash tx)) 2) j (stored d1 j))
          → Breaks S J d tx (err (failure "get head element")) 1
      again d d1 d2 tx b c p encoded looped wrote1 wrote2 reads1 reads2 =
          let first : enqueue S J tx d ≡ (ok tt, d1) =
            enqueue-eq S J R d tx _ d1
              (enqueue_body-writes S J R d tx (some (hash tx)) 1 b (put (hash tx) c) p.tail p.len
                encoded (link_tail-some S J R d tx (hash tx) tx c p.nodes.0 looped))
              wrote1 in
          let len1 =
            enqueued_length J (stored d) (stored d1) tx b (hash tx) c 1 reads1 2 (omega arith)
              (omega arith) in
          let head1 : stored d1 head_key ≡ some (hash tx) =
            enqueued_head J (stored d) (stored d1) tx b (hash tx) c 1 reads1
              (hash-ne J head_key tx (omega arith)).1
            ∙ p.head in
          let node1 : stored d1 (hash tx) ≡ some c =
            enqueued_linked J (stored d) (stored d1) tx b (hash tx) c 1 reads1
              (hash-ne J tail_key tx (omega arith)).0
              (hash-ne J pool_length_key tx (omega arith)).0 in
          let second : dequeue S J d1 ≡ (ok tx, d2) =
            Dequeue.dequeue-eq S J R d1 2 (hash tx) tx (some (hash tx)) d2 len1 head1
              (c, node1, unmarshal-marshal (storage_elem tx (some (hash tx))) c looped) wrote2 in
          let len2 =
            dequeued_length J (stored d1) (stored d2) tx 1 (some (hash tx)) reads2 (omega arith) in
          let gone = dequeued_some J (stored d1) (stored d2) tx 1 (hash tx) reads2 in
          rw (first, second)
            (refl, refl, len-ok S J R d2 1 len2, dequeue_dangling d2 1 (hash tx) len2 gone.0 gone.1)

  -- A pool of several transactions whose oldest is enqueued again: that one comes out, the links to
  -- the others are lost while the length still counts them, and the next `Dequeue` fails.
  pub enqueue_oldest-Breaks :
      (d : S.Db) (x y : Bytes) (ys : List Bytes)
      → Represents S J d (x ∷ y ∷ ys)
      → length (x ∷ y ∷ ys) + 1 < u64_mod
      → Breaks S J d x (err (failure "head hash not found")) (length (x ∷ y ∷ ys))
  enqueue_oldest-Breaks d x y ys p room =
      let n = length (x ∷ y ∷ ys) in
      let (b, encoded) = marshal_works (storage_elem x none) in
      let (c, linked) = marshal_works (storage_elem (last_of J y ys) (some (hash x))) in
      let (d1, wrote1, reads1, stored_reads1) =
        write_sync-ok S R d (writes J x b (put (hash (last_of J y ys)) c) n) in
      let (d2, wrote2, reads2, stored_reads2) =
        write_sync-ok S R d1 (Dequeue.writes (hash x) none (suc n)) in
      again d d1 d2 n (last_of J y ys) b c p.head p.tail p.len
        (Nodes-last J (stored d) x (y ∷ ys) p.nodes) (last-IsFresh J x y ys p.distinct.0) room
        encoded linked wrote1 wrote2 reads1 reads2
    where
      again :
          (d d1 d2 : S.Db) (n : ℕ) (z b c : Bytes)
          → stored d head_key ≡ some (hash x)
          → stored d tail_key ≡ some (hash z)
          → HasLength J (stored d pool_length_key) n
          → Holds J (stored d) (hash z) (storage_elem z none)
          → bytes_eq (hash z) (hash x) ≡ false
          → n + 1 < u64_mod
          → marshal (storage_elem x none) ≡ ok b
          → marshal (storage_elem z (some (hash x))) ≡ ok c
          → write_sync S d (writes J x b (put (hash z) c) n) ≡ (ok tt, d1)
          → write_sync S d1 (Dequeue.writes (hash x) none (suc n)) ≡ (ok tt, d2)
          → ((j : Bytes) → stored d1 j ≡ after (writes J x b (put (hash z) c) n) j (stored d j))
          → ((j : Bytes)
              → stored d2 j ≡ after (Dequeue.writes (hash x) none (suc n)) j (stored d1 j))
          → Breaks S J d x (err (failure "head hash not found")) n
      again d d1 d2 n z b c at_head at_tail has_len last_node apart room encoded linked wrote1
            wrote2 reads1 reads2 =
          let first : enqueue S J x d ≡ (ok tt, d1) =
            enqueue-eq S J R d x _ d1
              (enqueue_body-writes S J R d x (some (hash z)) n b (put (hash z) c) at_tail has_len
                encoded (link_tail-some S J R d x (hash z) z c last_node linked))
              wrote1 in
          let len1 =
            enqueued_length J (stored d) (stored d1) x b (hash z) c n reads1 (suc n) (omega arith)
              (omega arith) in
          let head1 : stored d1 head_key ≡ some (hash x) =
            enqueued_head J (stored d) (stored d1) x b (hash z) c n reads1
              (hash-ne J head_key z (omega arith)).1
            ∙ at_head in
          let node1 : stored d1 (hash x) ≡ some b =
            enqueued_new J (stored d) (stored d1) x b (hash z) c n reads1 apart in
          let second : dequeue S J d1 ≡ (ok x, d2) =
            Dequeue.dequeue-eq S J R d1 (suc n) (hash x) x none d2 len1 head1
              (b, node1, unmarshal-marshal (storage_elem x none) b encoded) wrote2 in
          let len2 = dequeued_length J (stored d1) (stored d2) x n none reads2 room in
          let gone = dequeued_none J (stored d1) (stored d2) x n reads2 in
          rw (first, second) (refl, refl, len-ok S J R d2 n len2, dequeue_lost d2 n len2 gone)
