-- ===== src/Mempool/Dequeue.antt =====
-- `Pool.Dequeue` takes the oldest transaction.
use monomer.Prelude.{
  ℕ, suc, ◌+◌, ◌-◌, ◌%◌, ◌<◌, ◌≡◌, refl, ap, Option, none, some, List, [], ◌∷◌, ◌++◌, arith, length,
  All, Result, ok, err, failure, wrap_close_err,
}
use mathlib.Core.List.{append_assoc}
use monomer.Bytes.{Bytes, bytes_eq_refl}
use monomer.Bytes.BigEndian.{u64_mod, put_uint64}
use monomer.KvStore.{KvStore, IsReliable, Op, put, remove, lookup}
use monomer.KvStore.Laws.{after}
use monomer.KvStore.Batch.{write_sync, get_now, add_op-ok, write_sync-ok}
use monomer.Mempool.{
  TxCodec, storage_elem, head_key, tail_key, pool_length_key, dequeue, dequeue_head, dequeue_batch,
  head_elem, unlink_head, update_len,
}
use monomer.Mempool.Chain.{
  keys_differ, HasLength-put, Represents-ext, IsPool, IsFresh, Represents, Holds, HasLength,
  first_hash, hash-ne, IsFresh-symm, Nodes-frame,
}
use monomer.Mempool.Calls.{elem-ok, len-ok}

abbrev pub unlink_ops : Option Bytes → List Op
unlink_ops none = remove head_key ∷ remove tail_key ∷ []
unlink_ops (some next) = put head_key next ∷ []

abbrev pub writes : Bytes → Option Bytes → ℕ → List Op
writes head_hash next n =
    remove head_hash ∷ unlink_ops next
    ++ put pool_length_key (put_uint64 ((n + u64_mod - 1) % u64_mod)) ∷ []

module _ (J : TxCodec) (m : Bytes → Option Bytes) (x : Bytes) where
  open J use {hash, length-hash}

  abbrev reads : Option Bytes → ℕ → Bytes → Option Bytes
  reads next n k = after (writes (hash x) next n) k (m k)

  reads_length :
      (next : Option Bytes) (n : ℕ)
      → reads next n pool_length_key ≡ some (put_uint64 ((n + u64_mod - 1) % u64_mod))
  reads_length none n = ground (arith, bytes_eq_refl pool_length_key)
  reads_length (some k) n = ground (arith, bytes_eq_refl pool_length_key)

  keeps_length :
      (next : Option Bytes) (n : ℕ)
      → n + 1 < u64_mod
      → HasLength J (reads next (suc n) pool_length_key) n
  keeps_length next n h =
      HasLength-put J _ ((suc n + u64_mod - 1) % u64_mod) n (reads_length next (suc n))
        (omega arith) (omega arith)

  -- The nodes behind the head are not written to.
  others_stay :
      (next : Option Bytes) (n : ℕ) (ys : List Bytes)
      → IsFresh J x ys
      → All (λ y. reads next n (hash y) ≡ m (hash y)) ys
  others_stay next n [] f = tt
  others_stay none n (y ∷ ys) f = (
    ground (
      arith,
      IsFresh-symm J x y f.0,
      hash-ne J head_key y (omega arith),
      hash-ne J tail_key y (omega arith),
      hash-ne J pool_length_key y (omega arith),
    ),
    others_stay none n ys f.1,
  )
  others_stay (some k) n (y ∷ ys) f = (
    ground (
      arith,
      IsFresh-symm J x y f.0,
      hash-ne J head_key y (omega arith),
      hash-ne J pool_length_key y (omega arith),
    ),
    others_stay (some k) n ys f.1,
  )

  IsPool-tail :
      (xs : List Bytes)
      → IsPool J m (x ∷ xs)
      → IsPool J (reads (first_hash J xs) (length (x ∷ xs))) xs
  IsPool-tail [] p = record {
    head = ground (arith, keys_differ, bytes_eq_refl head_key);
    tail = ground (arith, keys_differ, bytes_eq_refl tail_key);
    len = keeps_length none 0 (omega arith);
    nodes = tt;
    distinct = tt;
    fits = omega arith;
  }
  IsPool-tail (y ∷ ys) p = record {
    head = ground (arith, keys_differ, bytes_eq_refl head_key);
    tail = ground (arith, p.tail, keys_differ, hash-ne J tail_key x (omega arith));
    len = keeps_length (some (hash y)) (length (y ∷ ys)) (omega (arith, p.fits));
    nodes =
        Nodes-frame J m (reads (some (hash y)) (length (x ∷ y ∷ ys))) (y ∷ ys)
          (others_stay (some (hash y)) (length (x ∷ y ∷ ys)) (y ∷ ys) p.distinct.0) p.nodes.1;
    distinct = p.distinct.1;
    fits = omega (arith, p.fits);
  }

module _ (S : KvStore) (J : TxCodec) (R : IsReliable S) (d : S.Db) where
  abbrev pub Taken : Bytes → List Bytes → Result Bytes × S.Db → Type 0
  Taken tx txs res = (res.0 ≡ ok tx) × Represents S J res.1 txs

  unlink_head-ok :
      (next : Option Bytes) (batch : List Op)
      → unlink_head S J next batch ≡ ok (batch ++ unlink_ops next)
  unfolding unlink_head
  unlink_head-ok none batch =
      rw
        (
          add_op-ok S R batch (remove head_key),
          add_op-ok S R (batch ++ remove head_key ∷ []) (remove tail_key),
        )
        (ap ok (append_assoc batch (remove head_key ∷ []) (remove tail_key ∷ [])))
  unlink_head-ok (some next) batch = add_op-ok S R batch (put head_key next)

  dequeue_batch-ok :
      (n : ℕ) (k tx : Bytes) (next : Option Bytes)
      → dequeue_batch S J n (k, storage_elem tx next) ≡ ok (writes k next n)
  unfolding dequeue_batch update_len
  dequeue_batch-ok n k tx next =
      rw (add_op-ok S R [] (remove k), unlink_head-ok next (remove k ∷ []))
        (add_op-ok S R (remove k ∷ unlink_ops next)
          (put pool_length_key (put_uint64 ((n + u64_mod - 1) % u64_mod))))

  pub dequeue-eq :
      (n : ℕ) (k tx : Bytes) (next : Option Bytes) (d' : S.Db)
      → HasLength J (lookup pool_length_key (S.entries d)) n
      → lookup head_key (S.entries d) ≡ some k
      → Holds J (λ j. lookup j (S.entries d)) k (storage_elem tx next)
      → write_sync S d (writes k next n) ≡ (ok tt, d')
      → dequeue S J d ≡ (ok tx, d')
  unfolding dequeue head_elem dequeue_head wrap_close_err
  dequeue-eq n k tx next d' has_len at_head held wrote = ground (
    arith,
    len-ok S J R d n has_len,
    get_now S R d head_key,
    elem-ok S J R d k (storage_elem tx next) held,
    dequeue_batch-ok n k tx next,
    wrote,
    R.closes d',
  )

  -- The transaction at the head is returned and leaves the pool, if no call of the database fails.
  pub dequeue-cons :
      (tx : Bytes) (txs : List Bytes) → Represents S J d (tx ∷ txs) → Taken tx txs (dequeue S J d)
  dequeue-cons tx txs p =
      let (d', wrote, reads, stored_reads) =
        write_sync-ok S R d (writes (J.hash tx) (first_hash J txs) (length (tx ∷ txs))) in
      rw
        (dequeue-eq (length (tx ∷ txs)) (J.hash tx) tx (first_hash J txs) d' p.len p.head p.nodes.0
          wrote)
        (refl, Represents-ext S J d' _ txs reads (IsPool-tail J _ tx txs p))

  -- An empty pool has no head to take, and is left alone.
  pub dequeue-nil : Represents S J d [] → dequeue S J d ≡ (err (failure "head hash not found"), d)
  unfolding dequeue head_elem
  dequeue-nil p = ground (arith, len-ok S J R d 0 p.len, get_now S R d head_key)
