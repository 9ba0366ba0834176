-- ===== src/Mempool/Enqueue.antt =====
-- `Pool.Enqueue` puts a transaction behind those of the pool.
use monomer.Prelude.{
  ℕ, ◌+◌, ◌%◌, ◌<◌, ◌≡◌, refl, false, Option, none, some, List, [], ◌∷◌, ◌++◌, arith, length,
  length-append, Result, ok, wrap_close_err,
}
use monomer.Bytes.{Bytes, bytes_eq, bytes_eq_refl, bytes_ne_of_length}
use monomer.Bytes.BigEndian.{u64_mod, put_uint64}
use monomer.KvStore.{KvStore, IsReliable, Op, put, lookup}
use monomer.KvStore.Laws.{after}
use monomer.KvStore.Batch.{write_sync, get_now, add_op-ok, write_sync-ok}
use monomer.Mempool.{
  TxCodec, storage_elem, head_key, tail_key, pool_length_key, enqueue, enqueue_body, link_new,
  link_tail, update_len,
}
use monomer.Mempool.Chain.{
  keys_differ, Represents-ext, HasLength-put, IsPool, IsFresh, Represents, Holds, HasLength,
  Nodes-last, Nodes-snoc, IsDistinct-snoc, last_of, last_hash-snoc, hash-ne, last-IsFresh,
}
use monomer.Mempool.Calls.{elem-ok, len-ok, put_elem-ok}

-- The writes of one call: `op` links the old tail, or sets the head.
abbrev pub writes : (J : TxCodec) → Bytes → Bytes → Op → ℕ → List Op
writes J tx b op n =
    put (J.hash tx) b
    ∷ op
    ∷ put tail_key (J.hash tx)
    ∷ put pool_length_key (put_uint64 ((n + 1) % u64_mod))
    ∷ []

module _ (S : KvStore) (J : TxCodec) (R : IsReliable S) (d : S.Db) (tx : Bytes) where
  open J use {hash, marshal}

  -- A call is one write of the batch.
  pub enqueue_body-writes :
      (tail : Option Bytes) (n : ℕ) (b : Bytes) (op : Op)
      → lookup tail_key (S.entries d) ≡ tail
      → HasLength J (lookup pool_length_key (S.entries d)) n
      → marshal (storage_elem tx none) ≡ ok b
      → ((batch : List Op) → link_tail S J d tx tail batch ≡ ok (batch ++ op ∷ []))
      → enqueue_body S J tx d ≡ write_sync S d (writes J tx b op n)
  unfolding enqueue_body link_new update_len
  enqueue_body-writes tail n b op at_tail has_len encoded linked = ground (
    arith,
    get_now S R d tail_key,
    put_elem-ok S J R [] (hash tx) (storage_elem tx none) b encoded,
    linked (put (hash tx) b ∷ []),
    add_op-ok S R (put (hash tx) b ∷ op ∷ []) (put tail_key (hash tx)),
    len-ok S J R d n has_len,
    add_op-ok S R (put (hash tx) b ∷ op ∷ put tail_key (hash tx) ∷ [])
        (put pool_length_key (put_uint64 ((n + 1) % u64_mod))),
  )

module _ (J : TxCodec) (m : Bytes → Option Bytes) (tx b : Bytes)
    (encoded : J.unmarshal b ≡ ok (storage_elem tx none)) where
  open J use {hash}

  -- What the database holds after the writes.
  abbrev reads : Op → ℕ → Bytes → Option Bytes
  reads op n k = after (writes J tx b op n) k (m k)

  -- The three keys of the pool after the writes.
  reads_tail : (op : Op) (n : ℕ) → reads op n tail_key ≡ some (hash tx)
  reads_tail op n =
      ground (arith, keys_differ, hash-ne J tail_key tx (omega arith), bytes_eq_refl tail_key)

  reads_length :
      (op : Op) (n : ℕ) → reads op n pool_length_key ≡ some (put_uint64 ((n + 1) % u64_mod))
  reads_length op n = ground (
    arith,
    keys_differ,
    hash-ne J pool_length_key tx (omega arith),
    bytes_eq_refl pool_length_key,
  )

  keeps_length :
      (op : Op) (n : ℕ) → n + 1 < u64_mod → HasLength J (reads op n pool_length_key) (n + 1)
  keeps_length op n h =
      HasLength-put J (reads op n pool_length_key) ((n + 1) % u64_mod) (n + 1) (reads_length op n)
        (omega arith) h

  IsPool-first : IsPool J m [] → IsPool J (reads (put head_key (hash tx)) 0) (tx ∷ [])
  IsPool-first p = record {
    head = ground (arith, keys_differ, hash-ne J head_key tx (omega arith), bytes_eq_refl head_key);
    tail = reads_tail (put head_key (hash tx)) 0;
    len = keeps_length (put head_key (hash tx)) 0 (omega arith);
    nodes = (new_node, tt);
    distinct = (tt, tt);
    fits = omega arith;
  }
    where
      new_node : Holds J (reads (put head_key (hash tx)) 0) (hash tx) (storage_elem tx none)
      new_node = (
        b,
        ground (
          arith,
          hash-ne J head_key tx (omega arith),
          hash-ne J tail_key tx (omega arith),
          hash-ne J pool_length_key tx (omega arith),
          bytes_eq_refl (hash tx),
        ),
        encoded,
      )

  module _ (x : Bytes) (xs : List Bytes) (c : Bytes)
      (linked : J.unmarshal c ≡ ok (storage_elem (last_of J x xs) (some (hash tx)))) where
    abbrev old : Bytes
    old = hash (last_of J x xs)

    reads_other :
        (k : Bytes)
        → length k ≡ 32
        → bytes_eq old k ≡ false
        → bytes_eq (hash tx) k ≡ false
        → (n : ℕ) → reads (put old c) n k ≡ m k
    reads_other k h e f n = ground (
      arith,
      bytes_ne_of_length tail_key k (omega arith),
      bytes_ne_of_length pool_length_key k (omega arith),
    )

    IsPool-snoc :
        IsPool J m (x ∷ xs)
        → IsFresh J tx (x ∷ xs)
        → length (x ∷ xs) + 1 < u64_mod
        → IsPool J (reads (put old c) (length (x ∷ xs))) (x ∷ xs ++ tx ∷ [])
    IsPool-snoc p fresh room = record {
      head = ground (
        arith,
        keys_differ,
        p.head,
        hash-ne J head_key tx (omega arith),
        hash-ne J head_key (last_of J x xs) (omega arith),
      );
      tail = rw (last_hash-snoc J tx (x ∷ xs)) (reads_tail (put old c) (length (x ∷ xs)));
      len = rw (length-append (x ∷ xs) (tx ∷ [])) (keeps_length (put old c) (length (x ∷ xs)) room);
      nodes =
          Nodes-snoc J m (reads (put old c) (length (x ∷ xs))) tx x xs
            (λ k h e f. reads_other k h e f _) old_node new_node fresh p.distinct p.nodes;
      distinct = IsDistinct-snoc J tx (x ∷ xs) fresh p.distinct;
      fits = omega (arith, length-append (x ∷ xs) (tx ∷ []));
    }
      where
        apart : bytes_eq old (hash tx) ≡ false
        apart = last-IsFresh J tx x xs fresh

        new_node : Holds J (reads (put old c) (length (x ∷ xs))) (hash tx) (storage_elem tx none)
        new_node = (
          b,
          ground (
            arith,
            apart,
            hash-ne J tail_key tx (omega arith),
            hash-ne J pool_length_key tx (omega arith),
            bytes_eq_refl (hash tx),
          ),
          encoded,
        )

        old_node :
            Holds J
              (reads (put old c) (length (x ∷ xs)))
              old
              (storage_elem (last_of J x xs) (some (hash tx)))
        old_node = (
          c,
          ground (
            arith,
            hash-ne J tail_key (last_of J x xs) (omega arith),
            hash-ne J pool_length_key (last_of J x xs) (omega arith),
            bytes_eq_refl old,
          ),
          linked,
        )

module _ (S : KvStore) (J : TxCodec) (R : IsReliable S) (d : S.Db) (tx : Bytes) where
  abbrev pub Appended : List Bytes → Result (Unit {0}) × S.Db → Type 0
  Appended txs res = (res.0 ≡ ok tt) × Represents S J res.1 txs

  link_tail-none :
      (batch : List Op)
      → link_tail S J d tx none batch ≡ ok (batch ++ put head_key (J.hash tx) ∷ [])
  unfolding link_tail
  link_tail-none batch = add_op-ok S R batch (put head_key (J.hash tx))

  pub link_tail-some :
      (k t c : Bytes)
      → Holds J (λ j. lookup j (S.entries d)) k (storage_elem t none)
      → J.marshal (storage_elem t (some (J.hash tx))) ≡ ok c
      → (batch : List Op) → link_tail S J d tx (some k) batch ≡ ok (batch ++ put k c ∷ [])
  unfolding link_tail
  link_tail-some k t c held encoded batch =
      rw (elem-ok S J R d k (storage_elem t none) held)
        (put_elem-ok S J R batch k (storage_elem t (some (J.hash tx))) c encoded)

  pub enqueue-eq :
      (ops : List Op) (d' : S.Db)
      → enqueue_body S J tx d ≡ write_sync S d ops
      → write_sync S d ops ≡ (ok tt, d')
      → enqueue S J tx d ≡ (ok tt, d')
  unfolding enqueue wrap_close_err
  enqueue-eq ops d' e wrote = rw (e, wrote, R.closes d') refl

  enqueue-writes :
      (ops : List Op) (txs : List Bytes)
      → enqueue_body S J tx d ≡ write_sync S d ops
      → IsPool J (λ k. after ops k (lookup k (S.entries d))) txs
      → Appended txs (enqueue S J tx d)
  enqueue-writes ops txs e p =
      let (d', wrote, reads, stored_reads) = write_sync-ok S R d ops in
      rw (enqueue-eq ops d' e wrote) (refl, Represents-ext S J d' _ txs reads p)

  -- A transaction whose hash is not in the pool is put behind those of the pool, if no call of the
  -- database fails and the length stays below 2 ^ 64.
  pub enqueue-snoc :
      (txs : List Bytes)
      → Represents S J d txs
      → IsFresh J tx txs
      → length txs + 1 < u64_mod
      → Appended (txs ++ tx ∷ []) (enqueue S J tx d)
  enqueue-snoc [] p fresh room =
      let (b, encoded) = J.marshal_works (storage_elem tx none) in
      enqueue-writes _ (tx ∷ [])
        (enqueue_body-writes S J R d tx none 0 b _ p.tail p.len encoded link_tail-none)
        (IsPool-first J _ tx b (J.unmarshal-marshal _ b encoded) p)
  enqueue-snoc (x ∷ xs) p fresh room =
      let (b, encoded) = J.marshal_works (storage_elem tx none) in
      let (c, relinked) = J.marshal_works (storage_elem (last_of J x xs) (some (J.hash tx))) in
      enqueue-writes _ (x ∷ xs ++ tx ∷ [])
        (enqueue_body-writes S J R d tx (some (J.hash (last_of J x xs))) (length (x ∷ xs)) b _
          p.tail p.len encoded
          (link_tail-some _ _ c (Nodes-last J (λ k. lookup k (S.entries d)) x xs p.nodes) relinked))
        (IsPool-snoc J _ tx b (J.unmarshal-marshal _ b encoded) x xs c
          (J.unmarshal-marshal _ c relinked) p fresh room)
