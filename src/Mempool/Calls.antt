-- ===== src/Mempool/Calls.antt =====
-- The pool's calls of its database, when the database does not fail.
use monomer.Prelude.{ℕ, ◌≡◌, List, [], ◌∷◌, ◌++◌, arith, ok, inl, inr, Option-cases}
use monomer.Bytes.{Bytes}
use monomer.KvStore.{KvStore, IsReliable, Op, lookup}
use monomer.KvStore.Batch.{get_now, add_op-ok}
use monomer.Mempool.{TxCodec, StorageElem, pool_length_key, len, elem, put_elem}
use monomer.Mempool.Chain.{Holds, HasLength}

module _ (S : KvStore) (J : TxCodec) (R : IsReliable S) where
  pub elem-ok :
      (d : S.Db) (k : Bytes) (e : StorageElem)
      → Holds J (λ j. lookup j (S.entries d)) k e
      → elem S J d k ≡ ok e
  unfolding elem
  elem-ok d k e (b, at, dec) = rw (get_now S R d k, at) dec

  pub len-ok :
      (d : S.Db) (n : ℕ) → HasLength J (lookup pool_length_key (S.entries d)) n → len S J d ≡ ok n
  unfolding len
  len-ok d n h = elim (Option-cases (lookup pool_length_key (S.entries d))) [
    | inl e ↦ ground (arith, get_now S R d pool_length_key)
    | inr (b, e) ↦ ground (arith, get_now S R d pool_length_key)
  ]

  pub put_elem-ok :
      (batch : List Op) (k : Bytes) (e : StorageElem) (b : Bytes)
      → J.marshal e ≡ ok b
      → put_elem S J batch k e ≡ ok (batch ++ Op.put k b ∷ [])
  unfolding put_elem
  put_elem-ok batch k e b h = rw (h, add_op-ok S R batch (Op.put k b))
