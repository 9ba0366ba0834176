-- ===== src/Builder/Drain.antt =====
-- builder/builder.go: the loop of `Build` that takes everything from the mempool.
use monomer.Prelude.{
  ℕ, zero, suc, ◌<◌, ◌==◌, ◌≡◌, ap, ◌∙◌, sym, true, false, Option, none, some, List, [], ◌∷◌, ◌++◌,
  arith, length, Result, ok, err, panic,
}
use mathlib.Core.List.{append_assoc, append-nil}
use monomer.Bytes.{Bytes}
use monomer.KvStore.{KvStore, IsReliable}
use monomer.Mempool.{TxCodec, len, dequeue}
use monomer.Mempool.Chain.{Represents}
use monomer.Mempool.Calls.{len-ok}
use monomer.Mempool.Dequeue.{dequeue-cons}

module _ (S : KvStore) (J : TxCodec) where
  open S use {Db}

  -- The `for` loop: no fuel gives `none`. An error of the pool makes the builder panic.
  unfoldable pub drain : ℕ → List Bytes → Db → Option (Result (List Bytes) × Db)
  drain zero txs d = none
  drain (suc fuel) txs d = elim (len S J d) [
    | err e ↦ some (panic "enqueue", d)
    | panic m ↦ some (panic m, d)
    | ok n ↦ elim (n == 0) [
      | true ↦ some (ok txs, d)
      | false ↦
          let (r, d') = dequeue S J d in
          elim r [
            | ok tx ↦ drain fuel (txs ++ tx ∷ []) d'
            | err e ↦ some (panic "dequeue", d')
            | panic m ↦ some (panic m, d')
          ]
    ]
  ]

module _ (S : KvStore) (J : TxCodec) (R : IsReliable S) where
  -- The database after the pool was taken.
  abbrev pub Drained : List Bytes → Option (Result (List Bytes) × S.Db) → Type 0
  Drained txs out = (d : S.Db) × (out ≡ some (ok txs, d)) × Represents S J d []

  drain-empty :
      (d : S.Db) (fuel : ℕ) (acc : List Bytes)
      → Represents S J d []
      → drain S J (suc fuel) acc d ≡ some (ok acc, d)
  unfolding drain
  drain-empty d fuel acc p = ground (arith, len-ok S J R d 0 p.len)

  drain-step :
      (d d' : S.Db) (fuel n : ℕ) (acc : List Bytes) (tx : Bytes)
      → len S J d ≡ ok (suc n)
      → dequeue S J d ≡ (ok tx, d')
      → drain S J (suc fuel) acc d ≡ drain S J fuel (acc ++ tx ∷ []) d'
  unfolding drain
  drain-step d d' fuel n acc tx has taken = ground (arith, has, taken)

  -- The loop ends, with more fuel than the pool has transactions: it takes them all, the oldest first,
  -- and leaves an empty pool, if no call of the database fails.
  pub drain-pool :
      (d : S.Db) (txs acc : List Bytes) (fuel : ℕ)
      → Represents S J d txs
      → length txs < fuel
      → Drained (acc ++ txs) (drain S J fuel acc d)
  drain-pool d [] acc (suc fuel) p enough =
      (d, drain-empty d fuel acc p ∙ ap (λ ts. some (ok ts, d)) (sym (append-nil acc)), p)
  drain-pool d (tx ∷ txs) acc (suc fuel) p enough =
      let (taken, rest) = dequeue-cons S J R d tx txs p in
      let (d', out, empty) =
        drain-pool (dequeue S J d).1 txs (acc ++ tx ∷ []) fuel rest (omega arith) in
      let step =
        drain-step d (dequeue S J d).1 fuel (length txs) acc tx
          (len-ok S J R d (length (tx ∷ txs)) p.len) (ap (λ r. (r, (dequeue S J d).1)) taken) in
      (d', step ∙ (out ∙ ap (λ ts. some (ok ts, d')) (append_assoc acc (tx ∷ []) txs)), empty)
  drain-pool d txs acc zero p enough = ground arith
