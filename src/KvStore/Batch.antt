-- ===== src/KvStore/Batch.antt =====
-- Filling a batch and writing it: `batch.Set`, `batch.Delete`, `batch.WriteSync` of cosmos-db and
-- cometbft-db, and `Batch.Set`, `Batch.Delete`, `Batch.Commit` of pebble.
use monomer.Prelude.{◌≡◌, refl, List, [], ◌∷◌, ◌++◌, Result, ok, err, panic, ◌>>◌, status}
use monomer.Bytes.{Bytes}
use monomer.KvStore.{KvStore, IsReliable, Op, lookup, apply}
use monomer.KvStore.Laws.{after, lookup-apply}

module _ (S : KvStore) where
  open S use {Db, refuse, write}

  unfoldable pub add_op : List Op → Op → Result (List Op)
  add_op batch op = status (refuse op) >> ok (batch ++ op ∷ [])

  -- A batch is written whole or not at all: a write that fails leaves the database as it was.
  unfoldable pub write_sync : Db → List Op → Result (Unit {0}) × Db
  write_sync d batch = elim (write d batch) [
    | ok d' ↦ (ok tt, d')
    | err e ↦ (err e, d)
    | panic m ↦ (panic m, d)
  ]

module _ (S : KvStore) (R : IsReliable S) where
  pub get_now : (d : S.Db) (k : Bytes) → S.get d [] k ≡ ok (lookup k (S.entries d))
  unfolding apply
  get_now d k = R.get_works d [] k

  pub add_op-ok : (batch : List Op) (op : Op) → add_op S batch op ≡ ok (batch ++ op ∷ [])
  unfolding add_op
  add_op-ok batch op = rw (R.accepts op)

  -- A batch is written, and every key reads as the batch left it.
  pub write_sync-ok :
      (d : S.Db) (ops : List Op)
      → (d' : S.Db) × (write_sync S d ops ≡ (ok tt, d'))
        × ((k : Bytes) → lookup k (S.entries d') ≡ after ops k (lookup k (S.entries d)))
        × (S.entries d' ≡ apply ops (S.entries d))
  unfolding write_sync
  write_sync-ok d ops =
      let (d', e) = R.write_works d ops in
      let wrote = S.write_sound d d' ops e in
      (d', rw (e, write_sync) refl, (λ k. rw wrote (lookup-apply ops k (S.entries d))), wrote)
