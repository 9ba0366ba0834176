-- ===== src/Comet/Api.antt =====
-- comet/comet.go: `BroadcastTxAPI`, `StatusAPI`, `BlockAPI` and `ABCI`.
use monomer.Prelude.{
  Bool-cases, inl, inr, ℕ, ◌+◌, ◌-◌, ◌%◌, ◌<◌, ◌≡◌, refl, ap, ◌∙◌, ◌==◌, ℤ, pos, negsuc, Bool, true,
  false, some, String, List, [], ◌∷◌, ◌++◌, length, Result, ok, failing, ◌>>=◌, if◌then◌else◌,
}
use native.Mathlib.Nat.{mod-eq_of_lt}
use mathlib.Core.Path.{subst⁻¹}
use monomer.Comet.Paginate.{drop}
use monomer.LocalDb.Keys.{height_key}
use monomer.LocalDb.Lookup.Stored.{IsStored, head_header-ok, block_by_height-ok, block_by_hash-ok}
use monomer.KvStore.{lookup}
use monomer.Prelude.Stateful.{Step, continue, continue_ok}
use monomer.Bytes.{Bytes}
use monomer.Bytes.BigEndian.{u64_mod, put_uint64}
use monomer.KvStore.{KvStore, IsReliable}
use monomer.Mempool.{TxCodec, enqueue}
use monomer.Mempool.Chain.{Represents, IsFresh}
use monomer.Mempool.Enqueue.{enqueue-snoc}
use monomer.Block.{zeros, Block, Header}
use monomer.Block.Hash.{CometHeader, header_to_comet}
use monomer.LocalDb.Keys.{BlockCodec}
use monomer.LocalDb.Lookup.{head_header, block_by_height, block_by_hash}

-- ABCI's `ResponseCheckTx`, and `rpctypes.ResultBroadcastTx`
pub record CheckTxResponse : Type 0 where
  pub code : ℕ
  pub log : String
  pub codespace : String

pub record BroadcastResult : Type 0 where
  pub code : ℕ
  pub log : String
  pub codespace : String
  pub hash : Bytes

module _ (S : KvStore) (J : TxCodec) {App : Type 0}
    (check_tx : Bytes → Step App CheckTxResponse) where
  abbrev pub Broadcaster : Type 0
  Broadcaster = App × S.Db

  abbrev pub broadcast_result : Bytes → CheckTxResponse → BroadcastResult
  broadcast_result tx r = record {
    code = r.code;
    log = r.log;
    codespace = r.codespace;
    hash = J.hash tx;
  }

  -- `BroadcastTx` after `CheckTx`: `IsOK` is code 0.
  unfoldable pub enqueue_checked : Bytes → CheckTxResponse → Step Broadcaster BroadcastResult
  enqueue_checked tx r (a, d) =
      if r.code == 0
      then continue
          (let (done, d') = enqueue S J tx d in (failing "enqueue in mempool" done, (a, d')))
          (λ done b. (ok (broadcast_result tx r), b))
      else (ok (broadcast_result tx r), (a, d))

  -- `BroadcastTx`
  unfoldable pub broadcast_tx : Bytes → Step Broadcaster BroadcastResult
  broadcast_tx tx (a, d) =
      continue (let (checked, a') = check_tx tx a in (failing "check tx" checked, (a', d)))
        (enqueue_checked tx)

  enqueue_checked-ok :
      (tx : Bytes) (r : CheckTxResponse) (a : App) (d : S.Db)
      → (enqueue S J tx d).0 ≡ ok tt
      → enqueue_checked tx r (a, d)
        ≡ (ok (broadcast_result tx r), (a, (if r.code == 0 then (enqueue S J tx d).1 else d)))
  unfolding enqueue_checked
  enqueue_checked-ok tx r a d done = elim (Bool-cases (r.code == 0)) [
    | inl e ↦ rw e (continue_ok _ _ tt (ap (failing "enqueue in mempool") done))
    | inr e ↦ rw e refl
  ]

  -- A new transaction that the application has checked is behind those of the pool where the check gave
  -- code 0, and else the pool is as before; the client is told its hash and what the check gave; if no call
  -- of the database fails and the length stays below 2 ^ 64.
  pub broadcast_tx-pool :
      (R : IsReliable S) (tx : Bytes) (a : App) (d : S.Db) (txs : List Bytes) (r : CheckTxResponse)
      → (check_tx tx a).0 ≡ ok r
      → Represents S J d txs
      → IsFresh J tx txs
      → length txs + 1 < u64_mod
      → ((broadcast_tx tx (a, d)).0 ≡ ok (broadcast_result tx r))
        × Represents S J (broadcast_tx tx (a, d)).1.1 (if r.code == 0 then txs ++ tx ∷ [] else txs)
        × ((broadcast_tx tx (a, d)).1.0 ≡ (check_tx tx a).1)
  unfolding broadcast_tx
  broadcast_tx-pool R tx a d txs r checked p fresh room =
      let (done, q) = enqueue-snoc S J R d tx txs p fresh room in
      let same =
        continue_ok _ (enqueue_checked tx) r (ap (failing "check tx") checked)
        ∙ enqueue_checked-ok tx r (check_tx tx a).1 d done in
      (
        ap (λ x. x.0) same,
        subst⁻¹ (λ x. Represents S J x (if r.code == 0 then txs ++ tx ∷ [] else txs))
            (ap (λ x. x.1.1) same)
            (either (r.code == 0) d (enqueue S J tx d).1 txs (txs ++ tx ∷ []) p q),
        ap (λ x. x.1.0) same,
      )
    where
      either :
          (b : Bool) (x y : S.Db) (xs ys : List Bytes)
          → Represents S J x xs
          → Represents S J y ys
          → Represents S J (if b then y else x) (if b then ys else xs)
      either true x y xs ys p q = q
      either false x y xs ys p q = p

-- CometBFT's `Block`, of which only the header and the transactions are set.
pub record CometBlock : Type 0 where
  pub header : CometHeader
  pub txs : List Bytes

-- `ToCometLikeBlock`
abbrev pub to_comet_like_block : Block → CometBlock
to_comet_like_block b = record { header = header_to_comet b.header; txs = b.txs }

-- `rpctypes.ResultBlock`, and the start of the chain and its end as `Status` reports them.
pub record ResultBlock : Type 0 where
  pub block_id_hash : Bytes
  pub block : CometBlock

pub record SyncInfo : Type 0 where
  pub latest_block_hash : Bytes
  pub latest_app_hash : Bytes
  pub latest_block_height : ℕ
  pub latest_block_time : ℕ
  pub earliest_block_hash : Bytes
  pub earliest_app_hash : Bytes
  pub earliest_block_height : ℕ
  pub earliest_block_time : ℕ

-- `uint64(height)` of an `int64`
unfoldable pub uint64_of : ℤ → ℕ
uint64_of (pos n) = n % u64_mod
uint64_of (negsuc n) = u64_mod - 1 - n % u64_mod

-- `common.BytesToHash`: the last 32 bytes, with zeros in front of a shorter text.
unfoldable pub bytes_to_hash : Bytes → Bytes
bytes_to_hash b = zeros (32 - length b) ++ drop (length b - 32) b

pub bytes_to_hash-32 : (b : Bytes) → length b ≡ 32 → bytes_to_hash b ≡ b
unfolding bytes_to_hash drop
bytes_to_hash-32 b h = rw h refl

-- The hash of a header and the hash of a block are CometBFT's.
module _ (S : KvStore) (C : BlockCodec) (comet_hash : CometHeader → Bytes)
    (comet_block_hash : CometBlock → Bytes) where
  -- `rpcBlock`
  unfoldable pub rpc_block : CometBlock → ResultBlock
  rpc_block b = record { block_id_hash = comet_block_hash b; block = b }

  -- `BlockAPI.ByHeight` and `BlockAPI.ByHash`
  unfoldable pub rpc_block_by_height : ℤ → S.Db → Result ResultBlock
  rpc_block_by_height h d = do
    b ← block_by_height S C (uint64_of h) d
    ok (rpc_block (to_comet_like_block b))

  unfoldable pub rpc_block_by_hash : Bytes → S.Db → Result ResultBlock
  rpc_block_by_hash hash d = do
    b ← block_by_hash S C (bytes_to_hash hash) d
    ok (rpc_block (to_comet_like_block b))

  abbrev pub sync_info : CometBlock → Header → SyncInfo
  sync_info start h = record {
    latest_block_hash = comet_hash (header_to_comet h);
    latest_app_hash = (header_to_comet h).app_hash;
    latest_block_height = (header_to_comet h).height;
    latest_block_time = (header_to_comet h).time;
    earliest_block_hash = comet_block_hash start;
    earliest_app_hash = start.header.app_hash;
    earliest_block_height = start.header.height;
    earliest_block_time = start.header.time;
  }

  -- `Status`, of a node that started at a block of CometBFT.
  unfoldable pub rpc_status : CometBlock → S.Db → Result SyncInfo
  rpc_status start d = do h ← head_header S C d; ok (sync_info start h)

  -- The block at the head is the same by its height and by its hash, with the height, time and application
  -- hash that the status reports, and with its transactions in order; if no call of the
  -- database fails.
  pub rpc_status-block :
      (R : IsReliable S) (start : CometBlock) (d : S.Db) (block : Block) (b : Bytes)
      → IsStored S C R d block b
      → lookup height_key (S.entries d) ≡ some (put_uint64 block.header.height)
      → length block.header.hash ≡ 32
      → (status : SyncInfo) × (found : ResultBlock) × (rpc_status start d ≡ ok status)
        × (rpc_block_by_height (pos block.header.height) d ≡ ok found)
        × (rpc_block_by_hash block.header.hash d ≡ ok found)
        × (found.block.txs ≡ block.txs)
        × (found.block.header.height ≡ status.latest_block_height)
        × (found.block.header.time ≡ status.latest_block_time)
        × (found.block.header.app_hash ≡ status.latest_app_hash)
  unfolding rpc_status rpc_block_by_height rpc_block_by_hash rpc_block header_to_comet uint64_of
  rpc_status-block R start d block b stored top sized =
      let h = block.header.height in
      let same : h % u64_mod ≡ h = mod-eq_of_lt stored.in_u64 in
      (
        sync_info start block.header,
        rpc_block (to_comet_like_block block),
        ap (λ r. r >>= λ x. ok (sync_info start x)) (head_header-ok S C R d block b stored top),
        ap (λ n. block_by_height S C n d >>= λ x. ok (rpc_block (to_comet_like_block x))) same
            ∙ ap (λ r. r >>= λ x. ok (rpc_block (to_comet_like_block x)))
                (block_by_height-ok S C R d block b stored),
        ap (λ k. block_by_hash S C k d >>= λ x. ok (rpc_block (to_comet_like_block x)))
              (bytes_to_hash-32 block.header.hash sized)
            ∙ ap (λ r. r >>= λ x. ok (rpc_block (to_comet_like_block x)))
                (block_by_hash-ok S C R d block b stored),
        refl,
        refl,
        refl,
        refl,
      )
