-- ===== src/Engine/Accepted.antt =====
-- A payload that `GetPayloadV3` handed out, given back to `NewPayloadV3`.
use monomer.Prelude.{
  some_injective, Error, String, ℕ, ◌+◌, ◌<◌, ◌≡◌, refl, ap, sym, ◌∙◌, Bool, true, false, Option,
  none, some, List, [], length, Result, ok, err, panic, ok_injective, wrap_close_err, wrapping,
  ◌>>=◌,
}
use monomer.Bytes.{Bytes, bytes_eq}
use monomer.Bytes.BigEndian.{u64_mod}
use monomer.KvStore.{KvStore, IsReliable, select}
use monomer.KvStore.Sorted.{IsSorted}
use monomer.Mempool.Chain.{Represents}
use monomer.Block.{Header, Block, new_block}
use monomer.LocalDb.Keys.{BlockCodec}
use monomer.LocalDb.Keys.Ranges.{tx_range}
use monomer.LocalDb.Lookup.{head_header, db_header_by_hash, header_by_hash, block_by_hash, txs_of}
use monomer.Builder.World.{World, BuilderState}
use monomer.Builder.Build.{build}
use monomer.Builder.Build.Extends.{build-Extended, taken}
use monomer.Engine.Attributes.{PayloadAttributes, payload_id}
use monomer.Engine.Api.{EngineState, status_valid}
use monomer.Engine.Payloads.{
  ExecutionPayload, builder_payload, get_payload, get_current, build_if, build_payload, after_build,
  seal, hand_out, new_payload,
}

abbrev both : Header → List Bytes → Result (Header × List Bytes)
both header txs = ok (header, txs)

-- A block that is found by a hash has a header that is found by it.
module _ (S : KvStore) (C : BlockCodec) (R : IsReliable S) where
  header_of_block :
      (hash : Bytes) (d : S.Db) (b : Block)
      → block_by_hash S C hash d ≡ ok b
      → db_header_by_hash S C hash d ≡ ok b.header
  unfolding block_by_hash db_header_by_hash new_block wrap_close_err
  header_of_block hash d b h =
      go "get header by hash" (header_by_hash S C (d, []) hash) (txs_of S C (d, [])) (S.close d)
        (R.closes d) h
    where
      go :
          (m : String) (r : Result Header) (f : Header → Result (List Bytes)) (c : Option Error)
          → c ≡ none
          → (wrap_close_err (wrapping m r >>= λ header. f header >>= λ txs. both header txs) c
              >>= λ x. ok (record { header = x.0; txs = x.1 }))
            ≡ ok b
          → wrap_close_err r c ≡ ok b.header
      go m (ok header) f none e h = read (f header) h
        where
          read :
              (t : Result (List Bytes))
              → (wrap_close_err (t >>= λ txs. both header txs) none >>= λ x.
                  ok (record { header = x.0; txs = x.1 }))
                ≡ ok b
              → ok header ≡ ok b.header
          read (ok txs) h = ap (λ x. ok x) (ap (λ (x : Block). x.header) (ok_injective _ b h))
          read (err x) h = cc
          read (panic x) h = cc
      go m (err x) f none e h = cc
      go m (panic x) f none e h = cc
      go m r f (some x) e h = cc

module _ (W : World) (marshal_binary : W.eth_codec.Tx → Result Bytes) (sha256 : Bytes → Bytes) where
  -- What was built for a payload that is handed out.
  abbrev Built : ℕ → PayloadAttributes → EngineState W → ExecutionPayload → EngineState W → Type 0
  Built fuel a s e s' =
      (b : Block) × (build W fuel (builder_payload a) s.builder ≡ some (ok b, s'.builder))
      × (e.block_hash ≡ b.header.hash)

  hand_out-block :
      (a : PayloadAttributes) (b : Block) (r : Result (List Bytes)) (s : EngineState W)
      (e : ExecutionPayload) (s' : EngineState W)
      → hand_out W marshal_binary sha256 a b r s ≡ (ok e, s')
      → (e.block_hash ≡ b.header.hash) × (s'.builder ≡ s.builder)
  unfolding hand_out
  hand_out-block a b (ok txs) s e s' h =
      let same = ok_injective _ e (ap (λ r. r.0) h) in
      (
        ap (λ (x : ExecutionPayload). x.block_hash) (sym same),
        ap (λ (x : Result ExecutionPayload × EngineState W). x.1.builder) (sym h),
      )
  hand_out-block a b (err x) s e s' h = cc
  hand_out-block a b (panic m) s e s' h = cc

  after_build-Built :
      (fuel : ℕ) (a : PayloadAttributes) (o : Option (Result Block × BuilderState W))
      (s : EngineState W) (e : ExecutionPayload) (s' : EngineState W)
      → build W fuel (builder_payload a) s.builder ≡ o
      → after_build W marshal_binary sha256 a o s ≡ some (ok e, s')
      → Built fuel a s e s'
  unfolding after_build seal
  after_build-Built fuel a none s e s' built h = cc
  after_build-Built fuel a (some (ok b, t)) s e s' built h =
      let (hash, same) =
        hand_out-block a b _ (record s { builder = t }) e s' (some_injective _ _ h) in
      (b, built ∙ ap (λ x. some (ok b, x)) (sym same), hash)
  after_build-Built fuel a (some (err x, t)) s e s' built h = cc
  after_build-Built fuel a (some (panic m, t)) s e s' built h = cc

  get_payload-Built :
      (fuel : ℕ) (a : PayloadAttributes) (id : Bytes) (s s' : EngineState W) (e : ExecutionPayload)
      → s.current_payload_attributes ≡ some a
      → get_payload W marshal_binary sha256 fuel id s ≡ some (ok e, s')
      → Built fuel a s e s'
  unfolding get_payload get_current build_if build_payload
  get_payload-Built fuel a id s s' e kept h =
      go (bytes_eq id (payload_id sha256 a))
        (ap (λ o. get_current W marshal_binary sha256 o fuel id s) (sym kept) ∙ h)
    where
      go :
          (c : Bool)
          → build_if W marshal_binary sha256 c fuel a s ≡ some (ok e, s')
          → Built fuel a s e s'
      go false h = cc
      go true h = after_build-Built fuel a _ s e s' refl h

  -- A payload that was handed out is valid, and the latest block, when it is given back at once: its
  -- block is in the block store. No call of the two databases fails, the fuel is more than the
  -- transactions that wait, the block store holds its entries in order and no transaction of the next
  -- height, and heights and the number of transactions fit 64 bits.
  pub new_payload-get_payload :
      (P : IsReliable W.pool_db) (B : IsReliable W.block_db) (a : PayloadAttributes)
      (waiting : List Bytes) (fuel : ℕ) (current : Header) (id : Bytes) (s s' : EngineState W)
      (e : ExecutionPayload)
      → s.current_payload_attributes ≡ some a
      → Represents W.pool_db W.tx_codec s.builder.mempool waiting
      → length waiting < fuel
      → head_header W.block_db W.block_codec s.builder.block_store ≡ ok current
      → current.height + 2 < u64_mod
      → length (taken a.no_tx_pool a.cosmos_txs waiting) < u64_mod
      → IsSorted (W.block_db.entries s.builder.block_store)
      → select (tx_range (current.height + 1)) (W.block_db.entries s.builder.block_store) ≡ []
      → get_payload W marshal_binary sha256 fuel id s ≡ some (ok e, s')
      → new_payload W marshal_binary sha256 e.block_hash s'
        ≡ ok (record { status = some (status_valid e.block_hash); error = none })
  unfolding new_payload
  new_payload-get_payload P B a waiting fuel current id s s' e kept is enough at_head fits few
        sorted free h =
      let (b, built, hash) = get_payload-Built fuel a id s s' e kept h in
      let extended =
        build-Extended W P B (builder_payload a) waiting fuel current s.builder s'.builder b is
          enough at_head fits few sorted free built in
      let (_, _, top, _, _, by_hash) = extended.reads in
      let known =
        header_of_block W.block_db W.block_codec B b.header.hash s'.builder.block_store b by_hash in
      ap (λ x. new_payload W marshal_binary sha256 x s') hash
      ∙ (rw (known, top, new_payload) refl
          ∙ ap (λ x. ok (record { status = some (status_valid x); error = none })) (sym hash))
