-- ===== src/Eth/Reads.antt =====
-- What Ethereum's clients are told of a block that is stored, and of one that is not.
use monomer.Prelude.{
  wrap_close_err, ℕ, ◌≡◌, refl, ◌==◌, Bool, true, false, Option, none, some, List, length, ==_iff,
  Result, ok, err, wrapping, if◌then◌else◌, is_not_found,
}
use monomer.Bytes.{Bytes}
use monomer.Bytes.BigEndian.{put_uint64}
use monomer.KvStore.{KvStore, IsReliable, lookup}
use monomer.Adapters.{EthCodec}
use monomer.Block.{Block}
use monomer.Block.Hash.{EthHeader, header_to_eth}
use monomer.LocalDb.Keys.{header_key, Label, BlockCodec, height_key, label_key, hash_key}
use monomer.LocalDb.Lookup.{
  view_block_by_height, header_by_label, header_by_height, head_block, block_by_height,
  block_by_hash, block_by_label, header_by_hash,
}
use monomer.LocalDb.Lookup.Stored.{
  get_value-none, IsStored, head_block-ok, block_by_height-ok, block_by_hash-ok,
}
use monomer.LocalDb.Write.Labels.{block_by_label-ok}
use monomer.Eth.{
  failure, EthApi, BlockNumbers, get_block, to_rpc_block, answer_block, get_block_by_number,
  get_block_by_hash, is_name, block_by_number, header_by_number_or_hash, eth_not_found,
}

module _ (S : KvStore) (C : BlockCodec) (E : EthCodec)
    (eth_block_hash : EthHeader → List E.Tx → Bytes) (A : EthApi E) where
  abbrev by_number : Option Label → ℕ → Bool → S.Db → Result A.RpcBlock
  by_number l h full_tx d =
      get_block_by_number S C E eth_block_hash A (record { label = l; height = h }) full_tx d

  -- The four ways to one block.
  abbrev pub SameBlock : Label → Bool → BlockNumbers → S.Db → Block → Type 0
  SameBlock l full_tx N d block =
      (by_number none block.header.height full_tx d
        ≡ to_rpc_block S C E eth_block_hash A block full_tx)
      × (by_number (some l) 0 full_tx d ≡ by_number none block.header.height full_tx d)
      × (get_block_by_hash S C E eth_block_hash A block.header.hash full_tx d
          ≡ by_number none block.header.height full_tx d)
      × (header_by_number_or_hash S C E eth_block_hash A N
            (record { number = some N.latest; hash = none }) d
          ≡ ok (header_to_eth block.header))
      × (header_by_number_or_hash S C E eth_block_hash A N
            (record { number = some block.header.height; hash = none }) d
          ≡ ok (header_to_eth block.header))
      × (header_by_number_or_hash S C E eth_block_hash A N
            (record { number = none; hash = some block.header.hash }) d
          ≡ ok (header_to_eth block.header))

  module _ (N : BlockNumbers) where
    by_latest :
        (d : S.Db) (block : Block)
        → head_block S C d ≡ ok block
        → block_by_number S C E eth_block_hash A N N.latest d ≡ ok block
    unfolding block_by_number
    by_latest d block h =
        let same : (N.latest == N.latest) ≡ true = (==_iff N.latest N.latest).1 refl in
        rw (same, h) refl

    by_height :
        (d : S.Db) (block : Block) (n : ℕ)
        → head_block S C d ≡ ok block
        → block_by_height S C n d ≡ ok block
        → is_name S C E eth_block_hash A N n ≡ false
        → block_by_number S C E eth_block_hash A N n d ≡ ok block
    unfolding block_by_number
    by_height d block n top h plain = go (n == N.latest)
      where
        go :
            (b : Bool)
            → (if b
                then wrapping "get block by height" (head_block S C d)
                else if is_name S C E eth_block_hash A N n
                then err (failure "not supported")
                else wrapping "get block by height" (block_by_height S C n d))
              ≡ ok block
        go true = rw top refl
        go false = rw (plain, h) refl

    -- The block at the head, by its label, its height and its hash, is told to a client as the same block, and
    -- its header is found as the latest one, by its height and by its hash; if no call of the database fails,
    -- its hash has 32 bytes, and its height is none of the numbers that are names.
    pub get_block-SameBlock :
        (R : IsReliable S) (l : Label) (full_tx : Bool) (d : S.Db) (block : Block) (b : Bytes)
        → IsStored S C R d block b
        → lookup height_key (S.entries d) ≡ some (put_uint64 block.header.height)
        → lookup (label_key l) (S.entries d) ≡ some block.header.hash
        → length block.header.hash ≡ 32
        → is_name S C E eth_block_hash A N block.header.height ≡ false
        → SameBlock l full_tx N d block
    unfolding get_block_by_number get_block_by_hash get_block answer_block header_by_number_or_hash
    get_block-SameBlock R l full_tx d block b stored top labelled sized plain =
        let at_height = block_by_height-ok S C R d block b stored in
        let at_hash = block_by_hash-ok S C R d block b stored in
        let at_label = block_by_label-ok S C R l d block b stored labelled sized in
        let at_top = head_block-ok S C R d block b stored top in
        (
          rw at_height refl,
          rw (at_height, at_label) refl,
          rw (at_height, at_hash) refl,
          rw (by_latest d block at_top) refl,
          rw (by_height d block block.header.height at_top at_height plain) refl,
          rw at_hash refl,
        )

  -- No block is found by the hash, by the height or by the label.
  abbrev pub Unknown : Bytes → ℕ → Label → Bool → S.Db → Type 0
  Unknown hash h l full_tx d =
      (get_block_by_hash S C E eth_block_hash A hash full_tx d ≡ err eth_not_found)
      × (by_number none h full_tx d ≡ err eth_not_found)
      × (by_number (some l) h full_tx d ≡ err eth_not_found)

  -- A hash, a height and a label that are not stored are all answered with go-ethereum's "not found", though
  -- the error of the database is wrapped two or three times on the way; if no call of the database fails.
  pub get_block-Unknown :
      (R : IsReliable S) (hash : Bytes) (h : ℕ) (l : Label) (full_tx : Bool) (d : S.Db)
      → lookup (hash_key hash) (S.entries d) ≡ none
      → lookup (header_key h) (S.entries d) ≡ none
      → lookup (label_key l) (S.entries d) ≡ none
      → Unknown hash h l full_tx d
  unfolding get_block_by_number get_block_by_hash get_block answer_block is_not_found block_by_hash
      block_by_height block_by_label header_by_hash header_by_height header_by_label
      view_block_by_height wrap_close_err
  get_block-Unknown R hash h l full_tx d no_hash no_height no_label = (
    rw (get_value-none S C R d (hash_key hash) no_hash, R.closes d) refl,
    rw (get_value-none S C R d (header_key h) no_height, R.closes d) refl,
    rw (get_value-none S C R d (label_key l) no_label, R.closes d) refl,
  )
