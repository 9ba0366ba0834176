-- ===== src/Engine/Handover.antt =====
-- What `ForkchoiceUpdatedV3` hands over to `GetPayloadV3`.
use monomer.Prelude.{
  some_injective, ℕ, ◌≡◌, refl, ap, ◌∙◌, sym, Option, none, some, String, List, Result, ok, err,
  panic, ok_injective, ok_of_if, leb, arith, inl, inr,
}
use monomer.Prelude.Stateful.{Step, ok_of_continue}
use monomer.Bytes.{Bytes, bytes_eq_refl}
use monomer.Block.{Header}
use monomer.Adapters.{adapt_payload_txs_to_cosmos_txs}
use monomer.Builder.World.{World, Payload}
use monomer.Builder.Build.{build}
use monomer.Engine.Attributes.{PayloadAttributes, payload_id, is_empty}
use monomer.Engine.Api.{
  EngineState, Forkchoice, EthAttributes, Updated, gas_and_txs, attributes_of, check_attributes,
  keep_attributes, answer_payload, check_payload, with_parent, start_payload, answer,
  label_and_answer, apply_forkchoice, forkchoice_updated,
}
use monomer.Engine.Payloads.{
  get_payload, get_current, build_if, build_payload, builder_payload, after_build,
}

module _ (W : World) (check_tx : Bytes → Step W.app.State (Option String))
    (sha256 : Bytes → Bytes) where
  -- The attributes that are kept are those that were asked for.
  pub record Kept (pa : EthAttributes) (i : Bytes) (a : PayloadAttributes) (s : EngineState W)
      : Type 0 where
    pub current : s.current_payload_attributes ≡ some a
    pub named : payload_id sha256 a ≡ i
    pub txs : adapt_payload_txs_to_cosmos_txs W.eth_codec pa.transactions ≡ ok a.cosmos_txs
    pub timestamp : a.timestamp ≡ pa.timestamp
    pub no_tx_pool : a.no_tx_pool ≡ pa.no_tx_pool
    pub gas_limit : pa.gas_limit ≡ some a.gas_limit
    pub recipient : a.suggested_fee_recipient ≡ pa.suggested_fee_recipient
    pub beacon_root : a.parent_beacon_block_root ≡ pa.parent_beacon_block_root

  -- What the builder is given is what was asked for.
  pub record Asked (pa : EthAttributes) (p : Payload) : Type 0 where
    pub txs :
        adapt_payload_txs_to_cosmos_txs W.eth_codec pa.transactions ≡ ok p.injected_transactions
    pub timestamp : p.timestamp ≡ pa.timestamp
    pub no_tx_pool : p.no_tx_pool ≡ pa.no_tx_pool
    pub gas_limit : pa.gas_limit ≡ some p.gas_limit
    pub coinbase : p.coinbase ≡ pa.suggested_fee_recipient
    pub beacon_root : p.parent_beacon_root ≡ pa.parent_beacon_block_root

  abbrev Keeps : EthAttributes → Bytes → Result Updated × EngineState W → Type 0
  Keeps pa i r = (a : PayloadAttributes) × Kept pa i a r.1

  gas_and_txs-ok :
      (gas : Option ℕ) (adapted : Result (List Bytes)) (g : ℕ) (txs : List Bytes)
      → gas_and_txs W check_tx sha256 gas adapted ≡ ok (g, txs)
      → (gas ≡ some g) × (adapted ≡ ok txs)
  unfolding gas_and_txs
  gas_and_txs-ok none adapted g txs h = cc
  gas_and_txs-ok (some x) (err e) g txs h = cc
  gas_and_txs-ok (some x) (panic m) g txs h = cc
  gas_and_txs-ok (some x) (ok ts) g txs h = elim (ok_of_if (is_empty ts) _ _ (g, txs) h) [
    | inl (e, k) ↦ cc
    | inr (e, k) ↦
        let same = ok_injective (x, ts) (g, txs) k in
        (ap (λ r. some r.0) same, ap (λ r. ok r.1) same)
  ]

  check_attributes-ok :
      (pa : EthAttributes) (parent : Header) (g : ℕ) (txs : List Bytes)
      → check_attributes W check_tx sha256 pa parent ≡ ok (g, txs)
      → (pa.gas_limit ≡ some g)
        × (adapt_payload_txs_to_cosmos_txs W.eth_codec pa.transactions ≡ ok txs)
  unfolding check_attributes
  check_attributes-ok pa parent g txs h =
      elim (ok_of_if (leb pa.timestamp parent.time) _ _ (g, txs) h) [
        | inl (e, k) ↦ cc
        | inr (e, k) ↦ gas_and_txs-ok pa.gas_limit _ g txs k
      ]

  answer_payload-Keeps :
      (fcs : Forkchoice) (pa : EthAttributes) (parent : Header) (g : ℕ) (txs : List Bytes)
      (log : Option String) (s : EngineState W) (u : Updated) (i : Bytes)
      → (pa.gas_limit ≡ some g)
        × (adapt_payload_txs_to_cosmos_txs W.eth_codec pa.transactions ≡ ok txs)
      → (answer_payload W check_tx sha256 fcs
          (attributes_of W check_tx sha256 fcs pa parent g txs)
          log
          s).0
        ≡ ok u
      → u.id ≡ some i
      → Keeps pa i (
          answer_payload W check_tx sha256 fcs
            (attributes_of W check_tx sha256 fcs pa parent g txs)
            log
            s)
  unfolding answer_payload keep_attributes
  answer_payload-Keeps fcs pa parent g txs (some log) s u i c h n =
      no_id (ap (λ x. x.id) (ok_injective _ u h) ∙ n)
    where
      no_id :
          none ≡ some i
          → Keeps pa i (
              answer_payload W check_tx sha256 fcs
                (attributes_of W check_tx sha256 fcs pa parent g txs)
                (some log)
                s)
      no_id e = cc
  answer_payload-Keeps fcs pa parent g txs none s u i c h n =
      let a = attributes_of W check_tx sha256 fcs pa parent g txs in
      (
        a,
        record {
          current = refl;
          named = some_injective (payload_id sha256 a) i (ap (λ x. x.id) (ok_injective _ u h) ∙ n);
          txs = c.1;
          timestamp = refl;
          no_tx_pool = refl;
          gas_limit = c.0;
          recipient = refl;
          beacon_root = refl;
        },
      )

  start_payload-Keeps :
      (fcs : Forkchoice) (pa : EthAttributes) (s : EngineState W) (u : Updated) (i : Bytes)
      → (start_payload W check_tx sha256 fcs pa s).0 ≡ ok u
      → u.id ≡ some i
      → Keeps pa i (start_payload W check_tx sha256 fcs pa s)
  unfolding start_payload with_parent check_payload
  start_payload-Keeps fcs pa s u i h n =
      let (parent, at_head, eq1, h) = ok_of_continue _ _ u h in
      let ((g, txs), checked, eq2, h) = ok_of_continue _ _ u h in
      let (log, ran, eq3, h) = ok_of_continue _ _ u h in
      rw (eq1 ∙ (eq2 ∙ eq3)) (
        answer_payload-Keeps fcs pa parent g txs log _ u i
          (check_attributes-ok pa parent g txs checked) h n)

  -- When `ForkchoiceUpdatedV3` answers attributes with a payload id, the attributes that the engine keeps
  -- have this id, and the transactions, timestamp, gas limit, fee recipient and pool flag asked for.
  pub forkchoice_updated-Kept :
      (fcs : Forkchoice) (pa : EthAttributes) (s s' : EngineState W) (u : Updated) (i : Bytes)
      → forkchoice_updated W check_tx sha256 fcs (some pa) s ≡ (ok u, s')
      → u.id ≡ some i
      → (a : PayloadAttributes) × Kept pa i a s'
  unfolding forkchoice_updated apply_forkchoice label_and_answer answer
  forkchoice_updated-Kept fcs pa s s' u i run n =
      let h = ap (λ r. r.0) run in
      let (head, checked, eq1, h) = ok_of_continue _ _ u h in
      let (done, reorged, eq2, h) = ok_of_continue _ _ u h in
      let (labelled, written, eq3, h) = ok_of_continue _ _ u h in
      let (a, kept) = start_payload-Keeps fcs pa _ u i h n in
      (a, rw (sym (ap (λ r. r.1) run) ∙ ap (λ r. r.1) (eq1 ∙ (eq2 ∙ eq3))) kept)

module _ (W : World) (check_tx : Bytes → Step W.app.State (Option String))
    (marshal_binary : W.eth_codec.Tx → Result Bytes) (sha256 : Bytes → Bytes) where
  get_payload-current :
      (fuel : ℕ) (a : PayloadAttributes) (i : Bytes) (s : EngineState W)
      → s.current_payload_attributes ≡ some a
      → payload_id sha256 a ≡ i
      → get_payload W marshal_binary sha256 fuel i s
        ≡ build_payload W marshal_binary sha256 fuel a s
  unfolding get_payload get_current build_if
  get_payload-current fuel a i s c n = ground (arith, bytes_eq_refl i)

  -- The id that `ForkchoiceUpdatedV3` answered with is accepted by the next `GetPayloadV3`: it builds the
  -- payload that was asked for. The attributes that the engine keeps have this id, and they and the payload
  -- that the builder is given have the transactions, timestamp, gas limit, fee recipient, beacon root and pool
  -- flag asked for.
  pub get_payload-forkchoice_updated :
      (fuel : ℕ) (fcs : Forkchoice) (pa : EthAttributes) (s s' : EngineState W) (u : Updated)
      (i : Bytes)
      → forkchoice_updated W check_tx sha256 fcs (some pa) s ≡ (ok u, s')
      → u.id ≡ some i
      → (a : PayloadAttributes) × (p : Payload) × Kept W check_tx sha256 pa i a s'
        × Asked W check_tx sha256 pa p
        × (get_payload W marshal_binary sha256 fuel i s'
            ≡ build_payload W marshal_binary sha256 fuel a s')
        × (build_payload W marshal_binary sha256 fuel a s'
            ≡ after_build W marshal_binary sha256 a (build W fuel p s'.builder) s')
  unfolding build_payload
  get_payload-forkchoice_updated fuel fcs pa s s' u i run n =
      let (a, kept) = forkchoice_updated-Kept W check_tx sha256 fcs pa s s' u i run n in
      (
        a,
        builder_payload a,
        kept,
        record {
          txs = kept.txs;
          timestamp = kept.timestamp;
          no_tx_pool = kept.no_tx_pool;
          gas_limit = kept.gas_limit;
          coinbase = kept.recipient;
          beacon_root = kept.beacon_root;
        },
        get_payload-current fuel a i s' kept.current kept.named,
        refl,
      )
