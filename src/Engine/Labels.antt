-- ===== src/Engine/Labels.antt =====
-- The labels after `ForkchoiceUpdatedV3`, and what it refuses.
use monomer.Prelude.{
  ◌≡◌, ◌≤◌, refl, ap, ◌∙◌, sym, Option, none, some, String, List, [], ◌∷◌, arith, coded,
  is_not_found, invalid_payload_attributes, Result, ok, err,
}
use monomer.Prelude.Stateful.{
  Step, continue, ok_of_continue, continue_ok, continue_err, Keeps, keeps_on,
}
use monomer.Bytes.{Bytes}
use monomer.Block.{Header}
use monomer.KvStore.{IsReliable, lookup}
use monomer.LocalDb.Keys.{Label, label_key, hash_key}
use monomer.LocalDb.Lookup.{db_header_by_hash}
use monomer.LocalDb.Lookup.Stored.{db_header_by_hash-missing}
use monomer.LocalDb.Write.{update_labels}
use monomer.LocalDb.Write.Ops.{label_ops-ok, label_puts, update-ok}
use monomer.LocalDb.Rollback.Effect.{label_value, label_puts-value}
use monomer.Builder.World.{World}
use monomer.Engine.Attributes.{PayloadAttributes}
use monomer.Engine.Api.{
  EngineState, Forkchoice, EthAttributes, Updated, unless_refused, with_code, missing_or,
  find_header, not_above, check_forkchoice, label, check_txs, keep_attributes, answer_payload,
  check_payload, with_parent, start_payload, answer, label_and_answer, apply_forkchoice,
  forkchoice_updated,
}

module _ (W : World) (check_tx : Bytes → Step W.app.State (Option String))
    (sha256 : Bytes → Bytes) where
  abbrev blocks : EngineState W → W.block_db.Db
  blocks s = s.builder.block_store

  then_keeps :
      {A B : Type 0} (t : W.block_db.Db) (p : Result A × EngineState W)
      (f : A → Step (EngineState W) B)
      → blocks p.1 ≡ t
      → ((a : A) (s : EngineState W) → blocks s ≡ t → blocks (f a s).1 ≡ t)
      → blocks (continue p f).1 ≡ t
  then_keeps = keeps_on blocks

  check_txs-Keeps : (txs : List Bytes) → Keeps blocks (check_txs W check_tx sha256 txs)
  unfolding check_txs
  check_txs-Keeps [] s = refl
  check_txs-Keeps (tx ∷ txs) s = then_keeps (blocks s) _ _ refl (go (check_txs-Keeps txs))
    where
      go :
          Keeps blocks (check_txs W check_tx sha256 txs)
          → (log : Option String) (s1 : EngineState W) → blocks s1 ≡ blocks s
          → blocks (unless_refused W check_tx sha256 log (check_txs W check_tx sha256 txs) s1).1
            ≡ blocks s
      go k none s1 e = k s1 ∙ e
      go k (some m) s1 e = e

  answer_payload-Keeps :
      (fcs : Forkchoice) (a : PayloadAttributes) (log : Option String)
      → Keeps blocks (answer_payload W check_tx sha256 fcs a log)
  unfolding answer_payload keep_attributes
  answer_payload-Keeps fcs a none s = refl
  answer_payload-Keeps fcs a (some m) s = refl

  answer-Keeps :
      (fcs : Forkchoice) (pa : Option EthAttributes)
      → Keeps blocks (answer W check_tx sha256 fcs pa)
  unfolding answer start_payload with_parent check_payload
  answer-Keeps fcs none s = refl
  answer-Keeps fcs (some pa) s = then_keeps (blocks s) _ _ refl (λ parent s1 e.
      then_keeps (blocks s1) _ _ refl (λ c s2 e.
        then_keeps (blocks s2) _ _ (check_txs-Keeps c.1 s2)
          (λ log s3 e. answer_payload-Keeps fcs _ log s3 ∙ e)
        ∙ e)
      ∙ e)

  update_labels-values :
      (B : IsReliable W.block_db) (fcs : Forkchoice) (d : W.block_db.Db) (l : Label)
      → lookup (label_key l) (
          W.block_db.entries
            (update_labels W.block_db W.block_codec fcs.head_hash fcs.safe_hash fcs.finalized_hash
              d).1)
        ≡ some (label_value fcs.head_hash fcs.safe_hash fcs.finalized_hash l)
  unfolding update_labels
  update_labels-values B fcs d l =
      let (d', done, reads, holds) =
        update-ok W.block_db W.block_codec B
          (label_puts fcs.head_hash fcs.safe_hash fcs.finalized_hash) d in
      rw
        (
          label_ops-ok W.block_db W.block_codec B fcs.head_hash fcs.safe_hash fcs.finalized_hash [],
          done,
        )
        (reads (label_key l)
          ∙ label_puts-value W.block_codec fcs.head_hash fcs.safe_hash fcs.finalized_hash l _)

  -- Whenever `ForkchoiceUpdatedV3` answers without an error, with attributes or without, and whether it
  -- rolled the chain back or not, the labels in the block store are the three hashes that it was given;
  -- if no call of the database fails.
  pub forkchoice_updated-labels :
      (B : IsReliable W.block_db) (fcs : Forkchoice) (pa : Option EthAttributes)
      (s s' : EngineState W) (u : Updated) (l : Label)
      → forkchoice_updated W check_tx sha256 fcs pa s ≡ (ok u, s')
      → lookup (label_key l) (W.block_db.entries s'.builder.block_store)
        ≡ some (label_value fcs.head_hash fcs.safe_hash fcs.finalized_hash l)
  unfolding forkchoice_updated apply_forkchoice label_and_answer label
  forkchoice_updated-labels B fcs pa s s' u l run =
      let h = ap (λ r. r.0) run in
      let (head, checked, eq1, h) = ok_of_continue _ _ u h in
      let (done, reorged, eq2, h) = ok_of_continue _ _ u h in
      let (labelled, written, eq3, h) = ok_of_continue _ _ u h in
      let there =
        sym (ap (λ r. blocks r.1) run)
        ∙ (ap (λ r. blocks r.1) (eq1 ∙ (eq2 ∙ eq3)) ∙ answer-Keeps fcs pa _) in
      ap (λ d. lookup (label_key l) (W.block_db.entries d)) there ∙ update_labels-values B fcs _ l

  -- A finalized hash that is not stored is answered with "invalid payload attributes", and nothing is
  -- changed, where the head and the safe block are stored and the safe block is not above the head; if no
  -- call of the database fails.
  pub forkchoice_updated-missing_finalized :
      (B : IsReliable W.block_db) (fcs : Forkchoice) (pa : Option EthAttributes) (s : EngineState W)
      (head safe : Header)
      → db_header_by_hash W.block_db W.block_codec fcs.head_hash s.builder.block_store ≡ ok head
      → db_header_by_hash W.block_db W.block_codec fcs.safe_hash s.builder.block_store ≡ ok safe
      → safe.height ≤ head.height
      → lookup (hash_key fcs.finalized_hash) (W.block_db.entries s.builder.block_store) ≡ none
      → forkchoice_updated W check_tx sha256 fcs pa s
        ≡ (err (coded invalid_payload_attributes "finalized block not found"), s)
  unfolding forkchoice_updated check_forkchoice find_header not_above is_not_found
  forkchoice_updated-missing_finalized B fcs pa s head safe has_head has_safe le missing =
      let bad = coded invalid_payload_attributes "finalized block not found" in
      let gone =
        db_header_by_hash-missing W.block_db W.block_codec B s.builder.block_store
          fcs.finalized_hash missing in
      let checks =
        continue_ok _ _ head (ap (with_code (missing_or _)) has_head)
        ∙ (continue_ok _ _ safe (ap (with_code (missing_or _)) has_safe)
            ∙ (continue_ok _ _ tt (ground arith)
                ∙ continue_err _ _ bad (ap (with_code (missing_or bad)) gone))) in
      continue_err _ _ bad (ap (λ r. r.0) checks) ∙ ap (λ r. (err bad, r.1)) checks
