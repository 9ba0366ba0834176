-- ===== src/Engine/Once.antt =====
-- A payload is handed out once.
use monomer.Prelude.{
  ℕ, ◌≡◌, refl, Bool, true, false, Option, none, some, List, coded, invalid_params, Result, ok, err,
  panic,
}
use monomer.Bytes.{Bytes}
use monomer.Block.{Block}
use monomer.Builder.World.{World, BuilderState}
use monomer.Engine.Attributes.{PayloadAttributes}
use monomer.Engine.Api.{EngineState}
use monomer.Engine.Payloads.{
  ExecutionPayload, get_payload, get_current, build_if, build_payload, after_build, seal, hand_out,
}

module _ (W : World) (marshal_binary : W.eth_codec.Tx → Result Bytes) (sha256 : Bytes → Bytes) where
  -- A call that hands out a payload keeps none.
  abbrev Forgets : Option (Result ExecutionPayload × EngineState W) → Type 0
  Forgets out =
      (e : ExecutionPayload) (s : EngineState W)
      → out ≡ some (ok e, s)
      → s.current_payload_attributes ≡ none

  hand_out-Forgets :
      (a : PayloadAttributes) (block : Block) (r : Result (List Bytes)) (s : EngineState W)
      → Forgets (some (hand_out W marshal_binary sha256 a block r s))
  unfolding hand_out
  hand_out-Forgets a block (ok txs) s e s' h = cc
  hand_out-Forgets a block (err x) s e s' h = cc
  hand_out-Forgets a block (panic m) s e s' h = cc

  seal-Forgets :
      (a : PayloadAttributes) (r : Result Block) (s : EngineState W)
      → Forgets (some (seal W marshal_binary sha256 a r s))
  unfolding seal
  seal-Forgets a (ok block) s e s' h = hand_out-Forgets a block _ s e s' h
  seal-Forgets a (err x) s e s' h = cc
  seal-Forgets a (panic m) s e s' h = cc

  after_build-Forgets :
      (a : PayloadAttributes) (o : Option (Result Block × BuilderState W)) (s : EngineState W)
      → Forgets (after_build W marshal_binary sha256 a o s)
  unfolding after_build
  after_build-Forgets a none s e s' h = cc
  after_build-Forgets a (some (r, b)) s e s' h = seal-Forgets a r (record s { builder = b }) e s' h

  build_if-Forgets :
      (c : Bool) (fuel : ℕ) (a : PayloadAttributes) (s : EngineState W)
      → Forgets (build_if W marshal_binary sha256 c fuel a s)
  unfolding build_if build_payload
  build_if-Forgets false fuel a s e s' h = cc
  build_if-Forgets true fuel a s e s' h = after_build-Forgets a _ s e s' h

  get_current-Forgets :
      (o : Option PayloadAttributes) (fuel : ℕ) (i : Bytes) (s : EngineState W)
      → Forgets (get_current W marshal_binary sha256 o fuel i s)
  unfolding get_current
  get_current-Forgets none fuel i s e s' h = cc
  get_current-Forgets (some a) fuel i s e s' h = build_if-Forgets _ fuel a s e s' h

  -- After `GetPayloadV3` has handed out a payload, every further call is refused and changes nothing.
  pub get_payload-once :
      (fuel fuel' : ℕ) (i j : Bytes) (s s' : EngineState W) (e : ExecutionPayload)
      → get_payload W marshal_binary sha256 fuel i s ≡ some (ok e, s')
      → get_payload W marshal_binary sha256 fuel' j s'
        ≡ some (err (coded invalid_params "payload not found"), s')
  unfolding get_payload get_current
  get_payload-once fuel fuel' i j s s' e h =
      rw (get_current-Forgets s.current_payload_attributes fuel i s e s' h) refl
