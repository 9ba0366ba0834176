-- ===== src/Rollup/Keeper.antt =====
-- x/rollup/keeper/keeper.go, genesis.go and grpc_query.go: the state of the rollup module, what it stores,
-- and the events of a message.
use monomer.Prelude.{
  panicking, refl, ◌∙◌, ok_of_wrapping, ap, ◌≡◌, Bool, true, false, String, List, [], ◌∷◌, ◌++◌,
  failure, wrapped, Result, ok, err, panic, failing, wrapping, ◌>>=◌,
}
use monomer.Prelude.Stateful.{ok_of_continue, Step, continue}
use monomer.Bytes.{Bytes}
use monomer.Adapters.{L1BlockInfo}
use monomer.Builder.Withdrawals.{Attribute, Event}
use monomer.Rollup.Messages.{Params, validate_params}
use monomer.Rollup.Sdk.{IsStore, Sdk}

-- `types.ModuleName`, `types.WEI` and the two keys of the store
abbrev pub module_name : String
module_name = "rollup"

abbrev pub wei : String
wei = "wei"

abbrev pub l1_block_info_key : String
l1_block_info_key = "l1_block_info"

abbrev pub params_key : String
params_key = "params"

-- What a message of the module changes: the module's store, the bank, and the events of the transaction.
pub record KeeperState (S : Sdk) : Type 0 where
  pub store : S.Store
  pub bank : S.Bank
  pub events : List Event

abbrev pub attribute : String → String → Attribute
attribute k v = record { name = k; value = v }

abbrev pub new_event : String → List Attribute → Event
new_event t as' = record { event_type = t; attributes = as' }

-- `types.WrapError(sentinel, m)`, where the error that it is given for goes into the text.
abbrev pub wrap_error {ℓ} : {A : Type ℓ} → String → String → Result A → Result A
wrap_error sentinel m (ok a) = ok a
wrap_error sentinel m (err e) = err (wrapped m (failure sentinel))
wrap_error sentinel m (panic p) = panic p

pub ok_of_wrap_error {ℓ} :
    {A : Type ℓ} (e m : String) (r : Result A) (a : A) → wrap_error e m r ≡ ok a → r ≡ ok a
ok_of_wrap_error e m (ok x) a h = h
ok_of_wrap_error e m (err x) a h = cc
ok_of_wrap_error e m (panic p) a h = cc

-- A call whose error is turned into another one.
abbrev pub mapping {ℓ} : {T : Type 0} {A : Type ℓ} → (Result A → Result A) → Step T A → Step T A
mapping f m s = let (r, t) = m s in (f r, t)

module _ (S : Sdk) where
  open S use {
    Store, Bank, get, set, marshal_info, unmarshal_info, marshal_params, unmarshal_params,
    is_hex_address,
  }

  abbrev pub Handler : Type 0 → Type 0
  Handler A = Step (KeeperState S) A

  -- A call without effects, on the bank, and on the store.
  abbrev pub lift : {A : Type 0} → Result A → Handler A
  lift r s = (r, s)

  abbrev pub in_bank : {A : Type 0} → Step Bank A → Handler A
  in_bank m s = let (r, b) = m s.bank in (r, record s { bank = b })

  abbrev pub in_store : {A : Type 0} → Step Store A → Handler A
  in_store m s = let (r, t) = m s.store in (r, record s { store = t })

  -- `EmitEvents`
  unfoldable pub emit_events : List Event → Handler (Unit {0})
  emit_events es s = (
    ok tt,
    record s {
      events = s.events ++ new_event "message" (attribute "module" module_name ∷ []) ∷ es;
    },
  )

  -- `GetL1BlockInfo`
  unfoldable pub get_l1_block_info : Store → Result L1BlockInfo
  get_l1_block_info t = do
    b ← wrapping "get l1 block info" (get l1_block_info_key t)
    wrapping "unmarshal l1 block info" (unmarshal_info b)

  -- `SetL1BlockInfo`
  unfoldable pub set_l1_block_info : L1BlockInfo → Step Store (Unit {0})
  set_l1_block_info i t =
      continue (wrapping "marshal L1 block info" (marshal_info i), t)
        (λ b. mapping (wrapping "set latest L1 block info") (set l1_block_info_key b))

  -- `GetParams`
  unfoldable pub get_params : Store → Result Params
  get_params t = do
    b ← wrapping "get params" (get params_key t)
    wrapping "unmarshal params" (unmarshal_params b)

  -- `SetParams`
  unfoldable pub set_params : Params → Step Store (Unit {0})
  set_params p t =
      continue (wrapping "marshal params" (marshal_params p), t)
        (λ b. mapping (wrapping "set params") (set params_key b))

  -- `InitGenesis`: an error is a panic.
  unfoldable pub init_genesis : Params → Step Store (Unit {0})
  init_genesis p = mapping (panicking "failed to set params") (set_params p)

  -- `ExportGenesis`
  unfoldable pub export_genesis : Store → Result Params
  export_genesis t = panicking "failed to get params" (get_params t)

  -- The queries `L1BlockInfo` and `Params`, of a request that may be nil.
  unfoldable pub query_l1_block_info : Bool → Store → Result L1BlockInfo
  query_l1_block_info true t = err (failure "invalid request")
  query_l1_block_info false t = wrapping "get L1 block info" (get_l1_block_info t)

  unfoldable pub query_params : Bool → Store → Result Params
  query_params true t = err (failure "invalid request")
  query_params false t = wrapping "get params" (get_params t)

  -- `ValidateGenesis`
  unfoldable pub validate_genesis : Params → Result (Unit {0})
  validate_genesis p = failing "validate params" (validate_params is_hex_address p)

  set_params-ok :
      (p : Params) (t : Store)
      → (set_params p t).0 ≡ ok tt
      → (b : Bytes) × (marshal_params p ≡ ok b)
        × ((set params_key b t).0 ≡ ok tt)
        × ((set_params p t).1 ≡ (set params_key b t).1)
  unfolding set_params
  set_params-ok p t h =
      let (b, marshalled, eq, rest) = ok_of_continue _ _ tt h in
      (b, ok_of_wrapping _ _ b marshalled, ok_of_wrapping _ _ tt rest, ap (λ r. r.1) eq)

  -- Parameters that `SetParams` stores are the ones that `GetParams`, `ExportGenesis` and the query
  -- return then, and the stored L1 block info is as before; if the store and the encoding keep what they
  -- are given.
  pub set_params-read :
      (L : IsStore S) (p : Params) (t : Store)
      → (set_params p t).0 ≡ ok tt
      → (get_params (set_params p t).1 ≡ ok p)
        × (export_genesis (set_params p t).1 ≡ ok p)
        × (query_params false (set_params p t).1 ≡ ok p)
        × (get_l1_block_info (set_params p t).1 ≡ get_l1_block_info t)
  unfolding get_params export_genesis query_params get_l1_block_info
  set_params-read L p t h =
      let (b, marshalled, written, eq) = set_params-ok p t h in
      let there = ap (get params_key) eq ∙ L.get-set params_key b t written in
      let back = L.unmarshal-marshal_params p b marshalled in
      let other =
        ap (get l1_block_info_key) eq ∙ L.get-set_other params_key l1_block_info_key b t refl in
      (rw (there, back) refl, rw (there, back) refl, rw (there, back) refl, rw other refl)

  -- The L1 block info that `SetL1BlockInfo` stores is the one that `GetL1BlockInfo` returns, and the
  -- parameters are as before.
  pub set_l1_block_info-read :
      (L : IsStore S) (i : L1BlockInfo) (t : Store)
      → (set_l1_block_info i t).0 ≡ ok tt
      → (get_l1_block_info (set_l1_block_info i t).1 ≡ ok i)
        × (get_params (set_l1_block_info i t).1 ≡ get_params t)
  unfolding set_l1_block_info get_params get_l1_block_info
  set_l1_block_info-read L i t h =
      let (b, marshalled, eq, rest) = ok_of_continue _ _ tt h in
      let written = ok_of_wrapping _ _ tt rest in
      let there =
        ap (λ r. get l1_block_info_key r.1) eq ∙ L.get-set l1_block_info_key b t written in
      let back = L.unmarshal-marshal_info i b (ok_of_wrapping _ _ b marshalled) in
      let other =
        ap (λ r. get params_key r.1) eq ∙ L.get-set_other l1_block_info_key params_key b t refl in
      (rw (there, back) refl, rw other refl)
