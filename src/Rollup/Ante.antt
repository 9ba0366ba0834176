-- ===== src/Rollup/Ante.antt =====
-- x/rollup/tx: how a transaction is decoded, and what is checked and charged before it runs.
use monomer.Prelude.{
  ℕ, ◌≡◌, refl, ap, sym, ◌∙◌, Bool, true, false, Option, String, List, [], ◌∷◌, map, failure,
  Result, ok, err, panic, failing, wrapping, if◌then◌else◌, ok_of_failing, ok_of_wrapping, All,
  Bool-cases, inl, inr,
}
use monomer.Prelude.Stateful.{Step, ◌>>=◌, ◌>>◌, reading, ok_of_continue}
use monomer.Bytes.{Bytes}
use monomer.Adapters.{L1BlockInfo, MsgSetL1Attributes, DepositsTx, EthCodec}
use monomer.Rollup.Gas.{GasMeter, free, consume_gas, l1_data_cost}

-- A message of a transaction, by its Go type; a pointer that is nil is `none`.
pub data Msg : Type 0 where
  set_l1_attributes_msg : Option MsgSetL1Attributes → Msg
  apply_user_deposit_msg : Bytes → Msg
  other_msg : String → Msg

-- `DepositMsg`, by the types that implement it
unfoldable pub is_deposit_msg : Msg → Bool
is_deposit_msg (set_l1_attributes_msg a) = true
is_deposit_msg (apply_user_deposit_msg tx) = true
is_deposit_msg (other_msg m) = false

-- `DepositsTx.GetMsgs`
unfoldable pub deposit_msgs : DepositsTx → List Msg
deposit_msgs t = set_l1_attributes_msg t.l1_attributes ∷ map apply_user_deposit_msg t.user_deposits

-- The loop of `AnteHandle` over the messages.
unfoldable pub has_deposit_msg : List Msg → Bool
has_deposit_msg [] = false
has_deposit_msg (m ∷ ms) = if is_deposit_msg m then true else has_deposit_msg ms

-- The Cosmos SDK's transactions with their decoder and ante handler, its gas meters and the rest of the
-- context, and the module's reading of the L1 block info.
pub record AnteSdk : Type 1 where
  pub AuthTx : Type 0
  pub Meter : Type 0
  pub Store : Type 0
  pub auth_decode : Bytes → Result AuthTx
  pub auth_msgs : AuthTx → List Msg
  pub rlp_encode : AuthTx → Result Bytes
  pub consume : ℕ → Meter → Result Meter
  pub get_l1_block_info : Store → Result L1BlockInfo
  pub auth_ante : AuthTx → Bool → Step (GasMeter Meter × Store) (Unit {0})

pub data SdkTx (AuthTx : Type 0) : Type 0 where
  deposits_tx : DepositsTx → SdkTx AuthTx
  auth_tx : AuthTx → SdkTx AuthTx

module _ (A : AnteSdk) where
  open A use {
    AuthTx, Meter, Store, auth_decode, auth_msgs, rlp_encode, consume, get_l1_block_info, auth_ante,
  }

  abbrev pub Context : Type 0
  Context = GasMeter Meter × Store

  -- `DepositDecoder`
  unfoldable pub deposit_decoder : EthCodec → Bytes → Result (SdkTx AuthTx)
  deposit_decoder E b = elim (E.unmarshal_deposits b) [
    | ok t ↦ ok (deposits_tx t)
    | err e ↦ err (failure "unmarshal deposits tx")
    | panic m ↦ panic m
  ]

  -- `TxDecoder.Decode`: the first decoder that succeeds.
  unfoldable pub decode : EthCodec → Bytes → Result (SdkTx AuthTx)
  decode E b = elim (auth_decode b) [
    | ok t ↦ ok (auth_tx t)
    | err e ↦ elim (deposit_decoder E b) [
      | ok t ↦ ok t
      | err e' ↦ err (failure "failed to decode tx")
      | panic m ↦ panic m
    ]
    | panic m ↦ panic m
  ]

  abbrev pub charged : Context → Result (GasMeter Meter) → Result (Unit {0}) × Context
  charged c (ok m) = (ok tt, (m, c.1))
  charged c (err e) = (err e, c)
  charged c (panic p) = (panic p, c)

  -- `ctx.GasMeter().ConsumeGas`: a meter that runs out of gas panics.
  unfoldable pub charge : ℕ → Step Context (Unit {0})
  charge cost c = charged c (consume_gas consume cost c.0)

  -- `L1DataAnteHandler`; the keeper is given.
  unfoldable pub l1_data_ante_handler : AuthTx → Step Context (Unit {0})
  l1_data_ante_handler tx = do
    info ← reading (λ (c : Context). wrapping "get l1 block info" (get_l1_block_info c.1))
    bz ← reading (λ (c : Context).
        wrapping "get l1 gas used" (wrapping "failed to rlp encode tx" (rlp_encode tx)))
    cost ← reading (λ (c : Context). l1_data_cost info bz)
    charge cost

  -- `DepositAnteHandler`
  unfoldable pub deposit_ante_handler : SdkTx AuthTx → Step Context (Unit {0})
  deposit_ante_handler (deposits_tx t) (m, s) = (ok tt, (free, s))
  deposit_ante_handler (auth_tx t) c = (ok tt, c)

  -- The `default` of `AnteHandle` after its loop
  unfoldable pub ante_ordinary : AuthTx → Bool → Step Context (Unit {0})
  ante_ordinary t simulate = do
    λ c. let (r, c') = auth_ante t simulate c in (failing "auth ante handle" r, c')
    λ c. let (r, c') = l1_data_ante_handler t c in (failing "l1 data ante handle" r, c')

  -- `AnteHandler.AnteHandle`
  unfoldable pub ante_handle : SdkTx AuthTx → Bool → Step Context (Unit {0})
  ante_handle (deposits_tx t) simulate c =
      let (r, c') = deposit_ante_handler (deposits_tx t) c in (failing "deposit ante handle" r, c')
  ante_handle (auth_tx t) simulate c =
      if has_deposit_msg (auth_msgs t)
      then (err (failure "transaction contains deposit message"), c)
      else ante_ordinary t simulate c

  -- A list has no deposit message where each of its messages is none.
  abbrev pub NoDeposits : List Msg → Type 0
  NoDeposits ms = All (λ m. is_deposit_msg m ≡ false) ms

  no_deposits : (ms : List Msg) → has_deposit_msg ms ≡ false → NoDeposits ms
  unfolding has_deposit_msg
  no_deposits [] h = tt
  no_deposits (m ∷ ms) h = elim (Bool-cases (is_deposit_msg m)) [
    | inl e ↦ cc (h, ap (λ b. if b then true else has_deposit_msg ms) e)
    | inr e ↦ (e, no_deposits ms (sym (ap (λ b. if b then true else has_deposit_msg ms) e) ∙ h))
  ]

  charged-ok :
      (c : Context) (r : Result (GasMeter Meter))
      → (charged c r).0 ≡ ok tt
      → r ≡ ok (charged c r).1.0
  charged-ok c (ok m) h = refl
  charged-ok c (err e) h = cc
  charged-ok c (panic p) h = cc

  -- What `L1DataAnteHandler` took from the meter.
  abbrev Charged : AuthTx → Context → Context → Type 0
  Charged t c c' =
      (info : L1BlockInfo) × (bz : Bytes) × (cost : ℕ) × (get_l1_block_info c.1 ≡ ok info)
      × (rlp_encode t ≡ ok bz)
      × (l1_data_cost info bz ≡ ok cost)
      × (consume_gas consume cost c.0 ≡ ok c'.0)

  l1_data-Charged :
      (t : AuthTx) (c : Context)
      → (l1_data_ante_handler t c).0 ≡ ok tt
      → Charged t c (l1_data_ante_handler t c).1
  unfolding l1_data_ante_handler charge
  l1_data-Charged t c h =
      let (info, read, eq1, h1) = ok_of_continue _ _ tt h in
      let (bz, encoded, eq2, h2) = ok_of_continue _ _ tt h1 in
      let (cost, priced, eq3, h3) = ok_of_continue _ _ tt h2 in
      (
        info,
        bz,
        cost,
        ok_of_wrapping _ _ info read,
        ok_of_wrapping _ _ bz (ok_of_wrapping _ _ bz encoded),
        priced,
        charged-ok c _ h3 ∙ ap ok (sym (ap (λ r. r.1.0) (eq1 ∙ (eq2 ∙ eq3)))),
      )

  ante_ordinary-lem :
      (t : AuthTx) (simulate : Bool) (c : Context)
      → (ante_ordinary t simulate c).0 ≡ ok tt
      → ((auth_ante t simulate c).0 ≡ ok tt)
        × Charged t (auth_ante t simulate c).1 (ante_ordinary t simulate c).1
  unfolding ante_ordinary
  ante_ordinary-lem t simulate c h =
      let (done, checked, eq, h1) = ok_of_continue _ _ tt h in
      let (info, bz, cost, read, encoded, priced, paid) =
        l1_data-Charged t (auth_ante t simulate c).1 (ok_of_failing _ _ tt h1) in
      (
        ok_of_failing _ _ tt checked,
        (info, bz, cost, read, encoded, priced, paid ∙ ap ok (sym (ap (λ r. r.1.0) eq))),
      )

  let_through :
      (b : Bool) (m : Step Context (Unit {0})) (c : Context) {r : Result (Unit {0}) × Context}
      → r ≡ (if b then (err (failure "transaction contains deposit message"), c) else m c)
      → r.0 ≡ ok tt
      → (b ≡ false) × (r ≡ m c) × ((m c).0 ≡ ok tt)
  let_through true m c e h = cc
  let_through false m c e h = (refl, e, sym (ap (λ x. x.0) e) ∙ h)

  -- An ordinary transaction that `AnteHandle` lets through has no deposit message, has passed the checks of
  -- the auth module, and has paid, from what these left of its gas, the cost of its bytes on L1 at the
  -- prices that are stored.
  pub ante_handle-charges :
      (t : AuthTx) (simulate : Bool) (c : Context)
      → (ante_handle (auth_tx t) simulate c).0 ≡ ok tt
      → NoDeposits (auth_msgs t)
        × ((auth_ante t simulate c).0 ≡ ok tt)
        × (info : L1BlockInfo) × (bz : Bytes) × (cost : ℕ) × (get_l1_block_info
              (auth_ante t simulate c).1.1
            ≡ ok info)
        × (rlp_encode t ≡ ok bz)
        × (l1_data_cost info bz ≡ ok cost)
        × (consume_gas consume cost (auth_ante t simulate c).1.0
            ≡ ok (ante_handle (auth_tx t) simulate c).1.0)
  unfolding ante_handle
  ante_handle-charges t simulate c h =
      let (none_there, same, h1) =
        let_through (has_deposit_msg (auth_msgs t)) (ante_ordinary t simulate) c refl h in
      let (checked, costs) = ante_ordinary-lem t simulate c h1 in
      let (info, bz, cost, read, encoded, priced, paid) = costs in
      (
        no_deposits (auth_msgs t) none_there,
        checked,
        info,
        bz,
        cost,
        read,
        encoded,
        priced,
        paid ∙ ap ok (sym (ap (λ r. r.1.0) same)),
      )
