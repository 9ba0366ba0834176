-- ===== src/Builder/Withdrawals/First.antt =====
-- The event that the builder takes for the withdrawals of a transaction: always the first one.
use monomer.Prelude.{
  ok_of_if, ℕ, suc, ◌≡◌, refl, ap, ◌∙◌, sym, true, false, some, String, List, [], ◌∷◌, ◌++◌, All,
  ok, failing, if◌then◌else◌, ok_of_bind, ok_of_failing, ok_injective, inl, inr,
}
use monomer.Block.{Header}
use monomer.Builder.Withdrawals.{
  initiate_found, Attribute, Event, ExecTxResult, Withdrawal, Formats, Evm, is_withdrawal,
  is_withdrawal_type, find_event, with_attribute, append_attribute,
  parse_withdrawal_event_attributes, nonce_attribute, store_withdrawal_msg_in_evm,
  store_withdrawals,
}

abbrev pub Others : List Event → Type 0
Others = All (λ e. is_withdrawal e ≡ false)

find_event-first :
    (pre post : List Event) (e : Event)
    → Others pre
    → is_withdrawal e ≡ true
    → find_event (pre ++ e ∷ post) ≡ some e
unfolding find_event
find_event-first [] post e o h = rw h refl
find_event-first (x ∷ pre) post e o h = rw o.0 (find_event-first pre post e o.1 h)

append_attribute-first :
    (a : Attribute) (pre post : List Event) (e : Event)
    → Others pre
    → is_withdrawal e ≡ true
    → append_attribute a (pre ++ e ∷ post) ≡ pre ++ with_attribute a e ∷ post
unfolding append_attribute
append_attribute-first a [] post e o h = rw h refl
append_attribute-first a (x ∷ pre) post e o h =
    rw o.0 (ap (λ es. x ∷ es) (append_attribute-first a pre post e o.1 h))

-- How many messages are withdrawals.
abbrev pub withdrawals : List String → ℕ
withdrawals [] = 0
withdrawals (url ∷ urls) =
    if is_withdrawal_type url then suc (withdrawals urls) else withdrawals urls

module _ (F : Formats) (V : Evm) (header : Header) where
  open V use {State, new_evm, new_message_passer, message_nonce, initiate_withdrawal}

  -- From an event and a state, a number of withdrawals are initiated, each with what that one event
  -- says when its turn comes, and each leaves its nonce in the event.
  pub data Initiates : ℕ → Event → State → Event → State → Type 0 where
    done : {e : Event} {s : State} → Initiates 0 e s e s
    initiate :
        {n : ℕ} {e e' : Event} {s s1 s' : State} (vm : V.Vm) (passer : V.MessagePasser) (nonce : ℕ)
        (w : Withdrawal)
        → new_evm s header ≡ ok vm
        → new_message_passer vm ≡ ok passer
        → message_nonce passer s ≡ ok nonce
        → parse_withdrawal_event_attributes F e ≡ ok w
        → initiate_withdrawal passer w s ≡ ok s1
        → Initiates n (with_attribute (nonce_attribute F V header nonce) e) s1 e' s'
        → Initiates (suc n) e s e' s'

  -- What one message does.
  record OneStored (r' : ExecTxResult) (s s' : State) (pre post : List Event) (e : Event)
      : Type 0 where
    vm : V.Vm
    passer : V.MessagePasser
    nonce : ℕ
    w : Withdrawal
    at_vm : new_evm s header ≡ ok vm
    at_passer : new_message_passer vm ≡ ok passer
    at_nonce : message_nonce passer s ≡ ok nonce
    parsed : parse_withdrawal_event_attributes F e ≡ ok w
    initiated : initiate_withdrawal passer w s ≡ ok s'
    new_events : r'.events ≡ pre ++ with_attribute (nonce_attribute F V header nonce) e ∷ post

  store_one :
      (r r' : ExecTxResult) (s s' : State) (pre post : List Event) (e : Event)
      → r.events ≡ pre ++ e ∷ post
      → Others pre
      → is_withdrawal e ≡ true
      → store_withdrawal_msg_in_evm F V header r s ≡ ok (r', s')
      → OneStored r' s s' pre post e
  unfolding store_withdrawal_msg_in_evm initiate_found
  store_one r r' s s' pre post e split others is h =
      let (vm, at_vm, h) = ok_of_bind (failing "new EVM" (new_evm s header)) _ (r', s') h in
      let (passer, at_passer, h) =
        ok_of_bind (failing "new L2ToL1MessagePasserExecuter" (new_message_passer vm)) _ (r', s')
          h in
      let (nonce, at_nonce, h) =
        ok_of_bind (failing "get message nonce" (message_nonce passer s)) _ (r', s') h in
      let found = ap find_event split ∙ find_event-first pre post e others is in
      let h = sym (ap (λ o. initiate_found F V header o passer nonce r s) found) ∙ h in
      let (w, parsed, h) =
        ok_of_bind (failing "parse withdrawal attributes" (parse_withdrawal_event_attributes F e)) _
          (r', s') h in
      let (s1, initiated, h) =
        ok_of_bind (failing "initiate withdrawal" (initiate_withdrawal passer w s)) _ (r', s') h in
      let same = ok_injective _ (r', s') h in
      record {
        vm = vm;
        passer = passer;
        nonce = nonce;
        w = w;
        at_vm = ok_of_failing "new EVM" _ vm at_vm;
        at_passer = ok_of_failing "new L2ToL1MessagePasserExecuter" _ passer at_passer;
        at_nonce = ok_of_failing "get message nonce" _ nonce at_nonce;
        parsed = ok_of_failing "parse withdrawal attributes" _ w parsed;
        initiated = ok_of_failing "initiate withdrawal" _ s1 initiated ∙ ap ok (ap (λ x. x.1) same);
        new_events =
            sym (ap (λ x. x.0.events) same)
            ∙ (ap (append_attribute (nonce_attribute F V header nonce)) split
                ∙ append_attribute-first (nonce_attribute F V header nonce) pre post e others is);
      }

  -- When the messages of a transaction are stored, every withdrawal among them takes the first withdrawal
  -- event of its result: each initiates what that event says, and leaves its nonce in it, and the events
  -- before and behind it, further withdrawal events too, stay as they were.
  pub store_withdrawals-first :
      (urls : List String) (r r' : ExecTxResult) (s s' : State) (pre post : List Event) (e : Event)
      → r.events ≡ pre ++ e ∷ post
      → Others pre
      → is_withdrawal e ≡ true
      → store_withdrawals F V header urls r s ≡ ok (r', s')
      → (e' : Event) × (r'.events ≡ pre ++ e' ∷ post) × Initiates (withdrawals urls) e s e' s'
  unfolding store_withdrawals
  store_withdrawals-first [] r r' s s' pre post e split others is h =
      let same = ok_injective (r, s) (r', s') h in
      (e, sym (ap (λ x. x.0.events) same) ∙ split, rw (sym (ap (λ x. x.1) same)) done)
  store_withdrawals-first (url ∷ urls) r r' s s' pre post e split others is h =
      elim (ok_of_if (is_withdrawal_type url) _ _ (r', s') h) [
        | inl (matches, h) ↦
            let ((r1, s1), one, h) =
              ok_of_bind
                (failing "store withdrawal msg in EVM" (store_withdrawal_msg_in_evm F V header r s))
                _ (r', s') h in
            let o =
              store_one r r1 s s1 pre post e split others is
                (ok_of_failing "store withdrawal msg in EVM" _ (r1, s1) one) in
            let (e', tail, more) =
              store_withdrawals-first urls r1 r' s1 s' pre post
                (with_attribute (nonce_attribute F V header o.nonce) e) o.new_events others is h in
            (
              e',
              tail,
              rw matches (
                  initiate o.vm o.passer o.nonce o.w o.at_vm o.at_passer o.at_nonce o.parsed
                    o.initiated more),
            )
        | inr (other, h) ↦
            let (e', tail, more) =
              store_withdrawals-first urls r r' s s' pre post e split others is h in
            (e', tail, rw other more)
      ]
