-- ===== src/Node/Start.antt =====
-- What a node starts from.
use monomer.Prelude.{
  ℕ, ◌+◌, ◌%◌, ◌<◌, ◌≡◌, ◌≢◌, ◌⊎◌, refl, ap, sym, ◌∙◌, ltb, ◌==◌, ==_iff, true, false, Bool-cases,
  inl, inr, Error, failure, is_not_found, [], arith, Result, ok, err, panic, ok_of_failing, failing,
  length, List,
}
use mathlib.Core.Path.{subst⁻¹}
use monomer.LocalDb.Lookup.Stored.{get_value-none}
use monomer.Prelude.Stateful.{Step, continue, continue_ok, ok_of_continue, pure}
use monomer.Bytes.{Bytes}
use monomer.Bytes.BigEndian.{u64_mod}
use monomer.KvStore.{IsReliable, lookup}
use monomer.Block.Hash.{EthHeader}
use monomer.LocalDb.Keys.{Label, height_key}
use monomer.LocalDb.Lookup.{height}
use monomer.Builder.World.{World, BuilderState}
use monomer.Builder.Build.{failing_at, on_app}
use monomer.Genesis.{Genesis, InitChainRequest}
use monomer.Genesis.First.{Founded, commit_genesis-Reads}
use monomer.Node.{stored_height, ensure_heights, commit_if_new, prepare_block_store_and_app}

module _ (W : World) (info_height : W.app.State → Result ℕ)
    (init_chain : InitChainRequest → Step W.app.State (Unit {0})) (empty_root : Bytes)
    (predeploy : W.evm.State → W.evm.State) where
  abbrev prepare : Genesis → Step (BuilderState W) (Unit {0})
  prepare = prepare_block_store_and_app W info_height init_chain empty_root predeploy

  -- What `prepare` does once both heights are known.
  abbrev rest : Genesis → (app_height store_height : ℕ) → Step (BuilderState W) (Unit {0})
  rest g a h s =
      continue (ensure_heights W info_height init_chain empty_root predeploy a h s)
        (λ _. commit_if_new W info_height init_chain empty_root predeploy g h)

  prepare-heights :
      (g : Genesis) (s : BuilderState W) (a h : ℕ)
      → stored_height (height W.block_db W.block_codec s.block_store) ≡ ok h
      → info_height s.app ≡ ok a
      → prepare g s ≡ rest g a h s
  unfolding prepare_block_store_and_app
  prepare-heights g s a h stored told =
      continue_ok _ _ h stored ∙ continue_ok _ _ a (ap (failing "info") told)

  abbrev roll : ℕ → BuilderState W → Result (Unit {0}) × BuilderState W
  roll h = failing_at "rollback app" (on_app W (W.app.rollback_to_height h))

  rest-same :
      (g : Genesis) (h : ℕ) (s : BuilderState W)
      → 0 < h
      → h + 1 < u64_mod
      → rest g h h s ≡ (ok tt, s)
  unfolding ensure_heights commit_if_new continue
  rest-same g h s pos fits =
      let small : (h + 1) % u64_mod ≡ h + 1 = omega (arith, fits) in
      let behind : (h == h + 1) ≡ false = ground arith in
      let level : ltb h h ≡ false = ground arith in
      let old : (h == 0) ≡ false = ground (arith, pos) in rw (small, behind, level, old) refl

  rest-ahead :
      (g : Genesis) (h : ℕ) (s : BuilderState W)
      → 0 < h
      → h + 1 < u64_mod
      → rest g (h + 1) h s ≡ roll h s
  unfolding ensure_heights commit_if_new continue
  rest-ahead g h s pos fits =
      let small : (h + 1) % u64_mod ≡ h + 1 = omega (arith, fits) in
      let ahead : (h + 1 == h + 1) ≡ true = (==_iff (h + 1) (h + 1)).1 refl in
      let old : (h == 0) ≡ false = ground (arith, pos) in rw (small, ahead, old) (stop (roll h s))
    where
      stop : (p : Result (Unit {0}) × BuilderState W) → continue p (λ _. pure tt) ≡ p
      stop (ok x, s) = refl
      stop (err e, s) = refl
      stop (panic m, s) = refl

  rest-apart :
      (g : Genesis) (a h : ℕ) (s : BuilderState W)
      → h + 1 < u64_mod
      → a ≢ h
      → a ≢ h + 1
      → (m : Error) × (rest g a h s ≡ (err m, s))
  unfolding ensure_heights continue
  rest-apart g a h s fits ne ne' =
      let small : (h + 1) % u64_mod ≡ h + 1 = omega (arith, fits) in
      let ahead : (a == h + 1) ≡ false = ground (arith, ne') in
      elim (Bool-cases (ltb h a)) [
        | inl far ↦ (failure "app height is too far ahead", rw (small, ahead, far) refl)
        | inr near ↦
            let behind : ltb a h ≡ true = ground (arith, ne, near) in
            (failure "app height is behind", rw (small, ahead, near, behind) refl)
      ]

  -- The three ways to start with blocks in the store, at height `h`.
  abbrev pub Resumed :
      (app_height h : ℕ) → BuilderState W → Result (Unit {0}) × BuilderState W → Type 0
  Resumed a h s out =
      ((a ≡ h) × (out ≡ (ok tt, s)))
      ⊎ (((a ≡ h + 1)
            × (out.0 ≡ failing "rollback app" (W.app.rollback_to_height h s.app).0)
            × (out.1 ≡ record s { app = (W.app.rollback_to_height h s.app).1 }))
          ⊎ ((a ≢ h) × (a ≢ h + 1) × (m : Error) × (out ≡ (err m, s))))

  -- With blocks in the store, a node goes on where the application is at the height of the store; where it is
  -- one block ahead, since the node stopped between the two, the application is rolled back to that height and
  -- nothing else changes; any other difference is an error, and nothing changes.
  -- The application tells its height, and the height after that of the store fits 64 bits.
  pub prepare-Resumed :
      (g : Genesis) (s : BuilderState W) (a h : ℕ)
      → height W.block_db W.block_codec s.block_store ≡ ok h
      → info_height s.app ≡ ok a
      → 0 < h
      → h + 1 < u64_mod
      → Resumed a h s
          (prepare_block_store_and_app W info_height init_chain empty_root predeploy g s)
  unfolding stored_height
  prepare-Resumed g s a h stored told pos fits =
      let heights = prepare-heights g s a h (ap stored_height stored) told in
      elim (Bool-cases (a == h)) [
        | inl e ↦
            let same = (==_iff a h).0 e in
            inl (same, heights ∙ ap (λ n. rest g n h s) same ∙ rest-same g h s pos fits)
        | inr e ↦ elim (Bool-cases (a == h + 1)) [
          | inl e' ↦
              let ahead = (==_iff a (h + 1)).0 e' in
              let out = heights ∙ ap (λ n. rest g n h s) ahead ∙ rest-ahead g h s pos fits in
              inr (inl (ahead, ap (λ r. r.0) out, ap (λ r. r.1) out))
          | inr e' ↦
              let ne : a ≢ h = λ same. ground (arith, e, same) in
              let ne' : a ≢ h + 1 = λ same. ground (arith, e', same) in
              let (m, out) = rest-apart g a h s fits ne ne' in inr (inr (ne, ne', m, heights ∙ out))
        ]
      ]

  module _ (B : IsReliable W.block_db) where
    pub ensure_heights-blocks :
        (a h : ℕ) (s : BuilderState W)
        → (ensure_heights W info_height init_chain empty_root predeploy a h s).1.block_store
          ≡ s.block_store
    unfolding ensure_heights
    ensure_heights-blocks a h s = elim (Bool-cases (a == (h + 1) % u64_mod)) [
      | inl e ↦ rw e refl
      | inr e ↦ elim (Bool-cases (ltb h a)) [
        | inl far ↦ rw (e, far) refl
        | inr near ↦ elim (Bool-cases (ltb a h)) [
          | inl low ↦ rw (e, near, low) refl
          | inr level ↦ rw (e, near, level) refl
        ]
      ]
    ]

    no_height :
        (d : W.block_db.Db)
        → W.block_db.entries d ≡ []
        → stored_height (height W.block_db W.block_codec d) ≡ ok 0
    unfolding height stored_height lookup is_not_found
    no_height d empty =
        rw (get_value-none W.block_db W.block_codec B d height_key (ap (lookup height_key) empty))
          refl

    -- An application at another height is refused.
    near : (g : Genesis) (a : ℕ) (s : BuilderState W) → (rest g a 0 s).0 ≡ ok tt → (a ≡ 0) ⊎ (a ≡ 1)
    near g a s done = elim (Bool-cases (a == 0)) [
      | inl e ↦ inl ((==_iff a 0).0 e)
      | inr e ↦ elim (Bool-cases (a == 1)) [
        | inl e' ↦ inr ((==_iff a 1).0 e')
        | inr e' ↦
            let (m, out) =
              rest-apart g a 0 s (omega arith) (λ same. ground (arith, e, same))
                (λ same. ground (arith, e', same)) in
            absurd (cc (done, out))
      ]
    ]

    -- With an empty block store, a node that starts has committed its genesis: the first block is read back by
    -- its height, by its hash, as the head and by each label. This holds where the application had
    -- committed its first block already; a node that starts has found it at height 0 or 1.
    -- No call of the database of the block store fails, and go-ethereum's hashes have 32 bytes.
    pub prepare-Founded :
        (sized : (eth : EthHeader) (txs : List W.eth_codec.Tx)
          → length (W.eth_block_hash eth txs) ≡ 32)
        (g : Genesis) (s : BuilderState W) (a : ℕ) (l : Label)
        → W.block_db.entries s.block_store ≡ []
        → info_height s.app ≡ ok a
        → (prepare_block_store_and_app W info_height init_chain empty_root predeploy g s).0 ≡ ok tt
        → ((a ≡ 0) ⊎ (a ≡ 1))
          × Founded W B g l
              (prepare_block_store_and_app W info_height init_chain empty_root predeploy g s).1
    unfolding commit_if_new
    prepare-Founded sized g s a l empty told done =
        let start = prepare-heights g s a 0 (no_height s.block_store empty) told in
        let done' = ap (λ r. r.0) (sym start) ∙ done in
        let (_, _, after, committed) = ok_of_continue _ _ tt done' in
        let blocks = ensure_heights-blocks a 0 s in
        let founded =
          commit_genesis-Reads W init_chain empty_root predeploy B sized g _ l
            (ap W.block_db.entries blocks ∙ empty) (ok_of_failing _ _ tt committed) in
        (near g a s done', subst⁻¹ (λ r. Founded W B g l r.1) (start ∙ after) founded)
