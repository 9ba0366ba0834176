-- ===== src/Builder/Results.antt =====
-- builder/builder.go: the loop of `Build` over the results of the transactions.
use monomer.Prelude.{ℕ, suc, ◌%◌, ◌^◌, List, [], ◌∷◌, Result, ok, panic, failing, ◌>>=◌}
use monomer.Bytes.{Bytes}
use monomer.Block.{Header}
use monomer.Builder.Withdrawals.{ExecTxResult, Formats, Evm, parse_withdrawal_messages}
use monomer.Builder.World.{TxResult}

module _ (F : Formats) (V : Evm) (header : Header) where
  -- From index `i` on; a result without a transaction is out of range.
  unfoldable pub index_results :
      ℕ → List Bytes → List ExecTxResult → V.State → Result (List TxResult × V.State)
  index_results i txs [] s = ok ([], s)
  index_results i [] (r ∷ rs) s = panic "index out of range"
  index_results i (tx ∷ txs) (r ∷ rs) s = do
    (r', s') ← failing "parse withdrawal messages" (parse_withdrawal_messages F V header tx r s)
    (rest, s'') ← index_results (suc i) txs rs s'
    ok (record { height = header.height; index = i % 2 ^ 32; tx = tx; result = r' } ∷ rest, s'')
