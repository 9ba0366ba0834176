-- ===== src/Comet/Abci.antt =====
-- comet/comet.go: `ABCI`, which hands queries to the application.
use monomer.Prelude.{ℤ, Bool, String, Result, failing}
use monomer.Bytes.{Bytes}

-- CometBFT's `RequestQuery`, as far as it is filled.
pub record QueryRequest : Type 0 where
  pub path : String
  pub query_data : Bytes
  pub height : ℤ
  pub prove : Bool

-- `AppABCI`, at one state of the application.
pub record AppAbci : Type 1 where
  pub QueryResponse : Type 0
  pub InfoResponse : Type 0
  pub query : QueryRequest → Result QueryResponse
  pub info : Result InfoResponse

module _ (A : AppAbci) where
  -- `Query`
  unfoldable abci_query : String → Bytes → ℤ → Bool → Result A.QueryResponse
  abci_query path data_bytes height prove =
      failing "query"
        (A.query (record { path = path; query_data = data_bytes; height = height; prove = prove }))

  -- `Info`
  unfoldable abci_info : Result A.InfoResponse
  abci_info = failing "info" A.info
