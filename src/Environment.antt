-- ===== src/Environment.antt =====
-- environment/environment.go: what a node leaves to be done when it stops.
pub mod Close
use monomer.Prelude.{
  ℕ, zero, suc, ◌+◌, ◌-◌, Option, none, some, String, List, [], ◌∷◌, ◌++◌, Error, wrapped, length,
  Result, ok, err, panic,
}
use monomer.Prelude.Stateful.{Step}
use monomer.Comet.Paginate.{item}

-- A function changes the state of the program, and may return an error or panic. A goroutine has no result,
-- but it may panic too.
module _ (State : Type 0) where
  pub record DeferFn : Type 0 where
    pub err_msg : String
    pub fn : Step State (Unit {0})

  abbrev pub Goroutine : Type 0
  Goroutine = State → Option String × State

  -- `Env`
  pub record Env : Type 0 where
    pub defer_fns : List DeferFn
    pub goroutines : List Goroutine

  -- `New`
  unfoldable pub new_env : Env
  new_env = record { defer_fns = []; goroutines = [] }

  -- `Go`
  unfoldable pub go : Goroutine → Env → Env
  go fn e = record e { goroutines = fn ∷ e.goroutines }

  -- `DeferErr` and `Defer`
  unfoldable pub defer_err : String → Step State (Unit {0}) → Env → Env
  defer_err m fn e = record e { defer_fns = e.defer_fns ++ (record { err_msg = m; fn = fn } ∷ []) }

  -- A function without a result that ended returned nil.
  abbrev pub returned_nil : Option String × State → Result (Unit {0}) × State
  returned_nil (none, s) = (ok tt, s)
  returned_nil (some m, s) = (panic m, s)

  unfoldable pub defer : Goroutine → Env → Env
  defer fn = defer_err "" (λ s. returned_nil (fn s))

  -- `multierror.Append` of an error that is not nil, with its message.
  abbrev pub append_err : List Error → String → Error → List Error
  append_err errs m e = errs ++ wrapped m e ∷ []

  -- The loop of `Close`, with `n` rounds left at index `i`. A panic ends it.
  abbrev pub next_round :
      (List Error → State → Result (List Error) × State)
      → List Error
      → String
      → Result (Unit {0}) × State
      → Result (List Error) × State
  next_round rest errs m (ok u, s) = rest errs s
  next_round rest errs m (err e, s) = rest (append_err errs m e) s
  next_round rest errs m (panic p, s) = (panic p, s)

  unfoldable pub close_from :
      ℕ → ℕ → List DeferFn → List Error → State → Result (List Error) × State
  close_from zero i fns errs s = (ok errs, s)
  close_from (suc n) i fns errs s = elim (item (length fns - 1 - i) fns) [
    | ok f ↦ next_round (close_from n (i + 1) fns) errs f.err_msg (f.fn s)
    | err e ↦ (err e, s)
    | panic m ↦ (panic m, s)
  ]

  -- `Close`, where `wait` is how the goroutines run to their ends: it panics again with what one of them
  -- panicked with. An error is nil where none is combined.
  abbrev pub after_wait : List DeferFn → Option String × State → Result (List Error) × State
  after_wait fns (none, s) = close_from (length fns) 0 fns [] s
  after_wait fns (some m, s) = (panic m, s)

  unfoldable pub close :
      (wait : List Goroutine → State → Option String × State)
      → Env
      → State
      → Result (List Error) × State
  close wait e s = after_wait e.defer_fns (wait e.goroutines s)
