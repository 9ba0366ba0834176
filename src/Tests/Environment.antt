-- ===== src/Tests/Environment.antt =====
-- Environments with functions to run when they are closed, of which one fails or panics.
use mathlib.Core.List.{reverse}
use monomer.Prelude.{
  ℕ, ◌≡◌, refl, Option, none, some, String, List, [], ◌∷◌, failure, wrapped, Result, ok, err, panic,
}
use monomer.Environment.{Env, new_env, defer, defer_err, go, close, close_from}
use monomer.Environment.Close.{run_after, close-run_all}

-- The state is what has run.
abbrev noted : ℕ → List ℕ → Option String × List ℕ
noted n s = (none, n ∷ s)

abbrev fails : List ℕ → Result (Unit {0}) × List ℕ
fails s = (err (failure "stop"), 2 ∷ s)

abbrev panics : List ℕ → Result (Unit {0}) × List ℕ
panics s = (panic "nil pointer dereference", s)

abbrev env : Env (List ℕ)
env =
    go (List ℕ) (noted 3)
      (defer_err (List ℕ) "stop event bus" fails (defer (List ℕ) (noted 1) (new_env (List ℕ))))

abbrev and_then :
    Option String × List ℕ → (List ℕ → Option String × List ℕ) → Option String × List ℕ
and_then (none, s) k = k s
and_then (some m, s) k = (some m, s)

abbrev wait : List (List ℕ → Option String × List ℕ) → List ℕ → Option String × List ℕ
wait [] s = (none, s)
wait (f ∷ fs) s = and_then (f s) (wait fs)

close-run :
    (close (List ℕ) wait env []
      ≡ (ok (wrapped "stop event bus" (failure "stop") ∷ []), 1 ∷ 2 ∷ 3 ∷ []))
    × (close (List ℕ) wait (defer_err (List ℕ) "close" panics env) []
        ≡ (panic "nil pointer dereference", 3 ∷ []))
    × (close (List ℕ) wait (go (List ℕ) (λ s. (some "closed", s)) env) [] ≡ (panic "closed", []))
unfolding close close_from go defer_err defer new_env monomer.Comet.Paginate.item
close-run = (refl, refl, refl)

close-run_all_example :
    close (List ℕ) wait env [] ≡ run_after (List ℕ) (reverse env.defer_fns) (wait env.goroutines [])
close-run_all_example = close-run_all (List ℕ) wait env []
