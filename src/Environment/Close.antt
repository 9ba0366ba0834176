-- ===== src/Environment/Close.antt =====
-- What `Close` runs, and in which order.
use mathlib.Core.List.{reverse, reverse-reverse, reverse-cons, append_assoc, append-nil}
use monomer.Prelude.{
  ◌+◌, ◌-◌, ◌≡◌, refl, ap, sym, ◌∙◌, Option, none, some, List, [], ◌∷◌, ◌++◌, Error, wrapped,
  String, arith, length, length-append, Result, ok, err, panic,
}
use monomer.Comet.Paginate.{item}
use monomer.Environment.{DeferFn, Env, append_err, next_round, after_wait, close_from, close}

module _ {ℓ} {A : Type ℓ} where
  length-reverse : (xs : List A) → length (reverse xs) ≡ length xs
  length-reverse [] = refl
  length-reverse (x ∷ xs) =
      omega (
        arith,
        ap length (reverse-cons x xs),
        length-append (reverse xs) (x ∷ []),
        length-reverse xs,
      )

  item_behind : (xs ys : List A) (x : A) → item (length xs) (xs ++ x ∷ ys) ≡ ok x
  unfolding item
  item_behind [] ys x = refl
  item_behind (z ∷ xs) ys x = item_behind xs ys x

module _ (State : Type 0) where
  -- The functions of a list, one after the other, and the errors that they return, up to a panic.
  abbrev with_error : String → Error → Result (List Error) × State → Result (List Error) × State
  with_error m e (ok es, s) = (ok (wrapped m e ∷ es), s)
  with_error m e (err x, s) = (err x, s)
  with_error m e (panic p, s) = (panic p, s)

  abbrev after_one :
      (State → Result (List Error) × State)
      → String
      → Result (Unit {0}) × State
      → Result (List Error) × State
  after_one rest m (ok u, s) = rest s
  after_one rest m (err e, s) = with_error m e (rest s)
  after_one rest m (panic p, s) = (panic p, s)

  abbrev pub run_all : List (DeferFn State) → State → Result (List Error) × State
  run_all [] s = (ok [], s)
  run_all (f ∷ fs) s = after_one (run_all fs) f.err_msg (f.fn s)

  -- The errors in front of those of a run.
  abbrev behind : List Error → Result (List Error) × State → Result (List Error) × State
  behind errs (ok es, s) = (ok (errs ++ es), s)
  behind errs (err x, s) = (err x, s)
  behind errs (panic p, s) = (panic p, s)

  behind-nil : (p : Result (List Error) × State) → behind [] p ≡ p
  behind-nil (ok es, s) = refl
  behind-nil (err x, s) = refl
  behind-nil (panic m, s) = refl

  behind-with_error :
      (errs : List Error) (m : String) (e : Error) (p : Result (List Error) × State)
      → behind (append_err State errs m e) p ≡ behind errs (with_error m e p)
  behind-with_error errs m e (ok es, s) =
      ap (λ l. (ok l, s)) (append_assoc errs (wrapped m e ∷ []) es)
  behind-with_error errs m e (err x, s) = refl
  behind-with_error errs m e (panic p, s) = refl

  -- One round of the loop.
  next_round-lem :
      (rest : List Error → State → Result (List Error) × State) (rs : List (DeferFn State))
      (errs : List Error) (f : DeferFn State) (s : State)
      → ((es : List Error) (t : State) → rest es t ≡ behind es (run_all rs t))
      → next_round State rest errs f.err_msg (f.fn s) ≡ behind errs (run_all (f ∷ rs) s)
  next_round-lem rest rs errs f s k = go (f.fn s)
    where
      go :
          (r : Result (Unit {0}) × State)
          → next_round State rest errs f.err_msg r
            ≡ behind errs (after_one (run_all rs) f.err_msg r)
      go (ok u, t) = k errs t
      go (err e, t) =
          k (append_err State errs f.err_msg e) t
          ∙ behind-with_error errs f.err_msg e (run_all rs t)
      go (panic p, t) = refl

  close_from-run_all :
      (rs done : List (DeferFn State)) (errs : List Error) (s : State)
      → close_from State (length rs) (length done) (reverse rs ++ done) errs s
        ≡ behind errs (run_all rs s)
  unfolding close_from
  close_from-run_all [] done errs s = ap (λ x. (ok x, s)) (sym (append-nil errs))
  close_from-run_all (f ∷ rs) done errs s =
      let fns = reverse (f ∷ rs) ++ done in
      let shape : fns ≡ reverse rs ++ f ∷ done =
        ap (λ l. l ++ done) (reverse-cons f rs) ∙ append_assoc (reverse rs) (f ∷ []) done in
      let at : length fns - 1 - length done ≡ length (reverse rs) =
        omega (arith, ap length shape, length-append (reverse rs) (f ∷ done)) in
      let found : item (length fns - 1 - length done) fns ≡ ok f =
        ap (λ i. item i fns) at
        ∙ (ap (item (length (reverse rs))) shape ∙ item_behind (reverse rs) done f) in
      let next : length done + 1 ≡ length (f ∷ done) = omega arith in
      rw (found, close_from)
        (next_round-lem (close_from State (length rs) (length done + 1) fns) rs errs f s (λ es t.
          ap (λ i. close_from State (length rs) i fns es t) next
          ∙ ap (λ l. close_from State (length rs) (length (f ∷ done)) l es t) shape
          ∙ close_from-run_all rs (f ∷ done) es t))

  -- What is run after the goroutines have ended.
  abbrev pub run_after : List (DeferFn State) → Option String × State → Result (List Error) × State
  run_after fns (none, t) = run_all fns t
  run_after fns (some m, t) = (panic m, t)

  ended :
      (fns : List (DeferFn State)) (p : Option String × State)
      → after_wait State fns p ≡ run_after (reverse fns) p
  ended fns (some m, t) = refl
  ended fns (none, t) =
      let all : reverse (reverse fns) ++ [] ≡ fns =
        append-nil (reverse (reverse fns)) ∙ reverse-reverse fns in
      ap (λ n. close_from State n 0 fns [] t) (sym (length-reverse fns))
      ∙ ap (λ l. close_from State (length (reverse fns)) 0 l [] t) (sym all)
      ∙ close_from-run_all (reverse fns) [] [] t
      ∙ behind-nil (run_all (reverse fns) t)

  -- Where no goroutine panicked, `Close` runs each function that was deferred, the last one first, whatever
  -- those before it returned, up to one that panics; where none does, its error is made of all of theirs
  -- in this order, and else it panics with the same value. Where a goroutine panicked, it panics with
  -- that value and runs none.
  pub close-run_all :
      (wait : List (State → Option String × State) → State → Option String × State) (e : Env State)
      (s : State)
      → close State wait e s ≡ run_after (reverse e.defer_fns) (wait e.goroutines s)
  unfolding close
  close-run_all wait e s = ended e.defer_fns (wait e.goroutines s)
