-- ===== src/Prelude/Stateful.antt =====
-- Calls that change a state, one after the other: what was changed before an error stays.
use monomer.Prelude.{Error}
use mathlib.Core.Path.{◌≡◌, refl, ap}
use monomer.Prelude.Outcome.{Result, ok, err, panic, ok_injective}

abbrev pub Step {ℓ κ} : Type ℓ → Type κ → Type (ℓ ⊔ κ)
Step S A = S → Result A × S

module _ {ℓ} {S : Type ℓ} where
  -- The rest of a chain, after its first call.
  unfoldable pub continue {κ μ} :
      {A : Type κ} {B : Type μ} → Result A × S → (A → Step S B) → Result B × S
  continue (ok a, s) f = f a s
  continue (err e, s) f = (err e, s)
  continue (panic p, s) f = (panic p, s)

  infixl 5 ◌>>=◌ ◌>>◌
  abbrev pub ◌>>=◌ {κ μ} : {A : Type κ} {B : Type μ} → Step S A → (A → Step S B) → Step S B
  (m >>= f) s = continue (m s) f

  abbrev pub ◌>>◌ {κ μ} : {A : Type κ} {B : Type μ} → Step S A → Step S B → Step S B
  m >> k = m >>= λ _. k

  abbrev pub pure {κ} : {A : Type κ} → A → Step S A
  pure a s = (ok a, s)

  -- A call that reads the state.
  abbrev pub reading {κ} : {A : Type κ} → (S → Result A) → Step S A
  reading f s = (f s, s)

  -- A call on a part of the state.
  abbrev pub on {κ μ} : {A : Type κ} {T : Type μ} → (S → T) → (S → T → S) → Step T A → Step S A
  on get set m s = let (r, t) = m (get s) in (r, set s t)

  -- A chain that succeeds has a first call that does, and a rest that does.
  pub ok_of_continue {κ μ} :
      {A : Type κ} {B : Type μ} (p : Result A × S) (f : A → Step S B) (b : B)
      → (continue p f).0 ≡ ok b
      → (a : A) × (p.0 ≡ ok a) × (continue p f ≡ f a p.1) × ((f a p.1).0 ≡ ok b)
  unfolding continue
  ok_of_continue (ok a, s) f b h = (a, refl, refl, h)
  ok_of_continue (err e, s) f b h = cc
  ok_of_continue (panic m, s) f b h = cc

  -- A step that leaves a part of the state alone, whatever it returns.
  abbrev pub Keeps {κ μ} : {A : Type κ} {T : Type μ} → (S → T) → Step S A → Type (ℓ ⊔ μ)
  Keeps get m = (s : S) → get (m s).1 ≡ get s

  -- A chain keeps what its first call and its rest keep.
  pub keeps_on {κ μ ν} :
      {A : Type κ} {B : Type μ} {T : Type ν} (get : S → T) (t : T) (p : Result A × S)
      (f : A → Step S B)
      → get p.1 ≡ t
      → ((a : A) (s : S) → get s ≡ t → get (f a s).1 ≡ t)
      → get (continue p f).1 ≡ t
  unfolding continue
  keeps_on get t (ok a, s) f e k = k a s e
  keeps_on get t (err x, s) f e k = e
  keeps_on get t (panic x, s) f e k = e

  -- What holds after the first call and, where that succeeds, after the rest, holds after a chain.
  pub holds_on {κ μ ν} :
      {A : Type κ} {B : Type μ} (P : S → Type ν) (p : Result A × S) (f : A → Step S B)
      → P p.1
      → ((a : A) → p.0 ≡ ok a → P (f a p.1).1)
      → P (continue p f).1
  unfolding continue
  holds_on P (ok a, s) f e k = k a refl
  holds_on P (err x, s) f e k = e
  holds_on P (panic x, s) f e k = e

  -- A chain goes on after a call that succeeds.
  pub continue_ok {κ μ} :
      {A : Type κ} {B : Type μ} (p : Result A × S) (f : A → Step S B) (a : A)
      → p.0 ≡ ok a
      → continue p f ≡ f a p.1
  unfolding continue
  continue_ok (ok x, s) f a h = ap (λ y. f y s) (ok_injective x a h)
  continue_ok (err e, s) f a h = cc
  continue_ok (panic m, s) f a h = cc

  -- And stops at one that fails.
  pub continue_err {κ μ} :
      {A : Type κ} {B : Type μ} (p : Result A × S) (f : A → Step S B) (e : Error)
      → p.0 ≡ err e
      → continue p f ≡ (err e, p.1)
  unfolding continue
  continue_err (ok x, s) f e h = cc
  continue_err (err x, s) f e h = cc
  continue_err (panic m, s) f e h = cc
