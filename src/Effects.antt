-- ===== src/Effects.antt =====
-- What an asynchronous function does to the world: the actions it takes, in order, and its result.
-- What was done before an error stays done.
pub mod Sessions
use socks_hub.Prelude.{◌≡◌, refl, arith, List, [], ◌∷◌, ◌++◌, All, All-append}
use socks_hub.Io.{Error, Result, ok, err}

abbrev pub Run {ℓ κ} : Type ℓ → Type κ → Type (ℓ ⊔ κ)
Run Act A = List Act × Result A

module _ {ℓ κ} {Act : Type ℓ} {A : Type κ} where
  abbrev pub pure : A → Run Act A
  pure a = ([], ok a)

  abbrev pub raise : Error → Run Act A
  raise e = ([], err e)

  -- Take an action, whose outcome the world decides.
  abbrev pub act : Act → Result A → Run Act A
  act a r = (a ∷ [], r)

-- The outcome of starting a task: it is not waited for.
abbrev pub spawned : Result (Unit {0})
spawned = ok tt

module _ {ℓ κ λ'} {Act : Type ℓ} {A : Type κ} {B : Type λ'} where
  abbrev pub continue : Result A → (A → Run Act B) → Run Act B
  continue (ok a) f = f a
  continue (err e) f = ([], err e)

  infixl 5 ◌>>=◌ ◌>>◌
  abbrev pub ◌>>=◌ : Run Act A → (A → Run Act B) → Run Act B
  m >>= f = (m.0 ++ (continue m.1 f).0, (continue m.1 f).1)

  abbrev pub ◌>>◌ : Run Act A → Run Act B → Run Act B
  m >> n = m >>= λ _. n

  -- What holds of each action that follows a success.
  pub All-continue :
      (P : Act → Type 0) (r : Result A) (f : A → Run Act B)
      → ((a : A) → r ≡ ok a → All P (f a).0)
      → All P (continue r f).0
  All-continue P (ok a) f k = k a refl
  All-continue P (err e) f k = tt

  -- The same of a whole chain, whose first part is a run.
  pub All-bind :
      (P : Act → Type 0) (m : Run Act A) (f : A → Run Act B)
      → All P m.0
      → ((a : A) → m.1 ≡ ok a → All P (f a).0)
      → All P (m >>= f).0
  All-bind P m f h k = All-append P m.0 (continue m.1 f).0 h (All-continue P m.1 f k)

  -- A chain that gives a result has a first part that gives one.
  pub bind-eq-ok :
      (m : Run Act A) (f : A → Run Act B) (b : B)
      → (m >>= f).1 ≡ ok b
      → (a : A) × (m.1 ≡ ok a) × ((f a).1 ≡ ok b)
  bind-eq-ok m f b e = go m.1 e
    where
      go : (r : Result A) → (continue r f).1 ≡ ok b → (a : A) × (r ≡ ok a) × ((f a).1 ≡ ok b)
      go (ok a) e = (a, refl, e)
      go (err x) e = ground arith
