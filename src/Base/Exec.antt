-- ===== src/Base/Exec.antt =====
-- Asynchronous methods that read and change the world around the program, and may raise. What was
-- done before a raise stays done, so the state comes back beside the exception too.
use mathlib.Core.Path.{◌≡◌, refl}
use portfolio_manager.Base.Errors.{Result, ok, err}

abbrev pub Exec {ℓ} : Type ℓ → Type ℓ → Type ℓ
Exec S A = S → Result A × S

module _ {ℓ} {S A : Type ℓ} where
  abbrev pub pure : A → Exec S A
  pure a s = (ok a, s)

  abbrev pub lift : Result A → Exec S A
  lift r s = (r, s)

module _ {ℓ} {S A B : Type ℓ} where
  abbrev pub continue : Result A → (A → Exec S B) → Exec S B
  continue (ok a) f s = f a s
  continue (err e) f s = (err e, s)

  infixl 5 ◌>>=◌ ◌>>◌
  abbrev pub ◌>>=◌ : Exec S A → (A → Exec S B) → Exec S B
  ◌>>=◌ m f s = let (r, s') = m s in continue r f s'

  abbrev pub ◌>>◌ : Exec S A → Exec S B → Exec S B
  m >> n = m >>= λ _. n

  continue-inv :
      (r : Result A) (f : A → Exec S B) {b : B} {s s' : S}
      → continue r f s ≡ (ok b, s')
      → (a : A) × (r ≡ ok a) × (f a s ≡ (ok b, s'))
  continue-inv (ok a) f h = (a, refl, h)
  continue-inv (err e) f h = cc

  -- A pure step at the end leaves the world as it is.
  pub continue-lift :
      (r : Result A) (f : A → Result B) (s : S) → (continue r (λ a. lift (f a)) s).1 ≡ s
  continue-lift (ok a) f s = refl
  continue-lift (err e) f s = refl

  -- A pure step in front of an action that returns has given a value, and the world is as it was.
  pub lift-returns :
      (r : Result A) (f : A → Exec S B) {b : B} {s s' : S}
      → continue r f s ≡ (ok b, s')
      → (a : A) × (r ≡ ok a) × (f a s ≡ (ok b, s'))
  lift-returns r f h = continue-inv r f h

  -- An action that returns has run both of its parts.
  pub >>=-returns :
      (m : Exec S A) (f : A → Exec S B) {b : B} {s s' : S}
      → (m >>= f) s ≡ (ok b, s')
      → (a : A) × (s1 : S) × (m s ≡ (ok a, s1)) × (f a s1 ≡ (ok b, s'))
  >>=-returns m f {s} h =
      let (a, e, k) = continue-inv (m s).0 f h in (a, (m s).1, (λ i. (e i, (m s).1)), k)

-- A run that ends in a value which meets `P`.
pub record Returns {S A : Type 0} (P : A → Type 0) (run : Result A × S) : Type 0 where
  pub value : A
  pub world : S
  pub ends : run ≡ (ok value, world)
  pub good : P value

module _ {S A B : Type 0} {P : A → Type 0} {Q : B → Type 0} where
  pub Returns-bind :
      (m : Exec S A) (f : A → Exec S B) (s : S)
      → Returns P (m s)
      → ((a : A) (s1 : S) → P a → Returns Q (f a s1))
      → Returns Q ((m >>= f) s)
  Returns-bind m f s r k =
      let q = k r.value r.world r.good in
      record { value = q.value; world = q.world; ends = rw r.ends q.ends; good = q.good }
