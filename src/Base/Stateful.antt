-- ===== src/Base/Stateful.antt =====
-- Go code that changes a shared state and may fail: what it wrote before an error stays written.
use mathlib.Core.Path.{◌≡◌, refl}
use goindustrial.Base.Outcome.{Go, ok, err, panic}

abbrev pub Exec : Type 0 → Type 0 → Type 0
Exec S A = S → S × Go A

module _ {S A B : Type 0} where
  abbrev continue : S → Go A → (A → Exec S B) → S × Go B
  continue s (ok a) f = f a s
  continue s (err e) f = (s, err e)
  continue s panic f = (s, panic)

  infixl 5 ◌>>=◌
  abbrev pub ◌>>=◌ : Exec S A → (A → Exec S B) → Exec S B
  ◌>>=◌ m f s = let (s', r) = m s in continue s' r f

  continue-eq-ok :
      (s : S) (r : Go A) (f : A → Exec S B) {s'' : S} {b : B}
      → continue s r f ≡ (s'', ok b)
      → (a : A) × (r ≡ ok a) × (f a s ≡ (s'', ok b))
  continue-eq-ok s (ok a) f h = (a, refl, h)
  continue-eq-ok s (err e) f h = cc
  continue-eq-ok s panic f h = cc

  -- A chain that succeeds has a first part that succeeds.
  pub >>=-eq-ok :
      (m : Exec S A) (f : A → Exec S B) (s : S) {s'' : S} {b : B}
      → (m >>= f) s ≡ (s'', ok b)
      → (a : A) × ((m s).1 ≡ ok a) × (f a (m s).0 ≡ (s'', ok b))
  >>=-eq-ok m f s h = continue-eq-ok (m s).0 (m s).1 f h

module _ {S : Type 0} {B : Type 0} where
  infixl 5 ◌>>◌
  abbrev pub ◌>>◌ : Exec S (Unit {0}) → Exec S B → Exec S B
  m >> k = m >>= λ _. k

module _ {S A : Type 0} where
  -- A step that leaves the state alone.
  abbrev pub lift : Go A → Exec S A
  lift r s = (s, r)

  -- A method that reads the state.
  abbrev pub query : (S → Go A) → Exec S A
  query f s = (s, f s)
