-- ===== src/Operator/Run.antt =====
-- Handlers of the operator: they change the server and return a value, an error or a panic. What
-- was written before an error stays written.
use ksdns.Prelude.Go.{Error, Result, ok, err}

pub data Outcome (A : Type 0) : Type 0 where
  done : A → Outcome A
  failed : Error → Outcome A
  panicked : Outcome A

abbrev pub Run : Type 0 → Type 0 → Type 0
Run S A = S → Outcome A × S

module _ {S : Type 0} where
  abbrev pub pure : {A : Type 0} → A → Run S A
  pure a s = (done a, s)

  abbrev pub fail : {A : Type 0} → Error → Run S A
  fail e s = (failed e, s)

  abbrev pub panic : {A : Type 0} → Run S A
  panic s = (panicked, s)

  abbrev pub lift : {A : Type 0} → Result A → Run S A
  lift (ok a) s = (done a, s)
  lift (err e) s = (failed e, s)

  abbrev pub follow : {A B : Type 0} → Outcome A × S → (A → Run S B) → Outcome B × S
  follow (done a, s) f = f a s
  follow (failed e, s) f = (failed e, s)
  follow (panicked, s) f = (panicked, s)

  infixl 10 ◌>>=◌ ◌>>◌
  abbrev pub ◌>>=◌ : {A B : Type 0} → Run S A → (A → Run S B) → Run S B
  ◌>>=◌ m f s = follow (m s) f

  abbrev pub ◌>>◌ : {A B : Type 0} → Run S A → Run S B → Run S B
  m >> n = m >>= λ _. n

  -- `if err := m; err != nil { log }`, or no test at all: the error is passed over.
  abbrev forget : {A : Type 0} → Outcome A × S → Outcome (Unit {0}) × S
  forget (done a, s) = (done tt, s)
  forget (failed e, s) = (done tt, s)
  forget (panicked, s) = (panicked, s)

  abbrev pub ignore_error : {A : Type 0} → Run S A → Run S (Unit {0})
  ignore_error m s = forget (m s)
