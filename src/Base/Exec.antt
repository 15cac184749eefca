-- ===== src/Base/Exec.antt =====
-- Code that reads and writes a state and may stop by an error, which keeps the state it was met in,
-- as a method on `&mut self` that returns a `Result` does.
use nes_to_sms.Base.Results.{Result, ok, err}

abbrev pub Exec : Type 0 → Type 0 → Type 0 → Type 0
Exec E S A = S → Result E A × S

module _ {E S : Type 0} where
  unfoldable pub pure : {A : Type 0} → A → Exec E S A
  pure x s = (ok x, s)

  unfoldable pub fail : {A : Type 0} → E → Exec E S A
  fail e s = (err e, s)

  unfoldable pub after : {A B : Type 0} → Result E A → S → (A → Exec E S B) → Result E B × S
  after (ok x) s k = k x s
  after (err e) s k = (err e, s)

  infixl 5 ◌>>=◌ ◌>>◌
  unfoldable pub ◌>>=◌ : {A B : Type 0} → Exec E S A → (A → Exec E S B) → Exec E S B
  unfolding after
  ◌>>=◌ m k s = after (m s).0 (m s).1 k

  abbrev pub ◌>>◌ : {B : Type 0} → Exec E S (Unit {0}) → Exec E S B → Exec E S B
  m >> k = m >>= λ _. k

  unfoldable pub get : Exec E S S
  get s = (ok s, s)

  unfoldable pub modify : (S → S) → Exec E S (Unit {0})
  modify f s = (ok tt, f s)

-- The operations of the monad, to be unfolded together.
unfoldable pub exec : Unit {0}
unfolding pure fail after ◌>>=◌ get modify
exec = tt
