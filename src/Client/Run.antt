-- ===== src/Client/Run.antt =====
-- Calls that work on a state: a call returns, or it reads or writes outside the memory (`fault`), or
-- a loop has used up the rounds that the model gives it (`hung`).
pub mod Ensures
use mbed_mqtt.Common.{Option, none, some}

pub data Run (S A : Type 0) : Type 0 where
  ok : A → S → Run S A
  fault : Run S A
  hung : Run S A

abbrev pub Cmd : Type 0 → Type 0 → Type 0
Cmd S A = S → Run S A

module _ {S A : Type 0} where
  abbrev pub pure : A → Cmd S A
  pure a s = ok a s

  abbrev pub gets : (S → A) → Cmd S A
  gets f s = ok (f s) s

  -- `none` is a fault.
  abbrev pub or_fault : Option A → Cmd S A
  or_fault none s = fault
  or_fault (some a) s = ok a s

abbrev pub modify : {S : Type 0} → (S → S) → Cmd S (Unit {0})
modify f s = ok tt (f s)

module _ {S A B : Type 0} where
  abbrev pub then_run : Run S A → (A → Cmd S B) → Run S B
  then_run (ok a s) k = k a s
  then_run fault k = fault
  then_run hung k = hung

  infixl 5 ◌>>=◌ ◌>>◌
  abbrev pub ◌>>=◌ : Cmd S A → (A → Cmd S B) → Cmd S B
  ◌>>=◌ m k s = then_run (m s) k

  abbrev pub ◌>>◌ : Cmd S A → Cmd S B → Cmd S B
  ◌>>◌ m k s = then_run (m s) (λ _. k)
