-- ===== src/Client/Run/Ensures.antt =====
-- What a call does, as a relation between the states before and after it: the call does not hang,
-- and if it returns, the relation holds.
use mbed_mqtt.Common.{Bool, true, false, Option, none, some, if◌then◌else◌}
use mbed_mqtt.Client.Run.{
  Run, ok, fault, hung, Cmd, pure, gets, or_fault, modify, then_run, ◌>>=◌, ◌>>◌,
}

-- `Q` is to hold of a result; a fault is allowed, and a hung call is not.
abbrev pub Returns : {S A : Type 0} → (A → S → Type 0) → Run S A → Type 0
Returns Q (ok a s) = Q a s
Returns Q fault = Unit
Returns Q hung = ⊥

pub Returns-then :
    {S A B : Type 0} (Q : A → S → Type 0) (Q' : B → S → Type 0) (r : Run S A) (k : A → Cmd S B)
    → Returns Q r
    → ((a : A) (s : S) → Q a s → Returns Q' (k a s))
    → Returns Q' (then_run r k)
Returns-then Q Q' (ok a s) k h kh = kh a s h
Returns-then Q Q' fault k h kh = tt
Returns-then Q Q' hung k h kh = h

pub Returns-weaken :
    {S A : Type 0} (Q Q' : A → S → Type 0) (r : Run S A)
    → Returns Q r
    → ((a : A) (s : S) → Q a s → Q' a s)
    → Returns Q' r
Returns-weaken Q Q' (ok a s) h w = w a s h
Returns-weaken Q Q' fault h w = tt
Returns-weaken Q Q' hung h w = h

-- A relation between states that holds across any number of steps.
pub record Steps {S : Type 0} (R : S → S → Type 0) : Type 0 where
  pub stay : (s : S) → R s s
  pub both : (s t u : S) → R s t → R t u → R s u

pub record Ensures {S A : Type 0} (R : S → S → Type 0) (m : Cmd S A) : Type 0 where
  pub at : (s : S) → Returns (λ a s'. R s s') (m s)

module _ {S : Type 0} (R : S → S → Type 0) (st : Steps R) where
  pub Ensures-pure : {A : Type 0} (a : A) → Ensures R (pure a)
  Ensures-pure a = record { at = st.stay }

  pub Ensures-gets : {A : Type 0} (f : S → A) → Ensures R (gets f)
  Ensures-gets f = record { at = st.stay }

  at_or_fault : {A : Type 0} (o : Option A) (s : S) → Returns (λ a s'. R s s') (or_fault o s)
  at_or_fault none s = tt
  at_or_fault (some a) s = st.stay s

  pub Ensures-or_fault : {A : Type 0} (o : Option A) → Ensures R (or_fault o)
  Ensures-or_fault o = record { at = at_or_fault o }

  pub Ensures-modify : (f : S → S) → ((s : S) → R s (f s)) → Ensures R (modify f)
  Ensures-modify f h = record { at = h }

  pub Ensures-if :
      {A : Type 0} (b : Bool) (m n : Cmd S A)
      → Ensures R m
      → Ensures R n
      → Ensures R (if b then m else n)
  Ensures-if true m n hm hn = hm
  Ensures-if false m n hm hn = hn

  pub Ensures-bind :
      {A B : Type 0} (m : Cmd S A) (k : A → Cmd S B)
      → Ensures R m
      → ((a : A) → Ensures R (k a))
      → Ensures R (m >>= k)
  Ensures-bind m k hm hk = record {
    at = λ s.
        Returns-then (λ a s'. R s s') (λ b s'. R s s') (m s) k (hm.at s)
          (λ a s' h.
            Returns-weaken (λ b u. R s' u) (λ b u. R s u) (k a s') ((hk a).at s')
              (λ b u h'. st.both s s' u h h'));
  }

  pub Ensures-next :
      {A B : Type 0} (m : Cmd S A) (k : Cmd S B) → Ensures R m → Ensures R k → Ensures R (m >> k)
  Ensures-next m k hm hk = Ensures-bind m (λ _. k) hm (λ _. hk)

  pub Returns-after :
      {A : Type 0} (s s' : S) (r : Run S A)
      → R s s'
      → Returns (λ a u. R s' u) r
      → Returns (λ a u. R s u) r
  Returns-after s s' r h g =
      Returns-weaken (λ a u. R s' u) (λ a u. R s u) r g (λ a u k. st.both s s' u h k)

  -- A call, and what is done next from where it ends.
  pub Returns-bind :
      {A B : Type 0} (m : Cmd S A) (k : A → Cmd S B) (s : S)
      → Ensures R m
      → ((a : A) (s' : S) → R s s' → Returns (λ b u. R s' u) (k a s'))
      → Returns (λ b u. R s u) ((m >>= k) s)
  Returns-bind m k s hm hk =
      Returns-then (λ a s'. R s s') (λ b s'. R s s') (m s) k (hm.at s)
        (λ a s' h. Returns-after s s' (k a s') h (hk a s' h))
