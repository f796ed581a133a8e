-- ===== src/Client/Handlers/Lookup.antt =====
-- The table of handlers as a map from filters to handlers, and how the stores into it change it.
use mbed_mqtt.Common.{
  ℕ, zero, suc, Bool, true, false, Bytes, List, [], ◌∷◌, Option, none, some, length, if◌then◌else◌,
  ◌≡◌, ◌≢◌, refl, ap, ◌∙◌, arith, Bool-cases, inl, inr,
}
use mbed_mqtt.Client.Handlers.{
  strcmp_eq, holds_filter, is_empty, next_index, find_filter, find_empty, set_slot,
}
use mbed_mqtt.Client.State.{Slot}

pub strcmp_eq_refl : (a : Bytes) → strcmp_eq a a ≡ true
unfolding strcmp_eq
strcmp_eq_refl [] = refl
strcmp_eq_refl (x ∷ a) = ground (arith, strcmp_eq_refl a)

pub strcmp_eq-eq : (a b : Bytes) → strcmp_eq a b ≡ true → a ≡ b
unfolding strcmp_eq
strcmp_eq-eq [] [] h = refl
strcmp_eq-eq [] (y ∷ b) h = cc
strcmp_eq-eq (x ∷ a) [] h = cc
strcmp_eq-eq (x ∷ a) (y ∷ b) h = ground (arith, strcmp_eq-eq a b)

pub strcmp_eq_apart : (f g : Bytes) → g ≢ f → strcmp_eq f g ≡ false
strcmp_eq_apart f g apart = elim (Bool-cases (strcmp_eq f g)) [
  | inl e ↦ absurd (apart (rw (strcmp_eq-eq f g e)))
  | inr e ↦ e
]

-- What a search found, one place at a time.
pub at_zero :
    (b : Bool) (o : Option ℕ) → (if b then some 0 else next_index o) ≡ some zero → b ≡ true
at_zero true o h = refl
at_zero false none h = cc
at_zero false (some i) h = absurd (ground arith)

pub at_suc :
    (b : Bool) (o : Option ℕ) (i : ℕ)
    → (if b then some 0 else next_index o) ≡ some (suc i)
    → (b ≡ false) × (o ≡ some i)
at_suc true o i h = absurd (ground arith)
at_suc false none i h = cc
at_suc false (some j) i h = (refl, ground arith)

pub at_none :
    (b : Bool) (o : Option ℕ)
    → (if b then some 0 else next_index o) ≡ none
    → (b ≡ false) × (o ≡ none)
at_none true o h = cc
at_none false none h = (refl, refl)
at_none false (some j) h = cc

abbrev pub is_present {ℓ} : {A : Type ℓ} → Option A → Bool
is_present none = false
is_present (some a) = true

module _ {H : Type 0} where
  -- The map: the handler beside a filter.
  unfoldable pub lookup : Bytes → List (Slot H) → Option (Option H)
  lookup f [] = none
  lookup f (s ∷ slots) = if holds_filter f s.topic_filter then some s.fp else lookup f slots

  -- No two slots hold the same filter.
  abbrev pub AloneIn : Option Bytes → List (Slot H) → Type 0
  AloneIn none slots = Unit
  AloneIn (some f) slots = find_filter f slots ≡ none

  abbrev pub Unique : List (Slot H) → Type 0
  Unique [] = Unit
  Unique (s ∷ slots) = AloneIn s.topic_filter slots × Unique slots

  pub length-set_slot :
      (i : ℕ) (s : Slot H) (slots : List (Slot H)) → length (set_slot i s slots) ≡ length slots
  unfolding set_slot
  length-set_slot i s [] = refl
  length-set_slot zero s (t ∷ slots) = refl
  length-set_slot (suc i) s (t ∷ slots) = omega (arith, length-set_slot i s slots)

  -- How one slot takes part in a lookup, by its filter.
  step_replace :
      (k : Option Bytes) (fp : Option H) (f g : Bytes) (here old new : Option (Option H))
      → holds_filter f k ≡ false
      → new ≡ (if strcmp_eq f g then here else old)
      → (if holds_filter g k then some fp else new)
        ≡ (if strcmp_eq f g then here else if holds_filter g k then some fp else old)
  step_replace none fp f g here old new h e = e
  step_replace (some k) fp f g here old new h e =
      ground (arith, strcmp_eq-eq k g, strcmp_eq-eq f g, strcmp_eq_refl f)

  step_found :
      (k : Option Bytes) (fp : Option H) (f g : Bytes) (here old : Option (Option H))
      → holds_filter f k ≡ true
      → (if strcmp_eq f g then here else old)
        ≡ (if strcmp_eq f g then here else if holds_filter g k then some fp else old)
  step_found none fp f g here old h = cc
  step_found (some k) fp f g here old h = ground (arith, strcmp_eq-eq k f)

  pub lookup-replace :
      (f g : Bytes) (i : ℕ) (fp : Option H) (slots : List (Slot H))
      → find_filter f slots ≡ some i
      → lookup g (set_slot i (record { topic_filter = some f; fp = fp }) slots)
        ≡ (if strcmp_eq f g then some fp else lookup g slots)
  unfolding lookup set_slot find_filter
  lookup-replace f g i fp [] h = cc
  lookup-replace f g zero fp (s ∷ slots) h =
      step_found s.topic_filter s.fp f g (some fp) (lookup g slots) (at_zero _ _ h)
  lookup-replace f g (suc i) fp (s ∷ slots) h =
      let (other, later) = at_suc _ _ i h in
      step_replace s.topic_filter s.fp f g (some fp) (lookup g slots) _ other
        (lookup-replace f g i fp slots later)

  pub lookup_absent :
      (f : Bytes) (slots : List (Slot H)) → find_filter f slots ≡ none → lookup f slots ≡ none
  unfolding lookup find_filter
  lookup_absent f [] h = refl
  lookup_absent f (s ∷ slots) h =
      let (other, later) = at_none _ _ h in rw other (lookup_absent f slots later)

  -- A slot without a filter takes no part in a lookup.
  step_empty :
      (k : Option Bytes) (fp : Option H) (g : Bytes) (old : Option (Option H))
      → is_empty k ≡ true
      → old ≡ (if holds_filter g k then some fp else old)
  step_empty none fp g old h = refl
  step_empty (some k) fp g old h = cc

  pub lookup-fill :
      (f g : Bytes) (i : ℕ) (fp : Option H) (slots : List (Slot H))
      → find_filter f slots ≡ none
      → find_empty slots ≡ some i
      → lookup g (set_slot i (record { topic_filter = some f; fp = fp }) slots)
        ≡ (if strcmp_eq f g then some fp else lookup g slots)
  unfolding lookup set_slot find_filter find_empty
  lookup-fill f g i fp [] absent h = cc
  lookup-fill f g zero fp (s ∷ slots) absent h =
      ap (λ (t : Option (Option H)). if strcmp_eq f g then some fp else t)
        (step_empty s.topic_filter s.fp g (lookup g slots) (at_zero _ _ h))
  lookup-fill f g (suc i) fp (s ∷ slots) absent h =
      let (other, later) = at_none _ _ absent in
      step_replace s.topic_filter s.fp f g (some fp) (lookup g slots) _ other
        (lookup-fill f g i fp slots later (at_suc _ _ i h).1)

  pub absent_anyway :
      (f g : Bytes) (slots : List (Slot H))
      → find_filter f slots ≡ none
      → lookup g slots ≡ (if strcmp_eq f g then none else lookup g slots)
  absent_anyway f g slots h = elim (Bool-cases (strcmp_eq f g)) [
    | inl e ↦
        let absent = lookup_absent f slots h in
        let same = strcmp_eq-eq f g e in rw e (rw same at absent)
    | inr e ↦ rw e refl
  ]

  step_gone :
      (k : Option Bytes) (fp : Option H) (f g : Bytes) (old : Option (Option H))
      → holds_filter f k ≡ true
      → (strcmp_eq f g ≡ true → old ≡ none)
      → old ≡ (if strcmp_eq f g then none else if holds_filter g k then some fp else old)
  step_gone none fp f g old h e = cc
  step_gone (some k) fp f g old h e = ground (arith, strcmp_eq-eq k f, e)

  alone :
      (k : Option Bytes) (f g : Bytes) (slots : List (Slot H))
      → AloneIn k slots
      → holds_filter f k ≡ true
      → strcmp_eq f g ≡ true
      → lookup g slots ≡ none
  alone none f g slots a h e = cc
  alone (some k) f g slots a h e =
      lookup_absent g slots (rw (strcmp_eq-eq k f h ∙ strcmp_eq-eq f g e) at a)

  pub lookup-remove :
      (f g : Bytes) (i : ℕ) (slots : List (Slot H))
      → Unique slots
      → find_filter f slots ≡ some i
      → lookup g (set_slot i (record { topic_filter = none; fp = none }) slots)
        ≡ (if strcmp_eq f g then none else lookup g slots)
  unfolding lookup set_slot find_filter
  lookup-remove f g i [] u h = cc
  lookup-remove f g zero (s ∷ slots) u h =
      step_gone s.topic_filter s.fp f g (lookup g slots) (at_zero _ _ h)
        (alone s.topic_filter f g slots u.0 (at_zero _ _ h))
  lookup-remove f g (suc i) (s ∷ slots) u h =
      let (other, later) = at_suc _ _ i h in
      step_replace s.topic_filter s.fp f g none (lookup g slots) _ other
        (lookup-remove f g i slots u.1 later)
