-- ===== src/Client/Handlers/Laws.antt =====
-- MQTTSetMessageHandler on the table as a map: what it adds and what it removes.
use mbed_mqtt.Common.{
  ℕ, zero, suc, true, false, Bytes, List, [], ◌∷◌, Option, none, some, if◌then◌else◌, ◌≡◌, ◌≢◌,
  refl, arith, Option-cases, inl, inr, ◌⊎◌,
}
use mbed_mqtt.Client.Handlers.{
  strcmp_eq, holds_filter, is_empty, find_filter, find_empty, set_handler,
}
use mbed_mqtt.Client.State.{Slot, success, failure}
use mbed_mqtt.Client.Handlers.Lookup.{
  strcmp_eq_refl, strcmp_eq_apart, at_zero, at_suc, at_none, is_present, lookup, Unique,
  lookup-replace, lookup_absent, lookup-fill, absent_anyway, lookup-remove,
}

-- The slot holds a filter, and it is not `f`.
abbrev pub IsOther : Bytes → Option Bytes → Type 0
IsOther f none = ⊥
IsOther f (some g) = g ≢ f

IsOther-holds_filter :
    (f : Bytes) (k : Option Bytes) → holds_filter f k ≡ false → is_empty k ≡ false → IsOther f k
IsOther-holds_filter f none h e = cc
IsOther-holds_filter f (some g) h e = λ same. ground (arith, same, strcmp_eq_refl f)

module _ {H : Type 0} where
  present_found :
      (f : Bytes) (i : ℕ) (slots : List (Slot H))
      → find_filter f slots ≡ some i
      → is_present (lookup f slots) ≡ true
  unfolding lookup find_filter
  present_found f i [] h = cc
  present_found f zero (s ∷ slots) h = rw (at_zero _ _ h) refl
  present_found f (suc i) (s ∷ slots) h =
      let (other, later) = at_suc _ _ i h in rw other (present_found f i slots later)

  -- From the case on one Boolean to the two cases of the statement.
  two_cases :
      (f : Bytes) (slots slots' : List (Slot H)) (here : Option (Option H))
      → ((g : Bytes) → lookup g slots' ≡ (if strcmp_eq f g then here else lookup g slots))
      → (lookup f slots' ≡ here) × ((g : Bytes) → g ≢ f → lookup g slots' ≡ lookup g slots)
  two_cases f slots slots' here e =
      (rw (strcmp_eq_refl f) at (e f), λ g apart. rw (strcmp_eq_apart f g apart) at (e g))

  -- MQTTSetMessageHandler without a handler, on a table that holds no filter in two slots: then the
  -- filter is in no slot, and every other filter keeps its handler; the call returns SUCCESS if the
  -- filter was there, and FAILURE if not.
  pub set_handler_remove :
      (f : Bytes) (slots : List (Slot H))
      → Unique slots
      → (lookup f (set_handler f none slots).1 ≡ none)
        × ((g : Bytes) → g ≢ f → lookup g (set_handler f none slots).1 ≡ lookup g slots)
        × ((set_handler f none slots).0
            ≡ (if is_present (lookup f slots) then success else failure))
  unfolding set_handler
  set_handler_remove f slots u = elim (Option-cases (find_filter f slots)) [
    | inl e ↦ rw e (
        let (gone, others) = two_cases f slots slots none (λ g. absent_anyway f g slots e) in
        (gone, others, rw (lookup_absent f slots e) refl))
    | inr (i, e) ↦ rw e (
        let (gone, others) = two_cases f slots _ none (λ g. lookup-remove f g i slots u e) in
        (gone, others, rw (present_found f i slots e) refl))
  ]

  -- Every slot of the table holds a filter other than `f`.
  abbrev pub FullOfOthers : Bytes → List (Slot H) → Type 0
  FullOfOthers f [] = Unit
  FullOfOthers f (s ∷ slots) = IsOther f s.topic_filter × FullOfOthers f slots

  full_of_others :
      (f : Bytes) (slots : List (Slot H))
      → find_filter f slots ≡ none
      → find_empty slots ≡ none
      → FullOfOthers f slots
  unfolding find_filter find_empty
  full_of_others f [] h e = tt
  full_of_others f (s ∷ slots) h e =
      let (other, later) = at_none _ _ h in
      let (taken, later') = at_none _ _ e in
      (IsOther-holds_filter f s.topic_filter other taken, full_of_others f slots later later')

  -- MQTTSetMessageHandler with a handler returns SUCCESS, and then the filter has that handler and
  -- every other filter keeps its own; or it returns FAILURE and leaves the table, and then every
  -- slot of it holds a filter, and none of them holds this one.
  pub set_handler_add :
      (f : Bytes) (h : H) (slots : List (Slot H))
      → ((set_handler f (some h) slots).0 ≡ success)
          × (lookup f (set_handler f (some h) slots).1 ≡ some (some h))
          × ((g : Bytes) → g ≢ f → lookup g (set_handler f (some h) slots).1 ≡ lookup g slots)
        ⊎ ((set_handler f (some h) slots ≡ (failure, slots)) × FullOfOthers f slots)
  unfolding set_handler
  set_handler_add f h slots = elim (Option-cases (find_filter f slots)) [
    | inr (i, e) ↦ rw e (
        let (here, others) =
          two_cases f slots _ (some (some h)) (λ g. lookup-replace f g i (some h) slots e) in
        inl (refl, here, others))
    | inl e ↦ elim (Option-cases (find_empty slots)) [
      | inl full ↦ rw (e, full) (inr (refl, full_of_others f slots e full))
      | inr (i, free) ↦
          rw (e, free)
            (let (here, others) =
                two_cases f slots _ (some (some h))
                  (λ g. lookup-fill f g i (some h) slots e free) in
              inl (refl, here, others))
    ]
  ]
