-- ===== src/Client/Handlers/Unique.antt =====
-- MQTTSetMessageHandler keeps the table: its length, and at most one slot for a filter.
use mbed_mqtt.Common.{
  ℕ, zero, suc, true, false, Bytes, List, [], ◌∷◌, Option, none, some, length, ◌≡◌, refl, arith,
  Option-cases, inl, inr,
}
use mbed_mqtt.Client.Handlers.{
  strcmp_eq, holds_filter, find_filter, find_empty, set_slot, set_handler,
}
use mbed_mqtt.Client.Handlers.Lookup.{
  strcmp_eq-eq, strcmp_eq_refl, at_zero, at_suc, at_none, AloneIn, Unique, length-set_slot,
}
use mbed_mqtt.Client.State.{Slot, clear_slots}

strcmp_eq-false : (a b : Bytes) → strcmp_eq a b ≡ false → strcmp_eq b a ≡ false
strcmp_eq-false a b h = ground (arith, strcmp_eq-eq b a, strcmp_eq_refl a)

some_inj : (a b : Bytes) → some a ≡ some b → a ≡ b
some_inj a b e = cc

-- A slot that holds another filter.
apart :
    (k : Option Bytes) (f g : Bytes) → holds_filter f k ≡ false → k ≡ some g → strcmp_eq f g ≡ false
apart none f g h e = cc
apart (some k) f g h e = strcmp_eq-false g f (rw (some_inj k g e) at h)

module _ {H : Type 0} where
  absent-set_slot :
      (k : Bytes) (i : ℕ) (s : Slot H) (slots : List (Slot H))
      → find_filter k slots ≡ none
      → holds_filter k s.topic_filter ≡ false
      → find_filter k (set_slot i s slots) ≡ none
  unfolding find_filter set_slot
  absent-set_slot k i s [] h e = refl
  absent-set_slot k zero s (t ∷ slots) h e = let (_, later) = at_none _ _ h in rw (e, later) refl
  absent-set_slot k (suc i) s (t ∷ slots) h e =
      let (other, later) = at_none _ _ h in rw (other, absent-set_slot k i s slots later e) refl

  AloneIn-set_slot :
      (k : Option Bytes) (i : ℕ) (s : Slot H) (slots : List (Slot H))
      → AloneIn k slots
      → ((f : Bytes) → k ≡ some f → holds_filter f s.topic_filter ≡ false)
      → AloneIn k (set_slot i s slots)
  AloneIn-set_slot none i s slots a e = tt
  AloneIn-set_slot (some k) i s slots a e = absent-set_slot k i s slots a (e k refl)

  AloneIn-same :
      (k : Option Bytes) (f : Bytes) (slots : List (Slot H))
      → AloneIn k slots
      → holds_filter f k ≡ true
      → AloneIn (some f) slots
  AloneIn-same none f slots a h = cc
  AloneIn-same (some k) f slots a h = rw (strcmp_eq-eq k f h) at a

  Unique-replace :
      (f : Bytes) (i : ℕ) (fp : Option H) (slots : List (Slot H))
      → Unique slots
      → find_filter f slots ≡ some i
      → Unique (set_slot i (record { topic_filter = some f; fp = fp }) slots)
  unfolding find_filter set_slot
  Unique-replace f i fp [] u h = tt
  Unique-replace f zero fp (s ∷ slots) u h =
      (AloneIn-same s.topic_filter f slots u.0 (at_zero _ _ h), u.1)
  Unique-replace f (suc i) fp (s ∷ slots) u h =
      let (other, later) = at_suc _ _ i h in
      (
        AloneIn-set_slot s.topic_filter i _ slots u.0 (λ g e. apart s.topic_filter f g other e),
        Unique-replace f i fp slots u.1 later,
      )

  Unique-fill :
      (f : Bytes) (i : ℕ) (fp : Option H) (slots : List (Slot H))
      → Unique slots
      → find_filter f slots ≡ none
      → find_empty slots ≡ some i
      → Unique (set_slot i (record { topic_filter = some f; fp = fp }) slots)
  unfolding find_filter find_empty set_slot
  Unique-fill f i fp [] u absent h = tt
  Unique-fill f zero fp (s ∷ slots) u absent h = ((at_none _ _ absent).1, u.1)
  Unique-fill f (suc i) fp (s ∷ slots) u absent h =
      let (other, later) = at_none _ _ absent in
      (
        AloneIn-set_slot s.topic_filter i _ slots u.0 (λ g e. apart s.topic_filter f g other e),
        Unique-fill f i fp slots u.1 later (at_suc _ _ i h).1,
      )

  Unique-remove :
      (i : ℕ) (slots : List (Slot H))
      → Unique slots
      → Unique (set_slot i (record { topic_filter = none; fp = none }) slots)
  unfolding set_slot
  Unique-remove i [] u = tt
  Unique-remove zero (s ∷ slots) u = (tt, u.1)
  Unique-remove (suc i) (s ∷ slots) u =
      (AloneIn-set_slot s.topic_filter i _ slots u.0 (λ g e. refl), Unique-remove i slots u.1)

  -- The table keeps its length, and no filter comes into two slots.
  pub record Keeps (slots slots' : List (Slot H)) : Type 0 where
    pub same_length : length slots' ≡ length slots
    pub unique : Unique slots → Unique slots'

  pub Keeps-same : (slots : List (Slot H)) → Keeps slots slots
  Keeps-same slots = record { same_length = refl; unique = λ u. u }

  kept :
      (i : ℕ) (s : Slot H) (slots : List (Slot H))
      → (Unique slots → Unique (set_slot i s slots))
      → Keeps slots (set_slot i s slots)
  kept i s slots u = record { same_length = length-set_slot i s slots; unique = u }

  -- MQTTSetMessageHandler keeps the length of the table, and a table without a filter twice stays
  -- so, whatever the filter and the handler, NULL or not, and whatever it returns.
  pub set_handler-Keeps :
      (f : Bytes) (h : Option H) (slots : List (Slot H)) → Keeps slots (set_handler f h slots).1
  unfolding set_handler
  set_handler-Keeps f none slots = elim (Option-cases (find_filter f slots)) [
    | inl e ↦ rw e (Keeps-same slots)
    | inr (i, e) ↦ rw e (kept i _ slots (Unique-remove i slots))
  ]
  set_handler-Keeps f (some h) slots = elim (Option-cases (find_filter f slots)) [
    | inr (i, e) ↦ rw e (kept i _ slots (λ u. Unique-replace f i (some h) slots u e))
    | inl e ↦ elim (Option-cases (find_empty slots)) [
      | inl full ↦ rw (e, full) (Keeps-same slots)
      | inr (i, free) ↦ rw (e, free) (kept i _ slots (λ u. Unique-fill f i (some h) slots u e free))
    ]
  ]

  absent-clear_slots :
      (f : Bytes) (slots : List (Slot H)) → find_filter f (clear_slots slots) ≡ none
  unfolding find_filter clear_slots
  absent-clear_slots f [] = refl
  absent-clear_slots f (s ∷ slots) = rw (absent-clear_slots f slots) refl

  pub clear_slots-Keeps : (slots : List (Slot H)) → Keeps slots (clear_slots slots)
  unfolding clear_slots
  clear_slots-Keeps [] = Keeps-same []
  clear_slots-Keeps (s ∷ slots) =
      let k = clear_slots-Keeps slots in
      record { same_length = omega (arith, k.same_length); unique = λ u. (tt, k.unique u.1) }
