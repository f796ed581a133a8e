-- ===== src/Client/Handlers/Takers.antt =====
-- Which slots of the table take a topic: what the condition in the loop of deliverMessage means.
use mbed_mqtt.Common.{
  ℕ, zero, suc, Bool, true, false, Bytes, List, [], ◌∷◌, Option, none, some, length, take, ◌≡◌, ◌⊎◌,
  refl, ap, ◌∙◌, arith, Bool-cases, Option-cases, inl, inr,
}
use mbed_mqtt.Client.Handlers.{takes}
use mbed_mqtt.Client.State.{Slot}
use mbed_mqtt.Client.Topics.Laws.{topic_loop_sound, topic_loop_complete}
use mbed_mqtt.Client.Topics.Relations.{Covers}
use mbed_mqtt.Client.Topics.{name_text, is_topic_matched}
use mbed_mqtt.Packet.Strings.{MqttString, strncmp_eq, packet_equals, or_null}

-- The name has the length and the bytes of the filter: the C string if there is one, or else `len`
-- bytes of the memory behind `data`.
abbrev pub Equals : MqttString → Bytes → Type 0
Equals name f = elim name.cstring [
  | some string ↦ string ≡ f
  | none ↦ (name.len ≡ length f) × (name_text name ≡ f)
]

-- The filter in a slot equals the topic name, or covers it.
abbrev pub TakesTopic : MqttString → Option Bytes → Type 0
TakesTopic name none = ⊥
TakesTopic name (some f) = Equals name f ⊎ Covers f (name_text name)

-- The handlers of the slots that take the name, in the order of the table; a slot that takes it and
-- has no handler gives none.
pub data Takers {H : Type 0} (name : MqttString) : List (Slot H) → List H → Type 0 where
  end : Takers name [] []
  pass :
      {slots : List (Slot H)} {hs : List H} (s : Slot H)
      → ¬ TakesTopic name s.topic_filter
      → Takers name slots hs
      → Takers name (s ∷ slots) hs
  idle :
      {slots : List (Slot H)} {hs : List H} (s : Slot H)
      → TakesTopic name s.topic_filter
      → s.fp ≡ none
      → Takers name slots hs
      → Takers name (s ∷ slots) hs
  call :
      {slots : List (Slot H)} {hs : List H} (s : Slot H) (h : H)
      → TakesTopic name s.topic_filter
      → s.fp ≡ some h
      → Takers name slots hs
      → Takers name (s ∷ slots) (h ∷ hs)

strncmp_eq-take : (n : ℕ) (a f : Bytes) → n ≡ length f → strncmp_eq n a f ≡ true → take n a ≡ f
unfolding strncmp_eq
strncmp_eq-take zero a [] e h = refl
strncmp_eq-take zero a (y ∷ f) e h = absurd (omega (arith, e))
strncmp_eq-take (suc n) a [] e h = absurd (omega (arith, e))
strncmp_eq-take (suc n) [] (y ∷ f) e h = cc
strncmp_eq-take (suc n) (x ∷ a) (y ∷ f) e h = ground (arith, strncmp_eq-take n a f)

take-strncmp_eq : (n : ℕ) (a f : Bytes) → n ≡ length f → take n a ≡ f → strncmp_eq n a f ≡ true
unfolding strncmp_eq
take-strncmp_eq zero a [] e h = refl
take-strncmp_eq zero a (y ∷ f) e h = absurd (omega (arith, e))
take-strncmp_eq (suc n) a [] e h = absurd (omega (arith, e))
take-strncmp_eq (suc n) [] (y ∷ f) e h = cc
take-strncmp_eq (suc n) (x ∷ a) (y ∷ f) e h = ground (arith, take-strncmp_eq n a f)

take_all : (a : Bytes) → take (length a) a ≡ a
take_all [] = refl
take_all (x ∷ a) = ap (λ (t : Bytes). x ∷ t) (take_all a)

Equals-packet_equals : (name : MqttString) (f : Bytes) → packet_equals name f ≡ true → Equals name f
unfolding packet_equals name_text
Equals-packet_equals name f h = elim (Option-cases name.cstring) [
  | inl e ↦
      let h' = rw e at h in
      let size : name.len ≡ length f = ground arith in
      rw e (size, strncmp_eq-take name.len (or_null name.data_) f size (ground arith))
  | inr (string, e) ↦
      let h' = rw e at h in
      let size : length string ≡ length f = ground arith in
      rw e (rw (take_all string) at (strncmp_eq-take (length string) string f size (ground arith)))
]

packet_equals-Equals : (name : MqttString) (f : Bytes) → Equals name f → packet_equals name f ≡ true
unfolding packet_equals name_text
packet_equals-Equals name f h = elim (Option-cases name.cstring) [
  | inl e ↦
      let (size, text) = rw e at h in
      rw e (ground (arith, size, take-strncmp_eq name.len (or_null name.data_) f size text))
  | inr (string, e) ↦
      let same : string ≡ f = rw e at h in
      let size = ap length same in
      rw e (
        ground
          (arith, size, take-strncmp_eq (length string) string f size (take_all string ∙ same)))
]

takes_sound : (name : MqttString) (k : Option Bytes) → takes name k ≡ true → TakesTopic name k
unfolding is_topic_matched
takes_sound name none h = cc
takes_sound name (some f) h = elim (Bool-cases (packet_equals name f)) [
  | inl e ↦ inl (Equals-packet_equals name f e)
  | inr e ↦ inr (topic_loop_sound f (name_text name) (rw e at h))
]

takes_complete : (name : MqttString) (k : Option Bytes) → TakesTopic name k → takes name k ≡ true
unfolding is_topic_matched
takes_complete name none h = absurd h
takes_complete name (some f) (inl e) = rw (packet_equals-Equals name f e) refl
takes_complete name (some f) (inr c) = ground (arith, topic_loop_complete c)

module _ {H : Type 0} where
  -- The handler in front, if there is one.
  abbrev pub cons_if : Bool → Option H → List H → List H
  cons_if true (some h) hs = h ∷ hs
  cons_if true none hs = hs
  cons_if false fp hs = hs

  -- The same handlers, computed with the condition of the code.
  unfoldable pub takers : MqttString → List (Slot H) → List H
  takers name [] = []
  takers name (s ∷ slots) = cons_if (takes name s.topic_filter) s.fp (takers name slots)

  Takers-taken :
      (name : MqttString) (s : Slot H) (slots : List (Slot H)) (hs : List H) (fp : Option H)
      → TakesTopic name s.topic_filter
      → s.fp ≡ fp
      → Takers name slots hs
      → Takers name (s ∷ slots) (cons_if true fp hs)
  Takers-taken name s slots hs none taken e t = Takers.idle s taken e t
  Takers-taken name s slots hs (some h) taken e t = Takers.call s h taken e t

  Takers-cons_if :
      (name : MqttString) (s : Slot H) (slots : List (Slot H)) (hs : List H)
      → Takers name slots hs
      → Takers name (s ∷ slots) (cons_if (takes name s.topic_filter) s.fp hs)
  Takers-cons_if name s slots hs t = elim (Bool-cases (takes name s.topic_filter)) [
    | inr refused ↦ rw refused (
        Takers.pass s (λ taken. ground (arith, refused, takes_complete name s.topic_filter taken))
          t)
    | inl e ↦
        let taken = takes_sound name s.topic_filter e in
        rw e (Takers-taken name s slots hs s.fp taken refl t)
  ]

  pub Takers-takers :
      (name : MqttString) (slots : List (Slot H)) → Takers name slots (takers name slots)
  unfolding takers
  Takers-takers name [] = Takers.end
  Takers-takers name (s ∷ slots) =
      Takers-cons_if name s slots (takers name slots) (Takers-takers name slots)
