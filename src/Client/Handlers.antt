-- ===== src/Client/Handlers.antt =====
-- The table of message handlers of MQTTClient.c: MQTTSetMessageHandler, MQTTCleanSession,
-- MQTTCloseSession, deliverMessage.
pub mod Lookup
pub mod Laws
pub mod Takers
pub mod Deliver
pub mod Unique
use mbed_mqtt.Common.{
  ℕ, zero, suc, Bool, true, false, ◌&&◌, ◌||◌, not, Bytes, List, [], ◌∷◌, Option, none, some, ◌==◌,
  if◌then◌else◌, ℤ,
}
use mbed_mqtt.Client.Platform.{Platform, Message, MessageData}
use mbed_mqtt.Client.Run.{ok}
use mbed_mqtt.Client.State.{Slot, Client, MqttClient, State, Call, clear_slots, failure, success}
use mbed_mqtt.Client.Topics.{is_topic_matched}
use mbed_mqtt.Packet.Connect.{is_set}
use mbed_mqtt.Packet.Strings.{MqttString, packet_equals}

-- `strcmp(a, b) == 0`
unfoldable pub strcmp_eq : Bytes → Bytes → Bool
strcmp_eq [] [] = true
strcmp_eq [] (y ∷ b) = false
strcmp_eq (x ∷ a) [] = false
strcmp_eq (x ∷ a) (y ∷ b) = x == y && strcmp_eq a b

abbrev pub holds_filter : Bytes → Option Bytes → Bool
holds_filter f none = false
holds_filter f (some g) = strcmp_eq g f

abbrev pub is_empty : Option Bytes → Bool
is_empty none = true
is_empty (some f) = false

abbrev pub or_else : Option ℕ → Option ℕ → Option ℕ
or_else (some i) j = some i
or_else none j = j

-- The condition in the loop of deliverMessage.
abbrev pub takes : MqttString → Option Bytes → Bool
takes topic_name none = false
takes topic_name (some f) = packet_equals topic_name f || is_topic_matched f topic_name

-- One place further on.
abbrev pub next_index : Option ℕ → Option ℕ
next_index none = none
next_index (some i) = some (suc i)

module _ {H : Type 0} where
  -- The first loop of MQTTSetMessageHandler: the index at which it breaks.
  unfoldable pub find_filter : Bytes → List (Slot H) → Option ℕ
  find_filter f [] = none
  find_filter f (s ∷ slots) =
      if holds_filter f s.topic_filter then some 0 else next_index (find_filter f slots)

  -- The second loop: the first slot without a filter.
  unfoldable pub find_empty : List (Slot H) → Option ℕ
  find_empty [] = none
  find_empty (s ∷ slots) = if is_empty s.topic_filter then some 0 else next_index (find_empty slots)

  -- `messageHandlers[i] = slot`
  unfoldable pub set_slot : ℕ → Slot H → List (Slot H) → List (Slot H)
  set_slot i slot [] = []
  set_slot zero slot (s ∷ slots) = slot ∷ slots
  set_slot (suc i) slot (s ∷ slots) = s ∷ set_slot i slot slots

  -- At the end of the loops `i` is an index or MAX_MESSAGE_HANDLERS, here `none`.
  abbrev pub put_at : Slot H → List (Slot H) → Option ℕ → ℤ × List (Slot H)
  put_at slot slots (some i) = (success, set_slot i slot slots)
  put_at slot slots none = (failure, slots)

  -- MQTTSetMessageHandler, with its result and the new table.
  unfoldable pub set_handler : Bytes → Option H → List (Slot H) → ℤ × List (Slot H)
  unfolding find_filter find_empty set_slot
  set_handler f (some h) slots =
      put_at (record { topic_filter = some f; fp = some h }) slots
        (or_else (find_filter f slots) (find_empty slots))
  set_handler f none slots =
      put_at (record { topic_filter = none; fp = none }) slots (find_filter f slots)

module _ (p : Platform) where
  unfoldable pub set_message_handler : Bytes → Option p.Handler → Call p ℤ
  unfolding set_handler
  set_message_handler f h s =
      let r = set_handler f h s.client.message_handlers in
      ok r.0 (record s { client = record (s.client) { message_handlers = r.1 } })

  unfoldable pub clean_session : MqttClient p → MqttClient p
  unfolding clear_slots
  clean_session c = record c { message_handlers = clear_slots c.message_handlers }

  unfoldable pub close_session : MqttClient p → MqttClient p
  unfolding clean_session
  close_session c =
      let c' = record c { ping_outstanding = 0; isconnected = 0 } in
      if is_set c.cleansession then clean_session c' else c'

  abbrev pub call_if : Bool → Option p.Handler → MessageData → p.World → Bool × p.World
  call_if true (some h) d w = (true, p.call h d w)
  call_if true none d w = (false, w)
  call_if false fp d w = (false, w)

  -- The loop of deliverMessage: whether a handler was called, and the world afterwards.
  unfoldable pub deliver_loop : MessageData → List (Slot p.Handler) → p.World → Bool × p.World
  deliver_loop d [] w = (false, w)
  deliver_loop d (s ∷ slots) w =
      let r = call_if (takes d.topic_name s.topic_filter) s.fp d w in
      let rest = deliver_loop d slots r.1 in (r.0 || rest.0, rest.1)

  unfoldable pub deliver_message : MqttString → Message → Call p ℤ
  unfolding deliver_loop
  deliver_message topic_name message s =
      let d : MessageData = record { message = message; topic_name = topic_name } in
      let r = deliver_loop d s.client.message_handlers s.world in
      let r' = call_if (not r.0) s.client.default_message_handler d r.1 in
      ok (if r.0 || r'.0 then success else failure) (record s { world = r'.1 })
