-- ===== src/Client/Handlers/Deliver.antt =====
-- deliverMessage calls the handlers of the slots that take the topic, in the order of the table, or
-- else the default handler.
use mbed_mqtt.Common.{
  Bool, true, false, ◌||◌, not, List, [], ◌∷◌, Option, none, some, if◌then◌else◌, ◌≡◌, refl, ap,
  ◌∙◌,
}
use mbed_mqtt.Client.Handlers.{takes, call_if, deliver_loop, deliver_message}
use mbed_mqtt.Client.Handlers.Takers.{Takers, cons_if, takers, Takers-takers}
use mbed_mqtt.Client.Platform.{Platform, Message, MessageData}
use mbed_mqtt.Client.Run.{ok}
use mbed_mqtt.Client.State.{Slot, State, success, failure}
use mbed_mqtt.Packet.Strings.{MqttString}

module _ {H : Type 0} where
  -- The handlers that are to be called: the default handler only if there is no other.
  abbrev pub or_default : List H → Option H → List H
  or_default (h ∷ hs) d = h ∷ hs
  or_default [] none = []
  or_default [] (some d) = d ∷ []

  abbrev pub is_any : List H → Bool
  is_any [] = false
  is_any (h ∷ hs) = true

module _ (p : Platform) where
  unfoldable pub call_all : List p.Handler → MessageData → p.World → p.World
  call_all [] d w = w
  call_all (h ∷ hs) d w = call_all hs d (p.call h d w)

  call_one :
      (b : Bool) (fp : Option p.Handler) (hs : List p.Handler) (d : MessageData) (w : p.World)
      → call_all hs d (call_if p b fp d w).1 ≡ call_all (cons_if b fp hs) d w
  unfolding call_all
  call_one true none hs d w = refl
  call_one true (some h) hs d w = refl
  call_one false fp hs d w = refl

  any_one :
      (b : Bool) (fp : Option p.Handler) (hs : List p.Handler) (d : MessageData) (w : p.World)
      → ((call_if p b fp d w).0 || is_any hs) ≡ is_any (cons_if b fp hs)
  any_one true none hs d w = refl
  any_one true (some h) hs d w = refl
  any_one false fp hs d w = refl

  deliver_loop_lem :
      (d : MessageData) (slots : List (Slot p.Handler)) (w : p.World)
      → ((deliver_loop p d slots w).0 ≡ is_any (takers d.topic_name slots))
        × ((deliver_loop p d slots w).1 ≡ call_all (takers d.topic_name slots) d w)
  unfolding deliver_loop takers call_all
  deliver_loop_lem d [] w = (refl, refl)
  deliver_loop_lem d (s ∷ slots) w =
      let b = takes d.topic_name s.topic_filter in
      let w' = (call_if p b s.fp d w).1 in
      let (e0, e1) = deliver_loop_lem d slots w' in
      (
        ap (λ (t : Bool). (call_if p b s.fp d w).0 || t) e0
            ∙ any_one b s.fp (takers d.topic_name slots) d w,
        e1 ∙ call_one b s.fp (takers d.topic_name slots) d w,
      )

  fallback :
      (hs : List p.Handler) (default : Option p.Handler) (d : MessageData) (w : p.World)
      → ((is_any hs || (call_if p (not (is_any hs)) default d (call_all hs d w)).0)
          ≡ is_any (or_default hs default))
        × ((call_if p (not (is_any hs)) default d (call_all hs d w)).1
            ≡ call_all (or_default hs default) d w)
  unfolding call_all
  fallback (h ∷ hs) default d w = (refl, refl)
  fallback [] none d w = (refl, refl)
  fallback [] (some x) d w = (refl, refl)

  -- The same, with the list of handlers computed.
  pub deliver_message-takers :
      (name : MqttString) (message : Message) (s : State p)
      → deliver_message p name message s ≡ (
          let d : MessageData = record { message = message; topic_name = name } in
          let hs =
            or_default (takers name s.client.message_handlers) s.client.default_message_handler in
          ok (if is_any hs then success else failure) (record s { world = call_all hs d s.world }))
  unfolding deliver_message
  deliver_message-takers name message s =
      let d : MessageData = record { message = message; topic_name = name } in
      let hs = takers name s.client.message_handlers in
      let (e0, e1) = deliver_loop_lem d s.client.message_handlers s.world in
      let (f0, f1) = fallback hs s.client.default_message_handler d s.world in
      rw (e0, e1) (rw (f0, f1) refl)

  -- deliverMessage calls, in the order of the table, the handlers of all slots whose filter equals
  -- the topic or covers it, and of no other slot, and the default handler if there is none of these;
  -- it returns SUCCESS if it called any, else FAILURE. It does not change the client.
  pub deliver_message_lem :
      (name : MqttString) (message : Message) (s : State p)
      → (hs : List p.Handler) × Takers name s.client.message_handlers hs
        × (deliver_message p name message s ≡ (
            let d : MessageData = record { message = message; topic_name = name } in
            let called = or_default hs s.client.default_message_handler in
            ok
              (if is_any called then success else failure)
              (record s { world = call_all called d s.world })))
  deliver_message_lem name message s = (
    takers name s.client.message_handlers,
    Takers-takers name s.client.message_handlers,
    deliver_message-takers name message s,
  )
