-- ===== src/Client/Invariant/Cycle.antt =====
-- Incoming packets: cycle, MQTTYield and waitfor end, and keep the client in shape.
use mbed_mqtt.Common.{
  ℕ, ◌≤◌, Bool, true, false, not, ◌&&◌, ◌||◌, Bytes, List, [], ◌∷◌, Option, none, some, length,
  ◌==◌, if◌then◌else◌, ℤ, pos, negsuc, ◌≡◌, refl, arith,
}
use mbed_mqtt.Client.Cycle.{
  is_positive, Ending, leave, go_on, message_of, serialize, deserialize, new_timer, send_serialized,
  ping_due, ping, keepalive, ending_of, acknowledge, on_publish, on_ack, is_ignored, dispatch,
  after_switch, exit_cycle, cycle,
}
use mbed_mqtt.Client.Handlers.{
  close_session, clean_session, deliver_message, deliver_loop, call_if, takes,
}
use mbed_mqtt.Client.Handlers.Unique.{clear_slots-Keeps}
use mbed_mqtt.Client.Invariant.{
  Runs-or_fault, Runs-update, Kept, Kept-same, Kept-both, Kept-link, Kept-bytes, Good, Good-pure,
  Good-or_fault, Good-if, Good-bind, Good-next, Good-on_world, Good-update, Good-get, Good-read,
}
use mbed_mqtt.Client.Invariant.Network.{Good-is_expired, Good-send_packet}
use mbed_mqtt.Client.Invariant.Read.{Good-read_packet}
use mbed_mqtt.Client.Network.{is_success, to_ℕ}
use mbed_mqtt.Client.Platform.{Platform, Expires, Message, MessageData}
use mbed_mqtt.Client.Run.{pure}
use mbed_mqtt.Client.State.{Slot, MqttClient, Abi, success, failure}
use mbed_mqtt.Packet.Ack.{deserialize_ack, serialize_ack, serialize_pingreq}
use mbed_mqtt.Packet.Connect.{is_set}
use mbed_mqtt.Packet.Length.{is_one}
use mbed_mqtt.Packet.MsgType
use mbed_mqtt.Packet.Publish.{Publish, deserialize_publish}
use mbed_mqtt.Packet.Strings.{MqttString}
use mbed_mqtt.Packet.Writer.Conserves.{SameSize}
use mbed_mqtt.Packet.Writer.Sizes.{SameSize-serialize_ack, SameSize-serialize_pingreq}

SameSize-eq :
    (buf : Bytes) (o : Option (ℤ × Bytes)) (r : ℤ × Bytes)
    → SameSize buf o
    → o ≡ some r
    → length r.1 ≡ length buf
SameSize-eq buf none r h e = cc
SameSize-eq buf (some q) r h e = ground arith

module _ (p : Platform) (rounds : ℕ) (e : Expires p rounds) where
  pub Good-serialize :
      (f : Bytes → ℕ → Option (ℤ × Bytes))
      → ((buf : Bytes) (n : ℕ) → SameSize buf (f buf n))
      → Good p rounds e (serialize p f)
  unfolding serialize
  Good-serialize f h =
      Good-read p rounds e (λ c. c) _
        (λ s. Runs-or_fault p rounds e (f s.client.buf s.client.buf_size) _ s (λ r eq.
          Runs-update p rounds e (λ c'. record c' { buf = r.1 }) (pure r.0) s
            (Kept-bytes s.client r.1 s.client.readbuf
              (SameSize-eq s.client.buf _ r (h s.client.buf s.client.buf_size) eq) refl)
            (Good-pure p rounds e r.0)))

  pub Good-deserialize : {A : Type 0} (f : Bytes → Option A) → Good p rounds e (deserialize p f)
  Good-deserialize f =
      Good-bind p rounds e _ _ (Good-get p rounds e (λ c. c.readbuf))
        (λ readbuf. Good-or_fault p rounds e (f readbuf))

  pub Good-new_timer : (ms : ℕ) → Good p rounds e (new_timer p ms)
  Good-new_timer ms =
      Good-on_world p rounds e (p.countdown_ms p.timer_init ms)
        (λ t w. e.on_countdown_ms t p.timer_init ms w)

  Good-send_serialized :
      (len : ℤ) (timer : p.Timer) (otherwise : ℤ)
      → Good p rounds e (send_serialized p rounds len timer otherwise)
  Good-send_serialized len timer otherwise =
      Good-if p rounds e (is_positive len) _ _ (Good-send_packet p rounds e (to_ℕ len) timer)
        (Good-pure p rounds e otherwise)

  Good-ping_due : Good p rounds e (ping_due p)
  unfolding ping_due
  Good-ping_due = Good-bind p rounds e _ _ (Good-get p rounds e (λ c. c)) (λ c.
      Good-bind p rounds e _ _ (Good-is_expired p rounds e c.last_sent) (λ sent.
        Good-if p rounds e sent _ _ (Good-pure p rounds e true)
          (Good-is_expired p rounds e c.last_received)))

  Good-ping : Good p rounds e (ping p rounds)
  unfolding ping
  Good-ping = Good-bind p rounds e _ _ (Good-new_timer 1000) (λ timer.
      Good-bind p rounds e _ _ (Good-serialize serialize_pingreq SameSize-serialize_pingreq) (λ len.
        Good-bind p rounds e _ _ (Good-send_serialized len timer success) (λ rc.
          Good-next p rounds e _ _
            (Good-if p rounds e (is_positive len && is_success rc) _ _
              (Good-update p rounds e (λ c. record c { ping_outstanding = 1 })
                (λ c. Kept-link c _ _ _ _ _ _))
              (Good-pure p rounds e tt))
            (Good-pure p rounds e rc))))

  pub Good-keepalive : Good p rounds e (keepalive p rounds)
  unfolding keepalive
  Good-keepalive = Good-bind p rounds e _ _ (Good-get p rounds e (λ c. c)) (λ c.
      Good-if p rounds e (c.keep_alive_interval == 0) _ _ (Good-pure p rounds e success) (
        Good-bind p rounds e _ _ Good-ping_due (λ due.
          Good-if p rounds e due _ _
            (Good-if p rounds e (is_set c.ping_outstanding) _ _ (Good-pure p rounds e failure)
              Good-ping)
            (Good-pure p rounds e success))))

  Good-ack :
      (type id : ℕ) → Good p rounds e (serialize p (λ buf size. serialize_ack buf size type 0 id))
  Good-ack type id = Good-serialize _ (λ buf n. SameSize-serialize_ack buf n type 0 id)

  Good-acknowledge :
      (timer : p.Timer) (m : Publish) → Good p rounds e (acknowledge p rounds timer m)
  unfolding acknowledge
  Good-acknowledge timer m =
      Good-bind p rounds e _ _
        (Good-if p rounds e (m.qos == 1) _ _ (Good-ack MsgType.puback m.packetid) (
          Good-if p rounds e (m.qos == 2) _ _ (Good-ack MsgType.pubrec m.packetid)
            (Good-pure p rounds e (pos 0))))
        (λ len.
          Good-bind p rounds e _ _ (Good-send_serialized len timer failure)
            (λ rc. Good-pure p rounds e (ending_of p rc)))

  later-call_if :
      (t : p.Timer) (b : Bool) (h : Option p.Handler) (d : MessageData) (w : p.World)
      → e.checks t (call_if p b h d w).1 ≤ e.checks t w
  later-call_if t true (some h) d w = e.on_call t h d w
  later-call_if t true none d w = omega arith
  later-call_if t false h d w = omega arith

  later-deliver_loop :
      (t : p.Timer) (d : MessageData) (slots : List (Slot p.Handler)) (w : p.World)
      → e.checks t (deliver_loop p d slots w).1 ≤ e.checks t w
  unfolding deliver_loop
  later-deliver_loop t d [] w = omega arith
  later-deliver_loop t d (s ∷ slots) w =
      let b = takes d.topic_name s.topic_filter in
      omega
        (arith, later-call_if t b s.fp d w, later-deliver_loop t d slots (call_if p b s.fp d w).1)

  Good-deliver_message :
      (name : MqttString) (m : Message) → Good p rounds e (deliver_message p name m)
  unfolding deliver_message
  Good-deliver_message name m = record {
    at = λ s.
        let d : MessageData = record { message = m; topic_name = name } in
        let r = deliver_loop p d s.client.message_handlers s.world in
        record {
          kept = Kept-same s.client;
          later = λ t. omega (
            arith,
            later-deliver_loop t d s.client.message_handlers s.world,
            later-call_if t (not r.0) s.client.default_message_handler d r.1,
          );
        };
  }

  Good-on_publish : (abi : Abi) (timer : p.Timer) → Good p rounds e (on_publish p abi rounds timer)
  unfolding on_publish
  Good-on_publish abi timer =
      Good-bind p rounds e _ _
        (Good-deserialize (deserialize_publish (record (abi.publish) { payloadlen = pos 0 })))
        (λ r.
          Good-if p rounds e (is_one r.0) _ _
            (Good-next p rounds e _ _ (Good-deliver_message r.1.topic_name (message_of r.1)) (
              Good-if p rounds e (r.1.qos == 0) _ _ (Good-pure p rounds e (go_on success))
                (Good-acknowledge timer r.1)))
            (Good-pure p rounds e (leave success)))

  Good-on_ack :
      (abi : Abi) (type : ℕ) (timer : p.Timer) → Good p rounds e (on_ack p abi rounds type timer)
  unfolding on_ack
  Good-on_ack abi type timer =
      Good-bind p rounds e _ _ (Good-deserialize (deserialize_ack abi.ack)) (λ r.
        Good-if p rounds e (is_one r.0) _ _
          (Good-bind p rounds e _ _
            (Good-ack (if type == MsgType.pubrec then MsgType.pubrel else MsgType.pubcomp)
              r.1.packetid)
            (λ len.
              Good-bind p rounds e _ _ (Good-send_serialized len timer failure)
                (λ rc. Good-pure p rounds e (ending_of p rc))))
          (Good-pure p rounds e (leave failure)))

  pub Good-dispatch :
      (abi : Abi) (timer : p.Timer) (type : ℤ) → Good p rounds e (dispatch p abi rounds timer type)
  unfolding dispatch
  Good-dispatch abi timer (negsuc n) = Good-pure p rounds e (leave (negsuc n))
  Good-dispatch abi timer (pos n) =
      Good-if p rounds e (is_ignored p n) _ _ (Good-pure p rounds e (go_on success)) (
        Good-if p rounds e (n == MsgType.publish) _ _ (Good-on_publish abi timer) (
          Good-if p rounds e (n == MsgType.pubrec || n == MsgType.pubrel) _ _
            (Good-on_ack abi n timer)
            (Good-if p rounds e (n == MsgType.pingresp) _ _
              (Good-next p rounds e _ _
                (Good-update p rounds e (λ c. record c { ping_outstanding = 0 })
                  (λ c. Kept-link c _ _ _ _ _ _))
                (Good-pure p rounds e (go_on success)))
              (Good-pure p rounds e (leave (pos n))))))

  pub Good-after_switch : (ending : Ending) → Good p rounds e (after_switch p rounds ending)
  Good-after_switch (leave rc) = Good-pure p rounds e rc
  Good-after_switch (go_on rc) =
      Good-bind p rounds e _ _ Good-keepalive
        (λ k. Good-pure p rounds e (if is_success k then rc else failure))

  Kept-clean_session : (c : MqttClient p) → Kept c (clean_session p c)
  unfolding clean_session
  Kept-clean_session c = record {
    buf_size = refl;
    readbuf_size = refl;
    buf = refl;
    readbuf = refl;
    handlers = clear_slots-Keeps c.message_handlers;
    packetid = λ h. h;
  }

  Kept-if : (c a b : MqttClient p) (t : Bool) → Kept c a → Kept c b → Kept c (if t then a else b)
  Kept-if c a b true h k = h
  Kept-if c a b false h k = k

  pub Kept-close_session : (c : MqttClient p) → Kept c (close_session p c)
  unfolding close_session
  Kept-close_session c =
      let c1 = record c { ping_outstanding = 0; isconnected = 0 } in
      let h : Kept c c1 = Kept-link c _ _ _ _ _ _ in
      Kept-if c (clean_session p c1) c1 (is_set c.cleansession)
        (Kept-both h (Kept-clean_session c1)) h

  Good-exit_cycle : (type rc : ℤ) → Good p rounds e (exit_cycle p type rc)
  Good-exit_cycle type rc = Good-if p rounds e (is_success rc) _ _ (Good-pure p rounds e type) (
      Good-next p rounds e _ _
        (Good-update p rounds e _ (λ c.
          Kept-if c (close_session p c) c (is_set c.isconnected) (Kept-close_session c)
            (Kept-same c)))
        (Good-pure p rounds e rc))

  -- One call of cycle ends, whatever comes in: it returns, or it reads or writes outside of a buffer, and no loop
  -- runs on once the timers that bound it have expired. If it returns, the buffers have their sizes,
  -- the handler table has its length and no filter twice if it had none twice, a packet identifier
  -- in 1 .. 65535 is still in that range, and no timer was put off.
  pub cycle_ends : (abi : Abi) (timer : p.Timer) → Good p rounds e (cycle p abi rounds timer)
  unfolding cycle
  cycle_ends abi timer = Good-bind p rounds e _ _ (Good-read_packet p rounds e timer) (λ type.
      Good-bind p rounds e _ _ (Good-dispatch abi timer type) (λ ending.
        Good-bind p rounds e _ _ (Good-after_switch ending) (λ rc. Good-exit_cycle type rc)))
