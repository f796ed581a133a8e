-- ===== src/Client/Invariant/Sessions.antt =====
-- MQTTSubscribe, MQTTConnect and MQTTDisconnect end, and keep the client in shape.
use mbed_mqtt.Common.{ℕ, ◌&&◌, Bytes, [], ◌∷◌, Option, ℤ}
use mbed_mqtt.Client.Commands.{
  topic_string, or_default, is_failure, granted_qos, is_granted, read_connack, await_connack,
  connect_new, connect_with_results, connect, read_suback, await_suback, subscribe_connected,
  subscribe_with_results, subscribe, disconnect,
}
use mbed_mqtt.Client.Cycle.{is_positive, is_type}
use mbed_mqtt.Client.Invariant.{
  Kept-link, Good, Good-pure, Good-or_fault, Good-if, Good-bind, Good-next, Good-update, Good-get,
}
use mbed_mqtt.Client.Invariant.Cycle.{Good-serialize, Good-deserialize, Good-new_timer}
use mbed_mqtt.Client.Invariant.Network.{
  Good-send_packet, Good-get_next_packet_id, Good-countdown_last_received,
}
use mbed_mqtt.Client.Network.{is_success, to_ℕ}
use mbed_mqtt.Client.Platform.{Platform, Expires}
use mbed_mqtt.Client.State.{Abi, success, failure}
use mbed_mqtt.Packet.Connack.{ConnackData, deserialize_connack}
use mbed_mqtt.Packet.Connect.{is_set, ConnectData}
use mbed_mqtt.Packet.Length.{is_one}
use mbed_mqtt.Packet.MsgType
use mbed_mqtt.Packet.Suback.{deserialize_suback}
use mbed_mqtt.Packet.Writer.Sizes.{
  SameSize-serialize_connect, SameSize-serialize_subscribe, SameSize-serialize_disconnect,
}
use mbed_mqtt.Client.Invariant.Loops.{Good-waitfor}
use mbed_mqtt.Client.Invariant.Commands.{Good-set_message_handler, Good-close, Good-send_then}

module _ (p : Platform) (abi : Abi) (rounds : ℕ) (e : Expires p rounds) where
  Good-read_suback :
      (f : Bytes) (h : Option p.Handler) → Good p rounds e (read_suback p abi rounds f h)
  unfolding read_suback
  Good-read_suback f h =
      Good-bind p rounds e _ _
        (Good-deserialize p rounds e
          (deserialize_suback abi.signed_char 1 (record { packetid = abi.packetid; granted = [] })))
        (λ r. Good-bind p rounds e _ _ (Good-or_fault p rounds e (granted_qos r.1.granted)) (λ q.
          Good-if p rounds e (is_one r.0 && is_granted q) _ _
            (Good-bind p rounds e _ _ (Good-set_message_handler p abi rounds e f h)
              (λ rc. Good-pure p rounds e (rc, q)))
            (Good-pure p rounds e (success, q))))

  Good-await_suback :
      (f : Bytes) (h : Option p.Handler) (timer : p.Timer) (old : ℤ)
      → Good p rounds e (await_suback p abi rounds f h timer old)
  Good-await_suback f h timer old =
      Good-bind p rounds e _ _ (Good-waitfor p rounds e abi MsgType.suback timer) (λ rc.
        Good-if p rounds e (is_type rc MsgType.suback) _ _ (Good-read_suback f h)
          (Good-pure p rounds e (failure, old)))

  pub Good-subscribe_connected :
      (f : Bytes) (qos : ℕ) (h : Option p.Handler) (old : ℤ)
      → Good p rounds e (subscribe_connected p abi rounds f qos h old)
  unfolding subscribe_connected
  Good-subscribe_connected f qos h old =
      Good-bind p rounds e _ _ (Good-get p rounds e (λ c. c)) (λ c.
        Good-bind p rounds e _ _ (Good-new_timer p rounds e c.command_timeout_ms) (λ timer.
          Good-bind p rounds e _ _ (Good-get_next_packet_id p rounds e) (λ id.
            Good-bind p rounds e _ _
              (Good-serialize p rounds e _
                (λ buf n. SameSize-serialize_subscribe buf n 0 id ((topic_string f, qos) ∷ [])))
              (λ len.
                Good-send_then p abi rounds e len timer (await_suback p abi rounds f h timer old)
                  (λ rc. (rc, old)) (Good-await_suback f h timer old)))))

  -- MQTTSubscribe ends, whatever comes in: it returns, or it reads or writes outside of a buffer, and no loop
  -- runs on once the timers that bound it have expired. If it returns, the buffers have their sizes,
  -- the handler table has its length and no filter twice if it had none twice, a packet identifier
  -- in 1 .. 65535 is still in that range, and no timer was put off.
  pub subscribe_ends :
      (f : Bytes) (qos : ℕ) (h : Option p.Handler) (data_ : ℤ)
      → Good p rounds e (subscribe p abi rounds f qos h data_)
  unfolding subscribe subscribe_with_results
  subscribe_ends f qos h data_ =
      Good-bind p rounds e _ _
        (Good-bind p rounds e _ _ (Good-get p rounds e (λ c. c)) (λ c.
          Good-bind p rounds e _ _
            (Good-if p rounds e (is_set c.isconnected) _ _ (Good-subscribe_connected f qos h data_)
              (Good-pure p rounds e (failure, data_)))
            (λ r.
              Good-next p rounds e _ _
                (Good-if p rounds e (is_failure r.0) _ _ (Good-close p abi rounds e)
                  (Good-pure p rounds e tt))
                (Good-pure p rounds e r))))
        (λ r. Good-pure p rounds e r.0)

  Good-read_connack : Good p rounds e (read_connack p abi rounds)
  Good-read_connack =
      Good-bind p rounds e _ _
        (Good-deserialize p rounds e
          (deserialize_connack (record { session_present = 0; connack_rc = 0 })))
        (λ r. Good-pure p rounds e _)

  Good-await_connack :
      (timer : p.Timer) (old : ConnackData) → Good p rounds e (await_connack p abi rounds timer old)
  Good-await_connack timer old =
      Good-bind p rounds e _ _ (Good-waitfor p rounds e abi MsgType.connack timer) (λ rc.
        Good-if p rounds e (is_type rc MsgType.connack) _ _ Good-read_connack
          (Good-pure p rounds e (failure, old)))

  Good-connect_new :
      (o : ConnectData) (old : ConnackData) → Good p rounds e (connect_new p abi rounds o old)
  unfolding connect_new
  Good-connect_new o old = Good-bind p rounds e _ _ (Good-get p rounds e (λ c. c)) (λ c.
      Good-bind p rounds e _ _ (Good-new_timer p rounds e c.command_timeout_ms) (λ timer.
        Good-next p rounds e _ _
          (Good-update p rounds e
            (λ c'. record c' {
              keep_alive_interval = o.keep_alive_interval;
              cleansession = o.cleansession;
            })
            (λ c'. Kept-link c' _ _ _ _ _ _))
          (Good-next p rounds e _ _ (Good-countdown_last_received p rounds e) (
            Good-bind p rounds e _ _
              (Good-serialize p rounds e _ (λ buf n. SameSize-serialize_connect buf n o))
              (λ len.
                Good-send_then p abi rounds e len timer (await_connack p abi rounds timer old)
                  (λ rc. (rc, old)) (Good-await_connack timer old))))))

  -- MQTTConnect ends, whatever comes in: it returns, or it reads or writes outside of a buffer, and no loop
  -- runs on once the timers that bound it have expired. If it returns, the buffers have their sizes,
  -- the handler table has its length and no filter twice if it had none twice, a packet identifier
  -- in 1 .. 65535 is still in that range, and no timer was put off.
  pub connect_ends :
      (o : Option ConnectData) (data_ : ConnackData)
      → Good p rounds e (connect p abi rounds o data_)
  unfolding connect connect_with_results
  connect_ends o data_ =
      Good-bind p rounds e _ _
        (Good-bind p rounds e _ _ (Good-get p rounds e (λ c. c)) (λ c.
          Good-bind p rounds e _ _
            (Good-if p rounds e (is_set c.isconnected) _ _ (Good-pure p rounds e (failure, data_))
              (Good-connect_new (or_default o) data_))
            (λ r.
              Good-next p rounds e _ _
                (Good-if p rounds e (is_success r.0) _ _
                  (Good-update p rounds e
                    (λ c'. record c' { isconnected = 1; ping_outstanding = 0 })
                    (λ c'. Kept-link c' _ _ _ _ _ _))
                  (Good-pure p rounds e tt))
                (Good-pure p rounds e r))))
        (λ r. Good-pure p rounds e r.0)

  -- MQTTDisconnect ends, whatever comes in: it returns, or it reads or writes outside of a buffer, and no loop
  -- runs on once the timers that bound it have expired. If it returns, the buffers have their sizes,
  -- the handler table has its length and no filter twice if it had none twice, a packet identifier
  -- in 1 .. 65535 is still in that range, and no timer was put off.
  pub disconnect_ends : Good p rounds e (disconnect p abi rounds)
  unfolding disconnect
  disconnect_ends = Good-bind p rounds e _ _ (Good-get p rounds e (λ c. c)) (λ c.
      Good-bind p rounds e _ _ (Good-new_timer p rounds e c.command_timeout_ms) (λ timer.
        Good-bind p rounds e _ _ (Good-serialize p rounds e _ SameSize-serialize_disconnect) (λ len.
          Good-bind p rounds e _ _
            (Good-if p rounds e (is_positive len) _ _ (Good-send_packet p rounds e (to_ℕ len) timer)
              (Good-pure p rounds e failure))
            (λ rc.
              Good-next p rounds e _ _ (Good-close p abi rounds e) (Good-pure p rounds e rc)))))
