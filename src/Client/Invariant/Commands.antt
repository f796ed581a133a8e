-- ===== src/Client/Invariant/Commands.antt =====
-- The calls of the application end, and keep the client in shape.
use mbed_mqtt.Common.{ℕ, ◌||◌, Bytes, [], ◌∷◌, Option, none, ◌==◌, if◌then◌else◌, ℤ, refl, arith}
use mbed_mqtt.Client.Commands.{
  topic_string, is_failure, answered, or_close, if_connected, read_ack, read_unsuback,
  unsubscribe_connected, unsubscribe, with_id, await_ack, publish_connected, publish,
}
use mbed_mqtt.Client.Cycle.{is_positive, is_type}
use mbed_mqtt.Client.Handlers.{set_message_handler, close_session}
use mbed_mqtt.Client.Handlers.Unique.{set_handler-Keeps}
use mbed_mqtt.Client.Invariant.{
  Good, Good-pure, Good-if, Good-bind, Good-next, Good-update, Good-get,
}
use mbed_mqtt.Client.Invariant.Cycle.{
  Good-serialize, Good-deserialize, Good-new_timer, Kept-close_session,
}
use mbed_mqtt.Client.Invariant.Network.{Good-send_packet, Good-get_next_packet_id}
use mbed_mqtt.Client.Network.{is_success, to_ℕ, send_packet}
use mbed_mqtt.Client.Platform.{Platform, Expires, Message}
use mbed_mqtt.Client.Run.{pure, ◌>>=◌}
use mbed_mqtt.Client.State.{Call, Abi, update, success, failure}
use mbed_mqtt.Packet.Ack.{deserialize_ack}
use mbed_mqtt.Packet.Connect.{is_set}
use mbed_mqtt.Packet.Length.{is_one}
use mbed_mqtt.Packet.MsgType
use mbed_mqtt.Packet.Unsubscribe.{deserialize_unsuback}
use mbed_mqtt.Packet.Writer.Sizes.{SameSize-serialize_unsubscribe, SameSize-serialize_publish}
use mbed_mqtt.Client.Invariant.Loops.{Good-waitfor}

module _ (p : Platform) (abi : Abi) (rounds : ℕ) (e : Expires p rounds) where
  pub Good-set_message_handler :
      (f : Bytes) (h : Option p.Handler) → Good p rounds e (set_message_handler p f h)
  unfolding set_message_handler
  Good-set_message_handler f h = record {
    at = λ s. record {
      kept = record {
        buf_size = refl;
        readbuf_size = refl;
        buf = refl;
        readbuf = refl;
        handlers = set_handler-Keeps f h s.client.message_handlers;
        packetid = λ i. i;
      };
      later = λ t. omega arith;
    };
  }

  pub Good-close : Good p rounds e (update p (close_session p))
  Good-close = Good-update p rounds e (close_session p) (Kept-close_session p rounds e)

  Good-answered :
      (type : ℕ) (timer : p.Timer) (handle : Call p ℤ)
      → Good p rounds e handle
      → Good p rounds e (answered p abi rounds type timer handle)
  Good-answered type timer handle h =
      Good-bind p rounds e _ _ (Good-waitfor p rounds e abi type timer)
        (λ rc. Good-if p rounds e (is_type rc type) _ _ h (Good-pure p rounds e failure))

  -- The packet is sent if there is one, and then comes `next`; `otherwise` makes a result of the
  -- code where this stops.
  pub Good-send_then :
      {A : Type 0} (len : ℤ) (timer : p.Timer) (next : Call p A) (otherwise : ℤ → A)
      → Good p rounds e next
      → Good p rounds e (
          if is_positive len
          then (send_packet p rounds (to_ℕ len) timer >>= λ rc.
              if is_success rc then next else pure (otherwise rc))
          else pure (otherwise failure))
  Good-send_then len timer next otherwise h =
      Good-if p rounds e (is_positive len) _ _
        (Good-bind p rounds e _ _ (Good-send_packet p rounds e (to_ℕ len) timer)
          (λ rc. Good-if p rounds e (is_success rc) _ _ h (Good-pure p rounds e (otherwise rc))))
        (Good-pure p rounds e (otherwise failure))

  Good-or_close : (m : Call p ℤ) → Good p rounds e m → Good p rounds e (or_close p abi rounds m)
  Good-or_close m h = Good-bind p rounds e _ _ h (λ rc.
      Good-next p rounds e _ _
        (Good-if p rounds e (is_failure rc) _ _ Good-close (Good-pure p rounds e tt))
        (Good-pure p rounds e rc))

  Good-if_connected :
      (m : Call p ℤ) → Good p rounds e m → Good p rounds e (if_connected p abi rounds m)
  Good-if_connected m h =
      Good-bind p rounds e _ _ (Good-get p rounds e (λ c. c))
        (λ c. Good-if p rounds e (is_set c.isconnected) _ _ h (Good-pure p rounds e failure))

  Good-read_ack : Good p rounds e (read_ack p abi rounds)
  Good-read_ack =
      Good-bind p rounds e _ _ (Good-deserialize p rounds e (deserialize_ack abi.ack))
        (λ r. Good-pure p rounds e (if is_one r.0 then success else failure))

  Good-await_ack : (qos : ℕ) (timer : p.Timer) → Good p rounds e (await_ack p abi rounds qos timer)
  unfolding await_ack
  Good-await_ack qos timer =
      Good-if p rounds e (qos == 1) _ _ (Good-answered MsgType.puback timer _ Good-read_ack) (
        Good-if p rounds e (qos == 2) _ _ (Good-answered MsgType.pubcomp timer _ Good-read_ack)
          (Good-pure p rounds e success))

  Good-with_id : (m : Message) → Good p rounds e (with_id p abi rounds m)
  Good-with_id m =
      Good-if p rounds e (m.qos == 1 || m.qos == 2) _ _
        (Good-bind p rounds e _ _ (Good-get_next_packet_id p rounds e)
          (λ id. Good-pure p rounds e (record m { id = id })))
        (Good-pure p rounds e m)

  Good-publish_connected :
      (topic : Bytes) (m : Message) → Good p rounds e (publish_connected p abi rounds topic m)
  unfolding publish_connected
  Good-publish_connected topic m = Good-bind p rounds e _ _ (Good-get p rounds e (λ c. c)) (λ c.
      Good-bind p rounds e _ _ (Good-new_timer p rounds e c.command_timeout_ms) (λ timer.
        Good-bind p rounds e _ _ (Good-with_id m) (λ m'.
          Good-bind p rounds e _ _
            (Good-serialize p rounds e _ (λ buf n.
              SameSize-serialize_publish buf n 0 m'.qos m'.retained m'.id (topic_string topic)
                m'.payload (to_ℕ m'.payloadlen)))
            (λ len.
              Good-send_then len timer (await_ack p abi rounds m'.qos timer) (λ rc. rc)
                (Good-await_ack m'.qos timer)))))

  -- MQTTPublish ends, whatever comes in: it returns, or it reads or writes outside of a buffer, and no loop
  -- runs on once the timers that bound it have expired. If it returns, the buffers have their sizes,
  -- the handler table has its length and no filter twice if it had none twice, a packet identifier
  -- in 1 .. 65535 is still in that range, and no timer was put off.
  pub publish_ends : (topic : Bytes) (m : Message) → Good p rounds e (publish p abi rounds topic m)
  unfolding publish
  publish_ends topic m = Good-or_close _ (Good-if_connected _ (Good-publish_connected topic m))

  Good-read_unsuback : (f : Bytes) → Good p rounds e (read_unsuback p abi rounds f)
  unfolding read_unsuback
  Good-read_unsuback f =
      Good-bind p rounds e _ _ (Good-deserialize p rounds e (deserialize_unsuback abi.packetid))
        (λ r.
          Good-next p rounds e _ _
            (Good-if p rounds e (is_one r.0) _ _
              (Good-next p rounds e _ _ (Good-set_message_handler f none) (Good-pure p rounds e tt))
              (Good-pure p rounds e tt))
            (Good-pure p rounds e success))

  -- MQTTUnsubscribe ends, whatever comes in: it returns, or it reads or writes outside of a buffer, and no loop
  -- runs on once the timers that bound it have expired. If it returns, the buffers have their sizes,
  -- the handler table has its length and no filter twice if it had none twice, a packet identifier
  -- in 1 .. 65535 is still in that range, and no timer was put off.
  pub unsubscribe_ends : (f : Bytes) → Good p rounds e (unsubscribe p abi rounds f)
  unfolding unsubscribe unsubscribe_connected
  unsubscribe_ends f = Good-or_close _ (
      Good-if_connected _ (
        Good-bind p rounds e _ _ (Good-get p rounds e (λ c. c)) (λ c.
          Good-bind p rounds e _ _ (Good-new_timer p rounds e c.command_timeout_ms) (λ timer.
            Good-bind p rounds e _ _ (Good-get_next_packet_id p rounds e) (λ id.
              Good-bind p rounds e _ _
                (Good-serialize p rounds e _
                  (λ buf n. SameSize-serialize_unsubscribe buf n 0 id (topic_string f ∷ [])))
                (λ len.
                  Good-send_then len timer
                    (answered p abi rounds MsgType.unsuback timer (read_unsuback p abi rounds f))
                    (λ rc. rc) (Good-answered MsgType.unsuback timer _ (Good-read_unsuback f))))))))
