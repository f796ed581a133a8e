-- ===== src/Sn/Sessions.antt =====
-- The theorems on PUBLISH, SUBSCRIBE and UNSUBSCRIBE of MQTT-SN at concrete packets.
use mbed_mqtt.Common.{true, false, Bytes, [], ◌∷◌, ◌++◌, some, ◌≡◌, refl, arith, pos}
use mbed_mqtt.Packet.Writer.Emits.{serialized, int_image}
use mbed_mqtt.Sn.Frame.{packet_image, len_image}
use mbed_mqtt.Sn.Length.{sn_packet_len}
use mbed_mqtt.Sn.MsgType
use mbed_mqtt.Sn.Publish.{Publish, sn_serialize_publish, sn_deserialize_publish}
use mbed_mqtt.Sn.Publish.Forms
use mbed_mqtt.Sn.Publish.Laws.{
  publish_flags, publish_body, sn_serialize_publish_lem, sn_deserialize_publish-packet_image,
}
use mbed_mqtt.Sn.Subscribe.{
  Subscribe, Unsubscribe, sn_serialize_subscribe, sn_deserialize_subscribe,
}
use mbed_mqtt.Sn.Subscribe.Filters
use mbed_mqtt.Sn.Subscribe.Laws.{
  subscribe_flags, sn_serialize_subscribe_lem, sn_deserialize_subscribe-packet_image,
}
use mbed_mqtt.Sn.Topic.{TopicId, id}

abbrev room : Bytes
room = 0 ∷ 0 ∷ 0 ∷ 0 ∷ 0 ∷ 0 ∷ 0 ∷ 0 ∷ 0 ∷ 0 ∷ 0 ∷ 0 ∷ []

abbrev name : Bytes
name = 97 ∷ 98 ∷ []

abbrev no_topic : TopicId
no_topic = record { type = 0; data_ = id 0 }

sn_serialize_publish_example :
    sn_serialize_publish room 12 0 3 0 0 (Forms.topic_of (Forms.named name) []) (7 ∷ []) 1
    ≡ serialized
        (sn_packet_len 9)
        12
        (packet_image MsgType.publish
          (publish_body (publish_flags 0 3 0 (Forms.named name)) 0 (Forms.named name) (7 ∷ [])))
        room
sn_serialize_publish_example =
    sn_serialize_publish_lem room 12 0 3 0 0 (Forms.named name) (7 ∷ []) [] [] (refl, omega arith)
      (λ e. absurd (omega (arith, e))) (omega arith)

abbrev old_publish : Publish
old_publish = record {
  dup = 0;
  qos = 0;
  retained = 0;
  packetid = 0;
  topic = no_topic;
  payload = [];
  payloadlen = pos 0;
}

sn_deserialize_publish_example :
    sn_deserialize_publish true old_publish
      (packet_image MsgType.publish (
          publish_body (publish_flags 1 1 0 (Forms.registered 5)) 300 (Forms.registered 5) (7 ∷ []))
        ++ 9 ∷ [])
      12
    ≡ some (
      pos 1,
      record {
        dup = 255;
        qos = 1;
        retained = 0;
        packetid = 300;
        topic = record { type = 0; data_ = id 5 };
        payload = 7 ∷ 9 ∷ [];
        payloadlen = pos 1;
      },
    )
unfolding packet_image len_image int_image publish_body
sn_deserialize_publish_example =
    sn_deserialize_publish-packet_image true old_publish 1 1 0 300 (Forms.registered 5) (7 ∷ [])
      (9 ∷ []) 12 (ground arith) (refl, omega arith) (omega arith) (omega arith) (omega arith)

sn_serialize_subscribe_example :
    sn_serialize_subscribe room 12 0 1 300 (Filters.topic_of (Filters.named name) [])
    ≡ serialized
        (sn_packet_len 6)
        12
        (packet_image MsgType.subscribe
          (Filters.filter_body (subscribe_flags 0 1 (Filters.named name)) 300 (Filters.named name)))
        room
sn_serialize_subscribe_example =
    sn_serialize_subscribe_lem room 12 0 1 300 (Filters.named name) [] (omega arith)
      (λ e. absurd (omega (arith, e))) (omega arith)

abbrev old_subscribe : Subscribe
old_subscribe = record { dup = 0; qos = 0; packetid = 0; topic_filter = no_topic }

sn_deserialize_subscribe_example :
    sn_deserialize_subscribe false old_subscribe
      (packet_image MsgType.subscribe (
          Filters.filter_body
            (subscribe_flags 1 1 (Filters.predefined 5))
            300
            (Filters.predefined 5))
        ++ 9 ∷ [])
      12
    ≡ some (
      pos 1,
      record { dup = 1; qos = 1; packetid = 300; topic_filter = record { type = 1; data_ = id 5 } },
    )
unfolding packet_image len_image int_image Filters.filter_body
sn_deserialize_subscribe_example =
    sn_deserialize_subscribe-packet_image false old_subscribe 1 1 300 (Filters.predefined 5)
      (9 ∷ []) 12 (ground arith) (omega arith) (omega arith) (omega arith) (omega arith)

abbrev old_unsubscribe : Unsubscribe
old_unsubscribe = record { packetid = 0; topic_filter = no_topic }
