-- ===== src/Packet/Publish/Malformed.antt =====
-- MQTTDeserialize_publish on a packet that ends inside its packet identifier.
use mbed_mqtt.Common.{
  ℕ, ◌+◌, ◌<◌, ◌^◌, Bytes, ◌++◌, some, length, append_assoc, ◌≡◌, arith, lt→ltb, ge→ltb, pos,
  negsuc,
}
use mbed_mqtt.Packet.Frame.{packet_image, read_remaining-rem_image}
use mbed_mqtt.Packet.Header.{header_bits-header_image, Fits}
use mbed_mqtt.Packet.Length.Laws.{rem_image}
use mbed_mqtt.Packet.Publish.Laws.{publish_header}
use mbed_mqtt.Packet.Publish.{Publish, set_packetid, set_payload, set_topic, deserialize_publish}
use mbed_mqtt.Packet.Reader.{on_buffer, read_char}
use mbed_mqtt.Packet.Strings.Laws.{
  string_image, len_string, length-string_image, read_mqtt_len_string-string_image,
  read_int-int_image,
}
use mbed_mqtt.Packet.Writer.Emits.{int_image}

-- The two bytes behind the packet are taken for its identifier.
set_topic_short :
    (at packetid : ℕ) (p : Publish) (topic rest : Bytes)
    → packetid < 2 ^ 16
    → length topic < 2 ^ 16
    → 0 < p.qos
    → set_topic
        (at + length (string_image topic))
        p
        (record { rest = string_image topic ++ (int_image packetid ++ rest); at = at })
      ≡ some (
        (
          pos 1,
          record p {
            packetid = packetid;
            topic_name = len_string topic (int_image packetid ++ rest);
            payload = rest;
            payloadlen = negsuc 1;
          },
        ),
        record { rest = rest; at = at + 2 + length topic + 2 },
      )
unfolding set_topic set_packetid set_payload
set_topic_short at packetid p topic rest small short q =
    let end = at + length (string_image topic) in
    let size : end ≡ at + 2 + length topic = omega (arith, length-string_image topic) in
    rw
      (read_mqtt_len_string-string_image topic (int_image packetid ++ rest) at end p.topic_name
        short (omega (arith, size)))
      (rw (ge→ltb end (at + 2 + length topic) (omega (arith, size)), lt→ltb 0 p.qos q)
        (rw (read_int-int_image packetid rest (at + 2 + length topic) small)
          (ground (arith, size))))

-- A PUBLISH packet with a QoS above 0 that ends right behind its topic is accepted: the call returns
-- 1 with the packet identifier taken from the two bytes behind the packet, and with the payload
-- length -2.
pub deserialize_publish_without_packetid :
    (old : Publish) (dup qos retained packetid : ℕ) (topic rest : Bytes)
    → Fits (publish_header dup qos retained)
    → 0 < qos
    → packetid < 2 ^ 16
    → length topic < 2 ^ 16
    → deserialize_publish old (
        packet_image (publish_header dup qos retained) (string_image topic)
        ++ (int_image packetid ++ rest))
      ≡ some (
        pos 1,
        record {
          dup = dup;
          qos = qos;
          retained = retained;
          packetid = packetid;
          topic_name = len_string topic (int_image packetid ++ rest);
          payload = rest;
          payloadlen = negsuc 1;
        },
      )
unfolding deserialize_publish on_buffer packet_image read_char
deserialize_publish_without_packetid old dup qos retained packetid topic rest fits q small short =
    let body = string_image topic in
    let size : length body < 2 ^ 28 = omega (arith, length-string_image topic) in
    rw (header_bits-header_image (publish_header dup qos retained) fits) (
      rw (append_assoc (rem_image (length body))) (
        rw (read_remaining-rem_image (length body) (body ++ (int_image packetid ++ rest)) 1 size) (
          rw (
            set_topic_short (1 + length (rem_image (length body))) packetid
              (record old { dup = dup; qos = qos; retained = retained }) topic rest small short
              q))))
