-- ===== src/Packet/Publish.antt =====
-- MQTTSerializePublish.c and MQTTDeserializePublish.c: the PUBLISH packet.
pub mod Laws
pub mod Malformed
use mbed_mqtt.Common.{
  ℕ, ◌+◌, Bool, true, false, Bytes, Option, none, some, ltb, ◌==◌, if◌then◌else◌, not, ◌||◌, ℤ, pos,
  sub_ℕ,
}
use mbed_mqtt.Packet.Writer.{Writer, ◌>>◌, skip, write_char, write_int, memcpy, checked}
use mbed_mqtt.Packet.Reader.{Cursor, Reader, ◌>>=◌, pure, here, read_char, read_int, on_buffer}
use mbed_mqtt.Packet.Length.{packet_encode, packet_len, read_remaining}
use mbed_mqtt.Packet.MsgType
use mbed_mqtt.Packet.Header.{Header, header_byte, header_bits}
use mbed_mqtt.Packet.Strings.{MqttString, mqtt_strlen, write_mqtt_string, read_mqtt_len_string}

unfoldable pub serialize_publish_length : ℕ → MqttString → ℕ → ℕ
serialize_publish_length qos topic_name payloadlen =
    2 + mqtt_strlen topic_name + payloadlen + (if ltb 0 qos then 2 else 0)

abbrev pub write_packetid : ℕ → ℕ → Writer
write_packetid qos packetid = if ltb 0 qos then write_int packetid else skip

-- `payload` is the memory from the pointer on; `payloadlen` bytes of it are sent.
unfoldable pub serialize_publish :
    Bytes → ℕ → ℕ → ℕ → ℕ → ℕ → MqttString → Bytes → ℕ → Option (ℤ × Bytes)
serialize_publish buf buflen dup qos retained packetid topic_name payload payloadlen =
    let rem_len = serialize_publish_length qos topic_name payloadlen in
    let header : Header = record {
      type = MsgType.publish;
      dup = dup;
      qos = qos;
      retain = retained;
    } in
    checked (packet_len rem_len) buflen
      (write_char (header_byte header)
        >> packet_encode rem_len
        >> write_mqtt_string topic_name
        >> write_packetid qos packetid
        >> memcpy payloadlen payload)
      buf

-- The output parameters. `payload` is the memory from the returned pointer on.
pub record Publish : Type 0 where
  pub dup : ℕ
  pub qos : ℕ
  pub retained : ℕ
  pub packetid : ℕ
  pub topic_name : MqttString
  pub payload : Bytes
  pub payloadlen : ℤ

-- `*payloadlen = enddata - curdata; *payload = curdata`
set_payload : ℕ → Publish → Reader (ℤ × Publish)
set_payload enddata p c =
    some ((pos 1, record p { payload = c.rest; payloadlen = sub_ℕ enddata c.at }), c)

set_packetid : ℕ → Publish → Reader (ℤ × Publish)
unfolding set_payload
set_packetid enddata p =
    if ltb 0 p.qos
    then (read_int >>= λ n. set_payload enddata (record p { packetid = n }))
    else set_payload enddata p

set_topic : ℕ → Publish → Reader (ℤ × Publish)
unfolding set_packetid
set_topic enddata p = read_mqtt_len_string enddata p.topic_name >>= λ r. here >>= λ at.
    let p' = record p { topic_name = r.1 } in
    if not r.0 || ltb enddata at then pure (pos 0, p') else set_packetid enddata p'

after_header : ℕ → Publish → Reader (ℤ × Publish)
unfolding set_topic
after_header byte old =
    let header = header_bits byte in
    let p = record old { dup = header.dup; qos = header.qos; retained = header.retain } in
    let parse = read_remaining >>= λ r. here >>= λ curdata. set_topic (curdata + r.1) p in
    if header.type == MsgType.publish then parse else pure (pos 0, old)

-- The result is `rc` with the output parameters, whose old values are passed in.
unfoldable pub deserialize_publish : Publish → Bytes → Option (ℤ × Publish)
unfolding after_header
deserialize_publish old buf = on_buffer (read_char >>= λ byte. after_header byte old) buf
