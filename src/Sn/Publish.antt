-- ===== src/Sn/Publish.antt =====
-- MQTTSNSerializePublish.c and MQTTSNDeserializePublish.c: PUBLISH.
pub mod Forms
pub mod Laws
use mbed_mqtt.Common.{
  ℕ, ◌+◌, Bool, true, false, ◌&&◌, ◌||◌, Bytes, [], Option, none, some, and_then, ◌==◌,
  if◌then◌else◌, ℤ, pos, negsuc, sub_ℕ,
}
use mbed_mqtt.Packet.Reader.{Cursor, Reader, ◌>>=◌, pure, advance, read_char, read_int, on_buffer}
use mbed_mqtt.Packet.Writer.{Writer, ◌>>◌, skip, write_char, write_int, memcpy, checked}
use mbed_mqtt.Sn.Flags.{Flags, no_flags, flags_byte, flags_bits, dup_value}
use mbed_mqtt.Sn.Length.{sn_packet_len, sn_packet_encode, in_packet}
use mbed_mqtt.Sn.MsgType
use mbed_mqtt.Sn.Topic.{
  TopicId, TopicData, id, short_name, long_name, topic_type_normal, topic_type_predefined, long_len,
  write_long_name, write_long_len, write_id, write_short_name,
}

-- `topic.type == MQTTSN_TOPIC_TYPE_NORMAL && qos == 3`: the packet carries the topic's name.
abbrev pub is_named : ℕ → ℕ → Bool
is_named type qos = type == topic_type_normal && qos == 3

-- It reads `data.long_.len` in one case.
unfoldable pub sn_serialize_publish_length : ℕ → TopicId → ℕ → Option ℕ
sn_serialize_publish_length payloadlen topic qos =
    if is_named topic.type qos
    then and_then (long_len topic.data_) (λ len. some (payloadlen + (6 + len)))
    else some (payloadlen + 6)

-- The topic field: the length of the name, the id, or the two characters.
abbrev pub write_topic : TopicId → ℕ → Writer
write_topic topic qos =
    if is_named topic.type qos
    then write_long_len topic.data_
    else if topic.type == topic_type_normal || topic.type == topic_type_predefined
    then write_id topic.data_
    else write_short_name topic.data_

abbrev pub write_name : TopicId → ℕ → Writer
write_name topic qos = if is_named topic.type qos then write_long_name topic.data_ else skip

-- `payload` is the memory from the pointer on.
unfoldable pub sn_serialize_publish :
    Bytes → ℕ → ℕ → ℕ → ℕ → ℕ → TopicId → Bytes → ℕ → Option (ℤ × Bytes)
sn_serialize_publish buf buflen dup qos retained packetid topic payload payloadlen =
    and_then (sn_serialize_publish_length payloadlen topic qos) (λ n.
      let len = sn_packet_len n in
      let flags : Flags = record no_flags {
        dup = dup;
        qos = qos;
        retain = retained;
        topic_id_type = topic.type;
      } in
      checked len buflen
        (sn_packet_encode len
          >> write_char MsgType.publish
          >> write_char (flags_byte flags)
          >> write_topic topic qos
          >> write_int packetid
          >> write_name topic qos
          >> memcpy payloadlen payload)
        buf)

-- The output parameters. `payload` is the memory from the returned pointer on.
pub record Publish : Type 0 where
  pub dup : ℕ
  pub qos : ℕ
  pub retained : ℕ
  pub packetid : ℕ
  pub topic : TopicId
  pub payload : Bytes
  pub payloadlen : ℤ

-- The topic field, as the union member that it sets; `long_.name` is set behind the packet
-- identifier.
pub read_topic : ℕ → ℕ → Reader TopicData
read_topic type qos =
    let name = read_int >>= λ len. pure (long_name [] (pos len)) in
    let identifier = read_int >>= λ n. pure (id n) in
    let characters = read_char >>= λ a. read_char >>= λ b. pure (short_name a b) in
    if is_named type qos
    then name
    else if type == topic_type_normal || type == topic_type_predefined
    then identifier
    else characters

-- `data.long_.name = curdata; curdata += data.long_.len`, when the member is `long_`, whose length was read
-- from two bytes and so is not negative.
pub set_name : TopicData → Reader TopicData
set_name (id n) c = some (id n, c)
set_name (short_name a b) c = some (short_name a b, c)
set_name (long_name name (pos len)) c = some (long_name c.rest (pos len), advance len c)
set_name (long_name name (negsuc n)) c = none

-- `*payloadlen = enddata - curdata; *payload = curdata`
pub set_payload : ℕ → Publish → Reader (ℤ × Publish)
set_payload enddata p c =
    some ((pos 1, record p { payload = c.rest; payloadlen = sub_ℕ enddata c.at }), c)

pub read_publish : Bool → Publish → ℕ → Reader (ℤ × Publish)
unfolding read_topic set_name set_payload
read_publish signed old enddata = read_char >>= λ all.
    let flags = flags_bits all in
    read_topic flags.topic_id_type flags.qos >>= λ partial. read_int >>= λ packetid.
    set_name partial >>= λ data_. set_payload enddata (record old {
      dup = dup_value signed flags.dup;
      qos = flags.qos;
      retained = flags.retain;
      packetid = packetid;
      topic = record { type = flags.topic_id_type; data_ = data_ };
    })

-- `signed` says whether the compiler takes the one-bit field `dup` as signed.
unfoldable pub sn_deserialize_publish : Bool → Publish → Bytes → ℕ → Option (ℤ × Publish)
unfolding read_publish
sn_deserialize_publish signed old buf buflen =
    on_buffer (in_packet buflen MsgType.publish (pos 0, old) (read_publish signed old)) buf
