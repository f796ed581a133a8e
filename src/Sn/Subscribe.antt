-- ===== src/Sn/Subscribe.antt =====
-- SUBSCRIBE and UNSUBSCRIBE: MQTTSNSubscribeClient.c, MQTTSNSubscribeServer.c,
-- MQTTSNUnsubscribeClient.c and MQTTSNUnsubscribeServer.c.
pub mod Filters
pub mod Laws
use mbed_mqtt.Common.{
  ℕ, ◌+◌, ◌-◌, Bool, true, false, ◌||◌, Bytes, Option, none, some, and_then, ◌==◌, if◌then◌else◌, ℤ,
  pos, sub_ℕ,
}
use mbed_mqtt.Packet.Reader.{Cursor, Reader, ◌>>=◌, pure, read_char, read_int, on_buffer}
use mbed_mqtt.Packet.Writer.{Writer, ◌>>◌, skip, write_char, write_int, checked}
use mbed_mqtt.Sn.Flags.{Flags, no_flags, flags_byte, flags_bits, dup_value}
use mbed_mqtt.Sn.Length.{sn_packet_len, sn_packet_encode, in_packet}
use mbed_mqtt.Sn.MsgType
use mbed_mqtt.Sn.Topic.{
  TopicId, TopicData, id, short_name, long_name, topic_type_normal, topic_type_predefined,
  topic_type_short, long_len, write_long_name, write_id, write_short_name,
}

unfoldable pub sn_serialize_subscribe_length : TopicId → Option ℕ
sn_serialize_subscribe_length topic_filter =
    if topic_filter.type == topic_type_normal
    then and_then (long_len topic_filter.data_) (λ len. some (4 + len))
    else if topic_filter.type == topic_type_short || topic_filter.type == topic_type_predefined
    then some (4 + 2)
    else some 4

-- "now the topic id or name"
abbrev pub write_filter : TopicId → Writer
write_filter topic_filter =
    if topic_filter.type == topic_type_normal
    then write_long_name topic_filter.data_
    else if topic_filter.type == topic_type_predefined
    then write_id topic_filter.data_
    else if topic_filter.type == topic_type_short
    then write_short_name topic_filter.data_
    else skip

unfoldable pub sn_serialize_subscribe : Bytes → ℕ → ℕ → ℕ → ℕ → TopicId → Option (ℤ × Bytes)
sn_serialize_subscribe buf buflen dup qos packetid topic_filter =
    and_then (sn_serialize_subscribe_length topic_filter) (λ n.
      let len = sn_packet_len n in
      let flags : Flags = record no_flags {
        dup = dup;
        qos = qos;
        topic_id_type = topic_filter.type;
      } in
      checked len buflen
        (sn_packet_encode len
          >> write_char MsgType.subscribe
          >> write_char (flags_byte flags)
          >> write_int packetid
          >> write_filter topic_filter)
        buf)

-- Its code is that of MQTTSNSerialize_subscribeLength.
unfoldable pub sn_serialize_unsubscribe_length : TopicId → Option ℕ
sn_serialize_unsubscribe_length topic_filter =
    if topic_filter.type == topic_type_normal
    then and_then (long_len topic_filter.data_) (λ len. some (4 + len))
    else if topic_filter.type == topic_type_short || topic_filter.type == topic_type_predefined
    then some (4 + 2)
    else some 4

unfoldable pub sn_serialize_unsubscribe : Bytes → ℕ → ℕ → TopicId → Option (ℤ × Bytes)
sn_serialize_unsubscribe buf buflen packetid topic_filter =
    and_then (sn_serialize_unsubscribe_length topic_filter) (λ n.
      let len = sn_packet_len n in
      let flags : Flags = record no_flags { topic_id_type = topic_filter.type } in
      checked len buflen
        (sn_packet_encode len
          >> write_char MsgType.unsubscribe
          >> write_char (flags_byte flags)
          >> write_int packetid
          >> write_filter topic_filter)
        buf)

-- `data.long_.len = enddata - curdata; data.long_.name = curdata`
abbrev read_name : ℕ → Reader TopicData
read_name enddata c = some (long_name c.rest (sub_ℕ enddata c.at), c)

-- A topic type that is none of the three leaves the union as it was.
pub read_filter : ℕ → ℕ → TopicData → Reader TopicData
read_filter enddata type old =
    let identifier = read_int >>= λ n. pure (id n) in
    let characters = read_char >>= λ a. read_char >>= λ b. pure (short_name a b) in
    if type == topic_type_normal
    then read_name enddata
    else if type == topic_type_predefined
    then identifier
    else if type == topic_type_short
    then characters
    else pure old

-- The output parameters.
pub record Subscribe : Type 0 where
  pub dup : ℕ
  pub qos : ℕ
  pub packetid : ℕ
  pub topic_filter : TopicId

pub read_subscribe : Bool → Subscribe → ℕ → Reader (ℤ × Subscribe)
unfolding read_filter
read_subscribe signed old enddata = read_char >>= λ all. read_int >>= λ packetid.
    let flags = flags_bits all in
    read_filter enddata flags.topic_id_type old.topic_filter.data_ >>= λ data_. pure (
      pos 1,
      record {
        dup = dup_value signed flags.dup;
        qos = flags.qos;
        packetid = packetid;
        topic_filter = record { type = flags.topic_id_type; data_ = data_ };
      },
    )

-- `signed` says whether the compiler takes the one-bit field `dup` as signed.
unfoldable pub sn_deserialize_subscribe : Bool → Subscribe → Bytes → ℕ → Option (ℤ × Subscribe)
unfolding read_subscribe
sn_deserialize_subscribe signed old buf buflen =
    on_buffer (in_packet buflen MsgType.subscribe (pos 0, old) (read_subscribe signed old)) buf

-- The output parameters.
pub record Unsubscribe : Type 0 where
  pub packetid : ℕ
  pub topic_filter : TopicId

pub read_unsubscribe : Unsubscribe → ℕ → Reader (ℤ × Unsubscribe)
unfolding read_filter
read_unsubscribe old enddata = read_char >>= λ all. read_int >>= λ packetid.
    let flags = flags_bits all in
    read_filter enddata flags.topic_id_type old.topic_filter.data_ >>= λ data_. pure (
      pos 1,
      record {
        packetid = packetid;
        topic_filter = record { type = flags.topic_id_type; data_ = data_ };
      },
    )

unfoldable pub sn_deserialize_unsubscribe : Unsubscribe → Bytes → ℕ → Option (ℤ × Unsubscribe)
unfolding read_unsubscribe
sn_deserialize_unsubscribe old buf buflen =
    on_buffer (in_packet buflen MsgType.unsubscribe (pos 0, old) (read_unsubscribe old)) buf
