-- ===== src/Sn/Ack.antt =====
-- The acknowledgements of MQTTSNSerializePublish.c and MQTTSNDeserializePublish.c, and SUBACK and
-- UNSUBACK.
pub mod Laws
use mbed_mqtt.Common.{
  ℕ, ◌+◌, ◌-◌, Bool, true, false, ◌&&◌, ◌||◌, not, Bytes, Option, none, some, ltb, ◌==◌,
  if◌then◌else◌, ℤ, pos, negsuc,
}
use mbed_mqtt.Packet.Reader.{Cursor, Reader, ◌>>=◌, pure, advance, read_char, read_int, on_buffer}
use mbed_mqtt.Packet.Writer.{Writer, ◌>>◌, write_char, write_int, checked}
use mbed_mqtt.Sn.Flags.{Flags, no_flags, flags_byte, flags_bits}
use mbed_mqtt.Sn.Length.{sn_packet_len, sn_packet_encode, sn_packet_decode, in_packet, opened}
use mbed_mqtt.Sn.MsgType

unfoldable pub sn_serialize_puback : Bytes → ℕ → ℕ → ℕ → ℕ → Option (ℤ × Bytes)
sn_serialize_puback buf buflen topicid packetid returncode =
    let len = sn_packet_len 6 in
    checked len buflen
      (sn_packet_encode len
        >> write_char MsgType.puback
        >> write_int topicid
        >> write_int packetid
        >> write_char returncode)
      buf

unfoldable pub sn_serialize_regack : Bytes → ℕ → ℕ → ℕ → ℕ → Option (ℤ × Bytes)
sn_serialize_regack buf buflen topicid packetid return_code =
    let len = sn_packet_len 6 in
    checked len buflen
      (sn_packet_encode len
        >> write_char MsgType.regack
        >> write_int topicid
        >> write_int packetid
        >> write_char return_code)
      buf

unfoldable pub sn_serialize_suback : Bytes → ℕ → ℕ → ℕ → ℕ → ℕ → Option (ℤ × Bytes)
sn_serialize_suback buf buflen qos topicid packetid returncode =
    let len = sn_packet_len 7 in
    let flags : Flags = record no_flags { qos = qos } in
    checked len buflen
      (sn_packet_encode len
        >> write_char MsgType.suback
        >> write_char (flags_byte flags)
        >> write_int topicid
        >> write_int packetid
        >> write_char returncode)
      buf

unfoldable pub sn_serialize_unsuback : Bytes → ℕ → ℕ → Option (ℤ × Bytes)
sn_serialize_unsuback buf buflen packetid =
    let len = sn_packet_len 3 in
    checked len buflen (sn_packet_encode len >> write_char MsgType.unsuback >> write_int packetid)
      buf

unfoldable pub sn_serialize_ack : Bytes → ℕ → ℕ → ℕ → Option (ℤ × Bytes)
sn_serialize_ack buf buflen packet_type packetid =
    checked 4 buflen (sn_packet_encode 4 >> write_char packet_type >> write_int packetid) buf

unfoldable pub sn_serialize_pubrec : Bytes → ℕ → ℕ → Option (ℤ × Bytes)
sn_serialize_pubrec buf buflen packetid = sn_serialize_ack buf buflen MsgType.pubrec packetid

unfoldable pub sn_serialize_pubrel : Bytes → ℕ → ℕ → Option (ℤ × Bytes)
sn_serialize_pubrel buf buflen packetid = sn_serialize_ack buf buflen MsgType.pubrel packetid

unfoldable pub sn_serialize_pubcomp : Bytes → ℕ → ℕ → Option (ℤ × Bytes)
sn_serialize_pubcomp buf buflen packetid = sn_serialize_ack buf buflen MsgType.pubcomp packetid

-- The output parameters of MQTTSNDeserialize_puback and MQTTSNDeserialize_regack.
pub record TopicAck : Type 0 where
  pub topicid : ℕ
  pub packetid : ℕ
  pub return_code : ℕ

abbrev pub read_topic_ack : Reader (ℤ × TopicAck)
read_topic_ack = read_int >>= λ topicid. read_int >>= λ packetid. read_char >>= λ code.
    pure (pos 1, record { topicid = topicid; packetid = packetid; return_code = code })

unfoldable pub sn_deserialize_puback : TopicAck → Bytes → ℕ → Option (ℤ × TopicAck)
sn_deserialize_puback old buf buflen =
    on_buffer (in_packet buflen MsgType.puback (pos 0, old) (λ enddata. read_topic_ack)) buf

unfoldable pub sn_deserialize_regack : TopicAck → Bytes → ℕ → Option (ℤ × TopicAck)
sn_deserialize_regack old buf buflen =
    on_buffer (in_packet buflen MsgType.regack (pos 0, old) (λ enddata. read_topic_ack)) buf

-- The output parameters of MQTTSNDeserialize_suback.
pub record Suback : Type 0 where
  pub qos : ℕ
  pub topicid : ℕ
  pub packetid : ℕ
  pub returncode : ℕ

abbrev pub read_suback : Reader (ℤ × Suback)
read_suback = read_char >>= λ all. read_int >>= λ topicid. read_int >>= λ packetid.
    read_char >>= λ code. pure (
      pos 1,
      record {
        qos = (flags_bits all).qos;
        topicid = topicid;
        packetid = packetid;
        returncode = code;
      },
    )

unfoldable pub sn_deserialize_suback : Suback → Bytes → ℕ → Option (ℤ × Suback)
sn_deserialize_suback old buf buflen =
    on_buffer (in_packet buflen MsgType.suback (pos 0, old) (λ enddata. read_suback)) buf

abbrev pub read_packetid : Reader (ℤ × ℕ)
read_packetid = read_int >>= λ packetid. pure (pos 1, packetid)

-- The result with `*packetid`.
unfoldable pub sn_deserialize_unsuback : ℕ → Bytes → ℕ → Option (ℤ × ℕ)
sn_deserialize_unsuback old buf buflen =
    on_buffer (in_packet buflen MsgType.unsuback (pos 0, old) (λ enddata. read_packetid)) buf

abbrev pub is_ack : ℕ → Bool
is_ack type = type == MsgType.pubrel || type == MsgType.pubrec || type == MsgType.pubcomp

-- The output parameters of MQTTSNDeserialize_ack; `*type` is set on a packet of another type too.
pub record Ack : Type 0 where
  pub type : ℕ
  pub packetid : ℕ

abbrev read_ack : Ack → ℕ → Reader (ℤ × Ack)
read_ack old enddata = read_char >>= λ type.
    let read = read_int >>= λ packetid. pure (pos 1, record { type = type; packetid = packetid }) in
    if not (is_ack type) then pure (pos 0, record old { type = type }) else read

unfoldable pub sn_deserialize_ack : Ack → Bytes → ℕ → Option (ℤ × Ack)
sn_deserialize_ack old buf buflen =
    on_buffer (λ c. opened buflen (pos 0, old) (read_ack old) c (sn_packet_decode c.rest buflen 0))
      buf
