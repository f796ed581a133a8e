-- ===== src/Sn/Register.antt =====
-- REGISTER, of MQTTSNSerializePublish.c and MQTTSNDeserializePublish.c.
pub mod Laws
use mbed_mqtt.Common.{ℕ, ◌+◌, Bytes, Option, none, some, ltb, ◌==◌, if◌then◌else◌, ℤ, pos, sub_ℕ}
use mbed_mqtt.Packet.Reader.{Cursor, Reader, ◌>>=◌, pure, read_int, on_buffer}
use mbed_mqtt.Packet.Strings.{MqttString}
use mbed_mqtt.Packet.Writer.{Writer, ◌>>◌, write_char, write_int, memcpy, checked}
use mbed_mqtt.Sn.Length.{sn_packet_len, sn_packet_encode, in_packet}
use mbed_mqtt.Sn.MsgType
use mbed_mqtt.Sn.Topic.{sn_strlen, copy_data}

unfoldable pub sn_serialize_register_length : ℕ → ℕ
sn_serialize_register_length topicnamelen = topicnamelen + 5

-- The memory that the name is copied from.
abbrev pub name_bytes : MqttString → Option Bytes
name_bytes s = elim s.cstring [ none ↦ s.data_ | some string ↦ some string ]

unfoldable pub sn_serialize_register : Bytes → ℕ → ℕ → ℕ → MqttString → Option (ℤ × Bytes)
sn_serialize_register buf buflen topicid packetid topicname =
    let topicnamelen = sn_strlen topicname in
    let len = sn_packet_len (sn_serialize_register_length topicnamelen) in
    checked len buflen
      (sn_packet_encode len
        >> write_char MsgType.register
        >> write_int topicid
        >> write_int packetid
        >> copy_data topicnamelen (name_bytes topicname))
      buf

-- The output parameters. `data` and `len` are those of `topicname->lenstring`; `cstring` becomes
-- NULL.
pub record Register : Type 0 where
  pub topicid : ℕ
  pub packetid : ℕ
  pub cstring : Option Bytes
  pub data_ : Option Bytes
  pub len : ℤ

pub set_name : ℕ → ℕ → ℕ → Reader (ℤ × Register)
set_name enddata topicid packetid c = some (
  (
    pos 1,
    record {
      topicid = topicid;
      packetid = packetid;
      cstring = none;
      data_ = some c.rest;
      len = sub_ℕ enddata c.at;
    },
  ),
  c,
)

unfoldable pub sn_deserialize_register : Register → Bytes → ℕ → Option (ℤ × Register)
unfolding set_name
sn_deserialize_register old buf buflen =
    on_buffer
      (in_packet buflen MsgType.register (pos 0, old)
        (λ enddata.
          read_int >>= λ topicid. read_int >>= λ packetid. set_name enddata topicid packetid))
      buf
