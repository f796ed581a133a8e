-- ===== src/Packet/Connect.antt =====
-- MQTTSerialize_connect of MQTTConnectClient.c, with the types of MQTTConnect.h.
pub mod Image
pub mod Describes
pub mod Laws
use mbed_mqtt.Common.{
  ℕ, zero, suc, ◌+◌, ◌*◌, ◌/◌, ◌%◌, Bool, true, false, ◌&&◌, ◌||◌, not, Bytes, [], ◌∷◌, Option,
  none, some, length, ltb, ◌==◌, if◌then◌else◌, ℤ, pos,
}
use mbed_mqtt.Packet.Header.{Header, header_byte}
use mbed_mqtt.Packet.Length.{packet_encode, packet_len}
use mbed_mqtt.Packet.MsgType
use mbed_mqtt.Packet.Strings.{MqttString, mqtt_strlen, write_mqtt_string}
use mbed_mqtt.Packet.Writer.{Writer, ◌>>◌, skip, write_char, write_int, write_cstring, checked}

-- MQTTConnectFlags: the bit fields, lowest first behind an unused bit.
pub record ConnectFlags : Type 0 where
  pub cleansession : ℕ
  pub will : ℕ
  pub will_qos : ℕ
  pub will_retain : ℕ
  pub password : ℕ
  pub username : ℕ

unfoldable pub flags_byte : ConnectFlags → ℕ
flags_byte f =
    f.cleansession % 2 * 2
    + f.will % 2 * 4
    + f.will_qos % 4 * 8
    + f.will_retain % 2 * 32
    + f.password % 2 * 64
    + f.username % 2 * 128

unfoldable pub flags_bits : ℕ → ConnectFlags
flags_bits all = record {
  cleansession = all / 2 % 2;
  will = all / 4 % 2;
  will_qos = all / 8 % 4;
  will_retain = all / 32 % 2;
  password = all / 64 % 2;
  username = all / 128 % 2;
}

-- MQTTPacket_willOptions and MQTTPacket_connectData, without the eyecatchers that no code reads.
pub record WillOptions : Type 0 where
  pub topic_name : MqttString
  pub message : MqttString
  pub retained : ℕ
  pub qos : ℕ

pub record ConnectData : Type 0 where
  pub mqtt_version : ℕ
  pub client_id : MqttString
  pub keep_alive_interval : ℕ
  pub cleansession : ℕ
  pub will_flag : ℕ
  pub will : WillOptions
  pub username : MqttString
  pub password : MqttString

-- `s.cstring || s.lenstring.data`
unfoldable pub is_given : MqttString → Bool
is_given s = elim s.cstring [
  | some string ↦ true
  | none ↦ elim s.data_ [ some p ↦ true | none ↦ false ]
]

-- A nonzero `char` is true.
abbrev pub is_set : ℕ → Bool
is_set c = not (c == 0)

given_length : MqttString → ℕ
given_length s = if is_given s then mqtt_strlen s + 2 else 0

version_length : ℕ → ℕ
version_length version = if version == 3 then 12 else if version == 4 then 10 else 0

will_length : ConnectData → ℕ
will_length options =
    if is_set options.will_flag
    then mqtt_strlen options.will.topic_name + 2 + mqtt_strlen options.will.message + 2
    else 0

pub serialize_connect_length : ConnectData → ℕ
serialize_connect_length options =
    version_length options.mqtt_version
    + (mqtt_strlen options.client_id + 2)
    + will_length options
    + given_length options.username
    + given_length options.password

abbrev pub connect_flags : ConnectData → ConnectFlags
connect_flags options = record {
  cleansession = options.cleansession;
  will = if is_set options.will_flag then 1 else 0;
  will_qos = if is_set options.will_flag then options.will.qos else 0;
  will_retain = if is_set options.will_flag then options.will.retained else 0;
  password = if is_given options.password then 1 else 0;
  username = if is_given options.username then 1 else 0;
}

-- The strings "MQTT" and "MQIsdp".
abbrev pub name_mqtt : Bytes
name_mqtt = b'M' ∷ b'Q' ∷ b'T' ∷ b'T' ∷ []

abbrev pub name_mqisdp : Bytes
name_mqisdp = b'M' ∷ b'Q' ∷ b'I' ∷ b's' ∷ b'd' ∷ b'p' ∷ []

abbrev pub write_protocol : ℕ → Writer
write_protocol version =
    if version == 4
    then write_cstring name_mqtt >> write_char 4
    else write_cstring name_mqisdp >> write_char 3

abbrev pub write_will : ConnectData → Writer
write_will options =
    if is_set options.will_flag
    then write_mqtt_string options.will.topic_name >> write_mqtt_string options.will.message
    else skip

abbrev pub write_given : MqttString → Writer
write_given s = if is_given s then write_mqtt_string s else skip

unfoldable pub serialize_connect : Bytes → ℕ → ConnectData → Option (ℤ × Bytes)
serialize_connect buf buflen options =
    let len = serialize_connect_length options in
    let header : Header = record { type = MsgType.connect; dup = 0; qos = 0; retain = 0 } in
    checked (packet_len len) buflen
      (write_char (header_byte header)
        >> packet_encode len
        >> write_protocol options.mqtt_version
        >> write_char (flags_byte (connect_flags options))
        >> write_int options.keep_alive_interval
        >> write_mqtt_string options.client_id
        >> write_will options
        >> write_given options.username
        >> write_given options.password)
      buf
