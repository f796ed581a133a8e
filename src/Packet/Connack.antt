-- ===== src/Packet/Connack.antt =====
-- MQTTSerialize_connack of MQTTConnectServer.c and MQTTDeserialize_connack of MQTTConnectClient.c.
pub mod Laws
use mbed_mqtt.Common.{
  ℕ, ◌+◌, ◌%◌, Bool, true, false, Bytes, Option, some, ltb, ◌==◌, if◌then◌else◌, ℤ, pos,
}
use mbed_mqtt.Packet.Header.{Header, header_byte, header_bits}
use mbed_mqtt.Packet.Length.{packet_encode, read_remaining}
use mbed_mqtt.Packet.MsgType
use mbed_mqtt.Packet.Reader.{Reader, ◌>>=◌, pure, read_char, on_buffer}
use mbed_mqtt.Packet.Writer.{◌>>◌, write_char, checked}

-- The session present flag is the lowest bit of MQTTConnackFlags.
unfoldable pub serialize_connack : Bytes → ℕ → ℕ → ℕ → Option (ℤ × Bytes)
serialize_connack buf buflen connack_rc session_present =
    let header : Header = record { type = MsgType.connack; dup = 0; qos = 0; retain = 0 } in
    checked 2 buflen
      (write_char (header_byte header)
        >> packet_encode 2
        >> write_char (session_present % 2)
        >> write_char connack_rc)
      buf

-- The output parameters.
pub record ConnackData : Type 0 where
  pub session_present : ℕ
  pub connack_rc : ℕ

-- `len` is what MQTTPacket_decodeBuf returned: it is still in `rc` when the body is too short.
read_connack : ℕ → ℕ → ConnackData → Reader (ℤ × ConnackData)
read_connack len mylen old =
    let parse = read_char >>= λ all.
    read_char >>= λ code. pure (pos 1, record { session_present = all % 2; connack_rc = code }) in
    if ltb mylen 2 then pure (pos len, old) else parse

unfoldable pub deserialize_connack : ConnackData → Bytes → Option (ℤ × ConnackData)
unfolding read_connack
deserialize_connack old buf =
    on_buffer
      (read_char >>= λ byte.
        let parse = read_remaining >>= λ r. read_connack r.0 r.1 old in
        if (header_bits byte).type == MsgType.connack then parse else pure (pos 0, old))
      buf
