-- ===== src/Packet/Ack.antt =====
-- The acknowledgements of MQTTSerializePublish.c and MQTTDeserializePublish.c, and the packets
-- without a body of MQTTConnectClient.c.
pub mod Laws
use mbed_mqtt.Common.{
  ℕ, ◌+◌, Bool, true, false, Bytes, Option, some, ltb, ◌==◌, if◌then◌else◌, ℤ, pos,
}
use mbed_mqtt.Packet.Header.{Header, header_byte, header_bits}
use mbed_mqtt.Packet.Length.{packet_encode, read_remaining}
use mbed_mqtt.Packet.MsgType
use mbed_mqtt.Packet.Reader.{Reader, ◌>>=◌, pure, here, read_char, read_int, on_buffer}
use mbed_mqtt.Packet.Writer.{◌>>◌, write_char, write_int, checked}

unfoldable pub serialize_ack : Bytes → ℕ → ℕ → ℕ → ℕ → Option (ℤ × Bytes)
serialize_ack buf buflen packettype dup packetid =
    let header : Header = record {
      type = packettype;
      dup = dup;
      qos = if packettype == MsgType.pubrel then 1 else 0;
      retain = 0;
    } in
    checked 4 buflen (write_char (header_byte header) >> packet_encode 2 >> write_int packetid) buf

unfoldable pub serialize_puback : Bytes → ℕ → ℕ → Option (ℤ × Bytes)
serialize_puback buf buflen packetid = serialize_ack buf buflen MsgType.puback 0 packetid

unfoldable pub serialize_pubrel : Bytes → ℕ → ℕ → ℕ → Option (ℤ × Bytes)
serialize_pubrel buf buflen dup packetid = serialize_ack buf buflen MsgType.pubrel dup packetid

unfoldable pub serialize_pubcomp : Bytes → ℕ → ℕ → Option (ℤ × Bytes)
serialize_pubcomp buf buflen packetid = serialize_ack buf buflen MsgType.pubcomp 0 packetid

-- The output parameters.
pub record Ack : Type 0 where
  pub packettype : ℕ
  pub dup : ℕ
  pub packetid : ℕ

-- `len` is what MQTTPacket_decodeBuf returned: it is still in `rc` when the body is too short.
set_packetid : ℕ → ℕ → Ack → Reader (ℤ × Ack)
set_packetid len enddata a = here >>= λ curdata.
    let read = read_int >>= λ n. pure (pos 1, record a { packetid = n }) in
    if ltb enddata (curdata + 2) then pure (pos len, a) else read

after_header : ℕ → Ack → Reader (ℤ × Ack)
unfolding set_packetid
after_header byte old =
    let header = header_bits byte in
    let a = record old { dup = header.dup; packettype = header.type } in
    read_remaining >>= λ r. here >>= λ curdata. set_packetid r.0 (curdata + r.1) a

unfoldable pub deserialize_ack : Ack → Bytes → Option (ℤ × Ack)
unfolding after_header
deserialize_ack old buf = on_buffer (read_char >>= λ byte. after_header byte old) buf

unfoldable pub serialize_zero : Bytes → ℕ → ℕ → Option (ℤ × Bytes)
serialize_zero buf buflen packettype =
    let header : Header = record { type = packettype; dup = 0; qos = 0; retain = 0 } in
    checked 2 buflen (write_char (header_byte header) >> packet_encode 0) buf

unfoldable pub serialize_disconnect : Bytes → ℕ → Option (ℤ × Bytes)
serialize_disconnect buf buflen = serialize_zero buf buflen MsgType.disconnect

unfoldable pub serialize_pingreq : Bytes → ℕ → Option (ℤ × Bytes)
serialize_pingreq buf buflen = serialize_zero buf buflen MsgType.pingreq
